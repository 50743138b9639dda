-- ===== src/Mempool/Tests.antt =====
-- Runs of the pool on small inputs, and its theorems at them.
use junca_social_ecosystem_c.Common.{
  ◌≤◌, ◌≡◌, refl, Bool, true, none, some, List, [], ◌∷◌, arith, ok, lookup, lookup_or, lower,
  starts_with, length, nat_eq, list_eq, pair_eq, text_leb, sort_by, hex, Entries,
}
use junca_social_ecosystem_c.Samples.{sample_platform, alice, bob, or_else, sample_dumps}
use junca_social_ecosystem_c.ProtocolKernel.Types.{
  ProtocolConfig, AccountState, Accounts, empty_account, TransactionEnvelope, transaction_hash,
}
use junca_social_ecosystem_c.Mempool.Types.{
  MempoolPolicy, TransactionPool, key_of, remove_hash, validate_replacement, required_fee,
  validator_reward_per_gas,
}
use junca_social_ecosystem_c.Mempool.Pool.{
  admit, store, place_new, replace, admit_over, validate_admission_boundary, prune,
}
use junca_social_ecosystem_c.Mempool.Pool.Synced.{Synced}
use junca_social_ecosystem_c.Mempool.Pool.Pruned.{dropped, kept, prune_exact}
use junca_social_ecosystem_c.Mempool.Pool.History.{
  Op, admits, includes, prunes, run, step, Sound, run-Sound,
}
use junca_social_ecosystem_c.Mempool.Snapshot.Records.{IsEncoded}
use junca_social_ecosystem_c.Mempool.Snapshot.Pending.{Passes}
use junca_social_ecosystem_c.Mempool.Snapshot.RoundTrip.{Restores, restore-export}
use junca_social_ecosystem_c.Mempool.Candidate.{
  BlockCandidate, build_candidate, lower_keys, senders_of, executable_from, select, ranks_before,
  candidate_json, nonces_of,
}
use junca_social_ecosystem_c.Mempool.Candidate.Loop.{Selects}
use junca_social_ecosystem_c.Mempool.Candidate.Sequence.{
  nonces_by, count_up, build_candidate-Selects, build_candidate_nonces,
}

abbrev config : ProtocolConfig
config = record {
  chain_id = 7;
  block_gas_limit = 63;
  target_gas = 50;
  initial_base_fee = 8;
  base_fee_change_denominator = 8;
  intrinsic_gas = 21;
  max_transaction_data_bytes = 4;
}

abbrev policy : MempoolPolicy
policy = record {
  max_transactions = 3;
  max_per_sender = 2;
  max_nonce_gap = 4;
  replacement_bump_percent = 10;
}

abbrev payment : TransactionEnvelope
payment = record {
  chain_id = 7;
  sender = alice;
  recipient = bob;
  nonce = 0;
  value = 100;
  gas_limit = 21;
  max_fee_per_gas = 20;
  max_priority_fee_per_gas = 2;
  payload = [];
  signature = 9 ∷ [];
}

abbrev next_payment : TransactionEnvelope
next_payment = record payment { nonce = 1 }

abbrev dearer : TransactionEnvelope
dearer = record payment { max_fee_per_gas = 22; max_priority_fee_per_gas = 3 }

abbrev rich : AccountState
rich = record { balance = 1000; nonce = 0 }

abbrev accounts : Accounts
accounts = (alice, rich) ∷ []

abbrev accept : TransactionEnvelope → Bool
accept tx = true

abbrev empty_pool : TransactionPool
empty_pool = record { transactions = []; hashes = [] }

abbrev calls : List Op
calls =
    admits next_payment rich 8 accept
    ∷ admits payment rich 8 accept
    ∷ admits dearer rich 8 accept
    ∷ includes (dearer ∷ [])
    ∷ prunes accounts 21
    ∷ []

run-Sound_example :
    Sound sample_platform config policy (run sample_platform config policy empty_pool calls)
run-Sound_example = run-Sound sample_platform config policy calls

-- What a run computes through.
opened : Unit {0}
unfolding admit store place_new replace admit_over validate_admission_boundary remove_hash
    validate_replacement required_fee transaction_hash starts_with lower sample_dumps hex step run
    lower_keys senders_of executable_from select ranks_before validator_reward_per_gas
    candidate_json build_candidate
opened = tt

abbrev filled : TransactionPool
unfolding opened
filled =
    run sample_platform config policy empty_pool
      (admits next_payment rich 8 accept ∷ admits payment rich 8 accept ∷ [])

filled-Synced : Synced sample_platform filled
unfolding opened
filled-Synced =
    (run-Sound sample_platform config policy
      (admits next_payment rich 8 accept ∷ admits payment rich 8 accept ∷ [])).synced

abbrev replaced_pool : TransactionPool
unfolding opened
replaced_pool = or_else empty_pool (admit sample_platform config policy dearer rich 8 accept filled)

replacing : admit sample_platform config policy dearer rich 8 accept filled ≡ ok replaced_pool
unfolding opened
replacing = refl

held_payment : lookup (key_of dearer) filled.transactions ≡ some payment
unfolding opened
held_payment = refl

prune_exact_example :
    (pool' : TransactionPool) × (prune sample_platform config policy accounts 21 filled
      ≡ ok (
        pool',
        sort_by text_leb (dropped sample_platform config policy accounts 21 filled.transactions),
      ))
    × Synced sample_platform pool'
    × (pool'.transactions ≡ kept sample_platform config policy accounts 21 filled.transactions)
prune_exact_example = prune_exact sample_platform config policy accounts 21 filled filled-Synced

abbrev no_candidate : BlockCandidate
no_candidate = record { transactions = []; gas_limit = 0; gas_used = 0; candidate_digest = [] }

abbrev candidate : BlockCandidate
unfolding opened
candidate = or_else no_candidate (build_candidate sample_platform config filled accounts 8 none)

building : build_candidate sample_platform config filled accounts 8 none ≡ ok candidate
unfolding opened
building = refl

picks_in_order : candidate.transactions ≡ payment ∷ next_payment ∷ []
unfolding opened
picks_in_order = refl

build_candidate-Selects_example :
    Selects sample_platform config
      (lower_keys [] accounts)
      8
      filled
      candidate.gas_limit
      (nonces_of (lower_keys [] accounts))
      0
      candidate.transactions
      candidate.gas_used
    × (candidate.gas_limit ≤ 63)
build_candidate-Selects_example =
    build_candidate-Selects sample_platform config filled accounts 8 none (omega arith)
      filled-Synced.filed building

build_candidate_nonces_example :
    nonces_by (lower alice) candidate.transactions
    ≡ count_up
        (lookup_or empty_account (lower alice) (lower_keys [] accounts)).nonce
        (length (nonces_by (lower alice) candidate.transactions))
build_candidate_nonces_example =
    build_candidate_nonces sample_platform config filled accounts 8 none (lower alice) (omega arith)
      filled-Synced.filed building

filled-Encoded : Entries (λ key tx. IsEncoded tx) filled.transactions
unfolding opened
filled-Encoded = (
  record { payload = tt; signature = (omega arith, tt) },
  (record { payload = tt; signature = (omega arith, tt) }, tt),
)

filled-Passes :
    Entries
      (λ key tx. Passes sample_platform config policy (lower_keys [] accounts) 8 accept tx)
      filled.transactions
unfolding opened
filled-Passes = (refl, (refl, tt))

filled-Sound : Sound sample_platform config policy filled
unfolding opened
filled-Sound =
    run-Sound sample_platform config policy
      (admits next_payment rich 8 accept ∷ admits payment rich 8 accept ∷ [])

restore-export_example : Restores sample_platform config policy accounts 8 accept filled empty_pool
restore-export_example =
    restore-export sample_platform config policy accounts 8 accept filled empty_pool filled-Sound
      refl filled-Encoded filled-Passes
