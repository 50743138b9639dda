-- ===== src/Mempool/Candidate.antt =====
-- mempool.py, `build_candidate`: the transactions of the next block, by reward and nonce.
pub mod Loop
pub mod Sequence
use junca_social_ecosystem_c.Common.{
  ℕ, zero, suc, ◌+◌, Bool, true, false, not, ◌&&◌, ◌||◌, Option, none, some, List, [], ◌∷◌, ◌++◌,
  map, ltb, leb, ◌==◌, if◌then◌else◌, Eq, nat_eq, list_eq, pair_eq, ◌=?◌, mem, Result, ok, err,
  ◌>>=◌, ◌>>◌, raise_if, Dict, lookup, lookup_or, insert, Text, codes, lower, text_leb, min_by,
  Json, array, object, text, number, end, field, to_items, Platform,
}
use junca_social_ecosystem_c.ProtocolKernel.Types.{
  ProtocolConfig, AccountState, empty_account, Accounts, TransactionEnvelope, transaction_hash,
}
use junca_social_ecosystem_c.Mempool.Types.{
  MempoolError, limit_out_of_bounds, TransactionPool, PoolKey, validator_reward_per_gas,
}

pub record BlockCandidate : Type 0 where
  pub transactions : List TransactionEnvelope
  pub gas_limit : ℕ
  pub gas_used : ℕ
  pub candidate_digest : Text

-- `{key.lower(): value for key, value in accounts.items()}`, onto what is there.
unfoldable pub lower_keys : Accounts → Accounts → Accounts
lower_keys normalized [] = normalized
lower_keys normalized ((key, value) ∷ rest) = lower_keys (insert (lower key) value normalized) rest

abbrev pub nonces_of : Accounts → Dict Text ℕ
nonces_of = map λ entry. (entry.0, entry.1.nonce)

-- The set of senders.
unfoldable pub senders_of : Dict PoolKey TransactionEnvelope → List Text
senders_of [] = []
senders_of (((sender, nonce), tx) ∷ d) =
    let rest = senders_of d in if mem sender rest then rest else sender ∷ rest

-- The reward by which the loop ranks; a fee cap below the base fee, for which the code raises,
-- is not among the executable transactions.
abbrev pub reward : ℕ → TransactionEnvelope → ℕ
reward base_fee tx = elim (validator_reward_per_gas tx base_fee) [ ok value ↦ value | err e ↦ 0 ]

-- The order of the keys `(-reward, hash)`.
unfoldable pub ranks_before : Platform → ℕ → TransactionEnvelope → TransactionEnvelope → Bool
ranks_before platform base_fee a b =
    ltb (reward base_fee b) (reward base_fee a)
    || (reward base_fee a == reward base_fee b
        && text_leb (transaction_hash platform a) (transaction_hash platform b))

-- The nonce that a sender's next transaction needs, with the normalized accounts.
abbrev pub next_of : Accounts → Dict Text ℕ → Text → ℕ
next_of accounts next_nonce sender =
    lookup_or (lookup_or empty_account sender accounts).nonce sender next_nonce

abbrev pub Selection : Type 0
Selection = List TransactionEnvelope × ℕ

module _ (platform : Platform) (config : ProtocolConfig) (accounts : Accounts) (base_fee : ℕ)
    (pool : TransactionPool) where
  unfoldable pub executable_from : Dict Text ℕ → List Text → List TransactionEnvelope
  executable_from next_nonce [] = []
  executable_from next_nonce (sender ∷ senders) =
      let rest = executable_from next_nonce senders in
      elim (lookup (sender, next_of accounts next_nonce sender) pool.transactions) [
        | none ↦ rest
        | some tx ↦ if leb base_fee tx.max_fee_per_gas then tx ∷ rest else rest
      ]

  abbrev pub executable : Dict Text ℕ → List TransactionEnvelope
  executable next_nonce = executable_from next_nonce (senders_of pool.transactions)

  abbrev pub best_of : TransactionEnvelope → List TransactionEnvelope → TransactionEnvelope
  best_of = min_by (ranks_before platform base_fee)

  -- The loop, with what it selects from here on and the gas used at its end.
  unfoldable pub select : ℕ → ℕ → Dict Text ℕ → ℕ → Selection
  select limit zero next_nonce gas_used = ([], gas_used)
  select limit (suc fuel) next_nonce gas_used = elim (ltb limit (gas_used + config.intrinsic_gas)) [
    | true ↦ ([], gas_used)
    | false ↦ elim (executable next_nonce) [
      | [] ↦ ([], gas_used)
      | tx ∷ txs ↦
          let best = best_of tx txs in
          let rest =
            select limit fuel (insert (lower best.sender) (best.nonce + 1) next_nonce)
              (gas_used + config.intrinsic_gas) in
          (best ∷ rest.0, rest.1)
    ]
  ]

unfoldable pub candidate_json : Platform → ProtocolConfig → ℕ → ℕ → List TransactionEnvelope → Json
candidate_json platform config limit gas_used selected = object (
    field (codes "chain_id") (number config.chain_id) (
      field (codes "gas_limit") (number limit) (
        field (codes "gas_used") (number gas_used) (
          field (codes "transactions")
            (array (to_items (λ tx. text (transaction_hash platform tx)) selected)) end))))

abbrev pub limit_of : ProtocolConfig → Option ℕ → ℕ
limit_of config none = config.block_gas_limit
limit_of config (some limit) = limit

-- `build_candidate`. A round uses gas, so that `limit` rounds are enough.
unfoldable pub build_candidate :
    Platform
    → ProtocolConfig
    → TransactionPool
    → Accounts
    → ℕ
    → Option ℕ
    → Result MempoolError BlockCandidate
build_candidate platform config pool accounts base_fee gas_limit = do
  let limit = limit_of config gas_limit
  raise_if (limit == 0 || ltb config.block_gas_limit limit) limit_out_of_bounds
  let normalized = lower_keys [] accounts
  let (selected, gas_used) =
      select platform config normalized base_fee pool limit limit (nonces_of normalized) 0
  ok (record {
    transactions = selected;
    gas_limit = limit;
    gas_used = gas_used;
    candidate_digest =
        codes "0x"
        ++ platform.sha256
            (platform.dumps (candidate_json platform config limit gas_used selected));
  })
