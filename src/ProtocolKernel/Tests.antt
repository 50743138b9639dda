-- ===== src/ProtocolKernel/Tests.antt =====
-- Runs of the kernel on small inputs, and its theorems at them.
use junca_social_ecosystem_c.Common.{
  ◌+◌, ◌≤◌, ◌*◌, ◌/◌, max, ◌≡◌, ◌≢◌, refl, Bool, true, List, [], ◌∷◌, length, sum_by, arith, ok,
  hex, ne_of_beq, lower, starts_with, parses_hex, nat_eq, list_eq, sum_by,
}
use junca_social_ecosystem_c.Samples.{sample_platform, alice, bob, or_else, sample_dumps}
use junca_social_ecosystem_c.ProtocolKernel.Types.{
  ProtocolConfig, Accounts, TransactionEnvelope, BlockTransition, validate_transaction,
  transaction_hash,
}
use junca_social_ecosystem_c.ProtocolKernel.BaseFee.{adjusted_fee, next_base_fee, fee_delta}
use junca_social_ecosystem_c.ProtocolKernel.BaseFee.Bounds.{next_base_fee_bounds}
use junca_social_ecosystem_c.ProtocolKernel.Execution.{
  Progress, start, normalize_from, apply_transaction, apply_all, settle, transfer, total_debit,
  priority_fee, receipt_of, transition_of, execute_block,
}
use junca_social_ecosystem_c.ProtocolKernel.Execution.Conservation.{
  total_balance, execute_block_conserves,
}
use junca_social_ecosystem_c.ProtocolKernel.Execution.Receipts.{receipts_of, execute_block_receipts}
use junca_social_ecosystem_c.ProtocolKernel.Execution.SelfTransfer.{self_transfer_mints}

abbrev config : ProtocolConfig
config = record {
  chain_id = 7;
  block_gas_limit = 100;
  target_gas = 50;
  initial_base_fee = 8;
  base_fee_change_denominator = 8;
  intrinsic_gas = 21;
  max_transaction_data_bytes = 4;
}

abbrev payment : TransactionEnvelope
payment = record {
  chain_id = 7;
  sender = alice;
  recipient = bob;
  nonce = 0;
  value = 100;
  gas_limit = 21;
  max_fee_per_gas = 20;
  max_priority_fee_per_gas = 2;
  payload = [];
  signature = 9 ∷ [];
}

abbrev second_payment : TransactionEnvelope
second_payment = record payment { nonce = 1; value = 50 }

abbrev to_self : TransactionEnvelope
to_self = record payment { recipient = alice }

abbrev accounts : Accounts
accounts = (alice, record { balance = 1000; nonce = 0 }) ∷ []

abbrev accept : TransactionEnvelope → Bool
accept tx = true

abbrev no_block : BlockTransition
no_block = record {
  chain_id = 0;
  base_fee_per_gas = 0;
  gas_used = 0;
  total_base_fee_burned = 0;
  total_validator_tips = 0;
  state_root = [];
  accounts = [];
  receipts = [];
}

abbrev run_block : List TransactionEnvelope → BlockTransition
unfolding execute_block
run_block txs = or_else no_block (execute_block sample_platform config 8 100 accounts txs accept)

-- What a run computes through.
opened : Unit {0}
unfolding execute_block normalize_from next_base_fee adjusted_fee fee_delta apply_all
    apply_transaction settle transfer total_debit priority_fee transition_of validate_transaction
    transaction_hash starts_with parses_hex lower sample_dumps hex receipt_of
opened = tt

-- The fee rises from 8 to 9 after a full block.
full_block_fee : next_base_fee config 8 100 ≡ ok 9
unfolding opened
full_block_fee = refl

two_payments :
    execute_block sample_platform config 8 100 accounts (payment ∷ second_payment ∷ []) accept
    ≡ ok (run_block (payment ∷ second_payment ∷ []))
unfolding opened
two_payments = refl

one_to_self :
    execute_block sample_platform config 8 100 accounts (to_self ∷ []) accept
    ≡ ok (run_block (to_self ∷ []))
unfolding opened
one_to_self = refl

differ : lower alice ≢ lower bob
unfolding opened
differ = ne_of_beq (lower alice) (lower bob) refl

next_base_fee_bounds_example : (9 ≤ 8 + max (8 / 8) 1) × (8 ≤ 9 + 8 / 8)
next_base_fee_bounds_example =
    next_base_fee_bounds config 8 100 (omega arith) (omega arith) full_block_fee

execute_block_conserves_example :
    let t = run_block (payment ∷ second_payment ∷ []) in
    total_balance t.accounts + t.total_base_fee_burned + t.total_validator_tips ≡ 1000
execute_block_conserves_example =
    execute_block_conserves sample_platform config 8 100 accounts (payment ∷ second_payment ∷ [])
      accept (differ, (differ, tt)) two_payments

self_transfer_mints_example : total_balance (run_block (to_self ∷ [])).accounts ≡ 1100
self_transfer_mints_example =
    self_transfer_mints sample_platform config 8 100 accounts to_self accept refl one_to_self

execute_block_receipts_example :
    let t = run_block (payment ∷ second_payment ∷ []) in
    (t.receipts
      ≡ receipts_of sample_platform config t.base_fee_per_gas 0 (payment ∷ second_payment ∷ []))
    × (t.gas_used ≡ 21 * length t.receipts)
    × (t.gas_used ≤ 100)
    × (t.total_base_fee_burned ≡ t.base_fee_per_gas * t.gas_used)
    × (t.total_validator_tips ≡ sum_by (λ r. r.validator_tip) t.receipts)
execute_block_receipts_example =
    execute_block_receipts sample_platform config 8 100 accounts (payment ∷ second_payment ∷ [])
      accept two_payments

abbrev after_payment : Progress
after_payment = settle sample_platform config 9 0 payment (start accounts)

first_round :
    apply_transaction sample_platform config 9 accept 0 payment (start accounts) ≡ ok after_payment
unfolding opened
first_round = refl

one_round :
    apply_all sample_platform config 9 accept 0 (payment ∷ []) (start accounts) ≡ ok after_payment
unfolding opened
one_round = refl
