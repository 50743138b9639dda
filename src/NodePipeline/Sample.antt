-- ===== src/NodePipeline/Sample.antt =====
-- A node that proposes a block with one payment, in a concrete run.
use junca_social_ecosystem_c.Common.{
  ℕ, ◌≡◌, refl, arith, Bool, true, false, none, some, [], ◌∷◌, any_of, nat_eq, list_eq, ◌=?◌,
  text_iff, Result, ok, Text, codes, lower, starts_with, parses_hex, decimal, hex,
}
use junca_social_ecosystem_c.Samples.{alice, bob, or_else, or_else-ok}
use junca_social_ecosystem_c.Finality.Types.{FinalityCertificate}
use junca_social_ecosystem_c.ProtocolKernel.Types.{
  ProtocolConfig, Accounts, TransactionEnvelope, transaction_hash, validate_transaction, address,
}
use junca_social_ecosystem_c.ProtocolKernel.BaseFee.{next_base_fee, adjusted_fee, fee_delta}
use junca_social_ecosystem_c.ProtocolKernel.Execution.{
  normalize_from, apply_transaction, apply_all, settle, transfer, total_debit, priority_fee,
  receipt_of, transition_of, execute_block, compute_state_root,
}
use junca_social_ecosystem_c.Mempool.Types.{TransactionPool, key_of, validator_reward_per_gas}
use junca_social_ecosystem_c.Mempool.Pool.Synced.{Synced}
use junca_social_ecosystem_c.Mempool.Candidate.{
  build_candidate, lower_keys, senders_of, executable_from, select, ranks_before, candidate_json,
}
use junca_social_ecosystem_c.StateStore.Types.{
  StoredBlock, normalize, normalize_onto, check_address, check_hash, account_fields, decode_value,
  decode_accounts_json, decode_accounts, decode_onto, decode_account, fits_row,
}
use junca_social_ecosystem_c.StateStore.Store.{
  Store, Call, make_store, row_at, last_row, place_row, insert_row, head, initialize_genesis,
  place_genesis, accounts_at, accounts_at_head, find_row,
}
use junca_social_ecosystem_c.StateStore.Rows.{Certified}
use junca_social_ecosystem_c.StateStore.History.{Steps, genesis, done, after}
use junca_social_ecosystem_c.StateStore.Conditions.{Storable}
use junca_social_ecosystem_c.StateStore.Codec.{codec, codec_loads, codec_dumps}
use junca_social_ecosystem_c.NodePipeline.Pipeline.{
  ExecutedProposal, Node, NodePipelineError, header_json, header_hash, commit_of, execute_candidate,
}
use junca_social_ecosystem_c.NodePipeline.Commits.{Certifies}

abbrev pub config : ProtocolConfig
config = record {
  chain_id = 5;
  block_gas_limit = 42;
  target_gas = 21;
  initial_base_fee = 8;
  base_fee_change_denominator = 8;
  intrinsic_gas = 21;
  max_transaction_data_bytes = 4;
}

abbrev pub payment : TransactionEnvelope
payment = record {
  chain_id = 5;
  sender = alice;
  recipient = bob;
  nonce = 0;
  value = 100;
  gas_limit = 21;
  max_fee_per_gas = 20;
  max_priority_fee_per_gas = 2;
  payload = [];
  signature = 9 ∷ [];
}

abbrev pub accept : TransactionEnvelope → Bool
accept tx = true

abbrev pub pool : TransactionPool
pool = record {
  transactions = (key_of payment, payment) ∷ [];
  hashes = transaction_hash codec payment ∷ [];
}

pub pool-Synced : Synced codec pool
pool-Synced = record {
  keyed = (refl, tt);
  filed = (refl, tt);
  distinct = (refl, tt);
  counted = λ h. ground (
    arith,
    text_iff (transaction_hash codec payment) h,
    text_iff h (transaction_hash codec payment),
  );
}

abbrev pub given : Accounts
given = (alice, record { balance = 1000; nonce = 0 }) ∷ []

abbrev pub fresh : Store
fresh = record { chain_id = 5; base_height = none; blocks = []; certificates = []; timestamps = [] }

abbrev pub genesis_hash : Text
genesis_hash = codes "0x00000000000000000000000000000000000000000000000000000000000000b0"

abbrev pub no_block : StoredBlock
no_block = record {
  height = 0;
  block_hash = [];
  parent_hash = [];
  state_root = [];
  base_fee_per_gas = 0;
  gas_used = 0;
  finalized = false;
  certificate_hash = none;
}

abbrev pub genesis_call : Call
genesis_call = initialize_genesis codec genesis_hash given 8 fresh

abbrev pub begun : StoredBlock × Store
begun = or_else (no_block, fresh) genesis_call

abbrev pub node : Node
node = record { pool = pool; store = begun.1 }

abbrev pub proposal_call : Result NodePipelineError ExecutedProposal
proposal_call = execute_candidate codec config codec_loads accept (some 1000) node

abbrev pub no_proposal : ExecutedProposal
no_proposal = record {
  height = 0;
  parent_hash = [];
  block_hash = [];
  block_timestamp = none;
  candidate = record { transactions = []; gas_limit = 0; gas_used = 0; candidate_digest = [] };
  transition = record {
    chain_id = 0;
    base_fee_per_gas = 0;
    gas_used = 0;
    total_base_fee_burned = 0;
    total_validator_tips = 0;
    state_root = [];
    accounts = [];
    receipts = [];
  };
}

abbrev pub proposal : ExecutedProposal
proposal = or_else no_proposal proposal_call

abbrev pub certificate : FinalityCertificate
certificate = record {
  chain_id = 5;
  height = 1;
  round = 0;
  block_hash = proposal.block_hash;
  signed_power = 3;
  total_power = 4;
  validator_ids = [];
  vote_hashes = [];
  certificate_hash = codes "0x00000000000000000000000000000000000000000000000000000000000000c1";
}

unfoldable pub opened : Unit {0}
unfolding make_store initialize_genesis place_genesis check_hash check_address normalize
    normalize_onto lower starts_with parses_hex insert_row fits_row place_row find_row row_at
    last_row head compute_state_root account_fields codec_dumps codec_loads decode_value
    decode_accounts_json decode_accounts decode_onto decode_account decimal hex header_json
    header_hash execute_candidate accounts_at accounts_at_head build_candidate lower_keys senders_of
    executable_from select ranks_before candidate_json transaction_hash validator_reward_per_gas
    execute_block next_base_fee adjusted_fee fee_delta normalize_from address apply_transaction
    apply_all settle transfer total_debit priority_fee receipt_of transition_of validate_transaction
opened = tt

pub fresh_made : make_store 5 ≡ ok fresh
unfolding opened
fresh_made = refl

pub genesis_ran : genesis_call ≡ ok begun
unfolding opened
genesis_ran = or_else-ok (no_block, fresh) genesis_call refl

pub proposal_ran : proposal_call ≡ ok proposal
unfolding opened
proposal_ran = or_else-ok no_proposal proposal_call refl

pub one_payment : proposal.candidate.transactions ≡ payment ∷ []
unfolding opened
one_payment = refl

abbrev pub to_genesis : Steps codec fresh node.store
to_genesis = after (genesis genesis_hash given 8 begun.0 genesis_ran) done

pub certificate-Certifies : Certifies config proposal certificate
unfolding opened
certificate-Certifies = record { chain = refl; height = refl; hash = refl; quorum = omega arith }

pub certificate-Certified : Certified (commit_of proposal certificate)
unfolding opened
certificate-Certified = (refl, refl)

pub certificate-Storable : Storable (commit_of proposal certificate)
unfolding opened
certificate-Storable = record {
  height = omega arith;
  base_fee = omega arith;
  gas_used = omega arith;
  timestamp = refl;
}

pub unused : any_of (λ row. row.block_hash =? proposal.block_hash) node.store.blocks ≡ false
unfolding opened
unused = refl

pub of_chain : ◌≡◌ {A = ℕ} node.store.chain_id 5
unfolding opened
of_chain = refl
