-- ===== src/StateStore/Tests.antt =====
-- A store that takes a genesis and a block, in concrete runs.
use Prim.Native.String.{String}
use junca_social_ecosystem_c.Common.{
  ◌+◌, ◌≡◌, ◌↔◌, refl, inl, ◌⊎◌, Bool, true, false, Option, none, some, [], ◌∷◌, ◌++◌, Result, ok,
  err, Text, codes, lower, starts_with, parses_hex, decimal,
}
use junca_social_ecosystem_c.Finality.Types.{FinalityCertificate}
use junca_social_ecosystem_c.ProtocolKernel.Types.{Accounts, BlockTransition}
use junca_social_ecosystem_c.ProtocolKernel.Execution.{compute_state_root}
use junca_social_ecosystem_c.StateStore.Types.{
  StoredBlock, BlockRow, normalize, normalize_onto, check_address, check_hash, account_fields,
  receipts_json, receipt_json, not_contiguous, fits_row,
}
use junca_social_ecosystem_c.StateStore.Store.{
  Store, Call, Commit, make_store, row_at, last_row, place_row, insert_row, head,
  initialize_genesis, place_genesis, check_commit, write_block, commit_finalized_block,
  certificate_json, committed_row, find_row,
}
use junca_social_ecosystem_c.StateStore.Integrity.{integrity_check}
use junca_social_ecosystem_c.StateStore.Checkpoint.{
  Checkpoint, digest_of, checkpoint_json, check_finality, verify_checkpoint, check_anchors,
  restore_checkpoint,
}
use junca_social_ecosystem_c.StateStore.Types.{decode_accounts, decode_onto, decode_account}
use junca_social_ecosystem_c.StateStore.Rows.{Certified}
use junca_social_ecosystem_c.StateStore.History.{
  genesis, commit, restore, Steps, done, after, stored_forever,
}
use junca_social_ecosystem_c.StateStore.Preserved.{AllProper, PassesCheck, integrity_holds}
use junca_social_ecosystem_c.StateStore.Heads.{
  BecomesHead, commit-BecomesHead, genesis_breaks_restored,
}
use junca_social_ecosystem_c.StateStore.Accepts.{Fits, Returns, commit_exactly}
use junca_social_ecosystem_c.StateStore.RoundTrip.{Transfers, export-restore}
use junca_social_ecosystem_c.StateStore.Codec.{
  codec, codec_loads, codec_dumps, some_digest, codec-Documented,
}
use junca_social_ecosystem_c.Samples.{alice, bob}

abbrev is_ok {ℓ} : {E : Type 0} {A : Type ℓ} → Result E A → Bool
is_ok (ok a) = true
is_ok (err e) = false

abbrev no_block : StoredBlock
no_block = record {
  height = 0;
  block_hash = [];
  parent_hash = [];
  state_root = [];
  base_fee_per_gas = 0;
  gas_used = 0;
  finalized = false;
  certificate_hash = none;
}

abbrev fresh : Store
fresh = record { chain_id = 5; base_height = none; blocks = []; certificates = []; timestamps = [] }

abbrev block_of : Call → StoredBlock
block_of (ok p) = p.0
block_of (err e) = no_block

abbrev store_of : Call → Store
store_of (ok p) = p.1
store_of (err e) = fresh

ran : (call : Call) → is_ok call ≡ true → call ≡ ok (block_of call, store_of call)
ran (ok (b, t)) h = refl
ran (err e) h = cc

abbrev hash_ending : String → Text
hash_ending digits =
    codes "0x00000000000000000000000000000000000000000000000000000000000000" ++ codes digits

abbrev given : Accounts
given = (alice, record { balance = 90; nonce = 1 }) ∷ (bob, record { balance = 10; nonce = 0 }) ∷ []

abbrev transition : BlockTransition
transition = record {
  chain_id = 5;
  base_fee_per_gas = 7;
  gas_used = 0;
  total_base_fee_burned = 0;
  total_validator_tips = 0;
  state_root = compute_state_root codec given;
  accounts = given;
  receipts = [];
}

abbrev certificate : FinalityCertificate
certificate = record {
  chain_id = 5;
  height = 1;
  round = 0;
  block_hash = hash_ending "b1";
  signed_power = 3;
  total_power = 4;
  validator_ids = [];
  vote_hashes = [];
  certificate_hash = hash_ending "c1";
}

abbrev first_block : Commit
first_block = record {
  height = 1;
  block_hash = hash_ending "b1";
  parent_hash = hash_ending "b0";
  transition = transition;
  certificate = certificate;
  timestamp = some 1000;
}

abbrev genesis_call : Call
genesis_call = initialize_genesis codec (hash_ending "b0") given 7 fresh

abbrev with_genesis : Store
with_genesis = store_of genesis_call

abbrev commit_call : Call
commit_call = commit_finalized_block codec first_block with_genesis

abbrev with_block : Store
with_block = store_of commit_call

opened : Unit {0}
unfolding make_store initialize_genesis place_genesis check_hash check_address normalize
    normalize_onto lower starts_with parses_hex insert_row fits_row place_row find_row row_at
    last_row head check_commit write_block commit_finalized_block certificate_json
    compute_state_root receipts_json receipt_json account_fields codec_dumps digest_of
    checkpoint_json check_finality verify_checkpoint check_anchors restore_checkpoint
    decode_accounts decode_onto decode_account decimal
opened = tt

fresh_made : make_store 5 ≡ ok fresh
unfolding opened
fresh_made = refl

genesis_ran : genesis_call ≡ ok (block_of genesis_call, with_genesis)
unfolding opened
genesis_ran = ran genesis_call refl

commit_ran : commit_call ≡ ok (block_of commit_call, with_block)
unfolding opened
commit_ran = ran commit_call refl

certified : Certified first_block
unfolding opened
certified = (refl, refl)

abbrev to_genesis : Steps codec fresh with_genesis
to_genesis = after (genesis (hash_ending "b0") given 7 (block_of genesis_call) genesis_ran) done

abbrev to_block : Steps codec fresh with_block
to_block =
    after (genesis (hash_ending "b0") given 7 (block_of genesis_call) genesis_ran)
      (after (commit first_block (block_of commit_call) commit_ran) done)

to_block-Proper : AllProper to_block
to_block-Proper = (inl refl, (certified, tt))

abbrev row_of : Option BlockRow → BlockRow
row_of (some row) = row
row_of none = committed_row codec first_block given

abbrev genesis_stored : BlockRow
genesis_stored = row_of (row_at 0 with_genesis.blocks)

abbrev block_stored : BlockRow
block_stored = row_of (row_at 1 with_block.blocks)

block_found : row_at 1 with_block.blocks ≡ some block_stored
unfolding opened
block_found = refl

genesis_found : row_at 0 with_genesis.blocks ≡ some genesis_stored
unfolding opened
genesis_found = refl

integrity_holds_example : (with_block.blocks ≡ []) ⊎ PassesCheck codec codec_loads with_block
integrity_holds_example =
    integrity_holds codec codec_loads codec-Documented 5 fresh_made to_block to_block-Proper

stored_forever_example : row_at 0 with_block.blocks ≡ some genesis_stored
stored_forever_example =
    stored_forever codec 0 genesis_stored
      (after (commit first_block (block_of commit_call) commit_ran) done) genesis_found

commit-BecomesHead_example :
    BecomesHead codec codec_loads with_genesis first_block (block_of commit_call) with_block
commit-BecomesHead_example =
    commit-BecomesHead codec codec_loads codec-Documented 5 fresh_made to_genesis (inl refl, tt)
      first_block certified commit_ran

export-restore_example : Transfers codec codec_loads with_block 1 block_stored fresh
export-restore_example =
    export-restore codec codec_loads codec-Documented 5 fresh_made to_block to_block-Proper 1
      block_found

abbrev checkpoint : Checkpoint
checkpoint = record {
  schema_version = codes "junca-state-checkpoint/v1";
  chain_id = 5;
  height = 2;
  block_hash = hash_ending "b2";
  parent_hash = hash_ending "b1";
  state_root = compute_state_root codec given;
  base_fee_per_gas = 7;
  gas_used = 0;
  finalized = true;
  certificate_hash = some (hash_ending "c2");
  accounts = account_fields given;
  checkpoint_digest = codes "0x" ++ some_digest;
}

abbrev restore_call : Call
restore_call =
    restore_checkpoint codec checkpoint checkpoint.checkpoint_digest (hash_ending "b2") fresh

abbrev with_checkpoint : Store
with_checkpoint = store_of restore_call

restore_ran : restore_call ≡ ok (block_of restore_call, with_checkpoint)
unfolding opened
restore_ran = ran restore_call refl

abbrev to_checkpoint : Steps codec fresh with_checkpoint
to_checkpoint =
    after
      (restore checkpoint checkpoint.checkpoint_digest (hash_ending "b2") (block_of restore_call)
        restore_ran)
      done

abbrev late_genesis : Call
late_genesis = initialize_genesis codec (hash_ending "b0") given 7 with_checkpoint

late_genesis_ran : late_genesis ≡ ok (block_of late_genesis, store_of late_genesis)
unfolding opened
late_genesis_ran = ran late_genesis refl

above_genesis : with_checkpoint.base_height ≡ some (0 + 2)
unfolding opened
above_genesis = refl

genesis_breaks_restored_example :
    integrity_check codec codec_loads (store_of late_genesis) ≡ err not_contiguous
genesis_breaks_restored_example =
    genesis_breaks_restored codec codec_loads codec-Documented 5 fresh_made to_checkpoint (tt, tt) 0
      above_genesis (hash_ending "b0") given 7 late_genesis_ran

commit_exactly_example :
    Returns codec with_genesis first_block ↔ Fits codec with_genesis first_block
commit_exactly_example =
    commit_exactly codec codec_loads codec-Documented 5 fresh_made to_genesis (inl refl, tt)
      first_block
