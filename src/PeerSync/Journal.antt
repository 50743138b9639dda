-- ===== src/PeerSync/Journal.antt =====
-- peer_sync.py, `RecoveryJournal`. Its file is there or not; `os.replace` and `unlink` change it at
-- once, so that a crash leaves the content before the call or after it.
use junca_social_ecosystem_c.Common.{
  ℕ, ◌+◌, Bool, true, false, not, ◌&&◌, ◌||◌, Option, none, some, List, [], ◌∷◌, as_text, as_number,
  find_field, has_exactly, ◌++◌, ◌==◌, nat_eq, list_eq, ◌=?◌, Result, ok, err, Check, ◌>>=◌, ◌>>◌,
  raise_if, or_raise, Text, codes, Json, Fields, text, number, object, end, field, Platform,
  tagged_digest, if◌then◌else◌,
}
use junca_social_ecosystem_c.NodePipeline.Pipeline.{ExecutedProposal}
use junca_social_ecosystem_c.StateStore.Types.{StoredBlock, Loads}
use junca_social_ecosystem_c.StateStore.Store.{Store, head}
use junca_social_ecosystem_c.PeerSync.Registry.{
  PeerSyncError, bad_peer_id, bad_values, bad_chain_id, already_active, unbound_record, unreadable,
  bad_fields, integrity_failure, not_reconciled, store_error, check_hash, is_bad_peer,
}

pub data RecoveryAction : Type 0 where
  clean retry_required commit_confirmed : RecoveryAction

pub data Status : Type 0 where
  prepared committed : Status

pub record JournalRecord : Type 0 where
  pub chain_id : ℕ
  pub status : Status
  pub peer_id : Text
  pub height : ℕ
  pub parent_hash : Text
  pub block_hash : Text
  pub state_root : Text

pub record Journal : Type 0 where
  pub chain_id : ℕ
  pub file : Option Text

-- `RecoveryJournal.__init__`
unfoldable pub make_journal : ℕ → Option Text → Result PeerSyncError Journal
make_journal chain_id file = do
  raise_if (chain_id == 0) bad_chain_id
  ok (record { chain_id = chain_id; file = file })

abbrev pub status_text : Status → Text
status_text prepared = codes "PREPARED"
status_text committed = codes "COMMITTED"

abbrev pub journal_schema : Text
journal_schema = codes "junca-block-import-journal/v1"

-- The fields behind the digest's.
abbrev pub last_fields : JournalRecord → Fields
last_fields r = field (codes "schema_version") (text journal_schema) (
    field (codes "state_root") (text r.state_root)
      (field (codes "status") (text (status_text r.status)) end))

-- The fields in front of it, in the order in which `dumps` writes them.
abbrev pub first_fields : JournalRecord → Fields → Fields
first_fields r rest = field (codes "block_hash") (text r.block_hash) (
    field (codes "chain_id") (number r.chain_id) (
      field (codes "height") (number r.height) (
        field (codes "parent_hash") (text r.parent_hash)
          (field (codes "peer_id") (text r.peer_id) rest))))

abbrev pub body_json : JournalRecord → Json
body_json r = object (first_fields r (last_fields r))

abbrev pub signed_json : JournalRecord → Text → Json
signed_json r digest =
    object (first_fields r (field (codes "record_digest") (text digest) (last_fields r)))

unfoldable pub status_of : Text → Option Status
status_of s =
    if s =? codes "PREPARED"
    then some prepared
    else if s =? codes "COMMITTED"
    then some committed
    else none

abbrev pub journal_names : List Text
journal_names =
    codes "schema_version"
    ∷ codes "chain_id"
    ∷ codes "status"
    ∷ codes "peer_id"
    ∷ codes "height"
    ∷ codes "parent_hash"
    ∷ codes "block_hash"
    ∷ codes "state_root"
    ∷ codes "record_digest"
    ∷ []

-- The fields by their names, and the digest. Another schema, status or type of a value, which
-- `read` refuses after it has tested the digest, is refused here.
unfoldable pub record_from_fields : Fields → Result PeerSyncError (JournalRecord × Text)
record_from_fields raw = do
  schema ← or_raise (as_text (find_field (codes "schema_version") raw)) bad_fields
  chain_id ← or_raise (as_number (find_field (codes "chain_id") raw)) bad_fields
  status ← or_raise (as_text (find_field (codes "status") raw)) bad_fields
  peer_id ← or_raise (as_text (find_field (codes "peer_id") raw)) bad_fields
  height ← or_raise (as_number (find_field (codes "height") raw)) bad_fields
  parent_hash ← or_raise (as_text (find_field (codes "parent_hash") raw)) bad_fields
  block_hash ← or_raise (as_text (find_field (codes "block_hash") raw)) bad_fields
  state_root ← or_raise (as_text (find_field (codes "state_root") raw)) bad_fields
  digest ← or_raise (as_text (find_field (codes "record_digest") raw)) bad_fields
  s ← or_raise (status_of status) bad_fields
  raise_if (not (schema =? journal_schema)) bad_fields
  ok (
    record {
      chain_id = chain_id;
      status = s;
      peer_id = peer_id;
      height = height;
      parent_hash = parent_hash;
      block_hash = block_hash;
      state_root = state_root;
    },
    digest,
  )

-- The record that `loads` has read; it has exactly the nine fields.
unfoldable pub parse_record : Json → Result PeerSyncError (JournalRecord × Text)
parse_record (object raw) = do
  raise_if (not (has_exactly journal_names raw)) bad_fields
  record_from_fields raw
parse_record j = err bad_fields

-- `clear`
abbrev pub clear : Journal → Journal
clear j = record j { file = none }

abbrev pub is_active : Option JournalRecord → Bool
is_active none = false
is_active (some r) = true

abbrev pub prepared_record : ℕ → Text → ExecutedProposal → JournalRecord
prepared_record chain_id peer_id proposal = record {
  chain_id = chain_id;
  status = prepared;
  peer_id = peer_id;
  height = proposal.height;
  parent_hash = proposal.parent_hash;
  block_hash = proposal.block_hash;
  state_root = proposal.transition.state_root;
}

module _ (platform : Platform) where
  -- `_digest`
  unfoldable pub record_digest : JournalRecord → Text
  record_digest r =
      tagged_digest platform (codes "JUNCA_BLOCK_IMPORT_JOURNAL_V1" ++ 0 ∷ [])
        (platform.dumps (body_json r))

  -- `_write`
  unfoldable pub write : JournalRecord → Journal → Journal
  write r j = record j { file = some (platform.dumps (signed_json r (record_digest r))) }

  -- The tests of `read` on a record with all its fields.
  unfoldable pub check_record : Journal → JournalRecord × Text → Check PeerSyncError
  check_record j (r, digest) = do
    raise_if (not (digest =? record_digest r) || not (r.chain_id == j.chain_id)) integrity_failure
    raise_if (is_bad_peer r.peer_id || r.height == 0) bad_values
    check_hash r.parent_hash
    check_hash r.block_hash
    check_hash r.state_root
    check_hash digest

  unfoldable pub read_text : Loads → Journal → Text → Result PeerSyncError JournalRecord
  read_text loads j content = do
    raw ← or_raise (loads content) unreadable
    parsed ← parse_record raw
    check_record j parsed
    ok parsed.0

  -- `read`
  unfoldable pub read_file :
      Loads → Journal → Option Text → Result PeerSyncError (Option JournalRecord)
  read_file loads j none = ok none
  read_file loads j (some content) = do r ← read_text loads j content; ok (some r)

  abbrev pub read : Loads → Journal → Result PeerSyncError (Option JournalRecord)
  read loads j = read_file loads j j.file

  -- `begin`
  unfoldable pub begin : Loads → Text → ExecutedProposal → Journal → Result PeerSyncError Journal
  begin loads peer_id proposal j = do
    raise_if (is_bad_peer peer_id) bad_peer_id
    active ← read loads j
    raise_if (is_active active) already_active
    ok (write (prepared_record j.chain_id peer_id proposal) j)

  unfoldable pub mark_record :
      Option JournalRecord → StoredBlock → Journal → Result PeerSyncError Journal
  mark_record none block j = err unbound_record
  mark_record (some r) block j = do
    raise_if (not (r.block_hash =? block.block_hash)) unbound_record
    ok (write (record r { status = committed }) j)

  -- `mark_committed`
  unfoldable pub mark_committed : Loads → StoredBlock → Journal → Result PeerSyncError Journal
  mark_committed loads block j = do r ← read loads j; mark_record r block j

  -- What `recover` does with the head.
  unfoldable pub reconcile :
      StoredBlock → JournalRecord → Journal → Result PeerSyncError (RecoveryAction × Journal)
  reconcile block r j =
      if block.height == r.height && block.block_hash =? r.block_hash
      then ok (commit_confirmed, clear j)
      else if block.height + 1 == r.height && block.block_hash =? r.parent_hash
      then ok (retry_required, j)
      else err not_reconciled

  unfoldable pub recover_record :
      Store → Journal → Option JournalRecord → Result PeerSyncError (RecoveryAction × Journal)
  recover_record s j none = ok (clean, j)
  recover_record s j (some r) = elim (head s) [
    | err e ↦ err (store_error e)
    | ok block ↦ reconcile block r j
  ]

  -- `recover`
  unfoldable pub recover : Loads → Store → Journal → Result PeerSyncError (RecoveryAction × Journal)
  recover loads s j = do r ← read loads j; recover_record s j r
