-- ===== src/RelayerJournal/Queue.antt =====
-- relayer_journal.py, `RelayerJournal`. A call that raises is rolled back, so it gives an error
-- and no journal.
pub mod Audit
pub mod Rows
pub mod Consistent
pub mod Leases
pub mod Oldest
use junca_social_ecosystem_c.Common.{
  ℕ, ◌+◌, Bool, true, false, not, ◌&&◌, ◌||◌, Option, none, some, List, [], ◌∷◌, ◌++◌, ltb, leb,
  ◌==◌, if◌then◌else◌, length, take, keep_if, any_of, Eq, nat_eq, list_eq, pair_eq, ◌=?◌, Result,
  ok, err, ◌>>=◌, ◌>>◌, raise_if, require, or_raise, Dict, lookup, contains, insert, min_by,
  text_leb, Text, codes, is_empty, strip, decimal, Json, object, text, field, end, Platform,
}
use junca_social_ecosystem_c.RelayerJournal.Types.{
  RelayerJournalError, invalid_identity, invalid_nonce, replay, invalid_lease, invalid_transaction,
  ownership_mismatch, missing_reason, unknown_message, bad_max_attempts, integrity, State, pending,
  leased, executed, dead_letter, Payload, QueueRow, AuditRow, Journal, QueueItem,
}

-- `RelayerJournal.__init__` on a new file.
unfoldable pub make_journal : ℕ → Result RelayerJournalError Journal
make_journal max_attempts = do
  raise_if (max_attempts == 0) bad_max_attempts
  ok (record { max_attempts = max_attempts; queue = []; audit_log = [] })

-- `"0" * 64`
abbrev pub zeros : Text
zeros = codes "0000000000000000000000000000000000000000000000000000000000000000"

-- The names that the table writes for its states.
abbrev pub name_of : State → Text
name_of pending = codes "PENDING"
name_of leased = codes "LEASED"
name_of executed = codes "EXECUTED"
name_of dead_letter = codes "DEAD_LETTER"

-- The hash of the last entry.
unfoldable pub last_hash : Text → List AuditRow → Text
last_hash previous [] = previous
last_hash previous (row ∷ rows) = last_hash row.entry_hash rows

abbrev pub item_of : Text → QueueRow → QueueItem
item_of digest row = record {
  message_digest = digest;
  state = row.state;
  attempts = row.attempts;
  lease_owner = row.lease_owner;
  lease_expires_at = row.lease_expires_at;
  payload = row.payload;
}

unfoldable pub get : Text → Journal → Result RelayerJournalError QueueItem
get digest j = elim (lookup digest j.queue) [
  | none ↦ err unknown_message
  | some row ↦ ok (item_of digest row)
]

abbrev pub is_leased : State → Bool
is_leased leased = true
is_leased _ = false

abbrev pub is_pending : State → Bool
is_pending pending = true
is_pending _ = false

abbrev pub expired : Option ℕ → ℕ → Bool
expired none timestamp = false
expired (some expiry) timestamp = leb expiry timestamp

-- The condition of the two statements of `lease`.
unfoldable pub available : ℕ → QueueRow → Bool
available timestamp row =
    is_pending row.state || (is_leased row.state && expired row.lease_expires_at timestamp)

-- `state='LEASED' AND lease_owner=?`
abbrev pub owned : Option Text → Text → Bool
owned none owner = false
owned (some holder) owner = holder =? owner

unfoldable pub held_by : Text → QueueRow → Bool
held_by owner row = is_leased row.state && owned row.lease_owner owner

-- `ORDER BY created_at, message_digest`
abbrev pub earlier : Text × QueueRow → Text × QueueRow → Bool
earlier (d, r) (e, s) =
    ltb r.created_at s.created_at || (r.created_at == s.created_at && text_leb d e)

unfoldable pub first_available : ℕ → Dict Text QueueRow → Option Text
first_available timestamp queue = elim (keep_if (λ entry. available timestamp entry.1) queue) [
  | [] ↦ none
  | entry ∷ entries ↦ some (min_by earlier entry entries).0
]

-- The row that `lease` writes.
abbrev pub lease_to : Text → ℕ → ℕ → QueueRow → QueueRow
lease_to owner timestamp seconds row = record row {
  state = leased;
  attempts = row.attempts + 1;
  lease_owner = some owner;
  lease_expires_at = some (timestamp + seconds);
  updated_at = timestamp;
}

-- The row that a lease's end writes: the state and what else is set are given by the caller.
abbrev pub release : ℕ → State → QueueRow → QueueRow
release timestamp state row = record row {
  state = state;
  lease_owner = none;
  lease_expires_at = none;
  updated_at = timestamp;
}

-- The unique columns of a new row are taken.
unfoldable pub is_taken : Payload → ℕ → Dict Text QueueRow → Bool
is_taken p nonce queue =
    contains p.message_digest queue
    || any_of
        (λ entry.
          entry.1.source_transaction =? p.source_transaction
          || (entry.1.source_network =? p.source_network && entry.1.source_nonce == nonce))
        queue

-- The state after a failure.
unfoldable pub failed_state : ℕ → QueueRow → State
failed_state max_attempts row = if leb max_attempts row.attempts then dead_letter else pending

module _ (platform : Platform) where
  -- `_entry_hash`
  unfoldable pub entry_hash : Text → Text → Text → Text → ℕ → Text
  entry_hash previous event digest details timestamp =
      platform.sha256 (previous ++ 0 ∷ event ++ 0 ∷ digest ++ 0 ∷ details ++ 0 ∷ decimal timestamp)

  -- The loop of `verify_audit_chain`.
  unfoldable pub verify_from : Text → List AuditRow → Bool
  verify_from previous [] = true
  verify_from previous (row ∷ rows) =
      if not (row.previous_hash =? previous)
        || not (
            row.entry_hash
            =? entry_hash previous row.event_type row.message_digest row.details row.created_at)
      then false
      else verify_from row.entry_hash rows

  abbrev pub verify_audit_chain : Journal → Bool
  verify_audit_chain j = verify_from zeros j.audit_log

  -- The entry that `_audit` writes.
  unfoldable pub audit_row : Text → Text → Json → ℕ → List AuditRow → AuditRow
  audit_row event digest details timestamp log =
      let previous = last_hash zeros log in
      let canonical = platform.dumps details in
      record {
        event_type = event;
        message_digest = digest;
        details = canonical;
        previous_hash = previous;
        entry_hash = entry_hash previous event digest canonical timestamp;
        created_at = timestamp;
      }

  -- `_audit`; `entry_hash` is unique in the table.
  unfoldable pub audit : Text → Text → Json → ℕ → Journal → Result RelayerJournalError Journal
  audit event digest details timestamp j =
      let row = audit_row event digest details timestamp j.audit_log in
      if any_of (λ other. other.entry_hash =? row.entry_hash) j.audit_log
      then err integrity
      else ok (record j { audit_log = j.audit_log ++ row ∷ [] })

  -- The row is written, the audit entry follows, and both are rolled back together.
  unfoldable pub write :
      Text → QueueRow → Text → Json → ℕ → Journal → Result RelayerJournalError (QueueItem × Journal)
  write digest row event details timestamp j = do
    j' ← audit event digest details timestamp (record j { queue = insert digest row j.queue })
    item ← get digest j'
    ok (item, j')

  abbrev pub new_row : Payload → ℕ → ℕ → QueueRow
  new_row p nonce timestamp = record {
    source_network = p.source_network;
    source_transaction = p.source_transaction;
    source_nonce = nonce;
    payload = platform.dumps p.content;
    state = pending;
    attempts = 0;
    lease_owner = none;
    lease_expires_at = none;
    execution_transaction = none;
    last_error = none;
    created_at = timestamp;
    updated_at = timestamp;
  }

  -- `except sqlite3.IntegrityError`
  abbrev pub as_replay :
      Result RelayerJournalError (QueueItem × Journal)
      → Result RelayerJournalError (QueueItem × Journal)
  as_replay (ok r) = ok r
  as_replay (err integrity) = err replay
  as_replay (err e) = err e

  unfoldable pub enqueue : Payload → ℕ → Journal → Result RelayerJournalError (QueueItem × Journal)
  enqueue p timestamp j = do
    raise_if
        (not (length p.message_digest == 64)
          || is_empty p.source_network
          || not (length p.source_transaction == 64))
        invalid_identity
    nonce ← or_raise p.source_nonce invalid_nonce
    raise_if (is_taken p nonce j.queue) replay
    as_replay (
        write p.message_digest (new_row p nonce timestamp) (codes "ENQUEUED")
          (object (field (codes "source_network") (text p.source_network) end)) timestamp j)

  abbrev pub LeaseResult : Type 0
  LeaseResult = Result RelayerJournalError (Option QueueItem × Journal)

  -- The statement that updates the row tests its condition again.
  unfoldable pub lease_row : Text → ℕ → ℕ → Journal → Text → Option QueueRow → LeaseResult
  lease_row owner timestamp seconds j digest none = ok (none, j)
  lease_row owner timestamp seconds j digest (some row) =
      if available timestamp row
      then (do
        (item, j') ←
            write digest (lease_to owner timestamp seconds row) (codes "LEASED")
              (object (field (codes "owner") (text owner) end)) timestamp j
        ok (some item, j'))
      else ok (none, j)

  unfoldable pub lease_first : Text → ℕ → ℕ → Journal → Option Text → LeaseResult
  lease_first owner timestamp seconds j none = ok (none, j)
  lease_first owner timestamp seconds j (some digest) =
      lease_row owner timestamp seconds j digest (lookup digest j.queue)

  unfoldable pub lease : Text → ℕ → ℕ → Journal → LeaseResult
  lease owner timestamp seconds j = do
    raise_if (is_empty owner || seconds == 0) invalid_lease
    lease_first owner timestamp seconds j (first_available timestamp j.queue)

  unfoldable pub acknowledge :
      Text → Text → Text → ℕ → Journal → Result RelayerJournalError (QueueItem × Journal)
  acknowledge digest owner transaction timestamp j = do
    raise_if (not (length transaction == 64)) invalid_transaction
    row ← or_raise (lookup digest j.queue) ownership_mismatch
    require (held_by owner row) ownership_mismatch
    write digest
        (record (release timestamp executed row) { execution_transaction = some transaction })
        (codes "EXECUTED") (object (field (codes "execution_transaction") (text transaction) end))
        timestamp j

  unfoldable pub fail :
      Text → Text → Text → ℕ → Journal → Result RelayerJournalError (QueueItem × Journal)
  fail digest owner error timestamp j = do
    raise_if (is_empty (strip error)) missing_reason
    row ← or_raise (lookup digest j.queue) ownership_mismatch
    require (held_by owner row) ownership_mismatch
    let state = failed_state j.max_attempts row
    write digest
        (record (release timestamp state row) { last_error = some (take 1000 (strip error)) })
        (name_of state) (object (field (codes "error") (text (take 1000 (strip error))) end))
        timestamp j
