-- ===== src/RelayerJournal/Types.antt =====
-- relayer_journal.py: rows of the two SQLite tables. `bridge_queue` is a dict under its primary key
-- in the order of insertion, `audit_log` a list in the order of its sequence numbers. Timestamps
-- are not negative.
use junca_social_ecosystem_c.Common.{ℕ, Option, List, Dict, Text, Json}

pub data RelayerJournalError : Type 0 where
  invalid_identity invalid_nonce replay invalid_lease invalid_transaction : RelayerJournalError
  ownership_mismatch missing_reason unknown_message bad_max_attempts : RelayerJournalError
  -- An `IntegrityError` of SQLite.
  integrity : RelayerJournalError

pub data State : Type 0 where
  pending leased executed dead_letter : State

-- What `enqueue` reads of its payload; `none` stands for a nonce that is missing, negative or no
-- integer. `content` is the payload itself.
pub record Payload : Type 0 where
  pub message_digest : Text
  pub source_network : Text
  pub source_transaction : Text
  pub source_nonce : Option ℕ
  pub content : Json

-- A row of `bridge_queue` without its key, the message's digest.
pub record QueueRow : Type 0 where
  pub source_network : Text
  pub source_transaction : Text
  pub source_nonce : ℕ
  pub payload : Text
  pub state : State
  pub attempts : ℕ
  pub lease_owner : Option Text
  pub lease_expires_at : Option ℕ
  pub execution_transaction : Option Text
  pub last_error : Option Text
  pub created_at : ℕ
  pub updated_at : ℕ

pub record AuditRow : Type 0 where
  pub event_type : Text
  pub message_digest : Text
  pub details : Text
  pub previous_hash : Text
  pub entry_hash : Text
  pub created_at : ℕ

pub record Journal : Type 0 where
  pub max_attempts : ℕ
  pub queue : Dict Text QueueRow
  pub audit_log : List AuditRow

-- The payload stays encoded.
pub record QueueItem : Type 0 where
  pub message_digest : Text
  pub state : State
  pub attempts : ℕ
  pub lease_owner : Option Text
  pub lease_expires_at : Option ℕ
  pub payload : Text
