-- ===== src/RelayerJournal/Queue/Rows.antt =====
-- relayer_journal.py, `RelayerJournal`: histories of calls, and what one call does to the table
-- `bridge_queue`.
use junca_social_ecosystem_c.Common.{
  ℕ, ◌≡◌, ◌⊎◌, refl, true, false, Option, none, some, List, [], ◌∷◌, arith, inl, inr, Option-cases,
  length, Result, ok, err, Dict, lookup, lookup-contains-false, nat_eq, list_eq, is_empty, strip,
  take, ◌==◌, Text, Platform, codes, text, object, field, end,
}
use junca_social_ecosystem_c.RelayerJournal.Types.{
  RelayerJournalError, Payload, QueueRow, Journal, QueueItem, executed,
}
use junca_social_ecosystem_c.RelayerJournal.Queue.{
  new_row, lease_to, release, failed_state, available, held_by, is_taken, first_available, write,
  enqueue, lease, lease_first, lease_row, acknowledge, fail, name_of,
}
use junca_social_ecosystem_c.RelayerJournal.Queue.Audit.{Wrote, write-Wrote}

-- A call with the time that it reads.
pub data Op : Type 0 where
  enqueues : Payload → ℕ → Op
  leases : (owner : Text) (timestamp seconds : ℕ) → Op
  acknowledges : (digest owner transaction : Text) (timestamp : ℕ) → Op
  fails : (digest owner error : Text) (timestamp : ℕ) → Op

-- A call that raises leaves the journal as it was.
abbrev pub after : {A : Type 0} → Journal → Result RelayerJournalError (A × Journal) → Journal
after j (ok (a, j')) = j'
after j (err e) = j

module _ (platform : Platform) where
  unfoldable pub step : Op → Journal → Journal
  step (enqueues p timestamp) j = after j (enqueue platform p timestamp j)
  step (leases owner timestamp seconds) j = after j (lease platform owner timestamp seconds j)
  step (acknowledges digest owner transaction timestamp) j =
      after j (acknowledge platform digest owner transaction timestamp j)
  step (fails digest owner error timestamp) j =
      after j (fail platform digest owner error timestamp j)

  unfoldable pub run : List Op → Journal → Journal
  run [] j = j
  run (op ∷ ops) j = run ops (step op j)

  -- How a call may rewrite one row of the journal, the old row under its key and the new one.
  pub data Move (j : Journal) (digest : Text) (old : Option QueueRow) (row : QueueRow)
      : Op → Type 0 where
    arrives :
        {p : Payload} {timestamp nonce : ℕ}
        → digest ≡ p.message_digest
        → length digest ≡ 64
        → is_taken p nonce j.queue ≡ false
        → old ≡ none
        → row ≡ new_row platform p nonce timestamp
        → Move j digest old row (enqueues p timestamp)
    taken :
        {owner : Text} {timestamp seconds : ℕ} {before : QueueRow}
        → is_empty owner ≡ false
        → (seconds == 0) ≡ false
        → available timestamp before ≡ true
        → old ≡ some before
        → row ≡ lease_to owner timestamp seconds before
        → Move j digest old row (leases owner timestamp seconds)
    ends :
        {owner transaction : Text} {timestamp : ℕ} {before : QueueRow}
        → length transaction ≡ 64
        → held_by owner before ≡ true
        → old ≡ some before
        → row
          ≡ record (release timestamp executed before) { execution_transaction = some transaction }
        → Move j digest old row (acknowledges digest owner transaction timestamp)
    drops :
        {owner error : Text} {timestamp : ℕ} {before : QueueRow}
        → held_by owner before ≡ true
        → old ≡ some before
        → row ≡ record (release timestamp (failed_state j.max_attempts before) before) {
          last_error = some (take 1000 (strip error));
        }
        → Move j digest old row (fails digest owner error timestamp)

  pub record Moved (op : Op) (j j' : Journal) : Type 0 where
    pub digest : Text
    pub row : QueueRow
    pub item : QueueItem
    pub move : Move j digest (lookup digest j.queue) row op
    pub wrote : Wrote platform digest row item j j'

  taken-lookup :
      (p : Payload) (nonce : ℕ) (queue : Dict Text QueueRow)
      → is_taken p nonce queue ≡ false
      → lookup p.message_digest queue ≡ none
  unfolding is_taken
  taken-lookup p nonce queue h = lookup-contains-false p.message_digest queue (ground arith)

  pub enqueue-Moved :
      (p : Payload) (timestamp : ℕ) (j : Journal) {item : QueueItem} {j' : Journal}
      → enqueue platform p timestamp j ≡ ok (item, j')
      → Moved (enqueues p timestamp) j j'
  unfolding enqueue
  enqueue-Moved p timestamp j {item} {j'} h = elim (Option-cases p.source_nonce) [
    | inl missing ↦ absurd (ground arith)
    | inr (nonce, e) ↦
        let log = object (field (codes "source_network") (text p.source_network) end) in
        let row = new_row platform p nonce timestamp in
        let free : is_taken p nonce j.queue ≡ false = ground arith in
        let w : write platform p.message_digest row (codes "ENQUEUED") log timestamp j
            ≡ ok (item, j') =
          ground arith in
        record {
          digest = p.message_digest;
          row = row;
          item = item;
          move = arrives refl (ground arith) free (taken-lookup p nonce j.queue free) refl;
          wrote = write-Wrote platform p.message_digest row (codes "ENQUEUED") log timestamp j w;
        }
  ]

  -- The row that `lease` finds.
  pub lease_found :
      (owner : Text) (timestamp seconds : ℕ) (j : Journal) {item : QueueItem} {j' : Journal}
      → lease platform owner timestamp seconds j ≡ ok (some item, j')
      → (digest : Text) × (row : QueueRow) × (first_available timestamp j.queue ≡ some digest)
        × (lookup digest j.queue ≡ some row)
  unfolding lease lease_first lease_row
  lease_found owner timestamp seconds j h =
      elim (Option-cases (first_available timestamp j.queue)) [
        | inl missing ↦ absurd (ground arith)
        | inr (digest, e) ↦ elim (Option-cases (lookup digest j.queue)) [
          | inl missing ↦ absurd (ground arith)
          | inr (row, f) ↦ (digest, row, e, f)
        ]
      ]

  pub lease-Wrote :
      (owner : Text) (timestamp seconds : ℕ) (j : Journal) {item : QueueItem} {j' : Journal}
      {digest : Text} {row : QueueRow}
      → lease platform owner timestamp seconds j ≡ ok (some item, j')
      → first_available timestamp j.queue ≡ some digest
      → lookup digest j.queue ≡ some row
      → Wrote platform digest (lease_to owner timestamp seconds row) item j j'
  unfolding lease lease_first lease_row
  lease-Wrote owner timestamp seconds j {item} {j'} {digest} {row} h e f =
      let log = object (field (codes "owner") (text owner) end) in
      let next = lease_to owner timestamp seconds row in
      let w : write platform digest next (codes "LEASED") log timestamp j ≡ ok (item, j') =
        ground arith in
      write-Wrote platform digest next (codes "LEASED") log timestamp j w

  pub lease-Moved :
      (owner : Text) (timestamp seconds : ℕ) (j : Journal) {item : QueueItem} {j' : Journal}
      → lease platform owner timestamp seconds j ≡ ok (some item, j')
      → Moved (leases owner timestamp seconds) j j'
  unfolding lease lease_first lease_row
  lease-Moved owner timestamp seconds j {item} {j'} h =
      let (digest, row, e, f) = lease_found owner timestamp seconds j h in
      record {
        digest = digest;
        row = lease_to owner timestamp seconds row;
        item = item;
        move = taken (ground arith) (ground arith) (ground arith) f refl;
        wrote = lease-Wrote owner timestamp seconds j h e f;
      }

  pub lease-none :
      (owner : Text) (timestamp seconds : ℕ) (j : Journal) {j' : Journal}
      → lease platform owner timestamp seconds j ≡ ok (none, j')
      → j' ≡ j
  unfolding lease lease_first lease_row
  lease-none owner timestamp seconds j h = ground arith

  pub acknowledge-Moved :
      (digest owner transaction : Text) (timestamp : ℕ) (j : Journal) {item : QueueItem}
      {j' : Journal}
      → acknowledge platform digest owner transaction timestamp j ≡ ok (item, j')
      → Moved (acknowledges digest owner transaction timestamp) j j'
  unfolding acknowledge
  acknowledge-Moved digest owner transaction timestamp j {item} {j'} h =
      elim (Option-cases (lookup digest j.queue)) [
        | inl missing ↦ absurd (ground arith)
        | inr (row, f) ↦
            let log = object (field (codes "execution_transaction") (text transaction) end) in
            let next = record (release timestamp executed row) {
              execution_transaction = some transaction;
            } in
            let w : write platform digest next (codes "EXECUTED") log timestamp j ≡ ok (item, j') =
              ground arith in
            record {
              digest = digest;
              row = next;
              item = item;
              move = ends (ground arith) (ground arith) f refl;
              wrote = write-Wrote platform digest next (codes "EXECUTED") log timestamp j w;
            }
      ]

  pub fail-Moved :
      (digest owner error : Text) (timestamp : ℕ) (j : Journal) {item : QueueItem} {j' : Journal}
      → fail platform digest owner error timestamp j ≡ ok (item, j')
      → Moved (fails digest owner error timestamp) j j'
  unfolding fail
  fail-Moved digest owner error timestamp j {item} {j'} h =
      elim (Option-cases (lookup digest j.queue)) [
        | inl missing ↦ absurd (ground arith)
        | inr (row, f) ↦
            let reason = take 1000 (strip error) in
            let state = failed_state j.max_attempts row in
            let log = object (field (codes "error") (text reason) end) in
            let next = record (release timestamp state row) { last_error = some reason } in
            let w : write platform digest next (name_of state) log timestamp j ≡ ok (item, j') =
              ground arith in
            record {
              digest = digest;
              row = next;
              item = item;
              move = drops (ground arith) f refl;
              wrote = write-Wrote platform digest next (name_of state) log timestamp j w;
            }
      ]

  after-cases :
      {A : Type 0} (op : Op) (j : Journal) (call : Result RelayerJournalError (A × Journal))
      → ((a : A) (j' : Journal) → call ≡ ok (a, j') → (j' ≡ j) ⊎ Moved op j j')
      → (after j call ≡ j) ⊎ Moved op j (after j call)
  after-cases op j (ok (a, j')) f = f a j' refl
  after-cases op j (err e) f = inl refl

  lease_any :
      (owner : Text) (timestamp seconds : ℕ) (j : Journal) (item : Option QueueItem) (j' : Journal)
      → lease platform owner timestamp seconds j ≡ ok (item, j')
      → (j' ≡ j) ⊎ Moved (leases owner timestamp seconds) j j'
  lease_any owner timestamp seconds j none j' h = inl (lease-none owner timestamp seconds j h)
  lease_any owner timestamp seconds j (some item) j' h =
      inr (lease-Moved owner timestamp seconds j h)

  pub step-Moved : (op : Op) (j : Journal) → (step op j ≡ j) ⊎ Moved op j (step op j)
  unfolding step
  step-Moved (enqueues p timestamp) j =
      after-cases (enqueues p timestamp) j (enqueue platform p timestamp j)
        λ a j' h. inr (enqueue-Moved p timestamp j h)
  step-Moved (leases owner timestamp seconds) j =
      after-cases (leases owner timestamp seconds) j (lease platform owner timestamp seconds j)
        (lease_any owner timestamp seconds j)
  step-Moved (acknowledges digest owner transaction timestamp) j =
      after-cases (acknowledges digest owner transaction timestamp) j
        (acknowledge platform digest owner transaction timestamp j)
        λ a j' h. inr (acknowledge-Moved digest owner transaction timestamp j h)
  step-Moved (fails digest owner error timestamp) j =
      after-cases (fails digest owner error timestamp) j
        (fail platform digest owner error timestamp j)
        λ a j' h. inr (fail-Moved digest owner error timestamp j h)
