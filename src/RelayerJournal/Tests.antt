-- ===== src/RelayerJournal/Tests.antt =====
-- Runs of the relayer's journal on small inputs, and its theorems at them.
use junca_social_ecosystem_c.Common.{
  decimal, ◌≡◌, ◌≤◌, refl, true, none, some, List, [], ◌∷◌, arith, err, lookup, codes, number, Text,
  nat_eq, list_eq,
}
use junca_social_ecosystem_c.Samples.{sample_platform, sample_dumps}
use junca_social_ecosystem_c.RelayerJournal.Types.{
  Payload, QueueRow, Journal, pending, executed, replay,
}
use junca_social_ecosystem_c.RelayerJournal.Queue.{
  make_journal, available, item_of, lease_to, lease, lease_first, lease_row, first_available,
  enqueue, is_taken, write, audit, audit_row, entry_hash, last_hash, get, acknowledge, held_by,
}
use junca_social_ecosystem_c.RelayerJournal.Queue.Rows.{
  Op, enqueues, leases, acknowledges, fails, step, run,
}
use junca_social_ecosystem_c.RelayerJournal.Queue.Consistent.{
  Consistent, make_journal-run-Consistent,
}
use junca_social_ecosystem_c.RelayerJournal.Queue.Leases.{lease_exclusive}
use junca_social_ecosystem_c.RelayerJournal.Queue.Oldest.{lease_oldest}

abbrev digest_a : Text
digest_a = codes "aaaaaaaaaaaaaaaaaaaaaaaaaaaaaaaaaaaaaaaaaaaaaaaaaaaaaaaaaaaaaaaa"

abbrev transaction_a : Text
transaction_a = codes "1111111111111111111111111111111111111111111111111111111111111111"

abbrev first_owner : Text
first_owner = codes "relayer-1"

abbrev second_owner : Text
second_owner = codes "backup"

abbrev message : Payload
message = record {
  message_digest = digest_a;
  source_network = codes "eth";
  source_transaction = transaction_a;
  source_nonce = some 4;
  content = number 4;
}

abbrev empty : Journal
empty = record { max_attempts = 2; queue = []; audit_log = [] }

abbrev queued : QueueRow
queued = record {
  source_network = codes "eth";
  source_transaction = transaction_a;
  source_nonce = 4;
  payload = 2 ∷ 4 ∷ [];
  state = pending;
  attempts = 0;
  lease_owner = none;
  lease_expires_at = none;
  execution_transaction = none;
  last_error = none;
  created_at = 10;
  updated_at = 10;
}

abbrev held : QueueRow
held = lease_to first_owner 20 40 queued

abbrev holding : QueueRow → Journal
holding row = record { max_attempts = 2; queue = (digest_a, row) ∷ []; audit_log = [] }

-- A message is queued once, leased, and executed by its owner.
abbrev calls : List Op
calls =
    enqueues message 10
    ∷ enqueues message 11
    ∷ leases first_owner 20 40
    ∷ leases second_owner 30 40
    ∷ acknowledges digest_a second_owner transaction_a 40
    ∷ acknowledges digest_a first_owner transaction_a 50
    ∷ []

enqueue_twice :
    (enqueue sample_platform message 11 (run sample_platform (enqueues message 10 ∷ []) empty))
    ≡ err replay
unfolding run step enqueue is_taken write audit audit_row entry_hash last_hash get sample_dumps
    decimal
enqueue_twice = refl

calls_state :
    lookup digest_a (run sample_platform calls empty).queue
    ≡ some (record (lease_to first_owner 20 40 queued) {
      state = executed;
      lease_owner = none;
      lease_expires_at = none;
      updated_at = 50;
      execution_transaction = some transaction_a;
    })
unfolding run step enqueue is_taken write audit audit_row entry_hash last_hash get sample_dumps
    lease lease_first lease_row first_available available acknowledge held_by decimal
calls_state = refl

make_journal-run-Consistent_example : Consistent sample_platform (run sample_platform calls empty)
unfolding make_journal
make_journal-run-Consistent_example = make_journal-run-Consistent sample_platform 2 empty calls refl

lease_exclusive_example :
    lookup digest_a
      (run sample_platform
        (leases second_owner 59 40
          ∷ acknowledges digest_a second_owner transaction_a 70
          ∷ fails digest_a second_owner (codes "late") 80
          ∷ [])
        (holding held)).queue
    ≡ some held
lease_exclusive_example =
    lease_exclusive sample_platform first_owner 60
      (leases second_owner 59 40
        ∷ acknowledges digest_a second_owner transaction_a 70
        ∷ fails digest_a second_owner (codes "late") 80
        ∷ [])
      (holding held) digest_a held refl refl refl refl (omega arith, ((λ h. cc), ((λ h. cc), tt)))

abbrev done : QueueRow
done = record held {
  state = executed;
  lease_owner = none;
  lease_expires_at = none;
  execution_transaction = some transaction_a;
}

abbrev started : Journal
started = run sample_platform (enqueues message 10 ∷ []) empty

abbrev leased_once : Journal
leased_once = run sample_platform (enqueues message 10 ∷ leases first_owner 20 40 ∷ []) empty

started-Consistent : Consistent sample_platform started
unfolding make_journal
started-Consistent =
    make_journal-run-Consistent sample_platform 2 empty (enqueues message 10 ∷ []) refl

leased_once-Consistent : Consistent sample_platform leased_once
unfolding make_journal
leased_once-Consistent =
    make_journal-run-Consistent sample_platform 2 empty
      (enqueues message 10 ∷ leases first_owner 20 40 ∷ []) refl

lease_oldest_example :
    (row : QueueRow) × (lookup digest_a started.queue ≡ some row)
    × (available 20 row ≡ true)
    × (row.created_at ≤ queued.created_at)
    × (lookup digest_a leased_once.queue ≡ some (lease_to first_owner 20 40 row))
    × (item_of digest_a held ≡ item_of digest_a (lease_to first_owner 20 40 row))
unfolding run step enqueue is_taken write audit audit_row entry_hash last_hash get sample_dumps
    lease lease_first lease_row first_available available decimal
lease_oldest_example =
    lease_oldest sample_platform first_owner 20 40 started (item_of digest_a held) leased_once
      digest_a queued started-Consistent refl refl refl
