-- ===== src/RelayerJournal/Queue/Leases.antt =====
-- relayer_journal.py, `RelayerJournal`: rows that other calls leave alone.
use junca_social_ecosystem_c.Common.{
  ℕ, ◌≡◌, ◌≢◌, ◌<◌, subst, some, List, [], ◌∷◌, arith, Bool-cases, inl, inr, All, lookup,
  lookup-insert, nat_eq, list_eq, ◌=?◌, text_iff, Text, Platform,
}
use junca_social_ecosystem_c.RelayerJournal.Types.{
  State, leased, executed, dead_letter, QueueRow, Journal,
}
use junca_social_ecosystem_c.RelayerJournal.Queue.{
  available, held_by, Rows.Op, Rows.enqueues, Rows.leases, Rows.acknowledges, Rows.fails, Rows.Move,
  Rows.arrives, Rows.taken, Rows.ends, Rows.drops, Rows.Moved, Rows.step, Rows.run, Rows.step-Moved,
}

-- The call is not one of the lease's owner, and no call for a lease comes after its expiry.
abbrev pub Foreign : Text → ℕ → Op → Type 0
Foreign owner expiry (enqueues p timestamp) = Unit {0}
Foreign owner expiry (leases other timestamp seconds) = timestamp < expiry
Foreign owner expiry (acknowledges digest other transaction timestamp) = other ≢ owner
Foreign owner expiry (fails digest other error timestamp) = other ≢ owner

-- A row that no statement of a call matches.
abbrev pub Ended : State → Type 0
Ended executed = Unit {0}
Ended dead_letter = Unit {0}
Ended _ = ⊥

module _ (platform : Platform) where
  -- A row stays where the call cannot write over it.
  step-lookup :
      (op : Op) (j : Journal) (digest : Text) (row : QueueRow)
      → lookup digest j.queue ≡ some row
      → ((next : QueueRow) → Move platform j digest (some row) next op → ⊥)
      → lookup digest (step platform op j).queue ≡ some row
  step-lookup op j digest row f stuck = elim (step-Moved platform op j) [
    | inl same ↦ rw same f
    | inr m ↦ elim (Bool-cases (m.digest =? digest)) [
      | inl here ↦ absurd (stuck m.row (subst_move m ((text_iff m.digest digest).0 here)))
      | inr other ↦ ground (arith, m.wrote.queue, lookup-insert m.digest digest m.row j.queue)
    ]
  ]
    where
      subst_move :
          (m : Moved platform op j (step platform op j))
          → m.digest ≡ digest
          → Move platform j digest (some row) m.row op
      subst_move m same =
          subst (λ o. Move platform j digest o m.row op) f
            (subst (λ d. Move platform j d (lookup d j.queue) m.row op) same m.move)

  Foreign-stuck :
      (owner : Text) (expiry : ℕ) (op : Op) (j : Journal) (digest : Text) (row next : QueueRow)
      → row.state ≡ leased
      → row.lease_owner ≡ some owner
      → row.lease_expires_at ≡ some expiry
      → Foreign owner expiry op
      → Move platform j digest (some row) next op
      → ⊥
  unfolding available held_by
  Foreign-stuck owner expiry op j digest row next l o x foreign (arrives d len free absent e) = cc
  Foreign-stuck owner expiry op j digest row next l o x foreign (taken named positive ready old e) =
      ground arith
  Foreign-stuck owner expiry op j digest row next l o x foreign
        (ends {owner = other} len held old e) =
      ground (arith, text_iff owner other)
  Foreign-stuck owner expiry op j digest row next l o x foreign (drops {owner = other} held old e) =
      ground (arith, text_iff owner other)

  Ended-stuck :
      (op : Op) (j : Journal) (digest : Text) (row next : QueueRow)
      → Ended row.state
      → Move platform j digest (some row) next op
      → ⊥
  unfolding available held_by
  Ended-stuck op j digest row next ended (arrives d len free absent e) = cc
  Ended-stuck op j digest row next ended (taken named positive ready old e) = ground arith
  Ended-stuck op j digest row next ended (ends len held old e) = ground arith
  Ended-stuck op j digest row next ended (drops held old e) = ground arith

  -- While the calls for a lease come before the expiry of a leased row, and no acknowledgement
  -- or failure is its owner's, no history of calls changes the row: it is not leased to
  -- another, executed, failed or queued anew.
  pub lease_exclusive :
      (owner : Text) (expiry : ℕ) (ops : List Op) (j : Journal) (digest : Text) (row : QueueRow)
      → lookup digest j.queue ≡ some row
      → row.state ≡ leased
      → row.lease_owner ≡ some owner
      → row.lease_expires_at ≡ some expiry
      → All (Foreign owner expiry) ops
      → lookup digest (run platform ops j).queue ≡ some row
  unfolding run
  lease_exclusive owner expiry [] j digest row f l o x foreign = f
  lease_exclusive owner expiry (op ∷ ops) j digest row f l o x foreign =
      lease_exclusive owner expiry ops (step platform op j) digest row
        (step-lookup op j digest row f
          λ next m. Foreign-stuck owner expiry op j digest row next l o x foreign.0 m)
        l o x foreign.1

  -- No history of calls changes the row of a message that is executed or given up.
  pub finished_forever :
      (ops : List Op) (j : Journal) (digest : Text) (row : QueueRow)
      → lookup digest j.queue ≡ some row
      → Ended row.state
      → lookup digest (run platform ops j).queue ≡ some row
  unfolding run
  finished_forever [] j digest row f ended = f
  finished_forever (op ∷ ops) j digest row f ended =
      finished_forever ops (step platform op j) digest row
        (step-lookup op j digest row f λ next m. Ended-stuck op j digest row next ended m) ended
