-- ===== src/RelayerJournal/Queue/Oldest.antt =====
-- relayer_journal.py, `RelayerJournal.lease`: which row is leased.
use junca_social_ecosystem_c.Common.{
  ℕ, ◌≡◌, ◌≤◌, false_of_not_true, subst, ◌∙◌, sym, ap, lookup-insert_self, true, false, none, some,
  ◌∷◌, arith, Option-cases, inl, inr, ok, All, All-keep_if, keep_if-All, List-cases, keep_if,
  min_by, min_by_least, All-min_by, Dict, lookup, Entries, Entries-lookup, Keyed, Keyed-Entries,
  nat_eq, list_eq, pair_eq, Text, Platform,
}
use junca_social_ecosystem_c.RelayerJournal.Types.{QueueRow, Journal, QueueItem}
use junca_social_ecosystem_c.RelayerJournal.Queue.{
  available, first_available, earlier, lease, lease_to, item_of, lease_first, lease_row,
  Rows.lease_found, Rows.lease-none, Rows.lease-Wrote, Consistent.Consistent,
}

earlier-true : (a b : Text × QueueRow) → earlier a b ≡ true → a.1.created_at ≤ b.1.created_at
earlier-true (d, r) (e, s) h = ground arith

earlier-false : (a b : Text × QueueRow) → earlier a b ≡ false → b.1.created_at ≤ a.1.created_at
earlier-false (d, r) (e, s) h = ground arith

-- The entry that the query finds, seen from the filtered rows.
abbrev Oldest : ℕ → Dict Text QueueRow → Text × QueueRow → Type 0
Oldest timestamp queue (digest, row) =
    (lookup digest queue ≡ some row)
    × (available timestamp row ≡ true)
    × Entries (λ e s. available timestamp s ≡ true → row.created_at ≤ s.created_at) queue

least-Oldest :
    (timestamp : ℕ) (queue : Dict Text QueueRow) (entry : Text × QueueRow)
    (entries : Dict Text QueueRow)
    → Keyed queue
    → keep_if (λ (x : Text × QueueRow). available timestamp x.1) queue ≡ entry ∷ entries
    → Oldest timestamp queue (min_by earlier entry entries)
least-Oldest timestamp queue entry entries keyed f =
    let test = λ (x : Text × QueueRow). available timestamp x.1 in
    let found = λ (x : Text × QueueRow). (lookup x.0 queue ≡ some x.1) in
    let fits = λ (x : Text × QueueRow). found x × (test x ≡ true) in
    let best = min_by earlier entry entries in
    let later = λ (x : Text × QueueRow). best.1.created_at ≤ x.1.created_at in
    let kept : All fits (entry ∷ entries) =
      subst (λ (l : Dict Text QueueRow). All fits l) f
        (All-keep_if found test queue (Keyed-Entries queue keyed)) in
    let chosen = All-min_by earlier fits entry entries kept.0 kept.1 in
    let after =
      min_by_least earlier (λ (x : Text × QueueRow). x.1.created_at) earlier-true earlier-false
        entry entries best.1.created_at (omega arith) in
    (chosen.0, chosen.1, keep_if-All later test queue (rw f after))

first_available-none :
    (timestamp : ℕ) (queue : Dict Text QueueRow)
    → first_available timestamp queue ≡ none
    → Entries (λ e s. available timestamp s ≡ true → ⊥) queue
unfolding first_available
first_available-none timestamp queue h =
    let test = λ (x : Text × QueueRow). available timestamp x.1 in
    elim (List-cases (keep_if test queue)) [
      | inl empty ↦ keep_if-All (λ (x : Text × QueueRow). ⊥) test queue (rw empty tt)
      | inr (entry, entries, f) ↦ absurd (ground arith)
    ]

first_available-Oldest :
    (timestamp : ℕ) (queue : Dict Text QueueRow) {digest : Text}
    → Keyed queue
    → first_available timestamp queue ≡ some digest
    → (row : QueueRow) × Oldest timestamp queue (digest, row)
unfolding first_available
first_available-Oldest timestamp queue {digest} keyed h =
    let test = λ (x : Text × QueueRow). available timestamp x.1 in
    elim (List-cases (keep_if test queue)) [
      | inl empty ↦ absurd (ground arith)
      | inr (entry, entries, f) ↦
          let best = min_by earlier entry entries in
          let e : best.0 ≡ digest = ground arith in
          (best.1, rw (← e) (least-Oldest timestamp queue entry entries keyed f))
    ]

module _ (platform : Platform) where
  -- If a call leases a row of a consistent journal, the row was available, none that was
  -- available was created earlier, it becomes the row that `lease_to` makes of it, with one
  -- attempt more, the owner and the expiry, and the item returned is read from that.
  pub lease_oldest :
      (owner : Text) (timestamp seconds : ℕ) (j : Journal) (item : QueueItem) (j' : Journal)
      (e : Text) (s : QueueRow)
      → Consistent platform j
      → lease platform owner timestamp seconds j ≡ ok (some item, j')
      → lookup e j.queue ≡ some s
      → available timestamp s ≡ true
      → (row : QueueRow) × (lookup item.message_digest j.queue ≡ some row)
        × (available timestamp row ≡ true)
        × (row.created_at ≤ s.created_at)
        × (lookup item.message_digest j'.queue ≡ some (lease_to owner timestamp seconds row))
        × (item ≡ item_of item.message_digest (lease_to owner timestamp seconds row))
  lease_oldest owner timestamp seconds j item j' e s c h f open_row =
      let (digest, row, first, found) = lease_found platform owner timestamp seconds j h in
      let (best, (at_best, ready, least)) =
        first_available-Oldest timestamp j.queue c.listed_once first in
      let w = lease-Wrote platform owner timestamp seconds j h first found in
      let same : row ≡ best = cc in
      let at : item.message_digest ≡ digest = ap (λ (i : QueueItem). i.message_digest) w.returned in
      let later = λ (k : Text) (r : QueueRow).
        (available timestamp r ≡ true → best.created_at ≤ r.created_at) in
      let next = lease_to owner timestamp seconds row in
      (
        row,
        rw at found,
        rw same ready,
        rw same (Entries-lookup later e s j.queue least f open_row),
        rw at (rw w.queue (lookup-insert_self digest next j.queue)),
        w.returned ∙ ap (λ (d : Text). item_of d next) (sym at),
      )

  -- On a consistent journal a call that returns no lease leaves the journal as it is, and no
  -- row of it was available.
  pub lease_idle :
      (owner : Text) (timestamp seconds : ℕ) (j j' : Journal) (e : Text) (s : QueueRow)
      → Consistent platform j
      → lease platform owner timestamp seconds j ≡ ok (none, j')
      → lookup e j.queue ≡ some s
      → (available timestamp s ≡ false) × (j' ≡ j)
  unfolding lease lease_first lease_row
  lease_idle owner timestamp seconds j j' e s c h f =
      elim (Option-cases (first_available timestamp j.queue)) [
        | inl none_found ↦ (
          false_of_not_true (available timestamp s) (
              Entries-lookup (λ k r. available timestamp r ≡ true → ⊥) e s j.queue
                (first_available-none timestamp j.queue none_found) f),
          lease-none platform owner timestamp seconds j h,
        )
        | inr (digest, first) ↦
            let (best, (at_best, ready, least)) =
              first_available-Oldest timestamp j.queue c.listed_once first in
            absurd (ground arith)
      ]
