-- ===== src/RelayerJournal/Queue/Consistent.antt =====
-- relayer_journal.py, `RelayerJournal`: the invariant of the two tables.
use junca_social_ecosystem_c.Common.{
  ℕ, ◌+◌, ◌≡◌, ◌⊎◌, ◌≤◌, ◌<◌, refl, sym, ◌∙◌, subst, Bool, true, false, ◌&&◌, ◌||◌, none, some,
  List, [], ◌∷◌, arith, Bool-cases, inl, inr, length, ok, Dict, lookup, lookup-insert, Keyed,
  Keyed-insert, any_of, nat_eq, list_eq, ◌=?◌, text_iff, is_empty, ◌==◌, leb, Text, Platform,
}
use junca_social_ecosystem_c.RelayerJournal.Types.{
  State, pending, leased, executed, dead_letter, Payload, QueueRow, Journal, QueueItem,
}
use junca_social_ecosystem_c.RelayerJournal.Queue.{
  available, held_by, is_taken, failed_state, make_journal, verify_audit_chain, verify_from,
  Audit.Wrote, Rows.Op, Rows.Move, Rows.arrives, Rows.taken, Rows.ends, Rows.drops, Rows.step,
  Rows.run, Rows.step-Moved,
}

-- The columns of a row that its state decides.
abbrev pub Columns : ℕ → State → QueueRow → Type 0
Columns limit pending row =
    (row.lease_owner ≡ none) × (row.lease_expires_at ≡ none) × (row.execution_transaction ≡ none)
Columns limit leased row =
    (owner : Text) × (expiry : ℕ) × (row.lease_owner ≡ some owner)
    × (is_empty owner ≡ false)
    × (row.lease_expires_at ≡ some expiry)
    × (row.updated_at < expiry)
    × (1 ≤ row.attempts)
    × (row.execution_transaction ≡ none)
Columns limit executed row =
    (transaction : Text) × (row.lease_owner ≡ none)
    × (row.lease_expires_at ≡ none)
    × (1 ≤ row.attempts)
    × (row.execution_transaction ≡ some transaction)
    × (length transaction ≡ 64)
Columns limit dead_letter row =
    (row.lease_owner ≡ none)
    × (row.lease_expires_at ≡ none)
    × (limit ≤ row.attempts)
    × (row.execution_transaction ≡ none)

-- Two rows name the same message of a source chain.
abbrev pub Collide : QueueRow → QueueRow → Type 0
Collide r s =
    (r.source_transaction ≡ s.source_transaction)
    ⊎ ((r.source_network ≡ s.source_network) × (r.source_nonce ≡ s.source_nonce))

any_of-lookup-false :
    (test : Text × QueueRow → Bool) (k : Text) (r : QueueRow) (d : Dict Text QueueRow)
    → any_of test d ≡ false
    → lookup k d ≡ some r
    → test (k, r) ≡ false
any_of-lookup-false test k r [] h f = cc
any_of-lookup-false test k r ((key, row) ∷ d) h f =
    ground (arith, any_of-lookup-false test k r d, text_iff key k)

-- A row that may be leased, or is leased, was not executed.
available-Columns :
    (limit timestamp : ℕ) (row : QueueRow)
    → available timestamp row ≡ true
    → Columns limit row.state row
    → row.execution_transaction ≡ none
unfolding available
available-Columns limit timestamp row h c = ground arith

held-Columns :
    (limit : ℕ) (owner : Text) (row : QueueRow)
    → held_by owner row ≡ true
    → Columns limit row.state row
    → (1 ≤ row.attempts) × (row.execution_transaction ≡ none)
unfolding held_by
held-Columns limit owner row h c = ground arith

module _ (platform : Platform) where
  pub record Consistent (j : Journal) : Type 0 where
    pub chained : verify_audit_chain platform j ≡ true
    pub listed_once : Keyed j.queue
    pub keyed : (d : Text) (r : QueueRow) → lookup d j.queue ≡ some r → length d ≡ 64
    pub columns :
        (d : Text) (r : QueueRow) → lookup d j.queue ≡ some r → Columns j.max_attempts r.state r
    pub unique :
        (d e : Text) (r s : QueueRow)
        → lookup d j.queue ≡ some r
        → lookup e j.queue ≡ some s
        → Collide r s
        → d ≡ e

  -- After a write a row is the one written, or an old one.
  pub written_or_old :
      (digest d : Text) (row r : QueueRow) (item : QueueItem) (j j' : Journal)
      → Wrote platform digest row item j j'
      → lookup d j'.queue ≡ some r
      → ((digest ≡ d) × (r ≡ row)) ⊎ (lookup d j.queue ≡ some r)
  written_or_old digest d row r item j j' w f = elim (Bool-cases (digest =? d)) [
    | inl same ↦
        inl (ground (arith, w.queue, lookup-insert digest d row j.queue, text_iff digest d))
    | inr other ↦ inr (ground (arith, w.queue, lookup-insert digest d row j.queue))
  ]

  -- A write keeps the tables consistent where the row is in order and collides with no other.
  write-Consistent :
      (digest : Text) (row : QueueRow) (item : QueueItem) (j j' : Journal)
      → Consistent j
      → Wrote platform digest row item j j'
      → length digest ≡ 64
      → Columns j.max_attempts row.state row
      → ((e : Text) (s : QueueRow) → lookup e j.queue ≡ some s → Collide row s → digest ≡ e)
      → Consistent j'
  write-Consistent digest row item j j' c w len cols fresh = record {
    chained = w.chained c.chained;
    listed_once = rw w.queue (Keyed-insert digest row j.queue c.listed_once);
    keyed = λ d r f. elim (written_or_old digest d row r item j j' w f) [
      | inl (same, _) ↦ rw (sym same) len
      | inr old ↦ c.keyed d r old
    ];
    columns = λ d r f. rw w.limit elim (written_or_old digest d row r item j j' w f) [
      | inl (_, same) ↦ rw same cols
      | inr old ↦ c.columns d r old
    ];
    unique = λ d e r s f g col. elim (written_or_old digest d row r item j j' w f) [
      | inl (at_d, new_r) ↦ elim (written_or_old digest e row s item j j' w g) [
        | inl (at_e, _) ↦ sym at_d ∙ at_e
        | inr old ↦ sym at_d ∙ fresh e s old (subst (λ x. Collide x s) new_r col)
      ]
      | inr old_r ↦ elim (written_or_old digest e row s item j j' w g) [
        | inl (at_e, new_s) ↦
            sym (fresh d r old_r (swap r row (subst (λ x. Collide r x) new_s col))) ∙ at_e
        | inr old_s ↦ c.unique d e r s old_r old_s col
      ]
    ];
  }
    where
      swap : (r s : QueueRow) → Collide r s → Collide s r
      swap r s (inl same) = inl (sym same)
      swap r s (inr (network, nonce)) = inr (sym network, sym nonce)

  -- A new row collides with none.
  arrives-fresh :
      (p : Payload) (nonce : ℕ) (row : QueueRow) (queue : Dict Text QueueRow)
      → is_taken p nonce queue ≡ false
      → row.source_transaction ≡ p.source_transaction
      → row.source_network ≡ p.source_network
      → row.source_nonce ≡ nonce
      → (e : Text) (s : QueueRow) → lookup e queue ≡ some s
      → Collide row s
      → p.message_digest ≡ e
  unfolding is_taken
  arrives-fresh p nonce row queue free tx network n e s f col = elim col [
    | inl same ↦
        absurd (ground (arith, taken_test, text_iff s.source_transaction p.source_transaction))
    | inr (n', k') ↦ absurd (ground (arith, taken_test, text_iff s.source_network p.source_network))
  ]
    where
      taken_test :
          (s.source_transaction =? p.source_transaction
            || (s.source_network =? p.source_network && s.source_nonce == nonce))
          ≡ false
      taken_test =
          any_of-lookup-false
            (λ (entry : Text × QueueRow).
              entry.1.source_transaction =? p.source_transaction
              || (entry.1.source_network =? p.source_network && entry.1.source_nonce == nonce))
            e s queue (ground arith) f

  -- A row that is rewritten keeps its identity.
  rewrite-Consistent :
      {digest : Text} {row before : QueueRow} {item : QueueItem} {j j' : Journal}
      → Consistent j
      → lookup digest j.queue ≡ some before
      → Wrote platform digest row item j j'
      → row.source_transaction ≡ before.source_transaction
      → row.source_network ≡ before.source_network
      → row.source_nonce ≡ before.source_nonce
      → Columns j.max_attempts row.state row
      → Consistent j'
  rewrite-Consistent {digest} {row} {before} {item} {j} {j'} c old w tx network nonce cols =
      write-Consistent digest row item j j' c w (c.keyed digest before old) cols
        λ e s f col. c.unique digest e before s old f (collide s col)
    where
      collide : (s : QueueRow) → Collide row s → Collide before s
      collide s (inl same) = inl (sym tx ∙ same)
      collide s (inr (same, number)) = inr (sym network ∙ same, sym nonce ∙ number)

  Move-Consistent :
      (op : Op) (digest : Text) (row : QueueRow) (item : QueueItem) (j j' : Journal)
      → Consistent j
      → Move platform j digest (lookup digest j.queue) row op
      → Wrote platform digest row item j j'
      → Consistent j'
  Move-Consistent op digest row item j j' c (arrives {p} {timestamp} {nonce} d len free _ e) w =
      write-Consistent digest row item j j' c w len (rw e (refl, refl, refl)) λ k s f col.
        d ∙ arrives-fresh p nonce row j.queue free (rw e refl) (rw e refl) (rw e refl) k s f col
  Move-Consistent op digest row item j j' c
        (taken {owner} {timestamp} {seconds} {before} named positive ready old e) w =
      rewrite-Consistent c old w (rw e refl) (rw e refl) (rw e refl) (
        rw e (
          owner,
          timestamp + seconds,
          refl,
          named,
          refl,
          ground arith,
          omega arith,
          available-Columns j.max_attempts timestamp before ready (c.columns digest before old),
        ))
  Move-Consistent op digest row item j j' c
        (ends {owner} {transaction} {timestamp} {before} len held old e) w =
      let kept = held-Columns j.max_attempts owner before held (c.columns digest before old) in
      rewrite-Consistent c old w (rw e refl) (rw e refl) (rw e refl)
        (rw e (transaction, refl, refl, kept.0, refl, len))
  Move-Consistent op digest row item j j' c (drops {owner} {error} {timestamp} {before} held old e)
        w =
      let kept = held-Columns j.max_attempts owner before held (c.columns digest before old) in
      rewrite-Consistent c old w (rw e refl) (rw e refl) (rw e refl) (
        rw e (
          unfold failed_state in
          elim (Bool-cases (leb j.max_attempts before.attempts)) [
            | inl spent ↦ rw spent (refl, refl, ground arith, kept.1)
            | inr left ↦ rw left (refl, refl, kept.1)
          ]))

  step-Consistent : (op : Op) (j : Journal) → Consistent j → Consistent (step platform op j)
  step-Consistent op j c = elim (step-Moved platform op j) [
    | inl same ↦ rw same c
    | inr m ↦ Move-Consistent op m.digest m.row m.item j (step platform op j) c m.move m.wrote
  ]

  pub run-Consistent :
      (ops : List Op) (j : Journal) → Consistent j → Consistent (run platform ops j)
  unfolding run
  run-Consistent [] j c = c
  run-Consistent (op ∷ ops) j c = run-Consistent ops (step platform op j) (step-Consistent op j c)

  -- From a new journal, after any history of calls, the audit chain verifies; each message is
  -- listed once, under a digest of 64 characters; no two rows share a source transaction, or a
  -- source network and nonce; and each row's owner, expiry, attempts and execution transaction
  -- fit its state.
  pub make_journal-run-Consistent :
      (limit : ℕ) (j : Journal) (ops : List Op)
      → make_journal limit ≡ ok j
      → Consistent (run platform ops j)
  unfolding make_journal verify_from
  make_journal-run-Consistent limit j ops h =
      let empty : Journal = record { max_attempts = limit; queue = []; audit_log = [] } in
      let e : j ≡ empty = ground arith in
      run-Consistent ops j (
        rw e (record {
          chained = refl;
          listed_once = tt;
          keyed = λ d r f. cc;
          columns = λ d r f. absurd (cc);
          unique = λ d e r s f g col. absurd (cc);
        }))
