-- ===== src/RelayerJournal/Queue/Audit.antt =====
-- relayer_journal.py, `_audit` and `verify_audit_chain`: a write extends a chain that verifies.
use junca_social_ecosystem_c.Common.{
  ℕ, ◌≡◌, refl, true, List, [], ◌∷◌, ◌++◌, arith, nat_eq, list_eq, beq_refl, ok, insert,
  lookup-insert_self, Text, Json, Platform, ap,
}
use junca_social_ecosystem_c.RelayerJournal.Types.{QueueRow, AuditRow, Journal, QueueItem}
use junca_social_ecosystem_c.RelayerJournal.Queue.{
  zeros, last_hash, entry_hash, verify_from, verify_audit_chain, audit_row, audit, write, item_of,
  get,
}

module _ (platform : Platform) where
  -- The entry continues the chain from the hash before it.
  abbrev Continues : Text → AuditRow → Type 0
  Continues previous row =
      (row.previous_hash ≡ previous)
      × (row.entry_hash
          ≡ entry_hash platform previous row.event_type row.message_digest row.details
              row.created_at)

  verify_from-append :
      (previous : Text) (rows : List AuditRow) (row : AuditRow)
      → verify_from platform previous rows ≡ true
      → Continues (last_hash previous rows) row
      → verify_from platform previous (rows ++ row ∷ []) ≡ true
  unfolding verify_from last_hash
  verify_from-append previous [] row h c = ground (
    arith,
    c.0,
    c.1,
    beq_refl previous,
    beq_refl
        (entry_hash platform previous row.event_type row.message_digest row.details row.created_at),
  )
  verify_from-append previous (r ∷ rows) row h c =
      ground (arith, verify_from-append r.entry_hash rows row)

  -- What a write does that is not rolled back.
  pub record Wrote (digest : Text) (row : QueueRow) (item : QueueItem) (j j' : Journal)
      : Type 0 where
    pub returned : item ≡ item_of digest row
    pub queue : j'.queue ≡ insert digest row j.queue
    pub limit : j'.max_attempts ≡ j.max_attempts
    pub chained : verify_audit_chain platform j ≡ true → verify_audit_chain platform j' ≡ true

  pub write-Wrote :
      (digest : Text) (row : QueueRow) (event : Text) (details : Json) (timestamp : ℕ) (j : Journal)
      {item : QueueItem} {j' : Journal}
      → write platform digest row event details timestamp j ≡ ok (item, j')
      → Wrote digest row item j j'
  unfolding write audit get
  write-Wrote digest row event details timestamp j {item} {j'} h =
      let entry = audit_row platform event digest details timestamp j.audit_log in
      let e : j'
          ≡ record j { queue = insert digest row j.queue; audit_log = j.audit_log ++ entry ∷ [] } =
        ground arith in
      record {
        returned = ground (arith, lookup-insert_self digest row j.queue);
        queue = ap (λ (k : Journal). k.queue) e;
        limit = ap (λ (k : Journal). k.max_attempts) e;
        chained = λ v.
            rw e (unfold audit_row in verify_from-append zeros j.audit_log entry v (refl, refl));
      }
