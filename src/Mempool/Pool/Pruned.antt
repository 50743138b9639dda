-- ===== src/Mempool/Pool/Pruned.antt =====
-- mempool.py, `prune`: what is dropped and what stays.
use junca_social_ecosystem_c.Common.{
  ℕ, ◌≡◌, refl, sym, ◌∙◌, inl, inr, Bool, not, none, some, List, [], ◌∷◌, ◌++◌, map, arith,
  append_assoc, append-nil, Bool-cases, keep_if, Eq, nat_eq, list_eq, pair_eq, beq_refl, ok, Dict,
  lookup, erase, Keyed, sort_by, text_leb, Text, Platform,
}
use junca_social_ecosystem_c.ProtocolKernel.Types.{
  ProtocolConfig, Accounts, TransactionEnvelope, transaction_hash,
}
use junca_social_ecosystem_c.Mempool.Types.{MempoolPolicy, TransactionPool, PoolKey}
use junca_social_ecosystem_c.Mempool.Pool.{prune_items, prune, is_stale}
use junca_social_ecosystem_c.Mempool.Pool.Synced.{
  Synced, drop_entry-Synced, drop_entry-transactions,
}

module _ {ℓ κ} {K : Type ℓ} {V : Type κ} ⦃e : Eq K⦄ where
  lookup-append :
      (done : Dict K V) (k : K) (v : V) (rest : Dict K V)
      → Keyed (done ++ (k, v) ∷ rest)
      → (lookup k done ≡ none) × (lookup k (done ++ (k, v) ∷ rest) ≡ some v)
  lookup-append [] k v rest h = (refl, rw (beq_refl k) refl)
  lookup-append ((j, w) ∷ done) k v rest h =
      ground (arith, lookup-append done k v rest h.1, e.beq_iff j k)

  erase-append :
      (done : Dict K V) (k : K) (v : V) (rest : Dict K V)
      → lookup k done ≡ none
      → erase k (done ++ (k, v) ∷ rest) ≡ done ++ rest
  erase-append [] k v rest h = rw (beq_refl k) refl
  erase-append ((j, w) ∷ done) k v rest h = ground (arith, erase-append done k v rest)

module _ (platform : Platform) (config : ProtocolConfig) (policy : MempoolPolicy)
    (accounts : Accounts) (base_fee : ℕ) where
  abbrev pub stale : PoolKey × TransactionEnvelope → Bool
  stale entry = is_stale platform config policy accounts base_fee entry.0 entry.1

  -- The entries that stay, and the hashes of those that go.
  abbrev pub kept : Dict PoolKey TransactionEnvelope → Dict PoolKey TransactionEnvelope
  kept = keep_if λ entry. not (stale entry)

  abbrev pub dropped : Dict PoolKey TransactionEnvelope → List Text
  dropped items = map (λ entry. transaction_hash platform entry.1) (keep_if stale items)

  prune_items_lem :
      (done items : Dict PoolKey TransactionEnvelope) (pool : TransactionPool) (removed : List Text)
      → pool.transactions ≡ done ++ items
      → Synced platform pool
      → (pool' : TransactionPool) × (prune_items platform config policy accounts base_fee items pool
            removed
          ≡ ok (pool', removed ++ dropped items))
        × Synced platform pool'
        × (pool'.transactions ≡ done ++ kept items)
  unfolding prune_items
  prune_items_lem done [] pool removed e s = (pool, rw append-nil refl, s, e)
  prune_items_lem done ((key, tx) ∷ items) pool removed e s = elim (Bool-cases (stale (key, tx))) [
    | inl old ↦
        let (missing, found) = lookup-append done key tx items (rw e at s.keyed) in
        let (next, dropping, synced) = drop_entry-Synced platform key tx pool s (rw e found) in
        let (last, rest, final, left) =
          prune_items_lem done items next (removed ++ transaction_hash platform tx ∷ [])
            (drop_entry-transactions platform key tx pool dropping
              ∙ rw e (erase-append done key tx items missing))
            synced in
        (
          last,
          rw (prune_items, old, dropping) (rw (append_assoc removed) at rest),
          final,
          rw old left,
        )
    | inr fresh ↦
        let (last, rest, final, left) =
          prune_items_lem (done ++ (key, tx) ∷ []) items pool removed
            (e ∙ sym (append_assoc done _ items)) s in
        (last, rw (prune_items, fresh) rest, final, rw fresh (left ∙ append_assoc done _ _))
  ]

  -- From a synced pool `prune` raises nothing. It drops exactly the entries that its test finds
  -- stale, keeps the others in their order, returns the sorted hashes of those dropped, and
  -- leaves a synced pool.
  pub prune_exact :
      (pool : TransactionPool)
      → Synced platform pool
      → (pool' : TransactionPool) × (prune platform config policy accounts base_fee pool
          ≡ ok (pool', sort_by text_leb (dropped pool.transactions)))
        × Synced platform pool'
        × (pool'.transactions ≡ kept pool.transactions)
  unfolding prune
  prune_exact pool s =
      let (last, done, final, left) = prune_items_lem [] pool.transactions pool [] refl s in
      (last, rw done refl, final, left)
