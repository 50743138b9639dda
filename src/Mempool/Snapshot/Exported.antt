-- ===== src/Mempool/Snapshot/Exported.antt =====
-- mempool.py, `export_snapshot`: the transactions of a pool in their sorted order.
use mathlib.Core.Option.{map as map_option}
use junca_social_ecosystem_c.Common.{
  ℕ, ◌≡◌, refl, ap, ◌∙◌, arith, Bool, Option, List, [], ◌∷◌, map, length, length-sort_by,
  sum_by-sort_by, nat_eq, list_eq, pair_eq, ◌=?◌, mem, if◌then◌else◌, keep_if, All-weaken,
  All-sort_by, sort_by, insert_by, Dict, lookup, lookup-sort_by, Keyed-sort_by, Entries, Text,
  Platform,
}
use junca_social_ecosystem_c.ProtocolKernel.Types.{
  ProtocolConfig, Accounts, TransactionEnvelope, transaction_hash,
}
use junca_social_ecosystem_c.Mempool.Types.{MempoolPolicy, PoolKey, TransactionPool}
use junca_social_ecosystem_c.Mempool.Pool.Synced.{Synced, hash_count}
use junca_social_ecosystem_c.Mempool.Pool.History.{Sound}
use junca_social_ecosystem_c.Mempool.Snapshot.{entry_leb, sorted_entries}
use junca_social_ecosystem_c.Mempool.Snapshot.Records.{lowered, IsEncoded, transaction_hash-lowered}
use junca_social_ecosystem_c.Mempool.Snapshot.Pending.{lowered_entry, Passes, Pending}

module _ {ℓ} {A : Type ℓ} where
  length-keep_if-insert_by :
      (le : A → A → Bool) (p : A → Bool) (a : A) (xs : List A)
      → length (keep_if p (insert_by le a xs)) ≡ length (keep_if p (a ∷ xs))
  length-keep_if-insert_by le p a [] = refl
  length-keep_if-insert_by le p a (x ∷ xs) = ground (arith, length-keep_if-insert_by le p a xs)

  length-keep_if-sort_by :
      (le : A → A → Bool) (p : A → Bool) (xs : List A)
      → length (keep_if p (sort_by le xs)) ≡ length (keep_if p xs)
  length-keep_if-sort_by le p [] = refl
  length-keep_if-sort_by le p (x ∷ xs) =
      ground
        (arith, length-keep_if-insert_by le p x (sort_by le xs), length-keep_if-sort_by le p xs)

lookup-lowered :
    (key : PoolKey) (d : Dict PoolKey TransactionEnvelope)
    → lookup key (map lowered_entry d) ≡ map_option lowered (lookup key d)
lookup-lowered key [] = refl
lookup-lowered key ((k, tx) ∷ d) = ground (arith, lookup-lowered key d)

module _ (platform : Platform) where
  hash_count-lowered :
      (h : Text) (d : Dict PoolKey TransactionEnvelope)
      → hash_count platform h (map lowered_entry d) ≡ hash_count platform h d
  hash_count-lowered h [] = refl
  hash_count-lowered h ((k, tx) ∷ d) =
      rw (transaction_hash-lowered platform tx, hash_count-lowered h d) refl

  -- The same transactions, with their addresses in lower case, and the same hashes.
  pub record Same (pool restored : TransactionPool) : Type 0 where
    pub transactions : restored.transactions ≡ map lowered_entry (sorted_entries pool.transactions)
    pub found :
        (key : PoolKey)
        → lookup key restored.transactions ≡ map_option lowered (lookup key pool.transactions)
    pub hashes : (h : Text) → mem h restored.hashes ≡ mem h pool.hashes

  pub Same-from :
      (pool restored : TransactionPool)
      → Synced platform pool
      → Synced platform restored
      → restored.transactions ≡ map lowered_entry (sorted_entries pool.transactions)
      → Same pool restored
  Same-from pool restored s t e = record {
    transactions = e;
    found = λ key.
        ap (λ (d : Dict PoolKey TransactionEnvelope). lookup key d) e
        ∙ lookup-lowered key (sorted_entries pool.transactions)
        ∙ ap (λ (o : Option TransactionEnvelope). map_option lowered o)
            (lookup-sort_by entry_leb key pool.transactions s.keyed);
    hashes = λ h. ground (
      arith,
      s.counted h,
      t.counted h,
      ap (λ (d : Dict PoolKey TransactionEnvelope). hash_count platform h d) e,
      hash_count-lowered h (sorted_entries pool.transactions),
      sum_by-sort_by entry_leb
          (λ (entry : PoolKey × TransactionEnvelope).
            if transaction_hash platform entry.1 =? h then 1 else 0)
          pool.transactions,
    );
  }

module _ (platform : Platform) (config : ProtocolConfig) (policy : MempoolPolicy)
    (accounts : Accounts) (base_fee : ℕ) (verifier : TransactionEnvelope → Bool) where
  pub sorted_entries-Pending :
      (pool : TransactionPool)
      → Sound platform config policy pool
      → Entries (λ key tx. IsEncoded tx) pool.transactions
      → Entries
          (λ key tx. Passes platform config policy accounts base_fee verifier tx)
          pool.transactions
      → Pending platform config policy accounts base_fee verifier
          (record { transactions = []; hashes = [] })
          (sorted_entries pool.transactions)
  sorted_entries-Pending pool s encoded passes =
      let d = pool.transactions in
      record {
        keyed = Keyed-sort_by entry_leb d s.synced.keyed;
        filed = All-sort_by entry_leb _ d s.synced.filed;
        once = λ h. ground (
          arith,
          s.synced.counted h,
          sum_by-sort_by entry_leb
              (λ (entry : PoolKey × TransactionEnvelope).
                if transaction_hash platform entry.1 =? h then 1 else 0)
              d,
        );
        new_keys =
            All-weaken _ _ (sorted_entries d) (λ entry f. refl) (All-sort_by entry_leb _ d encoded);
        new_hashes =
            All-weaken _ _ (sorted_entries d) (λ entry f. refl) (All-sort_by entry_leb _ d encoded);
        encoded = All-sort_by entry_leb _ d encoded;
        passes = All-sort_by entry_leb _ d passes;
        total = omega (arith, s.within.total, length-sort_by entry_leb d);
        per_sender = λ t. omega (
          arith,
          s.within.per_sender t,
          length-keep_if-sort_by entry_leb
              (λ (entry : PoolKey × TransactionEnvelope). entry.0.0 =? t) d,
        );
      }
