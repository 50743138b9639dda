-- ===== src/Mempool/Pool/Synced.antt =====
-- The hash set of a pool follows its transactions, and every transaction is filed under its
-- own sender and nonce.
use junca_social_ecosystem_c.Common.{
  ℕ, ◌≡◌, refl, inl, inr, Bool, true, false, not, ◌&&◌, none, some, List, [], ◌∷◌, arith,
  if◌then◌else◌, Option-cases, Bool-cases, Eq, nat_eq, list_eq, pair_eq, ◌=?◌, text_iff, beq_refl,
  mem, remove, Distinct, ok, Dict, lookup, erase, sum_values, sum_values-insert,
  sum_values-insert_new, sum_values-erase, Entries, Entries-insert, Entries-erase, Keyed,
  Keyed-insert, Keyed-erase, Text, Platform,
}
use junca_social_ecosystem_c.ProtocolKernel.Types.{
  ProtocolConfig, AccountState, TransactionEnvelope, transaction_hash,
}
use junca_social_ecosystem_c.Mempool.Types.{
  MempoolPolicy, TransactionPool, key_of, PoolKey, remove_hash,
}
use junca_social_ecosystem_c.Mempool.Pool.{
  store, place_new, replace, admit_over, admit, drop_entry, remove_one, remove_included,
}

module _ {ℓ} {A : Type ℓ} ⦃e : Eq A⦄ where
  mem-remove :
      (a b : A) (xs : List A) → Distinct xs → mem b (remove a xs) ≡ (mem b xs && not (a =? b))
  mem-remove a b [] d = refl
  mem-remove a b (x ∷ xs) d =
      ground (arith, mem-remove a b xs d.1, e.beq_iff a x, e.beq_iff b x, e.beq_iff a b)

  Distinct-remove : (a : A) (xs : List A) → Distinct xs → Distinct (remove a xs)
  Distinct-remove a [] d = tt
  Distinct-remove a (x ∷ xs) d = ground (arith, mem-remove a x xs d.1, Distinct-remove a xs d.1)

abbrev bit : Bool → ℕ
bit b = if b then 1 else 0

module _ (platform : Platform) where
  -- How many transactions of the pool have the hash.
  abbrev pub hash_count : Text → Dict PoolKey TransactionEnvelope → ℕ
  hash_count h = sum_values λ tx. bit (transaction_hash platform tx =? h)

  pub record Synced (pool : TransactionPool) : Type 0 where
    pub keyed : Keyed pool.transactions
    pub filed : Entries (λ key tx. key ≡ key_of tx) pool.transactions
    pub distinct : Distinct pool.hashes
    -- A hash in the set belongs to exactly one transaction, another to none.
    pub counted : (h : Text) → hash_count h pool.transactions ≡ (if mem h pool.hashes then 1 else 0)

  store-Synced_new :
      (tx : TransactionEnvelope) (pool : TransactionPool)
      → Synced pool
      → mem (transaction_hash platform tx) pool.hashes ≡ false
      → lookup (key_of tx) pool.transactions ≡ none
      → Synced (store platform tx pool.hashes pool)
  unfolding store
  store-Synced_new tx pool s fresh free =
      let hash = transaction_hash platform tx in
      record {
        keyed = Keyed-insert (key_of tx) tx pool.transactions s.keyed;
        filed =
            Entries-insert (λ key t. key ≡ key_of t) (key_of tx) tx pool.transactions s.filed refl;
        distinct = rw fresh (fresh, s.distinct);
        counted = λ h. ground (
          arith,
          s.counted h,
          fresh,
          text_iff hash h,
          text_iff h hash,
          sum_values-insert_new (λ t. bit (transaction_hash platform t =? h)) (key_of tx) tx
              pool.transactions free,
        );
      }

  stored_hash :
      (key : PoolKey) (tx : TransactionEnvelope) (pool : TransactionPool)
      → Synced pool
      → lookup key pool.transactions ≡ some tx
      → mem (transaction_hash platform tx) pool.hashes ≡ true
  stored_hash key tx pool s found =
      let hash = transaction_hash platform tx in
      ground (
        arith,
        s.counted hash,
        beq_refl hash,
        sum_values-erase (λ t. bit (transaction_hash platform t =? hash)) key tx pool.transactions
            found,
      )

  pub drop_entry-Synced :
      (key : PoolKey) (tx : TransactionEnvelope) (pool : TransactionPool)
      → Synced pool
      → lookup key pool.transactions ≡ some tx
      → (pool' : TransactionPool) × (drop_entry platform key tx pool ≡ ok pool') × Synced pool'
  unfolding drop_entry remove_hash
  drop_entry-Synced key tx pool s found =
      let hash = transaction_hash platform tx in
      (
        record { transactions = erase key pool.transactions; hashes = remove hash pool.hashes },
        rw (stored_hash key tx pool s found) refl,
        record {
          keyed = Keyed-erase key pool.transactions s.keyed;
          filed = Entries-erase (λ k t. k ≡ key_of t) key pool.transactions s.filed;
          distinct = Distinct-remove hash pool.hashes s.distinct;
          counted = λ h. ground (
            arith,
            s.counted h,
            mem-remove hash h pool.hashes s.distinct,
            sum_values-erase (λ t. bit (transaction_hash platform t =? h)) key tx pool.transactions
                found,
          );
        },
      )

  pub drop_entry-transactions :
      (key : PoolKey) (tx : TransactionEnvelope) (pool : TransactionPool) {next : TransactionPool}
      → drop_entry platform key tx pool ≡ ok next
      → next.transactions ≡ erase key pool.transactions
  unfolding drop_entry remove_hash
  drop_entry-transactions key tx pool h = ground arith

  store-Synced_over :
      (current tx : TransactionEnvelope) (pool : TransactionPool)
      → Synced pool
      → mem (transaction_hash platform tx) pool.hashes ≡ false
      → lookup (key_of tx) pool.transactions ≡ some current
      → Synced (store platform tx (remove (transaction_hash platform current) pool.hashes) pool)
  unfolding store
  store-Synced_over current tx pool s fresh found =
      let hash = transaction_hash platform tx in
      let old = transaction_hash platform current in
      let absent : mem hash (remove old pool.hashes) ≡ false =
        ground (arith, mem-remove old hash pool.hashes s.distinct, fresh) in
      record {
        keyed = Keyed-insert (key_of tx) tx pool.transactions s.keyed;
        filed =
            Entries-insert (λ key t. key ≡ key_of t) (key_of tx) tx pool.transactions s.filed refl;
        distinct = rw absent (absent, Distinct-remove old pool.hashes s.distinct);
        counted = λ h. ground (
          arith,
          s.counted h,
          fresh,
          absent,
          text_iff hash h,
          text_iff h hash,
          mem-remove old h pool.hashes s.distinct,
          text_iff old h,
          sum_values-erase (λ t. bit (transaction_hash platform t =? h)) (key_of tx) current
              pool.transactions found,
          sum_values-insert (λ t. bit (transaction_hash platform t =? h)) (key_of tx) tx current
              pool.transactions found,
        );
      }

  remove_one-Synced :
      (tx : TransactionEnvelope) (pool : TransactionPool)
      → Synced pool
      → (pool' : TransactionPool) × (remove_one platform
            (lookup (key_of tx) pool.transactions)
            tx
            pool
          ≡ ok pool')
        × Synced pool'
  unfolding remove_one
  remove_one-Synced tx pool s = elim (Option-cases (lookup (key_of tx) pool.transactions)) [
    | inl new ↦ (pool, rw new refl, s)
    | inr (current, found) ↦
        elim (Bool-cases (transaction_hash platform current =? transaction_hash platform tx)) [
          | inl same ↦
              let (pool', done, synced) = drop_entry-Synced (key_of tx) current pool s found in
              (pool', rw (found, same) done, synced)
          | inr other ↦ (pool, rw (found, other) refl, s)
        ]
  ]

  -- Removing included transactions from a synced pool raises nothing, no `KeyError` in
  -- particular, and leaves a synced pool.
  pub remove_included-Synced :
      (txs : List TransactionEnvelope) (pool : TransactionPool)
      → Synced pool
      → (pool' : TransactionPool) × (remove_included platform txs pool ≡ ok pool') × Synced pool'
  unfolding remove_included
  remove_included-Synced [] pool s = (pool, refl, s)
  remove_included-Synced (tx ∷ txs) pool s =
      let (next, done, synced) = remove_one-Synced tx pool s in
      let (last, rest, final) = remove_included-Synced txs next synced in
      (last, rw done rest, final)

module _ (platform : Platform) (config : ProtocolConfig) (policy : MempoolPolicy) where
  admit_over-Synced :
      (tx : TransactionEnvelope) (pool : TransactionPool) {pool' : TransactionPool}
      → Synced platform pool
      → mem (transaction_hash platform tx) pool.hashes ≡ false
      → admit_over platform config policy (lookup (key_of tx) pool.transactions) tx pool ≡ ok pool'
      → Synced platform pool'
  unfolding admit_over place_new replace remove_hash
  admit_over-Synced tx pool {pool'} s fresh h =
      elim (Option-cases (lookup (key_of tx) pool.transactions)) [
        | inl free ↦
            let e : pool' ≡ store platform tx pool.hashes pool = ground arith in
            rw e (store-Synced_new platform tx pool s fresh free)
        | inr (current, found) ↦
            let e : pool'
                ≡ store platform tx (remove (transaction_hash platform current) pool.hashes) pool =
              ground arith in
            rw e (store-Synced_over platform current tx pool s fresh found)
      ]

  -- If `admit` accepts a transaction into a synced pool, the pool is synced afterwards.
  pub admit-Synced :
      (tx : TransactionEnvelope) (account : AccountState) (base_fee : ℕ)
      (verifier : TransactionEnvelope → Bool) (pool : TransactionPool) {pool' : TransactionPool}
      → Synced platform pool
      → admit platform config policy tx account base_fee verifier pool ≡ ok pool'
      → Synced platform pool'
  unfolding admit
  admit-Synced tx account base_fee verifier pool {pool'} s h =
      admit_over-Synced tx pool s (ground arith) (ground arith)
