-- ===== src/Mempool/Snapshot/Pending.antt =====
-- mempool.py, the loop of `restore_snapshot`: a transaction that is still to come passes the gates
-- of admission.
use junca_social_ecosystem_c.Common.{
  ℕ, suc, ◌+◌, ◌≤◌, ◌≡◌, refl, sym, ap, ◌∙◌, arith, inl, inr, Bool, false, none, some, [], ◌∷◌,
  ◌++◌, leb, length, Eq, nat_eq, list_eq, pair_eq, ◌=?◌, beq_refl, mem, All-weaken, All-both,
  Bool-cases, ok, >>-ok, raise_if, raise_if-ok, Dict, lookup, lookup_or, lookup-insert, insert,
  length-insert_new, Entries, Keyed, Text, lower, lower_idem, Platform,
}
use junca_social_ecosystem_c.ProtocolKernel.Types.{
  ProtocolConfig, empty_account, Accounts, TransactionEnvelope, transaction_hash,
}
use junca_social_ecosystem_c.Mempool.Types.{
  MempoolPolicy, PoolKey, TransactionPool, key_of, duplicate_hash,
}
use junca_social_ecosystem_c.Mempool.Pool.{
  sender_count, store, place_new, admit_over, admit, validate_admission_boundary,
}
use junca_social_ecosystem_c.Mempool.Pool.Synced.{hash_count}
use junca_social_ecosystem_c.Mempool.Pool.Capacity.{sender_count-insert_new}
use junca_social_ecosystem_c.Mempool.Snapshot.Records.{lowered, IsEncoded, transaction_hash-lowered}

module _ {ℓ κ} {K : Type ℓ} {V : Type κ} ⦃e : Eq K⦄ where
  insert_last :
      (k : K) (v : V) (d : Dict K V) → lookup k d ≡ none → insert k v d ≡ d ++ ((k, v) ∷ [])
  insert_last k v [] h = refl
  insert_last k v ((j, w) ∷ d) h = elim (Bool-cases (j =? k)) [
    | inl same ↦ let gone : some w ≡ none = rw same at h in absurd (cc)
    | inr other ↦ rw other (ap (λ (r : Dict K V). (j, w) ∷ r) (insert_last k v d (rw other at h)))
  ]

  keys_apart : (k : K) (d : Dict K V) → lookup k d ≡ none → Entries (λ j v. (k =? j) ≡ false) d
  keys_apart k [] h = tt
  keys_apart k ((j, w) ∷ d) h = elim (Bool-cases (j =? k)) [
    | inl same ↦ let gone : some w ≡ none = rw same at h in absurd (cc)
    | inr other ↦
        (ground (arith, other, e.beq_iff k j, e.beq_iff j k), keys_apart k d (rw other at h))
  ]

abbrev pub lowered_entry : PoolKey × TransactionEnvelope → PoolKey × TransactionEnvelope
lowered_entry entry = (entry.0, lowered entry.1)

module _ (platform : Platform) (config : ProtocolConfig) (policy : MempoolPolicy)
    (accounts : Accounts) (base_fee : ℕ) (verifier : TransactionEnvelope → Bool) where
  -- The tests of an admission, made with the accounts of the restore.
  abbrev pub Passes : TransactionEnvelope → Type 0
  Passes tx =
      validate_admission_boundary platform config policy (lowered tx)
        (lookup_or empty_account (lower tx.sender) accounts) base_fee verifier
      ≡ ok tt

  hashes_apart :
      (h : Text) (d : Dict PoolKey TransactionEnvelope)
      → hash_count platform h d ≡ 0
      → Entries (λ key tx. (transaction_hash platform tx =? h) ≡ false) d
  hashes_apart h [] z = tt
  hashes_apart h ((key, tx) ∷ d) z = elim (Bool-cases (transaction_hash platform tx =? h)) [
    | inl same ↦ absurd (ground (arith, same))
    | inr other ↦ (other, hashes_apart h d (ground (arith, other)))
  ]

  -- Transactions that are still to be admitted to a pool.
  pub record Pending (pool : TransactionPool) (rest : Dict PoolKey TransactionEnvelope)
      : Type 0 where
    pub keyed : Keyed rest
    pub filed : Entries (λ key tx. key ≡ key_of tx) rest
    pub once : (h : Text) → hash_count platform h rest ≤ 1
    pub new_keys : Entries (λ key tx. lookup key pool.transactions ≡ none) rest
    pub new_hashes : Entries (λ key tx. mem (transaction_hash platform tx) pool.hashes ≡ false) rest
    pub encoded : Entries (λ key tx. IsEncoded tx) rest
    pub passes : Entries (λ key tx. Passes tx) rest
    pub total : length pool.transactions + length rest ≤ policy.max_transactions
    pub per_sender :
        (s : Text) → sender_count s pool.transactions + sender_count s rest ≤ policy.max_per_sender

  abbrev pub with_entry : TransactionEnvelope → TransactionPool → TransactionPool
  with_entry tx pool = store platform (lowered tx) pool.hashes pool

  pub lowered_key :
      (key : PoolKey) (tx : TransactionEnvelope) → key ≡ key_of tx → key_of (lowered tx) ≡ key
  lowered_key key tx e = ap (λ (s : Text). (s, tx.nonce)) (lower_idem tx.sender) ∙ sym e

  -- Its sender has one transaction more among the pending ones.
  sender_counted :
      (key : PoolKey) (tx : TransactionEnvelope) (rest : Dict PoolKey TransactionEnvelope)
      → key ≡ key_of tx
      → sender_count (lower tx.sender) ((key, tx) ∷ rest)
        ≡ suc (sender_count (lower tx.sender) rest)
  sender_counted key tx rest e = rw (e, beq_refl (lower tx.sender)) refl

  place_new-Pending :
      (pool : TransactionPool) (key : PoolKey) (tx : TransactionEnvelope)
      (rest : Dict PoolKey TransactionEnvelope)
      → Pending pool ((key, tx) ∷ rest)
      → place_new platform config policy (lowered tx) pool ≡ ok (with_entry tx pool)
  unfolding place_new
  place_new-Pending pool key tx rest p =
      let room : leb policy.max_transactions (length pool.transactions) ≡ false =
        ground (arith, p.total) in
      let own : leb policy.max_per_sender (sender_count (lower tx.sender) pool.transactions)
          ≡ false =
        ground (arith, p.per_sender (lower tx.sender), sender_counted key tx rest p.filed.0) in
      rw (room, lower_idem tx.sender) (rw own refl)

  pub admit-Pending :
      (pool : TransactionPool) (key : PoolKey) (tx : TransactionEnvelope)
      (rest : Dict PoolKey TransactionEnvelope)
      → Pending pool ((key, tx) ∷ rest)
      → admit platform config policy
          (lowered tx)
          (lookup_or empty_account (lower (lower tx.sender)) accounts)
          base_fee
          verifier
          pool
        ≡ ok (with_entry tx pool)
  unfolding admit admit_over
  admit-Pending pool key tx rest p =
      let place = lowered_key key tx p.filed.0 in
      let account = lower_idem tx.sender in
      let fresh =
        ap (λ (h : Text). mem h pool.hashes) (transaction_hash-lowered platform tx)
        ∙ p.new_hashes.0 in
      let free = ap (λ (k : PoolKey). lookup k pool.transactions) place ∙ p.new_keys.0 in
      >>-ok
        (validate_admission_boundary platform config policy (lowered tx)
          (lookup_or empty_account (lower (lower tx.sender)) accounts) base_fee verifier)
        (rw account p.passes.0)
        (>>-ok (raise_if (mem (transaction_hash platform (lowered tx)) pool.hashes) duplicate_hash)
          (raise_if-ok _ _ fresh) (rw free (place_new-Pending pool key tx rest p)))

  pub store-Pending :
      (pool : TransactionPool) (key : PoolKey) (tx : TransactionEnvelope)
      (rest : Dict PoolKey TransactionEnvelope)
      → Pending pool ((key, tx) ∷ rest)
      → Pending (with_entry tx pool) rest
  unfolding store
  store-Pending pool key tx rest p =
      let place = lowered_key key tx p.filed.0 in
      let stored = ap (λ (k : PoolKey). insert k (lowered tx) pool.transactions) place in
      let hash = transaction_hash platform tx in
      let none_left : hash_count platform hash rest ≡ 0 =
        ground (arith, p.once hash, beq_refl hash) in
      record {
        keyed = p.keyed.1;
        filed = p.filed.1;
        once = λ h. ground (arith, p.once h);
        new_keys =
            All-weaken _ _ rest
              (λ entry f.
                ap (lookup entry.0) stored
                ∙ lookup-insert key entry.0 (lowered tx) pool.transactions
                ∙ rw f.1 f.0)
              (All-both _ _ rest p.new_keys.1 (keys_apart key rest p.keyed.0));
        new_hashes =
            rw (transaction_hash-lowered platform tx, p.new_hashes.0)
              (All-weaken _ _ rest (λ entry f. rw (f.1, f.0) refl)
                (All-both _ _ rest p.new_hashes.1 (hashes_apart hash rest none_left)));
        encoded = p.encoded.1;
        passes = p.passes.1;
        total = omega (
          arith,
          p.total,
          ap (λ (d : Dict PoolKey TransactionEnvelope). length d) stored,
          length-insert_new key (lowered tx) pool.transactions p.new_keys.0,
        );
        per_sender = λ s. ground (
          arith,
          p.per_sender s,
          ap (sender_count s) stored,
          sender_count-insert_new s key (lowered tx) pool.transactions p.new_keys.0,
        );
      }

  pub with_entry_last :
      (pool : TransactionPool) (key : PoolKey) (tx : TransactionEnvelope)
      (rest : Dict PoolKey TransactionEnvelope)
      → Pending pool ((key, tx) ∷ rest)
      → (with_entry tx pool).transactions ≡ pool.transactions ++ ((key, lowered tx) ∷ [])
  unfolding store
  with_entry_last pool key tx rest p =
      ap (λ (k : PoolKey). insert k (lowered tx) pool.transactions) (lowered_key key tx p.filed.0)
      ∙ insert_last key (lowered tx) pool.transactions p.new_keys.0
