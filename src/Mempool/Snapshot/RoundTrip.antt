-- ===== src/Mempool/Snapshot/RoundTrip.antt =====
-- mempool.py, `export_snapshot` and `restore_snapshot`: what is exported is restored.
use junca_social_ecosystem_c.Common.{
  ℕ, ◌≡◌, refl, sym, ap, ◌∙◌, arith, Bool, List, [], ◌∷◌, ◌++◌, map, append_assoc, append-nil,
  nat_eq, list_eq, pair_eq, beq_refl, ok, Dict, lookup_or, values, Entries, Text, codes, lower,
  to_items, Platform, find_field, field_names, without_field, field, text,
}
use junca_social_ecosystem_c.ProtocolKernel.Types.{
  ProtocolConfig, empty_account, Accounts, TransactionEnvelope, transaction_hash,
}
use junca_social_ecosystem_c.Mempool.Types.{MempoolPolicy, PoolKey, TransactionPool}
use junca_social_ecosystem_c.Mempool.Pool.Synced.{admit-Synced}
use junca_social_ecosystem_c.Mempool.Pool.Capacity.{admit-Within}
use junca_social_ecosystem_c.Mempool.Pool.History.{Sound}
use junca_social_ecosystem_c.Mempool.Candidate.{lower_keys}
use junca_social_ecosystem_c.Mempool.Snapshot.{
  sorted_entries, is_policy, transaction_record, snapshot_digest, header_fields, transactions_field,
  export_snapshot, restore_items, check_snapshot, restore_document, restore_snapshot,
}
use junca_social_ecosystem_c.Mempool.Snapshot.Records.{
  lowered, IsEncoded, transaction_hash-lowered, transaction_from_record-transaction_record,
}
use junca_social_ecosystem_c.Mempool.Snapshot.Pending.{
  lowered_entry, Passes, Pending, with_entry, admit-Pending, store-Pending, with_entry_last,
}
use junca_social_ecosystem_c.Mempool.Snapshot.Exported.{Same, Same-from, sorted_entries-Pending}

-- The exported snapshot is restored with the same transactions, and the hashes are those of the
-- pool in its sorted order.
abbrev pub Restores :
    Platform
    → ProtocolConfig
    → MempoolPolicy
    → Accounts
    → ℕ
    → (TransactionEnvelope → Bool)
    → TransactionPool
    → TransactionPool
    → Type 0
Restores platform config policy accounts base_fee verifier pool idle =
    (restored : TransactionPool) × (restore_snapshot platform config policy
        (export_snapshot platform config policy pool) accounts base_fee verifier idle
      ≡ ok (restored, map (transaction_hash platform) (values (sorted_entries pool.transactions))))
    × Same platform pool restored
    × Sound platform config policy restored

module _ (platform : Platform) (config : ProtocolConfig) (policy : MempoolPolicy) where
  check_snapshot-export :
      (pool : TransactionPool) (digest : Text)
      → snapshot_digest platform
          (header_fields platform config policy (transactions_field platform config policy pool))
        ≡ digest
      → check_snapshot platform config policy (
          header_fields platform config policy (
            field
              (codes "snapshot_digest")
              (text digest)
              (transactions_field platform config policy pool)))
        ≡ ok (to_items (transaction_record platform) (values (sorted_entries pool.transactions)))
  unfolding check_snapshot is_policy without_field find_field field_names
  check_snapshot-export pool digest e =
      rw
        (
          e,
          beq_refl config.chain_id,
          beq_refl digest,
          beq_refl policy.max_transactions,
          beq_refl policy.max_per_sender,
          beq_refl policy.max_nonce_gap,
          beq_refl policy.replacement_bump_percent,
        )
        refl

module _ (platform : Platform) (config : ProtocolConfig) (policy : MempoolPolicy)
    (accounts : Accounts) (base_fee : ℕ) (verifier : TransactionEnvelope → Bool) where
  -- The loop over them.
  pub restore_items-Pending :
      (pool : TransactionPool) (rest : Dict PoolKey TransactionEnvelope) (hashes : List Text)
      → Pending platform config policy accounts base_fee verifier pool rest
      → Sound platform config policy pool
      → (restored : TransactionPool) × (restore_items platform config policy accounts base_fee
            verifier
            (to_items (transaction_record platform) (values rest))
            pool
            hashes
          ≡ ok (restored, hashes ++ map (transaction_hash platform) (values rest)))
        × (restored.transactions ≡ pool.transactions ++ map lowered_entry rest)
        × Sound platform config policy restored
  unfolding restore_items
  restore_items-Pending pool [] hashes p s = (
    pool,
    ap (λ (l : List Text). ok (pool, l)) (sym (append-nil hashes)),
    sym (append-nil pool.transactions),
    s,
  )
  restore_items-Pending pool ((key, tx) ∷ rest) hashes p s =
      let hash = transaction_hash platform tx in
      let account = lookup_or empty_account (lower (lower tx.sender)) accounts in
      let admitted =
        admit-Pending platform config policy accounts base_fee verifier pool key tx rest p in
      let still =
        store-Pending platform config policy accounts base_fee verifier pool key tx rest p in
      let sound : Sound platform config policy
          (with_entry platform config policy accounts base_fee verifier tx pool) =
        record {
          synced =
              admit-Synced platform config policy (lowered tx) account base_fee verifier pool
                s.synced admitted;
          within =
              admit-Within policy platform config (lowered tx) account base_fee verifier pool
                admitted s.within;
        } in
      let (restored, done, entries, kept) =
        restore_items-Pending (with_entry platform config policy accounts base_fee verifier tx pool)
          rest (hashes ++ hash ∷ []) still sound in
      let stored =
        with_entry_last platform config policy accounts base_fee verifier pool key tx rest p in
      (
        restored,
        rw
            (
              transaction_from_record-transaction_record platform tx p.encoded.0,
              admitted,
              transaction_hash-lowered platform tx,
            )
            (done
              ∙ ap (λ (l : List Text). ok (restored, l))
                  (append_assoc hashes (hash ∷ [])
                    (map (transaction_hash platform) (values rest)))),
        entries
            ∙ ap (λ (d : Dict PoolKey TransactionEnvelope). d ++ map lowered_entry rest) stored
            ∙ append_assoc pool.transactions ((key, lowered tx) ∷ []) (map lowered_entry rest),
        kept,
      )

module _ (platform : Platform) (config : ProtocolConfig) (policy : MempoolPolicy)
    (accounts : Accounts) (base_fee : ℕ) (verifier : TransactionEnvelope → Bool) where
  -- Take a pool that is consistent and within its policy's bounds, whose data and signatures
  -- are bytes and whose transactions, with their addresses in lower case, pass the tests of an
  -- admission with the given accounts, base fee and verifier. Then `restore_snapshot` on a pool
  -- without transactions accepts what `export_snapshot` gives. It returns the hashes in the
  -- order of sender and nonce, and the pool has under each key the same transaction, with its
  -- addresses in lower case, has the same set of hashes, and is consistent and within the
  -- bounds.
  pub restore-export :
      (pool idle : TransactionPool)
      → Sound platform config policy pool
      → idle.transactions ≡ []
      → Entries (λ key tx. IsEncoded tx) pool.transactions
      → Entries
          (λ key tx. Passes platform config policy (lower_keys [] accounts) base_fee verifier tx)
          pool.transactions
      → Restores platform config policy accounts base_fee verifier pool idle
  unfolding restore_snapshot restore_document export_snapshot
  restore-export pool idle s none_held encoded passes =
      let body =
        header_fields platform config policy (transactions_field platform config policy pool) in
      let pending =
        sorted_entries-Pending platform config policy (lower_keys [] accounts) base_fee verifier
          pool s encoded passes in
      let (restored, done, entries, sound) =
        restore_items-Pending platform config policy (lower_keys [] accounts) base_fee verifier
          (record { transactions = []; hashes = [] }) (sorted_entries pool.transactions) [] pending
          (record {
            synced = record { keyed = tt; filed = tt; distinct = tt; counted = λ h. refl };
            within = record { total = omega arith; per_sender = λ s. omega arith };
          }) in
      (
        restored,
        rw
            (
              none_held,
              check_snapshot-export platform config policy pool (snapshot_digest platform body)
                  refl,
            )
            done,
        Same-from platform pool restored s.synced sound.synced entries,
        sound,
      )
