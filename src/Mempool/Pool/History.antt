-- ===== src/Mempool/Pool/History.antt =====
-- mempool.py, `TransactionPool`: any sequence of calls on a pool that starts empty.
use junca_social_ecosystem_c.Common.{
  ℕ, ◌≡◌, inl, inr, Option, none, some, List, [], ◌∷◌, arith, Bool-cases, Result, ok, err,
  >>=-eq-ok, ok-injective, subst, Dict, lookup, Text, Platform, Bool, refl, ◌=?◌, list_eq, nat_eq,
  pair_eq,
}
use junca_social_ecosystem_c.ProtocolKernel.Types.{
  ProtocolConfig, AccountState, Accounts, TransactionEnvelope, transaction_hash,
}
use junca_social_ecosystem_c.Mempool.Types.{
  MempoolError, MempoolPolicy, TransactionPool, PoolKey, key_of,
}
use junca_social_ecosystem_c.Mempool.Pool.{
  admit, remove_one, remove_included, prune_items, prune, is_stale,
}
use junca_social_ecosystem_c.Mempool.Pool.Synced.{Synced, admit-Synced, remove_included-Synced}
use junca_social_ecosystem_c.Mempool.Pool.Pruned.{prune_exact}
use junca_social_ecosystem_c.Mempool.Pool.Capacity.{Within, admit-Within, drop_entry-Within}

-- A call, with the account that the caller reads and its verifier.
pub data Op : Type 0 where
  admits : TransactionEnvelope → AccountState → ℕ → (TransactionEnvelope → Bool) → Op
  includes : List TransactionEnvelope → Op
  prunes : Accounts → ℕ → Op

-- The pool that a call leaves: a refused admission has written nothing.
abbrev pub after : TransactionPool → Result MempoolError TransactionPool → TransactionPool
after pool (ok pool') = pool'
after pool (err e) = pool

module _ (platform : Platform) (config : ProtocolConfig) (policy : MempoolPolicy) where
  abbrev pub pruned :
      Result MempoolError (TransactionPool × List Text) → Result MempoolError TransactionPool
  pruned (ok (pool, removed)) = ok pool
  pruned (err e) = err e

  unfoldable pub step : TransactionPool → Op → TransactionPool
  step pool (admits tx account base_fee verifier) =
      after pool (admit platform config policy tx account base_fee verifier pool)
  step pool (includes txs) = after pool (remove_included platform txs pool)
  step pool (prunes accounts base_fee) =
      after pool (pruned (prune platform config policy accounts base_fee pool))

  unfoldable pub run : TransactionPool → List Op → TransactionPool
  run pool [] = pool
  run pool (op ∷ ops) = run (step pool op) ops

  remove_one-Within :
      (found : Option TransactionEnvelope) (tx : TransactionEnvelope) (pool : TransactionPool)
      {pool' : TransactionPool}
      → remove_one platform found tx pool ≡ ok pool'
      → Within policy pool
      → Within policy pool'
  unfolding remove_one
  remove_one-Within none tx pool h w = subst (Within policy) (ok-injective h) w
  remove_one-Within (some current) tx pool {pool'} h w =
      elim (Bool-cases (transaction_hash platform current =? transaction_hash platform tx)) [
        | inl same ↦
            drop_entry-Within policy platform config (key_of tx) current pool (rw same at h) w
        | inr other ↦ subst (Within policy) (ok-injective (rw other at h)) w
      ]

  remove_included-Within :
      (txs : List TransactionEnvelope) (pool : TransactionPool) {pool' : TransactionPool}
      → remove_included platform txs pool ≡ ok pool'
      → Within policy pool
      → Within policy pool'
  unfolding remove_included
  remove_included-Within [] pool h w = subst (Within policy) (ok-injective h) w
  remove_included-Within (tx ∷ txs) pool h w =
      let (next, first, rest) = >>=-eq-ok _ _ h in
      remove_included-Within txs next rest
        (remove_one-Within (lookup (key_of tx) pool.transactions) tx pool first w)

  prune_items-Within :
      (accounts : Accounts) (base_fee : ℕ) (items : Dict PoolKey TransactionEnvelope)
      (pool : TransactionPool) (removed : List Text) {result : TransactionPool × List Text}
      → prune_items platform config policy accounts base_fee items pool removed ≡ ok result
      → Within policy pool
      → Within policy result.0
  unfolding prune_items
  prune_items-Within accounts base_fee [] pool removed h w =
      subst (λ r. Within policy r.0) (ok-injective h) w
  prune_items-Within accounts base_fee ((key, tx) ∷ items) pool removed h w =
      elim (Bool-cases (is_stale platform config policy accounts base_fee key tx)) [
        | inl stale ↦
            let (next, first, rest) = >>=-eq-ok _ _ (rw (prune_items, stale) at h) in
            prune_items-Within accounts base_fee items next _ rest
              (drop_entry-Within policy platform config key tx pool first w)
        | inr fresh ↦
            prune_items-Within accounts base_fee items pool removed (rw (prune_items, fresh) at h) w
      ]

  prune-Within :
      (accounts : Accounts) (base_fee : ℕ) (pool : TransactionPool)
      {result : TransactionPool × List Text}
      → prune platform config policy accounts base_fee pool ≡ ok result
      → Within policy pool
      → Within policy result.0
  unfolding prune
  prune-Within accounts base_fee pool {result} h w =
      let (r, first, last) = >>=-eq-ok _ _ h in
      subst (λ p. Within policy p.0) (ok-injective last)
        (prune_items-Within accounts base_fee pool.transactions pool [] first w)

  -- The hash set follows the transactions, and the bounds of the policy hold.
  pub record Sound (pool : TransactionPool) : Type 0 where
    pub synced : Synced platform pool
    pub within : Within policy pool

  step-Sound : (pool : TransactionPool) (op : Op) → Sound pool → Sound (step pool op)
  unfolding step
  step-Sound pool (admits tx account base_fee verifier) s =
      go (admit platform config policy tx account base_fee verifier pool) refl
    where
      go :
          (r : Result MempoolError TransactionPool)
          → admit platform config policy tx account base_fee verifier pool ≡ r
          → Sound (after pool r)
      go (err e) h = s
      go (ok pool') h = record {
        synced = admit-Synced platform config policy tx account base_fee verifier pool s.synced h;
        within = admit-Within policy platform config tx account base_fee verifier pool h s.within;
      }
  step-Sound pool (includes txs) s =
      let (pool', done, synced) = remove_included-Synced platform txs pool s.synced in
      rw done (record { synced = synced; within = remove_included-Within txs pool done s.within })
  step-Sound pool (prunes accounts base_fee) s =
      let (pool', done, synced, _) =
        prune_exact platform config policy accounts base_fee pool s.synced in
      rw done
        (record { synced = synced; within = prune-Within accounts base_fee pool done s.within })

  pub run_keeps-Sound : (pool : TransactionPool) (ops : List Op) → Sound pool → Sound (run pool ops)
  unfolding run
  run_keeps-Sound pool [] s = s
  run_keeps-Sound pool (op ∷ ops) s = run_keeps-Sound (step pool op) ops (step-Sound pool op s)

  -- After any sequence of admissions, removals and prunings on a pool that starts empty, the hash
  -- set lists each hash once and holds exactly the hashes of the transactions in the pool, no two
  -- of which share one; each is filed under its sender and nonce; and the pool holds at most as
  -- many transactions, of all senders and of each, as the policy allows.
  pub run-Sound : (ops : List Op) → Sound (run (record { transactions = []; hashes = [] }) ops)
  run-Sound ops = run_keeps-Sound _ ops (record {
    synced = record { keyed = tt; filed = tt; distinct = tt; counted = λ h. refl };
    within = record { total = omega arith; per_sender = λ s. omega arith };
  })
