-- ===== src/Mempool/Candidate/Loop.antt =====
-- mempool.py, `build_candidate`: the loop as a relation, with no bound on its rounds.
use junca_social_ecosystem_c.Common.{
  ℕ, zero, suc, ◌+◌, ◌≤◌, ◌<◌, ◌≡◌, refl, inl, inr, true, false, some, List, [], ◌∷◌, arith, ltb,
  leb, Bool-cases, Option-cases, All, All-min_by, nat_eq, list_eq, pair_eq, Dict, lookup, insert,
  Text, lower, Platform, Entries, Entries-lookup, leb→le, subst, sym, ap, ◌∙◌, min_by_greatest,
  ltb→lt,
}
use junca_social_ecosystem_c.ProtocolKernel.Types.{ProtocolConfig, Accounts, TransactionEnvelope}
use junca_social_ecosystem_c.Mempool.Types.{TransactionPool, PoolKey, key_of}
use junca_social_ecosystem_c.Mempool.Candidate.{
  reward, ranks_before, next_of, executable_from, executable, best_of, select, senders_of,
}

ranks_before-true :
    (platform : Platform) (base_fee : ℕ) (a b : TransactionEnvelope)
    → ranks_before platform base_fee a b ≡ true
    → reward base_fee b ≤ reward base_fee a
unfolding ranks_before
ranks_before-true platform base_fee a b h = ground arith

ranks_before-false :
    (platform : Platform) (base_fee : ℕ) (a b : TransactionEnvelope)
    → ranks_before platform base_fee a b ≡ false
    → reward base_fee a ≤ reward base_fee b
unfolding ranks_before
ranks_before-false platform base_fee a b h = ground arith

module _ (platform : Platform) (config : ProtocolConfig) (accounts : Accounts) (base_fee : ℕ)
    (pool : TransactionPool) (limit : ℕ) where
  -- What the loop may pick: the transaction that the pool holds for its sender's next nonce, if its
  -- fee cap covers the base fee.
  pub record Eligible (next_nonce : Dict Text ℕ) (tx : TransactionEnvelope) : Type 0 where
    pub held : lookup (key_of tx) pool.transactions ≡ some tx
    pub next : tx.nonce ≡ next_of accounts next_nonce (lower tx.sender)
    pub covers : base_fee ≤ tx.max_fee_per_gas

  -- `txs` and `final` are what the loop selects and the gas used at its end, from the nonces and
  -- the gas used given.
  pub data Selects : Dict Text ℕ → ℕ → List TransactionEnvelope → ℕ → Type 0 where
    full :
        (next_nonce : Dict Text ℕ) (gas : ℕ)
        → limit < gas + config.intrinsic_gas
        → Selects next_nonce gas [] gas
    dry :
        (next_nonce : Dict Text ℕ) (gas : ℕ)
        → executable platform config accounts base_fee pool next_nonce ≡ []
        → Selects next_nonce gas [] gas
    pick :
        (next_nonce : Dict Text ℕ) (gas : ℕ) (best : TransactionEnvelope)
        (txs : List TransactionEnvelope) (final : ℕ)
        → gas + config.intrinsic_gas ≤ limit
        → Eligible next_nonce best
        → All
            (λ t. reward base_fee t ≤ reward base_fee best)
            (executable platform config accounts base_fee pool next_nonce)
        → Selects
            (insert (lower best.sender) (best.nonce + 1) next_nonce)
            (gas + config.intrinsic_gas)
            txs
            final
        → Selects next_nonce gas (best ∷ txs) final

  found-Eligible :
      Entries (λ key tx. key ≡ key_of tx) pool.transactions
      → (next_nonce : Dict Text ℕ) (sender : Text) (tx : TransactionEnvelope)
      → lookup (sender, next_of accounts next_nonce sender) pool.transactions ≡ some tx
      → base_fee ≤ tx.max_fee_per_gas
      → Eligible next_nonce tx
  found-Eligible filed next_nonce sender tx found covered =
      let e = Entries-lookup (λ key t. key ≡ key_of t) _ tx pool.transactions filed found in
      record {
        held = subst (λ key. lookup key pool.transactions ≡ some tx) e found;
        next =
            sym (ap (λ (key : PoolKey). key.1) e)
            ∙ ap (next_of accounts next_nonce) (ap (λ (key : PoolKey). key.0) e);
        covers = covered;
      }

  executable_from-Eligible :
      Entries (λ key tx. key ≡ key_of tx) pool.transactions
      → (next_nonce : Dict Text ℕ) (senders : List Text)
      → All
          (Eligible next_nonce)
          (executable_from platform config accounts base_fee pool next_nonce senders)
  unfolding executable_from
  executable_from-Eligible filed next_nonce [] = tt
  executable_from-Eligible filed next_nonce (sender ∷ senders) =
      elim (Option-cases (lookup (sender, next_of accounts next_nonce sender) pool.transactions)) [
        | inl missing ↦
            rw (missing, executable_from) (executable_from-Eligible filed next_nonce senders)
        | inr (tx, found) ↦ elim (Bool-cases (leb base_fee tx.max_fee_per_gas)) [
          | inl covered ↦
              rw (found, executable_from, covered)
                (
                  found-Eligible filed next_nonce sender tx found (leb→le _ _ covered),
                  executable_from-Eligible filed next_nonce senders,
                )
          | inr short ↦
              rw (found, executable_from, short) (executable_from-Eligible filed next_nonce senders)
        ]
      ]

  -- With fuel for each unit of gas left, the bounded loop does what the loop does.
  pub select-Selects :
      0 < config.intrinsic_gas
      → Entries (λ key tx. key ≡ key_of tx) pool.transactions
      → (fuel : ℕ) (next_nonce : Dict Text ℕ) (gas : ℕ) → limit ≤ gas + fuel
      → let result = select platform config accounts base_fee pool limit fuel next_nonce gas in
        Selects next_nonce gas result.0 result.1
  unfolding select
  select-Selects positive filed zero next_nonce gas enough = full next_nonce gas (omega arith)
  select-Selects positive filed (suc fuel) next_nonce gas enough =
      elim (Bool-cases (ltb limit (gas + config.intrinsic_gas))) [
        | inl over ↦ rw (over, select) (full next_nonce gas (ltb→lt _ _ over))
        | inr room ↦
            go (select-Selects positive filed fuel)
              (executable platform config accounts base_fee pool next_nonce) refl room
      ]
    where
      go :
          ((nonces : Dict Text ℕ) (used : ℕ)
            → limit ≤ used + fuel
            → let result = select platform config accounts base_fee pool limit fuel nonces used in
              Selects nonces used result.0 result.1)
          → (found : List TransactionEnvelope)
          → executable platform config accounts base_fee pool next_nonce ≡ found
          → ltb limit (gas + config.intrinsic_gas) ≡ false
          → let result =
              select platform config accounts base_fee pool limit (suc fuel) next_nonce gas in
            Selects next_nonce gas result.0 result.1
      go rest [] e room = rw (room, select, e) (dry next_nonce gas e)
      go rest (tx ∷ txs) e room =
          let best = best_of platform config accounts base_fee pool tx txs in
          let eligible =
            subst (All (Eligible next_nonce)) e
              (executable_from-Eligible filed next_nonce (senders_of pool.transactions)) in
          let greatest =
            min_by_greatest (ranks_before platform base_fee) (reward base_fee)
              (ranks_before-true platform base_fee) (ranks_before-false platform base_fee) tx txs
              (reward base_fee best) (omega arith) in
          rw (room, select, e)
            (pick next_nonce gas best _ _ (ground arith)
              (All-min_by (ranks_before platform base_fee) (Eligible next_nonce) tx txs eligible.0
                eligible.1)
              (rw e greatest) (rest _ (gas + config.intrinsic_gas) (omega arith)))
