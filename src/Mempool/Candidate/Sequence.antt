-- ===== src/Mempool/Candidate/Sequence.antt =====
-- mempool.py, `build_candidate`: what a candidate holds.
use junca_social_ecosystem_c.Common.{
  ℕ, zero, suc, ◌+◌, ◌*◌, ◌≤◌, ◌<◌, ◌≡◌, refl, ap, ◌∙◌, inl, inr, Option, some, List, [], ◌∷◌, map,
  arith, Bool-cases, All, length, keep_if, nat_eq, list_eq, pair_eq, ◌=?◌, Dict, lookup, lookup_or,
  Text, lower, Platform, Entries, lookup_or-insert, ok, text_iff,
}
use junca_social_ecosystem_c.ProtocolKernel.Types.{
  ProtocolConfig, AccountState, empty_account, Accounts, TransactionEnvelope,
}
use junca_social_ecosystem_c.Mempool.Types.{TransactionPool, key_of}
use junca_social_ecosystem_c.Mempool.Candidate.{
  BlockCandidate, next_of, nonces_of, lower_keys, limit_of, build_candidate, select,
}
use junca_social_ecosystem_c.Mempool.Candidate.Loop.{Selects, full, dry, pick, select-Selects}

-- The nonces of a sender's transactions, in their order.
abbrev pub nonces_by : Text → List TransactionEnvelope → List ℕ
nonces_by sender txs = map (λ tx. tx.nonce) (keep_if (λ tx. lower tx.sender =? sender) txs)

-- `first`, `first + 1`, and so on.
abbrev pub count_up : ℕ → ℕ → List ℕ
count_up first zero = []
count_up first (suc n) = first ∷ count_up (first + 1) n

nonces_of-lookup_or :
    (z : AccountState) (sender : Text) (accounts : Accounts)
    → lookup_or (lookup_or z sender accounts).nonce sender (nonces_of accounts)
      ≡ (lookup_or z sender accounts).nonce
nonces_of-lookup_or z sender [] = refl
nonces_of-lookup_or z sender ((key, account) ∷ accounts) =
    ground (arith, nonces_of-lookup_or z sender accounts)

module _ (platform : Platform) (config : ProtocolConfig) (accounts : Accounts) (base_fee : ℕ)
    (pool : TransactionPool) (limit : ℕ) where
  Selects-gas :
      {next_nonce : Dict Text ℕ} {gas final : ℕ} {txs : List TransactionEnvelope}
      → Selects platform config accounts base_fee pool limit next_nonce gas txs final
      → gas ≤ limit
      → (final ≡ gas + config.intrinsic_gas * length txs) × (final ≤ limit)
  Selects-gas (full _ gas _) h = (omega arith, h)
  Selects-gas (dry _ gas _) h = (omega arith, h)
  Selects-gas (pick _ gas best txs final room _ _ rest) h =
      let (e, bound) = Selects-gas rest room in (grind (arith, e), bound)

  Selects-nonces :
      (sender : Text) {next_nonce : Dict Text ℕ} {gas final : ℕ} {txs : List TransactionEnvelope}
      → Selects platform config accounts base_fee pool limit next_nonce gas txs final
      → nonces_by sender txs
        ≡ count_up (next_of accounts next_nonce sender) (length (nonces_by sender txs))
  Selects-nonces sender (full _ _ _) = refl
  Selects-nonces sender (dry _ _ _) = refl
  Selects-nonces sender (pick next_nonce gas best txs final _ eligible _ rest) =
      let later =
        lookup_or-insert (lookup_or empty_account sender accounts).nonce (lower best.sender) sender
          (best.nonce + 1) next_nonce in
      let others = Selects-nonces sender rest in
      elim (Bool-cases (lower best.sender =? sender)) [
        | inl mine ↦
            let first : best.nonce ≡ next_of accounts next_nonce sender =
              eligible.next
              ∙ ap (next_of accounts next_nonce) ((text_iff (lower best.sender) sender).0 mine) in
            rw (mine, ← first) (ap (λ ns. best.nonce ∷ ns) (rw (later, mine) at others))
        | inr other ↦ rw other (rw (later, other) at others)
      ]

  Selects-held :
      {next_nonce : Dict Text ℕ} {gas final : ℕ} {txs : List TransactionEnvelope}
      → Selects platform config accounts base_fee pool limit next_nonce gas txs final
      → All
          (λ tx. (lookup (key_of tx) pool.transactions ≡ some tx) × (base_fee ≤ tx.max_fee_per_gas))
          txs
  Selects-held (full _ _ _) = tt
  Selects-held (dry _ _ _) = tt
  Selects-held (pick _ _ _ _ _ _ eligible _ rest) =
      ((eligible.held, eligible.covers), Selects-held rest)

-- What `build_candidate` returns is what its loop selects: at each round the executable transaction
-- of greatest reward, and it ends where the gas left is below the intrinsic gas or nothing is
-- executable. Its bound on the rounds never cuts it short, and its gas limit is within the block's.
pub build_candidate-Selects :
    (platform : Platform) (config : ProtocolConfig) (pool : TransactionPool) (accounts : Accounts)
    (base_fee : ℕ) (gas_limit : Option ℕ) {c : BlockCandidate}
    → 0 < config.intrinsic_gas
    → Entries (λ key tx. key ≡ key_of tx) pool.transactions
    → build_candidate platform config pool accounts base_fee gas_limit ≡ ok c
    → Selects platform config
        (lower_keys [] accounts)
        base_fee
        pool
        c.gas_limit
        (nonces_of (lower_keys [] accounts))
        0
        c.transactions
        c.gas_used
      × (c.gas_limit ≤ config.block_gas_limit)
unfolding build_candidate
build_candidate-Selects platform config pool accounts base_fee gas_limit {c} positive filed h =
    let limit = limit_of config gas_limit in
    let chosen =
      select platform config (lower_keys [] accounts) base_fee pool limit limit
        (nonces_of (lower_keys [] accounts)) 0 in
    let transactions : c.transactions ≡ chosen.0 = ground arith in
    let gas_used : c.gas_used ≡ chosen.1 = ground arith in
    let gas_limit_used : c.gas_limit ≡ limit = ground arith in
    let run =
      select-Selects platform config (lower_keys [] accounts) base_fee pool limit positive filed
        limit (nonces_of (lower_keys [] accounts)) 0 (omega arith) in
    rw (transactions, gas_used, gas_limit_used) (run, ground arith)

module _ (platform : Platform) (config : ProtocolConfig) (pool : TransactionPool)
    (accounts : Accounts) (base_fee : ℕ) (gas_limit : Option ℕ) {c : BlockCandidate} where
  -- The transactions of a candidate that one sender sent have consecutive nonces, in the order of
  -- the candidate, from the nonce of the sender's account on.
  pub build_candidate_nonces :
      (sender : Text)
      → 0 < config.intrinsic_gas
      → Entries (λ key tx. key ≡ key_of tx) pool.transactions
      → build_candidate platform config pool accounts base_fee gas_limit ≡ ok c
      → nonces_by sender c.transactions
        ≡ count_up
            (lookup_or empty_account sender (lower_keys [] accounts)).nonce
            (length (nonces_by sender c.transactions))
  build_candidate_nonces sender positive filed h =
      let (run, _) =
        build_candidate-Selects platform config pool accounts base_fee gas_limit positive filed h in
      rw (nonces_of-lookup_or empty_account sender (lower_keys [] accounts)) at (
        Selects-nonces platform config (lower_keys [] accounts) base_fee pool c.gas_limit sender
          run)

  -- A candidate's gas is the intrinsic gas of each of its transactions, within its gas limit and
  -- that within the block gas limit. Each of its transactions is the one that the pool files under
  -- its sender and nonce, and its fee cap covers the base fee.
  pub build_candidate_held :
      0 < config.intrinsic_gas
      → Entries (λ key tx. key ≡ key_of tx) pool.transactions
      → build_candidate platform config pool accounts base_fee gas_limit ≡ ok c
      → (c.gas_used ≡ config.intrinsic_gas * length c.transactions)
        × (c.gas_used ≤ c.gas_limit)
        × (c.gas_limit ≤ config.block_gas_limit)
        × All
            (λ tx.
              (lookup (key_of tx) pool.transactions ≡ some tx) × (base_fee ≤ tx.max_fee_per_gas))
            c.transactions
  build_candidate_held positive filed h =
      let (run, bound) =
        build_candidate-Selects platform config pool accounts base_fee gas_limit positive filed h in
      let (used, within) =
        Selects-gas platform config (lower_keys [] accounts) base_fee pool c.gas_limit run
          (omega arith) in
      (
        omega (arith, used),
        within,
        bound,
        Selects-held platform config (lower_keys [] accounts) base_fee pool c.gas_limit run,
      )
