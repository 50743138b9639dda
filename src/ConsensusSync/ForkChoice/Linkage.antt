-- ===== src/ConsensusSync/ForkChoice/Linkage.antt =====
-- consensus_sync.py, `observe`: the parent link is tested against the claim one height below only.
use junca_social_ecosystem_c.Common.{
  ℕ, suc, ◌<◌, ◌≡◌, ◌≢◌, refl, false, none, some, arith, nat_eq, list_eq, text_iff, ok, lookup,
  lower, lookup-insert, ==_iff,
}
use junca_social_ecosystem_c.ConsensusSync.Types.{FinalizedClaim}
use junca_social_ecosystem_c.ConsensusSync.ForkChoice.{
  ForkChoice, is_halted, discipline, below, accept, judge, observe, head_of,
}

-- A claim of this chain from a new peer in good standing, for a height at which nothing is known
-- and whose parent height is unknown too, while a claim stands one height above.
pub record FillsGap (power_resolver : ℕ → ℕ) (f : ForkChoice) (claim child : FinalizedClaim)
    : Type 0 where
  pub running : is_halted f ≡ false
  pub chain : claim.chain_id ≡ f.chain_id
  pub genesis : lower claim.genesis_hash ≡ f.genesis_hash
  pub power : claim.total_power ≡ power_resolver claim.height
  pub positive : 0 < claim.total_power
  pub trusted : (discipline f claim.peer_id).quarantined ≡ false
  pub new_peer : lookup claim.peer_id f.claims ≡ none
  pub open_height : lookup claim.height f.canonical ≡ none
  pub no_parent : below claim.height f.canonical ≡ none
  pub above : lookup (suc claim.height) f.canonical ≡ some child

-- Take a claim that passes the other tests of `observe`, from a new peer, for a height where no
-- claim is canonical and none stands below, while one stands above. It is accepted even where
-- the claim above it names another parent: no safety halt follows, and both stand as canonical
-- with a broken link.
pub observe_unlinked :
    (power_resolver : ℕ → ℕ) (f : ForkChoice) (claim child : FinalizedClaim)
    → FillsGap power_resolver f claim child
    → lower child.parent_hash ≢ lower claim.block_hash
    → let (outcome, f') = observe power_resolver claim f in
      (outcome ≡ ok (head_of f'.canonical))
      × (is_halted f' ≡ false)
      × (c : FinalizedClaim) × (lookup claim.height f'.canonical ≡ some c)
      × (lookup (suc claim.height) f'.canonical ≡ some child)
      × (lower child.parent_hash ≢ lower c.block_hash)
unfolding observe judge accept
observe_unlinked power_resolver f claim child g ne = rw (accepted) (
  refl,
  g.running,
  claim,
  ground (
    arith,
    lookup-insert claim.height claim.height claim f.canonical,
    ==_iff claim.height claim.height,
  ),
  ground (
    arith,
    lookup-insert claim.height (suc claim.height) claim f.canonical,
    ==_iff claim.height (suc claim.height),
  ),
  ne,
)
  where
    accepted :
        observe power_resolver claim f ≡ (ok (head_of (accept claim f).canonical), accept claim f)
    accepted = ground (arith, text_iff (lower claim.genesis_hash) f.genesis_hash)
