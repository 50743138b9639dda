-- ===== src/ConsensusSync/ForkChoice.antt =====
-- consensus_sync.py, `FinalizedForkChoice`. A call gives its outcome and the state that it leaves:
-- what was written before a raise stays written. The power resolver is an argument; 0 stands for
-- each value that the code refuses.
pub mod Endings
pub mod Canonical
pub mod Linkage
use junca_social_ecosystem_c.Common.{
  ℕ, zero, suc, ◌+◌, max, Bool, true, false, not, ◌||◌, Option, none, some, List, [], ◌∷◌, ltb, leb,
  ◌==◌, if◌then◌else◌, Eq, nat_eq, list_eq, ◌=?◌, Result, ok, err, ◌>>=◌, ◌>>◌, raise_if, Dict,
  lookup, lookup_or, contains, insert, Text, lower,
}
use junca_social_ecosystem_c.ConsensusSync.Types.{
  ConsensusSyncError, bad_hash, bad_policy, safety_halted, chain_mismatch, genesis_mismatch,
  bad_power, power_mismatch, peer_quarantined, height_regressed, conflicting_finality,
  parent_mismatch, is_hash, FinalizedClaim, PeerDiscipline,
}

pub record ForkChoice : Type 0 where
  pub chain_id : ℕ
  pub genesis_hash : Text
  pub quarantine_threshold : ℕ
  pub claims : Dict Text FinalizedClaim
  pub canonical : Dict ℕ FinalizedClaim
  pub disciplines : Dict Text PeerDiscipline
  pub safety_halt : Option (ℕ × Text × Text)

-- `FinalizedForkChoice.__init__`
unfoldable pub make_fork_choice : ℕ → Text → ℕ → ℕ → Result ConsensusSyncError ForkChoice
make_fork_choice chain_id genesis_hash expected_total_power quarantine_threshold = do
  raise_if (chain_id == 0 || expected_total_power == 0 || quarantine_threshold == 0) bad_policy
  raise_if (not (is_hash genesis_hash)) bad_hash
  ok (record {
    chain_id = chain_id;
    genesis_hash = lower genesis_hash;
    quarantine_threshold = quarantine_threshold;
    claims = [];
    canonical = [];
    disciplines = [];
    safety_halt = none;
  })

abbrev pub is_halted : ForkChoice → Bool
is_halted f = elim f.safety_halt [ none ↦ false | some _ ↦ true ]

-- `max` over the heights.
unfoldable pub max_height : ℕ → Dict ℕ FinalizedClaim → ℕ
max_height best [] = best
max_height best ((h, c) ∷ d) = max_height (max best h) d

unfoldable pub head_of : Dict ℕ FinalizedClaim → Option FinalizedClaim
head_of [] = none
head_of ((h, c) ∷ d) = lookup (max_height h d) ((h, c) ∷ d)

abbrev pub discipline : ForkChoice → Text → PeerDiscipline
discipline f peer_id = lookup_or (record { faults = 0; quarantined = false }) peer_id f.disciplines

unfoldable pub record_protocol_fault : Text → ForkChoice → ForkChoice
record_protocol_fault peer_id f =
    let faults = (discipline f peer_id).faults + 1 in
    record f {
      disciplines =
          insert peer_id
            (record { faults = faults; quarantined = leb f.quarantine_threshold faults })
            f.disciplines;
    }

abbrev pub Outcome : Type 0
Outcome = Result ConsensusSyncError (Option FinalizedClaim) × ForkChoice

-- `_fault`
abbrev pub fault : ForkChoice → Text → ConsensusSyncError → Outcome
fault f peer_id e = (err e, record_protocol_fault peer_id f)

abbrev pub regressed : Option FinalizedClaim → ℕ → Bool
regressed none height = false
regressed (some previous) height = ltb height previous.height

abbrev pub differs : Option FinalizedClaim → FinalizedClaim → Bool
differs none claim = false
differs (some existing) claim = not (lower existing.block_hash =? lower claim.block_hash)

-- The pair of hashes that halts the fork choice.
unfoldable pub halt_with : Option FinalizedClaim → FinalizedClaim → ForkChoice → ForkChoice
halt_with none claim f = f
halt_with (some existing) claim f = record f {
  safety_halt = some (claim.height, lower existing.block_hash, lower claim.block_hash);
}

-- `self._canonical.get(claim.height - 1)`; no claim stands at -1.
unfoldable pub below : ℕ → Dict ℕ FinalizedClaim → Option FinalizedClaim
below zero canonical = none
below (suc height) canonical = lookup height canonical

abbrev pub unlinked : Option FinalizedClaim → FinalizedClaim → Bool
unlinked none claim = false
unlinked (some previous) claim = not (lower claim.parent_hash =? lower previous.block_hash)

-- The two writes of an accepted claim.
unfoldable pub accept : FinalizedClaim → ForkChoice → ForkChoice
accept claim f = record f {
  claims = insert claim.peer_id claim f.claims;
  canonical =
      if contains claim.height f.canonical
      then f.canonical
      else insert claim.height claim f.canonical;
}

-- The tests and writes of `observe` for a claim of this chain from a peer in good standing.
unfoldable pub judge : FinalizedClaim → ForkChoice → Outcome
judge claim f =
    if regressed (lookup claim.peer_id f.claims) claim.height
    then fault f claim.peer_id height_regressed
    else if differs (lookup claim.height f.canonical) claim
    then (err conflicting_finality, halt_with (lookup claim.height f.canonical) claim f)
    else if unlinked (below claim.height f.canonical) claim
    then fault f claim.peer_id parent_mismatch
    else (ok (head_of (accept claim f).canonical), accept claim f)

unfoldable pub observe : (ℕ → ℕ) → FinalizedClaim → ForkChoice → Outcome
observe power_resolver claim f =
    if is_halted f
    then (err safety_halted, f)
    else if not (claim.chain_id == f.chain_id)
    then fault f claim.peer_id chain_mismatch
    else if not (lower claim.genesis_hash =? f.genesis_hash)
    then fault f claim.peer_id genesis_mismatch
    else if power_resolver claim.height == 0
    then (err bad_power, f)
    else if not (claim.total_power == power_resolver claim.height)
    then fault f claim.peer_id power_mismatch
    else if (discipline f claim.peer_id).quarantined
    then (err peer_quarantined, f)
    else judge claim f
