-- ===== src/ConsensusSync/ForkChoice/Endings.antt =====
-- consensus_sync.py, `observe`: the ways in which a call ends.
use junca_social_ecosystem_c.Common.{
  ℕ, ◌≡◌, inl, inr, false, Bool-cases, nat_eq, list_eq, ◌=?◌, ◌==◌, ok, err, lookup, lower,
}
use junca_social_ecosystem_c.ConsensusSync.Types.{
  ConsensusSyncError, conflicting_finality, FinalizedClaim,
}
use junca_social_ecosystem_c.ConsensusSync.ForkChoice.{
  ForkChoice, Outcome, is_halted, discipline, fault, regressed, differs, halt_with, below, unlinked,
  accept, judge, observe, head_of,
}

-- What an accepted claim has passed in `judge`.
pub record Passed (f : ForkChoice) (claim : FinalizedClaim) : Type 0 where
  pub advances : regressed (lookup claim.peer_id f.claims) claim.height ≡ false
  pub agrees : differs (lookup claim.height f.canonical) claim ≡ false
  pub linked : unlinked (below claim.height f.canonical) claim ≡ false

pub data Ended (f : ForkChoice) (claim : FinalizedClaim) : Outcome → Type 0 where
  refused : (e : ConsensusSyncError) → Ended f claim (err e, f)
  faulted : (e : ConsensusSyncError) → is_halted f ≡ false → Ended f claim (fault f claim.peer_id e)
  halts :
      is_halted f ≡ false
      → Ended f claim
          (err conflicting_finality, halt_with (lookup claim.height f.canonical) claim f)
  accepts :
      is_halted f ≡ false
      → Passed f claim
      → Ended f claim (ok (head_of (accept claim f).canonical), accept claim f)

judge-Ended :
    (claim : FinalizedClaim) (f : ForkChoice) → is_halted f ≡ false → Ended f claim (judge claim f)
unfolding judge
judge-Ended claim f running =
    elim (Bool-cases (regressed (lookup claim.peer_id f.claims) claim.height)) [
      | inl back ↦ rw back (faulted _ running)
      | inr advances ↦
          rw advances (elim (Bool-cases (differs (lookup claim.height f.canonical) claim)) [
            | inl conflict ↦ rw conflict (halts running)
            | inr agrees ↦
                rw agrees (elim (Bool-cases (unlinked (below claim.height f.canonical) claim)) [
                  | inl loose ↦ rw loose (faulted _ running)
                  | inr linked ↦ rw linked (
                      accepts running
                        (record { advances = advances; agrees = agrees; linked = linked }))
                ])
          ])
    ]

pub observe-Ended :
    (power_resolver : ℕ → ℕ) (claim : FinalizedClaim) (f : ForkChoice)
    → Ended f claim (observe power_resolver claim f)
unfolding observe
observe-Ended power_resolver claim f = elim (Bool-cases (is_halted f)) [
  | inl halted ↦ rw halted (refused _)
  | inr running ↦ rw running (elim (Bool-cases (claim.chain_id == f.chain_id)) [
    | inr other ↦ rw other (faulted _ running)
    | inl chain ↦ rw chain (elim (Bool-cases (lower claim.genesis_hash =? f.genesis_hash)) [
      | inr other ↦ rw other (faulted _ running)
      | inl genesis ↦ rw genesis (elim (Bool-cases (power_resolver claim.height == 0)) [
        | inl bad ↦ rw bad (refused _)
        | inr good ↦ rw good (elim (Bool-cases (claim.total_power == power_resolver claim.height)) [
          | inr other ↦ rw other (faulted _ running)
          | inl power ↦ rw power (elim (Bool-cases (discipline f claim.peer_id).quarantined) [
            | inl out ↦ rw out (refused _)
            | inr trusted ↦ rw trusted (judge-Ended claim f running)
          ])
        ])
      ])
    ])
  ])
]
