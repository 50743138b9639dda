-- ===== src/ConsensusSync/ForkChoice/Canonical.antt =====
-- consensus_sync.py, `FinalizedForkChoice`: what no call takes back, and that accepted claims agree.
use junca_social_ecosystem_c.Common.{
  ℕ, ◌+◌, ◌≤◌, ◌≡◌, refl, ◌∙◌, inl, inr, true, false, Option, some, List, [], ◌∷◌, arith,
  Bool-cases, Option-cases, nat_eq, list_eq, ◌=?◌, leb, ok, lookup, Text, lower, text_iff,
  lookup-insert, ==_iff, lookup_or-insert, lookup-insert_self,
}
use junca_social_ecosystem_c.ConsensusSync.Types.{FinalizedClaim}
use junca_social_ecosystem_c.ConsensusSync.ForkChoice.{
  ForkChoice, Outcome, is_halted, discipline, halt_with, accept, observe, record_protocol_fault,
}
use junca_social_ecosystem_c.ConsensusSync.ForkChoice.Endings.{
  Ended, refused, faulted, halts, accepts, Passed, observe-Ended,
}

-- What a call keeps: the chain, each canonical claim, a safety halt and what was known at it, the
-- faults of each peer, and the height of each peer's claim as a lower bound.
pub record Keeps (f g : ForkChoice) : Type 0 where
  pub same_chain : (g.chain_id ≡ f.chain_id) × (g.genesis_hash ≡ f.genesis_hash)
  pub canonical :
      (height : ℕ) (claim : FinalizedClaim)
      → lookup height f.canonical ≡ some claim
      → lookup height g.canonical ≡ some claim
  pub halt :
      is_halted f ≡ true
      → (g.safety_halt ≡ f.safety_halt) × (g.canonical ≡ f.canonical) × (g.claims ≡ f.claims)
  pub faults : (peer : Text) → (discipline f peer).faults ≤ (discipline g peer).faults
  pub heights :
      (peer : Text) (claim : FinalizedClaim)
      → lookup peer f.claims ≡ some claim
      → (later : FinalizedClaim) × (lookup peer g.claims ≡ some later)
        × (claim.height ≤ later.height)

Keeps-refl : (f : ForkChoice) → Keeps f f
Keeps-refl f = record {
  same_chain = (refl, refl);
  canonical = λ h c e. e;
  halt = λ h. (refl, refl, refl);
  faults = λ p. omega arith;
  heights = λ p c e. (c, e, omega arith);
}

Keeps-trans : (f g h : ForkChoice) → Keeps f g → Keeps g h → Keeps f h
Keeps-trans f g h p q = record {
  same_chain = (q.same_chain.0 ∙ p.same_chain.0, q.same_chain.1 ∙ p.same_chain.1);
  canonical = λ n c e. q.canonical n c (p.canonical n c e);
  halt = λ halted.
      let (a, b, c) = p.halt halted in
      let (a', b', c') = q.halt (rw a halted) in (a' ∙ a, b' ∙ b, c' ∙ c);
  faults = λ peer. omega (arith, p.faults peer, q.faults peer);
  heights = λ peer c e.
      let (later, e', up) = p.heights peer c e in
      let (last, e'', up') = q.heights peer later e' in (last, e'', omega (arith, up, up'));
}

fault-Keeps : (peer : Text) (f : ForkChoice) → Keeps f (record_protocol_fault peer f)
unfolding record_protocol_fault
fault-Keeps peer f = record {
  same_chain = (refl, refl);
  canonical = λ h c e. e;
  halt = λ h. (refl, refl, refl);
  faults = λ p. ground (
    arith,
    text_iff peer p,
    lookup_or-insert (record { faults = 0; quarantined = false }) peer p
        (record {
          faults = (discipline f peer).faults + 1;
          quarantined = leb f.quarantine_threshold ((discipline f peer).faults + 1);
        })
        f.disciplines,
  );
  heights = λ p c e. (c, e, omega arith);
}

halt-Keeps :
    (claim : FinalizedClaim) (f : ForkChoice)
    → is_halted f ≡ false
    → Keeps f (halt_with (lookup claim.height f.canonical) claim f)
unfolding halt_with
halt-Keeps claim f running = elim (Option-cases (lookup claim.height f.canonical)) [
  | inl new ↦ rw new (Keeps-refl f)
  | inr (existing, found) ↦ rw found (record {
    same_chain = (refl, refl);
    canonical = λ h c e. e;
    halt = λ h. cc;
    faults = λ p. omega arith;
    heights = λ p c e. (c, e, omega arith);
  })
]

accept-Keeps :
    (claim : FinalizedClaim) (f : ForkChoice)
    → is_halted f ≡ false
    → Passed f claim
    → Keeps f (accept claim f)
unfolding accept
accept-Keeps claim f running p = record {
  same_chain = (refl, refl);
  canonical = λ h c e.
      ground (arith, lookup-insert claim.height h claim f.canonical, ==_iff claim.height h);
  halt = λ h. cc;
  faults = λ peer. omega arith;
  heights = λ peer c e. elim (Bool-cases (claim.peer_id =? peer)) [
    | inl same ↦ (
      claim,
      ground (arith, lookup-insert claim.peer_id peer claim f.claims),
      ground (arith, text_iff claim.peer_id peer, p.advances),
    )
    | inr other ↦ (c, ground (arith, lookup-insert claim.peer_id peer claim f.claims), omega arith)
  ];
}

Ended-Keeps :
    (f : ForkChoice) (claim : FinalizedClaim) {o : Outcome} → Ended f claim o → Keeps f o.1
Ended-Keeps f claim (refused e) = Keeps-refl f
Ended-Keeps f claim (faulted e running) = fault-Keeps claim.peer_id f
Ended-Keeps f claim (halts running) = halt-Keeps claim f running
Ended-Keeps f claim (accepts running p) = accept-Keeps claim f running p

-- The calls that change the state, and the state after a sequence of them.
pub data Op : Type 0 where
  observes : (ℕ → ℕ) → FinalizedClaim → Op
  faults_at : Text → Op

unfoldable pub step : ForkChoice → Op → ForkChoice
step f (observes power_resolver claim) = (observe power_resolver claim f).1
step f (faults_at peer) = record_protocol_fault peer f

unfoldable pub run : ForkChoice → List Op → ForkChoice
run f [] = f
run f (op ∷ ops) = run (step f op) ops

step-Keeps : (f : ForkChoice) (op : Op) → Keeps f (step f op)
unfolding step
step-Keeps f (observes power_resolver claim) =
    Ended-Keeps f claim (observe-Ended power_resolver claim f)
step-Keeps f (faults_at peer) = fault-Keeps peer f

-- No sequence of calls replaces or drops a canonical claim, lifts a safety halt or changes the
-- claims known at it, lowers a peer's faults, or lowers the height of the claim held for a peer.
pub run-Keeps : (f : ForkChoice) (ops : List Op) → Keeps f (run f ops)
unfolding run
run-Keeps f [] = Keeps-refl f
run-Keeps f (op ∷ ops) =
    Keeps-trans f (step f op) (run (step f op) ops) (step-Keeps f op) (run-Keeps (step f op) ops)

Ended-accepted :
    (f : ForkChoice) (claim : FinalizedClaim) {o : Outcome} {head : Option FinalizedClaim}
    → Ended f claim o
    → o.0 ≡ ok head
    → Passed f claim × (o.1 ≡ accept claim f)
Ended-accepted f claim (refused e) h = cc
Ended-accepted f claim (faulted e running) h = cc
Ended-accepted f claim (halts running) h = cc
Ended-accepted f claim (accepts running p) h = (p, refl)

accepted-canonical :
    (f : ForkChoice) (claim : FinalizedClaim)
    → Passed f claim
    → (c : FinalizedClaim) × (lookup claim.height (accept claim f).canonical ≡ some c)
      × (lower c.block_hash ≡ lower claim.block_hash)
unfolding accept
accepted-canonical f claim p = elim (Option-cases (lookup claim.height f.canonical)) [
  | inl new ↦ (claim, ground (arith, lookup-insert_self claim.height claim f.canonical), refl)
  | inr (c, found) ↦ (
    c,
    ground arith,
    ground (arith, text_iff (lower c.block_hash) (lower claim.block_hash), p.agrees),
  )
]

-- Two claims for one height that are both accepted, at whatever times and from whatever peers, are
-- for the same block.
pub accepted_agree :
    (f : ForkChoice) (claim later : FinalizedClaim) (ops : List Op)
    (power_resolver later_resolver : ℕ → ℕ) {head later_head : Option FinalizedClaim}
    → (observe power_resolver claim f).0 ≡ ok head
    → later.height ≡ claim.height
    → (observe later_resolver later (run (observe power_resolver claim f).1 ops)).0 ≡ ok later_head
    → lower later.block_hash ≡ lower claim.block_hash
accepted_agree f claim later ops power_resolver later_resolver h same h' =
    let f' = (observe power_resolver claim f).1 in
    let (p, e) = Ended-accepted f claim (observe-Ended power_resolver claim f) h in
    let (c, found, block) = accepted-canonical f claim p in
    let kept = (run-Keeps f' ops).canonical claim.height c (rw e found) in
    let (q, _) =
      Ended-accepted (run f' ops) later (observe-Ended later_resolver later (run f' ops)) h' in
    let agrees = q.agrees in ground (arith, text_iff (lower c.block_hash) (lower later.block_hash))
