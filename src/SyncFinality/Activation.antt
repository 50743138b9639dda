-- ===== src/SyncFinality/Activation.antt =====
-- sync_finality.py, `ValidatorSetSchedule`: which set is active at a height.
use junca_social_ecosystem_c.Common.{
  ℕ, ◌+◌, ◌≤◌, ◌<◌, ◌≡◌, ◌⊎◌, refl, subst, sym, ◌∙◌, List, [], ◌∷◌, ◌++◌, arith, inl, inr, All, ok,
  Result-cases, Verdict, Platform,
}
use native.Mathlib.Decide.{dec_lt}
use junca_social_ecosystem_c.Finality.Types.{FinalityVote}
use junca_social_ecosystem_c.SyncFinality.Schedule.{
  ValidatorSet, Schedule, make_schedule, last_from, register, active_from, at_height, register_all,
  after,
}
use junca_social_ecosystem_c.SyncFinality.Verifier.{FinalityProof, FinalityVerifier, verify_proof}

-- Each set has the epoch after that of the set before it, and is activated above it.
abbrev pub Follows : ValidatorSet → List ValidatorSet → Type 0
Follows s [] = Unit
Follows s (t ∷ ts) =
    (t.epoch ≡ s.epoch + 1) × (s.activation_height < t.activation_height) × Follows t ts

abbrev pub Ordered : Schedule → Type 0
Ordered s = (s.initial.epoch ≡ 0) × (s.initial.activation_height ≡ 0) × Follows s.initial s.later

-- The set is the first one or one of the others.
abbrev pub Among : ValidatorSet → ValidatorSet → List ValidatorSet → Type 0
Among a s [] = a ≡ s
Among a s (t ∷ ts) = (a ≡ s) ⊎ Among a t ts

abbrev pub Listed : ValidatorSet → Schedule → Type 0
Listed a s = Among a s.initial s.later

Follows-append :
    (s item : ValidatorSet) (ts : List ValidatorSet)
    → Follows s ts
    → item.epoch ≡ (last_from s ts).epoch + 1
    → (last_from s ts).activation_height < item.activation_height
    → Follows s (ts ++ item ∷ [])
unfolding last_from
Follows-append s item [] f e a = (e, a, tt)
Follows-append s item (t ∷ ts) f e a = (f.0, f.1, Follows-append t item ts f.2 e a)

register-Ordered :
    (item : ValidatorSet) (s : Schedule) {s' : Schedule}
    → register item s ≡ ok s'
    → Ordered s
    → Ordered s'
unfolding register
register-Ordered item s {s'} h o =
    let e : s' ≡ record s { later = s.later ++ item ∷ [] } = ground arith in
    rw e (o.0, o.1, Follows-append s.initial item s.later o.2 (ground arith) (ground arith))

after-Ordered :
    (item : ValidatorSet) (s : Schedule) → Ordered s → Ordered (after s (register item s))
after-Ordered item s o = elim (Result-cases (register item s)) [
  | inl (s', e) ↦ rw e (register-Ordered item s e o)
  | inr (why, e) ↦ rw e o
]

register_all-Ordered :
    (items : List ValidatorSet) (s : Schedule) → Ordered s → Ordered (register_all items s)
unfolding register_all
register_all-Ordered [] s o = o
register_all-Ordered (item ∷ items) s o =
    register_all-Ordered items (after s (register item s)) (after-Ordered item s o)

active_from-over :
    (s t : ValidatorSet) (h : ℕ) (ts : List ValidatorSet)
    → h < t.activation_height
    → active_from s h (t ∷ ts) ≡ s
unfolding active_from
active_from-over s t h ts over = ground arith

active_from-on :
    (s t : ValidatorSet) (h : ℕ) (ts : List ValidatorSet)
    → t.activation_height ≤ h
    → active_from s h (t ∷ ts) ≡ active_from t h ts
unfolding active_from
active_from-on s t h ts on = ground arith

active_from-Among :
    (s : ValidatorSet) (h : ℕ) (ts : List ValidatorSet) → Among (active_from s h ts) s ts
active_from-Among s h [] = unfold active_from in refl
active_from-Among s h (t ∷ ts) = elim (dec_lt h t.activation_height) [
  | yes over ↦ rw (active_from-over s t h ts over) (inl refl)
  | no on ↦
      subst (λ (x : ValidatorSet). Among x s (t ∷ ts))
        (sym (active_from-on s t h ts (omega (arith, on)))) (inr (active_from-Among t h ts))
]

active_from-le :
    (s : ValidatorSet) (h : ℕ) (ts : List ValidatorSet)
    → s.activation_height ≤ h
    → (active_from s h ts).activation_height ≤ h
unfolding active_from
active_from-le s h [] le = le
active_from-le s h (t ∷ ts) le = ground (arith, active_from-le t h ts)

Among-later :
    (s a : ValidatorSet) (ts : List ValidatorSet)
    → Follows s ts
    → Among a s ts
    → (s.epoch ≤ a.epoch) × (s.activation_height ≤ a.activation_height)
Among-later s a [] f same = rw same (omega arith, omega arith)
Among-later s a (t ∷ ts) f (inl same) = rw same (omega arith, omega arith)
Among-later s a (t ∷ ts) f (inr m) =
    let (e, h) = Among-later t a ts f.2 m in (omega (arith, f.0), omega (arith, f.1))

-- No set of a later epoch is active at the height.
active_from-latest :
    (s a : ValidatorSet) (h : ℕ) (ts : List ValidatorSet)
    → Follows s ts
    → Among a s ts
    → a.activation_height ≤ h
    → a.epoch ≤ (active_from s h ts).epoch
active_from-latest s a h [] f same le = unfold active_from in (rw same (omega arith))
active_from-latest s a h (t ∷ ts) f (inl same) le = elim (dec_lt h t.activation_height) [
  | yes over ↦ rw (active_from-over s t h ts over, same) (omega arith)
  | no on ↦
      let (e, act) = Among-later t (active_from t h ts) ts f.2 (active_from-Among t h ts) in
      rw (active_from-on s t h ts (omega (arith, on)), same) (omega (arith, f.0))
]
active_from-latest s a h (t ∷ ts) f (inr m) le = elim (dec_lt h t.activation_height) [
  | yes over ↦ let (e, act) = Among-later t a ts f.2 m in absurd (omega (arith, over))
  | no on ↦ rw (active_from-on s t h ts (omega (arith, on))) (active_from-latest t a h ts f.2 m le)
]

-- In a schedule that the constructor makes and that registers any sets, those refused skipped,
-- the set active at a height is one of the schedule's, is activated at the height or below, and
-- no set of a later epoch is.
pub at_height_latest :
    (initial : ValidatorSet) (s : Schedule) (items : List ValidatorSet) (h : ℕ) (a : ValidatorSet)
    → make_schedule initial ≡ ok s
    → Listed a (register_all items s)
    → a.activation_height ≤ h
    → Listed (at_height h (register_all items s)) (register_all items s)
      × ((at_height h (register_all items s)).activation_height ≤ h)
      × (a.epoch ≤ (at_height h (register_all items s)).epoch)
unfolding at_height make_schedule
at_height_latest initial s items h a made m le =
    let first : s ≡ record { initial = initial; later = [] } = ground arith in
    let t = register_all items s in
    let o : Ordered t = register_all-Ordered items s (rw first (ground arith, ground arith, tt)) in
    (
      active_from-Among t.initial h t.later,
      active_from-le t.initial h t.later (omega (arith, o.1)),
      active_from-latest t.initial a h t.later o.2 m le,
    )

active_from-append :
    (s item : ValidatorSet) (h : ℕ) (ts : List ValidatorSet)
    → h < item.activation_height
    → active_from s h (ts ++ item ∷ []) ≡ active_from s h ts
unfolding active_from
active_from-append s item h [] above = ground arith
active_from-append s item h (t ∷ ts) above = ground (arith, active_from-append t item h ts above)

after-at_height :
    (item : ValidatorSet) (s : Schedule) (h : ℕ)
    → h < item.activation_height
    → at_height h (after s (register item s)) ≡ at_height h s
unfolding at_height register
after-at_height item s h above = ground (arith, active_from-append s.initial item h s.later above)

register_all-at_height :
    (items : List ValidatorSet) (s : Schedule) (h : ℕ)
    → All (λ item. h < item.activation_height) items
    → at_height h (register_all items s) ≡ at_height h s
unfolding register_all
register_all-at_height [] s h above = refl
register_all-at_height (item ∷ items) s h above =
    register_all-at_height items (after s (register item s)) h above.1
    ∙ after-at_height item s h above.0

-- Registering sets that are activated above a proof's height does not change what `verify`
-- gives for the proof.
pub verify_proof_stable :
    (platform : Platform) (verifier : FinalityVerifier) (items : List ValidatorSet)
    (accepts : FinalityVote → Verdict) (proof : FinalityProof)
    → All (λ item. proof.height < item.activation_height) items
    → verify_proof platform
        (record verifier { schedule = register_all items verifier.schedule })
        accepts
        proof
      ≡ verify_proof platform verifier accepts proof
unfolding verify_proof
verify_proof_stable platform verifier items accepts proof above =
    rw (register_all-at_height items verifier.schedule proof.height above) refl
