-- ===== src/ConsensusSigningJournal/Journal/Watermark.antt =====
-- The watermark of a validator, `validator_watermarks`, only rises, and bars what is below it.
use junca_social_ecosystem_c.Common.{
  ℕ, ◌≡◌, ◌≢◌, refl, ap, if◌then◌else◌, ne_of_beq, inl, inr, true, false, Option, some, List, [],
  ◌∷◌, arith, Bool-cases, nat_eq, list_eq, pair_eq, ◌=?◌, text_iff, ok, err, Verdict, lookup,
  lookup-insert_self, lookup-insert_ne, Dict, Text, Bytes, Platform,
}
use junca_social_ecosystem_c.ConsensusSigningJournal.Journal.{
  Journal, Request, is_below, raise_watermark, below_mark, write_vote, get_or_sign, Call, Outcome,
  after, run,
}
use junca_social_ecosystem_c.ConsensusSigningJournal.Journal.Signed.{Replayed, get_or_sign-ok}

-- The validator's watermark is at the place or above it.
pub record Reaches (j : Journal) (id : Text) (place : ℕ × ℕ) : Type 0 where
  pub mark : ℕ × ℕ
  pub stored : lookup id j.watermarks ≡ some mark
  pub high : is_below mark place ≡ false

not_below-step :
    (p old new : ℕ × ℕ) → is_below old p ≡ false → is_below old new ≡ true → is_below new p ≡ false
not_below-step (a, b) (c, d) (e, f) h h' = ground arith

below-raised :
    (p q mark : ℕ × ℕ) → is_below mark p ≡ false → is_below q p ≡ true → is_below q mark ≡ true
below-raised (a, b) (c, d) (e, f) h h' = ground arith

abbrev Top : Dict Text (ℕ × ℕ) → Text → ℕ × ℕ → Type 0
Top marks id place = (mark : ℕ × ℕ) × (lookup id marks ≡ some mark) × (is_below mark place ≡ false)

abbrev raised : ℕ × ℕ → ℕ × ℕ → ℕ × ℕ
raised mark new = if is_below mark new then new else mark

raised-high :
    (mark new place : ℕ × ℕ)
    → is_below mark place ≡ false
    → is_below (raised mark new) place ≡ false
raised-high mark new place h = elim (Bool-cases (is_below mark new)) [
  | inl low ↦ rw low (not_below-step place mark new h low)
  | inr at_or_above ↦ rw at_or_above h
]

raise_watermark_self :
    (marks : Dict Text (ℕ × ℕ)) (id : Text) (mark new : ℕ × ℕ)
    → lookup id marks ≡ some mark
    → lookup id (raise_watermark id new marks) ≡ some (raised mark new)
unfolding raise_watermark
raise_watermark_self marks id mark new h = ground (arith, lookup-insert_self id new marks)

raise_watermark-ne :
    (marks : Dict Text (ℕ × ℕ)) (id other : Text) (new : ℕ × ℕ)
    → other ≢ id
    → lookup id (raise_watermark other new marks) ≡ lookup id marks
unfolding raise_watermark
raise_watermark-ne marks id other new h = ground (arith, lookup-insert_ne other id new marks h)

raise_watermark-Top :
    (marks : Dict Text (ℕ × ℕ)) (id other : Text) (place new : ℕ × ℕ)
    → Top marks id place
    → Top (raise_watermark other new marks) id place
raise_watermark-Top marks id other place new (mark, stored, high) =
    elim (Bool-cases (other =? id)) [
      | inl same ↦
          let e : other ≡ id = (text_iff other id).0 same in
          (
            raised mark new,
            rw e (raise_watermark_self marks id mark new stored),
            raised-high mark new place high,
          )
      | inr ne ↦
          (mark, rw (raise_watermark-ne marks id other new (ne_of_beq other id ne)) stored, high)
    ]

after-Reaches :
    (platform : Platform) (j : Journal) (q : Request) (signer : Option Bytes)
    (verifier : Bytes → Verdict) (id : Text) (place : ℕ × ℕ)
    → Top j.watermarks id place
    → Top (after j (get_or_sign platform j q signer verifier)).watermarks id place
unfolding write_vote
after-Reaches platform j q signer verifier id place t =
    go (get_or_sign platform j q signer verifier) refl
  where
    go :
        (o : Outcome)
        → get_or_sign platform j q signer verifier ≡ o
        → Top (after j o).watermarks id place
    go (err x) h = t
    go (ok (s, j')) h = elim (get_or_sign-ok platform j q signer verifier s j' h) [
      | inl r ↦ rw r.unchanged t
      | inr n ↦
          rw n.written
            (raise_watermark-Top j.watermarks id q.validator_id place (q.height, q.round) t)
    ]

run-Reaches :
    (platform : Platform) (j : Journal) (calls : List Call) (id : Text) (place : ℕ × ℕ)
    → Top j.watermarks id place
    → Top (run platform j calls).watermarks id place
unfolding run
run-Reaches platform j [] id place t = t
run-Reaches platform j ((q, signer, verifier) ∷ calls) id place t =
    run-Reaches platform (after j (get_or_sign platform j q signer verifier)) calls id place
      (after-Reaches platform j q signer verifier id place t)

-- Once a validator's watermark is at some place or above it, then after any history of calls
-- a call of the validator for anything below that place signs nothing new: if it returns, the journal is
-- unchanged, and the signature is the stored one.
pub never_below :
    (platform : Platform) (j : Journal) (calls : List Call) (q : Request) (signer : Option Bytes)
    (verifier : Bytes → Verdict) (high : ℕ × ℕ) {s : Bytes} {j' : Journal}
    → Reaches j q.validator_id high
    → is_below (q.height, q.round) high ≡ true
    → get_or_sign platform (run platform j calls) q signer verifier ≡ ok (s, j')
    → Replayed platform (run platform j calls) q signer verifier s j'
never_below platform j calls q signer verifier high {s} {j'} reached low h =
    let (mark, stored, top) =
      run-Reaches platform j calls q.validator_id high
        (reached.mark, reached.stored, reached.high) in
    elim (get_or_sign-ok platform (run platform j calls) q signer verifier s j' h) [
      | inl r ↦ r
      | inr n ↦
          let barred = below-raised high (q.height, q.round) mark top low in
          let fresh = n.not_below in
          absurd (cc (ap (λ m. below_mark m (q.height, q.round)) stored, fresh, barred))
    ]
