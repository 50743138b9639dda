-- ===== src/SyncFinality/Ballots.antt =====
-- sync_finality.py and finality.py: the votes that a finality machine counts for a block pass the
-- loop of `verify`.
use junca_social_ecosystem_c.Common.{
  ℕ, suc, ◌≤◌, ◌≡◌, ◌≢◌, refl, sym, ◌∙◌, true, false, none, some, List, [], ◌∷◌, arith, Bool-cases,
  Option-cases, inl, inr, length, keep_if, All, nat_eq, list_eq, pair_eq, ◌=?◌, text_iff, mem, ok,
  or_raise, ok-injective, >>=-eq-ok, or_raise-eq-ok, Dict, lookup, contains, erase, lookup-erase_ne,
  Entries, Keyed, values, Text,
}
use junca_social_ecosystem_c.Finality.Types.{
  Validator, FinalityVote, missing_validator as machine_misses,
}
use junca_social_ecosystem_c.Finality.Machine.{VoteKey, identity, matches, power_of}
use junca_social_ecosystem_c.SyncFinality.Verifier.{signed_power_of}
use junca_social_ecosystem_c.SyncFinality.Verifier.Accepted.{Fresh}
use junca_social_ecosystem_c.SyncFinality.Verifier.Overlap.{signed_by}

-- No validator has two of the votes.
abbrev pub Single : List FinalityVote → Type 0
Single [] = Unit
Single (vote ∷ votes) = (signed_by votes vote.validator_id ≡ false) × Single votes

Single-Fresh :
    (seen : List Text) (votes : List FinalityVote)
    → Single votes
    → ((id : Text) → mem id seen ≡ true → signed_by votes id ≡ false)
    → Fresh seen votes
Single-Fresh seen [] s f = tt
Single-Fresh seen (vote ∷ votes) s f = (
  elim (Bool-cases (mem vote.validator_id seen)) [
    | inl again ↦
        absurd
          (ground (arith, f vote.validator_id again, text_iff vote.validator_id vote.validator_id))
    | inr new ↦ new
  ],
  Single-Fresh (vote.validator_id ∷ seen) votes s.1 (λ id m.
      elim (Bool-cases (id =? vote.validator_id)) [
        | inl here ↦ rw ((text_iff id vote.validator_id).0 here) s.0
        | inr other ↦ ground (arith, f id)
      ]),
)

pub Single-Fresh_nil : (votes : List FinalityVote) → Single votes → Fresh [] votes
Single-Fresh_nil votes s = Single-Fresh [] votes s (λ id m. cc)

-- A vote that counts for a block stands at its place.
signed_by-contains :
    (vote : FinalityVote) (votes : Dict VoteKey FinalityVote) (id : Text)
    → Entries (λ k v. identity v ≡ k) votes
    → signed_by (keep_if (matches vote) (values votes)) id ≡ true
    → contains (vote.height, (vote.round, id)) votes ≡ true
signed_by-contains vote [] id e h = cc
signed_by-contains vote ((k, item) ∷ votes) id e h =
    rw (← e.0) (elim (Bool-cases (matches vote item)) [
      | inl fits ↦ ground (
        arith,
        signed_by-contains vote votes id e.1,
        fits,
        rw fits at h,
        text_iff item.validator_id id,
      )
      | inr other ↦ ground (arith, signed_by-contains vote votes id e.1 (rw other at h))
    ])

pub matching-Single :
    (vote : FinalityVote) (votes : Dict VoteKey FinalityVote)
    → Keyed votes
    → Entries (λ k v. identity v ≡ k) votes
    → Single (keep_if (matches vote) (values votes))
matching-Single vote [] q e = tt
matching-Single vote ((k, item) ∷ votes) q e = elim (Bool-cases (matches vote item)) [
  | inl fits ↦ rw fits (alone fits, matching-Single vote votes q.1 e.1)
  | inr other ↦ rw other (matching-Single vote votes q.1 e.1)
]
  where
    alone :
        matches vote item ≡ true
        → signed_by (keep_if (matches vote) (values votes)) item.validator_id ≡ false
    alone fits =
        let key : VoteKey = (vote.height, (vote.round, item.validator_id)) in
        let same_height : item.height ≡ vote.height = ground arith in
        let same_round : item.round ≡ vote.round = ground arith in
        let place : key ≡ k = rw (← same_height, ← same_round) e.0 in
        let gone : lookup key votes ≡ none = rw place q.0 in
        elim (Bool-cases (signed_by (keep_if (matches vote) (values votes)) item.validator_id)) [
          | inl again ↦
              absurd
                (ground (arith, gone, signed_by-contains vote votes item.validator_id e.1 again))
          | inr new ↦ new
        ]

pub matching-All :
    (P : FinalityVote → Type 0) (vote : FinalityVote) (votes : Dict VoteKey FinalityVote)
    → Entries (λ k v. P v) votes
    → All (λ v. P v × (matches vote v ≡ true)) (keep_if (matches vote) (values votes))
matching-All P vote [] e = tt
matching-All P vote ((k, item) ∷ votes) e = elim (Bool-cases (matches vote item)) [
  | inl fits ↦ rw fits ((e.0, fits), matching-All P vote votes e.1)
  | inr other ↦ rw other (matching-All P vote votes e.1)
]

-- The votes are no more than the members.
length-erase :
    (k : Text) (w : Validator) (d : Dict Text Validator)
    → lookup k d ≡ some w
    → suc (length (erase k d)) ≡ length d
length-erase k w [] f = cc
length-erase k w ((j, v) ∷ d) f = ground (arith, length-erase k w d)

erased :
    (id : Text) (votes : List FinalityVote) (d : Dict Text Validator)
    → signed_by votes id ≡ false
    → All (λ v. contains v.validator_id d ≡ true) votes
    → All (λ v. contains v.validator_id (erase id d) ≡ true) votes
erased id [] d h a = tt
erased id (vote ∷ votes) d h a =
    let ne : id ≢ vote.validator_id =
      (λ e. absurd (ground (arith, h, e, text_iff vote.validator_id id))) in
    (
      ground (arith, lookup-erase_ne id vote.validator_id d ne, a.0),
      erased id votes d (ground arith) a.1,
    )

pub Single-length :
    (votes : List FinalityVote) (d : Dict Text Validator)
    → Single votes
    → All (λ v. contains v.validator_id d ≡ true) votes
    → length votes ≤ length d
Single-length [] d s a = omega arith
Single-length (vote ∷ votes) d s a = elim (Option-cases (lookup vote.validator_id d)) [
  | inl missing ↦ absurd (ground arith)
  | inr (w, found) ↦ omega (
    arith,
    length-erase vote.validator_id w d found,
    Single-length votes (erase vote.validator_id d) s.1 (erased vote.validator_id votes d s.0 a.1),
  )
]

pub power_of-signed_power_of :
    (d e : Dict Text Validator) (votes : List FinalityVote) (signed : ℕ)
    → ((id : Text) → lookup id d ≡ lookup id e)
    → power_of d votes ≡ ok signed
    → signed_power_of e votes ≡ ok signed
unfolding power_of signed_power_of
power_of-signed_power_of d e [] signed same h = rw (ok-injective h) refl
power_of-signed_power_of d e (vote ∷ votes) signed same h =
    let (w, found, h1) = >>=-eq-ok (or_raise (lookup vote.validator_id d) machine_misses) _ h in
    let (rest, counted, h2) = >>=-eq-ok (power_of d votes) _ h1 in
    let at_e : lookup vote.validator_id e ≡ some w =
      sym (same vote.validator_id) ∙ or_raise-eq-ok _ machine_misses found in
    rw (at_e, power_of-signed_power_of d e votes rest same counted, ok-injective h2) refl
