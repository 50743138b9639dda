-- ===== src/Finality/Machine/Quorum.antt =====
-- The signed power of a certificate, counted over the members, and the overlap of two quorums.
use junca_social_ecosystem_c.Common.{
  ℕ, ◌+◌, ◌*◌, ◌≤◌, ◌<◌, ◌≡◌, refl, sym, ap, Bool, true, false, ◌&&◌, ◌||◌, Option, none, some,
  List, [], ◌∷◌, arith, if◌then◌else◌, Bool-cases, inl, inr, nat_eq, list_eq, pair_eq, ◌=?◌,
  text_iff, ok, ok-injective, >>=-eq-ok, or_raise, Dict, lookup, contains, Entries, Keyed, values,
  keep_if, sum_by, lower, Text, Platform,
}
use junca_social_ecosystem_c.Finality.Types.{
  FinalityVote, FinalityCertificate, Validator, missing_validator,
}
use junca_social_ecosystem_c.Finality.Machine.{
  Machine, VoteKey, identity, matches, matching, power_of, quorum_power,
}
use junca_social_ecosystem_c.Finality.Machine.Endings.{with_vote, Finalizes}
use junca_social_ecosystem_c.Finality.Machine.Safety.{weight, Sound}

-- Whether a member's vote at the height and round of `vote` is for the same block.
abbrev pub backs : FinalityVote → Option FinalityVote → Bool
backs vote none = false
backs vote (some item) = lower item.block_hash =? lower vote.block_hash

abbrev pub voted_for : FinalityVote → Dict VoteKey FinalityVote → Text → Bool
voted_for vote votes id = backs vote (lookup (vote.height, (vote.round, id)) votes)

-- The power of the members that a test selects.
abbrev pub power_where : (Text → Bool) → Dict Text Validator → ℕ
power_where p = sum_by λ entry. if p entry.0 then entry.1.voting_power else 0

power_where-cong :
    (p q : Text → Bool) (d : Dict Text Validator)
    → ((id : Text) → p id ≡ q id)
    → power_where p d ≡ power_where q d
power_where-cong p q [] h = refl
power_where-cong p q ((k, w) ∷ d) h = rw (h k, power_where-cong p q d h)

power_where-missing :
    (p : Text → Bool) (i : Text) (d : Dict Text Validator)
    → lookup i d ≡ none
    → power_where (λ id. i =? id || p id) d ≡ power_where p d
power_where-missing p i [] h = refl
power_where-missing p i ((k, w) ∷ d) h =
    ground (arith, text_iff i k, text_iff k i, power_where-missing p i d)

-- One more member selected adds that member's power.
pub power_where-add :
    (p : Text → Bool) (i : Text) (w : Validator) (d : Dict Text Validator)
    → Keyed d
    → lookup i d ≡ some w
    → p i ≡ false
    → power_where (λ id. i =? id || p id) d ≡ w.voting_power + power_where p d
power_where-add p i w [] q h f = cc
power_where-add p i w ((k, v) ∷ d) q h f =
    ground
      (arith, text_iff i k, text_iff k i, power_where-missing p i d, power_where-add p i w d q.1)

pub power_where_none : (d : Dict Text Validator) → power_where (λ id. false) d ≡ 0
power_where_none [] = refl
power_where_none ((k, w) ∷ d) = omega (arith, power_where_none d)

voted_for-cons :
    (vote item : FinalityVote) (k : VoteKey) (votes : Dict VoteKey FinalityVote) (id : Text)
    → identity item ≡ k
    → lookup k votes ≡ none
    → voted_for vote ((k, item) ∷ votes) id
      ≡ ((matches vote item && item.validator_id =? id) || voted_for vote votes id)
voted_for-cons vote item k votes id e h = rw (← e) (head (rw e h))
  where
    head :
        lookup (identity item) votes ≡ none
        → voted_for vote ((identity item, item) ∷ votes) id
          ≡ ((matches vote item && item.validator_id =? id) || voted_for vote votes id)
    head h = ground (arith, text_iff item.validator_id id)

voted_for-place :
    (vote item : FinalityVote) (k : VoteKey) (votes : Dict VoteKey FinalityVote)
    → identity item ≡ k
    → lookup k votes ≡ none
    → matches vote item ≡ true
    → voted_for vote votes item.validator_id ≡ false
voted_for-place vote item k votes e h f = first (rw e h)
  where
    first : lookup (identity item) votes ≡ none → voted_for vote votes item.validator_id ≡ false
    first h = ground arith

power_of-cons :
    (validators : Dict Text Validator) (item : FinalityVote) (items : List FinalityVote)
    (signed : ℕ)
    → power_of validators (item ∷ items) ≡ ok signed
    → (w : Validator) × (rest : ℕ) × (lookup item.validator_id validators ≡ some w)
      × (power_of validators items ≡ ok rest)
      × (signed ≡ w.voting_power + rest)
unfolding power_of
power_of-cons validators item items signed h =
    let (w, e, h1) =
      >>=-eq-ok (or_raise (lookup item.validator_id validators) missing_validator) _ h in
    let (rest, f, h2) = >>=-eq-ok (power_of validators items) _ h1 in
    (w, rest, found (lookup item.validator_id validators) w e, f, sym (ok-injective h2))
  where
    found :
        (o : Option Validator) (w : Validator) → or_raise o missing_validator ≡ ok w → o ≡ some w
    found none w e = cc
    found (some v) w e = cc

-- The power that `add_vote` sums over the matching votes is that of the members who voted for it.
pub power_of-power_where :
    (validators : Dict Text Validator) (vote : FinalityVote) (votes : Dict VoteKey FinalityVote)
    (signed : ℕ)
    → Keyed validators
    → Keyed votes
    → Entries (λ k v. (identity v ≡ k) × (contains v.validator_id validators ≡ true)) votes
    → power_of validators (keep_if (matches vote) (values votes)) ≡ ok signed
    → signed ≡ power_where (voted_for vote votes) validators
unfolding power_of
power_of-power_where validators vote [] signed q r pl h =
    rw (← ok-injective h) (sym (power_where_none validators))
power_of-power_where validators vote ((k, item) ∷ votes) signed q r pl h =
    rw (power_where-cong _ _ validators (λ id. voted_for-cons vote item k votes id pl.0.0 r.0))
      (elim (Bool-cases (matches vote item)) [
        | inl fits ↦
            let (w, rest, e, f, g) =
              power_of-cons validators item (keep_if (matches vote) (values votes)) signed
                (rw fits at h) in
            rw (fits, g)
              (omega (
                arith,
                power_of-power_where validators vote votes rest q r.1 pl.1 f,
                power_where-add (voted_for vote votes) item.validator_id w validators q e
                    (voted_for-place vote item k votes pl.0.0 r.0 fits),
              ))
        | inr other ↦
            rw other (power_of-power_where validators vote votes signed q r.1 pl.1 (rw other at h))
      ])

pub power_where-overlap :
    (p q : Text → Bool) (d : Dict Text Validator)
    → power_where p d + power_where q d ≤ weight d + power_where (λ id. p id && q id) d
power_where-overlap p q [] = omega arith
power_where-overlap p q ((k, w) ∷ d) = ground (arith, power_where-overlap p q d)

-- Take two sound machines with the same members that each finalize a vote. The members who voted
-- for the first block at the first vote's height and round, and for the second at the second's,
-- hold more than a third of the power. So two nodes that finalize different blocks in one round
-- show that more than a third of the power signed both.
pub quorum_overlap :
    (platform : Platform) (m n : Machine) (v w : FinalityVote) (c d : FinalityCertificate)
    → Sound (with_vote m v)
    → Sound (with_vote n w)
    → n.validators ≡ m.validators
    → Finalizes platform m v c
    → Finalizes platform n w d
    → m.total_power
      < 3
        * power_where
            (λ id. voted_for v (with_vote m v).votes id && voted_for w (with_vote n w).votes id)
            m.validators
unfolding quorum_power matching
quorum_overlap platform m n v w c d s t same f g =
    let signed_f =
      power_of-power_where m.validators v (with_vote m v).votes f.signed s.members_single s.single
        s.placed f.counted in
    let signed_g =
      power_of-power_where n.validators w (with_vote n w).votes g.signed t.members_single t.single
        t.placed g.counted in
    omega (
      arith,
      signed_f,
      signed_g,
      f.quorum,
      g.quorum,
      s.weighed,
      t.weighed,
      ap weight same,
      ap (power_where (voted_for w (with_vote n w).votes)) same,
      power_where-overlap (voted_for v (with_vote m v).votes) (voted_for w (with_vote n w).votes)
          m.validators,
    )
