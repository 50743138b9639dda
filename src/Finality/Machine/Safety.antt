-- ===== src/Finality/Machine/Safety.antt =====
-- What a finality machine never loses, and what its certificates rest on.
use junca_social_ecosystem_c.Common.{
  ℕ, ◌+◌, ◌≤◌, ◌≡◌, refl, true, some, List, [], ◌∷◌, arith, nat_eq, list_eq, pair_eq, ok, Verdict,
  lookup, contains, insert, lookup-insert_new, Entries, Entries-insert, Keyed, Keyed-insert,
  Keyed-sort_by, sum_values, sum_values-insert_new, sum_by-sort_by, text_leb, length,
  length-insert_new, length-insert_old, Option-cases, inl, inr, ℤ, Dict, Text, Platform, sum_by,
}
use junca_social_ecosystem_c.Finality.Types.{FinalityVote, FinalityCertificate, Validator}
use junca_social_ecosystem_c.Finality.Machine.{
  by_id, make_machine, fresh_machine, Machine, VoteKey, Outcome, identity, quorum_power,
  build_certificate, add_vote,
}
use junca_social_ecosystem_c.Finality.Machine.Endings.{
  with_vote, Ended, refused, repeated, counted_before, equivocated, stored_refused, stored,
  finalizes, add_vote-Ended,
}

-- Nothing that a machine holds is taken back.
pub record Extends (m m' : Machine) : Type 0 where
  pub certificates :
      (h : ℕ) (c : FinalityCertificate)
      → lookup h m.finalized ≡ some c
      → lookup h m'.finalized ≡ some c
  pub ballots :
      (k : VoteKey) (v : FinalityVote) → lookup k m.votes ≡ some v → lookup k m'.votes ≡ some v
  pub members : m'.validators ≡ m.validators
  pub power : m'.total_power ≡ m.total_power

Extends-refl : (m : Machine) → Extends m m
Extends-refl m = record {
  certificates = λ h c e. e;
  ballots = λ k v e. e;
  members = refl;
  power = refl;
}

Ended-Extends :
    (platform : Platform) (m : Machine) (vote : FinalityVote) {o : Outcome}
    → Ended platform m vote o
    → Extends m o.1
Ended-Extends platform m vote (refused e) = Extends-refl m
Ended-Extends platform m vote (repeated c e h) = Extends-refl m
Ended-Extends platform m vote counted_before = Extends-refl m
Ended-Extends platform m vote (equivocated previous e h) = record {
  certificates = λ h c e. e;
  ballots = λ k v e. e;
  members = refl;
  power = refl;
}
Ended-Extends platform m vote (stored_refused e new) = record {
  certificates = λ h c e. e;
  ballots = λ k v e. lookup-insert_new (identity vote) k vote m.votes new.place e;
  members = refl;
  power = refl;
}
Ended-Extends platform m vote (stored new) = record {
  certificates = λ h c e. e;
  ballots = λ k v e. lookup-insert_new (identity vote) k vote m.votes new.place e;
  members = refl;
  power = refl;
}
Ended-Extends platform m vote (finalizes c new fin) = record {
  certificates = λ h d e. lookup-insert_new vote.height h c m.finalized new.open_height e;
  ballots = λ k v e. lookup-insert_new (identity vote) k vote m.votes new.place e;
  members = refl;
  power = refl;
}

-- Whatever the vote, the verifier and the outcome, no call of `add_vote` replaces or drops a
-- finalized certificate or a stored vote, or changes the validators or the total power.
pub add_vote-Extends :
    (platform : Platform) (verifier : FinalityVote → Verdict) (vote : FinalityVote) (m : Machine)
    → Extends m (add_vote platform verifier vote m).1
add_vote-Extends platform verifier vote m =
    Ended-Extends platform m vote (add_vote-Ended platform verifier vote m)

abbrev pub Backed : Machine → ℕ → FinalityCertificate → Type 0
Backed m h c = (c.height ≡ h) × (c.total_power ≡ m.total_power) × (quorum_power m ≤ c.signed_power)

abbrev pub weight : Dict Text Validator → ℕ
weight = sum_values λ v. v.voting_power

-- Each stored vote stands at its own place and is from a member; each certificate stands at its
-- own height and carries a quorum; members are listed once, and their power adds up.
pub record Sound (m : Machine) : Type 0 where
  pub placed :
      Entries (λ k v. (identity v ≡ k) × (contains v.validator_id m.validators ≡ true)) m.votes
  pub backed : Entries (Backed m) m.finalized
  pub single : Keyed m.votes
  pub members_single : Keyed m.validators
  pub weighed : m.total_power ≡ weight m.validators

pub with_vote-Sound :
    (m : Machine) (vote : FinalityVote)
    → contains vote.validator_id m.validators ≡ true
    → Sound m
    → Sound (with_vote m vote)
unfolding quorum_power
with_vote-Sound m vote member s = record {
  placed = Entries-insert _ (identity vote) vote m.votes s.placed (refl, member);
  backed = s.backed;
  single = Keyed-insert (identity vote) vote m.votes s.single;
  members_single = s.members_single;
  weighed = s.weighed;
}

Ended-Sound :
    (platform : Platform) (m : Machine) (vote : FinalityVote) {o : Outcome}
    → Ended platform m vote o
    → Sound m
    → Sound o.1
unfolding build_certificate quorum_power
Ended-Sound platform m vote (refused e) s = s
Ended-Sound platform m vote (repeated c e h) s = s
Ended-Sound platform m vote counted_before s = s
Ended-Sound platform m vote (equivocated previous e h) s = record {
  placed = s.placed;
  backed = s.backed;
  single = s.single;
  members_single = s.members_single;
  weighed = s.weighed;
}
Ended-Sound platform m vote (stored_refused e new) s = with_vote-Sound m vote new.member s
Ended-Sound platform m vote (stored new) s = with_vote-Sound m vote new.member s
Ended-Sound platform m vote (finalizes c new fin) s =
    let t = with_vote-Sound m vote new.member s in
    record {
      placed = t.placed;
      backed =
          Entries-insert (Backed m) vote.height c m.finalized s.backed
            (rw fin.built (refl, refl, fin.quorum));
      single = t.single;
      members_single = t.members_single;
      weighed = t.weighed;
    }

-- Every call of `add_vote` keeps a machine sound: in particular each of its certificates stands
-- at its own height, states the machine's total power and has signed power of a quorum.
pub add_vote-Sound :
    (platform : Platform) (verifier : FinalityVote → Verdict) (vote : FinalityVote) (m : Machine)
    → Sound m
    → Sound (add_vote platform verifier vote m).1
add_vote-Sound platform verifier vote m s =
    Ended-Sound platform m vote (add_vote-Ended platform verifier vote m) s

pub by_id-length-le :
    (vs : List Validator) (d : Dict Text Validator) → length (by_id vs d) ≤ length vs + length d
unfolding by_id
by_id-length-le [] d = omega arith
by_id-length-le (v ∷ vs) d = elim (Option-cases (lookup v.validator_id d)) [
  | inl new ↦ omega (
    arith,
    by_id-length-le vs (insert v.validator_id v d),
    length-insert_new v.validator_id v d new,
  )
  | inr (w, old) ↦ omega (
    arith,
    by_id-length-le vs (insert v.validator_id v d),
    length-insert_old v.validator_id v w d old,
  )
]

pub by_id-weight :
    (vs : List Validator) (d : Dict Text Validator)
    → length (by_id vs d) ≡ length vs + length d
    → weight (by_id vs d) ≡ sum_by (λ v. v.voting_power) vs + weight d
unfolding by_id
by_id-weight [] d h = omega arith
by_id-weight (v ∷ vs) d h = elim (Option-cases (lookup v.validator_id d)) [
  | inl new ↦ omega (
    arith,
    by_id-weight vs (insert v.validator_id v d)
        (omega (arith, length-insert_new v.validator_id v d new)),
    sum_values-insert_new (λ (w : Validator). w.voting_power) v.validator_id v d new,
  )
  | inr (w, old) ↦ absurd (
      omega (
        arith,
        by_id-length-le vs (insert v.validator_id v d),
        length-insert_old v.validator_id v w d old,
      ))
]

pub by_id-Keyed : (vs : List Validator) (d : Dict Text Validator) → Keyed d → Keyed (by_id vs d)
unfolding by_id
by_id-Keyed [] d h = h
by_id-Keyed (v ∷ vs) d h =
    by_id-Keyed vs (insert v.validator_id v d) (Keyed-insert v.validator_id v d h)

-- A machine that the constructor accepts is sound, whatever the initial height.
pub make_machine-Sound :
    (chain_id : ℕ) (items : List Validator) (initial : ℤ) {m : Machine}
    → make_machine chain_id items initial ≡ ok m
    → Sound m
unfolding make_machine
make_machine-Sound chain_id items initial {m} h =
    let all : length (by_id items []) ≡ length items = ground arith in
    let e : m ≡ fresh_machine chain_id items initial = ground arith in
    rw e (record {
      placed = tt;
      backed = tt;
      single = tt;
      members_single = Keyed-sort_by _ (by_id items []) (by_id-Keyed items [] tt);
      weighed = omega (
        arith,
        sum_by-sort_by (λ (a b : Text × Validator). text_leb a.0 b.0)
            (λ (entry : Text × Validator). entry.1.voting_power) (by_id items []),
        by_id-weight items [] (omega (arith, all)),
      );
    })
