-- ===== src/StateStore/Certificate/Issued.antt =====
-- finality.py and state_store.py: what a finality machine finalizes is a certificate that the store
-- can read.
use junca_social_ecosystem_c.Common.{
  ℕ, ◌≤◌, ◌≡◌, refl, sym, subst, ◌∙◌, arith, Bool, true, false, List, [], ◌∷◌, map, ◌==◌, nat_eq,
  list_eq, pair_eq, beq_refl, text_iff, mem, length, length-sort_by, any_of, sort_by, insert_by,
  text_leb, text_leb_total, Ascending, sort_by-Ascending, sort_by_sorted, All, All-weaken,
  All-sort_by, ok, Dict, lookup, contains, Entries, Text, lower, is_empty, Bool-cases, Option-cases,
  Entries-lookup, ok-injective, inl, inr, Platform,
}
use junca_social_ecosystem_c.Finality.Types.{
  Validator, FinalityVote, FinalityCertificate, vote_hash, certificate_digest,
}
use junca_social_ecosystem_c.Finality.Machine.{
  Machine, matching, quorum_power, power_of, build_certificate,
}
use junca_social_ecosystem_c.Finality.Machine.Endings.{with_vote, Finalizes}
use junca_social_ecosystem_c.Finality.Machine.Safety.{Sound, weight}
use junca_social_ecosystem_c.Finality.Machine.Quorum.{power_where, voted_for, power_of-power_where}
use junca_social_ecosystem_c.SyncFinality.Ballots.{Single, matching-Single, matching-All}
use junca_social_ecosystem_c.SyncFinality.Verifier.Overlap.{signed_by}
use junca_social_ecosystem_c.StateStore.Types.{check_hash, Loads}
use junca_social_ecosystem_c.StateStore.Accounts.{Documented}
use junca_social_ecosystem_c.StateStore.Certificate.{distinct, are_identities}
use junca_social_ecosystem_c.StateStore.Certificate.Decode.{Readable}

abbrev vote_leb : FinalityVote → FinalityVote → Bool
vote_leb a b = text_leb a.validator_id b.validator_id

abbrev ids_of : List FinalityVote → List Text
ids_of = map λ v. v.validator_id

power_where-le : (p : Text → Bool) (d : Dict Text Validator) → power_where p d ≤ weight d
power_where-le p [] = omega arith
power_where-le p ((k, w) ∷ d) = ground (arith, power_where-le p d)

mem-ids_of : (id : Text) (votes : List FinalityVote) → mem id (ids_of votes) ≡ signed_by votes id
mem-ids_of id [] = refl
mem-ids_of id (v ∷ votes) =
    ground (arith, mem-ids_of id votes, text_iff id v.validator_id, text_iff v.validator_id id)

-- Votes of different validators have different identities.
distinct-ids_of :
    (votes : List FinalityVote) → Single votes → distinct (ids_of votes) ≡ ids_of votes
unfolding distinct
distinct-ids_of [] s = refl
distinct-ids_of (v ∷ votes) s =
    rw (mem-ids_of v.validator_id votes, s.0, distinct-ids_of votes s.1) refl

signed_by-insert_by :
    (id : Text) (v : FinalityVote) (votes : List FinalityVote)
    → signed_by (insert_by vote_leb v votes) id ≡ signed_by (v ∷ votes) id
signed_by-insert_by id v [] = refl
signed_by-insert_by id v (w ∷ votes) = ground (arith, signed_by-insert_by id v votes)

Single-insert_by :
    (v : FinalityVote) (votes : List FinalityVote)
    → signed_by votes v.validator_id ≡ false
    → Single votes
    → Single (insert_by vote_leb v votes)
Single-insert_by v [] new s = (new, tt)
Single-insert_by v (w ∷ votes) new s = elim (Bool-cases (vote_leb v w)) [
  | inl first ↦ rw first (new, s)
  | inr later ↦ rw later (
    signed_by-insert_by w.validator_id v votes
        ∙ ground (
          arith,
          new,
          s.0,
          text_iff v.validator_id w.validator_id,
          text_iff w.validator_id v.validator_id,
        ),
    Single-insert_by v votes (ground (arith, new)) s.1,
  )
]

Single-sort_by : (votes : List FinalityVote) → Single votes → Single (sort_by vote_leb votes)
Single-sort_by [] s = tt
Single-sort_by (v ∷ votes) s =
    Single-insert_by v (sort_by vote_leb votes) (still v.validator_id votes ∙ s.0)
      (Single-sort_by votes s.1)
  where
    still :
        (id : Text) (items : List FinalityVote)
        → signed_by (sort_by vote_leb items) id ≡ signed_by items id
    still id [] = refl
    still id (w ∷ items) =
        signed_by-insert_by id w (sort_by vote_leb items) ∙ ground (arith, still id items)

Ascending-ids_of :
    (votes : List FinalityVote) → Ascending vote_leb votes → Ascending text_leb (ids_of votes)
Ascending-ids_of [] h = tt
Ascending-ids_of (v ∷ []) h = tt
Ascending-ids_of (v ∷ w ∷ votes) h = (h.0, Ascending-ids_of (w ∷ votes) h.1)

none_empty :
    (votes : List FinalityVote)
    → All (λ v. is_empty v.validator_id ≡ false) votes
    → any_of is_empty (ids_of votes) ≡ false
none_empty [] h = refl
none_empty (v ∷ votes) h = rw (h.0, none_empty votes h.1) refl

length-ids_of : (votes : List FinalityVote) → length (ids_of votes) ≡ length votes
length-ids_of [] = refl
length-ids_of (v ∷ votes) = omega (arith, length-ids_of votes)

length-hashes :
    (platform : Platform) (votes : List FinalityVote)
    → length (map (vote_hash platform) votes) ≡ length votes
length-hashes platform [] = refl
length-hashes platform (v ∷ votes) = omega (arith, length-hashes platform votes)

is_empty-ids_of : (votes : List FinalityVote) → is_empty (ids_of votes) ≡ is_empty votes
is_empty-ids_of [] = refl
is_empty-ids_of (v ∷ votes) = refl

is_empty-sort_by : (votes : List FinalityVote) → is_empty (sort_by vote_leb votes) ≡ is_empty votes
is_empty-sort_by votes = same (sort_by vote_leb votes) votes (length-sort_by vote_leb votes)
  where
    same : (a b : List FinalityVote) → length a ≡ length b → is_empty a ≡ is_empty b
    same [] [] h = refl
    same (v ∷ a) (w ∷ b) h = refl
    same [] (w ∷ b) h = absurd (omega (arith, h))
    same (v ∷ a) [] h = absurd (omega (arith, h))

-- The identities in a certificate that is built from such votes.
are_identities-ids_of :
    (votes : List FinalityVote)
    → is_empty votes ≡ false
    → Single votes
    → All (λ v. is_empty v.validator_id ≡ false) votes
    → are_identities (ids_of (sort_by vote_leb votes)) ≡ true
are_identities-ids_of votes some_vote single named =
    let ordered = sort_by vote_leb votes in
    let ids = ids_of ordered in
    let once : distinct ids ≡ ids = distinct-ids_of ordered (Single-sort_by votes single) in
    let ascending =
      Ascending-ids_of ordered
        (sort_by-Ascending vote_leb (λ a b. text_leb_total a.validator_id b.validator_id) votes) in
    let sorted : sort_by text_leb ids ≡ ids = sort_by_sorted text_leb ids ascending in
    rw
      (
        is_empty-ids_of ordered,
        is_empty-sort_by votes,
        some_vote,
        once,
        sorted,
        beq_refl ids,
        none_empty ordered (
            All-sort_by vote_leb (λ (v : FinalityVote). is_empty v.validator_id ≡ false) votes
              named),
      )
      refl

-- Each member has an identity, as `Validator.__post_init__` asks.
abbrev pub Named : Machine → Type 0
Named m = Entries (λ id v. is_empty id ≡ false) m.validators

some_ballot :
    (m : Machine) (votes : List FinalityVote) {signed : ℕ}
    → power_of m.validators votes ≡ ok signed
    → quorum_power m ≤ signed
    → is_empty votes ≡ false
unfolding power_of quorum_power
some_ballot m [] {signed} h enough =
    let e : 0 ≡ signed = ok-injective h in absurd (omega (arith, e, enough))
some_ballot m (vote ∷ votes) h enough = refl

module _ (platform : Platform) (loads : Loads) (law : Documented platform loads) where
  hashes-formed :
      (votes : List FinalityVote)
      → All (λ hash. check_hash hash ≡ ok tt) (map (vote_hash platform) votes)
  unfolding vote_hash
  hashes-formed [] = tt
  hashes-formed (v ∷ votes) = (law.formed _, hashes-formed votes)

  matching-Named :
      (m : Machine) (vote : FinalityVote)
      → Sound (with_vote m vote)
      → Named m
      → All (λ v. is_empty v.validator_id ≡ false) (matching (with_vote m vote) vote)
  unfolding matching
  matching-Named m vote s named =
      let known = λ (v : FinalityVote). contains v.validator_id m.validators ≡ true in
      let votes = (with_vote m vote).votes in
      All-weaken _ _ (matching (with_vote m vote) vote) (λ v h. called v.validator_id h.0)
        (matching-All known vote votes (All-weaken _ _ votes (λ entry h. h.1) s.placed))
    where
      called : (id : Text) → contains id m.validators ≡ true → is_empty id ≡ false
      called id h = elim (Option-cases (lookup id m.validators)) [
        | inl missing ↦ absurd (ground arith)
        | inr (v, found) ↦
            Entries-lookup (λ id v. is_empty id ≡ false) id v m.validators named found
      ]

  pub Finalizes-Readable :
      (m : Machine) (vote : FinalityVote) (c : FinalityCertificate)
      → Sound (with_vote m vote)
      → Named m
      → (m.chain_id == 0) ≡ false
      → (vote.height == 0) ≡ false
      → check_hash (lower vote.block_hash) ≡ ok tt
      → Finalizes platform m vote c
      → Readable platform c
  unfolding build_certificate certificate_digest matching quorum_power
  Finalizes-Readable m vote c s named chain height block f =
      let votes = matching (with_vote m vote) vote in
      let ordered = sort_by vote_leb votes in
      let single =
        matching-Single vote (with_vote m vote).votes s.single
          (All-weaken _ _ (with_vote m vote).votes (λ entry h. h.0) s.placed) in
      subst (Readable platform) (sym f.built) (record {
        chain = chain;
        height = height;
        bounded = omega (
          arith,
          power_of-power_where m.validators vote (with_vote m vote).votes f.signed s.members_single
              s.single s.placed f.counted,
          power_where-le (voted_for vote (with_vote m vote).votes) m.validators,
          s.weighed,
        );
        quorum = omega (arith, f.quorum);
        identities =
            are_identities-ids_of votes (some_ballot (with_vote m vote) votes f.counted f.quorum)
              single (matching-Named m vote s named);
        paired = length-hashes platform ordered ∙ sym (length-ids_of ordered);
        block = block;
        certificate = law.formed _;
        votes = hashes-formed ordered;
        digest = refl;
      })
