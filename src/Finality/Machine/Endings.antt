-- ===== src/Finality/Machine/Endings.antt =====
-- The ways in which `add_vote` ends.
use junca_social_ecosystem_c.Common.{
  ℕ, ◌≤◌, ◌≡◌, refl, true, false, Option, none, some, arith, ltb, Bool-cases, inl, inr, nat_eq,
  list_eq, pair_eq, ◌=?◌, text_iff, Result, ok, err, Verdict, lookup, contains, insert, lower,
  Platform,
}
use junca_social_ecosystem_c.Finality.Types.{
  FinalityError, FinalityVote, FinalityCertificate, equivocation, conflicting_vote, not_contiguous,
}
use junca_social_ecosystem_c.Finality.Machine.{
  Machine, identity, quorum_power, latest_finalized_height, validate_vote, matching, power_of,
  build_certificate, breaks_contiguity, finalize, tally, certificate_if_finalized, count_vote,
  add_key, vote_at, add_vote,
}

-- The machine once the vote is stored.
abbrev pub with_vote : Machine → FinalityVote → Machine
with_vote m vote = record m { votes = insert (identity vote) vote m.votes }

-- A vote of a member that is the first at its place, for a height without a certificate.
pub record IsNew (m : Machine) (vote : FinalityVote) : Type 0 where
  pub member : contains vote.validator_id m.validators ≡ true
  pub open_height : lookup vote.height m.finalized ≡ none
  pub place : lookup (identity vote) m.votes ≡ none

validate_vote-member :
    (m : Machine) (verifier : FinalityVote → Verdict) (vote : FinalityVote)
    → validate_vote m verifier vote ≡ ok tt
    → contains vote.validator_id m.validators ≡ true
unfolding validate_vote
validate_vote-member m verifier vote h = ground arith

module _ (platform : Platform) (m : Machine) (vote : FinalityVote) where
  pub record Finalizes (c : FinalityCertificate) : Type 0 where
    pub signed : ℕ
    pub counted : power_of m.validators (matching (with_vote m vote) vote) ≡ ok signed
    pub quorum : quorum_power (with_vote m vote) ≤ signed
    pub built :
        c
        ≡ build_certificate platform
            (with_vote m vote)
            vote
            (matching (with_vote m vote) vote)
            signed
    pub contiguous : breaks_contiguity (latest_finalized_height m) vote.height ≡ false

  pub data Ended : Result FinalityError (Option FinalityCertificate) × Machine → Type 0 where
    refused : (e : FinalityError) → Ended (err e, m)
    repeated :
        (c : FinalityCertificate)
        → lookup vote.height m.finalized ≡ some c
        → c.block_hash ≡ lower vote.block_hash
        → Ended (ok (some c), m)
    counted_before : Ended (ok none, m)
    equivocated :
        (previous : FinalityVote)
        → lookup (identity vote) m.votes ≡ some previous
        → (lower previous.block_hash =? lower vote.block_hash) ≡ false
        → Ended
            (err equivocation, record m { equivocations = add_key (identity vote) m.equivocations })
    stored_refused : (e : FinalityError) → IsNew m vote → Ended (err e, with_vote m vote)
    stored : IsNew m vote → Ended (ok none, with_vote m vote)
    finalizes :
        (c : FinalityCertificate)
        → IsNew m vote
        → Finalizes c
        → Ended (
          ok (some c),
          record (with_vote m vote) { finalized = insert vote.height c m.finalized },
        )

  finalize-Ended :
      IsNew m vote
      → (signed : ℕ) → power_of m.validators (matching (with_vote m vote) vote) ≡ ok signed
      → quorum_power (with_vote m vote) ≤ signed
      → Ended (
          finalize platform (with_vote m vote) vote (
            build_certificate platform
              (with_vote m vote)
              vote
              (matching (with_vote m vote) vote)
              signed))
  unfolding finalize
  finalize-Ended new signed counted enough =
      rw new.open_height
        (elim (Bool-cases (breaks_contiguity (latest_finalized_height m) vote.height)) [
          | inl gap ↦ rw gap (stored_refused not_contiguous new)
          | inr fits ↦ rw fits (
              finalizes _ new (record {
                signed = signed;
                counted = counted;
                quorum = enough;
                built = refl;
                contiguous = fits;
              }))
        ])

  tally-Ended :
      IsNew m vote
      → (r : Result FinalityError ℕ) → power_of m.validators (matching (with_vote m vote) vote) ≡ r
      → Ended (tally platform (with_vote m vote) vote)
  unfolding tally
  tally-Ended new (err e) counted = rw (counted, tally) (stored_refused e new)
  tally-Ended new (ok signed) counted =
      rw (counted, tally)
        (elim (Bool-cases (ltb signed (quorum_power (with_vote m vote)))) [
          | inl short ↦ rw short (stored new)
          | inr enough ↦ rw enough (finalize-Ended new signed counted (ground arith))
        ])

  vote_at-Ended :
      contains vote.validator_id m.validators ≡ true
      → (f : Option FinalityCertificate) → lookup vote.height m.finalized ≡ f
      → (v : Option FinalityVote) → lookup (identity vote) m.votes ≡ v
      → Ended (vote_at platform m vote f)
  unfolding vote_at count_vote certificate_if_finalized
  vote_at-Ended u (some c) e v g = elim (Bool-cases (c.block_hash =? lower vote.block_hash)) [
    | inl same ↦ rw same (repeated c e ((text_iff c.block_hash (lower vote.block_hash)).0 same))
    | inr other ↦ rw other (refused conflicting_vote)
  ]
  vote_at-Ended u none e none g =
      rw (g, count_vote) (tally-Ended (record { member = u; open_height = e; place = g }) _ refl)
  vote_at-Ended u none e (some previous) g =
      rw (g, count_vote)
        (elim (Bool-cases (lower previous.block_hash =? lower vote.block_hash)) [
          | inl same ↦ rw (same, e) counted_before
          | inr other ↦ rw other (equivocated previous g other)
        ])

pub add_vote-Ended :
    (platform : Platform) (verifier : FinalityVote → Verdict) (vote : FinalityVote) (m : Machine)
    → Ended platform m vote (add_vote platform verifier vote m)
unfolding add_vote
add_vote-Ended platform verifier vote m = go (validate_vote m verifier vote) refl
  where
    go :
        (r : Result FinalityError (Unit {0}))
        → validate_vote m verifier vote ≡ r
        → Ended platform m vote (add_vote platform verifier vote m)
    go (err e) h = rw (h, add_vote) (refused e)
    go (ok u) h =
        rw (h, add_vote)
          (vote_at-Ended platform m vote (validate_vote-member m verifier vote h) _ refl _ refl)
