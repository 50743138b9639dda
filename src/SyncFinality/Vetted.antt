-- ===== src/SyncFinality/Vetted.antt =====
-- finality.py and sync_finality.py: the votes that `add_vote` has tested pass the tests of `verify`.
use junca_social_ecosystem_c.Common.{
  ℕ, ◌≡◌, refl, subst, sym, ap, true, false, List, [], ◌∷◌, ◌++◌, arith, append_assoc, append-nil,
  inl, inr, ltb, length, All, nat_eq, list_eq, pair_eq, mem, ok, err, Result-cases, Verdict,
  is_true, Dict, contains, Entries, Entries-insert, Text, is_empty, Platform,
}
use junca_social_ecosystem_c.Finality.Types.{
  Validator, FinalityVote, FinalityError, validate_block_hash,
}
use junca_social_ecosystem_c.Finality.Machine.{Machine, Outcome, identity, validate_vote, add_vote}
use junca_social_ecosystem_c.Finality.Machine.Endings.{
  with_vote, Ended, refused, repeated, counted_before, equivocated, stored_refused, stored,
  finalizes, add_vote-Ended,
}
use junca_social_ecosystem_c.SyncFinality.Verifier.{
  FinalityProof, check_hash, unbound, check_vote, accept_votes,
}
use junca_social_ecosystem_c.SyncFinality.Verifier.Accepted.{Fresh}

-- What `add_vote` has tested of a vote of its chain.
pub record Vetted (accepts : FinalityVote → Verdict) (chain_id : ℕ) (vote : FinalityVote)
    : Type 0 where
  pub chain : vote.chain_id ≡ chain_id
  pub signed : is_empty vote.signature ≡ false
  pub short : ltb 4096 (length vote.signature) ≡ false
  pub hash : check_hash vote.block_hash ≡ ok tt
  pub verified : is_true (accepts vote) ≡ true

validate_vote-Vetted :
    (m : Machine) (accepts : FinalityVote → Verdict) (vote : FinalityVote)
    → validate_vote m accepts vote ≡ ok tt
    → Vetted accepts m.chain_id vote
unfolding validate_vote validate_block_hash check_hash
validate_vote-Vetted m accepts vote h = record {
  chain = ground arith;
  signed = ground arith;
  short = ground arith;
  hash = ground arith;
  verified = ground arith;
}

abbrev pub AllVetted : (FinalityVote → Verdict) → Machine → Type 0
AllVetted accepts m = Entries (λ k v. Vetted accepts m.chain_id v) m.votes

pub with_vote-AllVetted :
    (accepts : FinalityVote → Verdict) (m : Machine) (vote : FinalityVote)
    → validate_vote m accepts vote ≡ ok tt
    → AllVetted accepts m
    → AllVetted accepts (with_vote m vote)
with_vote-AllVetted accepts m vote h a =
    Entries-insert (λ k v. Vetted accepts m.chain_id v) (identity vote) vote m.votes a
      (validate_vote-Vetted m accepts vote h)

module _ (platform : Platform) where
  Ended-AllVetted :
      (accepts : FinalityVote → Verdict) (m : Machine) (vote : FinalityVote) {o : Outcome}
      → Ended platform m vote o
      → validate_vote m accepts vote ≡ ok tt
      → AllVetted accepts m
      → AllVetted accepts o.1
  Ended-AllVetted accepts m vote (refused e) h a = a
  Ended-AllVetted accepts m vote (repeated c e f) h a = a
  Ended-AllVetted accepts m vote counted_before h a = a
  Ended-AllVetted accepts m vote (equivocated previous e f) h a = a
  Ended-AllVetted accepts m vote (stored_refused e new) h a = with_vote-AllVetted accepts m vote h a
  Ended-AllVetted accepts m vote (stored new) h a = with_vote-AllVetted accepts m vote h a
  Ended-AllVetted accepts m vote (finalizes c new fin) h a = with_vote-AllVetted accepts m vote h a

  add_vote_refused :
      (accepts : FinalityVote → Verdict) (m : Machine) (vote : FinalityVote) {e : FinalityError}
      → validate_vote m accepts vote ≡ err e
      → m ≡ (add_vote platform accepts vote m).1
  unfolding add_vote
  add_vote_refused accepts m vote h = rw (h, add_vote) refl

  pub add_vote-AllVetted :
      (accepts : FinalityVote → Verdict) (m : Machine) (vote : FinalityVote)
      → AllVetted accepts m
      → AllVetted accepts (add_vote platform accepts vote m).1
  add_vote-AllVetted accepts m vote a = elim (Result-cases (validate_vote m accepts vote)) [
    | inl (_, e) ↦ Ended-AllVetted accepts m vote (add_vote-Ended platform accepts vote m) e a
    | inr (why, e) ↦ subst (AllVetted accepts) (add_vote_refused accepts m vote e) a
  ]

-- What the tests of the loop ask of a vote, but for repetitions.
pub record Passes (accepts : FinalityVote → Verdict) (proof : FinalityProof)
    (members : Dict Text Validator) (vote : FinalityVote) : Type 0 where
  pub vetted : Vetted accepts proof.chain_id vote
  pub member : contains vote.validator_id members ≡ true
  pub bound : unbound proof vote ≡ false

check_vote_complete :
    (accepts : FinalityVote → Verdict) (proof : FinalityProof) (members : Dict Text Validator)
    (seen : List Text) (vote : FinalityVote)
    → Passes accepts proof members vote
    → mem vote.validator_id seen ≡ false
    → check_vote accepts proof members seen vote ≡ ok tt
unfolding check_vote
check_vote_complete accepts proof members seen vote p new =
    rw (p.vetted.signed, p.vetted.short, p.vetted.hash, new, p.member, p.bound, p.vetted.verified)
      refl

pub accept_votes_complete :
    (accepts : FinalityVote → Verdict) (proof : FinalityProof) (members : Dict Text Validator)
    (seen : List Text) (accepted votes : List FinalityVote)
    → All (Passes accepts proof members) votes
    → Fresh seen votes
    → accept_votes accepts proof members seen accepted votes ≡ ok (accepted ++ votes)
unfolding accept_votes
accept_votes_complete accepts proof members seen accepted [] p f = ap ok (sym (append-nil accepted))
accept_votes_complete accepts proof members seen accepted (vote ∷ votes) p f =
    rw
      (
        check_vote_complete accepts proof members seen vote p.0 f.0,
        accept_votes_complete accepts proof members (vote.validator_id ∷ seen)
            (accepted ++ vote ∷ []) votes p.1 f.1,
      )
      (ap ok (append_assoc accepted (vote ∷ []) votes))
