-- ===== src/Finality/Machine.antt =====
-- finality.py, `FinalityStateMachine`. A call gives its outcome and the machine that it leaves:
-- what was written before a raise stays written.
pub mod Endings
pub mod Safety
pub mod Progress
pub mod Quorum
use junca_social_ecosystem_c.Common.{
  ℕ, suc, ◌+◌, ◌*◌, ◌/◌, max, Bool, true, false, not, ◌&&◌, ◌||◌, Option, none, some, List, [], ◌∷◌,
  map, ltb, leb, ◌==◌, if◌then◌else◌, length, sum_by, keep_if, Eq, nat_eq, list_eq, pair_eq, ◌=?◌,
  mem, Result, ok, err, Check, ◌>>=◌, ◌>>◌, raise_if, or_raise, Verdict, is_true, Dict, lookup,
  contains, insert, values, Text, lower, is_empty, text_leb, sort_by, ℤ, pos, negsuc, ltb_ℤ, eqb_ℤ,
  suc_ℤ, Platform,
}
use junca_social_ecosystem_c.Finality.Types.{
  FinalityError, Validator, FinalityVote, FinalityCertificate, vote_hash, certificate_digest,
  validate_block_hash, bad_chain_id, bad_initial_height, too_few_validators, duplicate_validators,
  chain_id_mismatch, unknown_validator, bad_signature, verification_failed, below_finalized_head,
  beyond_next_height, conflicting_vote, equivocation, certificate_conflict, not_contiguous,
  not_finalized, missing_validator,
}

-- A vote's place: height, round and validator.
abbrev pub VoteKey : Type 0
VoteKey = ℕ × (ℕ × Text)

pub record Machine : Type 0 where
  pub chain_id : ℕ
  pub validators : Dict Text Validator
  pub total_power : ℕ
  pub checkpoint_height : ℤ
  pub votes : Dict VoteKey FinalityVote
  pub finalized : Dict ℕ FinalityCertificate
  pub equivocations : List VoteKey

-- `{item.validator_id: item for item in items}`
unfoldable pub by_id : List Validator → Dict Text Validator → Dict Text Validator
by_id [] d = d
by_id (v ∷ vs) d = by_id vs (insert v.validator_id v d)

-- The fields that `__init__` sets.
abbrev pub fresh_machine : ℕ → List Validator → ℤ → Machine
fresh_machine chain_id items initial_finalized_height = record {
  chain_id = chain_id;
  validators = sort_by (λ a b. text_leb a.0 b.0) (by_id items []);
  total_power = sum_by (λ v. v.voting_power) items;
  checkpoint_height = initial_finalized_height;
  votes = [];
  finalized = [];
  equivocations = [];
}

-- `FinalityStateMachine.__init__`
unfoldable pub make_machine : ℕ → List Validator → ℤ → Result FinalityError Machine
make_machine chain_id items initial_finalized_height = do
  raise_if (chain_id == 0) bad_chain_id
  raise_if (ltb_ℤ initial_finalized_height (negsuc 0)) bad_initial_height
  raise_if (ltb (length items) 3) too_few_validators
  raise_if (not (length (by_id items []) == length items)) duplicate_validators
  ok (fresh_machine chain_id items initial_finalized_height)

unfoldable pub quorum_power : Machine → ℕ
quorum_power m = m.total_power * 2 / 3 + 1

-- `max` over the keys of a dict.
unfoldable pub max_key : ℕ → Dict ℕ FinalityCertificate → ℕ
max_key best [] = best
max_key best ((h, c) ∷ d) = max_key (max best h) d

unfoldable pub latest_of : ℤ → Dict ℕ FinalityCertificate → ℤ
latest_of checkpoint [] = checkpoint
latest_of checkpoint ((h, c) ∷ d) = pos (max_key h d)

abbrev pub latest_finalized_height : Machine → ℤ
latest_finalized_height m = latest_of m.checkpoint_height m.finalized

-- `_validate_vote`
unfoldable pub validate_vote :
    Machine → (FinalityVote → Verdict) → FinalityVote → Check FinalityError
validate_vote m verifier vote = do
  raise_if (not (vote.chain_id == m.chain_id)) chain_id_mismatch
  validate_block_hash vote.block_hash
  raise_if (not (contains vote.validator_id m.validators)) unknown_validator
  raise_if (is_empty vote.signature || ltb 4096 (length vote.signature)) bad_signature
  raise_if (not (is_true (verifier vote))) verification_failed
  raise_if (ltb_ℤ (pos vote.height) (latest_finalized_height m)) below_finalized_head
  raise_if (ltb_ℤ (suc_ℤ (latest_finalized_height m)) (pos vote.height)) beyond_next_height

abbrev pub identity : FinalityVote → VoteKey
identity vote = (vote.height, (vote.round, vote.validator_id))

-- The test of the comprehension that collects the matching votes.
abbrev pub matches : FinalityVote → FinalityVote → Bool
matches vote item =
    item.height == vote.height
    && item.round == vote.round
    && lower item.block_hash =? lower vote.block_hash

unfoldable pub matching : Machine → FinalityVote → List FinalityVote
matching m vote = keep_if (matches vote) (values m.votes)

-- `sum(self.validators[item.validator_id].voting_power for item in matching)`
unfoldable pub power_of : Dict Text Validator → List FinalityVote → Result FinalityError ℕ
power_of validators [] = ok 0
power_of validators (item ∷ items) = do
  v ← or_raise (lookup item.validator_id validators) missing_validator
  rest ← power_of validators items
  ok (v.voting_power + rest)

abbrev pub Outcome : Type 0
Outcome = Result FinalityError (Option FinalityCertificate) × Machine

-- The test `existing is not None and existing.certificate_hash != certificate.certificate_hash`.
abbrev pub conflicts : Option FinalityCertificate → FinalityCertificate → Bool
conflicts none certificate = false
conflicts (some existing) certificate =
    not (existing.certificate_hash =? certificate.certificate_hash)

-- The contiguity test before a certificate is stored.
abbrev pub breaks_contiguity : ℤ → ℕ → Bool
breaks_contiguity latest height =
    (eqb_ℤ latest (negsuc 0) && not (height == 0))
    || (not (ltb_ℤ latest (pos 0))
        && not (eqb_ℤ (suc_ℤ latest) (pos height) || eqb_ℤ latest (pos height)))

-- `_certificate_if_finalized`
unfoldable pub certificate_if_finalized :
    Option FinalityCertificate → Text → Option FinalityCertificate
certificate_if_finalized none block_hash = none
certificate_if_finalized (some c) block_hash =
    if c.block_hash =? lower block_hash then some c else none

-- `set.add`
abbrev pub add_key : VoteKey → List VoteKey → List VoteKey
add_key k ks = if mem k ks then ks else k ∷ ks

module _ (platform : Platform) where
  -- `_build_certificate`
  unfoldable pub build_certificate :
      Machine → FinalityVote → List FinalityVote → ℕ → FinalityCertificate
  build_certificate m vote items signed =
      let ordered = sort_by (λ a b. text_leb a.validator_id b.validator_id) items in
      let ids = map (λ v. v.validator_id) ordered in
      let hashes = map (vote_hash platform) ordered in
      record {
        chain_id = m.chain_id;
        height = vote.height;
        round = vote.round;
        block_hash = lower vote.block_hash;
        signed_power = signed;
        total_power = m.total_power;
        validator_ids = ids;
        vote_hashes = hashes;
        certificate_hash =
            certificate_digest platform m.chain_id vote.height vote.round (lower vote.block_hash)
              signed m.total_power ids hashes;
      }

  unfoldable pub finalize : Machine → FinalityVote → FinalityCertificate → Outcome
  finalize m vote certificate =
      if conflicts (lookup vote.height m.finalized) certificate
      then (err certificate_conflict, m)
      else if breaks_contiguity (latest_finalized_height m) vote.height
      then (err not_contiguous, m)
      else (
        ok (some certificate),
        record m { finalized = insert vote.height certificate m.finalized },
      )

  -- The tally, once the vote is stored.
  unfoldable pub tally : Machine → FinalityVote → Outcome
  tally m vote = elim (power_of m.validators (matching m vote)) [
    | err e ↦ (err e, m)
    | ok signed ↦
        if ltb signed (quorum_power m)
        then (ok none, m)
        else finalize m vote (build_certificate m vote (matching m vote) signed)
  ]

  unfoldable pub count_vote : Machine → FinalityVote → Option FinalityVote → Outcome
  count_vote m vote none = tally (record m { votes = insert (identity vote) vote m.votes }) vote
  count_vote m vote (some previous) =
      if lower previous.block_hash =? lower vote.block_hash
      then (ok (certificate_if_finalized (lookup vote.height m.finalized) vote.block_hash), m)
      else (err equivocation, record m { equivocations = add_key (identity vote) m.equivocations })

  unfoldable pub vote_at : Machine → FinalityVote → Option FinalityCertificate → Outcome
  vote_at m vote none = count_vote m vote (lookup (identity vote) m.votes)
  vote_at m vote (some finalized) = (
    if finalized.block_hash =? lower vote.block_hash
        then ok (some finalized)
        else err conflicting_vote,
    m,
  )

  -- `add_vote`
  unfoldable pub add_vote : (FinalityVote → Verdict) → FinalityVote → Machine → Outcome
  add_vote verifier vote m = elim (validate_vote m verifier vote) [
    | err e ↦ (err e, m)
    | ok _ ↦ vote_at m vote (lookup vote.height m.finalized)
  ]

-- `get_certificate`
unfoldable get_certificate : ℕ → Machine → Result FinalityError FinalityCertificate
get_certificate height m = or_raise (lookup height m.finalized) not_finalized
