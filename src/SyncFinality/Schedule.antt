-- ===== src/SyncFinality/Schedule.antt =====
-- sync_finality.py, `ValidatorSet` and `ValidatorSetSchedule`. The schedule's list of sets is never
-- empty: it is its first set and the later ones.
use junca_social_ecosystem_c.Common.{
  ℕ, ◌+◌, ◌*◌, ◌/◌, not, ◌||◌, List, [], ◌∷◌, ◌++◌, map, if◌then◌else◌, ltb, leb, ◌==◌, length,
  sum_by, nat_eq, list_eq, ◌=?◌, mem, sort_by, text_leb, Result, ok, err, Check, ◌>>◌, raise_if,
  Text, codes, Json, object, text, number, array, field, end, to_items, Platform, tagged_digest,
}
use junca_social_ecosystem_c.Finality.Types.{Validator}

pub data SyncFinalityError : Type 0 where
  bad_set duplicate_identities not_ordered bad_initial epoch_gap activation_back : SyncFinalityError
  bad_policy identity_mismatch bad_hash wrong_set too_many_votes bad_vote : SyncFinalityError
  duplicate_validator unknown_validator unbound_vote verification_failed : SyncFinalityError
  no_quorum hash_mismatch : SyncFinalityError
  bad_proof_fields bad_votes bad_vote_fields bad_encoding bad_value : SyncFinalityError
  -- A `KeyError`.
  missing_validator : SyncFinalityError

pub record ValidatorSet : Type 0 where
  pub epoch : ℕ
  pub activation_height : ℕ
  pub validators : List Validator

abbrev pub identities : ValidatorSet → List Text
identities s = map (λ v. v.validator_id) s.validators

-- `set(items)`
unfoldable pub set_of : List Text → List Text
set_of [] = []
set_of (x ∷ xs) = let rest = set_of xs in if mem x rest then rest else x ∷ rest

-- `ValidatorSet.__post_init__`
unfoldable pub check_set : ValidatorSet → Check SyncFinalityError
check_set s = do
  raise_if (ltb (length s.validators) 3 || ltb 10000 (length s.validators)) bad_set
  raise_if (not (length (set_of (identities s)) == length (identities s))) duplicate_identities
  raise_if (not (sort_by text_leb (identities s) =? identities s)) not_ordered

unfoldable pub total_power : ValidatorSet → ℕ
total_power s = sum_by (λ v. v.voting_power) s.validators

unfoldable pub quorum_power : ValidatorSet → ℕ
quorum_power s = total_power s * 2 / 3 + 1

validator_json : Validator → Json
validator_json v = object (
    field (codes "validator_id") (text v.validator_id)
      (field (codes "voting_power") (number v.voting_power) end))

unfoldable pub set_hash : Platform → ValidatorSet → Text
unfolding validator_json
set_hash platform s = tagged_digest platform (codes "JUNCA_VALIDATOR_SET_V1" ++ 0 ∷ []) (
    platform.dumps (
      object (
        field (codes "activation_height") (number s.activation_height) (
          field (codes "epoch") (number s.epoch)
            (field (codes "validators") (array (to_items validator_json s.validators)) end)))))

pub record Schedule : Type 0 where
  pub initial : ValidatorSet
  pub later : List ValidatorSet

-- `ValidatorSetSchedule.__init__`
unfoldable pub make_schedule : ValidatorSet → Result SyncFinalityError Schedule
make_schedule initial = do
  raise_if (not (initial.epoch == 0) || not (initial.activation_height == 0)) bad_initial
  ok (record { initial = initial; later = [] })

-- `self._sets[-1]`
unfoldable pub last_from : ValidatorSet → List ValidatorSet → ValidatorSet
last_from s [] = s
last_from s (t ∷ ts) = last_from t ts

unfoldable pub register : ValidatorSet → Schedule → Result SyncFinalityError Schedule
register item s = do
  let previous = last_from s.initial s.later
  raise_if (not (item.epoch == previous.epoch + 1)) epoch_gap
  raise_if (leb item.activation_height previous.activation_height) activation_back
  ok (record s { later = s.later ++ item ∷ [] })

-- The loop of `at_height`.
unfoldable pub active_from : ValidatorSet → ℕ → List ValidatorSet → ValidatorSet
active_from active height [] = active
active_from active height (item ∷ items) =
    if ltb height item.activation_height then active else active_from item height items

unfoldable pub at_height : ℕ → Schedule → ValidatorSet
at_height height s = active_from s.initial height s.later

-- A registration that raises leaves the schedule as it was.
abbrev pub after : Schedule → Result SyncFinalityError Schedule → Schedule
after s (ok s') = s'
after s (err e) = s

unfoldable pub register_all : List ValidatorSet → Schedule → Schedule
register_all [] s = s
register_all (item ∷ items) s = register_all items (after s (register item s))
