-- ===== src/ConsensusSigningJournal/Tests.antt =====
-- A validator signs height 3; the same vote is replayed, another and a lower one are refused.
use junca_social_ecosystem_c.Common.{
  ℕ, ◌≡◌, refl, true, none, some, List, [], ◌∷◌, nat_eq, list_eq, pair_eq, ok, err, Verdict,
  returned, Text, Bytes, codes, starts_with,
}
use junca_social_ecosystem_c.Samples.{sample_platform, sample_dumps, sample_hash}
use junca_social_ecosystem_c.ConsensusSigningJournal.Journal.{
  double_sign, below_watermark, Journal, Request, is_validator_id, is_block_hash,
  is_signature_length, raise_watermark, verify_signature, canonical_vote, payload_of, check_request,
  replay, write_vote, sign, answer, get_or_sign, Call, run, is_valid_row, latest, dict_eq,
  is_newest, restore_from, open_journal,
}
use junca_social_ecosystem_c.ConsensusSigningJournal.Journal.Signed.{Replayed, signed_once}
use junca_social_ecosystem_c.ConsensusSigningJournal.Journal.Watermark.{Reaches, never_below}

opened : Unit {0}
unfolding is_validator_id is_block_hash is_signature_length raise_watermark verify_signature
    canonical_vote payload_of check_request replay write_vote sign answer get_or_sign run
    is_valid_row latest dict_eq is_newest restore_from open_journal sample_dumps starts_with
opened = tt

abbrev empty_journal : Journal
empty_journal = record { chain_id = 9; signatures = []; watermarks = [] }

abbrev other_hash : Text
other_hash = codes "0x00000000000000000000000000000000000000000000000000000000000000d4"

abbrev request : ℕ → Text → Request
request height h = record {
  validator_id = codes "v1";
  height = height;
  round = 0;
  block_hash = h;
  signing_payload = payload_of sample_platform 9 (record {
    validator_id = codes "v1";
    height = height;
    round = 0;
    block_hash = h;
    signing_payload = [];
  });
}

abbrev sixty_four : Bytes
sixty_four = codes "0000000000000000000000000000000000000000000000000000000000000000"

abbrev accepting : Bytes → Verdict
accepting s = returned true

abbrev signed : Journal
signed = write_vote sample_platform empty_journal (request 3 sample_hash) sixty_four

abbrev later : List Call
later = (request 4 other_hash, some sixty_four, accepting) ∷ []

signs :
    get_or_sign sample_platform empty_journal (request 3 sample_hash) (some sixty_four) accepting
    ≡ ok (sixty_four, signed)
unfolding opened
signs = refl

replays :
    get_or_sign sample_platform signed (request 3 sample_hash) none accepting
    ≡ ok (sixty_four, signed)
unfolding opened
replays = refl

refuses_another :
    get_or_sign sample_platform signed (request 3 other_hash) (some sixty_four) accepting
    ≡ err double_sign
unfolding opened
refuses_another = refl

refuses_lower :
    get_or_sign sample_platform signed (request 2 other_hash) (some sixty_four) accepting
    ≡ err below_watermark
unfolding opened
refuses_lower = refl

-- The sample hash is no SHA-256, so only an empty journal is reopened here.
reopens : open_journal sample_platform empty_journal ≡ ok empty_journal
unfolding opened
reopens = refl

restores : restore_from signed.signatures signed.signatures [] ≡ signed.watermarks
unfolding opened
restores = refl

signed_once_example : (sample_hash ≡ sample_hash) × (sixty_four ≡ sixty_four)
unfolding opened
signed_once_example =
    signed_once sample_platform empty_journal (request 3 sample_hash) (request 3 sample_hash) later
      (some sixty_four) none accepting accepting {s = sixty_four} {s' = sixty_four} {j' = signed}
      {j'' = run sample_platform signed later} refl refl refl

abbrev two_votes : Journal
two_votes = write_vote sample_platform signed (request 4 other_hash) sixty_four

reached_four : Reaches two_votes (codes "v1") (4, 0)
unfolding opened
reached_four = record { mark = (4, 0); stored = refl; high = refl }

never_below_example :
    Replayed sample_platform
      (run sample_platform two_votes later)
      (request 3 sample_hash)
      none
      accepting
      sixty_four
      (run sample_platform two_votes later)
unfolding opened
never_below_example =
    never_below sample_platform two_votes later (request 3 sample_hash) none accepting (4, 0)
      {s = sixty_four} {j' = run sample_platform two_votes later} reached_four refl refl
