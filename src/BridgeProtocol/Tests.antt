-- ===== src/BridgeProtocol/Tests.antt =====
-- A route with three relayers: a message is observed, attested, executed; the theorems at it.
use junca_social_ecosystem_c.Common.{
  ◌+◌, ◌<◌, ◌≡◌, ◌≢◌, refl, inl, false, none, some, List, [], ◌∷◌, arith, ok, nat_eq, list_eq,
  ne_of_beq, lookup, Text, codes, strip, starts_with,
}
use junca_social_ecosystem_c.Samples.{sample_platform, sample_dumps}
use junca_social_ecosystem_c.BridgeProtocol.Types.{
  attested, executed, BridgeMessage, BridgeRecord, digest, is_transaction, is_signature,
}
use junca_social_ecosystem_c.BridgeProtocol.Engine.{
  Bridge, frozenset, validate_policy, make_bridge, check_token, validate_message, new_record,
  observe, confirmed_state, apply_confirmations, with_attestation, attest, prepare_execution,
  mark_executed, reject, Op, observes, confirms, prepares, executes, step, run,
}
use junca_social_ecosystem_c.BridgeProtocol.Engine.Sound.{Sound, make_bridge-run-Sound}
use junca_social_ecosystem_c.BridgeProtocol.Engine.Replay.{executed_forever, observe_once}
use junca_social_ecosystem_c.BridgeProtocol.Engine.Limits.{daily_limit_overrun}

opened : Unit {0}
unfolding frozenset validate_policy make_bridge check_token validate_message observe confirmed_state
    apply_confirmations with_attestation attest prepare_execution mark_executed reject step run
    digest is_transaction is_signature strip starts_with sample_dumps
opened = tt

abbrev route : Text
route = codes "00000000000000000000000000000000000000000000000000000000000000aa"

abbrev first_transaction : Text
first_transaction = codes "00000000000000000000000000000000000000000000000000000000000000b1"

abbrev second_transaction : Text
second_transaction = codes "00000000000000000000000000000000000000000000000000000000000000b2"

abbrev relayers : List Text
relayers = codes "r1" ∷ codes "r2" ∷ codes "r3" ∷ []

abbrev empty_bridge : Bridge
empty_bridge = record {
  route_digest = route;
  allowed_networks = codes "junca-public-testnet" ∷ codes "bsc-testnet" ∷ [];
  relayer_ids = relayers;
  threshold = 2;
  required_confirmations = 1;
  per_transaction_limit = 60;
  daily_limit = 100;
  paused = false;
  records = [];
  used_source_transactions = [];
  used_nonces = [];
  executed_value = 0;
}

made :
    make_bridge route
      (codes "junca-public-testnet" ∷ codes "bsc-testnet" ∷ [])
      relayers
      2
      1
      60
      100
      false
    ≡ ok empty_bridge
unfolding opened
made = refl

abbrev message : BridgeMessage
message = record {
  route_digest = route;
  direction = codes "junca-public-testnet->bsc-testnet";
  source_network = codes "junca-public-testnet";
  destination_network = codes "bsc-testnet";
  nonce = 1;
  source_transaction = first_transaction;
  source_block = 5;
  asset_type = codes "fungible";
  source_asset = codes "A";
  destination_asset = codes "B";
  sender = codes "s";
  recipient = codes "t";
  value = 60;
  token_id = none;
  governance = codes "JAIOS Institutional Governance";
  notice = codes "Public Testnet / No Monetary Value";
  schema_version = 1;
}

abbrev other_message : BridgeMessage
other_message = record message { nonce = 2; source_transaction = second_transaction }

abbrev after_observe : Bridge
after_observe = step sample_platform empty_bridge (observes message)

observed_message :
    observe sample_platform empty_bridge message ≡ ok (new_record message, after_observe)
unfolding opened
observed_message = refl

abbrev history : List Op
history =
    observes message ∷ observes other_message ∷ confirms (digest sample_platform message) 3 ∷ []

make_bridge-run-Sound_example : Sound sample_platform (run sample_platform empty_bridge history)
make_bridge-run-Sound_example =
    make_bridge-run-Sound sample_platform route
      (codes "junca-public-testnet" ∷ codes "bsc-testnet" ∷ []) relayers 2 1 60 100 false history
      made

observe_once_example :
    observe sample_platform (run sample_platform after_observe history) message
    ≢ ok (new_record message, empty_bridge)
observe_once_example =
    observe_once sample_platform empty_bridge message message history observed_message (inl refl)

-- Two attested records of value 60 under a daily limit of 100.
abbrev attested_record : BridgeMessage → BridgeRecord
attested_record m = record {
  message = m;
  state = attested;
  confirmations = 1;
  attestations = [];
  execution_transaction = none;
  rejection_reason = none;
}

abbrev busy : Bridge
busy = record empty_bridge {
  records = (codes "k", attested_record message) ∷ (codes "l", attested_record other_message) ∷ [];
}

daily_limit_overrun_example :
    let b' = run sample_platform busy (
      prepares (codes "k")
      ∷ prepares (codes "l")
      ∷ executes (codes "k") first_transaction
      ∷ executes (codes "l") second_transaction
      ∷ []) in
    (b'.executed_value ≡ 0 + 60 + 60) × (b'.daily_limit < b'.executed_value)
unfolding opened
daily_limit_overrun_example =
    daily_limit_overrun sample_platform busy (codes "k") (codes "l") first_transaction
      second_transaction (attested_record message) (attested_record other_message) refl
      (ne_of_beq {A = Text} (codes "k") (codes "l") refl)
      (record { found = refl; final = refl; within = omega arith; today = omega arith })
      (record { found = refl; final = refl; within = omega arith; today = omega arith }) refl refl
      (omega arith)

abbrev done : BridgeRecord
done = record (attested_record message) {
  state = executed;
  execution_transaction = some first_transaction;
}

abbrev settled_bridge : Bridge
settled_bridge = record empty_bridge { records = (codes "k", done) ∷ []; executed_value = 60 }

executed_forever_example :
    lookup (codes "k") (run sample_platform settled_bridge history).records ≡ some done
executed_forever_example =
    executed_forever sample_platform settled_bridge history (codes "k") done refl refl
