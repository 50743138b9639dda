-- ===== src/BridgeProtocol/Engine.antt =====
-- bridge_protocol.py, `BridgeProtocol`. Each check of a method stands before its first write, so a
-- call that raises leaves the engine as it was. A method gives the record and the new engine.
pub mod Passed
pub mod Sound
pub mod Replay
pub mod Limits
use junca_social_ecosystem_c.Common.{
  ℕ, ◌+◌, Bool, true, false, not, ◌&&◌, ◌||◌, Option, none, some, List, [], ◌∷◌, ◌++◌, ltb, leb,
  ◌==◌, if◌then◌else◌, length, all_of, any_of, Eq, nat_eq, list_eq, pair_eq, ◌=?◌, mem, Result, ok,
  err, Check, ◌>>=◌, ◌>>◌, require, or_raise, Dict, lookup, contains, insert, Text, codes, is_empty,
  is_lower_hex, strip, Platform,
}
use junca_social_ecosystem_c.BridgeProtocol.Types.{
  BridgeState, observed, finality_pending, attested, execution_ready, executed, rejected,
  BridgeError, invalid_route_digest, not_two_networks, junca_required, unsupported_destination,
  too_few_relayers, invalid_threshold, no_confirmations, invalid_limits, message_replay,
  transaction_replay, nonce_replay, unknown_message, invalid_confirmation, confirmations_decrease,
  terminal_record, unknown_relayer, duplicate_attestation, digest_mismatch, unverified_signature,
  missing_key_id, invalid_signature, not_attested, route_paused, over_transaction_limit,
  over_daily_limit, not_ready, invalid_transaction, executed_not_rejectable, missing_reason,
  bad_schema, route_mismatch, bad_governance, bad_notice, source_off_route, destination_off_route,
  same_network, direction_mismatch, bad_asset_type, zero_value, token_id_required,
  token_id_forbidden, missing_field, BridgeMessage, digest, RelayerAttestation, BridgeRecord,
  is_transaction, is_signature,
}

pub record Bridge : Type 0 where
  pub route_digest : Text
  pub allowed_networks : List Text
  pub relayer_ids : List Text
  pub threshold : ℕ
  pub required_confirmations : ℕ
  pub per_transaction_limit : ℕ
  pub daily_limit : ℕ
  pub paused : Bool
  pub records : Dict Text BridgeRecord
  pub used_source_transactions : List Text
  pub used_nonces : List (Text × ℕ)
  pub executed_value : ℕ

-- `frozenset(items)`
unfoldable pub frozenset : List Text → List Text
frozenset [] = []
frozenset (x ∷ xs) = let rest = frozenset xs in if mem x rest then rest else x ∷ rest

-- `_validate_policy`
unfoldable pub validate_policy : Bridge → Check BridgeError
validate_policy b = do
  require (length b.route_digest == 64 && all_of is_lower_hex b.route_digest) invalid_route_digest
  require (length b.allowed_networks == 2) not_two_networks
  require (mem (codes "junca-public-testnet") b.allowed_networks) junca_required
  require
      (mem (codes "bsc-testnet") b.allowed_networks || mem (codes "tron-shasta") b.allowed_networks)
      unsupported_destination
  require (leb 3 (length b.relayer_ids)) too_few_relayers
  require (leb 2 b.threshold && leb b.threshold (length b.relayer_ids)) invalid_threshold
  require (ltb 0 b.required_confirmations) no_confirmations
  require (ltb 0 b.per_transaction_limit && leb b.per_transaction_limit b.daily_limit)
      invalid_limits

-- `BridgeProtocol.__init__`
unfoldable pub make_bridge :
    Text → List Text → List Text → ℕ → ℕ → ℕ → ℕ → Bool → Result BridgeError Bridge
make_bridge route_digest networks relayers threshold confirmations limit daily paused =
    let b : Bridge = record {
      route_digest = route_digest;
      allowed_networks = frozenset networks;
      relayer_ids = frozenset relayers;
      threshold = threshold;
      required_confirmations = confirmations;
      per_transaction_limit = limit;
      daily_limit = daily;
      paused = paused;
      records = [];
      used_source_transactions = [];
      used_nonces = [];
      executed_value = 0;
    } in
    validate_policy b >> ok b

abbrev pub has_token : Option ℕ → Bool
has_token none = false
has_token (some n) = true

-- The rule on `token_id` in `_validate_message`.
unfoldable pub check_token : BridgeMessage → Check BridgeError
check_token m =
    if m.asset_type =? codes "nft"
    then require (has_token m.token_id) token_id_required
    else require (not (has_token m.token_id)) token_id_forbidden

-- `_validate_message`
unfoldable pub validate_message : Bridge → BridgeMessage → Check BridgeError
validate_message b m = do
  require (m.schema_version == 1) bad_schema
  require (m.route_digest =? b.route_digest) route_mismatch
  require (m.governance =? codes "JAIOS Institutional Governance") bad_governance
  require (m.notice =? codes "Public Testnet / No Monetary Value") bad_notice
  require (mem m.source_network b.allowed_networks) source_off_route
  require (mem m.destination_network b.allowed_networks) destination_off_route
  require (not (m.source_network =? m.destination_network)) same_network
  require (m.direction =? (m.source_network ++ (codes "->" ++ m.destination_network)))
      direction_mismatch
  require (is_transaction m.source_transaction) invalid_transaction
  require (m.asset_type =? codes "fungible" || m.asset_type =? codes "nft") bad_asset_type
  require (ltb 0 m.value) zero_value
  check_token m
  require
      (all_of (λ value. not (is_empty (strip value)))
        (m.source_asset ∷ m.destination_asset ∷ m.sender ∷ m.recipient ∷ []))
      missing_field

-- `_record`
abbrev pub record_of : Bridge → Text → Result BridgeError BridgeRecord
record_of b message_digest = or_raise (lookup message_digest b.records) unknown_message

abbrev pub is_pending : BridgeState → Bool
is_pending observed = true
is_pending finality_pending = true
is_pending _ = false

abbrev pub is_terminal : BridgeState → Bool
is_terminal executed = true
is_terminal rejected = true
is_terminal _ = false

abbrev pub is_attested : BridgeState → Bool
is_attested attested = true
is_attested _ = false

abbrev pub is_ready : BridgeState → Bool
is_ready execution_ready = true
is_ready _ = false

abbrev pub is_executed : BridgeState → Bool
is_executed executed = true
is_executed _ = false

-- The record under a digest is replaced.
abbrev pub store : Bridge → Text → BridgeRecord → BridgeRecord × Bridge
store b key r = (r, record b { records = insert key r b.records })

abbrev pub Call : Type 0
Call = Result BridgeError (BridgeRecord × Bridge)

abbrev pub new_record : BridgeMessage → BridgeRecord
new_record m = record {
  message = m;
  state = observed;
  confirmations = 0;
  attestations = [];
  execution_transaction = none;
  rejection_reason = none;
}

unfoldable pub observe : Platform → Bridge → BridgeMessage → Call
observe platform b m = do
  validate_message b m
  require (not (contains (digest platform m) b.records)) message_replay
  require (not (mem m.source_transaction b.used_source_transactions)) transaction_replay
  require (not (mem (m.source_network, m.nonce) b.used_nonces)) nonce_replay
  ok (
    new_record m,
    record b {
      records = insert (digest platform m) (new_record m) b.records;
      used_source_transactions = m.source_transaction ∷ b.used_source_transactions;
      used_nonces = (m.source_network, m.nonce) ∷ b.used_nonces;
    },
  )

-- The state that `apply_confirmations` sets.
unfoldable pub confirmed_state : Bridge → BridgeRecord → ℕ → BridgeState
confirmed_state b r confirmations =
    if leb b.required_confirmations confirmations && leb b.threshold (length r.attestations)
    then attested
    else finality_pending

unfoldable pub apply_confirmations : Bridge → Text → ℕ → Call
apply_confirmations b key confirmations = do
  r ← record_of b key
  require (is_pending r.state) invalid_confirmation
  require (leb r.confirmations confirmations) confirmations_decrease
  ok (
      store b key
        (record r { confirmations = confirmations; state = confirmed_state b r confirmations }))

-- The record with one attestation more.
unfoldable pub with_attestation : Bridge → BridgeRecord → RelayerAttestation → BridgeRecord
with_attestation b r a =
    let held = insert a.relayer_id a r.attestations in
    record r {
      attestations = held;
      state =
          if leb b.threshold (length held) && leb b.required_confirmations r.confirmations
          then attested
          else r.state;
    }

unfoldable pub attest : Platform → Bridge → RelayerAttestation → Call
attest platform b a = do
  r ← record_of b a.message_digest
  require (not (is_terminal r.state)) terminal_record
  require (mem a.relayer_id b.relayer_ids) unknown_relayer
  require (not (contains a.relayer_id r.attestations)) duplicate_attestation
  require (a.message_digest =? digest platform r.message) digest_mismatch
  require a.cryptographic_verification unverified_signature
  require (not (is_empty a.key_id)) missing_key_id
  require (is_signature a.signature) invalid_signature
  ok (store b a.message_digest (with_attestation b r a))

unfoldable pub prepare_execution : Bridge → Text → Call
prepare_execution b key = do
  r ← record_of b key
  require (is_attested r.state) not_attested
  require (not b.paused) route_paused
  require (leb r.message.value b.per_transaction_limit) over_transaction_limit
  require (leb (b.executed_value + r.message.value) b.daily_limit) over_daily_limit
  ok (store b key (record r { state = execution_ready }))

unfoldable pub mark_executed : Bridge → Text → Text → Call
mark_executed b key transaction = do
  r ← record_of b key
  require (is_ready r.state) not_ready
  require (is_transaction transaction) invalid_transaction
  ok (
      store (record b { executed_value = b.executed_value + r.message.value }) key
        (record r { execution_transaction = some transaction; state = executed }))

unfoldable pub reject : Bridge → Text → Text → Call
reject b key reason = do
  r ← record_of b key
  require (not (is_executed r.state)) executed_not_rejectable
  require (not (is_empty (strip reason))) missing_reason
  ok (store b key (record r { state = rejected; rejection_reason = some (strip reason) }))

abbrev pub set_paused : Bridge → Bool → Bridge
set_paused b paused = record b { paused = paused }

-- The calls that a client can make, and the engine after one.
pub data Op : Type 0 where
  observes : BridgeMessage → Op
  confirms : Text → ℕ → Op
  attests : RelayerAttestation → Op
  prepares : Text → Op
  executes rejects : Text → Text → Op
  pauses : Bool → Op

abbrev pub after : Bridge → Call → Bridge
after b (ok (r, b')) = b'
after b (err e) = b

unfoldable pub step : Platform → Bridge → Op → Bridge
step platform b (observes m) = after b (observe platform b m)
step platform b (confirms key n) = after b (apply_confirmations b key n)
step platform b (attests a) = after b (attest platform b a)
step platform b (prepares key) = after b (prepare_execution b key)
step platform b (executes key transaction) = after b (mark_executed b key transaction)
step platform b (rejects key reason) = after b (reject b key reason)
step platform b (pauses paused) = set_paused b paused

unfoldable pub run : Platform → Bridge → List Op → Bridge
run platform b [] = b
run platform b (op ∷ ops) = run platform (step platform b op) ops
