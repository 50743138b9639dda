-- ===== src/BridgeProtocol/Types.antt =====
-- bridge_protocol.py: messages, attestations and records. Integers that the code requires to be
-- non-negative are of type ℕ. REQUIRED_GOVERNANCE and REQUIRED_NOTICE are interoperability.py's.
use junca_social_ecosystem_c.Common.{
  ℕ, Bool, ◌&&◌, Option, none, some, [], ◌∷◌, ◌++◌, leb, ◌==◌, if◌then◌else◌, length, drop, all_of,
  Dict, Text, codes, is_hex, starts_with, Json, object, text, number, null, end, field, Platform,
}

pub data BridgeState : Type 0 where
  observed finality_pending attested execution_ready executed rejected : BridgeState

pub data BridgeError : Type 0 where
  invalid_route_digest not_two_networks junca_required unsupported_destination : BridgeError
  too_few_relayers invalid_threshold no_confirmations invalid_limits : BridgeError
  message_replay transaction_replay nonce_replay unknown_message : BridgeError
  invalid_confirmation confirmations_decrease terminal_record unknown_relayer : BridgeError
  duplicate_attestation digest_mismatch unverified_signature missing_key_id : BridgeError
  invalid_signature not_attested route_paused over_transaction_limit over_daily_limit : BridgeError
  not_ready invalid_transaction executed_not_rejectable missing_reason : BridgeError
  bad_schema route_mismatch bad_governance bad_notice source_off_route : BridgeError
  destination_off_route same_network direction_mismatch bad_asset_type zero_value : BridgeError
  token_id_required token_id_forbidden missing_field : BridgeError

pub record BridgeMessage : Type 0 where
  pub route_digest : Text
  pub direction : Text
  pub source_network : Text
  pub destination_network : Text
  pub nonce : ℕ
  pub source_transaction : Text
  pub source_block : ℕ
  pub asset_type : Text
  pub source_asset : Text
  pub destination_asset : Text
  pub sender : Text
  pub recipient : Text
  pub value : ℕ
  pub token_id : Option ℕ
  pub governance : Text
  pub notice : Text
  pub schema_version : ℕ

abbrev pub optional : Option ℕ → Json
optional none = null
optional (some n) = number n

unfoldable pub canonical_payload : BridgeMessage → Json
canonical_payload m = object (
    field (codes "asset_type") (text m.asset_type) (
      field (codes "destination_asset") (text m.destination_asset) (
        field (codes "destination_network") (text m.destination_network) (
          field (codes "direction") (text m.direction) (
            field (codes "governance") (text m.governance) (
              field (codes "nonce") (number m.nonce) (
                field (codes "notice") (text m.notice) (
                  field (codes "recipient") (text m.recipient) (
                    field (codes "route_digest") (text m.route_digest) (
                      field (codes "schema_version") (number m.schema_version) (
                        field (codes "sender") (text m.sender) (
                          field (codes "source_asset") (text m.source_asset) (
                            field (codes "source_block") (number m.source_block) (
                              field (codes "source_network") (text m.source_network) (
                                field (codes "source_transaction") (text m.source_transaction) (
                                  field (codes "token_id") (optional m.token_id)
                                    (field (codes "value") (number m.value) end)))))))))))))))))

unfoldable pub digest : Platform → BridgeMessage → Text
unfolding canonical_payload
digest platform m =
    platform.sha256
      ((codes "JUNCA_BRIDGE_MESSAGE_V1" ++ 0 ∷ []) ++ platform.dumps (canonical_payload m))

pub record RelayerAttestation : Type 0 where
  pub relayer_id : Text
  pub message_digest : Text
  pub key_id : Text
  pub signature : Text
  pub cryptographic_verification : Bool

pub record BridgeRecord : Type 0 where
  pub message : BridgeMessage
  pub state : BridgeState
  pub confirmations : ℕ
  pub attestations : Dict Text RelayerAttestation
  pub execution_transaction : Option Text
  pub rejection_reason : Option Text

-- `(0x)?` of a pattern, dropped. No text of hexadecimal digits begins with `0x`.
abbrev pub drop_0x : Text → Text
drop_0x s = if starts_with s (codes "0x") then drop 2 s else s

-- `re.fullmatch(r"(0x)?[0-9a-fA-F]{64}", s)`
unfoldable pub is_transaction : Text → Bool
is_transaction s = length (drop_0x s) == 64 && all_of is_hex (drop_0x s)

-- `re.fullmatch(r"(0x)?[0-9a-fA-F]{128,}", s)`
unfoldable pub is_signature : Text → Bool
is_signature s = leb 128 (length (drop_0x s)) && all_of is_hex (drop_0x s)
