-- ===== src/PeerSync/Registry.antt =====
-- peer_sync.py, `PeerRegistry`: peers, their faults, and the one to synchronize from.
use junca_social_ecosystem_c.Common.{
  ℕ, ◌+◌, Bool, true, not, ◌&&◌, ◌||◌, Option, none, some, List, [], ◌∷◌, ltb, ◌==◌, length, drop,
  keep_if, nat_eq, list_eq, ◌=?◌, Result, ok, err, Check, ◌>>=◌, ◌>>◌, raise_if, or_raise, Dict,
  lookup, insert, values, min_by, text_leb, Text, codes, is_empty, lower, starts_with, parses_hex,
}
use junca_social_ecosystem_c.NodePipeline.Pipeline.{NodePipelineError}
use junca_social_ecosystem_c.StateStore.Types.{StateStoreError}

pub data PeerSyncError : Type 0 where
  bad_peer_id bad_values bad_hash bad_chain_id chain_mismatch genesis_mismatch : PeerSyncError
  height_regressed hash_conflict unknown_peer no_source : PeerSyncError
  already_active unbound_record unreadable bad_fields integrity_failure not_reconciled :
      PeerSyncError
  not_selected not_advertised other_block : PeerSyncError
  -- What the fault injector and the parts raise.
  injected : PeerSyncError
  store_error : StateStoreError → PeerSyncError
  pipeline_error : NodePipelineError → PeerSyncError

-- `_hash`
unfoldable pub check_hash : Text → Check PeerSyncError
check_hash value = do
  raise_if (not (length value == 66) || not (starts_with value (codes "0x"))) bad_hash
  raise_if (not (parses_hex (drop 2 value))) bad_hash

-- The tests of a peer's name.
abbrev pub is_bad_peer : Text → Bool
is_bad_peer peer_id = is_empty peer_id || ltb 128 (length peer_id)

pub record PeerAdvertisement : Type 0 where
  pub peer_id : Text
  pub chain_id : ℕ
  pub genesis_hash : Text
  pub finalized_height : ℕ
  pub finalized_hash : Text
  pub protocol_version : ℕ

-- `PeerAdvertisement.__post_init__`
unfoldable pub check_advertisement : PeerAdvertisement → Check PeerSyncError
check_advertisement a = do
  raise_if (is_bad_peer a.peer_id) bad_peer_id
  raise_if (a.chain_id == 0 || not (a.protocol_version == 1)) bad_values
  check_hash a.genesis_hash
  check_hash a.finalized_hash

pub record PeerRecord : Type 0 where
  pub advertisement : PeerAdvertisement
  pub fault_score : ℕ

-- `PeerRecord.eligible`
abbrev pub eligible : PeerRecord → Bool
eligible r = ltb r.fault_score 3

pub record PeerRegistry : Type 0 where
  pub chain_id : ℕ
  pub genesis_hash : Text
  pub peers : Dict Text PeerRecord

-- `PeerRegistry.__init__`
unfoldable pub make_registry : ℕ → Text → Result PeerSyncError PeerRegistry
make_registry chain_id genesis_hash = do
  raise_if (chain_id == 0) bad_chain_id
  check_hash genesis_hash
  ok (record { chain_id = chain_id; genesis_hash = lower genesis_hash; peers = [] })

-- The tests against what the peer said before, and its faults.
unfoldable pub faults_after : PeerAdvertisement → Option PeerRecord → Result PeerSyncError ℕ
faults_after a none = ok 0
faults_after a (some current) = do
  raise_if (ltb a.finalized_height current.advertisement.finalized_height) height_regressed
  raise_if
      (a.finalized_height == current.advertisement.finalized_height
        && not (lower a.finalized_hash =? lower current.advertisement.finalized_hash))
      hash_conflict
  ok current.fault_score

-- `observe`
unfoldable pub observe :
    PeerAdvertisement → PeerRegistry → Result PeerSyncError (PeerRecord × PeerRegistry)
observe a r = do
  raise_if (not (a.chain_id == r.chain_id)) chain_mismatch
  raise_if (not (lower a.genesis_hash =? r.genesis_hash)) genesis_mismatch
  faults ← faults_after a (lookup a.peer_id r.peers)
  let updated : PeerRecord = record { advertisement = a; fault_score = faults }
  ok (updated, record r { peers = insert a.peer_id updated r.peers })

-- `record_fault`
unfoldable pub record_fault : Text → PeerRegistry → Result PeerSyncError (PeerRecord × PeerRegistry)
record_fault peer_id r = do
  current ← or_raise (lookup peer_id r.peers) unknown_peer
  let updated : PeerRecord = record current { fault_score = current.fault_score + 1 }
  ok (updated, record r { peers = insert peer_id updated r.peers })

-- The store's height, which is -1 where it is empty, is below.
abbrev pub is_ahead : Option ℕ → ℕ → Bool
is_ahead none height = true
is_ahead (some local) height = ltb local height

-- The order of the keys `(-height, faults, name)`.
unfoldable pub ranks_before : PeerRecord → PeerRecord → Bool
ranks_before a b =
    ltb b.advertisement.finalized_height a.advertisement.finalized_height
    || (a.advertisement.finalized_height == b.advertisement.finalized_height
        && (ltb a.fault_score b.fault_score
            || (a.fault_score == b.fault_score
                && text_leb a.advertisement.peer_id b.advertisement.peer_id)))

abbrev pub candidates : Option ℕ → PeerRegistry → List PeerRecord
candidates local r =
    keep_if (λ p. eligible p && is_ahead local p.advertisement.finalized_height) (values r.peers)

abbrev pub best_of : List PeerRecord → Result PeerSyncError PeerRecord
best_of [] = err no_source
best_of (p ∷ rest) = ok (min_by ranks_before p rest)

-- `select_source`
unfoldable pub select_source : Option ℕ → PeerRegistry → Result PeerSyncError PeerRecord
select_source local r = best_of (candidates local r)
