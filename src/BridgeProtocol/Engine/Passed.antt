-- ===== src/BridgeProtocol/Engine/Passed.antt =====
-- What a call that returned has passed, and what it wrote.
use junca_social_ecosystem_c.Common.{
  ℕ, ◌+◌, ◌≤◌, ◌≡◌, refl, true, false, none, some, ◌∷◌, arith, nat_eq, list_eq, pair_eq,
  Option-cases, strip, inl, inr, mem, ok, err, lookup, contains, lookup-contains-false, insert,
  Text, Platform,
}
use junca_social_ecosystem_c.BridgeProtocol.Types.{
  attested, execution_ready, executed, rejected, BridgeMessage, digest, RelayerAttestation,
  BridgeRecord,
}
use junca_social_ecosystem_c.BridgeProtocol.Engine.{
  store, Bridge, Call, is_pending, is_terminal, is_executed, new_record, observe, confirmed_state,
  apply_confirmations, with_attestation, attest, prepare_execution, mark_executed, reject, after,
}

-- A statement about the engine after a call holds if it held before and holds after each call
-- that returns.
pub after-call {ℓ} :
    (b : Bridge) (P : Bridge → Type ℓ) (c : Call)
    → P b
    → ((r : BridgeRecord) (b' : Bridge) → c ≡ ok (r, b') → P b')
    → P (after b c)
after-call b P (ok (r, b')) h k = k r b' refl
after-call b P (err e) h k = h

module _ (b : Bridge) {r' : BridgeRecord} {b' : Bridge} where
  pub apply_confirmations-Found :
      (key : Text) (n : ℕ)
      → apply_confirmations b key n ≡ ok (r', b')
      → (r : BridgeRecord) × (lookup key b.records ≡ some r)
        × (is_pending r.state ≡ true)
        × (r.confirmations ≤ n)
        × (r' ≡ record r { confirmations = n; state = confirmed_state b r n })
        × (b' ≡ (store b key r').1)
  unfolding apply_confirmations
  apply_confirmations-Found key n h = elim (Option-cases (lookup key b.records)) [
    | inl missing ↦ absurd (ground arith)
    | inr (r, e) ↦ (r, e, ground arith, ground arith, ground arith, ground arith)
  ]

  pub attest-Found :
      (platform : Platform) (a : RelayerAttestation)
      → attest platform b a ≡ ok (r', b')
      → (r : BridgeRecord) × (lookup a.message_digest b.records ≡ some r)
        × (is_terminal r.state ≡ false)
        × (mem a.relayer_id b.relayer_ids ≡ true)
        × (contains a.relayer_id r.attestations ≡ false)
        × (a.cryptographic_verification ≡ true)
        × (r' ≡ with_attestation b r a)
        × (b' ≡ (store b a.message_digest r').1)
  unfolding attest
  attest-Found platform a h = elim (Option-cases (lookup a.message_digest b.records)) [
    | inl missing ↦ absurd (ground arith)
    | inr (r, e) ↦
        (r, e, ground arith, ground arith, ground arith, ground arith, ground arith, ground arith)
  ]

  pub prepare_execution-Found :
      (key : Text)
      → prepare_execution b key ≡ ok (r', b')
      → (r : BridgeRecord) × (lookup key b.records ≡ some r)
        × (r.state ≡ attested)
        × (b.paused ≡ false)
        × (r.message.value ≤ b.per_transaction_limit)
        × (b.executed_value + r.message.value ≤ b.daily_limit)
        × (r' ≡ record r { state = execution_ready })
        × (b' ≡ (store b key r').1)
  unfolding prepare_execution
  prepare_execution-Found key h = elim (Option-cases (lookup key b.records)) [
    | inl missing ↦ absurd (ground arith)
    | inr (r, e) ↦
        (r, e, ground arith, ground arith, ground arith, ground arith, ground arith, ground arith)
  ]

  pub mark_executed-Found :
      (key transaction : Text)
      → mark_executed b key transaction ≡ ok (r', b')
      → (r : BridgeRecord) × (lookup key b.records ≡ some r)
        × (r.state ≡ execution_ready)
        × (r' ≡ record r { execution_transaction = some transaction; state = executed })
        × (b' ≡ (store (record b { executed_value = b.executed_value + r.message.value }) key r').1)
  unfolding mark_executed
  mark_executed-Found key transaction h = elim (Option-cases (lookup key b.records)) [
    | inl missing ↦ absurd (ground arith)
    | inr (r, e) ↦ (r, e, ground arith, ground arith, ground arith)
  ]

  pub reject-Found :
      (key reason : Text)
      → reject b key reason ≡ ok (r', b')
      → (r : BridgeRecord) × (lookup key b.records ≡ some r)
        × (is_executed r.state ≡ false)
        × (r' ≡ record r { state = rejected; rejection_reason = some (strip reason) })
        × (b' ≡ (store b key r').1)
  unfolding reject
  reject-Found key reason h = elim (Option-cases (lookup key b.records)) [
    | inl missing ↦ absurd (ground arith)
    | inr (r, e) ↦ (r, e, ground arith, ground arith, ground arith)
  ]

  pub observe-new :
      (platform : Platform) (m : BridgeMessage)
      → observe platform b m ≡ ok (r', b')
      → (lookup (digest platform m) b.records ≡ none)
        × (mem m.source_transaction b.used_source_transactions ≡ false)
        × (mem (m.source_network, m.nonce) b.used_nonces ≡ false)
        × (b' ≡ record b {
          records = insert (digest platform m) (new_record m) b.records;
          used_source_transactions = m.source_transaction ∷ b.used_source_transactions;
          used_nonces = (m.source_network, m.nonce) ∷ b.used_nonces;
        })
  unfolding observe
  observe-new platform m h =
      (lookup-contains-false _ b.records (ground arith), ground arith, ground arith, ground arith)
