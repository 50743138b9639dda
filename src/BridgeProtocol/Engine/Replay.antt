-- ===== src/BridgeProtocol/Engine/Replay.antt =====
-- What no later call undoes: executed records, and the marks against replay.
use junca_social_ecosystem_c.Common.{
  ℕ, ◌≡◌, ◌≢◌, ◌⊎◌, inl, inr, true, false, some, List, [], ◌∷◌, arith, nat_eq, list_eq, pair_eq,
  beq_refl, mem, text_iff, ok, lookup, insert, lookup-insert, lookup-insert_new, Text, Platform,
}
use junca_social_ecosystem_c.BridgeProtocol.Types.{executed, BridgeMessage, digest, BridgeRecord}
use junca_social_ecosystem_c.BridgeProtocol.Engine.Passed.{
  after-call, apply_confirmations-Found, attest-Found, prepare_execution-Found, mark_executed-Found,
  reject-Found, observe-new,
}
use junca_social_ecosystem_c.BridgeProtocol.Engine.{
  Bridge, is_executed, observe, apply_confirmations, attest, prepare_execution, mark_executed,
  reject, Op, observes, confirms, attests, prepares, executes, rejects, pauses, step, run,
}

-- What stands after a call: the executed records, and the marks against replay.
pub record Retains (b b' : Bridge) : Type 0 where
  pub settled :
      (key : Text) (r : BridgeRecord)
      → lookup key b.records ≡ some r
      → r.state ≡ executed
      → lookup key b'.records ≡ some r
  pub transactions :
      (t : Text)
      → mem t b.used_source_transactions ≡ true
      → mem t b'.used_source_transactions ≡ true
  pub nonces : (n : Text × ℕ) → mem n b.used_nonces ≡ true → mem n b'.used_nonces ≡ true

Retains-refl : (b : Bridge) → Retains b b
Retains-refl b = record { settled = λ key r e x. e; transactions = λ t h. h; nonces = λ n h. h }

Retains-trans : (a b c : Bridge) → Retains a b → Retains b c → Retains a c
Retains-trans a b c f g = record {
  settled = λ key r e x. g.settled key r (f.settled key r e x) x;
  transactions = λ t h. g.transactions t (f.transactions t h);
  nonces = λ n h. g.nonces n (f.nonces n h);
}

-- A write under another record's digest, or over a record that is not executed.
write-Retains :
    (b : Bridge) (key : Text) (old r' : BridgeRecord) (value : ℕ)
    → lookup key b.records ≡ some old
    → is_executed old.state ≡ false
    → Retains b (record b { records = insert key r' b.records; executed_value = value })
write-Retains b key old r' value e running = record {
  settled = λ k r f x. keep k r f x;
  transactions = λ t h. h;
  nonces = λ n h. h;
}
  where
    keep :
        (k : Text) (r : BridgeRecord)
        → lookup k b.records ≡ some r
        → r.state ≡ executed
        → lookup k (insert key r' b.records) ≡ some r
    keep k r f x = ground (arith, lookup-insert key k r' b.records, text_iff key k)

module _ (platform : Platform) where
  -- No call changes an executed record, or frees a source transaction or a source nonce that was
  -- used.
  pub step-Retains : (b : Bridge) (op : Op) → Retains b (step platform b op)
  unfolding step
  step-Retains b (observes m) =
      after-call b (Retains b) (observe platform b m) (Retains-refl b) λ r' b' h.
        let (new, _, _, eb) = observe-new b platform m h in
        rw eb (record {
          settled = λ key r e x. lookup-insert_new (digest platform m) key _ b.records new e;
          transactions = λ t u. ground arith;
          nonces = λ n u. ground arith;
        })
  step-Retains b (confirms key n) =
      after-call b (Retains b) (apply_confirmations b key n) (Retains-refl b) λ r' b' h.
        let (r, e, pending, _, _, eb) = apply_confirmations-Found b key n h in
        rw eb (write-Retains b key r r' b.executed_value e (ground arith))
  step-Retains b (attests a) =
      after-call b (Retains b) (attest platform b a) (Retains-refl b) λ r' b' h.
        let (r, e, open_record, _, _, _, _, eb) = attest-Found b platform a h in
        rw eb (write-Retains b a.message_digest r r' b.executed_value e (ground arith))
  step-Retains b (prepares key) =
      after-call b (Retains b) (prepare_execution b key) (Retains-refl b) λ r' b' h.
        let (r, e, state, _, _, _, _, eb) = prepare_execution-Found b key h in
        rw eb (write-Retains b key r r' b.executed_value e (rw state))
  step-Retains b (executes key transaction) =
      after-call b (Retains b) (mark_executed b key transaction) (Retains-refl b) λ r' b' h.
        let (r, e, state, _, eb) = mark_executed-Found b key transaction h in
        rw eb (write-Retains b key r r' _ e (rw state))
  step-Retains b (rejects key reason) =
      after-call b (Retains b) (reject b key reason) (Retains-refl b) λ r' b' h.
        let (r, e, running, _, eb) = reject-Found b key reason h in
        rw eb (write-Retains b key r r' b.executed_value e running)
  step-Retains b (pauses paused) = record {
    settled = λ key r e x. e;
    transactions = λ t h. h;
    nonces = λ n h. h;
  }

  run-Retains : (b : Bridge) (ops : List Op) → Retains b (run platform b ops)
  unfolding run
  run-Retains b [] = Retains-refl b
  run-Retains b (op ∷ ops) =
      Retains-trans b (step platform b op) (run platform (step platform b op) ops)
        (step-Retains b op) (run-Retains (step platform b op) ops)

  -- Once a record is executed, no history of calls changes it: its message is executed once, under
  -- one execution transaction.
  pub executed_forever :
      (b : Bridge) (ops : List Op) (key : Text) (r : BridgeRecord)
      → lookup key b.records ≡ some r
      → r.state ≡ executed
      → lookup key (run platform b ops).records ≡ some r
  executed_forever b ops key r e x = (run-Retains b ops).settled key r e x

  -- Once a message is observed, no history of calls lets a message with the same source
  -- transaction, or with the same source network and nonce, be observed again.
  pub observe_once :
      (b : Bridge) (m n : BridgeMessage) (ops : List Op) {r r' : BridgeRecord} {b' b'' : Bridge}
      → observe platform b m ≡ ok (r, b')
      → (n.source_transaction ≡ m.source_transaction)
        ⊎ ((n.source_network ≡ m.source_network) × (n.nonce ≡ m.nonce))
      → observe platform (run platform b' ops) n ≢ ok (r', b'')
  observe_once b m n ops {r} {r'} {b'} {b''} h (inl same) again =
      let (_, _, _, eb) = observe-new b platform m h in
      let (_, fresh, _, _) = observe-new (run platform b' ops) platform n again in
      let marked = (run-Retains b' ops).transactions m.source_transaction (rw eb (used_self m b)) in
      ground (arith)
    where
      used_self :
          (m : BridgeMessage) (b : Bridge)
          → mem m.source_transaction (m.source_transaction ∷ b.used_source_transactions) ≡ true
      used_self m b = rw (beq_refl m.source_transaction)
  observe_once b m n ops {r} {r'} {b'} {b''} h (inr same) again =
      let (_, _, _, eb) = observe-new b platform m h in
      let (_, _, fresh, _) = observe-new (run platform b' ops) platform n again in
      let marked =
        (run-Retains b' ops).nonces (m.source_network, m.nonce) (rw eb (used_self m b)) in
      ground (arith)
    where
      used_self :
          (m : BridgeMessage) (b : Bridge)
          → mem (m.source_network, m.nonce) ((m.source_network, m.nonce) ∷ b.used_nonces) ≡ true
      used_self m b = rw (beq_refl {A = Text × ℕ} (m.source_network, m.nonce))
