-- ===== src/BridgeProtocol/Engine/Sound.antt =====
-- What every record of the engine has gone through, whatever calls were made.
use junca_social_ecosystem_c.Common.{
  ℕ, ◌≤◌, ◌≡◌, ◌≢◌, refl, ap, Bool, true, false, ◌&&◌, none, some, List, [], ◌∷◌, arith,
  if◌then◌else◌, leb, length, nat_eq, list_eq, pair_eq, Bool-cases, inl, inr, mem, ok, lookup,
  contains, lookup-contains-false, insert, Entries, Entries-insert, Entries-lookup,
  length-insert_new, sum_values, sum_values-insert, sum_values-insert_new, Text, Platform,
}
use junca_social_ecosystem_c.BridgeProtocol.Types.{
  BridgeState, observed, finality_pending, attested, execution_ready, executed, rejected,
  BridgeMessage, digest, RelayerAttestation, BridgeRecord,
}
use junca_social_ecosystem_c.BridgeProtocol.Engine.Passed.{
  after-call, apply_confirmations-Found, attest-Found, prepare_execution-Found, mark_executed-Found,
  reject-Found, observe-new,
}
use junca_social_ecosystem_c.BridgeProtocol.Engine.{
  make_bridge, Bridge, is_terminal, is_executed, new_record, observe, confirmed_state,
  apply_confirmations, with_attestation, attest, prepare_execution, mark_executed, reject, Op,
  observes, confirms, attests, prepares, executes, rejects, pauses, step, run,
}

-- What each state of a record rests on, under the engine's policy.
module _ (threshold required limit : ℕ) where
  abbrev Enough : BridgeRecord → Type 0
  Enough r = (threshold ≤ length r.attestations) × (required ≤ r.confirmations)

  abbrev pub Stage : BridgeRecord → BridgeState → Type 0
  Stage r observed = Unit
  Stage r finality_pending = Unit
  Stage r attested = Enough r
  Stage r execution_ready = Enough r × (r.message.value ≤ limit)
  Stage r executed = Enough r × (r.message.value ≤ limit) × (r.execution_transaction ≢ none)
  Stage r rejected = r.rejection_reason ≢ none

confirmed-Stage :
    (b : Bridge) (r : BridgeRecord) (n limit : ℕ)
    → Stage b.threshold b.required_confirmations limit
        (record r { confirmations = n; state = confirmed_state b r n })
        (confirmed_state b r n)
unfolding confirmed_state
confirmed-Stage b r n limit =
    elim (Bool-cases (leb b.required_confirmations n && leb b.threshold (length r.attestations))) [
      | inl full ↦ rw full (ground arith, ground arith)
      | inr short ↦ rw short tt
    ]

-- More attestations take no stage away that is still open.
Stage-mono :
    (threshold required limit : ℕ) (r r' : BridgeRecord) (state : BridgeState)
    → is_terminal state ≡ false
    → length r.attestations ≤ length r'.attestations
    → r'.confirmations ≡ r.confirmations
    → r'.message ≡ r.message
    → Stage threshold required limit r state
    → Stage threshold required limit r' state
Stage-mono threshold required limit r r' observed open_state more same msg h = tt
Stage-mono threshold required limit r r' finality_pending open_state more same msg h = tt
Stage-mono threshold required limit r r' attested open_state more same msg h =
    (omega arith, omega arith)
Stage-mono threshold required limit r r' execution_ready open_state more same msg h =
    ((omega arith, omega arith), omega (arith, ap (λ (m : BridgeMessage). m.value) msg))
Stage-mono threshold required limit r r' executed open_state more same msg h = cc
Stage-mono threshold required limit r r' rejected open_state more same msg h = cc

attested-Stage :
    (b : Bridge) (r : BridgeRecord) (a : RelayerAttestation) (limit : ℕ)
    → is_terminal r.state ≡ false
    → contains a.relayer_id r.attestations ≡ false
    → Stage b.threshold b.required_confirmations limit r r.state
    → Stage b.threshold b.required_confirmations limit
        (with_attestation b r a)
        (with_attestation b r a).state
unfolding with_attestation
attested-Stage b r a limit open_state new h =
    let held = insert a.relayer_id a r.attestations in
    elim (Bool-cases
      (leb b.threshold (length held) && leb b.required_confirmations r.confirmations)) [
        | inl full ↦ rw full (ground arith, ground arith)
        | inr short ↦ rw short (
            Stage-mono b.threshold b.required_confirmations limit r
              (record r { attestations = held }) r.state open_state
              (omega (
                arith,
                length-insert_new a.relayer_id a r.attestations
                    (lookup-contains-false a.relayer_id r.attestations new),
              ))
              refl refl h)
      ]

-- An attestation that counts: by a relayer of the route, verified, for this message.
abbrev pub Signed : List Text → Text → Text → RelayerAttestation → Type 0
Signed relayers key id a =
    (a.relayer_id ≡ id)
    × (mem id relayers ≡ true)
    × (a.cryptographic_verification ≡ true)
    × (a.message_digest ≡ key)

pub record Genuine (platform : Platform) (relayers : List Text) (threshold required limit : ℕ)
    (key : Text) (r : BridgeRecord) : Type 0 where
  pub keyed : digest platform r.message ≡ key
  pub stage : Stage threshold required limit r r.state
  pub signed : Entries (Signed relayers key) r.attestations

-- What a record adds to the executed value.
abbrev pub paid : BridgeRecord → ℕ
paid r = if is_executed r.state then r.message.value else 0

module _ (platform : Platform) where
  abbrev pub GenuineIn : Bridge → Text → BridgeRecord → Type 0
  GenuineIn b =
      Genuine platform b.relayer_ids b.threshold b.required_confirmations b.per_transaction_limit

  -- Every record stands under its message's digest, has verified attestations of the route's
  -- relayers only, and has earned its state; the executed value is the sum of the executed
  -- messages' values.
  pub record Sound (b : Bridge) : Type 0 where
    pub genuine : Entries (GenuineIn b) b.records
    pub accounted : b.executed_value ≡ sum_values paid b.records

  store-Sound :
      (b : Bridge) (key : Text) (r r' : BridgeRecord)
      → lookup key b.records ≡ some r
      → paid r' ≡ paid r
      → GenuineIn b key r'
      → Sound b
      → Sound (record b { records = insert key r' b.records })
  store-Sound b key r r' found same g s = record {
    genuine = Entries-insert (GenuineIn b) key r' b.records s.genuine g;
    accounted = omega (arith, sum_values-insert paid key r' r b.records found, s.accounted);
  }

  pub found-Genuine :
      (b : Bridge)
      → Sound b
      → (key : Text) (r : BridgeRecord) → lookup key b.records ≡ some r
      → GenuineIn b key r
  found-Genuine b s key r e = Entries-lookup (GenuineIn b) key r b.records s.genuine e

  module _ (b : Bridge) {r' : BridgeRecord} {b' : Bridge} (s : Sound b) where
    apply_confirmations-Sound :
        (key : Text) (n : ℕ) → apply_confirmations b key n ≡ ok (r', b') → Sound b'
    unfolding confirmed_state
    apply_confirmations-Sound key n h =
        let (r, e, pending, grows, er, eb) = apply_confirmations-Found b key n h in
        let g = found-Genuine b s key r e in
        rw (eb, er)
          (store-Sound b key r _ e (ground arith)
            (record {
              keyed = g.keyed;
              stage = confirmed-Stage b r n b.per_transaction_limit;
              signed = g.signed;
            })
            s)

    attest-Sound : (a : RelayerAttestation) → attest platform b a ≡ ok (r', b') → Sound b'
    unfolding with_attestation
    attest-Sound a h =
        let (r, e, open_record, member, new, verified, er, eb) = attest-Found b platform a h in
        let g = found-Genuine b s a.message_digest r e in
        rw (eb, er)
          (store-Sound b a.message_digest r _ e (ground arith)
            (record {
              keyed = g.keyed;
              stage = attested-Stage b r a b.per_transaction_limit open_record new g.stage;
              signed =
                  Entries-insert (Signed b.relayer_ids a.message_digest) a.relayer_id a
                    r.attestations g.signed (refl, member, verified, refl);
            })
            s)

    prepare_execution-Sound : (key : Text) → prepare_execution b key ≡ ok (r', b') → Sound b'
    prepare_execution-Sound key h =
        let (r, e, state, _, fits, _, er, eb) = prepare_execution-Found b key h in
        let g = found-Genuine b s key r e in
        rw (eb, er)
          (store-Sound b key r _ e (ground arith)
            (record { keyed = g.keyed; stage = (rw state at g.stage, fits); signed = g.signed }) s)

    mark_executed-Sound :
        (key transaction : Text) → mark_executed b key transaction ≡ ok (r', b') → Sound b'
    mark_executed-Sound key transaction h =
        let (r, e, state, er, eb) = mark_executed-Found b key transaction h in
        let g = found-Genuine b s key r e in
        let earned = rw state at g.stage in
        rw (eb, er)
          (record {
            genuine = Entries-insert (GenuineIn b) key _ b.records s.genuine (record {
              keyed = g.keyed;
              stage = (earned.0, earned.1, λ f. cc);
              signed = g.signed;
            });
            accounted =
                let unpaid : paid r ≡ 0 = rw state in
                omega (
                  arith,
                  sum_values-insert paid key
                      (record r { execution_transaction = some transaction; state = executed }) r
                      b.records e,
                  s.accounted,
                  unpaid,
                );
          })

    reject-Sound : (key reason : Text) → reject b key reason ≡ ok (r', b') → Sound b'
    reject-Sound key reason h =
        let (r, e, running, er, eb) = reject-Found b key reason h in
        let g = found-Genuine b s key r e in
        rw (eb, er)
          (store-Sound b key r _ e (ground arith)
            (record { keyed = g.keyed; stage = (λ f. cc); signed = g.signed }) s)

    observe-Sound : (m : BridgeMessage) → observe platform b m ≡ ok (r', b') → Sound b'
    observe-Sound m h =
        let (new, _, _, eb) = observe-new b platform m h in
        rw eb (record {
          genuine =
              Entries-insert (GenuineIn b) (digest platform m) (new_record m) b.records s.genuine
                (record { keyed = refl; stage = tt; signed = tt });
          accounted = omega (
            arith,
            sum_values-insert_new paid (digest platform m) (new_record m) b.records new,
            s.accounted,
          );
        })

  -- Every call, also one that is refused, keeps the engine sound: each record stands under its
  -- message's digest, its attestations are verified, for this message and by relayers of the
  -- route; it is attested, ready or executed only with the threshold of attestations and the
  -- required confirmations, ready or executed only within the per-transaction limit; and the
  -- executed value is the sum over the executed messages.
  pub step-Sound : (b : Bridge) (op : Op) → Sound b → Sound (step platform b op)
  unfolding step
  step-Sound b (observes m) s =
      after-call b Sound (observe platform b m) s (λ r' b' h. observe-Sound b s m h)
  step-Sound b (confirms key n) s =
      after-call b Sound (apply_confirmations b key n) s
        (λ r' b' h. apply_confirmations-Sound b s key n h)
  step-Sound b (attests a) s =
      after-call b Sound (attest platform b a) s (λ r' b' h. attest-Sound b s a h)
  step-Sound b (prepares key) s =
      after-call b Sound (prepare_execution b key) s (λ r' b' h. prepare_execution-Sound b s key h)
  step-Sound b (executes key transaction) s =
      after-call b Sound (mark_executed b key transaction) s
        (λ r' b' h. mark_executed-Sound b s key transaction h)
  step-Sound b (rejects key reason) s =
      after-call b Sound (reject b key reason) s (λ r' b' h. reject-Sound b s key reason h)
  step-Sound b (pauses paused) s = record { genuine = s.genuine; accounted = s.accounted }

  run-Sound : (b : Bridge) (ops : List Op) → Sound b → Sound (run platform b ops)
  unfolding run
  run-Sound b [] s = s
  run-Sound b (op ∷ ops) s = run-Sound (step platform b op) ops (step-Sound b op s)

  -- An engine that the constructor accepts is sound after any history of calls: every record
  -- stands under its message's digest, has verified attestations of the route's relayers only
  -- and has earned its state, and the executed value is the sum of the executed messages'
  -- values.
  pub make_bridge-run-Sound :
      (route_digest : Text) (networks relayers : List Text)
      (threshold confirmations limit daily : ℕ) (paused : Bool) {b : Bridge} (ops : List Op)
      → make_bridge route_digest networks relayers threshold confirmations limit daily paused ≡ ok b
      → Sound (run platform b ops)
  unfolding make_bridge
  make_bridge-run-Sound route_digest networks relayers threshold confirmations limit daily paused
        {b} ops h =
      let empty_records : b.records ≡ [] = ground arith in
      let nothing_paid : b.executed_value ≡ 0 = ground arith in
      run-Sound b ops (record {
        genuine = rw empty_records tt;
        accounted = rw (empty_records, nothing_paid) refl;
      })
