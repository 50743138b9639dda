-- ===== src/BridgeProtocol/Engine/Limits.antt =====
-- The daily limit: `prepare_execution` tests it against what is executed, and reserves nothing.
use junca_social_ecosystem_c.Common.{
  ◌+◌, ◌≤◌, ◌<◌, ◌≡◌, ◌≢◌, refl, sym, ◌∙◌, true, false, some, [], ◌∷◌, arith, nat_eq, list_eq,
  lookup, lookup-insert_self, lookup-insert_ne, Text, Platform,
}
use junca_social_ecosystem_c.BridgeProtocol.Types.{
  attested, execution_ready, executed, BridgeRecord, is_transaction,
}
use junca_social_ecosystem_c.BridgeProtocol.Engine.{
  Bridge, store, prepare_execution, mark_executed, prepares, executes, step, run,
}

-- A record that `prepare_execution` lets through.
pub record CanPrepare (b : Bridge) (key : Text) (r : BridgeRecord) : Type 0 where
  pub found : lookup key b.records ≡ some r
  pub final : r.state ≡ attested
  pub within : r.message.value ≤ b.per_transaction_limit
  pub today : b.executed_value + r.message.value ≤ b.daily_limit

prepared :
    (platform : Platform) (b : Bridge) (key : Text) (r : BridgeRecord)
    → b.paused ≡ false
    → CanPrepare b key r
    → step platform b (prepares key) ≡ (store b key (record r { state = execution_ready })).1
unfolding step prepare_execution
prepared platform b key r running c = ground (arith, c.found, c.final, c.within, c.today)

executed_one :
    (platform : Platform) (b : Bridge) (key transaction : Text) (r : BridgeRecord)
    → lookup key b.records ≡ some r
    → r.state ≡ execution_ready
    → is_transaction transaction ≡ true
    → step platform b (executes key transaction)
      ≡ (store
          (record b { executed_value = b.executed_value + r.message.value })
          key
          (record r { execution_transaction = some transaction; state = executed })).1
unfolding step mark_executed
executed_one platform b key transaction r e state valid = ground arith

-- Take a route that is not paused, and two different attested records that each fit under the
-- daily limit alone. Preparing both and then executing both succeeds, and the executed value grows
-- by both values: it exceeds the daily limit whenever their sum does.
pub daily_limit_overrun :
    (platform : Platform) (b : Bridge) (k l s t : Text) (p q : BridgeRecord)
    → b.paused ≡ false
    → k ≢ l
    → CanPrepare b k p
    → CanPrepare b l q
    → is_transaction s ≡ true
    → is_transaction t ≡ true
    → b.daily_limit < b.executed_value + p.message.value + q.message.value
    → let b' = run platform b (prepares k ∷ prepares l ∷ executes k s ∷ executes l t ∷ []) in
      (b'.executed_value ≡ b.executed_value + p.message.value + q.message.value)
      × (b'.daily_limit < b'.executed_value)
unfolding run
daily_limit_overrun platform b k l s t p q running ne ck cl vs vt over =
    rw
      (
        prepared platform b k p running ck,
        prepared platform b1 l q running cl',
        executed_one platform b2 k s _ at_k refl vs,
        executed_one platform b3 l t _ at_l refl vt,
      )
      (refl, over)
  where
    b1 : Bridge
    b1 = (store b k (record p { state = execution_ready })).1

    cl' : CanPrepare b1 l q
    cl' = record {
      found = lookup-insert_ne k l _ b.records ne ∙ cl.found;
      final = cl.final;
      within = cl.within;
      today = cl.today;
    }

    b2 : Bridge
    b2 = (store b1 l (record q { state = execution_ready })).1

    at_k : lookup k b2.records ≡ some (record p { state = execution_ready })
    at_k = lookup-insert_ne l k _ b1.records (λ e. ne (sym e)) ∙ lookup-insert_self k _ b.records

    b3 : Bridge
    b3 =
        (store (record b2 { executed_value = b2.executed_value + p.message.value }) k
          (record p { execution_transaction = some s; state = executed })).1

    at_l : lookup l b3.records ≡ some (record q { state = execution_ready })
    at_l = lookup-insert_ne k l _ b2.records ne ∙ lookup-insert_self l _ b1.records
