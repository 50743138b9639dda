-- ===== src/NodePipeline/Kernel.antt =====
-- protocol_kernel.py and state_store.py: the accounts that a block leaves, as the store keeps them.
use junca_social_ecosystem_c.Common.{
  ℕ, ◌≡◌, refl, sym, subst, arith, Bool, true, false, not, ◌||◌, List, [], ◌∷◌, ◌==◌, nat_eq,
  list_eq, length, drop, ok, ◌>>◌, raise_if, raise_if-eq-ok, >>=-eq-ok, >>-eq-ok, ok-injective,
  contains, insert, Keyed, Keyed-insert, Keyed-sort_by, Entries, Entries-insert, All, All-sort_by,
  sort_by-Ascending, sort_by_sorted, text_leb_total, Text, codes, lower, lower_idem, length-lower,
  starts_with, starts_with-lower, parses_hex, parses_hex-lower, drop-lower, Platform,
}
use junca_social_ecosystem_c.ProtocolKernel.Types.{
  ProtocolConfig, AccountState, Accounts, TransactionEnvelope, BlockTransition, bad_address,
  chain_id_mismatch, duplicate_account, address, validate_transaction,
}
use junca_social_ecosystem_c.ProtocolKernel.Execution.{
  normalize_from, compute_state_root, sorted_accounts, Progress, transfer, settle, transition_of,
  apply_all, start, execute_block,
}
use junca_social_ecosystem_c.ProtocolKernel.Execution.Step.{
  Applied, apply_all_inv, execute_block-eq-ok,
}
use junca_social_ecosystem_c.StateStore.Types.{check_address, normalize}
use junca_social_ecosystem_c.StateStore.Accounts.{IsAddress, by_address, normalize_fixed}

-- The accounts of the loop: each address once, in the form in which the store keeps it.
pub record Addressed (state : Accounts) : Type 0 where
  pub keyed : Keyed state
  pub addresses : Entries IsAddress state

both : (a b : Bool) → (not a || not b) ≡ false → (a ≡ true) × (b ≡ true)
both a b g = ground arith

pub address-IsAddress :
    (value : Text) {key : Text} (account : AccountState)
    → address value ≡ ok key
    → (lower value ≡ key) × IsAddress key account
unfolding address check_address
address-IsAddress value {key} account h =
    let (form, more) =
      >>-eq-ok
        (raise_if (not (length value == 42) || not (starts_with value (codes "0x"))) bad_address) _
        h in
    let e =
      ok-injective (>>-eq-ok (raise_if (not (parses_hex (drop 2 value))) bad_address) _ more).1 in
    (e, subst (λ (k : Text). IsAddress k account) e (lowered, lower_idem value))
  where
    lowered : check_address (lower value) ≡ ok tt
    lowered =
        let (formed, more) =
          >>-eq-ok
            (raise_if (not (length value == 42) || not (starts_with value (codes "0x")))
              bad_address)
            _ h in
        let (digits, same) =
          >>-eq-ok (raise_if (not (parses_hex (drop 2 value))) bad_address) _ more in
        let fits =
          both (length value == 42) (starts_with value (codes "0x")) (raise_if-eq-ok _ _ formed) in
        rw
          (
            length-lower value,
            fits.0,
            starts_with-lower value fits.1,
            drop-lower value,
            parses_hex-lower (drop 2 value),
            raise_if-eq-ok _ _ digits,
          )
          refl

Addressed-insert :
    (value : Text) {key : Text} (account : AccountState) (state : Accounts)
    → address value ≡ ok key
    → Addressed state
    → Addressed (insert (lower value) account state)
Addressed-insert value account state h a =
    let (same, is) = address-IsAddress value account h in
    record {
      keyed = Keyed-insert (lower value) account state a.keyed;
      addresses =
          Entries-insert IsAddress (lower value) account state a.addresses
            (subst (λ (k : Text). IsAddress k account) (sym same) is);
    }

normalize_from-Addressed :
    (onto rest : Accounts) {state : Accounts}
    → normalize_from onto rest ≡ ok state
    → Addressed onto
    → Addressed state
unfolding normalize_from
normalize_from-Addressed onto [] h a = subst Addressed (ok-injective h) a
normalize_from-Addressed onto ((name, account) ∷ rest) h a =
    let (key, found, h1) =
      >>=-eq-ok (address name)
        (λ k.
          raise_if (contains k onto) duplicate_account
          >> normalize_from (insert k account onto) rest)
        h in
    let (fresh, h2) = >>-eq-ok (raise_if (contains key onto) duplicate_account) _ h1 in
    let same = (address-IsAddress name account found).0 in
    normalize_from-Addressed (insert key account onto) rest h2 (
      subst (λ (k : Text). Addressed (insert k account onto)) same
        (Addressed-insert name account onto found a))

-- The addresses of a transaction that the loop accepts.
validate-addresses :
    (config : ProtocolConfig) (tx : TransactionEnvelope) (base_fee : ℕ)
    → validate_transaction config tx base_fee ≡ ok tt
    → (sender : Text) × (recipient : Text) × (address tx.sender ≡ ok sender)
      × (address tx.recipient ≡ ok recipient)
unfolding validate_transaction
validate-addresses config tx base_fee h =
    let (chain, h1) =
      >>-eq-ok (raise_if (not (tx.chain_id == config.chain_id)) chain_id_mismatch) _ h in
    let (sender, found, h2) = >>=-eq-ok (address tx.sender) _ h1 in
    let (recipient, other, h3) = >>=-eq-ok (address tx.recipient) _ h2 in
    (sender, recipient, found, other)

module _ (platform : Platform) (config : ProtocolConfig) (base_fee : ℕ)
    (verifier : TransactionEnvelope → Bool) where
  Applied-Addressed :
      (index : ℕ) (tx : TransactionEnvelope) (p p' : Progress)
      → Applied platform config base_fee verifier index tx p p'
      → Addressed p.state
      → Addressed p'.state
  unfolding settle transfer
  Applied-Addressed index tx p p' applied a =
      let (sender, recipient, found, other) = validate-addresses config tx base_fee applied.valid in
      subst (λ (q : Progress). Addressed q.state) (sym applied.settled)
        (Addressed-insert tx.recipient _ _ other (Addressed-insert tx.sender _ p.state found a))

every : (txs : List TransactionEnvelope) → All (λ tx. Unit {0}) txs
every [] = tt
every (tx ∷ txs) = (tt, every txs)

state_root-sorted :
    (platform : Platform) (state : Accounts)
    → compute_state_root platform (sorted_accounts state) ≡ compute_state_root platform state
unfolding compute_state_root
state_root-sorted platform state =
    rw
      (sort_by_sorted by_address (sorted_accounts state)
        (sort_by-Ascending by_address (λ a b. text_leb_total a.0 b.0) state))
      refl

-- The accounts at the end of the loop.
pub loop-Addressed :
    (platform : Platform) (config : ProtocolConfig) (base_fee : ℕ) (accounts : Accounts)
    (txs : List TransactionEnvelope) (verifier : TransactionEnvelope → Bool) {state : Accounts}
    {p : Progress}
    → normalize_from [] accounts ≡ ok state
    → apply_all platform config base_fee verifier 0 txs (start state) ≡ ok p
    → Addressed p.state
loop-Addressed platform config base_fee accounts txs verifier {state} e1 e3 =
    apply_all_inv platform config base_fee verifier (λ q. Addressed q.state) (λ tx. Unit {0})
      (λ i tx q q' u applied a.
        Applied-Addressed platform config base_fee verifier i tx q q' applied a)
      0 txs _ (every txs) e3
      (normalize_from-Addressed [] accounts e1 (record { keyed = tt; addresses = tt }))

-- If `execute_block` accepts a block, the accounts that it leaves are a fixed point of the
-- store's `_normalize_accounts`: each address once, well formed, in lower case and in order.
-- The state root is that of these accounts, and the chain is the configuration's.
pub execute_block-Normal :
    (platform : Platform) (config : ProtocolConfig) (parent gas : ℕ) (accounts : Accounts)
    (txs : List TransactionEnvelope) (verifier : TransactionEnvelope → Bool) {t : BlockTransition}
    → execute_block platform config parent gas accounts txs verifier ≡ ok t
    → (normalize t.accounts ≡ ok t.accounts)
      × (t.state_root ≡ compute_state_root platform t.accounts)
      × (t.chain_id ≡ config.chain_id)
unfolding transition_of
execute_block-Normal platform config parent gas accounts txs verifier {t} h =
    let (state, base_fee, p, e1, e2, e3, e4) =
      execute_block-eq-ok platform config parent gas accounts txs verifier h in
    let ended = loop-Addressed platform config base_fee accounts txs verifier e1 e3 in
    subst
      (λ (u : BlockTransition).
        (normalize u.accounts ≡ ok u.accounts)
        × (u.state_root ≡ compute_state_root platform u.accounts)
        × (u.chain_id ≡ config.chain_id))
      (sym e4)
      (
        normalize_fixed (sorted_accounts p.state) (record {
          keyed = Keyed-sort_by by_address p.state ended.keyed;
          ascending = sort_by-Ascending by_address (λ a b. text_leb_total a.0 b.0) p.state;
          addresses =
              All-sort_by by_address (λ (e : Text × AccountState). IsAddress e.0 e.1) p.state
                ended.addresses;
        }),
        sym (state_root-sorted platform p.state),
        refl,
      )
