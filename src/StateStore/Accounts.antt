-- ===== src/StateStore/Accounts.antt =====
-- state_store.py: account snapshots in the form in which `_normalize_accounts` leaves them, and
-- what `json.dumps` and `json.loads` document of each other.
use junca_social_ecosystem_c.Common.{
  ◌≡◌, refl, ap, ◌∙◌, sym, inl, inr, arith, Bool, true, false, not, ◌&&◌, none, some, [], ◌∷◌, ◌++◌,
  nat_eq, list_eq, ◌=?◌, beq_refl, append_assoc, ok, raise_if, >>=-eq-ok, >>-eq-ok, lookup,
  contains, insert, Keyed, Keyed-insert, Keyed-sort_by, Entries, Entries-insert, All-sort_by,
  text_leb, Ascending, subst, text_iff, append-nil, sort_by-Ascending, sort_by_sorted,
  text_leb_total, text_leb_antisym, Text, Bytes, codes, lower, lower_idem, Json, Items, Fields,
  array, object, nil, cons, end, field, Platform, ok-injective, Bool-cases,
}
use junca_social_ecosystem_c.ProtocolKernel.Types.{AccountState, Accounts}
use junca_social_ecosystem_c.StateStore.Types.{
  bad_snapshot, check_hash, check_address, normalize_onto, normalize, sorted_items, account_fields,
  decode_account, decode_onto, decode_accounts, Loads, accounts_json, decode_value,
  decode_accounts_json,
}

-- An address as the store keeps it.
abbrev pub IsAddress : Text → AccountState → Type 0
IsAddress name account = (check_address name ≡ ok tt) × (lower name ≡ name)

-- The order of the addresses.
abbrev pub by_address : Text × AccountState → Text × AccountState → Bool
by_address a b = text_leb a.0 b.0

-- Each address once, in lower case, in ascending order.
pub record Normal (accounts : Accounts) : Type 0 where
  pub keyed : Keyed accounts
  pub ascending : Ascending by_address accounts
  pub addresses : Entries IsAddress accounts

normalize_onto_sound :
    (onto rest : Accounts) {result : Accounts}
    → normalize_onto onto rest ≡ ok result
    → Keyed onto
    → Entries IsAddress onto
    → Keyed result × Entries IsAddress result
unfolding normalize_onto
normalize_onto_sound onto [] h k a =
    let e : onto ≡ _ = ok-injective h in (subst Keyed e k, subst (Entries IsAddress) e a)
normalize_onto_sound onto ((name, account) ∷ rest) h k a =
    let (address, further) = >>-eq-ok (check_address (lower name)) _ h in
    let (fresh, more) = >>-eq-ok (raise_if (contains (lower name) onto) bad_snapshot) _ further in
    normalize_onto_sound (insert (lower name) account onto) rest more
      (Keyed-insert (lower name) account onto k)
      (Entries-insert IsAddress (lower name) account onto a (address, lower_idem name))

pub normalize-Normal :
    (accounts : Accounts) {result : Accounts} → normalize accounts ≡ ok result → Normal result
unfolding normalize
normalize-Normal accounts h =
    let (onto, loop, sorted) = >>=-eq-ok (normalize_onto [] accounts) _ h in
    let (keyed, addresses) = normalize_onto_sound [] accounts loop tt tt in
    subst Normal (ok-injective sorted) (record {
      keyed = Keyed-sort_by by_address onto keyed;
      ascending = sort_by-Ascending by_address (λ a b. text_leb_total a.0 b.0) onto;
      addresses =
          All-sort_by by_address (λ (e : Text × AccountState). IsAddress e.0 e.1) onto addresses;
    })

later_key :
    (j k : Text) (v : AccountState) (d e : Accounts)
    → lookup j (d ++ ((k, v) ∷ e)) ≡ none
    → (j =? k) ≡ false
later_key j k v [] e g = ground (arith, text_iff j k, text_iff k j)
later_key j k v ((i, u) ∷ d) e g = elim (Bool-cases (i =? j)) [
  | inl same ↦ let gone : some u ≡ none = rw same at g in absurd (cc)
  | inr other ↦ later_key j k v d e (rw other at g)
]

-- A new key is written at the end.
insert_last :
    (name : Text) (account : AccountState) (onto rest : Accounts)
    → Keyed (onto ++ ((name, account) ∷ rest))
    → (lookup name onto ≡ none) × (insert name account onto ≡ onto ++ ((name, account) ∷ []))
insert_last name account [] rest h = (refl, refl)
insert_last name account ((other, w) ∷ onto) rest h =
    let apart = later_key other name account onto rest h.0 in
    let (fresh, last) = insert_last name account onto rest h.1 in
    (rw apart fresh, rw apart (ap (λ (d : Accounts). (other, w) ∷ d) last))

step_of :
    (name : Text) (account : AccountState) (onto rest : Accounts) {total : Accounts}
    → onto ++ ((name, account) ∷ rest) ≡ total
    → Keyed total
    → (lookup name onto ≡ none) × (insert name account onto ++ rest ≡ total)
step_of name account onto rest e k =
    let (fresh, last) = insert_last name account onto rest (subst Keyed (sym e) k) in
    (
      fresh,
      ap (λ (d : Accounts). d ++ rest) last ∙ append_assoc onto ((name, account) ∷ []) rest ∙ e,
    )

normalize_onto_fixed :
    (onto rest : Accounts) {total : Accounts}
    → onto ++ rest ≡ total
    → Keyed total
    → Entries IsAddress rest
    → normalize_onto onto rest ≡ ok total
unfolding normalize_onto
normalize_onto_fixed onto [] e k a = ap (λ (d : Accounts). ok d) (sym (append-nil onto) ∙ e)
normalize_onto_fixed onto ((name, account) ∷ rest) e k a =
    let (fresh, further) = step_of name account onto rest e k in
    rw (a.0.1, a.0.0)
      (rw (fresh, contains) (normalize_onto_fixed (insert name account onto) rest further k a.1))

decode_onto-account_fields :
    (onto rest : Accounts) {total : Accounts}
    → onto ++ rest ≡ total
    → Keyed total
    → decode_onto onto (account_fields rest) ≡ ok total
unfolding decode_onto decode_account account_fields
decode_onto-account_fields onto [] e k = ap (λ (d : Accounts). ok d) (sym (append-nil onto) ∙ e)
decode_onto-account_fields onto ((name, account) ∷ rest) e k =
    decode_onto-account_fields (insert name account onto) rest
      (step_of name account onto rest e k).1 k

pub sorted_items-Normal : (accounts : Accounts) → Normal accounts → sorted_items accounts ≡ accounts
sorted_items-Normal accounts h = sort_by_sorted by_address accounts h.ascending

-- What is normal stays as it is.
pub normalize_fixed : (accounts : Accounts) → Normal accounts → normalize accounts ≡ ok accounts
unfolding normalize
normalize_fixed accounts h =
    rw (normalize_onto_fixed [] accounts refl h.keyed h.addresses)
      (ap (λ (d : Accounts). ok d) (sorted_items-Normal accounts h))

-- What a snapshot's object is read as.
pub decode_accounts-account_fields :
    (accounts : Accounts)
    → Normal accounts
    → decode_accounts (account_fields accounts) ≡ ok accounts
unfolding decode_accounts
decode_accounts-account_fields accounts h =
    rw (decode_onto-account_fields [] accounts refl h.keyed) (normalize_fixed accounts h)

-- A document whose objects list their fields in ascending order, each once.
abbrev pub first_after : Text → Fields → Bool
first_after key end = true
first_after key (field next v rest) = not (text_leb next key)

unfoldable mutual
  pub is_sorted : Json → Bool
  is_sorted (array items) = are_sorted items
  is_sorted (object fields) = has_sorted fields
  is_sorted j = true

  pub are_sorted : Items → Bool
  are_sorted nil = true
  are_sorted (cons j items) = is_sorted j && are_sorted items

  pub has_sorted : Fields → Bool
  has_sorted end = true
  has_sorted (field key j rest) = first_after key rest && is_sorted j && has_sorted rest

first_after-sorted :
    (name : Text) (account : AccountState) (rest : Accounts)
    → Keyed ((name, account) ∷ rest)
    → Ascending by_address ((name, account) ∷ rest)
    → first_after name (account_fields rest) ≡ true
unfolding account_fields
first_after-sorted name account [] k a = refl
first_after-sorted name account ((next, w) ∷ rest) k a = elim (Bool-cases (text_leb next name)) [
  | inl back ↦
      let same = (text_iff next name).1 (text_leb_antisym next name back a.0) in
      let gone : some w ≡ none = rw same at k.0 in absurd (cc)
  | inr after ↦ rw after refl
]

has_sorted-accounts :
    (accounts : Accounts)
    → Keyed accounts
    → Ascending by_address accounts
    → has_sorted (account_fields accounts) ≡ true
unfolding has_sorted account_fields
has_sorted-accounts [] k a = refl
has_sorted-accounts ((name, account) ∷ []) k a = refl
has_sorted-accounts ((name, account) ∷ (next, w) ∷ rest) k a =
    rw
      (
        first_after-sorted name account ((next, w) ∷ rest) k a,
        has_sorted-accounts ((next, w) ∷ rest) k.1 a.1,
      )
      refl

-- What `json` and `hashlib` document: a document is read as it was written, the empty list is
-- written `[]`, and a digest is 64 digits in lower case.
pub record Documented (platform : Platform) (loads : Loads) : Type 0 where
  pub reads : (j : Json) → is_sorted j ≡ true → loads (platform.dumps j) ≡ some j
  pub empty_list : platform.dumps (array nil) ≡ codes "[]"
  pub formed : (b : Bytes) → check_hash (codes "0x" ++ platform.sha256 b) ≡ ok tt
  pub lowered :
      (b : Bytes) → lower (codes "0x" ++ platform.sha256 b) ≡ codes "0x" ++ platform.sha256 b

module _ (platform : Platform) (loads : Loads) (law : Documented platform loads) where
  -- A stored snapshot is read back.
  pub decode_accounts_json-accounts_json :
      (accounts : Accounts)
      → Normal accounts
      → decode_accounts_json platform loads (accounts_json platform accounts) ≡ ok accounts
  unfolding decode_accounts_json decode_value is_sorted has_sorted
  decode_accounts_json-accounts_json accounts h =
      let snapshot : Json = object (account_fields accounts) in
      let written : accounts_json platform accounts ≡ platform.dumps snapshot =
        ap (λ (a : Accounts). platform.dumps (object (account_fields a)))
          (sorted_items-Normal accounts h) in
      rw written (
        rw (law.reads snapshot (has_sorted-accounts accounts h.keyed h.ascending)) (
          rw (decode_accounts-account_fields accounts h)
            (rw written (rw (beq_refl (platform.dumps snapshot)) refl))))
