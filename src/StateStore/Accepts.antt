-- ===== src/StateStore/Accepts.antt =====
-- state_store.py: the conditions on a commit, and the store after it.
use junca_social_ecosystem_c.Common.{
  ◌↔◌, ℕ, ◌+◌, ◌≡◌, refl, ap, sym, inl, inr, arith, true, false, not, ◌||◌, Option, none, some,
  List, [], ◌∷◌, ◌==◌, any_of, nat_eq, list_eq, ◌=?◌, text_iff, lookup, contains, insert, ok,
  raise_if, or_raise, raise_if-ok, >>-ok, >>=-ok, Text, lower, Platform, Bool-cases,
}
use junca_social_ecosystem_c.ProtocolKernel.Types.{Accounts}
use junca_social_ecosystem_c.ProtocolKernel.Execution.{compute_state_root}
use junca_social_ecosystem_c.StateStore.Types.{
  StoredBlock, BlockRow, stored_block, check_hash, normalize, Loads, not_initialized, not_next,
  parent_mismatch, chain_id_mismatch, unbound_certificate, bad_timestamp, root_mismatch, head_moved,
  integrity, overflow, fits_row,
}
use junca_social_ecosystem_c.StateStore.Store.{
  Store, Commit, make_store, last_row, place_row, row_at, insert_row, head, is_bad_timestamp,
  with_timestamp, timestamp_taken, certificate_json, committed_row, check_commit, write_block,
  commit_finalized_block, is_wide_timestamp,
}
use junca_social_ecosystem_c.StateStore.Chain.{Linked, IsChain, Intact}
use junca_social_ecosystem_c.StateStore.Inserted.{insert_row-eq-ok, insert_row-fits}
use junca_social_ecosystem_c.StateStore.Growth.{Linked-place, Linked-row_at-above}
use junca_social_ecosystem_c.StateStore.Tables.{Referenced, reached-Referenced}
use junca_social_ecosystem_c.StateStore.Outcome.{Committed, commit-Committed}
use junca_social_ecosystem_c.StateStore.Accounts.{Documented}
use junca_social_ecosystem_c.StateStore.History.{Steps}
use junca_social_ecosystem_c.StateStore.Preserved.{AllProper, reached-Intact}
use junca_social_ecosystem_c.StateStore.Conditions.{Storable, Extends}

row_at-free :
    (n : ℕ) (hash : Text) (rows : List BlockRow)
    → row_at n rows ≡ none
    → any_of (λ row. row.block_hash =? hash) rows ≡ false
    → any_of (λ row. row.height == n || row.block_hash =? hash) rows ≡ false
unfolding row_at
row_at-free n hash [] absent unused = refl
row_at-free n hash (row ∷ rows) absent unused = elim (Bool-cases (row.height == n)) [
  | inl this ↦ let gone : some row ≡ none = rw this at absent in absurd (cc)
  | inr other ↦ elim (Bool-cases (row.block_hash =? hash)) [
    | inl same ↦ let gone : true ≡ false = rw same at unused in absurd (cc)
    | inr apart ↦
        rw (other, apart) (row_at-free n hash rows (rw other at absent) (rw apart at unused))
  ]
]

IsChain-Linked :
    (platform : Platform) (loads : Loads) (base : Option ℕ) (rows : List BlockRow) (last : BlockRow)
    → IsChain platform loads base rows
    → last_row rows ≡ some last
    → (height : ℕ) × (parent : Text) × Linked height parent rows
unfolding last_row
IsChain-Linked platform loads base [] last chain h = absurd (cc)
IsChain-Linked platform loads base (row ∷ rows) last chain h =
    (row.height, row.parent_hash, chain.1)

fits_row-Storable :
    (platform : Platform) (c : Commit) (accounts : Accounts)
    → Storable c
    → fits_row (committed_row platform c accounts) ≡ true
unfolding fits_row
fits_row-Storable platform c accounts w =
    let a = w.height in let b = w.base_fee in let d = w.gas_used in ground arith

-- A row of a commit that fits its columns.
Storable-fits_row :
    (platform : Platform) (c : Commit) (accounts : Accounts)
    → fits_row (committed_row platform c accounts) ≡ true
    → is_wide_timestamp c.timestamp ≡ false
    → Storable c
unfolding fits_row
Storable-fits_row platform c accounts h narrow = record {
  height = ground arith;
  base_fee = ground arith;
  gas_used = ground arith;
  timestamp = narrow;
}

insert_row-new :
    (new : BlockRow) (rows : List BlockRow)
    → fits_row new ≡ true
    → any_of (λ row. row.height == new.height || row.block_hash =? new.block_hash) rows ≡ false
    → insert_row new rows ≡ ok (place_row new rows)
unfolding insert_row
insert_row-new new rows fits free = rw (fits, free) refl

module _ (platform : Platform) (loads : Loads) where
  -- The store after the commit.
  abbrev pub committed : Store → Commit → Accounts → Store
  committed s c accounts = record s {
    blocks = place_row (committed_row platform c accounts) s.blocks;
    timestamps = with_timestamp c.height c.timestamp s.timestamps;
    certificates = insert c.height (platform.dumps (certificate_json c.certificate)) s.certificates;
  }

  check_commit-Extends :
      (s : Store) (current : BlockRow) (c : Commit) (accounts : Accounts)
      → Extends platform s current c accounts
      → check_commit platform s current c ≡ ok tt
  unfolding check_commit
  check_commit-Extends s current c accounts e =
      >>-ok (raise_if (not (c.height == current.height + 1)) not_next)
        (let n = e.next in raise_if-ok _ _ (ground arith))
        (>>-ok (check_hash c.block_hash) e.hash (
          >>-ok (check_hash c.parent_hash) e.parent_formed (
            >>-ok (raise_if (not (lower c.parent_hash =? current.block_hash)) parent_mismatch)
              (raise_if-ok _ _ (ap not ((text_iff _ _).1 e.parent)))
              (>>-ok
                (raise_if
                  (not (c.transition.chain_id == s.chain_id)
                    || not (c.certificate.chain_id == s.chain_id))
                  chain_id_mismatch)
                (raise_if-ok _ _ chains)
                (>>-ok
                  (raise_if
                    (not (c.certificate.height == c.height)
                      || not (c.certificate.block_hash =? lower c.block_hash))
                    unbound_certificate)
                  (raise_if-ok _ _ bound)
                  (>>-ok (raise_if (is_bad_timestamp c.timestamp) bad_timestamp)
                    (raise_if-ok _ _ e.dated)
                    (raise_if-ok _ _ (let q = e.quorum in ground arith))))))))
    where
      chains :
          (not (c.transition.chain_id == s.chain_id) || not (c.certificate.chain_id == s.chain_id))
          ≡ false
      chains = let a = e.chain in let b = e.certified_chain in ground arith

      bound :
          (not (c.certificate.height == c.height)
            || not (c.certificate.block_hash =? lower c.block_hash))
          ≡ false
      bound = let a = e.bound_height in let b = (text_iff _ _).1 e.bound_hash in ground arith

  untaken :
      (s : Store) (height : ℕ) (timestamp : Option ℕ)
      → (lookup height s.certificates ≡ none) × (lookup height s.timestamps ≡ none)
      → (timestamp_taken height timestamp s.timestamps || contains height s.certificates) ≡ false
  untaken s height none h = rw (h.0, contains) refl
  untaken s height (some t) h = rw (h.0, h.1, contains) refl

  write_block-Extends :
      (s : Store) (current : BlockRow) (c : Commit) (accounts : Accounts)
      → Intact platform loads s
      → Referenced s
      → Extends platform s current c accounts
      → write_block platform s c accounts
        ≡ ok (stored_block (committed_row platform c accounts), committed s c accounts)
  unfolding write_block head
  write_block-Extends s current c accounts intact referenced e =
      let new = committed_row platform c accounts in
      let (height, parent, linked) =
        IsChain-Linked platform loads s.base_height s.blocks current intact e.is_head in
      let absent =
        Linked-row_at-above height parent s.blocks c.height linked e.is_head
          (let n = e.next in omega arith) in
      let (placed, at_end) =
        Linked-place new height parent s.blocks linked e.is_head e.next e.parent in
      >>=-ok (or_raise (last_row s.blocks) head_moved) _ current
        (ap (λ (o : Option BlockRow). or_raise o head_moved) e.is_head)
        (>>-ok
          (raise_if
            (not (current.height + 1 == c.height)
              || not (current.block_hash =? lower c.parent_hash))
            head_moved)
          (raise_if-ok _ _ still_head)
          (>>=-ok (insert_row new s.blocks) _ (place_row new s.blocks)
            (insert_row-new new s.blocks (fits_row-Storable platform c accounts e.storable)
              (row_at-free c.height (lower c.block_hash) s.blocks absent e.unused))
            (>>-ok (raise_if (is_wide_timestamp c.timestamp) overflow)
              (raise_if-ok _ _ (e.storable).timestamp)
              (>>-ok
                (raise_if
                  (timestamp_taken c.height c.timestamp s.timestamps
                    || contains c.height s.certificates)
                  integrity)
                (raise_if-ok _ _ (untaken s c.height c.timestamp (referenced c.height absent)))
                (rw at_end refl)))))
    where
      still_head :
          (not (current.height + 1 == c.height) || not (current.block_hash =? lower c.parent_hash))
          ≡ false
      still_head = let a = e.next in let b = (text_iff _ _).1 (sym e.parent) in ground arith

  pub commit_accepted :
      (s : Store) (current : BlockRow) (c : Commit) (accounts : Accounts)
      → Intact platform loads s
      → Referenced s
      → Extends platform s current c accounts
      → commit_finalized_block platform c s
        ≡ ok (stored_block (committed_row platform c accounts), committed s c accounts)
  unfolding commit_finalized_block
  commit_accepted s current c accounts intact referenced e =
      >>=-ok (or_raise (last_row s.blocks) not_initialized) _ current
        (ap (λ (o : Option BlockRow). or_raise o not_initialized) e.is_head)
        (>>-ok (check_commit platform s current c) (check_commit-Extends s current c accounts e) (
          >>=-ok (normalize c.transition.accounts) _ accounts e.normal (
            >>-ok
              (raise_if (not (c.transition.state_root =? compute_state_root platform accounts))
                root_mismatch)
              (raise_if-ok _ _ (ap not ((text_iff _ _).1 e.root)))
              (write_block-Extends s current c accounts intact referenced e))))

free-unused :
    (n : ℕ) (hash : Text) (rows : List BlockRow)
    → any_of (λ row. row.height == n || row.block_hash =? hash) rows ≡ false
    → any_of (λ row. row.block_hash =? hash) rows ≡ false
free-unused n hash [] h = refl
free-unused n hash (row ∷ rows) h = elim (Bool-cases (row.block_hash =? hash)) [
  | inl same ↦ ground (arith, free-unused n hash rows)
  | inr apart ↦ rw apart (free-unused n hash rows (ground arith))
]

Committed-Extends :
    (platform : Platform) (s : Store) (c : Commit) {block : StoredBlock} {t : Store}
    → (d : Committed platform c s block t) → Extends platform s d.current c d.accounts
Committed-Extends platform s c d = record {
  is_head = d.was_head;
  next = d.next;
  hash = d.hash;
  parent_formed = d.parent_formed;
  parent = d.parent;
  chain = d.chains.0;
  certified_chain = d.chains.1;
  bound_height = d.bound.0;
  bound_hash = d.bound.1;
  dated = d.dated;
  quorum = d.quorum;
  normal = d.normal;
  root = d.root;
  storable =
      Storable-fits_row platform c d.accounts
        (insert_row-fits (committed_row platform c d.accounts) s.blocks d.written) d.narrow;
  unused =
      free-unused c.height (lower c.block_hash) s.blocks
        (insert_row-eq-ok (committed_row platform c d.accounts) s.blocks d.written).0;
}

-- Some head and accounts meet the conditions.
abbrev pub Fits : Platform → Store → Commit → Type 0
Fits platform s c =
    (current : BlockRow) × (accounts : Accounts) × Extends platform s current c accounts

abbrev pub Returns : Platform → Store → Commit → Type 0
Returns platform s c =
    (block : StoredBlock) × (t : Store) × (commit_finalized_block platform c s ≡ ok (block, t))

-- On a store made by calls of `initialize_genesis`, `commit_finalized_block` and
-- `restore_checkpoint` that returned (a genesis only on no blocks or on a chain from height 0,
-- a commit with a positive base fee and a canonical certificate hash), `commit_finalized_block`
-- returns exactly where some head and accounts meet the conditions: the height is the next, the
-- parent hash is the head's, the hashes are well formed, the chain ids are the store's, the
-- certificate names the block and has signed power of more than two thirds, a timestamp is
-- positive, the height, the base fee, the gas used and the timestamp are below 2^63, as
-- SQLite's columns need, the transition's accounts normalise to those accounts with its state
-- root, and no stored block has the block's hash. All this where JSON writes every number, and
-- JSON and digests behave as documented.
pub commit_exactly :
    (platform : Platform) (loads : Loads)
    → Documented platform loads
    → (chain_id : ℕ) {start s : Store} → make_store chain_id ≡ ok start
    → (steps : Steps platform start s) → AllProper steps
    → (c : Commit) → Returns platform s c ↔ Fits platform s c
commit_exactly platform loads law chain_id {start} {s} made steps proper c = (
  (λ (r : Returns platform s c).
      let d = commit-Committed platform c s r.2 in
      (d.current, d.accounts, Committed-Extends platform s c d)),
  (λ (f : Fits platform s c). (
    stored_block (committed_row platform c f.1),
    committed platform loads s c f.1,
    commit_accepted platform loads s f.0 c f.1
        (reached-Intact platform loads law chain_id made steps proper)
        (reached-Referenced platform chain_id made steps) f.2,
  )),
)
