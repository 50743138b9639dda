-- ===== src/StateStore/Inserted.antt =====
-- state_store.py: a row that is inserted, and the rows that are found by height.
use junca_social_ecosystem_c.Common.{
  ℕ, ◌≡◌, refl, ap, ◌∙◌, subst, inl, inr, arith, false, ◌||◌, Option, some, List, [], ◌∷◌, ◌==◌,
  ltb, any_of, nat_eq, list_eq, ◌=?◌, beq_refl, ok, raise_if, raise_if-eq-ok, >>-eq-ok,
  ok-injective, if◌then◌else◌, Bool-cases, Bool, true, not,
}
use junca_social_ecosystem_c.StateStore.Types.{BlockRow, integrity, overflow, fits_row, fits_column}
use junca_social_ecosystem_c.StateStore.Store.{place_row, row_at, insert_row, find_row}

pub insert_row-eq-ok :
    (new : BlockRow) (rows : List BlockRow) {result : List BlockRow}
    → insert_row new rows ≡ ok result
    → (any_of (λ row. row.height == new.height || row.block_hash =? new.block_hash) rows ≡ false)
      × (place_row new rows ≡ result)
unfolding insert_row
insert_row-eq-ok new rows h =
    let (fitting, checked) = >>-eq-ok (raise_if (not (fits_row new)) overflow) _ h in
    let (free, placed) =
      >>-eq-ok
        (raise_if
          (any_of (λ row. row.height == new.height || row.block_hash =? new.block_hash) rows)
          integrity)
        _ checked in
    (raise_if-eq-ok _ _ free, ok-injective placed)

-- A row that was written fits its columns.
pub insert_row-fits :
    (new : BlockRow) (rows : List BlockRow) {result : List BlockRow}
    → insert_row new rows ≡ ok result
    → fits_row new ≡ true
unfolding insert_row
insert_row-fits new rows h =
    let (fitting, rest) = >>-eq-ok (raise_if (not (fits_row new)) overflow) _ h in
    not_false (fits_row new) (raise_if-eq-ok _ _ fitting)
  where
    not_false : (b : Bool) → not b ≡ false → b ≡ true
    not_false b g = ground arith

pub fits_row-height : (row : BlockRow) → fits_row row ≡ true → fits_column row.height ≡ true
unfolding fits_row
fits_row-height row h = ground arith

pub row_at-height :
    (height : ℕ) (rows : List BlockRow) {row : BlockRow}
    → row_at height rows ≡ some row
    → row.height ≡ height
unfolding row_at
row_at-height height [] found = absurd (cc)
row_at-height height (old ∷ rows) {row} found = elim (Bool-cases (old.height == height)) [
  | inl this ↦
      let same : some old ≡ some row = rw this at found in
      let e : old ≡ row = cc in subst (λ (r : BlockRow). r.height ≡ height) e (ground arith)
  | inr other ↦ row_at-height height rows (rw other at found)
]

-- A row that fits its columns is found under its height.
pub find_row-fits :
    (height : ℕ) (rows : List BlockRow) {row : BlockRow}
    → row_at height rows ≡ some row
    → fits_row row ≡ true
    → find_row height rows ≡ ok row
unfolding find_row
find_row-fits height rows {row} found fits =
    let asked =
      subst (λ (n : ℕ). fits_column n ≡ true) (row_at-height height rows found)
        (fits_row-height row fits) in
    rw (asked, found) refl

row_at_other :
    (height : ℕ) (new : BlockRow) (rows : List BlockRow)
    → (new.height == height) ≡ false
    → row_at height (place_row new rows) ≡ row_at height rows
unfolding row_at place_row
row_at_other height new [] h = rw h refl
row_at_other height new (old ∷ rows) h = elim (Bool-cases (ltb new.height old.height)) [
  | inl before ↦ rw before (rw h refl)
  | inr after ↦ rw after (
      ap (λ (o : Option BlockRow). if old.height == height then some old else o)
        (row_at_other height new rows h))
]

row_at_taken :
    (height : ℕ) (new : BlockRow) (rows : List BlockRow) {row : BlockRow}
    → any_of (λ old. old.height == new.height || old.block_hash =? new.block_hash) rows ≡ false
    → row_at height rows ≡ some row
    → (new.height == height) ≡ false
unfolding row_at
row_at_taken height new [] free found = cc
row_at_taken height new (old ∷ rows) free found = elim (Bool-cases (old.height == height)) [
  | inl this ↦ ground arith
  | inr other ↦ row_at_taken height new rows (ground arith) (rw other at found)
]

-- A new row is found under its height.
pub row_at_new :
    (new : BlockRow) (rows : List BlockRow)
    → any_of (λ old. old.height == new.height || old.block_hash =? new.block_hash) rows ≡ false
    → row_at new.height (place_row new rows) ≡ some new
unfolding row_at place_row
row_at_new new [] free = rw (beq_refl new.height) refl
row_at_new new (old ∷ rows) free = elim (Bool-cases (ltb new.height old.height)) [
  | inl before ↦ rw before (rw (beq_refl new.height) refl)
  | inr after ↦
      let apart : (old.height == new.height) ≡ false = ground arith in
      rw after (rw apart (row_at_new new rows (ground arith)))
]

-- A row that is found stays found.
pub row_at-place :
    (height : ℕ) (new : BlockRow) (rows : List BlockRow) {row : BlockRow}
    → any_of (λ old. old.height == new.height || old.block_hash =? new.block_hash) rows ≡ false
    → row_at height rows ≡ some row
    → row_at height (place_row new rows) ≡ some row
row_at-place height new rows free found =
    row_at_other height new rows (row_at_taken height new rows free found) ∙ found
