-- ===== src/StateStore/Growth.antt =====
-- state_store.py: a row written behind the head of a chain.
use junca_social_ecosystem_c.Common.{
  ℕ, suc, ◌+◌, ◌≤◌, ◌<◌, ◌≡◌, refl, ap, ◌∙◌, sym, subst, inl, inr, arith, ◌⊎◌, false, Option, none,
  some, List, [], ◌∷◌, ◌==◌, ltb, length, nat_eq, list_eq, All, Text, Platform, Bool-cases,
  Option-cases,
}
use junca_social_ecosystem_c.StateStore.Types.{BlockRow, Loads}
use junca_social_ecosystem_c.StateStore.Store.{last_row, place_row, row_at}
use junca_social_ecosystem_c.StateStore.Chain.{Sound, Linked, IsChain}

pub All-place {κ} :
    (P : BlockRow → Type κ) (new : BlockRow) (rows : List BlockRow)
    → P new
    → All P rows
    → All P (place_row new rows)
unfolding place_row
All-place P new [] p h = (p, tt)
All-place P new (row ∷ rows) p h = elim (Bool-cases (ltb new.height row.height)) [
  | inl before ↦ rw before (p, h)
  | inr after ↦ rw after (h.0, All-place P new rows p h.1)
]

pub last_row-some :
    (row : BlockRow) (rows : List BlockRow)
    → (last : BlockRow) × (last_row (row ∷ rows) ≡ some last)
unfolding last_row
last_row-some row rows = elim (Option-cases (last_row rows)) [
  | inl alone ↦ (row, rw alone refl)
  | inr (last, behind) ↦ (last, rw behind refl)
]

last_row-behind :
    (row : BlockRow) (rows : List BlockRow) {last : BlockRow}
    → last_row (row ∷ rows) ≡ some last
    → ((rows ≡ []) × (row ≡ last)) ⊎ (last_row rows ≡ some last)
unfolding last_row
last_row-behind row [] h = inl (refl, cc)
last_row-behind row (next ∷ rows) h =
    let (other, behind) = last_row-some next rows in inr (behind ∙ (rw behind at h))

pub Linked-last-le :
    (height : ℕ) (parent : Text) (rows : List BlockRow) {last : BlockRow}
    → Linked height parent rows
    → last_row rows ≡ some last
    → height ≤ last.height
unfolding last_row
Linked-last-le height parent [] l h = cc
Linked-last-le height parent (row ∷ rows) l h = elim (last_row-behind row rows h) [
  | inl (alone, e) ↦ omega (arith, ap (λ (r : BlockRow). r.height) e, l.0)
  | inr behind ↦ omega (arith, Linked-last-le (suc height) row.block_hash rows l.2 behind)
]

place_row-behind :
    (new row : BlockRow) (rows : List BlockRow) (top : ℕ)
    → new.height ≡ suc top
    → row.height ≤ top
    → place_row new (row ∷ rows) ≡ row ∷ place_row new rows
unfolding place_row
place_row-behind new row rows top n le = ground arith

Linked-alone :
    (new row : BlockRow) (height : ℕ) (parent : Text)
    → row.height ≡ height
    → row.parent_hash ≡ parent
    → new.height ≡ suc row.height
    → new.parent_hash ≡ row.block_hash
    → Linked height parent (row ∷ place_row new []) × (last_row (row ∷ place_row new []) ≡ some new)
unfolding place_row last_row
Linked-alone new row height parent a b n p = ((a, b, (n ∙ ap suc a, p, tt)), refl)

-- The row that continues the last one is written behind it, and is the last one then.
pub Linked-place :
    (new : BlockRow) (height : ℕ) (parent : Text) (rows : List BlockRow) {last : BlockRow}
    → Linked height parent rows
    → last_row rows ≡ some last
    → new.height ≡ suc last.height
    → new.parent_hash ≡ last.block_hash
    → Linked height parent (place_row new rows) × (last_row (place_row new rows) ≡ some new)
unfolding last_row
Linked-place new height parent [] l h n p = cc
Linked-place new height parent (row ∷ rows) {last} l h n p =
    let below : row.height ≤ last.height =
      (let g = Linked-last-le height parent (row ∷ rows) l h in omega (arith, g, l.0)) in
    rw (place_row-behind new row rows last.height n below) (elim (last_row-behind row rows h) [
      | inl (alone, e) ↦ rw alone (
          Linked-alone new row height parent l.0 l.1
            (n ∙ ap (λ (r : BlockRow). suc r.height) (sym e))
            (p ∙ ap (λ (r : BlockRow). r.block_hash) (sym e)))
      | inr behind ↦
          let (linked, at_end) = Linked-place new (suc height) row.block_hash rows l.2 behind n p in
          ((l.0, l.1, linked), rw (last_row, at_end) refl)
    ])

pub Linked-row_at-le :
    (height : ℕ) (parent : Text) (rows : List BlockRow) (n : ℕ) {row : BlockRow}
    → Linked height parent rows
    → row_at n rows ≡ some row
    → height ≤ n
unfolding row_at
Linked-row_at-le height parent [] n l h = cc
Linked-row_at-le height parent (row ∷ rows) n l h = elim (Bool-cases (row.height == n)) [
  | inl this ↦ ground (arith, l.0)
  | inr other ↦
      omega (arith, Linked-row_at-le (suc height) row.block_hash rows n l.2 (rw other at h))
]

-- No row stands above the last one.
pub Linked-row_at-above :
    (height : ℕ) (parent : Text) (rows : List BlockRow) (n : ℕ) {last : BlockRow}
    → Linked height parent rows
    → last_row rows ≡ some last
    → last.height < n
    → row_at n rows ≡ none
unfolding row_at
Linked-row_at-above height parent [] n l h lt = refl
Linked-row_at-above height parent (row ∷ rows) n {last} l h lt =
    let below = Linked-last-le height parent (row ∷ rows) l h in
    let other : (row.height == n) ≡ false = (let e = l.0 in ground arith) in
    rw other (elim (last_row-behind row rows h) [
      | inl (alone, e) ↦ ap (row_at n) alone
      | inr behind ↦ Linked-row_at-above (suc height) row.block_hash rows n l.2 behind lt
    ])

-- A linked run has as many rows as heights.
pub Linked-count :
    (height : ℕ) (parent : Text) (rows : List BlockRow) {last : BlockRow}
    → Linked height parent rows
    → last_row rows ≡ some last
    → last.height + 1 ≡ height + length rows
unfolding last_row
Linked-count height parent [] l h = cc
Linked-count height parent (row ∷ rows) l h = elim (last_row-behind row rows h) [
  | inl (alone, e) ↦
      omega
        (arith, ap (λ (r : BlockRow). r.height) e, l.0, ap (λ (d : List BlockRow). length d) alone)
  | inr behind ↦ omega (arith, Linked-count (suc height) row.block_hash rows l.2 behind)
]

pub IsChain-place :
    (platform : Platform) (loads : Loads) (base : Option ℕ) (new : BlockRow) (rows : List BlockRow)
    {last : BlockRow}
    → IsChain platform loads base rows
    → last_row rows ≡ some last
    → new.height ≡ suc last.height
    → new.parent_hash ≡ last.block_hash
    → Sound platform loads new
    → IsChain platform loads base (place_row new rows) × (last_row (place_row new rows) ≡ some new)
unfolding last_row
IsChain-place platform loads base new [] chain h n p sound = cc
IsChain-place platform loads base new (row ∷ rows) {last} (at_base, linked, sounds) h n p sound =
    let below = Linked-last-le row.height row.parent_hash (row ∷ rows) linked h in
    let behind = place_row-behind new row rows last.height n below in
    let (further, at_end) = Linked-place new row.height row.parent_hash (row ∷ rows) linked h n p in
    let every = All-place (Sound platform loads) new (row ∷ rows) sound sounds in
    (rw behind (at_base, rw behind at further, rw behind at every), at_end)

-- The last row of a chain is sound.
pub IsChain-last :
    (platform : Platform) (loads : Loads) (base : Option ℕ) (rows : List BlockRow) {last : BlockRow}
    → IsChain platform loads base rows
    → last_row rows ≡ some last
    → Sound platform loads last
unfolding last_row
IsChain-last platform loads base [] chain h = absurd (cc)
IsChain-last platform loads base (row ∷ rows) chain h = All-last (row ∷ rows) chain.2 h
  where
    All-last :
        (l : List BlockRow) {r : BlockRow}
        → All (Sound platform loads) l
        → last_row l ≡ some r
        → Sound platform loads r
    All-last [] every g = absurd (cc)
    All-last (x ∷ xs) every g = elim (last_row-behind x xs g) [
      | inl (alone, e) ↦ subst (Sound platform loads) e every.0
      | inr behind ↦ All-last xs every.1 behind
    ]
