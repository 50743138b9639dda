-- ===== src/Common/Mapping.antt =====
-- Python's `dict`: an association list in insertion order; a write to a known key keeps its place.
use junca_social_ecosystem_c.Common.Prelude.{
  ◌∙◌, ℕ, suc, ◌+◌, ◌≤◌, ◌≡◌, refl, ◌≢◌, inl, inr, Bool, true, false, Option, none, some, List, [],
  ◌∷◌, map, arith, if◌then◌else◌, Bool-cases, Option-cases,
}
use junca_social_ecosystem_c.Common.Lists.{length, sum_by, All, All-weaken}
use junca_social_ecosystem_c.Common.Sorting.{insert_by, sort_by}
use junca_social_ecosystem_c.Common.Equality.{Eq, ◌=?◌, beq_refl, beq_ne}

abbrev pub Dict {ℓ κ} : Type ℓ → Type κ → Type (ℓ ⊔ κ)
Dict K V = List (K × V)

module _ {ℓ κ} {K : Type ℓ} {V : Type κ} where
  abbrev pub keys : Dict K V → List K
  keys = map λ entry. entry.0

  abbrev pub values : Dict K V → List V
  values = map λ entry. entry.1

module _ {ℓ κ} {K : Type ℓ} {V : Type κ} ⦃e : Eq K⦄ where
  -- `d.get(k)`
  abbrev pub lookup : K → Dict K V → Option V
  lookup k [] = none
  lookup k ((j, v) ∷ d) = if j =? k then some v else lookup k d

  -- `k in d`
  abbrev pub contains : K → Dict K V → Bool
  contains k d = elim (lookup k d) [ none ↦ false | some _ ↦ true ]

  -- `d.get(k, v)`
  abbrev pub lookup_or : V → K → Dict K V → V
  lookup_or v k d = elim (lookup k d) [ none ↦ v | some w ↦ w ]

  -- `d[k] = v`
  abbrev pub insert : K → V → Dict K V → Dict K V
  insert k v [] = (k, v) ∷ []
  insert k v ((j, w) ∷ d) = if j =? k then (j, v) ∷ d else (j, w) ∷ insert k v d

  -- `del d[k]`
  abbrev pub erase : K → Dict K V → Dict K V
  erase k [] = []
  erase k ((j, w) ∷ d) = if j =? k then d else (j, w) ∷ erase k d

  pub lookup-insert :
      (k j : K) (v : V) (d : Dict K V)
      → lookup j (insert k v d) ≡ (if k =? j then some v else lookup j d)
  lookup-insert k j v [] = refl
  lookup-insert k j v ((i, w) ∷ d) =
      ground (arith, e.beq_iff k j, e.beq_iff i k, e.beq_iff i j, lookup-insert k j v d)

  pub lookup-insert_self : (k : K) (v : V) (d : Dict K V) → lookup k (insert k v d) ≡ some v
  lookup-insert_self k v d = rw (lookup-insert k k v d, beq_refl k)

  pub lookup-insert_ne :
      (k j : K) (v : V) (d : Dict K V) → k ≢ j → lookup j (insert k v d) ≡ lookup j d
  lookup-insert_ne k j v d h = rw (lookup-insert k j v d, beq_ne k j h)

  pub lookup_or-insert :
      (z : V) (k j : K) (v : V) (d : Dict K V)
      → lookup_or z j (insert k v d) ≡ (if k =? j then v else lookup_or z j d)
  lookup_or-insert z k j v d = ground (arith, lookup-insert k j v d)

  pub lookup_or-insert_ne :
      (z : V) (k j : K) (v : V) (d : Dict K V)
      → k ≢ j
      → lookup_or z j (insert k v d) ≡ lookup_or z j d
  lookup_or-insert_ne z k j v d h = rw (lookup_or-insert z k j v d, beq_ne k j h)

  pub lookup_or-insert_self :
      (z : V) (k : K) (v : V) (d : Dict K V) → lookup_or z k (insert k v d) ≡ v
  lookup_or-insert_self z k v d = rw (lookup_or-insert z k k v d, beq_refl k)

  pub lookup-contains-false : (k : K) (d : Dict K V) → contains k d ≡ false → lookup k d ≡ none
  lookup-contains-false k d h = elim (Option-cases (lookup k d)) [
    | inl missing ↦ missing
    | inr (v, found) ↦ ground arith
  ]

  pub lookup-insert_new :
      (k j : K) (v : V) {w : V} (d : Dict K V)
      → lookup k d ≡ none
      → lookup j d ≡ some w
      → lookup j (insert k v d) ≡ some w
  lookup-insert_new k j v d h f = ground (arith, e.beq_iff k j, lookup-insert k j v d)

  pub length-insert_new :
      (k : K) (v : V) (d : Dict K V) → lookup k d ≡ none → length (insert k v d) ≡ suc (length d)
  length-insert_new k v [] h = refl
  length-insert_new k v ((j, w) ∷ d) h = ground (arith, length-insert_new k v d)

  pub length-insert_old :
      (k : K) (v old : V) (d : Dict K V) → lookup k d ≡ some old → length (insert k v d) ≡ length d
  length-insert_old k v old [] h = cc
  length-insert_old k v old ((j, w) ∷ d) h = ground (arith, length-insert_old k v old d)

  pub length-erase-le : (k : K) (d : Dict K V) → length (erase k d) ≤ length d
  length-erase-le k [] = omega arith
  length-erase-le k ((j, w) ∷ d) = ground (arith, length-erase-le k d)

  -- The sum of a measure over the values, under a write.
  abbrev pub sum_values : (V → ℕ) → Dict K V → ℕ
  sum_values f = sum_by λ entry. f entry.1

  pub sum_values-insert :
      (f : V → ℕ) (k : K) (v old : V) (d : Dict K V)
      → lookup k d ≡ some old
      → sum_values f (insert k v d) + f old ≡ sum_values f d + f v
  sum_values-insert f k v old [] h = cc
  sum_values-insert f k v old ((j, w) ∷ d) h = ground (arith, sum_values-insert f k v old d)

  pub sum_values-insert_new :
      (f : V → ℕ) (k : K) (v : V) (d : Dict K V)
      → lookup k d ≡ none
      → sum_values f (insert k v d) ≡ sum_values f d + f v
  sum_values-insert_new f k v [] h = omega arith
  sum_values-insert_new f k v ((j, w) ∷ d) h = ground (arith, sum_values-insert_new f k v d)

  -- A write seen from the sum, where a missing key counts as the value `zero_value` of measure 0.
  pub sum_values-insert_or :
      (f : V → ℕ) (k : K) (v zero_value : V) (d : Dict K V)
      → f zero_value ≡ 0
      → sum_values f (insert k v d) + f (lookup_or zero_value k d) ≡ sum_values f d + f v
  sum_values-insert_or f k v z [] h = omega arith
  sum_values-insert_or f k v z ((j, w) ∷ d) h = ground (arith, sum_values-insert_or f k v z d)

  -- What holds of every entry.
  abbrev pub Entries {μ} : (K → V → Type μ) → Dict K V → Type μ
  Entries P = All λ entry. P entry.0 entry.1

  pub Entries-insert {μ} :
      (P : K → V → Type μ) (k : K) (v : V) (d : Dict K V)
      → Entries P d
      → P k v
      → Entries P (insert k v d)
  Entries-insert P k v [] h p = (p, tt)
  Entries-insert P k v ((j, w) ∷ d) h p = elim (Bool-cases (j =? k)) [
    | inl same ↦ rw same (subst_key (e.beq_iff j k).0 same, h.1)
    | inr other ↦ rw other (h.0, Entries-insert P k v d h.1 p)
  ]
    where
      subst_key : ((j =? k) ≡ true → j ≡ k) → (j =? k) ≡ true → P j v
      subst_key to_eq s = rw (to_eq s) p

  pub Entries-lookup {μ} :
      (P : K → V → Type μ) (k : K) (v : V) (d : Dict K V)
      → Entries P d
      → lookup k d ≡ some v
      → P k v
  Entries-lookup P k v [] h f = cc
  Entries-lookup P k v ((j, w) ∷ d) h f = elim (Bool-cases (j =? k)) [
    | inl same ↦ found ((e.beq_iff j k).0 same) (rw same at f)
    | inr other ↦ Entries-lookup P k v d h.1 (rw other at f)
  ]
    where
      found : j ≡ k → some w ≡ some v → P k v
      found jk wv = rw (← jk) (subst_value wv)
        where
          subst_value : some w ≡ some v → P j v
          subst_value s = let r : w ≡ v = cc in rw (← r) h.0

  pub Entries-erase {μ} :
      (P : K → V → Type μ) (k : K) (d : Dict K V) → Entries P d → Entries P (erase k d)
  Entries-erase P k [] h = tt
  Entries-erase P k ((j, w) ∷ d) h = elim (Bool-cases (j =? k)) [
    | inl same ↦ rw same h.1
    | inr other ↦ rw other (h.0, Entries-erase P k d h.1)
  ]

  -- Each key is listed once.
  abbrev pub Keyed : Dict K V → Type κ
  Keyed [] = Unit
  Keyed ((k, v) ∷ d) = (lookup k d ≡ none) × Keyed d

  pub Keyed-insert : (k : K) (v : V) (d : Dict K V) → Keyed d → Keyed (insert k v d)
  Keyed-insert k v [] h = (refl, tt)
  Keyed-insert k v ((j, w) ∷ d) h =
      ground (arith, Keyed-insert k v d, lookup-insert k j v d, e.beq_iff k j, e.beq_iff j k)

  pub lookup-erase_self : (k : K) (d : Dict K V) → Keyed d → lookup k (erase k d) ≡ none
  lookup-erase_self k [] h = refl
  lookup-erase_self k ((j, w) ∷ d) h = ground (arith, lookup-erase_self k d, e.beq_iff j k)

  pub lookup-erase_ne : (k j : K) (d : Dict K V) → k ≢ j → lookup j (erase k d) ≡ lookup j d
  lookup-erase_ne k j [] h = refl
  lookup-erase_ne k j ((i, w) ∷ d) h =
      ground (arith, lookup-erase_ne k j d h, e.beq_iff i j, e.beq_iff i k)

  pub Keyed-erase : (k : K) (d : Dict K V) → Keyed d → Keyed (erase k d)
  Keyed-erase k [] h = tt
  Keyed-erase k ((j, w) ∷ d) h =
      ground (arith, Keyed-erase k d, lookup-erase_ne k j d, e.beq_iff j k, e.beq_iff k j)

  pub sum_values-erase :
      (f : V → ℕ) (k : K) (old : V) (d : Dict K V)
      → lookup k d ≡ some old
      → sum_values f (erase k d) + f old ≡ sum_values f d
  sum_values-erase f k old [] h = cc
  sum_values-erase f k old ((j, w) ∷ d) h = ground (arith, sum_values-erase f k old d)

  lookup-insert_by :
      (le : K × V → K × V → Bool) (j k : K) (v : V) (d : Dict K V)
      → lookup k d ≡ none
      → lookup j (insert_by le (k, v) d) ≡ (if k =? j then some v else lookup j d)
  lookup-insert_by le j k v [] h = refl
  lookup-insert_by le j k v ((i, w) ∷ d) h =
      ground (arith, e.beq_iff i j, e.beq_iff i k, e.beq_iff k j, lookup-insert_by le j k v d)

  Keyed-insert_by :
      (le : K × V → K × V → Bool) (k : K) (v : V) (d : Dict K V)
      → lookup k d ≡ none
      → Keyed d
      → Keyed (insert_by le (k, v) d)
  Keyed-insert_by le k v [] h q = (refl, tt)
  Keyed-insert_by le k v ((i, w) ∷ d) h q =
      ground
        (arith, e.beq_iff i k, e.beq_iff k i, lookup-insert_by le i k v d, Keyed-insert_by le k v d)

  -- Sorting a dict's items leaves what it maps.
  pub lookup-sort_by :
      (le : K × V → K × V → Bool) (j : K) (d : Dict K V)
      → Keyed d
      → lookup j (sort_by le d) ≡ lookup j d
  lookup-sort_by le j [] q = refl
  lookup-sort_by le j ((k, v) ∷ d) q = rw (
    lookup-insert_by le j k v (sort_by le d) (lookup-sort_by le k d q.1 ∙ q.0),
    lookup-sort_by le j d q.1,
  )

  pub Keyed-sort_by : (le : K × V → K × V → Bool) (d : Dict K V) → Keyed d → Keyed (sort_by le d)
  Keyed-sort_by le [] q = tt
  Keyed-sort_by le ((k, v) ∷ d) q =
      Keyed-insert_by le k v (sort_by le d) (lookup-sort_by le k d q.1 ∙ q.0)
        (Keyed-sort_by le d q.1)

  -- The entries of a dict are what it maps.
  pub Keyed-Entries : (d : Dict K V) → Keyed d → Entries (λ k v. lookup k d ≡ some v) d
  Keyed-Entries [] h = tt
  Keyed-Entries ((k, v) ∷ d) h = (
    rw (beq_refl k) refl,
    All-weaken (λ (entry : K × V). lookup entry.0 d ≡ some entry.1)
        (λ (entry : K × V). lookup entry.0 ((k, v) ∷ d) ≡ some entry.1) d
        (λ entry f. ground (arith, e.beq_iff k entry.0)) (Keyed-Entries d h.1),
  )
