-- ===== src/PeerSync/Source.antt =====
-- peer_sync.py, `select_source`: the peer that is furthest ahead.
use junca_social_ecosystem_c.Common.{
  ℕ, ◌≤◌, ◌≡◌, subst, arith, Bool, true, false, ◌&&◌, Option, List, [], ◌∷◌, All, All-weaken,
  All-keep_if, All-min_by, keep_if-All, min_by, min_by_greatest, values, ok, ok-injective,
}
use junca_social_ecosystem_c.PeerSync.Registry.{
  PeerRecord, PeerRegistry, eligible, is_ahead, ranks_before, candidates, best_of, select_source,
}

abbrev pub height_of : PeerRecord → ℕ
height_of p = p.advertisement.finalized_height

abbrev pub is_candidate : Option ℕ → PeerRecord → Bool
is_candidate local p = eligible p && is_ahead local p.advertisement.finalized_height

every : (l : List PeerRecord) → All (λ p. Unit {0}) l
every [] = tt
every (p ∷ l) = (tt, every l)

ranks_hit : (a b : PeerRecord) → ranks_before a b ≡ true → height_of b ≤ height_of a
unfolding ranks_before
ranks_hit a b h = ground arith

ranks_miss : (a b : PeerRecord) → ranks_before a b ≡ false → height_of a ≤ height_of b
unfolding ranks_before
ranks_miss a b h = ground arith

best_of-greatest :
    (P : PeerRecord → Type 0) (l : List PeerRecord) {selected : PeerRecord}
    → All P l
    → best_of l ≡ ok selected
    → P selected × All (λ p. height_of p ≤ height_of selected) l
best_of-greatest P [] h found = absurd (cc)
best_of-greatest P (p ∷ l) {selected} h found =
    let e : min_by ranks_before p l ≡ selected = ok-injective found in
    (
      subst P e (All-min_by ranks_before P p l h.0 h.1),
      subst (λ (q : PeerRecord). All (λ r. height_of r ≤ height_of q) (p ∷ l)) e
          (min_by_greatest ranks_before height_of ranks_hit ranks_miss p l
            (height_of (min_by ranks_before p l)) (omega arith)),
    )

-- A peer that `select_source` returns is eligible and ahead of the local height, and no
-- eligible peer that is ahead has a greater finalized height.
pub select_source_best :
    (local : Option ℕ) (r : PeerRegistry) {selected : PeerRecord}
    → select_source local r ≡ ok selected
    → (is_candidate local selected ≡ true)
      × All (λ p. is_candidate local p ≡ true → height_of p ≤ height_of selected) (values r.peers)
unfolding select_source
select_source_best local r {selected} h =
    let kept =
      All-weaken (λ (p : PeerRecord). Unit {0} × (is_candidate local p ≡ true))
        (λ (p : PeerRecord). is_candidate local p ≡ true) (candidates local r) (λ p q. q.1)
        (All-keep_if (λ p. Unit {0}) (is_candidate local) (values r.peers)
          (every (values r.peers))) in
    let (is, best) =
      best_of-greatest (λ p. is_candidate local p ≡ true) (candidates local r) kept h in
    (
      is,
      keep_if-All (λ p. height_of p ≤ height_of selected) (is_candidate local) (values r.peers)
          best,
    )
