-- ===== src/Finality/Machine/Progress.antt =====
-- How the finalized head moves.
use junca_social_ecosystem_c.Common.{
  ℕ, suc, ◌≡◌, refl, ◌⊎◌, inl, false, max, some, [], ◌∷◌, arith, nat_eq, list_eq, pair_eq, ok,
  Verdict, lookup, insert, lower, Platform, ℤ, pos, negsuc, suc_ℤ, ltb_ℤ, zero, Dict,
  lookup-insert_self,
}
use junca_social_ecosystem_c.Finality.Types.{FinalityVote, FinalityCertificate}
use junca_social_ecosystem_c.Finality.Machine.{
  Machine, Outcome, latest_of, max_key, latest_finalized_height, breaks_contiguity, add_vote,
  build_certificate,
}
use junca_social_ecosystem_c.Finality.Machine.Endings.{
  Ended, refused, repeated, counted_before, equivocated, stored_refused, stored, finalizes,
  add_vote-Ended,
}

max_key-eq : (best : ℕ) (d : Dict ℕ FinalityCertificate) → max_key best d ≡ max best (max_key 0 d)
unfolding max_key
max_key-eq best [] = omega arith
max_key-eq best ((h, c) ∷ d) = omega (arith, max_key-eq (max best h) d, max_key-eq (max 0 h) d)

max_key-insert :
    (k : ℕ) (c : FinalityCertificate) (d : Dict ℕ FinalityCertificate)
    → max_key 0 (insert k c d) ≡ max k (max_key 0 d)
unfolding max_key
max_key-insert k c [] = omega arith
max_key-insert k c ((h, e) ∷ d) =
    ground
      (arith, max_key-insert k c d, max_key-eq (max 0 h) d, max_key-eq (max 0 h) (insert k c d))

abbrev pub Follows : ℤ → ℤ → Type 0
Follows before after = (after ≡ before) ⊎ (after ≡ suc_ℤ before)

latest-insert :
    (checkpoint : ℤ) (k : ℕ) (c : FinalityCertificate) (d : Dict ℕ FinalityCertificate)
    → ltb_ℤ checkpoint (negsuc 0) ≡ false
    → breaks_contiguity (latest_of checkpoint d) k ≡ false
    → Follows (latest_of checkpoint d) (latest_of checkpoint (insert k c d))
unfolding latest_of max_key
latest-insert (pos b) k c [] start fits = ground arith
latest-insert (negsuc zero) k c [] start fits = ground arith
latest-insert (negsuc (suc n)) k c [] start fits = absurd (ground arith)
latest-insert checkpoint k c ((h, e) ∷ d) start fits =
    ground (arith, max_key-insert k c d, max_key-eq h d, max_key-eq h (insert k c d))

Ended-Follows :
    (platform : Platform) (m : Machine) (vote : FinalityVote) {o : Outcome}
    → ltb_ℤ m.checkpoint_height (negsuc 0) ≡ false
    → Ended platform m vote o
    → Follows (latest_finalized_height m) (latest_finalized_height o.1)
Ended-Follows platform m vote start (refused e) = inl refl
Ended-Follows platform m vote start (repeated c e h) = inl refl
Ended-Follows platform m vote start counted_before = inl refl
Ended-Follows platform m vote start (equivocated previous e h) = inl refl
Ended-Follows platform m vote start (stored_refused e new) = inl refl
Ended-Follows platform m vote start (stored new) = inl refl
Ended-Follows platform m vote start (finalizes c new fin) =
    latest-insert m.checkpoint_height vote.height c m.finalized start fin.contiguous

-- In a machine whose initial height is at least -1, each call of `add_vote` leaves the finalized
-- head where it is or moves it up by one.
pub add_vote-Follows :
    (platform : Platform) (verifier : FinalityVote → Verdict) (vote : FinalityVote) (m : Machine)
    → ltb_ℤ m.checkpoint_height (negsuc 0) ≡ false
    → Follows
        (latest_finalized_height m)
        (latest_finalized_height (add_vote platform verifier vote m).1)
add_vote-Follows platform verifier vote m start =
    Ended-Follows platform m vote start (add_vote-Ended platform verifier vote m)

-- A certificate that `add_vote` returns is for the vote's block, and is the one that the machine
-- then holds at the vote's height.
pub add_vote-certificate :
    (platform : Platform) (verifier : FinalityVote → Verdict) (vote : FinalityVote) (m : Machine)
    {c : FinalityCertificate}
    → (add_vote platform verifier vote m).0 ≡ ok (some c)
    → (c.block_hash ≡ lower vote.block_hash)
      × (lookup vote.height (add_vote platform verifier vote m).1.finalized ≡ some c)
unfolding build_certificate
add_vote-certificate platform verifier vote m {c} h =
    held (add_vote-Ended platform verifier vote m) h
  where
    held :
        {o : Outcome}
        → Ended platform m vote o
        → o.0 ≡ ok (some c)
        → (c.block_hash ≡ lower vote.block_hash) × (lookup vote.height o.1.finalized ≡ some c)
    held (refused e) g = cc
    held (repeated b e f) g = let same : b ≡ c = cc in rw (← same) (f, e)
    held counted_before g = cc
    held (equivocated previous e f) g = cc
    held (stored_refused e new) g = cc
    held (stored new) g = cc
    held (finalizes b new fin) g =
        let same : b ≡ c = cc in
        rw (← same) (rw fin.built refl, lookup-insert_self vote.height b m.finalized)
