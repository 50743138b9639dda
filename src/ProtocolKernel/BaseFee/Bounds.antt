-- ===== src/ProtocolKernel/BaseFee/Bounds.antt =====
-- How far the base fee moves from one block to the next.
use junca_social_ecosystem_c.Common.{
  ltb, ◌==◌, ◌&&◌, not, false, ℕ, ◌+◌, ◌/◌, ◌≤◌, ◌<◌, ◌≡◌, max, arith, ok,
}
use native.Mathlib.Nat.{div-le_of_le-mul}
use junca_social_ecosystem_c.ProtocolKernel.Types.{ProtocolConfig}
use junca_social_ecosystem_c.ProtocolKernel.BaseFee.{
  distance, fee_delta, adjusted_fee, next_base_fee,
}

-- The fee rises exactly after a block that used more than its target, stays after one that used
-- its target, and never falls to 0.
pub next_base_fee_direction :
    (config : ProtocolConfig) (parent gas : ℕ) {fee : ℕ}
    → next_base_fee config parent gas ≡ ok fee
    → (1 ≤ fee)
      × (ltb parent fee ≡ ltb config.target_gas gas)
      × (((gas == config.target_gas) && not (fee == parent)) ≡ false)
unfolding next_base_fee adjusted_fee
next_base_fee_direction config parent gas h = (ground arith, ground arith, ground arith)

distance-le : (a b : ℕ) → a ≤ b + b → distance a b ≤ b
unfolding distance
distance-le a b h = omega arith

div_mono : (a b k : ℕ) → a ≤ b → a / k ≤ b / k
div_mono a b k h = grind arith

fee_delta-le :
    (config : ProtocolConfig) (parent gas : ℕ)
    → 0 < config.target_gas
    → gas ≤ config.target_gas + config.target_gas
    → fee_delta config parent gas ≤ parent / config.base_fee_change_denominator
unfolding fee_delta
fee_delta-le config parent gas h k =
    div_mono _ parent config.base_fee_change_denominator
      (div-le_of_le-mul config.target_gas (grind (arith, distance-le gas config.target_gas k)))

-- While the target is positive and the gas limit is at most twice the target, a block whose
-- next base fee is defined raises the fee by at most the parent fee over the denominator, or by
-- 1 where that is 0, and lowers it by at most the parent fee over the denominator.
pub next_base_fee_bounds :
    (config : ProtocolConfig) (parent gas : ℕ) {fee : ℕ}
    → 0 < config.target_gas
    → config.block_gas_limit ≤ config.target_gas + config.target_gas
    → next_base_fee config parent gas ≡ ok fee
    → (fee ≤ parent + max (parent / config.base_fee_change_denominator) 1)
      × (parent ≤ fee + parent / config.base_fee_change_denominator)
unfolding next_base_fee adjusted_fee
next_base_fee_bounds config parent gas h k e =
    (ground (arith, fee_delta-le config parent gas), ground (arith, fee_delta-le config parent gas))
