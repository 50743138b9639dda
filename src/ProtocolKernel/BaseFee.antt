-- ===== src/ProtocolKernel/BaseFee.antt =====
-- protocol_kernel.py, `next_base_fee`: the base fee of the next block.
pub mod Bounds
use junca_social_ecosystem_c.Common.{
  ℕ, ◌+◌, ◌-◌, ◌*◌, ◌/◌, max, ltb, ◌==◌, if◌then◌else◌, Result, ok, ◌>>=◌, ◌>>◌, raise_if,
}
use junca_social_ecosystem_c.ProtocolKernel.Types.{
  ProtocolConfig, KernelError, parent_base_fee_not_positive, parent_gas_outside_limit,
}

-- `abs(a - b)`
unfoldable pub distance : ℕ → ℕ → ℕ
distance a b = (a - b) + (b - a)

unfoldable pub fee_delta : ProtocolConfig → ℕ → ℕ → ℕ
unfolding distance
fee_delta config parent_base_fee parent_gas_used =
    parent_base_fee
    * distance parent_gas_used config.target_gas
    / config.target_gas
    / config.base_fee_change_denominator

-- The fee once the arguments are accepted.
unfoldable pub adjusted_fee : ProtocolConfig → ℕ → ℕ → ℕ
adjusted_fee config parent_base_fee parent_gas_used =
    let delta = fee_delta config parent_base_fee parent_gas_used in
    if parent_gas_used == config.target_gas
    then parent_base_fee
    else if ltb config.target_gas parent_gas_used
    then parent_base_fee + max delta 1
    else max (parent_base_fee - delta) 1

unfoldable pub next_base_fee : ProtocolConfig → ℕ → ℕ → Result KernelError ℕ
next_base_fee config parent_base_fee parent_gas_used = do
  raise_if (parent_base_fee == 0) parent_base_fee_not_positive
  raise_if (ltb config.block_gas_limit parent_gas_used) parent_gas_outside_limit
  ok (adjusted_fee config parent_base_fee parent_gas_used)
