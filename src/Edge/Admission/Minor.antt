-- ===== src/Edge/Admission/Minor.antt =====
-- The conversion to the currency's minor unit.
use mcp_usage_kit.Edge.Admission.{div_ceil_minor, minor_units}
use mcp_usage_kit.Prelude.{arith, checked_mul, none, some, u64_max, ℕ, ◌*◌, ◌+◌, ◌<◌, ◌↔◌, ◌≡◌, ◌≤◌}

-- A price in minor units covers the price in micros, by less than one minor unit more, and there is
-- none exactly if the price in micros does not fit in 64 bits: no call is served for less than it
-- costs, and none is priced at zero by an overflow.
pub minor_units-covers :
    (units unit_price_micros : ℕ)
    → ((minor_units units unit_price_micros ≡ none) ↔ (u64_max < units * unit_price_micros))
      × ((amount : ℕ)
          → minor_units units unit_price_micros ≡ some amount
          → (units * unit_price_micros ≤ amount * 10000)
            × (amount * 10000 < units * unit_price_micros + 10000))
unfolding minor_units checked_mul div_ceil_minor
minor_units-covers units unit_price_micros =
    ((λ h. ground arith, λ h. ground arith), λ amount h. (ground arith, ground arith))
