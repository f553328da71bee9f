-- ===== src/Core/Limits/Exact.antt =====
-- `assess_limits` against exact arithmetic: no wrap-around ever turns into an allowance.
use mcp_usage_kit.Core.Limits.{
  LimitReason, Limits, Usage, allowed, arithmetic_overflow, assess_limits, is_allowed,
  quota_exceeded, rejected, spend_cap_exceeded,
}
use mcp_usage_kit.Prelude.{
  Option, arith, none, some, true, u64_max, ℕ, ◌*◌, ◌+◌, ◌<◌, ◌↔◌, ◌≡◌, ◌≤◌, ◌⊎◌,
}

-- A total within an optional limit; `none` is unbounded.
abbrev pub Within : Option ℕ → ℕ → Type 0
Within none total = Unit {0}
Within (some limit) total = total ≤ limit

-- The totals that a reservation leads to, in unbounded arithmetic.
abbrev pub reserved : Usage → ℕ → ℕ → Usage
reserved current n price = record {
  units = current.units + n;
  spend_micros = current.spend_micros + n * price;
}

-- A total within its limit and within 64 bits.
pub record Fits (limits : Limits) (u : Usage) : Type 0 where
  pub units_limit : Within limits.max_units u.units
  pub spend_limit : Within limits.max_spend_micros u.spend_micros
  pub units_word : u.units ≤ u64_max
  pub spend_word : u.spend_micros ≤ u64_max

-- A request is admitted exactly when the exact new totals fit both limits and 64 bits, and then
-- with those totals; the boundary values themselves are admitted.
pub assess_limits-allowed_iff :
    (current : Usage) (n price : ℕ) (limits : Limits) (u : Usage)
    → (assess_limits current n price limits ≡ allowed u)
      ↔ ((u ≡ reserved current n price) × Fits limits (reserved current n price))
unfolding assess_limits
assess_limits-allowed_iff current n price limits u = (λ h. ground arith, λ h. ground arith)

-- A total beyond an optional limit.
abbrev pub Over : Option ℕ → ℕ → Type 0
Over none total = ⊥
Over (some limit) total = limit < total

-- What each reason for a refusal means, in unbounded arithmetic.
abbrev pub Because : Limits → Usage → LimitReason → Type 0
Because limits u quota_exceeded = (u.units ≤ u64_max) × Over limits.max_units u.units
Because limits u spend_cap_exceeded =
    (u.units ≤ u64_max)
    × Within limits.max_units u.units
    × (u.spend_micros ≤ u64_max)
    × Over limits.max_spend_micros u.spend_micros
Because limits u arithmetic_overflow =
    (u64_max < u.units) ⊎ (Within limits.max_units u.units × (u64_max < u.spend_micros))

-- Every refusal gives the first reason that holds of the exact totals: units beyond 64 bits, then
-- the quota, then a spend beyond 64 bits, then the spend cap.
pub assess_limits-Because :
    (current : Usage) (n price : ℕ) (limits : Limits) (r : LimitReason)
    → assess_limits current n price limits ≡ rejected r
    → Because limits (reserved current n price) r
unfolding assess_limits
assess_limits-Because current n price limits quota_exceeded h = ground arith
assess_limits-Because current n price limits spend_cap_exceeded h = ground arith
assess_limits-Because current n price limits arithmetic_overflow h = ground arith

-- A smaller request than an admitted one, at the same price, is admitted.
pub assess_limits_mono :
    (current : Usage) (n m price : ℕ) (limits : Limits)
    → m ≤ n
    → is_allowed (assess_limits current n price limits) ≡ true
    → is_allowed (assess_limits current m price limits) ≡ true
unfolding assess_limits is_allowed
assess_limits_mono current n m price limits h a =
    let spend_le : m * price ≤ n * price = grind arith in ground arith
