-- ===== src/Core/Limits.antt =====
-- crates/mcp-usage-core/src/limits.rs: the quota and spend-cap admission decision.
pub mod Exact
mod Tests
use mcp_usage_kit.Prelude.{
  Bool, Option, checked_add, checked_mul, false, if◌then◌else◌, is_some_and, ltb, none, some, true,
  ℕ,
}

pub record Limits : Type 0 where
  pub max_units : Option ℕ
  pub max_spend_micros : Option ℕ

pub record Usage : Type 0 where
  pub units : ℕ
  pub spend_micros : ℕ

pub data LimitReason : Type 0 where
  quota_exceeded spend_cap_exceeded arithmetic_overflow : LimitReason

pub data LimitDecision : Type 0 where
  allowed : Usage → LimitDecision
  rejected : LimitReason → LimitDecision

unfoldable pub is_allowed : LimitDecision → Bool
is_allowed (allowed u) = true
is_allowed (rejected r) = false

-- `limit.is_some_and(|limit| total > limit)`.
abbrev pub exceeds : Option ℕ → ℕ → Bool
exceeds limit total = is_some_and limit (λ l. ltb l total)

unfoldable pub assess_spend : ℕ → Usage → ℕ → ℕ → Limits → LimitDecision
assess_spend units current requested_units unit_price_micros limits =
    elim (checked_mul requested_units unit_price_micros) [
      | none ↦ rejected arithmetic_overflow
      | some incremental ↦ elim (checked_add current.spend_micros incremental) [
        | none ↦ rejected arithmetic_overflow
        | some spend ↦
            if exceeds limits.max_spend_micros spend
            then rejected spend_cap_exceeded
            else allowed (record { units = units; spend_micros = spend })
      ]
    ]

unfoldable pub assess_limits : Usage → ℕ → ℕ → Limits → LimitDecision
unfolding assess_spend checked_add checked_mul
assess_limits current requested_units unit_price_micros limits =
    elim (checked_add current.units requested_units) [
      | none ↦ rejected arithmetic_overflow
      | some units ↦
          if exceeds limits.max_units units
          then rejected quota_exceeded
          else assess_spend units current requested_units unit_price_micros limits
    ]
