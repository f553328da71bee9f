-- ===== src/Core/Limits/Tests.antt =====
-- Admission at and beyond the boundaries.
use mcp_usage_kit.Core.Limits.{Limits, Usage, allowed, arithmetic_overflow, assess_limits, rejected}
use mcp_usage_kit.Core.Limits.Exact.{Fits, assess_limits-allowed_iff, reserved}
use mcp_usage_kit.Prelude.{none, refl, some, u64_max, ◌↔◌, ◌≡◌}

abbrev current : Usage
current = record { units = 8; spend_micros = 800 }

abbrev limits : Limits
limits = record { max_units = some 10; max_spend_micros = some 1000 }

boundary_allowed :
    assess_limits current 2 100 limits ≡ allowed (record { units = 10; spend_micros = 1000 })
unfolding assess_limits
boundary_allowed = refl

overflow_rejected :
    assess_limits current u64_max 2 (record { max_units = none; max_spend_micros = none })
    ≡ rejected arithmetic_overflow
unfolding assess_limits
overflow_rejected = refl

assess_limits-allowed_iff_example :
    (assess_limits current 2 100 limits ≡ allowed (reserved current 2 100))
    ↔ ((reserved current 2 100 ≡ reserved current 2 100) × Fits limits (reserved current 2 100))
assess_limits-allowed_iff_example =
    assess_limits-allowed_iff current 2 100 limits (reserved current 2 100)
