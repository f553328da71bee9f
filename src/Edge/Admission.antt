-- ===== src/Edge/Admission.antt =====
-- crates/mcp-usage-edge/src/admission.rs: whether a classified call may proceed, and what it is
-- refused with. What the control plane's cache holds for the presented key, and how the payment
-- method answers for a priced call, are arguments; responses are what they are built from.
pub mod Gate
pub mod Minor
mod Tests
use mathlib.Core.Option
use mcp_usage_kit.Core.Method
use mcp_usage_kit.Core.Price
use mcp_usage_kit.Core.Charge.{Call}
use mcp_usage_kit.Core.Limits.{
  LimitReason, Limits, Usage, allowed, arithmetic_overflow, assess_limits, quota_exceeded, rejected,
  spend_cap_exceeded,
}
use mcp_usage_kit.Core.Method.{Method}
use mcp_usage_kit.Edge.Payment.{PaymentError, required, unavailable}
use mcp_usage_kit.Edge.Payment.History.{presented}
use mcp_usage_kit.Prelude.{
  Bool, Option, Str, [], checked_mul, false, if◌then◌else◌, inl, inr, none, not, some, str, true, ℕ,
  ◌%◌, ◌+◌, ◌/◌, ◌==◌, ◌>>=◌, ◌⊎◌,
}
use mcp_usage_kit.Tower.Completion.{Tenant}

pub record Priced : Type 0 where
  pub tenant : Str
  pub method : Str
  pub name : Str
  pub amount_minor : ℕ

pub data Refused : Type 0 where
  over_quota : LimitReason → Refused
  payment_required : PaymentError → Priced → Refused
  verification_unavailable : Refused

pub data Verdict : Type 0 where
  admit : Option Str → Verdict
  refuse : Refused → Verdict

-- The presented key's entry in the control plane's cache, its quota only while it is fresh.
pub record Plane : Type 0 where
  pub tenant : Option Tenant
  pub quota : Option (Usage × ℕ × Limits)

-- A payment method with the presented credential, if there is one: its answer for a priced call.
pub record Payments : Type 0 where
  pub presented : Bool
  pub verify : Priced → PaymentError ⊎ Str

-- `u64::div_ceil` by ten thousand.
unfoldable pub div_ceil_minor : ℕ → ℕ
div_ceil_minor micros = micros / 10000 + (if micros % 10000 == 0 then 0 else 1)

unfoldable pub minor_units : ℕ → ℕ → Option ℕ
minor_units units unit_price_micros =
    Option.map div_ceil_minor (checked_mul units unit_price_micros)

unfoldable pub reason_code : LimitReason → Str
reason_code quota_exceeded = str "quota_exceeded"
reason_code spend_cap_exceeded = str "spend_cap_exceeded"
reason_code arithmetic_overflow = str "usage_unrepresentable"

abbrev name_or_empty : Option Str → Str
name_or_empty none = []
name_or_empty (some name) = name

unfoldable pub priced_at : Tenant → Call → ℕ → Priced
priced_at tenant call amount_minor = record {
  tenant = tenant.id;
  method = Method.as_str call.method;
  name = name_or_empty call.name;
  amount_minor = amount_minor;
}

unfoldable pub price_for : Option Tenant → Call → ℕ → Option Priced
price_for none call unit_price_micros = none
price_for (some tenant) call unit_price_micros =
    Option.map (priced_at tenant call)
      (minor_units (Price.units_for tenant.prices call.method call.name) unit_price_micros)

unfoldable pub price_of : Plane → Call → Option Priced
price_of plane call = plane.quota >>= λ quota. price_for plane.tenant call quota.1

abbrev or_required : Option PaymentError → PaymentError
or_required none = required
or_required (some error) = error

unfoldable pub refuse_limit :
    LimitReason → Option Payments → Option Priced → Option PaymentError → Verdict
refuse_limit reason (some payments) (some priced) payment_error =
    refuse (payment_required (or_required payment_error) priced)
refuse_limit reason _ _ payment_error = refuse (over_quota reason)

-- The quota's verdict, after a credential that did not verify, or none.
unfoldable pub decide_quota :
    Option (Usage × ℕ × Limits) → Option Payments → Option Priced → Option PaymentError → Verdict
decide_quota none payments priced payment_error = admit none
decide_quota (some (committed, unit_price, limits)) payments priced payment_error =
    elim (assess_limits committed 0 unit_price limits) [
      | allowed usage ↦ admit none
      | rejected reason ↦ refuse_limit reason payments priced payment_error
    ]

unfoldable pub is_unavailable : PaymentError → Bool
is_unavailable unavailable = true
is_unavailable _ = false

-- The answer of a presented credential, where a priced call and a payment method meet one.
unfoldable pub verified : Option Payments → Option Priced → Option (PaymentError ⊎ Str)
verified (some payments) (some priced) =
    if payments.presented then some (payments.verify priced) else none
verified _ _ = none

unfoldable pub decide_payment :
    Option (PaymentError ⊎ Str)
    → Option (Usage × ℕ × Limits)
    → Option Payments
    → Option Priced
    → Verdict
decide_payment none quota payments priced = decide_quota quota payments priced none
decide_payment (some (inr receipt)) quota payments priced = admit (some receipt)
decide_payment (some (inl error)) quota payments priced =
    if is_unavailable error
    then refuse verification_unavailable
    else decide_quota quota payments priced (some error)

unfoldable pub gate : Plane → Option Payments → Call → Verdict
gate plane payments call =
    if not (Method.delivers_priced_work call.method)
    then admit none
    else decide_payment (verified payments (price_of plane call)) plane.quota payments
        (price_of plane call)
