-- ===== src/Edge/Admission/Gate.antt =====
-- What the gate lets through.
use mcp_usage_kit.Core.Method
use mcp_usage_kit.Core.Charge.{Call}
use mcp_usage_kit.Core.Limits.{
  LimitDecision, LimitReason, Limits, Usage, allowed, assess_limits, is_allowed, rejected,
}
use mcp_usage_kit.Core.Method.{Method}
use mcp_usage_kit.Edge.Admission.{
  Payments, Plane, Priced, admit, decide_payment, decide_quota, gate, is_unavailable, price_of,
  refuse, refuse_limit, verification_unavailable, verified,
}
use mcp_usage_kit.Edge.Payment.{PaymentError}
use mcp_usage_kit.Prelude.{
  Bool-cases, Option, Option-cases, Str, arith, false, inl, inr, none, refl, some, true, ℕ, ◌≡◌,
  ◌≢◌, ◌⊎◌,
}
use mcp_usage_kit.Tower.Classify.Trust.{Named-cases}

Decision-cases :
    (decision : LimitDecision)
    → ((usage : Usage) × (decision ≡ allowed usage))
      ⊎ ((reason : LimitReason) × (decision ≡ rejected reason))
Decision-cases (allowed usage) = inl (usage, refl)
Decision-cases (rejected reason) = inr (reason, refl)

allowed_not :
    (usage : Usage) (decision : LimitDecision)
    → decision ≡ allowed usage
    → is_allowed decision ≢ false
unfolding is_allowed
allowed_not usage decision e r = ground arith

refused_limit :
    (reason : LimitReason) (payments : Option Payments) (priced : Option Priced)
    (payment_error : Option PaymentError) (receipt : Option Str)
    → refuse_limit reason payments priced payment_error ≢ admit receipt
unfolding refuse_limit
refused_limit reason none priced payment_error receipt h = ground arith
refused_limit reason (some payments) none payment_error receipt h = ground arith
refused_limit reason (some payments) (some priced) payment_error receipt h = ground arith

-- A quota that rejects more usage admits nothing.
over_quota-refused :
    (quota : Option (Usage × ℕ × Limits)) (payments : Option Payments) (priced : Option Priced)
    (payment_error : Option PaymentError) (committed : Usage) (unit_price : ℕ) (limits : Limits)
    (receipt : Option Str)
    → quota ≡ some (committed, unit_price, limits)
    → is_allowed (assess_limits committed 0 unit_price limits) ≡ false
    → decide_quota quota payments priced payment_error ≢ admit receipt
unfolding decide_quota
over_quota-refused quota payments priced payment_error committed unit_price limits receipt q r h =
    elim (Decision-cases (assess_limits committed 0 unit_price limits)) [
      | inl (usage, e) ↦
          absurd (allowed_not usage (assess_limits committed 0 unit_price limits) e r)
      | inr (reason, e) ↦ refused_limit reason payments priced payment_error receipt (ground arith)
    ]

verified-facts :
    (quota : Option (Usage × ℕ × Limits)) (payments : Option Payments) (price : Option Priced)
    (committed : Usage) (unit_price : ℕ) (limits : Limits) (receipt : Option Str)
    → quota ≡ some (committed, unit_price, limits)
    → is_allowed (assess_limits committed 0 unit_price limits) ≡ false
    → decide_payment (verified payments price) quota payments price ≡ admit receipt
    → (method : Payments) × (priced : Priced) × (text : Str) × (payments ≡ some method)
      × (method.presented ≡ true)
      × (price ≡ some priced)
      × (method.verify priced ≡ inr text)
      × (receipt ≡ some text)
unfolding verified decide_payment
verified-facts quota none price c u l receipt q r h =
    absurd (over_quota-refused quota none price none c u l receipt q r h)
verified-facts quota (some method) none c u l receipt q r h =
    absurd (over_quota-refused quota (some method) none none c u l receipt q r h)
verified-facts quota (some method) (some priced) c u l receipt q r h =
    let refused = λ (error : Option PaymentError).
      over_quota-refused quota (some method) (some priced) error c u l receipt q r in
    elim (Bool-cases method.presented) [
      | inl e ↦ elim (Named-cases (method.verify priced)) [
        | inl (error, f) ↦ absurd (ground (arith, refused (some error)))
        | inr (text, f) ↦ (method, priced, text, refl, e, refl, f, ground arith)
      ]
      | inr e ↦ absurd (ground (arith, refused none))
    ]

-- A call of a method that delivers priced work, of a tenant whose fresh quota rejects more usage,
-- is admitted only by a presented credential that the payment method verified for exactly this
-- priced call, and then with the receipt of that payment.
pub gate-over_quota :
    (plane : Plane) (payments : Option Payments) (call : Call) (committed : Usage) (unit_price : ℕ)
    (limits : Limits) (receipt : Option Str)
    → Method.delivers_priced_work call.method ≡ true
    → plane.quota ≡ some (committed, unit_price, limits)
    → is_allowed (assess_limits committed 0 unit_price limits) ≡ false
    → gate plane payments call ≡ admit receipt
    → (method : Payments) × (priced : Priced) × (text : Str) × (payments ≡ some method)
      × (method.presented ≡ true)
      × (price_of plane call ≡ some priced)
      × (method.verify priced ≡ inr text)
      × (receipt ≡ some text)
unfolding gate
gate-over_quota plane payments call committed unit_price limits receipt p q r h =
    verified-facts plane.quota payments (price_of plane call) committed unit_price limits receipt q
      r (ground arith)

-- A tenant whose quota allows the call is never asked to pay and never refused for its usage,
-- whatever credential it presents: the gate admits its call, or says that the verification of the
-- credential is unavailable.
pub gate-within_quota :
    (plane : Plane) (payments : Option Payments) (call : Call) (committed usage : Usage)
    (unit_price : ℕ) (limits : Limits)
    → plane.quota ≡ some (committed, unit_price, limits)
    → assess_limits committed 0 unit_price limits ≡ allowed usage
    → ((receipt : Option Str) × (gate plane payments call ≡ admit receipt))
      ⊎ (gate plane payments call ≡ refuse verification_unavailable)
unfolding gate decide_payment decide_quota
gate-within_quota plane payments call committed usage unit_price limits q r =
    let answer = verified payments (price_of plane call) in
    elim (Bool-cases (Method.delivers_priced_work call.method)) [
      | inl p ↦ elim (Option-cases answer) [
        | inl e ↦ inl (none, ground arith)
        | inr (inl error, e) ↦ elim (Bool-cases (is_unavailable error)) [
          | inl f ↦ inr (ground arith)
          | inr f ↦ inl (none, ground arith)
        ]
        | inr (inr receipt, e) ↦ inl (some receipt, ground arith)
      ]
      | inr p ↦ inl (none, ground arith)
    ]
