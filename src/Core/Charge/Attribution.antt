-- ===== src/Core/Charge/Attribution.antt =====
-- Pre-priced attribution of durable tasks, and sequences of round trips, in charge.rs.
use mcp_usage_kit.Core.Method
use mcp_usage_kit.Core.Price
use mcp_usage_kit.Core.Charge.{
  Billable, Call, Charge, FreeReason, TaskAttribution, billable, charge_key, charge_units,
  completed_task, decide, decide_with_task_attribution, decide_with_task_origin,
  decide_with_task_pricing, free, from_call, origin_method,
}
use mcp_usage_kit.Core.Charge.Verdict.{DeliversDirectly}
use mcp_usage_kit.Core.Method.{Method}
use mcp_usage_kit.Core.Peek.{ResponsePeek, ResultType}
use mcp_usage_kit.Core.Price.{PriceBook}
use mcp_usage_kit.Prelude.{
  Bool, Bool-cases, List, [], arith, false, if◌then◌else◌, inl, inr, none, not, some, suc, true, ℕ,
  ◌&&◌, ◌*◌, ◌+◌, ◌↔◌, ◌∷◌, ◌≡◌,
}

-- Two verdicts that bill alike: the same units under the same key, or the same free reason.
pub record SameBill (c d : Charge) : Type 0 where
  pub units : charge_units c ≡ charge_units d
  pub key : charge_key c ≡ charge_key d
  pub reason : (r : FreeReason) → (c ≡ free r) ↔ (d ≡ free r)

-- Storing the attribution of the call that created a task, instead of the call itself, changes no
-- bill: for every exchange the verdict has the same units, the same idempotency key and the same
-- free reason as with the original call in hand, at the prices in force when it was created.
pub attribution-SameBill :
    (call origin : Call) (answer : ResponsePeek) (prices : PriceBook)
    → SameBill
        (decide_with_task_origin call answer prices (some origin))
        (decide_with_task_attribution call answer prices (some (from_call origin prices)))
unfolding decide_with_task_origin decide_with_task_attribution decide_with_task_pricing from_call
    charge_units charge_key completed_task
attribution-SameBill call origin answer prices = record {
  units = ground arith;
  key = ground arith;
  reason = λ r. (λ h. ground arith, λ h. ground arith);
}

-- A stored attribution puts no name, and one of four fixed methods, into the charge of a poll.
pub attribution_redacts :
    (call : Call) (answer : ResponsePeek) (prices : PriceBook) (a : TaskAttribution) (b : Billable)
    → call.method ≡ Method.tasks_get
    → decide_with_task_attribution call answer prices (some a) ≡ billable b
    → (b.name ≡ none) × (b.units ≡ a.units) × (b.method ≡ origin_method a.origin_kind)
unfolding decide_with_task_attribution decide_with_task_pricing completed_task Method.is_task_drive
attribution_redacts call answer prices a b m h = ground arith

-- The units of all verdicts over the answers to the round trips of one call.
unfoldable pub total_units : Call → PriceBook → List ResponsePeek → ℕ
total_units call prices [] = 0
total_units call prices (answer ∷ answers) =
    charge_units (decide call answer prices) + total_units call prices answers

abbrev is_complete : ResultType → Bool
is_complete ResultType.complete = true
is_complete _ = false

abbrev finishes : ResponsePeek → Bool
finishes answer = not answer.is_error && is_complete answer.result_type

-- How many answers finish the call.
unfoldable pub finished : List ResponsePeek → ℕ
finished [] = 0
finished (answer ∷ answers) =
    let rest = finished answers in if finishes answer then suc rest else rest

direct_units :
    (call : Call) (prices : PriceBook) (answer : ResponsePeek)
    → DeliversDirectly call.method
    → charge_units (decide call answer prices)
      ≡ (if finishes answer then Price.units_for prices call.method call.name else 0)
unfolding decide decide_with_task_pricing charge_units Method.is_discovery Method.is_task_drive
direct_units call prices answer d = ground arith

-- However many round trips a call takes, and whatever interim results and errors come between, it
-- is billed its price once for each finished result and nothing for the other answers.
pub total_units-finished :
    (call : Call) (prices : PriceBook) (answers : List ResponsePeek)
    → DeliversDirectly call.method
    → total_units call prices answers
      ≡ finished answers * Price.units_for prices call.method call.name
unfolding total_units finished
total_units-finished call prices [] d = omega arith
total_units-finished call prices (answer ∷ answers) d =
    let step = direct_units call prices answer d in
    let rest = total_units-finished call prices answers d in
    elim (Bool-cases (finishes answer)) [
      | inl e ↦ rw e (omega (arith, rw e at step))
      | inr e ↦ rw e (omega (arith, rw e at step))
    ]

-- Polling a task, supplying its input or cancelling it is never billed as a call of its own: with
-- no attribution of the task at hand such an exchange costs nothing, whatever the answer.
pub task_drive_free :
    (call : Call) (answer : ResponsePeek) (prices : PriceBook)
    → Method.is_task_drive call.method ≡ true
    → charge_units (decide call answer prices) ≡ 0
unfolding decide decide_with_task_pricing charge_units
task_drive_free call answer prices d = ground arith
