-- ===== src/Core/Charge/Verdict.antt =====
-- The verdict of charge.rs against its rule: charge on terminal delivery, never on request.
use mcp_usage_kit.Core.Method
use mcp_usage_kit.Core.Peek
use mcp_usage_kit.Core.Price
use mcp_usage_kit.Core.Charge.{
  Billable, Call, TaskPricing, attributed, billable, completed_task, decide_with_task_pricing,
  from_origin, origin_method, polled_task, task_poll,
}
use mcp_usage_kit.Core.Method.{Method}
use mcp_usage_kit.Core.Peek.{ResponsePeek, ResultType, TaskPeek, TaskStatus}
use mcp_usage_kit.Core.Price.{PriceBook}
use mcp_usage_kit.Prelude.{
  Option, Option-cases, Str, ap, arith, false, inl, inr, none, refl, some, ◌↔◌, ◌≡◌, ◌≢◌,
}

-- A method whose own answer can carry delivered work.
abbrev pub DeliversDirectly : Method → Type 0
DeliversDirectly m =
    (Method.is_discovery m ≡ false)
    × (Method.is_task_drive m ≡ false)
    × (m ≢ Method.subscriptions_listen)

-- What a completed task is owed: its origin's name and units, under the task's identifier.
abbrev pub OwedForTask : PriceBook → Str → TaskPricing → Billable → Type 0
OwedForTask prices task_id (from_origin origin) b =
    (b.method ≡ origin.method)
    × (b.name ≡ origin.name)
    × (b.units ≡ Price.units_for prices origin.method origin.name)
    × (b.idempotency_key ≡ some task_id)
OwedForTask prices task_id (attributed attribution) b =
    (b.method ≡ origin_method attribution.origin_kind)
    × (b.name ≡ none)
    × (b.units ≡ attribution.units)
    × (b.idempotency_key ≡ some task_id)

completed_task-OwedForTask :
    (prices : PriceBook) (task_id : Str) (origin : TaskPricing) (b : Billable)
    → (b ≡ completed_task prices task_id origin) ↔ OwedForTask prices task_id origin b
unfolding completed_task
completed_task-OwedForTask prices task_id (from_origin origin) b = (
  λ e. (
    ap (λ (x : Billable). x.method) e,
    ap (λ (x : Billable). x.name) e,
    ap (λ (x : Billable). x.units) e,
    ap (λ (x : Billable). x.idempotency_key) e,
  ),
  λ owed. cc,
)
completed_task-OwedForTask prices task_id (attributed attribution) b = (
  λ e. (
    ap (λ (x : Billable). x.method) e,
    ap (λ (x : Billable). x.name) e,
    ap (λ (x : Billable). x.units) e,
    ap (λ (x : Billable). x.idempotency_key) e,
  ),
  λ owed. cc,
)

-- The work that an answer delivers, with the charge that it is owed: a finished result of a method
-- that delivers, or a poll that reports a completed task whose identifier and origin are known.
pub data Delivers (call : Call) (answer : ResponsePeek) (prices : PriceBook)
    (pricing : Option TaskPricing) (b : Billable) : Type 0 where
  direct :
      answer.is_error ≡ false
      → DeliversDirectly call.method
      → answer.result_type ≡ ResultType.complete
      → b ≡ record {
        method = call.method;
        name = call.name;
        units = Price.units_for prices call.method call.name;
        idempotency_key = none;
      }
      → Delivers call answer prices pricing b
  polled :
      (origin : TaskPricing) (t : TaskPeek) (task_id : Str)
      → answer.is_error ≡ false
      → call.method ≡ Method.tasks_get
      → answer.result_type ≢ ResultType.task
      → answer.task ≡ some t
      → t.status ≡ TaskStatus.completed
      → t.task_id ≡ some task_id
      → pricing ≡ some origin
      → OwedForTask prices task_id origin b
      → Delivers call answer prices pricing b

task_poll_inv :
    (t : TaskPeek) (prices : PriceBook) (pricing : Option TaskPricing) (b : Billable)
    → task_poll t prices pricing ≡ billable b
    → (origin : TaskPricing) × (task_id : Str) × (pricing ≡ some origin)
      × (t.task_id ≡ some task_id)
      × (t.status ≡ TaskStatus.completed)
      × (b ≡ completed_task prices task_id origin)
unfolding task_poll Peek.delivered
task_poll_inv t prices none b h = ground arith
task_poll_inv t prices (some origin) b h = elim (Option-cases t.task_id) [
  | inl e ↦ ground arith
  | inr (task_id, e) ↦ (origin, task_id, refl, e, ground arith, ground arith)
]

module _ (call : Call) (answer : ResponsePeek) (prices : PriceBook)
    (pricing : Option TaskPricing) where
  Delivers-billable :
      (b : Billable)
      → Delivers call answer prices pricing b
      → decide_with_task_pricing call answer prices pricing ≡ billable b
  unfolding decide_with_task_pricing Peek.delivered Method.is_discovery Method.is_task_drive
  Delivers-billable b (direct ok m done e) = ground arith
  Delivers-billable b (polled origin t task_id ok m nt et es ei ep owed) =
      let e = (completed_task-OwedForTask prices task_id origin b).1 owed in ground arith

  billable-Delivers :
      (b : Billable)
      → decide_with_task_pricing call answer prices pricing ≡ billable b
      → Delivers call answer prices pricing b
  unfolding decide_with_task_pricing
  billable-Delivers b h = elim (Option-cases (polled_task call answer)) [
    | inl e ↦
        direct (ground arith) (ground arith, ground arith, ground arith) (ground arith)
          (ground arith)
    | inr (t, e) ↦
        let poll : task_poll t prices pricing ≡ billable b = ground arith in
        let (origin, task_id, ep, ei, es, eb) = task_poll_inv t prices pricing b poll in
        polled origin t task_id (ground arith) (ground arith) (ground arith) (ground arith) es ei ep
          ((completed_task-OwedForTask prices task_id origin b).0 eb)
  ]

  -- An exchange is billed exactly when it delivers work, and then for that work: a complete result of
  -- a method that is neither discovery nor task traffic nor a subscription, with its own method and
  -- name at the price of the book and without a key; or a poll that reports a completed task with an
  -- identifier and a known origin, with the origin's method, name and units, once under the task's
  -- identifier. Every other exchange is free.
  pub decide-billable_iff :
      (b : Billable)
      → (decide_with_task_pricing call answer prices pricing ≡ billable b)
        ↔ Delivers call answer prices pricing b
  decide-billable_iff b = (billable-Delivers b, Delivers-billable b)
