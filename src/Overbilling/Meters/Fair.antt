-- ===== src/Overbilling/Meters/Fair.antt =====
-- crates/mcp-overbilling/src/meters.rs: what the meter of delivered work charges for one exchange.
use mathlib.Core.Option
use mcp_usage_kit.Core.Method
use mcp_usage_kit.Core.Peek
use mcp_usage_kit.Core.Price
use mcp_usage_kit.Core.Charge.{
  Call, Charge, billable, completed_task, decide_with_task_origin, decide_with_task_pricing,
  direct_result, free, from_origin, is_subscription, is_task_result, is_tasks_get,
  missing_task_attribution, missing_task_id, polled_task, task_drive, task_poll,
}
use mcp_usage_kit.Core.Method.{Method}
use mcp_usage_kit.Core.Peek.{ResponsePeek, ResultType, TaskPeek}
use mcp_usage_kit.Core.Price.{PriceBook}
use mcp_usage_kit.Overbilling.Meters.{task_id_of}
use mcp_usage_kit.Prelude.{
  Bool, Option, Str, ap, false, if◌then◌else◌, inl, inr, none, refl, some, true, ℕ, ◌>>=◌, ◌≡◌, ◌⊎◌,
}

abbrev pub units_of : PriceBook → Call → ℕ
units_of prices call = Price.units_for prices call.method call.name

-- A charge is for the call itself, or for what commissioned the task that the response reports.
abbrev pub Fair : Call → ResponsePeek → PriceBook → Option Call → Charge → Type 0
Fair call response prices origin (free reason) = Unit
Fair call response prices origin (billable bill) =
    (is_task_result response.result_type ≡ false)
    × (((bill.idempotency_key ≡ none) × (bill.units ≡ units_of prices call))
        ⊎ ((commissioned : Call) × (key : Str) × (bill.idempotency_key ≡ some key)
            × (origin ≡ some commissioned)
            × (bill.units ≡ units_of prices commissioned)
            × (task_id_of response ≡ some key)))

module _ (call : Call) (response : ResponsePeek) (prices : PriceBook) (origin : Option Call) where
  Fair-if :
      (b : Bool) (x y : Charge)
      → Fair call response prices origin x
      → (b ≡ false → Fair call response prices origin y)
      → Fair call response prices origin (if b then x else y)
  Fair-if true x y fx fy = fx
  Fair-if false x y fx fy = fy refl

  Fair-delivered :
      (task_id : Option Str) (known : Option Call)
      → is_task_result response.result_type ≡ false
      → task_id_of response ≡ task_id
      → origin ≡ known
      → Fair call response prices origin (elim task_id [
        | none ↦ free missing_task_id
        | some id ↦ elim (Option.map from_origin known) [
          | none ↦ free missing_task_attribution
          | some pricing ↦ billable (completed_task prices id pricing)
        ]
      ])
  unfolding completed_task
  Fair-delivered none known h e o = tt
  Fair-delivered (some id) none h e o = tt
  Fair-delivered (some id) (some commissioned) h e o = (h, inr (commissioned, id, refl, o, refl, e))

  Fair-poll :
      (task : TaskPeek)
      → is_task_result response.result_type ≡ false
      → response.task ≡ some task
      → Fair call response prices origin (task_poll task prices (Option.map from_origin origin))
  unfolding task_poll
  Fair-poll task h e =
      Fair-if (Peek.delivered task.status) _ _
        (Fair-delivered task.task_id origin h
          (ap (λ (t : Option TaskPeek). t >>= λ reported. reported.task_id) e) refl)
        (λ d. Fair-if (Peek.is_terminal task.status) _ _ tt (λ t. tt))

  Fair-direct :
      (result_type : ResultType)
      → is_task_result response.result_type ≡ false
      → Fair call response prices origin (direct_result call result_type prices)
  unfolding direct_result
  Fair-direct ResultType.complete h = (h, inl (refl, refl))
  Fair-direct ResultType.input_required h = tt
  Fair-direct ResultType.task h = tt
  Fair-direct (ResultType.unknown s) h = tt
  Fair-direct ResultType.absent h = tt

  Fair-polled :
      (polled : Option TaskPeek)
      → is_task_result response.result_type ≡ false
      → ((task : TaskPeek) → polled ≡ some task → response.task ≡ some task)
      → Fair call response prices origin (elim polled [
        | some task ↦ task_poll task prices (Option.map from_origin origin)
        | none ↦
            if Method.is_task_drive call.method
            then free task_drive
            else direct_result call response.result_type prices
      ])
  Fair-polled (some task) h e = Fair-poll task h (e task refl)
  Fair-polled none h e =
      Fair-if (Method.is_task_drive call.method) _ _ tt (λ d. Fair-direct response.result_type h)

  polled-reported :
      (is_poll : Bool) (task : TaskPeek)
      → (if is_poll then response.task else none) ≡ some task
      → response.task ≡ some task
  polled-reported true task e = e
  polled-reported false task e = absurd cc

  pub decide-Fair :
      Fair call response prices origin (decide_with_task_origin call response prices origin)
  unfolding decide_with_task_origin decide_with_task_pricing
  decide-Fair = Fair-if response.is_error _ _ tt (λ a.
      Fair-if (Method.is_discovery call.method) _ _ tt (λ b.
        Fair-if (is_subscription call.method) _ _ tt (λ c.
          Fair-if (is_task_result response.result_type) _ _ tt (λ h.
            Fair-polled (polled_task call response) h
              (polled-reported (is_tasks_get call.method))))))
