-- ===== src/Tower/Completion.antt =====
-- crates/mcp-usage-tower/src/layer.rs, `Completion::finish`: the accounting of one terminal response,
-- with the in-memory task store and the buffer of the billing pipeline. Metrics are a log, the
-- latest entry first. The in-memory store fails no operation, so the branches that log a failing
-- store are not taken. Caching the response, which follows, is not part of this file.
pub mod Restore
pub mod Once
mod Tests
use mcp_usage_kit.Core.Peek
use mcp_usage_kit.Tower.Task
use mcp_usage_kit.Core.Charge.{
  Billable, Call, Charge, FreeReason, TaskAttribution, billable, decide_with_task_attribution, free,
  from_call, is_task_result, is_tasks_get,
}
use mcp_usage_kit.Core.Json.{Value}
use mcp_usage_kit.Core.Peek.{ResponsePeek}
use mcp_usage_kit.Core.Price.{PriceBook}
use mcp_usage_kit.Export.Buffer.{
  BufferState, RecordError, RecordOutcome, UsageEvent, duplicate, record_event, recorded,
  zero_units,
}
use mcp_usage_kit.Prelude.{
  Bool, List, Option, Str, false, if◌then◌else◌, inl, inr, is_some_and, none, not, some, str_eq, ℕ,
  ◌&&◌, ◌>>=◌, ◌∷◌, ◌⊎◌,
}
use mcp_usage_kit.Tower.Task.{InMemoryTaskStore}

pub data UnaccountedReason : Type 0 where
  media_type unparseable task_id_mismatch oversized : UnaccountedReason

pub data Metric : Type 0 where
  unrecognized_response : UnaccountedReason → Metric
  record_failure counted_duplicate : Metric
  billed : ℕ → Metric
  counted_free : FreeReason → Metric

pub record Tenant : Type 0 where
  pub id : Str
  pub billing_customer_id : Str
  pub prices : PriceBook

-- What the service keeps: task attribution, buffered usage and metrics.
pub record Books : Type 0 where
  pub tasks : InMemoryTaskStore
  pub buffer : BufferState
  pub metrics : List Metric

pub record Completion : Type 0 where
  pub tenant : Tenant
  pub meter_name : Str
  pub max_idempotency_keys : ℕ
  pub legacy : Bool
  pub call : Call
  pub requested_task_id : Option Str

abbrev pub count : Metric → Books → Books
count metric books = record books { metrics = metric ∷ books.metrics }

-- On a revision that cannot say "complete", a result is the delivered work.
unfoldable pub observed : Completion → Value → ResponsePeek
observed completion body =
    let response = Peek.response body in
    if completion.legacy
    then Peek.with_legacy_delivery response completion.call.method
    else response

unfoldable pub response_task_id : ResponsePeek → Option Str
response_task_id response = response.task >>= λ task. task.task_id

unfoldable pub differ : Option Str → Option Str → Bool
differ (some requested) (some returned) = not (str_eq requested returned)
differ _ _ = false

-- A `tasks/get` answered with another task than it asked for.
unfoldable pub mismatched : Completion → ResponsePeek → Bool
mismatched completion response =
    is_tasks_get completion.call.method
    && differ completion.requested_task_id (response_task_id response)

unfoldable pub insert_if :
    Option Str → Option TaskAttribution → Str → InMemoryTaskStore → InMemoryTaskStore
insert_if (some task_id) (some origin) tenant tasks = Task.insert tasks tenant task_id origin
insert_if _ _ tenant tasks = tasks

-- A created task is attributed to its call.
unfoldable pub retain_created : Completion → ResponsePeek → InMemoryTaskStore → InMemoryTaskStore
retain_created completion response tasks =
    if is_task_result response.result_type
    then insert_if (response_task_id response)
        (some (from_call completion.call completion.tenant.prices)) completion.tenant.id tasks
    else tasks

unfoldable pub completed_task_status : ResponsePeek → Bool
completed_task_status response = is_some_and response.task (λ task. Peek.delivered task.status)

unfoldable pub terminal_task_status : ResponsePeek → Bool
terminal_task_status response = is_some_and response.task (λ task. Peek.is_terminal task.status)

-- Only a delivered completion claims the attribution of its task.
unfoldable pub claim_for :
    Option Str → Str → InMemoryTaskStore → Option TaskAttribution × InMemoryTaskStore
claim_for none tenant tasks = (none, tasks)
claim_for (some task_id) tenant tasks = Task.claim tasks tenant task_id

unfoldable pub claim_origin :
    Completion → ResponsePeek → InMemoryTaskStore → Option TaskAttribution × InMemoryTaskStore
claim_origin completion response tasks =
    if is_tasks_get completion.call.method
      && completed_task_status response
      && not response.is_error
    then claim_for (response_task_id response) completion.tenant.id tasks
    else (none, tasks)

unfoldable pub usage_event : Completion → ℕ → Billable → UsageEvent
usage_event completion now bill = record {
  tenant_id = completion.tenant.id;
  customer_id = completion.tenant.billing_customer_id;
  meter = completion.meter_name;
  units = bill.units;
  idempotency_key = bill.idempotency_key;
  timestamp = now;
}

-- A claimed attribution goes back to the store.
unfoldable pub restore_origin :
    Completion → ResponsePeek → Option TaskAttribution → InMemoryTaskStore → InMemoryTaskStore
restore_origin completion response origin tasks =
    insert_if (response_task_id response) origin completion.tenant.id tasks

unfoldable pub record_answer :
    Completion
    → ResponsePeek
    → Option TaskAttribution
    → ℕ
    → RecordError ⊎ RecordOutcome
    → Books
    → Books
record_answer completion response origin units (inr recorded) books = count (billed units) books
record_answer completion response origin units (inr zero_units) books = count (billed units) books
record_answer completion response origin units (inr duplicate) books = count counted_duplicate books
record_answer completion response origin units (inl error) books =
    count record_failure
      (record books { tasks = restore_origin completion response origin books.tasks })

unfoldable pub or_else : Option Str → Option Str → Option Str
or_else none other_id = other_id
or_else (some id) other_id = some id

unfoldable pub remove_if : Option Str → Str → InMemoryTaskStore → InMemoryTaskStore
remove_if none tenant tasks = tasks
remove_if (some task_id) tenant tasks = Task.remove tasks tenant task_id

-- A task that ended without delivering has nothing left to charge.
unfoldable pub clean_up : Completion → ResponsePeek → InMemoryTaskStore → InMemoryTaskStore
clean_up completion response tasks =
    if terminal_task_status response && not (completed_task_status response)
    then remove_if (or_else (response_task_id response) completion.requested_task_id)
        completion.tenant.id tasks
    else tasks

unfoldable pub settle_charge :
    Completion → ResponsePeek → ℕ → Option TaskAttribution → Charge → Books → Books
settle_charge completion response now origin (billable bill) books =
    let answer =
      record_event completion.max_idempotency_keys (usage_event completion now bill) books.buffer in
    record_answer completion response origin bill.units answer.0
      (record books { buffer = answer.1 })
settle_charge completion response now origin (free reason) books =
    count (counted_free reason) (record books {
      tasks = clean_up completion response (restore_origin completion response origin books.tasks);
    })

unfoldable pub account : Completion → ℕ → ResponsePeek → Books → Books
account completion now response books =
    if mismatched completion response
    then count (unrecognized_response task_id_mismatch) books
    else let claimed =
        claim_origin completion response (retain_created completion response books.tasks) in
      settle_charge completion response now claimed.0
        (decide_with_task_attribution completion.call response completion.tenant.prices claimed.0)
        (record books { tasks = claimed.1 })

-- The body is the terminal response, or why there is none.
unfoldable pub finish : Completion → ℕ → UnaccountedReason ⊎ Value → Books → Books
finish completion now (inl reason) books = count (unrecognized_response reason) books
finish completion now (inr body) books = account completion now (observed completion body) books
