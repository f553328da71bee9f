-- ===== src/Core/Charge.antt =====
-- crates/mcp-usage-core/src/charge.rs: what a request/response pair is worth.
pub mod Reasons
pub mod Verdict
pub mod Attribution
mod Tests
use mathlib.Core.Option
use mcp_usage_kit.Core.Method
use mcp_usage_kit.Core.Peek
use mcp_usage_kit.Core.Price
use mcp_usage_kit.Core.Method.{Method}
use mcp_usage_kit.Core.Peek.{ResponsePeek, ResultType, TaskPeek}
use mcp_usage_kit.Core.Price.{PriceBook}
use mcp_usage_kit.Prelude.{
  Bool, List, Option, Str, [], false, if◌then◌else◌, none, some, str, true, ℕ, ◌∷◌,
}

pub record Call : Type 0 where
  pub method : Method
  pub name : Option Str

pub data TaskOriginKind : Type 0 where
  tools_call resources_read prompts_get other : TaskOriginKind

unfoldable pub from_method : Method → TaskOriginKind
from_method Method.tools_call = TaskOriginKind.tools_call
from_method Method.resources_read = TaskOriginKind.resources_read
from_method Method.prompts_get = TaskOriginKind.prompts_get
from_method _ = TaskOriginKind.other

unfoldable pub origin_method : TaskOriginKind → Method
origin_method TaskOriginKind.tools_call = Method.tools_call
origin_method TaskOriginKind.resources_read = Method.resources_read
origin_method TaskOriginKind.prompts_get = Method.prompts_get
origin_method TaskOriginKind.other = Method.other (str "[redacted-task-origin]")

pub record TaskAttribution : Type 0 where
  pub origin_kind : TaskOriginKind
  pub units : ℕ

unfoldable pub from_call : Call → PriceBook → TaskAttribution
from_call call prices = record {
  origin_kind = from_method call.method;
  units = Price.units_for prices call.method call.name;
}

pub record Billable : Type 0 where
  pub method : Method
  pub name : Option Str
  pub units : ℕ
  pub idempotency_key : Option Str

pub data FreeReason : Type 0 where
  discovery interim_input_required task_created task_in_progress task_not_delivered : FreeReason
  task_drive missing_task_attribution missing_task_id subscription : FreeReason
  protocol_error unrecognized_result : FreeReason

abbrev pub all_reasons : List FreeReason
all_reasons =
    discovery ∷ interim_input_required ∷ task_created ∷ task_in_progress ∷ task_not_delivered
    ∷ task_drive ∷ missing_task_attribution ∷ missing_task_id ∷ subscription ∷ protocol_error
    ∷ unrecognized_result ∷ []

unfoldable pub reason_str : FreeReason → Str
reason_str discovery = str "discovery"
reason_str interim_input_required = str "interim_input_required"
reason_str task_created = str "task_created"
reason_str task_in_progress = str "task_in_progress"
reason_str task_not_delivered = str "task_not_delivered"
reason_str task_drive = str "task_drive"
reason_str missing_task_attribution = str "missing_task_attribution"
reason_str missing_task_id = str "missing_task_id"
reason_str subscription = str "subscription"
reason_str protocol_error = str "protocol_error"
reason_str unrecognized_result = str "unrecognized_result"

unfoldable pub reason_index : FreeReason → ℕ
reason_index discovery = 0
reason_index interim_input_required = 1
reason_index task_created = 2
reason_index task_in_progress = 3
reason_index task_not_delivered = 4
reason_index task_drive = 5
reason_index missing_task_attribution = 6
reason_index missing_task_id = 7
reason_index subscription = 8
reason_index protocol_error = 9
reason_index unrecognized_result = 10

pub data Charge : Type 0 where
  billable : Billable → Charge
  free : FreeReason → Charge

unfoldable pub charge_units : Charge → ℕ
charge_units (billable b) = b.units
charge_units (free r) = 0

unfoldable pub is_billable : Charge → Bool
is_billable (billable b) = true
is_billable (free r) = false

unfoldable pub charge_key : Charge → Option Str
charge_key (billable b) = b.idempotency_key
charge_key (free r) = none

pub data TaskPricing : Type 0 where
  from_origin : Call → TaskPricing
  attributed : TaskAttribution → TaskPricing

-- The method, name and units that the origin of a completed task gives its charge.
unfoldable pub completed_task : PriceBook → Str → TaskPricing → Billable
completed_task prices task_id (from_origin origin) = record {
  method = origin.method;
  name = origin.name;
  units = Price.units_for prices origin.method origin.name;
  idempotency_key = some task_id;
}
completed_task prices task_id (attributed a) = record {
  method = origin_method a.origin_kind;
  name = none;
  units = a.units;
  idempotency_key = some task_id;
}

unfoldable pub task_poll : TaskPeek → PriceBook → Option TaskPricing → Charge
task_poll task prices pricing =
    if Peek.delivered task.status
    then elim task.task_id [
      | none ↦ free missing_task_id
      | some task_id ↦ elim pricing [
        | none ↦ free missing_task_attribution
        | some origin ↦ billable (completed_task prices task_id origin)
      ]
    ]
    else if Peek.is_terminal task.status
    then free task_not_delivered
    else free task_in_progress

unfoldable pub direct_result : Call → ResultType → PriceBook → Charge
direct_result call ResultType.complete prices = billable (record {
  method = call.method;
  name = call.name;
  units = Price.units_for prices call.method call.name;
  idempotency_key = none;
})
direct_result call ResultType.input_required prices = free interim_input_required
direct_result call ResultType.task prices = free task_created
direct_result call (ResultType.unknown s) prices = free unrecognized_result
direct_result call ResultType.absent prices = free unrecognized_result

abbrev pub is_subscription : Method → Bool
is_subscription Method.subscriptions_listen = true
is_subscription _ = false

abbrev pub is_tasks_get : Method → Bool
is_tasks_get Method.tasks_get = true
is_tasks_get _ = false

abbrev pub is_task_result : ResultType → Bool
is_task_result ResultType.task = true
is_task_result _ = false

-- The task that a `tasks/get` answer reports, for that method only.
abbrev pub polled_task : Call → ResponsePeek → Option TaskPeek
polled_task call response = if is_tasks_get call.method then response.task else none

unfoldable pub decide_with_task_pricing :
    Call → ResponsePeek → PriceBook → Option TaskPricing → Charge
unfolding task_poll direct_result
decide_with_task_pricing call response prices pricing =
    if response.is_error
    then free protocol_error
    else if Method.is_discovery call.method
    then free discovery
    else if is_subscription call.method
    then free subscription
    else if is_task_result response.result_type
    then free task_created
    else elim (polled_task call response) [
      | some task ↦ task_poll task prices pricing
      | none ↦
          if Method.is_task_drive call.method
          then free task_drive
          else direct_result call response.result_type prices
    ]

unfoldable pub decide_with_task_origin : Call → ResponsePeek → PriceBook → Option Call → Charge
decide_with_task_origin call response prices origin =
    decide_with_task_pricing call response prices (Option.map from_origin origin)

unfoldable pub decide_with_task_attribution :
    Call → ResponsePeek → PriceBook → Option TaskAttribution → Charge
decide_with_task_attribution call response prices attribution =
    decide_with_task_pricing call response prices (Option.map attributed attribution)

unfoldable pub decide : Call → ResponsePeek → PriceBook → Charge
unfolding decide_with_task_origin
decide call response prices = decide_with_task_origin call response prices none
