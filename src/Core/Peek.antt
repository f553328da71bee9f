-- ===== src/Core/Peek.antt =====
-- crates/mcp-usage-core/src/peek.rs: what a request body and a response body reveal.
pub mod Facts
mod Tests
use mcp_usage_kit.Core.Json
use mcp_usage_kit.Core.Method
use mcp_usage_kit.Core.Json.{Value}
use mcp_usage_kit.Core.Method.{Method}
use mcp_usage_kit.Prelude.{
  Bool, Option, Str, false, if◌then◌else◌, is_some_and, none, not, some, str, str_eq, true, ◌&&◌,
  ◌>>=◌, ◌||◌,
}

pub data ResultType : Type 0 where
  complete input_required task absent : ResultType
  unknown : Str → ResultType

pub data TaskStatus : Type 0 where
  working input_required completed failed cancelled : TaskStatus
  unknown : Str → TaskStatus

unfoldable pub parse_status : Str → TaskStatus
parse_status raw =
    if str_eq raw (str "working")
    then TaskStatus.working
    else if str_eq raw (str "input_required")
    then TaskStatus.input_required
    else if str_eq raw (str "completed")
    then TaskStatus.completed
    else if str_eq raw (str "failed")
    then TaskStatus.failed
    else if str_eq raw (str "cancelled")
    then TaskStatus.cancelled
    else TaskStatus.unknown raw

unfoldable pub is_terminal : TaskStatus → Bool
is_terminal TaskStatus.completed = true
is_terminal TaskStatus.failed = true
is_terminal TaskStatus.cancelled = true
is_terminal _ = false

unfoldable pub delivered : TaskStatus → Bool
delivered TaskStatus.completed = true
delivered _ = false

-- `Display`.
unfoldable pub status_text : TaskStatus → Str
status_text TaskStatus.working = str "working"
status_text TaskStatus.input_required = str "input_required"
status_text TaskStatus.completed = str "completed"
status_text TaskStatus.failed = str "failed"
status_text TaskStatus.cancelled = str "cancelled"
status_text (TaskStatus.unknown s) = s

pub record RequestPeek : Type 0 where
  pub is_continuation : Bool

pub record TaskPeek : Type 0 where
  pub task_id : Option Str
  pub status : TaskStatus

pub record ResponsePeek : Type 0 where
  pub result_type : ResultType
  pub is_error : Bool
  pub task : Option TaskPeek

abbrev pub unrecognized : ResponsePeek
unrecognized = record { result_type = ResultType.absent; is_error = false; task = none }

abbrev pub is_absent : ResultType → Bool
is_absent ResultType.absent = true
is_absent _ = false

unfoldable pub with_legacy_delivery : ResponsePeek → Method → ResponsePeek
with_legacy_delivery peek method =
    if Method.delivers_priced_work method && is_absent peek.result_type && not peek.is_error
    then record peek { result_type = ResultType.complete }
    else peek

-- `is_some_and(|v| !v.is_null())` on a member of a value.
unfoldable pub has_value : Value → Str → Bool
has_value v key = is_some_and (Json.get v key) (λ w. not (Json.is_null w))

unfoldable pub request : Value → RequestPeek
unfolding has_value
request body = elim (Json.get body (str "params")) [
  | none ↦ record { is_continuation = false }
  | some params ↦ record {
    is_continuation =
        has_value params (str "inputResponses") || has_value params (str "requestState");
  }
]

unfoldable pub parse_result_type : Option Str → ResultType
parse_result_type none = ResultType.absent
parse_result_type (some raw) =
    if str_eq raw (str "complete")
    then ResultType.complete
    else if str_eq raw (str "input_required")
    then ResultType.input_required
    else if str_eq raw (str "task")
    then ResultType.task
    else ResultType.unknown raw

unfoldable pub peek_task : Value → Option TaskPeek
peek_task result = do
  status ← Json.get result (str "status") >>= Json.as_str
  some (record {
    task_id = Json.get result (str "taskId") >>= Json.as_str;
    status = parse_status status;
  })

unfoldable pub response : Value → ResponsePeek
unfolding has_value parse_result_type peek_task
response body =
    if has_value body (str "error")
    then record { result_type = ResultType.absent; is_error = true; task = none }
    else elim (Json.get body (str "result")) [
      | none ↦ unrecognized
      | some result ↦ record {
        result_type = parse_result_type (Json.get result (str "resultType") >>= Json.as_str);
        is_error = false;
        task = peek_task result;
      }
    ]
