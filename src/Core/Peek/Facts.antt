-- ===== src/Core/Peek/Facts.antt =====
-- What the inspections of peek.rs promise.
use mcp_usage_kit.Core.Method
use mcp_usage_kit.Core.Json.{Value}
use mcp_usage_kit.Core.Method.{Method}
use mcp_usage_kit.Core.Peek.{
  ResponsePeek, ResultType, TaskStatus, delivered, has_value, is_terminal, parse_status, response,
  status_text, with_legacy_delivery,
}
use mcp_usage_kit.Prelude.{Str, arith, false, refl, str, str_eq_iff, true, ◌≡◌, ◌≢◌}

-- A response that carries a non-null `error` is an error and reveals nothing else; one without it
-- is not an error, whatever its result says.
pub response-is_error : (body : Value) → (response body).is_error ≡ has_value body (str "error")
unfolding response
response-is_error body = ground arith

-- A completed task was delivered and is terminal; failed and cancelled tasks are terminal only.
pub delivered-is_terminal : (s : TaskStatus) → delivered s ≡ true → is_terminal s ≡ true
unfolding delivered is_terminal
delivered-is_terminal TaskStatus.completed h = refl
delivered-is_terminal _ h = ground arith

-- A task status survives parsing verbatim, known or not.
pub status_text-parse : (raw : Str) → status_text (parse_status raw) ≡ raw
unfolding status_text parse_status
status_text-parse raw = ground (
  arith,
  str_eq_iff raw (str "working"),
  str_eq_iff raw (str "input_required"),
  str_eq_iff raw (str "completed"),
  str_eq_iff raw (str "failed"),
  str_eq_iff raw (str "cancelled"),
)

-- The legacy promotion turns an absent discriminant into `complete` exactly for a result that is
-- not an error, answering a method that delivers priced work; every other response is unchanged,
-- and neither the error flag nor the task is ever touched.
pub record IsPromotion (peek : ResponsePeek) (method : Method) : Type 0 where
  pub same_error : (with_legacy_delivery peek method).is_error ≡ peek.is_error
  pub same_task : (with_legacy_delivery peek method).task ≡ peek.task
  pub promoted :
      Method.delivers_priced_work method ≡ true
      → peek.is_error ≡ false
      → peek.result_type ≡ ResultType.absent
      → (with_legacy_delivery peek method).result_type ≡ ResultType.complete
  pub other_method :
      Method.delivers_priced_work method ≡ false → with_legacy_delivery peek method ≡ peek
  pub error : peek.is_error ≡ true → with_legacy_delivery peek method ≡ peek
  pub present : peek.result_type ≢ ResultType.absent → with_legacy_delivery peek method ≡ peek

pub with_legacy_delivery-IsPromotion :
    (peek : ResponsePeek) (method : Method) → IsPromotion peek method
unfolding with_legacy_delivery
with_legacy_delivery-IsPromotion peek method = ground arith
