-- ===== src/Core/Peek/Tests.antt =====
-- Answers as documents, and what they reveal.
use mcp_usage_kit.Core.Json
use mcp_usage_kit.Core.Json.{Value, end, field, object, string}
use mcp_usage_kit.Core.Peek.{ResultType, TaskStatus, parse_status, response}
use mcp_usage_kit.Prelude.{false, refl, some, str, str_eq, ◌≡◌}

abbrev poll : Value
poll = object (
    field (str "result")
      (object (
        field (str "resultType") (string (str "complete")) (
          field (str "taskId") (string (str "t1"))
            (field (str "status") (string (str "completed")) end))))
      end)

poll_reveals : response poll ≡ record {
  result_type = ResultType.complete;
  is_error = false;
  task = some (record { task_id = some (str "t1"); status = TaskStatus.completed });
}
unfolding response Json.get Json.as_str parse_status str_eq Json.is_null
poll_reveals = refl
