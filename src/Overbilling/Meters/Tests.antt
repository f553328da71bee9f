-- ===== src/Overbilling/Meters/Tests.antt =====
-- crates/mcp-overbilling/src/meters.rs: a task that is polled until it is delivered.
use mcp_usage_kit.Core.Json
use mcp_usage_kit.Core.Method
use mcp_usage_kit.Core.Peek
use mcp_usage_kit.Core.Price
use mcp_usage_kit.Prelude.Assoc
use mcp_usage_kit.Prelude.Sets
use mcp_usage_kit.Core.Charge.{
  completed_task, decide_with_task_origin, decide_with_task_pricing, direct_result, task_poll,
}
use mcp_usage_kit.Core.Json.{Fields, Value, end, field, object, string}
use mcp_usage_kit.Core.Method.{Method}
use mcp_usage_kit.Core.Peek.{response}
use mcp_usage_kit.Overbilling.Meters.{
  Exchange, Scenario, commission, count_requests, meter_exchanges, meter_response, named_price,
  named_rate, or_insert, price_book, request_counter, request_units, settle_bill, settle_charge,
  terminal_delivery, with_names,
}
use mcp_usage_kit.Overbilling.Meters.Bill.{terminal_delivery_le}
use mcp_usage_kit.Prelude.{
  Str, [], none, refl, saturating_add, some, str, str_eq, str_equal, strs_equal, ◌∷◌, ◌≡◌, ◌≤◌,
}

abbrev result_body : Str → Fields → Value
result_body kind more =
    object (field (str "result") (object (field (str "resultType") (string kind) more)) end)

abbrev task_fields : Str → Fields
task_fields status =
    field (str "taskId") (string (str "t1")) (field (str "status") (string status) end)

abbrev poll_of : Value → Exchange
poll_of answer = record { method = str "tasks/get"; name = none; response = answer }

abbrev delivered_once : Scenario
delivered_once = record {
  flat_units = 1;
  named_units = (str "render", 5) ∷ [];
  exchanges =
      record {
        method = str "tools/call";
        name = some (str "render");
        response = result_body (str "task") (task_fields (str "working"));
      }
      ∷ poll_of (result_body (str "complete") (task_fields (str "working")))
      ∷ poll_of (result_body (str "complete") (task_fields (str "completed")))
      ∷ poll_of (result_body (str "complete") (task_fields (str "completed")))
      ∷ [];
}

charged_once : terminal_delivery delivered_once ≡ 5
unfolding terminal_delivery meter_exchanges meter_response settle_charge settle_bill commission
    or_insert decide_with_task_origin decide_with_task_pricing task_poll direct_result
    completed_task Method.parse Method.is_discovery Method.is_task_drive Peek.response
    Peek.has_value Peek.parse_result_type Peek.peek_task Peek.parse_status Peek.delivered
    Peek.is_terminal Json.get Json.find Json.as_str Json.is_null Price.units_for Sets.contains
    price_book with_names Price.with_name Price.flat Assoc.lookup Assoc.insert str_eq saturating_add
charged_once = refl

counted_each : request_counter named_rate delivered_once ≡ 8
unfolding request_counter count_requests request_units named_price price_book with_names
    Price.with_name Price.flat Assoc.lookup Assoc.insert str_eq saturating_add
counted_each = refl

terminal_delivery_le_example :
    terminal_delivery delivered_once ≤ request_counter named_rate delivered_once
terminal_delivery_le_example = terminal_delivery_le delivered_once
