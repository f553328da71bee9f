-- ===== src/Core/Charge/Tests.antt =====
-- Verdicts on concrete exchanges.
use mcp_usage_kit.Core.Method
use mcp_usage_kit.Core.Peek
use mcp_usage_kit.Core.Price
use mcp_usage_kit.Prelude.Assoc
use mcp_usage_kit.Core.Charge.{
  Billable, Call, billable, completed_task, decide, decide_with_task_attribution,
  decide_with_task_origin, decide_with_task_pricing, free, from_call, from_origin,
  missing_task_attribution,
}
use mcp_usage_kit.Core.Charge.Attribution.{SameBill, attribution-SameBill}
use mcp_usage_kit.Core.Charge.Verdict.{Delivers, decide-billable_iff}
use mcp_usage_kit.Core.Method.{Method}
use mcp_usage_kit.Core.Peek.{ResponsePeek, ResultType, TaskStatus, task}
use mcp_usage_kit.Core.Price.{PriceBook}
use mcp_usage_kit.Prelude.{
  [], false, none, refl, some, str, str_eq, str_equal, strs_equal, ◌↔◌, ◌∷◌, ◌≡◌,
}

abbrev book : PriceBook
book = record { default_units = 2; names = (str "report", 7) ∷ []; methods = [] }

abbrev report : Call
report = record { method = Method.tools_call; name = some (str "report") }

abbrev poll_call : Call
poll_call = record { method = Method.tasks_get; name = none }

abbrev complete_answer : ResponsePeek
complete_answer = record { result_type = ResultType.complete; is_error = false; task = none }

abbrev interim_answer : ResponsePeek
interim_answer = record { result_type = ResultType.input_required; is_error = false; task = none }

abbrev completed_poll : ResponsePeek
completed_poll = record {
  result_type = ResultType.complete;
  is_error = false;
  task = some (record { task_id = some (str "t1"); status = TaskStatus.completed });
}

abbrev charge : Billable
charge = record {
  method = Method.tools_call;
  name = some (str "report");
  units = 7;
  idempotency_key = some (str "t1");
}

completed_poll-charge :
    decide_with_task_origin poll_call completed_poll book (some report) ≡ billable charge
unfolding decide_with_task_origin decide_with_task_pricing Peek.delivered completed_task
    Price.units_for Assoc.lookup str_eq Method.is_discovery
completed_poll-charge = refl

unattributed_poll : decide poll_call completed_poll book ≡ free missing_task_attribution
unfolding decide decide_with_task_pricing Peek.delivered Method.is_discovery
unattributed_poll = refl

decide-billable_iff_example :
    (decide_with_task_pricing poll_call completed_poll book (some (from_origin report))
      ≡ billable charge)
    ↔ Delivers poll_call completed_poll book (some (from_origin report)) charge
decide-billable_iff_example =
    decide-billable_iff poll_call completed_poll book (some (from_origin report)) charge

attribution-SameBill_example :
    SameBill
      (decide_with_task_origin poll_call completed_poll book (some report))
      (decide_with_task_attribution poll_call completed_poll book (some (from_call report book)))
attribution-SameBill_example = attribution-SameBill poll_call report completed_poll book
