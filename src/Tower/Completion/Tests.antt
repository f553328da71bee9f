-- ===== src/Tower/Completion/Tests.antt =====
-- A task that is created, and polled when it has completed.
use mcp_usage_kit.Prelude.Assoc
use mcp_usage_kit.Tower.Task
use mcp_usage_kit.Core.Charge.{TaskAttribution, TaskOriginKind}
use mcp_usage_kit.Core.Method.{Method}
use mcp_usage_kit.Core.Peek.{ResponsePeek, ResultType, TaskPeek, TaskStatus}
use mcp_usage_kit.Export.Buffer.{empty_buffer}
use mcp_usage_kit.Prelude.{
  [], arith, false, none, refl, some, str, str_eq, str_equal, strs_eq, strs_equal, true, ◌∷◌, ◌≡◌,
  ◌⊎◌,
}
use mcp_usage_kit.Tower.Completion.{
  Books, Completion, Tenant, account, completed_task_status, response_task_id, terminal_task_status,
}
use mcp_usage_kit.Tower.Completion.Restore.{Charged, attribution_kept}

abbrev acme : Tenant
acme = record {
  id = str "acme";
  billing_customer_id = str "cus_1";
  prices = record { default_units = 2; names = []; methods = [] };
}

abbrev poll : Completion
poll = record {
  tenant = acme;
  meter_name = str "mcp_calls";
  max_idempotency_keys = 10;
  legacy = false;
  call = record { method = Method.tasks_get; name = none };
  requested_task_id = some (str "t-1");
}

abbrev completed_task_answer : TaskPeek
completed_task_answer = record { task_id = some (str "t-1"); status = TaskStatus.completed }

abbrev answer : ResponsePeek
answer = record {
  result_type = ResultType.complete;
  is_error = false;
  task = some completed_task_answer;
}

abbrev commissioned : TaskAttribution
commissioned = record { origin_kind = TaskOriginKind.tools_call; units = 5 }

abbrev open_books : Books
open_books = record {
  tasks = record {
    state = record {
      tasks = ((str "acme", str "t-1"), record { attribution = commissioned; generation = 0 }) ∷ [];
      insertion_order = ((str "acme", str "t-1"), 0) ∷ [];
      next_generation = 1;
    };
    max_tasks = 4;
  };
  buffer = empty_buffer;
  metrics = [];
}

abbrev empty_books : Books
empty_books = record { tasks = Task.with_capacity 4; buffer = empty_buffer; metrics = [] }

attribution_kept_example :
    (Task.get (account poll 100 answer open_books).tasks (str "acme") (str "t-1")
      ≡ some commissioned)
    ⊎ ((terminal_task_status answer ≡ true) × (completed_task_status answer ≡ false))
    ⊎ Charged poll 100 answer commissioned empty_buffer
attribution_kept_example =
    attribution_kept poll 100 answer open_books (str "t-1") commissioned (omega arith)
      (unfold response_task_id in refl) (unfold Task.get Assoc.lookup strs_eq str_eq in refl)
