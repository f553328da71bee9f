-- ===== src/Tower/Completion/Once.antt =====
-- A poll of a task whose attribution is gone charges nothing.
use mcp_usage_kit.Tower.Task
use mcp_usage_kit.Core.Charge.{
  Call, Charge, TaskAttribution, billable, decide_with_task_attribution, decide_with_task_pricing,
  free, is_billable, is_task_result, is_tasks_get, polled_task, task_poll,
}
use mcp_usage_kit.Core.Peek.{ResponsePeek, TaskPeek}
use mcp_usage_kit.Core.Price.{PriceBook}
use mcp_usage_kit.Prelude.{
  Bool-cases, Option, Option-cases, Str, arith, false, inl, inr, none, refl, some, true, ℕ, ◌≡◌,
}
use mcp_usage_kit.Tower.Completion.{
  Books, Completion, account, claim_for, claim_origin, mismatched, response_task_id, retain_created,
  settle_charge,
}
use mcp_usage_kit.Tower.Task.{InMemoryTaskStore}
use mcp_usage_kit.Tower.Task.Behaviour.{claim_once}

poll_verdict :
    (call : Call) (response : ResponsePeek) (prices : PriceBook) (task : TaskPeek)
    → is_tasks_get call.method ≡ true
    → response.task ≡ some task
    → is_billable (decide_with_task_attribution call response prices none) ≡ false
unfolding decide_with_task_attribution decide_with_task_pricing task_poll is_billable
poll_verdict call response prices task m t =
    let polled : polled_task call response ≡ some task = rw m t in rw polled (ground arith)

nothing_claimed :
    (completion : Completion) (response : ResponsePeek) (tasks : InMemoryTaskStore)
    (task : TaskPeek)
    → response.task ≡ some task
    → ((task_id : Str)
        → task.task_id ≡ some task_id
        → Task.get tasks completion.tenant.id task_id ≡ none)
    → (claim_origin completion response tasks).0 ≡ none
unfolding claim_origin claim_for response_task_id
nothing_claimed completion response tasks task t h = elim (Option-cases task.task_id) [
  | inl e ↦ rw (t, e) (ground arith)
  | inr (task_id, e) ↦
      rw (t, e)
        (ground (
          arith,
          h task_id e,
          (claim_once tasks completion.tenant.id task_id completion.tenant.id task_id).0,
        ))
]

free_buffer :
    (completion : Completion) (response : ResponsePeek) (now : ℕ) (origin : Option TaskAttribution)
    (charge : Charge) (books : Books)
    → is_billable charge ≡ false
    → (settle_charge completion response now origin charge books).buffer ≡ books.buffer
unfolding settle_charge is_billable
free_buffer completion response now origin (free reason) books h = refl
free_buffer completion response now origin (billable bill) books h = absurd (ground arith)

-- A `tasks/get` answer that reports a task without an attribution in the store, other than one
-- that announces the task as created, charges nothing, whatever state it reports: the buffer stays
-- as it was. So a completed task that was charged, and so claimed, is not charged by later polls.
pub unattributed_poll :
    (completion : Completion) (now : ℕ) (response : ResponsePeek) (books : Books) (task : TaskPeek)
    → is_tasks_get completion.call.method ≡ true
    → response.task ≡ some task
    → is_task_result response.result_type ≡ false
    → ((task_id : Str)
        → task.task_id ≡ some task_id
        → Task.get books.tasks completion.tenant.id task_id ≡ none)
    → (account completion now response books).buffer ≡ books.buffer
unfolding account retain_created
unattributed_poll completion now response books task m t n h =
    let claimed = nothing_claimed completion response books.tasks task t h in
    let free_charge =
      free_buffer completion response now none
        (decide_with_task_attribution completion.call response completion.tenant.prices none)
        (record books { tasks = (claim_origin completion response books.tasks).1 })
        (poll_verdict completion.call response completion.tenant.prices task m t) in
    elim (Bool-cases (mismatched completion response)) [
      | inl e ↦ rw e refl
      | inr e ↦ rw (e, n, claimed) free_charge
    ]
