-- ===== src/Tower/Completion/Restore.antt =====
-- A task's attribution is never lost: it stays until its completion is recorded or its task ends.
use mcp_usage_kit.Prelude.Assoc
use mcp_usage_kit.Tower.Task
use mcp_usage_kit.Core.Charge.{
  Billable, Charge, TaskAttribution, billable, decide_with_task_attribution, free, from_call,
  is_tasks_get,
}
use mcp_usage_kit.Core.Peek.{ResponsePeek}
use mcp_usage_kit.Export.Buffer.{
  BufferState, RecordError, RecordOutcome, duplicate, record_event, recorded, zero_units,
}
use mcp_usage_kit.Prelude.{
  Bool-cases, Option, Option-cases, Str, arith, false, inl, inr, none, not, refl, some, str_equal,
  strs_eq_iff, strs_equal, true, ℕ, ◌&&◌, ◌<◌, ◌≡◌, ◌⊎◌,
}
use mcp_usage_kit.Tower.Completion.{
  Books, Completion, account, claim_for, claim_origin, clean_up, completed_task_status, insert_if,
  mismatched, record_answer, response_task_id, restore_origin, retain_created, settle_charge,
  terminal_task_status, usage_event,
}
use mcp_usage_kit.Tower.Task.{InMemoryTaskStore}
use mcp_usage_kit.Tower.Task.Behaviour.{claim_once, get-insert}

insert-attributed :
    (tasks : InMemoryTaskStore) (tenant task_id : Str) (a b : TaskAttribution)
    → Task.get tasks tenant task_id ≡ some a
    → Task.insert tasks tenant task_id b ≡ tasks
unfolding Task.insert Task.get
insert-attributed tasks tenant task_id a b h =
    elim (Option-cases (Assoc.lookup (tenant, task_id) tasks.state.tasks)) [
      | inl e ↦ absurd (ground arith)
      | inr (entry, e) ↦ rw e (ground arith)
    ]

retain_created-attributed :
    (completion : Completion) (response : ResponsePeek) (tasks : InMemoryTaskStore) (task_id : Str)
    (a : TaskAttribution)
    → response_task_id response ≡ some task_id
    → Task.get tasks completion.tenant.id task_id ≡ some a
    → retain_created completion response tasks ≡ tasks
unfolding retain_created insert_if
retain_created-attributed completion response tasks task_id a i h = rw i (
    ground (
      arith,
      insert-attributed tasks completion.tenant.id task_id a
          (from_call completion.call completion.tenant.prices) h,
    ))

max_tasks-claim :
    (tasks : InMemoryTaskStore) (tenant task_id : Str)
    → (Task.claim tasks tenant task_id).1.max_tasks ≡ tasks.max_tasks
unfolding Task.claim
max_tasks-claim tasks tenant task_id = refl

-- What was claimed and put back is there again.
restored :
    (completion : Completion) (response : ResponsePeek) (tasks : InMemoryTaskStore) (task_id : Str)
    (a : TaskAttribution)
    → 0 < tasks.max_tasks
    → response_task_id response ≡ some task_id
    → Task.get tasks completion.tenant.id task_id ≡ some a
    → Task.get
        (restore_origin completion response
          (some a)
          (Task.claim tasks completion.tenant.id task_id).1)
        completion.tenant.id
        task_id
      ≡ some a
unfolding restore_origin insert_if
restored completion response tasks task_id a w i h =
    let tenant = completion.tenant.id in
    let after = (Task.claim tasks tenant task_id).1 in
    let gone : Task.get after tenant task_id ≡ none = ground (
      arith,
      (claim_once tasks tenant task_id tenant task_id).1,
      strs_eq_iff (tenant, task_id) (tenant, task_id),
    ) in
    rw i (
      ground (
        arith,
        get-insert after tenant task_id a (omega (arith, max_tasks-claim tasks tenant task_id)),
      ))

-- How an account leaves the attribution `a` of a task.
abbrev pub Charged : Completion → ℕ → ResponsePeek → TaskAttribution → BufferState → Type 0
Charged completion now response a buffer =
    (bill : Billable) × (outcome : RecordOutcome) × (decide_with_task_attribution completion.call
        response completion.tenant.prices (some a)
      ≡ billable bill)
    × ((record_event completion.max_idempotency_keys (usage_event completion now bill) buffer).0
        ≡ inr outcome)

Answer-cases :
    (answer : RecordError ⊎ RecordOutcome)
    → ((error : RecordError) × (answer ≡ inl error))
      ⊎ ((outcome : RecordOutcome) × (answer ≡ inr outcome))
Answer-cases (inl error) = inl (error, refl)
Answer-cases (inr outcome) = inr (outcome, refl)

insert_if-none :
    (task_id : Option Str) (tenant : Str) (tasks : InMemoryTaskStore)
    → insert_if task_id none tenant tasks ≡ tasks
unfolding insert_if
insert_if-none none tenant tasks = refl
insert_if-none (some task_id) tenant tasks = refl

record_answer-unclaimed :
    (completion : Completion) (response : ResponsePeek) (units : ℕ)
    (answer : RecordError ⊎ RecordOutcome) (books : Books) (task_id : Str) (a : TaskAttribution)
    → Task.get books.tasks completion.tenant.id task_id ≡ some a
    → Task.get
        (record_answer completion response none units answer books).tasks
        completion.tenant.id
        task_id
      ≡ some a
unfolding record_answer restore_origin
record_answer-unclaimed completion response units (inr recorded) books task_id a h = h
record_answer-unclaimed completion response units (inr zero_units) books task_id a h = h
record_answer-unclaimed completion response units (inr duplicate) books task_id a h = h
record_answer-unclaimed completion response units (inl error) books task_id a h =
    rw (insert_if-none (response_task_id response) completion.tenant.id books.tasks) h

claim_origin-cases :
    (completion : Completion) (response : ResponsePeek) (tasks : InMemoryTaskStore) (task_id : Str)
    (a : TaskAttribution)
    → response_task_id response ≡ some task_id
    → Task.get tasks completion.tenant.id task_id ≡ some a
    → ((claim_origin completion response tasks
          ≡ (some a, (Task.claim tasks completion.tenant.id task_id).1))
        × (completed_task_status response ≡ true))
      ⊎ (claim_origin completion response tasks ≡ (none, tasks))
unfolding claim_origin claim_for
claim_origin-cases completion response tasks task_id a i h =
    let tenant = completion.tenant.id in
    let claimed : Task.claim tasks tenant task_id ≡ (some a, (Task.claim tasks tenant task_id).1) =
      ground (arith, (claim_once tasks tenant task_id tenant task_id).0) in
    elim (Bool-cases (
      is_tasks_get completion.call.method
      && completed_task_status response
      && not response.is_error)) [
        | inl e ↦ inl (rw (e, i) claimed, ground arith)
        | inr e ↦ inr (rw e refl)
      ]

settle-claimed :
    (completion : Completion) (response : ResponsePeek) (now : ℕ) (books : Books) (task_id : Str)
    (a : TaskAttribution) (charge : Charge)
    → 0 < books.tasks.max_tasks
    → response_task_id response ≡ some task_id
    → Task.get books.tasks completion.tenant.id task_id ≡ some a
    → completed_task_status response ≡ true
    → decide_with_task_attribution completion.call response completion.tenant.prices (some a)
      ≡ charge
    → let claimed = (Task.claim books.tasks completion.tenant.id task_id).1 in
      (Task.get
          (settle_charge completion response now
            (some a)
            charge
            (record books { tasks = claimed })).tasks
          completion.tenant.id
          task_id
        ≡ some a)
      ⊎ Charged completion now response a books.buffer
unfolding settle_charge record_answer clean_up
settle-claimed completion response now books task_id a (free reason) w i h c d =
    inl (rw c (ground (arith, restored completion response books.tasks task_id a w i h)))
settle-claimed completion response now books task_id a (billable bill) w i h c d =
    let answer =
      record_event completion.max_idempotency_keys (usage_event completion now bill) books.buffer in
    elim (Answer-cases answer.0) [
      | inl (error, e) ↦ inl (rw e (restored completion response books.tasks task_id a w i h))
      | inr (outcome, e) ↦ inr (bill, outcome, d, e)
    ]

settle-unclaimed :
    (completion : Completion) (response : ResponsePeek) (now : ℕ) (books : Books) (task_id : Str)
    (a : TaskAttribution) (charge : Charge)
    → Task.get books.tasks completion.tenant.id task_id ≡ some a
    → (Task.get
          (settle_charge completion response now none charge books).tasks
          completion.tenant.id
          task_id
        ≡ some a)
      ⊎ ((terminal_task_status response ≡ true) × (completed_task_status response ≡ false))
unfolding settle_charge clean_up restore_origin
settle-unclaimed completion response now books task_id a (free reason) h =
    let untouched : insert_if (response_task_id response) none completion.tenant.id books.tasks
        ≡ books.tasks =
      insert_if-none (response_task_id response) completion.tenant.id books.tasks in
    elim (Bool-cases (terminal_task_status response && not (completed_task_status response))) [
      | inl e ↦ inr (ground arith, ground arith)
      | inr e ↦ inl (rw (e, untouched) h)
    ]
settle-unclaimed completion response now books task_id a (billable bill) h =
    let answer =
      record_event completion.max_idempotency_keys (usage_event completion now bill) books.buffer in
    inl (
      record_answer-unclaimed completion response bill.units answer.0
        (record books { buffer = answer.1 }) task_id a h)

-- In a store with any capacity, after a response that reports a task with an attribution, whatever
-- the response and whatever the pricing and the recorder make of it, the attribution is still in
-- the store, unless the task ended without delivering, or a charge priced from this attribution
-- was answered by the buffer with an outcome and not an error.
pub attribution_kept :
    (completion : Completion) (now : ℕ) (response : ResponsePeek) (books : Books) (task_id : Str)
    (a : TaskAttribution)
    → 0 < books.tasks.max_tasks
    → response_task_id response ≡ some task_id
    → Task.get books.tasks completion.tenant.id task_id ≡ some a
    → (Task.get (account completion now response books).tasks completion.tenant.id task_id ≡ some a)
      ⊎ ((terminal_task_status response ≡ true) × (completed_task_status response ≡ false))
      ⊎ Charged completion now response a books.buffer
unfolding account
attribution_kept completion now response books task_id a w i h =
    elim (Bool-cases (mismatched completion response)) [
      | inl m ↦ inl (rw m h)
      | inr m ↦
          let kept = retain_created-attributed completion response books.tasks task_id a i h in
          rw (m, kept)
            (elim (claim_origin-cases completion response books.tasks task_id a i h) [
              | inl (e, c) ↦
                  rw e
                    (elim (settle-claimed completion response now books task_id a
                      (decide_with_task_attribution completion.call response
                        completion.tenant.prices (some a))
                      w i h c refl) [ inl stays ↦ inl stays | inr charged ↦ inr (inr charged) ])
              | inr e ↦
                  rw e
                    (elim (settle-unclaimed completion response now books task_id a
                      (decide_with_task_attribution completion.call response
                        completion.tenant.prices none)
                      h) [ inl stays ↦ inl stays | inr ended ↦ inr (inl ended) ])
            ])
    ]
