-- ===== src/Tower/Task/History.antt =====
-- Histories of the in-memory task store: claims, removals and inserts in any order.
use mcp_usage_kit.Prelude.Assoc
use mcp_usage_kit.Core.Charge.{TaskAttribution}
use mcp_usage_kit.Prelude.{
  Bool-cases, List, Option-cases, Str, [], arith, inl, inr, length, ltb, none, refl, retain, some,
  str_equal, strs_equal, true, ℕ, ◌*◌, ◌+◌, ◌<◌, ◌∙◌, ◌∷◌, ◌≡◌, ◌≤◌,
}
use mcp_usage_kit.Tower.Task.{
  InMemoryTaskStore, Key, TaskEntry, TaskState, claim, compact_order_if_needed, doubled, get,
  insert, is_live, len, remove, u128, with_capacity, without,
}
use mcp_usage_kit.Tower.Task.Eviction.{Distinct, Past, Queued, queued}
use mcp_usage_kit.Tower.Task.Invariant.{IsValid, insert-IsValid}
use mcp_usage_kit.Tower.Task.Live.{live_bound, retain-Distinct, retain-Past, retain-queued}

Queued-remove :
    (k : Key) (tasks : List (Key × TaskEntry)) (order : List (Key × ℕ))
    → Queued tasks order
    → Queued (Assoc.remove k tasks) order
Queued-remove k tasks order q key entry h =
    ground (arith, Assoc.lookup-remove k key tasks, q key entry)

Queued-compact :
    (tasks : List (Key × TaskEntry)) (order : List (Key × ℕ))
    → Queued tasks order
    → Queued tasks (retain (is_live tasks) order)
Queued-compact tasks order q key entry h =
    unfold is_live in ground (arith, retain-queued tasks (key, entry.generation) order, q key entry)

-- All of the invariant but the bound on the queue.
record IsNearlyValid (max_tasks : ℕ) (state : TaskState) : Type 0 where
  unique : Assoc.Unique state.tasks
  all_queued : Queued state.tasks state.insertion_order
  distinct : Distinct state.insertion_order
  past : Past state.next_generation state.insertion_order
  bounded : length state.tasks ≤ max_tasks

without-IsNearlyValid :
    (store : InMemoryTaskStore) (key : Key)
    → IsValid store
    → IsNearlyValid store.max_tasks (without store key)
unfolding without
without-IsNearlyValid store key v = record {
  unique = Assoc.Unique-remove key store.state.tasks v.unique;
  all_queued = Queued-remove key store.state.tasks store.state.insertion_order v.all_queued;
  distinct = v.distinct;
  past = v.past;
  bounded = omega (arith, Assoc.length-remove-le key store.state.tasks, v.bounded);
}

-- Compaction restores the bound on the queue.
compact-IsValid :
    (max_tasks : ℕ) (state : TaskState)
    → IsNearlyValid max_tasks state
    → IsValid (record { state = compact_order_if_needed max_tasks state; max_tasks = max_tasks })
unfolding compact_order_if_needed
compact-IsValid max_tasks state v =
    elim (Bool-cases (ltb (doubled max_tasks) (length state.insertion_order))) [
      | inl e ↦ rw e (record {
        unique = v.unique;
        all_queued = Queued-compact state.tasks state.insertion_order v.all_queued;
        distinct = retain-Distinct state.tasks state.insertion_order v.distinct;
        past = retain-Past state.next_generation state.tasks state.insertion_order v.past;
        bounded = v.bounded;
        order_bounded = omega (arith, live_bound state.tasks state.insertion_order v.distinct);
      })
      | inr e ↦ rw e (record {
        unique = v.unique;
        all_queued = v.all_queued;
        distinct = v.distinct;
        past = v.past;
        bounded = v.bounded;
        order_bounded = ground arith;
      })
    ]

remove-IsValid :
    (store : InMemoryTaskStore) (tenant task_id : Str)
    → IsValid store
    → IsValid (remove store tenant task_id)
unfolding remove
remove-IsValid store tenant task_id v =
    compact-IsValid store.max_tasks (without store (tenant, task_id))
      (without-IsNearlyValid store (tenant, task_id) v)

-- A claim that finds nothing leaves the store as it was.
without-absent :
    (store : InMemoryTaskStore) (tenant task_id : Str)
    → get store tenant task_id ≡ none
    → without store (tenant, task_id) ≡ store.state
unfolding without get
without-absent store tenant task_id h =
    let gone : Assoc.lookup (tenant, task_id) store.state.tasks ≡ none = ground arith in
    rw (Assoc.remove-absent (tenant, task_id) store.state.tasks gone)

claim-IsValid :
    (store : InMemoryTaskStore) (tenant task_id : Str)
    → IsValid store
    → IsValid (claim store tenant task_id).1
unfolding claim remove
claim-IsValid store tenant task_id v = elim (Option-cases (get store tenant task_id)) [
  | inl e ↦ rw (e, without-absent store tenant task_id e) v
  | inr (a, e) ↦ rw e (remove-IsValid store tenant task_id v)
]

pub data Operation : Type 0 where
  inserts : Str → Str → TaskAttribution → Operation
  claims removes : Str → Str → Operation

unfoldable pub step : InMemoryTaskStore → Operation → InMemoryTaskStore
step store (inserts tenant task_id a) = insert store tenant task_id a
step store (claims tenant task_id) = (claim store tenant task_id).1
step store (removes tenant task_id) = remove store tenant task_id

unfoldable pub run : InMemoryTaskStore → List Operation → InMemoryTaskStore
run store [] = store
run store (op ∷ ops) = run (step store op) ops

next_generation-step :
    (store : InMemoryTaskStore) (op : Operation)
    → (step store op).state.next_generation ≤ store.state.next_generation + 1
unfolding step insert claim remove without compact_order_if_needed
next_generation-step store (inserts tenant task_id a) = ground arith
next_generation-step store (claims tenant task_id) = ground arith
next_generation-step store (removes tenant task_id) = ground arith

step-IsValid :
    (store : InMemoryTaskStore) (op : Operation)
    → IsValid store
    → store.state.next_generation + 1 < u128
    → IsValid (step store op)
unfolding step
step-IsValid store (inserts tenant task_id a) v w = insert-IsValid store tenant task_id a v w
step-IsValid store (claims tenant task_id) v w = claim-IsValid store tenant task_id v
step-IsValid store (removes tenant task_id) v w = remove-IsValid store tenant task_id v

run-IsValid :
    (store : InMemoryTaskStore) (ops : List Operation)
    → IsValid store
    → store.state.next_generation + length ops < u128
    → IsValid (run store ops)
unfolding run
run-IsValid store [] v w = v
run-IsValid store (op ∷ ops) v w =
    run-IsValid (step store op) ops (step-IsValid store op v (omega arith))
      (omega (arith, next_generation-step store op))

max_tasks-run :
    (store : InMemoryTaskStore) (ops : List Operation) → (run store ops).max_tasks ≡ store.max_tasks
unfolding run step insert claim remove
max_tasks-run store [] = refl
max_tasks-run store (inserts tenant task_id a ∷ ops) =
    max_tasks-run (insert store tenant task_id a) ops ∙ ground arith
max_tasks-run store (claims tenant task_id ∷ ops) = max_tasks-run (claim store tenant task_id).1 ops
max_tasks-run store (removes tenant task_id ∷ ops) = max_tasks-run (remove store tenant task_id) ops

-- After any history of fewer than 2 ^ 128 operations on a new store, the table holds at most
-- `max_tasks` associations, the eviction queue at most three entries for each, and every
-- association is still in the queue under its own generation, so eviction can reach it.
pub run_bounds :
    (max_tasks : ℕ) (ops : List Operation)
    → length ops < u128
    → let store = run (with_capacity max_tasks) ops in
      (len store ≤ max_tasks)
      × (length store.state.insertion_order ≤ 3 * max_tasks)
      × ((key : Key) (entry : TaskEntry)
          → Assoc.lookup key store.state.tasks ≡ some entry
          → queued (key, entry.generation) store.state.insertion_order ≡ true)
unfolding with_capacity len Assoc.lookup
run_bounds max_tasks ops w =
    let fresh : IsValid (with_capacity max_tasks) = record {
      unique = tt;
      all_queued = λ key entry h. cc;
      distinct = tt;
      past = tt;
      bounded = omega arith;
      order_bounded = omega arith;
    } in
    let v = run-IsValid (with_capacity max_tasks) ops fresh (omega arith) in
    let same = max_tasks-run (with_capacity max_tasks) ops in
    (omega (arith, v.bounded, same), omega (arith, v.bounded, v.order_bounded, same), v.all_queued)
