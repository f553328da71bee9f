-- ===== src/Tower/Task/Behaviour.antt =====
-- What the operations of the in-memory task store promise to their callers.
use mcp_usage_kit.Prelude.Assoc
use mcp_usage_kit.Core.Charge.{TaskAttribution}
use mcp_usage_kit.Prelude.{
  Str, arith, if◌then◌else◌, is_some, none, refl, some, str_equal, strs_eq, strs_eq_iff, strs_equal,
  ◌<◌, ◌≡◌, ◌⊎◌,
}
use mcp_usage_kit.Tower.Task.{
  InMemoryTaskStore, claim, compact_order_if_needed, evict, get, insert, without,
}
use mcp_usage_kit.Tower.Task.Eviction.{evict_only_drops}

-- The first attribution of a task is immutable: once captured, no later insert under any key can
-- replace it; it can only be evicted.
pub insert_keeps_first :
    (store : InMemoryTaskStore) (tenant task_id tenant' task_id' : Str) (a b : TaskAttribution)
    → get store tenant task_id ≡ some a
    → (get (insert store tenant' task_id' b) tenant task_id ≡ some a)
      ⊎ (get (insert store tenant' task_id' b) tenant task_id ≡ none)
unfolding get insert
insert_keeps_first store tenant task_id tenant' task_id' a b h = ground (
  arith,
  Assoc.lookup-insert (tenant', task_id') (tenant, task_id)
      (record { attribution = b; generation = store.state.next_generation })
      (evict store.max_tasks store.state.tasks store.state.insertion_order).0,
  evict_only_drops store.max_tasks (tenant, task_id) store.state.tasks store.state.insertion_order,
  strs_eq_iff (tenant', task_id') (tenant, task_id),
)

-- A new task is attributed as given, if the store has any capacity, and an insert for an attributed
-- task changes nothing at all.
pub get-insert :
    (store : InMemoryTaskStore) (tenant task_id : Str) (a : TaskAttribution)
    → 0 < store.max_tasks
    → get (insert store tenant task_id a) tenant task_id
      ≡ (if is_some (get store tenant task_id) then get store tenant task_id else some a)
unfolding get insert
get-insert store tenant task_id a room = ground (
  arith,
  Assoc.lookup-insert (tenant, task_id) (tenant, task_id)
      (record { attribution = a; generation = store.state.next_generation })
      (evict store.max_tasks store.state.tasks store.state.insertion_order).0,
  strs_eq_iff (tenant, task_id) (tenant, task_id),
)

-- A claim returns what `get` would, and takes only that association away: whoever claims the task
-- again gets nothing, so a completed task is accounted for once.
pub claim_once :
    (store : InMemoryTaskStore) (tenant task_id tenant' task_id' : Str)
    → let (claimed, after) = claim store tenant task_id in
      (claimed ≡ get store tenant task_id)
      × (get after tenant' task_id' ≡ (
          if strs_eq (tenant, task_id) (tenant', task_id')
          then none
          else get store tenant' task_id'))
unfolding get claim without compact_order_if_needed
claim_once store tenant task_id tenant' task_id' = (
  refl,
  ground (arith, Assoc.lookup-remove (tenant, task_id) (tenant', task_id') store.state.tasks),
)
