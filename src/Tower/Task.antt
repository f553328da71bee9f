-- ===== src/Tower/Task.antt =====
-- crates/mcp-usage-tower/src/task.rs: the process-local store of task attribution. Its mutex makes
-- each operation atomic, so a history is a list of operations; the futures never wait.
mod Eviction
mod Live
pub mod Invariant
pub mod History
pub mod Behaviour
mod Tests
use mathlib.Core.Option
use mcp_usage_kit.Prelude.Assoc
use mcp_usage_kit.Core.Charge.{TaskAttribution}
use mcp_usage_kit.Prelude.{
  Bool, List, Option, Str, [], if◌then◌else◌, is_some, is_some_and, leb, length, ltb, min, retain,
  str_equal, strs_equal, u64_max, ℕ, ◌%◌, ◌*◌, ◌++◌, ◌+◌, ◌==◌, ◌^◌, ◌∷◌,
}

-- Tenant and task identifiers.
abbrev pub Key : Type 0
Key = Str × Str

pub record TaskEntry : Type 0 where
  pub attribution : TaskAttribution
  pub generation : ℕ

pub record TaskState : Type 0 where
  pub tasks : List (Key × TaskEntry)
  pub insertion_order : List (Key × ℕ)
  pub next_generation : ℕ

-- A store with its capacity.
pub record InMemoryTaskStore : Type 0 where
  pub state : TaskState
  pub max_tasks : ℕ

abbrev pub default_max_tasks : ℕ
default_max_tasks = 100000

unfoldable pub with_capacity : ℕ → InMemoryTaskStore
with_capacity max_tasks = record {
  state = record { tasks = []; insertion_order = []; next_generation = 0 };
  max_tasks = max_tasks;
}

unfoldable pub len : InMemoryTaskStore → ℕ
len store = length store.state.tasks

-- `usize::saturating_mul(2)`.
abbrev pub doubled : ℕ → ℕ
doubled n = min (n * 2) u64_max

-- A queued key whose live entry is of the queued generation.
unfoldable pub is_live : List (Key × TaskEntry) → Key × ℕ → Bool
is_live tasks (queued, generation) =
    is_some_and (Assoc.lookup queued tasks) (λ entry. entry.generation == generation)

unfoldable pub compact_order_if_needed : ℕ → TaskState → TaskState
compact_order_if_needed max_tasks state =
    if ltb (doubled max_tasks) (length state.insertion_order)
    then record state { insertion_order = retain (is_live state.tasks) state.insertion_order }
    else state

-- `while tasks.len() >= max_tasks`: pop the oldest key, and drop its entry if the generation is the
-- queued one; the queue itself bounds the loop.
unfoldable pub evict :
    ℕ → List (Key × TaskEntry) → List (Key × ℕ) → List (Key × TaskEntry) × List (Key × ℕ)
evict max_tasks tasks [] = (tasks, [])
evict max_tasks tasks (oldest ∷ order) =
    let rest =
      evict max_tasks (if is_live tasks oldest then Assoc.remove oldest.0 tasks else tasks) order in
    if leb max_tasks (length tasks) then rest else (tasks, oldest ∷ order)

abbrev pub u128 : ℕ
u128 = 2 ^ 128

-- A fresh key behind the eviction, with `wrapping_add` on the generation.
unfoldable pub enqueue :
    Key → TaskAttribution → TaskState → List (Key × TaskEntry) × List (Key × ℕ) → TaskState
enqueue key attribution state (tasks, order) = record {
  tasks =
      Assoc.insert key (record { attribution = attribution; generation = state.next_generation })
        tasks;
  insertion_order = order ++ (key, state.next_generation) ∷ [];
  next_generation = (state.next_generation + 1) % u128;
}

unfoldable pub insert : InMemoryTaskStore → Str → Str → TaskAttribution → InMemoryTaskStore
unfolding enqueue
insert store tenant_id task_id attribution =
    if store.max_tasks == 0
    then store
    else if is_some (Assoc.lookup (tenant_id, task_id) store.state.tasks)
    then store
    else record store {
      state =
          enqueue (tenant_id, task_id) attribution store.state
            (evict store.max_tasks store.state.tasks store.state.insertion_order);
    }

unfoldable pub get : InMemoryTaskStore → Str → Str → Option TaskAttribution
get store tenant_id task_id =
    Option.map (λ entry. entry.attribution) (Assoc.lookup (tenant_id, task_id) store.state.tasks)

unfoldable pub without : InMemoryTaskStore → Key → TaskState
without store key = record store.state { tasks = Assoc.remove key store.state.tasks }

-- Consume and return an association.
unfoldable pub claim : InMemoryTaskStore → Str → Str → Option TaskAttribution × InMemoryTaskStore
unfolding without compact_order_if_needed
claim store tenant_id task_id =
    let claimed = get store tenant_id task_id in
    let after = without store (tenant_id, task_id) in
    (
      claimed,
      record store {
        state = if is_some claimed then compact_order_if_needed store.max_tasks after else after;
      },
    )

unfoldable pub remove : InMemoryTaskStore → Str → Str → InMemoryTaskStore
unfolding without compact_order_if_needed
remove store tenant_id task_id = record store {
  state = compact_order_if_needed store.max_tasks (without store (tenant_id, task_id));
}
