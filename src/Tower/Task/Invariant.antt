-- ===== src/Tower/Task/Invariant.antt =====
-- The invariant of the in-memory task store over any history of its operations.
use mcp_usage_kit.Prelude.Assoc
use mcp_usage_kit.Core.Charge.{TaskAttribution}
use mcp_usage_kit.Prelude.{
  Bool-cases, List, Option-cases, Str, [], arith, false, inl, inr, length, length-append, none,
  refl, str_equal, strs_eq_iff, strs_equal, suc, ℕ, ◌%◌, ◌++◌, ◌+◌, ◌<◌, ◌==◌, ◌||◌, ◌∷◌, ◌≡◌, ◌≤◌,
}
use mcp_usage_kit.Tower.Task.{
  InMemoryTaskStore, Key, TaskEntry, doubled, enqueue, evict, insert, u128,
}
use mcp_usage_kit.Tower.Task.Eviction.{
  Distinct, Past, Queued, evict-Distinct, evict-Past, evict-Queued, evict-Unique, evict_only_drops,
  evict_order_bound, evict_room, queued, same,
}

-- What every operation keeps: keys are unique, each association is queued with its generation,
-- no generation is queued twice or lies in the future, and the table and the queue are bounded.
pub record IsValid (store : InMemoryTaskStore) : Type 0 where
  pub unique : Assoc.Unique store.state.tasks
  pub all_queued : Queued store.state.tasks store.state.insertion_order
  pub distinct : Distinct store.state.insertion_order
  pub past : Past store.state.next_generation store.state.insertion_order
  pub bounded : length store.state.tasks ≤ store.max_tasks
  pub order_bounded :
      length store.state.insertion_order ≤ doubled store.max_tasks + length store.state.tasks

queued-append :
    (p q : Key × ℕ) (order : List (Key × ℕ))
    → queued p (order ++ q ∷ []) ≡ (queued p order || same q p)
queued-append p q [] = ground arith
queued-append p q (r ∷ order) = ground (arith, queued-append p q order)

Past-queued :
    (n g : ℕ) (k : Key) (order : List (Key × ℕ))
    → Past n order
    → n ≤ g
    → queued (k, g) order ≡ false
Past-queued n g k [] h l = refl
Past-queued n g k ((j, i) ∷ order) h l = ground (arith, Past-queued n g k order h.1 l)

Distinct-append :
    (n : ℕ) (k : Key) (order : List (Key × ℕ))
    → Past n order
    → Distinct order
    → Distinct (order ++ (k, n) ∷ [])
Distinct-append n k [] p d = (refl, tt)
Distinct-append n k ((j, g) ∷ order) p d =
    (ground (arith, queued-append (j, g) (k, n) order), Distinct-append n k order p.1 d.1)

Past-append :
    (n : ℕ) (k : Key) (order : List (Key × ℕ)) → Past n order → Past (suc n) (order ++ (k, n) ∷ [])
Past-append n k [] p = (omega arith, tt)
Past-append n k ((j, g) ∷ order) p = (omega arith, Past-append n k order p.1)

Queued-enqueue :
    (k : Key) (a : TaskAttribution) (n : ℕ) (tasks : List (Key × TaskEntry))
    (order : List (Key × ℕ))
    → Queued tasks order
    → Queued
        (Assoc.insert k (record { attribution = a; generation = n }) tasks)
        (order ++ (k, n) ∷ [])
Queued-enqueue k a n tasks order q key entry h = ground (
  arith,
  Assoc.lookup-insert k key (record { attribution = a; generation = n }) tasks,
  queued-append (key, entry.generation) (k, n) order,
  q key entry,
  strs_eq_iff k key,
  strs_eq_iff key key,
)

module _ (store : InMemoryTaskStore) (key : Key) (a : TaskAttribution) (v : IsValid store) where
  abbrev evicted : List (Key × TaskEntry) × List (Key × ℕ)
  evicted = evict store.max_tasks store.state.tasks store.state.insertion_order

  enqueue-IsValid :
      store.state.next_generation + 1 < u128
      → 0 < store.max_tasks
      → Assoc.lookup key store.state.tasks ≡ none
      → IsValid (record store { state = enqueue key a store.state evicted })
  unfolding enqueue
  enqueue-IsValid w room fresh =
      let tasks = evicted.0 in
      let order = evicted.1 in
      let gone : Assoc.lookup key tasks ≡ none = ground (
        arith,
        evict_only_drops store.max_tasks key store.state.tasks store.state.insertion_order,
      ) in
      let entry : TaskEntry = record {
        attribution = a;
        generation = store.state.next_generation;
      } in
      let grows : length (Assoc.insert key entry tasks) ≡ suc (length tasks) =
        ground (arith, Assoc.length-insert key entry tasks) in
      let next : (store.state.next_generation + 1) % u128 ≡ suc store.state.next_generation =
        omega arith in
      record {
        unique = Assoc.Unique-insert key entry tasks (
            evict-Unique store.max_tasks room store.state.tasks store.state.insertion_order
              v.unique);
        all_queued = Queued-enqueue key a store.state.next_generation tasks order (
            evict-Queued store.max_tasks room store.state.tasks store.state.insertion_order
              v.all_queued);
        distinct =
            Distinct-append store.state.next_generation key order
              (evict-Past store.max_tasks room store.state.next_generation store.state.tasks
                store.state.insertion_order v.past)
              (evict-Distinct store.max_tasks room store.state.tasks store.state.insertion_order
                v.distinct);
        past = rw next (
            Past-append store.state.next_generation key order (
              evict-Past store.max_tasks room store.state.next_generation store.state.tasks
                store.state.insertion_order v.past));
        bounded = omega (
          arith,
          grows,
          evict_room store.max_tasks room store.state.tasks store.state.insertion_order
              v.all_queued,
        );
        order_bounded = omega (
          arith,
          grows,
          length-append order ((key, store.state.next_generation) ∷ []),
          evict_order_bound store.max_tasks room (doubled store.max_tasks) store.state.tasks
              store.state.insertion_order v.unique v.order_bounded,
        );
      }

-- Inserting keeps the invariant as long as the generation counter does not wrap.
pub insert-IsValid :
    (store : InMemoryTaskStore) (tenant task_id : Str) (a : TaskAttribution)
    → IsValid store
    → store.state.next_generation + 1 < u128
    → IsValid (insert store tenant task_id a)
unfolding insert
insert-IsValid store tenant task_id a v w = elim (Bool-cases (store.max_tasks == 0)) [
  | inl e ↦ rw e v
  | inr e ↦ rw e (elim (Option-cases (Assoc.lookup (tenant, task_id) store.state.tasks)) [
    | inl f ↦ rw f (enqueue-IsValid store (tenant, task_id) a v w (ground arith) f)
    | inr (entry, f) ↦ rw f v
  ])
]
