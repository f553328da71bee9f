-- ===== src/Tower/Task/Tests.antt =====
-- The in-memory task store on a small history.
use mcp_usage_kit.Prelude.Assoc
use mcp_usage_kit.Core.Charge.{TaskAttribution, TaskOriginKind}
use mcp_usage_kit.Prelude.{
  List, [], arith, none, refl, str, str_eq, str_equal, strs_eq, strs_equal, ◌∷◌, ◌≡◌, ◌≤◌,
}
use mcp_usage_kit.Tower.Task.{InMemoryTaskStore, evict, get, insert, is_live, len, with_capacity}
use mcp_usage_kit.Tower.Task.History.{Operation, claims, inserts, run, run_bounds}

abbrev paid : TaskAttribution
paid = record { origin_kind = TaskOriginKind.tools_call; units = 5 }

abbrev store_of_one : InMemoryTaskStore
store_of_one = record {
  state = record {
    tasks = ((str "acme", str "t-1"), record { attribution = paid; generation = 0 }) ∷ [];
    insertion_order = ((str "acme", str "t-1"), 0) ∷ [];
    next_generation = 1;
  };
  max_tasks = 1;
}

inserted : insert (with_capacity 1) (str "acme") (str "t-1") paid ≡ store_of_one
unfolding insert with_capacity evict Assoc.lookup Assoc.insert
inserted = refl

evicts_oldest :
    get (insert store_of_one (str "acme") (str "t-2") paid) (str "acme") (str "t-1") ≡ none
unfolding insert get evict is_live Assoc.lookup Assoc.insert strs_eq str_eq Assoc.remove
evicts_oldest = refl

abbrev history : List Operation
history = inserts (str "acme") (str "t-1") paid ∷ claims (str "acme") (str "t-1") ∷ []

run_bounds_example : len (run (with_capacity 1) history) ≤ 1
run_bounds_example = (run_bounds 1 history (omega arith)).0
