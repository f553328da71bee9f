-- ===== src/Tower/Deferred/Tests.antt =====
-- A queue of two completions.
use mcp_usage_kit.Prelude.{List, [], arith, length, some, ℕ, ◌+◌, ◌∷◌, ◌≡◌, ◌≤◌}
use mcp_usage_kit.Tower.Deferred.{drain, ran, was_cancelled}
use mcp_usage_kit.Tower.Deferred.Accounts.{
  Move, lands, moves, new_accounting, parked_accounted, parks, takes, total_parked, total_ran,
}
use mcp_usage_kit.Tower.Deferred.Drain.{drain_empties}

abbrev history : List (Move ℕ)
history = parks 1 ∷ parks 2 ∷ parks 3 ∷ takes ∷ lands 0 ran ∷ takes ∷ lands 0 was_cancelled ∷ []

parked_accounted_example :
    let after = moves (new_accounting 2) history in
    (length after.deferred.queue ≤ 2)
    × (total_ran (new_accounting 2) history
          + after.deferred.dropped
          + length after.deferred.queue
          + length after.in_flight
        ≡ total_parked history)
parked_accounted_example = parked_accounted 2 history (unfold total_parked in omega arith)

abbrev two : List ℕ
two = 1 ∷ 2 ∷ []

drain_empties_example :
    drain 2 0 (record { queue = two; capacity = 2; dropped = 0 })
    ≡ some (2, record { queue = []; capacity = 2; dropped = 0 })
drain_empties_example = drain_empties 0 two 2 0 (omega arith) (omega arith)
