-- ===== src/Tower/Deferred/Drain.antt =====
-- `drain` empties the queue.
use mcp_usage_kit.Prelude.{
  List, [], arith, length, max, refl, saturating_add, some, suc, u64_max, zero, ℕ, ◌∷◌, ◌≡◌, ◌≤◌,
}
use mcp_usage_kit.Tower.Deferred.{drain, drain_some, pop_oldest, take_one}

module _ {A : Type 0} where
  drained_some :
      (limit : ℕ) (queue : List A) (capacity dropped : ℕ)
      → length queue ≤ limit
      → drain_some limit (record { queue = queue; capacity = capacity; dropped = dropped })
        ≡ (length queue, record { queue = []; capacity = capacity; dropped = dropped })
  unfolding drain_some take_one pop_oldest
  drained_some zero [] capacity dropped w = refl
  drained_some zero (x ∷ queue) capacity dropped w = absurd (omega arith)
  drained_some (suc limit) [] capacity dropped w = refl
  drained_some (suc limit) (x ∷ queue) capacity dropped w =
      rw (drained_some limit queue capacity dropped (omega arith)) refl

  -- With its queue within the capacity and within 64 bits, and nothing parked meanwhile, two
  -- rounds of a drain are enough: every waiting completion runs, the answer is their number, and
  -- nothing is left in the queue or dropped.
  pub drain_empties :
      (rounds : ℕ) (queue : List A) (capacity dropped : ℕ)
      → length queue ≤ capacity
      → length queue ≤ u64_max
      → drain
          (suc (suc rounds))
          0
          (record { queue = queue; capacity = capacity; dropped = dropped })
        ≡ some (length queue, record { queue = []; capacity = capacity; dropped = dropped })
  unfolding drain saturating_add
  drain_empties rounds queue capacity dropped w u =
      let first = drained_some (max capacity 1) queue capacity dropped (omega arith) in
      let second = drained_some (max capacity 1) [] capacity dropped (omega arith) in
      rw (first, second) (ground arith)
