-- ===== src/Tower/Task/Live.antt =====
-- Live entries of the eviction queue, and what compaction keeps.
use mcp_usage_kit.Prelude.Assoc
use mcp_usage_kit.Prelude.{
  Bool-cases, List, [], ap, arith, false, inl, inr, length, refl, retain, str_equal, strs_eq_iff,
  strs_equal, true, ℕ, ◌&&◌, ◌∷◌, ◌≡◌, ◌≤◌,
}
use mcp_usage_kit.Tower.Task.{Key, TaskEntry, is_live}
use mcp_usage_kit.Tower.Task.Eviction.{Distinct, Past, is_live-entry, queued, same, same_iff}

-- Dropping a live key from the table changes the liveness of no other queue entry.
pub live-remove :
    (tasks : List (Key × TaskEntry)) (k : Key) (g : ℕ) (p : Key × ℕ)
    → is_live tasks (k, g) ≡ true
    → same p (k, g) ≡ false
    → is_live (Assoc.remove k tasks) p ≡ is_live tasks p
live-remove tasks k g (j, h) live apart =
    let (entry, found, gen) = is_live-entry tasks k g live in
    unfold is_live in
    ground (arith, Assoc.lookup-remove k j tasks, strs_eq_iff k j, strs_eq_iff j k)

retain-remove :
    (tasks : List (Key × TaskEntry)) (k : Key) (g : ℕ) (order : List (Key × ℕ))
    → is_live tasks (k, g) ≡ true
    → queued (k, g) order ≡ false
    → retain (is_live (Assoc.remove k tasks)) order ≡ retain (is_live tasks) order
unfolding retain
retain-remove tasks k g [] live apart = refl
retain-remove tasks k g (p ∷ order) live apart =
    ground (arith, live-remove tasks k g p live, retain-remove tasks k g order live)

-- Queue entries with a live association are no more than the associations.
pub live_bound :
    (tasks : List (Key × TaskEntry)) (order : List (Key × ℕ))
    → Distinct order
    → length (retain (is_live tasks) order) ≤ length tasks
unfolding retain
live_bound tasks [] h = omega arith
live_bound tasks ((k, g) ∷ order) h = elim (Bool-cases (is_live tasks (k, g))) [
  | inl e ↦
      let (entry, found, gen) = is_live-entry tasks k g e in
      rw e (
        omega (
          arith,
          live_bound (Assoc.remove k tasks) order h.1,
          Assoc.length-remove-lt k entry tasks found,
          ap length (retain-remove tasks k g order e h.0),
        ))
  | inr e ↦ rw e (live_bound tasks order h.1)
]

pub retain-queued :
    (tasks : List (Key × TaskEntry)) (p : Key × ℕ) (order : List (Key × ℕ))
    → queued p (retain (is_live tasks) order) ≡ (is_live tasks p && queued p order)
unfolding retain
retain-queued tasks p [] = ground arith
retain-queued tasks p (q ∷ order) = ground (arith, retain-queued tasks p order, same_iff q p)

pub retain-Distinct :
    (tasks : List (Key × TaskEntry)) (order : List (Key × ℕ))
    → Distinct order
    → Distinct (retain (is_live tasks) order)
unfolding retain
retain-Distinct tasks [] h = tt
retain-Distinct tasks (q ∷ order) h =
    ground (arith, retain-Distinct tasks order h.1, retain-queued tasks q order)

pub retain-Past :
    (n : ℕ) (tasks : List (Key × TaskEntry)) (order : List (Key × ℕ))
    → Past n order
    → Past n (retain (is_live tasks) order)
unfolding retain
retain-Past n tasks [] h = tt
retain-Past n tasks (q ∷ order) h = ground (arith, retain-Past n tasks order h.1)
