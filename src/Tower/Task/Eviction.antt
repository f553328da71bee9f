-- ===== src/Tower/Task/Eviction.antt =====
-- The eviction queue of the in-memory task store: what the eviction loop keeps.
use mcp_usage_kit.Prelude.Assoc
use mcp_usage_kit.Prelude.{
  All, Bool, Bool-cases, List, [], arith, false, if◌then◌else◌, inl, inr, leb, length, none, refl,
  some, str_equal, strs_eq, strs_eq_iff, strs_equal, suc, true, ℕ, ◌&&◌, ◌+◌, ◌<◌, ◌==◌, ◌||◌, ◌↔◌,
  ◌∷◌, ◌≡◌, ◌≤◌, ◌⊎◌,
}
use mcp_usage_kit.Tower.Task.{Key, TaskEntry, evict, is_live}

-- Whether a key is queued with a generation.
abbrev pub same : Key × ℕ → Key × ℕ → Bool
same (k, g) (j, h) = strs_eq k j && g == h

abbrev pub queued : Key × ℕ → List (Key × ℕ) → Bool
queued p [] = false
queued p (q ∷ order) = same q p || queued p order

-- Every association is in the eviction queue with its generation.
abbrev pub Queued : List (Key × TaskEntry) → List (Key × ℕ) → Type 0
Queued tasks order =
    (key : Key) (entry : TaskEntry)
    → Assoc.lookup key tasks ≡ some entry
    → queued (key, entry.generation) order ≡ true

-- No key is queued twice with one generation.
abbrev pub Distinct : List (Key × ℕ) → Type 0
Distinct [] = Unit {0}
Distinct (p ∷ order) = (queued p order ≡ false) × Distinct order

-- All queued generations are in the past.
abbrev pub Past : ℕ → List (Key × ℕ) → Type 0
Past n order = All (λ (p : Key × ℕ). p.1 < n) order

pub same_iff : (p q : Key × ℕ) → (same p q ≡ true) ↔ (p ≡ q)
same_iff (k, g) (j, h) = ground (arith, strs_eq_iff k j)

pub is_live-entry :
    (tasks : List (Key × TaskEntry)) (key : Key) (generation : ℕ)
    → is_live tasks (key, generation) ≡ true
    → (entry : TaskEntry) × (Assoc.lookup key tasks ≡ some entry) × (entry.generation ≡ generation)
unfolding is_live
is_live-entry tasks key generation h = ground arith

abbrev popped : List (Key × TaskEntry) → Key × ℕ → List (Key × TaskEntry)
popped tasks oldest = if is_live tasks oldest then Assoc.remove oldest.0 tasks else tasks

popped-Queued :
    (tasks : List (Key × TaskEntry)) (oldest : Key × ℕ) (order : List (Key × ℕ))
    → Queued tasks (oldest ∷ order)
    → Queued (popped tasks oldest) order
unfolding is_live
popped-Queued tasks (k, g) order q key entry h =
    ground (arith, q key entry, Assoc.lookup-remove k key tasks, strs_eq_iff k key)

popped-length :
    (tasks : List (Key × TaskEntry)) (oldest : Key × ℕ)
    → length (popped tasks oldest) + (if is_live tasks oldest then 1 else 0) ≤ length tasks
popped-length tasks (k, g) = elim (Bool-cases (is_live tasks (k, g))) [
  | inl e ↦
      let (entry, found, _) = is_live-entry tasks k g e in
      rw e (omega (arith, Assoc.length-remove-lt k entry tasks found))
  | inr e ↦ rw e (omega arith)
]

popped-Unique :
    (tasks : List (Key × TaskEntry)) (oldest : Key × ℕ)
    → Assoc.Unique tasks
    → Assoc.Unique (popped tasks oldest)
popped-Unique tasks oldest u = ground (arith, Assoc.Unique-remove oldest.0 tasks u)

popped-le :
    (tasks : List (Key × TaskEntry)) (oldest : Key × ℕ)
    → Assoc.Unique tasks
    → length tasks ≤ suc (length (popped tasks oldest))
popped-le tasks oldest u = ground (arith, Assoc.length-le-remove oldest.0 tasks u)

no_tasks : (tasks : List (Key × TaskEntry)) → Queued tasks [] → length tasks ≡ 0
unfolding Assoc.lookup
no_tasks [] q = refl
no_tasks ((key, entry) ∷ tasks) q = ground (arith, q key entry, strs_eq_iff key key)

-- Eviction ends below the capacity, keeps every association that it leaves queued, pops only from
-- the front of the queue, and takes no more associations than queue entries.
module _ (max_tasks : ℕ) (some_room : 0 < max_tasks) where
  pub evict-Queued :
      (tasks : List (Key × TaskEntry)) (order : List (Key × ℕ))
      → Queued tasks order
      → Queued (evict max_tasks tasks order).0 (evict max_tasks tasks order).1
  unfolding evict
  evict-Queued tasks [] q = q
  evict-Queued tasks (oldest ∷ order) q = elim (Bool-cases (leb max_tasks (length tasks))) [
    | inl e ↦ rw e (evict-Queued (popped tasks oldest) order (popped-Queued tasks oldest order q))
    | inr e ↦ rw e q
  ]

  pub evict_room :
      (tasks : List (Key × TaskEntry)) (order : List (Key × ℕ))
      → Queued tasks order
      → length (evict max_tasks tasks order).0 < max_tasks
  unfolding evict
  evict_room tasks [] q = omega (arith, no_tasks tasks q)
  evict_room tasks (oldest ∷ order) q = elim (Bool-cases (leb max_tasks (length tasks))) [
    | inl e ↦ rw e (evict_room (popped tasks oldest) order (popped-Queued tasks oldest order q))
    | inr e ↦ rw e (ground arith)
  ]

  pub evict-Unique :
      (tasks : List (Key × TaskEntry)) (order : List (Key × ℕ))
      → Assoc.Unique tasks
      → Assoc.Unique (evict max_tasks tasks order).0
  unfolding evict
  evict-Unique tasks [] u = u
  evict-Unique tasks (oldest ∷ order) u = elim (Bool-cases (leb max_tasks (length tasks))) [
    | inl e ↦ rw e (evict-Unique (popped tasks oldest) order (popped-Unique tasks oldest u))
    | inr e ↦ rw e u
  ]

  pub evict_order_bound :
      (d : ℕ) (tasks : List (Key × TaskEntry)) (order : List (Key × ℕ))
      → Assoc.Unique tasks
      → length order ≤ d + length tasks
      → length (evict max_tasks tasks order).1 ≤ d + length (evict max_tasks tasks order).0
  unfolding evict
  evict_order_bound d tasks [] u h = omega arith
  evict_order_bound d tasks (oldest ∷ order) u h =
      elim (Bool-cases (leb max_tasks (length tasks))) [
        | inl e ↦ rw e (
            evict_order_bound d (popped tasks oldest) order (popped-Unique tasks oldest u)
              (omega (arith, popped-le tasks oldest u)))
        | inr e ↦ rw e h
      ]

  pub evict-Distinct :
      (tasks : List (Key × TaskEntry)) (order : List (Key × ℕ))
      → Distinct order
      → Distinct (evict max_tasks tasks order).1
  unfolding evict
  evict-Distinct tasks [] h = h
  evict-Distinct tasks (oldest ∷ order) h = elim (Bool-cases (leb max_tasks (length tasks))) [
    | inl e ↦ rw e (evict-Distinct (popped tasks oldest) order h.1)
    | inr e ↦ rw e h
  ]

  pub evict-Past :
      (n : ℕ) (tasks : List (Key × TaskEntry)) (order : List (Key × ℕ))
      → Past n order
      → Past n (evict max_tasks tasks order).1
  unfolding evict
  evict-Past n tasks [] h = h
  evict-Past n tasks (oldest ∷ order) h = elim (Bool-cases (leb max_tasks (length tasks))) [
    | inl e ↦ rw e (evict-Past n (popped tasks oldest) order h.1)
    | inr e ↦ rw e h
  ]

module _ (max_tasks : ℕ) where
  -- Eviction changes no association: it only drops some.
  pub evict_only_drops :
      (k : Key) (tasks : List (Key × TaskEntry)) (order : List (Key × ℕ))
      → (Assoc.lookup k (evict max_tasks tasks order).0 ≡ none)
        ⊎ (Assoc.lookup k (evict max_tasks tasks order).0 ≡ Assoc.lookup k tasks)
  unfolding evict
  evict_only_drops k tasks [] = inr refl
  evict_only_drops k tasks (oldest ∷ order) = elim (Bool-cases (leb max_tasks (length tasks))) [
    | inl e ↦ rw e (
        ground (
          arith,
          evict_only_drops k (popped tasks oldest) order,
          Assoc.lookup-remove oldest.0 k tasks,
        ))
    | inr e ↦ rw e (inr refl)
  ]
