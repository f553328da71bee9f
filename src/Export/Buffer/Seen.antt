-- ===== src/Export/Buffer/Seen.antt =====
-- The bounded memory of idempotency keys: the set and its queue agree, and what was recorded lately
-- is recognized.
use mcp_usage_kit.Prelude.Assoc
use mcp_usage_kit.Prelude.Sets
use mcp_usage_kit.Export.Buffer.{
  BufferState, UsageEvent, accumulate, admit, aggregate_key, already_seen, empty_buffer, expire,
  next_units, record_event, remember, scoped_idempotency,
}
use mcp_usage_kit.Prelude.{
  Bool-cases, List, Option, Option-cases, Str, [], arith, false, inl, inr, length, length-append,
  ltb, none, refl, some, str_equal, strs_eq, strs_eq_iff, strs_equal, suc, true, ℕ, ◌++◌, ◌<◌, ◌||◌,
  ◌∷◌, ◌≡◌, ◌≤◌, ◌⊎◌,
}

-- No key is queued twice.
abbrev Distinct : List (Str × Str) → Type 0
Distinct [] = Unit
Distinct (key ∷ order) = (Sets.contains key order ≡ false) × Distinct order

abbrev Agrees : List (Str × Str) → List (Str × Str) → Type 0
Agrees seen order = (key : Str × Str) → Sets.contains key seen ≡ Sets.contains key order

-- The set and the queue hold the same keys, each key once, at most `capacity` of them.
pub record Remembers (capacity : ℕ) (state : BufferState) : Type 0 where
  pub agrees : Agrees state.seen state.seen_order
  pub distinct : Distinct state.seen_order
  pub bounded : length state.seen_order ≤ capacity

pub fresh_Remembers : {capacity : ℕ} → Remembers capacity empty_buffer
unfolding Sets.contains
fresh_Remembers = record { agrees = λ key. refl; distinct = tt; bounded = omega arith }

-- A key is queued with at most so many behind it.
abbrev pub Recent : Str × Str → ℕ → List (Str × Str) → Type 0
Recent key n [] = ⊥
Recent key n (j ∷ order) = ((j ≡ key) × (length order ≤ n)) ⊎ Recent key n order

Agrees-expire :
    (capacity : ℕ) (seen order : List (Str × Str))
    → Agrees seen order
    → Distinct order
    → let kept = expire capacity seen order in Agrees kept.0 kept.1 × Distinct kept.1
unfolding expire
Agrees-expire capacity seen [] a d = (a, d)
Agrees-expire capacity seen (j ∷ order) a d =
    let dropped : Agrees (Sets.discard j seen) order = λ key.
      unfold Sets.contains in
      ground (arith, a key, Sets.contains-discard j key seen, strs_eq_iff j key) in
    elim (Bool-cases (ltb capacity (suc (length order)))) [
      | inl e ↦ rw e (Agrees-expire capacity (Sets.discard j seen) order dropped d.1)
      | inr e ↦ rw e (a, d)
    ]

length-expire :
    (capacity : ℕ) (seen order : List (Str × Str))
    → length (expire capacity seen order).1 ≤ capacity
unfolding expire
length-expire capacity seen [] = omega arith
length-expire capacity seen (j ∷ order) =
    ground (arith, length-expire capacity (Sets.discard j seen) order)

pub Recent-expire :
    (capacity n : ℕ) (key : Str × Str) (seen order : List (Str × Str))
    → n < capacity
    → Recent key n order
    → Recent key n (expire capacity seen order).1
unfolding expire
Recent-expire capacity n key seen [] w r = absurd r
Recent-expire capacity n key seen (j ∷ order) w r =
    elim (Bool-cases (ltb capacity (suc (length order)))) [
      | inl e ↦ rw e (elim r [
        | inl here ↦ absurd (ground arith)
        | inr later ↦ Recent-expire capacity n key (Sets.discard j seen) order w later
      ])
      | inr e ↦ rw e r
    ]

pub Recent-last : (key : Str × Str) (order : List (Str × Str)) → Recent key 0 (order ++ key ∷ [])
Recent-last key [] = inl (refl, omega arith)
Recent-last key (j ∷ order) = inr (Recent-last key order)

pub Recent-behind :
    (key j : Str × Str) (n : ℕ) (order : List (Str × Str))
    → Recent key n order
    → Recent key (suc n) (order ++ j ∷ [])
Recent-behind key j n [] r = absurd r
Recent-behind key j n (i ∷ order) (inl (e, w)) =
    inl (e, omega (arith, length-append order (j ∷ [])))
Recent-behind key j n (i ∷ order) (inr later) = inr (Recent-behind key j n order later)

pub contains-Recent :
    (key : Str × Str) (n : ℕ) (order : List (Str × Str))
    → Recent key n order
    → Sets.contains key order ≡ true
unfolding Sets.contains
contains-Recent key n [] r = absurd r
contains-Recent key n (j ∷ order) (inl (e, w)) = ground (arith, strs_eq_iff j key)
contains-Recent key n (j ∷ order) (inr later) = ground (arith, contains-Recent key n order later)

contains-append :
    (key j : Str × Str) (order : List (Str × Str))
    → Sets.contains key (order ++ j ∷ []) ≡ (strs_eq j key || Sets.contains key order)
unfolding Sets.contains
contains-append key j [] = refl
contains-append key j (i ∷ order) = ground (arith, contains-append key j order)

Distinct-append :
    (j : Str × Str) (order : List (Str × Str))
    → Distinct order
    → Sets.contains j order ≡ false
    → Distinct (order ++ j ∷ [])
unfolding Sets.contains
Distinct-append j [] d h = (refl, tt)
Distinct-append j (i ∷ order) d h = (
  ground (arith, contains-append i j order, strs_eq_iff i j, strs_eq_iff j i),
  Distinct-append j order d.1 (ground arith),
)

Remembers-remember :
    (capacity : ℕ) (key : Str × Str) (state : BufferState)
    → Remembers capacity state
    → Sets.contains key state.seen ≡ false
    → Remembers capacity (remember capacity (some key) state)
unfolding remember
Remembers-remember capacity key state r fresh =
    let both =
      Agrees-expire capacity (Sets.add key state.seen) (state.seen_order ++ key ∷ [])
        (λ k. ground (
          arith,
          Sets.contains-add key k state.seen,
          contains-append k key state.seen_order,
          r.agrees k,
        ))
        (Distinct-append key state.seen_order r.distinct (ground (arith, r.agrees key))) in
    elim (Bool-cases (ltb 0 capacity)) [
      | inl e ↦ rw e (record {
        agrees = both.0;
        distinct = both.1;
        bounded = length-expire capacity (Sets.add key state.seen) (state.seen_order ++ key ∷ []);
      })
      | inr e ↦ rw e r
    ]

Remembers-accumulate :
    (capacity : ℕ) (event : UsageEvent) (total : ℕ) (state : BufferState)
    → Remembers capacity state
    → Remembers capacity (accumulate event total state)
unfolding accumulate
Remembers-accumulate capacity event total state r = record {
  agrees = r.agrees;
  distinct = r.distinct;
  bounded = r.bounded;
}

Remembers-admit :
    (capacity : ℕ) (event : UsageEvent) (state : BufferState) (total : Option ℕ)
    → Remembers capacity state
    → already_seen event state ≡ false
    → Remembers capacity (admit capacity event state total).1
unfolding admit already_seen remember
Remembers-admit capacity event state none r fresh = r
Remembers-admit capacity event state (some total) r fresh =
    Remembers-accumulate capacity event total (remember capacity (scoped_idempotency event) state)
      (elim (Option-cases (scoped_idempotency event)) [
        | inl e ↦ rw e r
        | inr (key, e) ↦ rw e (Remembers-remember capacity key state r (ground arith))
      ])

-- If the set of idempotency keys and its queue hold the same keys, each queued once, and no more
-- than the capacity, they do so after an event is recorded, whatever the answer.
pub record_event-Remembers :
    (capacity : ℕ) (event : UsageEvent) (state : BufferState)
    → Remembers capacity state
    → Remembers capacity (record_event capacity event state).1
unfolding record_event
record_event-Remembers capacity event state r =
    let found = next_units event (Assoc.lookup (aggregate_key event) state.pending) in
    elim (Bool-cases (already_seen event state)) [
      | inl e ↦ rw e (ground arith)
      | inr e ↦ rw e (ground (arith, Remembers-admit capacity event state found r e))
    ]
