-- ===== src/Export/Buffer/Once.antt =====
-- Once-only recording under an idempotency key.
use mcp_usage_kit.Prelude.Assoc
use mcp_usage_kit.Prelude.Sets
use mcp_usage_kit.Export.Buffer.{
  BufferState, UsageEvent, accumulate, admit, aggregate_key, already_seen, duplicate, next_units,
  record_event, recorded, remember, scoped_idempotency,
}
use mcp_usage_kit.Export.Buffer.Seen.{
  Recent, Recent-behind, Recent-expire, Recent-last, Remembers, contains-Recent,
  record_event-Remembers,
}
use mcp_usage_kit.Prelude.{
  List, Option, Option-cases, Str, [], arith, inl, inr, length, ltb, none, some, str_equal,
  strs_equal, suc, sym, true, ℕ, ◌++◌, ◌+◌, ◌<◌, ◌∙◌, ◌∷◌, ◌≡◌,
}

Recent-weaken :
    (key : Str × Str) (n : ℕ) (order : List (Str × Str))
    → Recent key n order
    → Recent key (suc n) order
Recent-weaken key n [] r = absurd r
Recent-weaken key n (j ∷ order) (inl (e, w)) = inl (e, omega arith)
Recent-weaken key n (j ∷ order) (inr later) = inr (Recent-weaken key n order later)

Recent-remember :
    (capacity n : ℕ) (key : Str × Str) (new : Option (Str × Str)) (state : BufferState)
    → suc n < capacity
    → Recent key n state.seen_order
    → Recent key (suc n) (remember capacity new state).seen_order
unfolding remember
Recent-remember capacity n key none state w r = Recent-weaken key n state.seen_order r
Recent-remember capacity n key (some j) state w r =
    let positive : ltb 0 capacity ≡ true = ground arith in
    rw positive (
      Recent-expire capacity (suc n) key (Sets.add j state.seen) (state.seen_order ++ j ∷ []) w
        (Recent-behind key j n state.seen_order r))

Recent-record_event :
    (capacity n : ℕ) (key : Str × Str) (event : UsageEvent) (state : BufferState)
    → suc n < capacity
    → Recent key n state.seen_order
    → Recent key (suc n) (record_event capacity event state).1.seen_order
unfolding record_event accumulate admit
Recent-record_event capacity n key event state w r =
    let found = next_units event (Assoc.lookup (aggregate_key event) state.pending) in
    let kept = Recent-weaken key n state.seen_order r in
    elim (Option-cases found) [
      | inl e ↦ rw e (ground arith)
      | inr (total, e) ↦
          rw e (ground (arith, Recent-remember capacity n key (scoped_idempotency event) state w r))
    ]

unfoldable pub record_all : ℕ → List UsageEvent → BufferState → BufferState
record_all capacity [] state = state
record_all capacity (event ∷ events) state =
    record_all capacity events (record_event capacity event state).1

record_all-Remembers :
    (capacity : ℕ) (events : List UsageEvent) (state : BufferState)
    → Remembers capacity state
    → Remembers capacity (record_all capacity events state)
unfolding record_all
record_all-Remembers capacity [] state r = r
record_all-Remembers capacity (event ∷ events) state r =
    record_all-Remembers capacity events (record_event capacity event state).1
      (record_event-Remembers capacity event state r)

Recent-record_all :
    (capacity n : ℕ) (key : Str × Str) (events : List UsageEvent) (state : BufferState)
    → n + length events < capacity
    → Recent key n state.seen_order
    → Recent key (n + length events) (record_all capacity events state).seen_order
unfolding record_all
Recent-record_all capacity n key [] state w r = ground arith
Recent-record_all capacity n key (event ∷ events) state w r =
    let moved : suc n + length events ≡ n + suc (length events) = omega arith in
    rw (sym moved) (
      Recent-record_all capacity (suc n) key events (record_event capacity event state).1
        (omega arith) (Recent-record_event capacity n key event state (omega arith) r))

-- A recorded event is remembered and added to its aggregate.
recorded_after :
    (capacity : ℕ) (event : UsageEvent) (state : BufferState)
    → (record_event capacity event state).0 ≡ inr recorded
    → (total : ℕ) × ((record_event capacity event state).1
        ≡ accumulate event total (remember capacity (scoped_idempotency event) state))
unfolding record_event admit
recorded_after capacity event state answer =
    let found = next_units event (Assoc.lookup (aggregate_key event) state.pending) in
    elim (Option-cases found) [ inl e ↦ ground arith | inr (total, e) ↦ (total, ground arith) ]

Recent-recorded :
    (capacity : ℕ) (key : Str × Str) (event : UsageEvent) (state : BufferState)
    → 0 < capacity
    → scoped_idempotency event ≡ some key
    → (record_event capacity event state).0 ≡ inr recorded
    → Recent key 0 (record_event capacity event state).1.seen_order
unfolding accumulate remember
Recent-recorded capacity key event state w h answer =
    let (total, after) = recorded_after capacity event state answer in
    let positive : ltb 0 capacity ≡ true = ground arith in
    rw (after, h, positive)
      (Recent-expire capacity 0 key (Sets.add key state.seen) (state.seen_order ++ key ∷ []) w
        (Recent-last key state.seen_order))

-- Once an event with an idempotency key is recorded in a buffer whose memory is in step, any later
-- event of that tenant and key that has units is a duplicate and changes nothing, whatever else
-- was recorded meanwhile, as long as that is fewer events than the memory has room for keys.
pub record_once :
    (capacity : ℕ) (event again : UsageEvent) (key : Str × Str) (between : List UsageEvent)
    (state : BufferState)
    → Remembers capacity state
    → scoped_idempotency event ≡ some key
    → scoped_idempotency again ≡ some key
    → 0 < again.units
    → length between < capacity
    → (record_event capacity event state).0 ≡ inr recorded
    → let after = record_all capacity between (record_event capacity event state).1 in
      record_event capacity again after ≡ (inr duplicate, after)
unfolding already_seen record_event
record_once capacity event again key between state r named named' units few answer =
    let first = (record_event capacity event state).1 in
    let after = record_all capacity between first in
    let remembered =
      record_all-Remembers capacity between first (record_event-Remembers capacity event state r) in
    let recent =
      Recent-record_all capacity 0 key between first (omega arith)
        (Recent-recorded capacity key event state (omega arith) named answer) in
    let known : already_seen again after ≡ true =
      rw named' (
        remembered.agrees key ∙ contains-Recent key (0 + length between) after.seen_order recent) in
    rw known (ground arith)
