-- ===== src/Export/Buffer/Ledger.antt =====
-- The units in the buffer, customer by customer and meter by meter.
use mcp_usage_kit.Prelude.Assoc
use mcp_usage_kit.Export.Buffer.{
  AggregateKey, AggregatedUsage, Batch, BufferState, PendingAggregate, RecordError, RecordOutcome,
  RetryPolicy, UsageEvent, accumulate, admit, aggregate_key, aggregated, drain, duplicate,
  next_units, place, pop_front, prepare_flush, record_event, recorded, remember, scoped_idempotency,
  sort, take_retry, updated, zero_units,
}
use mcp_usage_kit.Prelude.{
  List, Option, Option-cases, Str, [], arith, checked_add, if◌then◌else◌, inl, inr, none, refl,
  some, str_equal, strs_eq, strs_eq_iff, strs_equal, suc, ℕ, ◌++◌, ◌+◌, ◌∷◌, ◌≡◌, ◌⊎◌,
}

abbrev pub units_if : AggregateKey → AggregateKey → ℕ → ℕ
units_if key j units = if strs_eq j key then units else 0

-- What the pending aggregates hold for a customer and a meter.
unfoldable pub held : AggregateKey → List (AggregateKey × PendingAggregate) → ℕ
held key [] = 0
held key ((j, aggregate) ∷ pending) = units_if key j aggregate.units + held key pending

unfoldable pub units_of : AggregateKey → Batch → ℕ
units_of key [] = 0
units_of key (usage ∷ batch) =
    units_if key (usage.customer_id, usage.meter) usage.units + units_of key batch

unfoldable pub units_in : AggregateKey → List Batch → ℕ
units_in key [] = 0
units_in key (batch ∷ batches) = units_of key batch + units_in key batches

-- What the buffer owes for a customer and a meter.
unfoldable pub outstanding : AggregateKey → BufferState → ℕ
outstanding key state = held key state.pending + units_in key state.retry

-- What an event adds, by the answer to it.
unfoldable pub booked : AggregateKey → UsageEvent → RecordError ⊎ RecordOutcome → ℕ
booked key event (inr recorded) = units_if key (aggregate_key event) event.units
booked key event (inr duplicate) = 0
booked key event (inr zero_units) = 0
booked key event (inl error) = 0

abbrev units_at : Option PendingAggregate → ℕ
units_at none = 0
units_at (some aggregate) = aggregate.units

held-insert :
    (key j : AggregateKey) (a : PendingAggregate) (m : List (AggregateKey × PendingAggregate))
    → held key (Assoc.insert j a m) + units_if key j (units_at (Assoc.lookup j m))
      ≡ held key m + units_if key j a.units
unfolding held Assoc.insert Assoc.lookup
held-insert key j a [] = ground arith
held-insert key j a ((i, b) ∷ m) = ground (arith, held-insert key j a m, strs_eq_iff i j)

units_of-drain :
    (key : AggregateKey) (uuids : ℕ → Str) (m : List (AggregateKey × PendingAggregate))
    → units_of key (drain uuids m) ≡ held key m
unfolding units_of drain held aggregated
units_of-drain key uuids [] = refl
units_of-drain key uuids (((c, n), a) ∷ m) =
    omega (arith, units_of-drain key (λ i. uuids (suc i)) m)

units_of-place :
    (key : AggregateKey) (x : AggregatedUsage) (batch : Batch)
    → units_of key (place x batch) ≡ units_of key (x ∷ batch)
unfolding units_of place
units_of-place key x [] = refl
units_of-place key x (y ∷ ys) = ground (arith, units_of-place key x ys)

units_of-sort :
    (key : AggregateKey) (batch : Batch) → units_of key (sort batch) ≡ units_of key batch
unfolding units_of sort
units_of-sort key [] = refl
units_of-sort key (x ∷ xs) = omega (arith, units_of-place key x (sort xs), units_of-sort key xs)

pub units_in-append :
    (key : AggregateKey) (xs ys : List Batch)
    → units_in key (xs ++ ys) ≡ units_in key xs + units_in key ys
unfolding units_in
units_in-append key [] ys = omega arith
units_in-append key (x ∷ xs) ys = omega (arith, units_in-append key xs ys)

next_units-updated :
    (event : UsageEvent) (total : ℕ) (found : Option PendingAggregate)
    → next_units event found ≡ some total
    → (updated event total found).units ≡ units_at found + event.units
unfolding next_units updated checked_add
next_units-updated event total none h = ground arith
next_units-updated event total (some aggregate) h = ground arith

remember_keeps :
    (capacity : ℕ) (key : Option (Str × Str)) (state : BufferState)
    → ((remember capacity key state).pending ≡ state.pending)
      × ((remember capacity key state).retry ≡ state.retry)
unfolding remember
remember_keeps capacity none state = (refl, refl)
remember_keeps capacity (some key) state = ground arith

outstanding-accumulate :
    (key : AggregateKey) (event : UsageEvent) (total : ℕ) (state : BufferState)
    → next_units event (Assoc.lookup (aggregate_key event) state.pending) ≡ some total
    → outstanding key (accumulate event total state)
      ≡ outstanding key state + units_if key (aggregate_key event) event.units
unfolding outstanding accumulate
outstanding-accumulate key event total state h =
    let found = Assoc.lookup (aggregate_key event) state.pending in
    ground (
      arith,
      held-insert key (aggregate_key event) (updated event total found) state.pending,
      next_units-updated event total found h,
    )

-- What is owed for a customer and a meter grows by the units of a recorded event of theirs, and by
-- nothing on any other answer.
pub outstanding-record_event :
    (key : AggregateKey) (capacity : ℕ) (event : UsageEvent) (state : BufferState)
    → outstanding key (record_event capacity event state).1
      ≡ outstanding key state + booked key event (record_event capacity event state).0
unfolding record_event booked admit
outstanding-record_event key capacity event state =
    let found = next_units event (Assoc.lookup (aggregate_key event) state.pending) in
    let after = remember capacity (scoped_idempotency event) state in
    let keeps = remember_keeps capacity (scoped_idempotency event) state in
    let same : outstanding key after ≡ outstanding key state = unfold outstanding in cc in
    elim (Option-cases found) [
      | inl e ↦ rw e (ground arith)
      | inr (total, e) ↦
          rw e (ground (arith, outstanding-accumulate key event total after (rw keeps.0 e)))
    ]

-- Preparing a flush moves units out of the buffer into the batch, and loses none.
pub outstanding-prepare_flush :
    (key : AggregateKey) (policy : RetryPolicy) (uuids : ℕ → Str) (state : BufferState)
    → let (batch, after) = prepare_flush policy uuids state in
      units_of key batch + outstanding key after ≡ outstanding key state
unfolding prepare_flush outstanding take_retry pop_front held units_in units_of
outstanding-prepare_flush key policy uuids state =
    ground
      (arith, units_of-sort key (drain uuids state.pending), units_of-drain key uuids state.pending)
