-- ===== src/Export/Buffer.antt =====
-- crates/mcp-usage-export/src/lib.rs, `UsageBuffer`: usage aggregated per customer and meter, with a
-- bounded memory of idempotency keys. Its mutex makes every operation atomic.
pub mod Ledger
pub mod Seen
pub mod Once
mod Tests
use mathlib.Core.Option
use mcp_usage_kit.Prelude.Assoc
use mcp_usage_kit.Prelude.Sets
use mcp_usage_kit.Core.Version.{str_lt}
use mcp_usage_kit.Prelude.{
  Bool, List, Option, Str, [], checked_add, false, if◌then◌else◌, inl, inr, is_some_and, length,
  ltb, min, none, not, some, str, str_eq, str_equal, strs_equal, suc, true, ℕ, ◌&&◌, ◌++◌, ◌+◌,
  ◌==◌, ◌||◌, ◌∷◌, ◌⊎◌,
}

pub record UsageEvent : Type 0 where
  pub tenant_id : Str
  pub customer_id : Str
  pub meter : Str
  pub units : ℕ
  pub idempotency_key : Option Str
  pub timestamp : ℕ

pub record AggregatedUsage : Type 0 where
  pub identifier : Str
  pub customer_id : Str
  pub meter : Str
  pub units : ℕ
  pub timestamp : ℕ

pub data RecordOutcome : Type 0 where
  recorded duplicate zero_units : RecordOutcome

-- A poisoned lock needs a panic under the lock, which none of the operations has.
pub data RecordError : Type 0 where
  poisoned units_overflow : RecordError

pub data RetryPolicy : Type 0 where
  interleave complete_batch : RetryPolicy

-- Customer and meter.
abbrev pub AggregateKey : Type 0
AggregateKey = Str × Str

pub record PendingAggregate : Type 0 where
  pub units : ℕ
  pub oldest_timestamp : ℕ

abbrev pub Batch : Type 0
Batch = List AggregatedUsage

-- `seen` and `seen_order` hold tenants with their idempotency keys.
pub record BufferState : Type 0 where
  pub pending : List (AggregateKey × PendingAggregate)
  pub retry : List Batch
  pub seen : List (Str × Str)
  pub seen_order : List (Str × Str)
  pub serve_pending_next : Bool

abbrev pub empty_buffer : BufferState
empty_buffer = record {
  pending = [];
  retry = [];
  seen = [];
  seen_order = [];
  serve_pending_next = false;
}

unfoldable pub scoped_idempotency : UsageEvent → Option (Str × Str)
scoped_idempotency event = Option.map (λ key. (event.tenant_id, key)) event.idempotency_key

abbrev pub aggregate_key : UsageEvent → AggregateKey
aggregate_key event = (event.customer_id, event.meter)

-- The loop that forgets the oldest keys beyond the capacity; the queue bounds it.
unfoldable pub expire :
    ℕ → List (Str × Str) → List (Str × Str) → List (Str × Str) × List (Str × Str)
expire capacity seen [] = (seen, [])
expire capacity seen (expired ∷ order) =
    let rest = expire capacity (Sets.discard expired seen) order in
    if ltb capacity (suc (length order)) then rest else (seen, expired ∷ order)

unfoldable pub remember : ℕ → Option (Str × Str) → BufferState → BufferState
remember capacity none state = state
remember capacity (some key) state =
    let kept = expire capacity (Sets.add key state.seen) (state.seen_order ++ key ∷ []) in
    if ltb 0 capacity then record state { seen = kept.0; seen_order = kept.1 } else state

unfoldable pub next_units : UsageEvent → Option PendingAggregate → Option ℕ
next_units event none = some event.units
next_units event (some aggregate) = checked_add aggregate.units event.units

-- The aggregate after the event: its units as computed, and the older of the timestamps.
unfoldable pub updated : UsageEvent → ℕ → Option PendingAggregate → PendingAggregate
updated event total none = record { units = total; oldest_timestamp = event.timestamp }
updated event total (some aggregate) = record {
  units = total;
  oldest_timestamp = min aggregate.oldest_timestamp event.timestamp;
}

unfoldable pub accumulate : UsageEvent → ℕ → BufferState → BufferState
accumulate event total state =
    let key = aggregate_key event in
    record state {
      pending =
          Assoc.insert key (updated event total (Assoc.lookup key state.pending)) state.pending;
    }

unfoldable pub already_seen : UsageEvent → BufferState → Bool
already_seen event state =
    is_some_and (scoped_idempotency event) (λ key. Sets.contains key state.seen)

unfoldable pub admit :
    ℕ → UsageEvent → BufferState → Option ℕ → (RecordError ⊎ RecordOutcome) × BufferState
admit capacity event state none = (inl units_overflow, state)
admit capacity event state (some total) =
    (inr recorded, accumulate event total (remember capacity (scoped_idempotency event) state))

-- `UsageBuffer::record`.
unfoldable pub record_event :
    ℕ → UsageEvent → BufferState → (RecordError ⊎ RecordOutcome) × BufferState
unfolding admit
record_event capacity event state =
    if event.units == 0
    then (inr zero_units, state)
    else if already_seen event state
    then (inr duplicate, state)
    else admit capacity event state
        (next_units event (Assoc.lookup (aggregate_key event) state.pending))

-- A drained aggregate under an identifier from its UUID.
unfoldable pub aggregated : Str → AggregateKey × PendingAggregate → AggregatedUsage
aggregated uuid ((customer_id, meter), aggregate) = record {
  identifier = str "mcp_usage_" ++ uuid;
  customer_id = customer_id;
  meter = meter;
  units = aggregate.units;
  timestamp = aggregate.oldest_timestamp;
}

-- The pending aggregates in the map's order, each with the next UUID drawn.
unfoldable pub drain : (ℕ → Str) → List (AggregateKey × PendingAggregate) → Batch
drain uuids [] = []
drain uuids (entry ∷ pending) = aggregated (uuids 0) entry ∷ drain (λ i. uuids (suc i)) pending

-- By customer, then by meter.
unfoldable pub before : AggregatedUsage → AggregatedUsage → Bool
before a b =
    str_lt a.customer_id b.customer_id
    || (str_eq a.customer_id b.customer_id && str_lt a.meter b.meter)

unfoldable pub place : AggregatedUsage → Batch → Batch
place x [] = x ∷ []
place x (y ∷ ys) = let rest = place x ys in if before y x then y ∷ rest else x ∷ y ∷ ys

-- `sort_by`, which is stable.
unfoldable pub sort : Batch → Batch
sort [] = []
sort (x ∷ xs) = place x (sort xs)

abbrev pub is_empty {ℓ} : {A : Type ℓ} → List A → Bool
is_empty [] = true
is_empty (x ∷ xs) = false

unfoldable pub completes : RetryPolicy → Bool
completes complete_batch = true
completes interleave = false

unfoldable pub take_retry : RetryPolicy → BufferState → Bool
take_retry policy state =
    not (is_empty state.retry)
    && (completes policy || not state.serve_pending_next || is_empty state.pending)

unfoldable pub pop_front : List Batch → Batch × List Batch
pop_front [] = ([], [])
pop_front (batch ∷ batches) = (batch, batches)

unfoldable pub prepare_flush : RetryPolicy → (ℕ → Str) → BufferState → Batch × BufferState
prepare_flush policy uuids state =
    let popped = pop_front state.retry in
    if take_retry policy state
    then (popped.0, record state { retry = popped.1; serve_pending_next = true })
    else (
      sort (drain uuids state.pending),
      record state { pending = []; serve_pending_next = false },
    )

unfoldable pub restore_after_interruption : Batch → BufferState → BufferState
restore_after_interruption batch state = record state { retry = state.retry ++ batch ∷ [] }

unfoldable pub total_length : List Batch → ℕ
total_length [] = 0
total_length (batch ∷ batches) = length batch + total_length batches

unfoldable pub retry_buckets : BufferState → ℕ
retry_buckets state = total_length state.retry

unfoldable pub pending_buckets : BufferState → ℕ
pending_buckets state = length state.pending + total_length state.retry
