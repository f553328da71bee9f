-- ===== src/Export/MeterEvent.antt =====
-- crates/mcp-usage-export/src/meter_event.rs: the exporter that submits a batch to a billing
-- provider, keeps the progress of an incomplete batch, and quarantines rejected events. An export
-- waits for the provider once, so it is two steps; the provider's answer is an input.
pub mod Letters
pub mod Progress
pub mod Lease
mod Tests
use mathlib.Core.Option
use mcp_usage_kit.Prelude.Sets
use mcp_usage_kit.Export.Buffer.{AggregatedUsage, Batch}
use mcp_usage_kit.Prelude.{
  Bool, List, Option, Str, [], false, if◌then◌else◌, leb, length, ltb, none, saturating_add, some,
  str_equal, strs_equal, suc, true, zero, ℕ, ◌++◌, ◌==◌, ◌∷◌,
}

pub data MeterEventOutcome : Type 0 where
  accepted : MeterEventOutcome
  retryable_failure permanent_rejection : Str → MeterEventOutcome

-- The error wraps its code.
pub record MeterEventProviderError : Type 0 where
  pub code : Str

pub data MeterEventDeadLetterReason : Type 0 where
  synchronous_provider_rejection asynchronous_provider_rejection : Str → MeterEventDeadLetterReason

pub record MeterEventDeadLetter : Type 0 where
  pub aggregate : AggregatedUsage
  pub reason : MeterEventDeadLetterReason

pub record RetryProgress : Type 0 where
  pub progress_batch : Batch
  pub completed : List Bool

pub record ExporterState : Type 0 where
  pub dead_letters : List MeterEventDeadLetter
  pub dead_letter_identifiers : List Str
  pub dropped_dead_letters : ℕ
  pub retry_progress : Option RetryProgress

pub record MeterEventExporter : Type 0 where
  pub dead_letter_capacity : ℕ
  pub state : ExporterState
  pub exporting : Bool

abbrev pub default_dead_letter_capacity : ℕ
default_dead_letter_capacity = 1024

-- `MeterEventExporter::new`.
abbrev pub new_exporter : MeterEventExporter
new_exporter = record {
  dead_letter_capacity = default_dead_letter_capacity;
  state = record {
    dead_letters = [];
    dead_letter_identifiers = [];
    dropped_dead_letters = 0;
    retry_progress = none;
  };
  exporting = false;
}

-- The loop that drops the oldest letters while their number passes the test.
unfoldable pub evict : (ℕ → Bool) → List MeterEventDeadLetter → ExporterState → ExporterState
evict full [] state = record state { dead_letters = [] }
evict full (letter ∷ letters) state =
    let rest = evict full letters (record state {
      dead_letter_identifiers =
          Sets.discard letter.aggregate.identifier state.dead_letter_identifiers;
      dropped_dead_letters = saturating_add state.dropped_dead_letters 1;
    }) in
    if full (suc (length letters)) then rest else record state { dead_letters = letter ∷ letters }

unfoldable pub with_dead_letter_capacity : ℕ → MeterEventExporter → MeterEventExporter
with_dead_letter_capacity capacity exporter = record exporter {
  dead_letter_capacity = capacity;
  state = evict (λ n. ltb capacity n) exporter.state.dead_letters exporter.state;
}

unfoldable pub append_letter :
    AggregatedUsage → MeterEventDeadLetterReason → ExporterState → ExporterState
append_letter aggregate reason state = record state {
  dead_letter_identifiers = Sets.add aggregate.identifier state.dead_letter_identifiers;
  dead_letters = state.dead_letters ++ record { aggregate = aggregate; reason = reason } ∷ [];
}

-- Whether the letter is newly retained, and the state after.
unfoldable pub quarantine_locked :
    ℕ → AggregatedUsage → MeterEventDeadLetterReason → ExporterState → Bool × ExporterState
quarantine_locked capacity aggregate reason state =
    if Sets.contains aggregate.identifier state.dead_letter_identifiers
    then (false, state)
    else if capacity == 0
    then (
      false,
      record state { dropped_dead_letters = saturating_add state.dropped_dead_letters 1 },
    )
    else (
      true,
      append_letter aggregate reason (evict (λ n. leb capacity n) state.dead_letters state),
    )

unfoldable pub quarantine_async_rejection :
    AggregatedUsage → Str → MeterEventExporter → Bool × MeterEventExporter
quarantine_async_rejection aggregate code exporter =
    let kept =
      quarantine_locked exporter.dead_letter_capacity aggregate
        (asynchronous_provider_rejection code) exporter.state in
    (kept.0, record exporter { state = kept.1 })

unfoldable pub take_dead_letters :
    MeterEventExporter → List MeterEventDeadLetter × MeterEventExporter
take_dead_letters exporter = (
  exporter.state.dead_letters,
  record exporter {
    state = record exporter.state { dead_letters = []; dead_letter_identifiers = [] };
  },
)

unfoldable pub dead_letter_count : MeterEventExporter → ℕ
dead_letter_count exporter = length exporter.state.dead_letters

-- The events that are not completed, with their places. The lists have one length: a batch that
-- outran its flags would panic at the missing flag.
unfoldable pub unresolved_from : ℕ → Batch → List Bool → List (ℕ × AggregatedUsage)
unresolved_from i [] flags = []
unresolved_from i (usage ∷ usages) [] = []
unresolved_from i (usage ∷ usages) (done ∷ flags) =
    let rest = unresolved_from (suc i) usages flags in if done then rest else (i, usage) ∷ rest

unfoldable pub unresolved_of : Option RetryProgress → List (ℕ × AggregatedUsage)
unresolved_of none = []
unresolved_of (some progress) = unresolved_from 0 progress.progress_batch progress.completed

unfoldable pub unresolved : ExporterState → List (ℕ × AggregatedUsage)
unresolved state = unresolved_of state.retry_progress

-- `*completed.get_mut(index) = true`, if there is one.
unfoldable pub set_completed : ℕ → List Bool → List Bool
set_completed i [] = []
set_completed zero (done ∷ flags) = true ∷ flags
set_completed (suc i) (done ∷ flags) = done ∷ set_completed i flags

unfoldable pub completed_at : ℕ → RetryProgress → RetryProgress
completed_at index progress = record progress { completed = set_completed index progress.completed }

unfoldable pub mark_completed_locked : ℕ → ExporterState → ExporterState
mark_completed_locked index state = record state {
  retry_progress = Option.map (completed_at index) state.retry_progress;
}

-- Whether an event is to be retried, and the state after all outcomes.
unfoldable pub apply_outcomes :
    ℕ → List (ℕ × AggregatedUsage) → List MeterEventOutcome → ExporterState → Bool × ExporterState
apply_outcomes capacity ((index, aggregate) ∷ events) (accepted ∷ outcomes) state =
    apply_outcomes capacity events outcomes (mark_completed_locked index state)
apply_outcomes capacity ((index, aggregate) ∷ events) (retryable_failure code ∷ outcomes) state =
    (true, (apply_outcomes capacity events outcomes state).1)
apply_outcomes capacity ((index, aggregate) ∷ events) (permanent_rejection code ∷ outcomes) state =
    apply_outcomes capacity events outcomes (
      mark_completed_locked index
        (quarantine_locked capacity aggregate (synchronous_provider_rejection code) state).1)
apply_outcomes capacity _ _ state = (false, state)
