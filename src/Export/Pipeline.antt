-- ===== src/Export/Pipeline.antt =====
-- crates/mcp-usage-export/src/lib.rs, `BillingPipeline`: a buffer, an exporter, and at most one
-- flush at a time. Between the start of a flush and the exporter's answer other tasks run, so a
-- flush is two steps, and a history is a list of steps.
pub mod Conservation
pub mod Order
pub mod Completion
mod Tests
use mcp_usage_kit.Export.Buffer.{
  Batch, BufferState, RecordError, RecordOutcome, RetryPolicy, UsageEvent, empty_buffer, is_empty,
  prepare_flush, record_event, restore_after_interruption,
}
use mcp_usage_kit.Prelude.{
  Bool, List, Option, Str, [], false, if◌then◌else◌, inl, inr, length, none, some, true, ℕ, ◌∷◌,
  ◌⊎◌,
}

-- `FlushGuard` holds the flag up while a flush runs, and `RetryGuard` owns its batch.
pub record BillingPipeline : Type 0 where
  pub buffer : BufferState
  pub max_idempotency_keys : ℕ
  pub flush_in_progress : Bool
  pub guard : Option Batch

unfoldable pub with_idempotency_capacity : ℕ → BillingPipeline
with_idempotency_capacity capacity = record {
  buffer = empty_buffer;
  max_idempotency_keys = capacity;
  flush_in_progress = false;
  guard = none;
}

pub data ExportError : Type 0 where
  provider : Str → ExportError
  flush_in_progress : ExportError

-- How an export ends: the exporter's answer, or the flush is dropped before it.
pub data Ending : Type 0 where
  exported cancelled : Ending
  failed : ExportError → Ending

-- A flush that does not wait for the exporter has its answer at once.
pub data Started : Type 0 where
  finished : ExportError ⊎ ℕ → Started
  exporting : Batch → Started

unfoldable pub begin_flush : RetryPolicy → (ℕ → Str) → BillingPipeline → Started × BillingPipeline
begin_flush policy uuids pipeline =
    let prepared = prepare_flush policy uuids pipeline.buffer in
    if pipeline.flush_in_progress
    then (finished (inl ExportError.flush_in_progress), pipeline)
    else if is_empty prepared.0
    then (finished (inr 0), record pipeline { buffer = prepared.1 })
    else (
      exporting prepared.0,
      record pipeline { buffer = prepared.1; flush_in_progress = true; guard = some prepared.0 },
    )

-- Dropping the guard returns a batch that it still owns.
unfoldable pub drop_guard : Option Batch → BufferState → BufferState
drop_guard none buffer = buffer
drop_guard (some batched) buffer = restore_after_interruption batched buffer

unfoldable pub commit : Option Batch → ℕ
commit none = 0
commit (some batched) = length batched

-- The answer of the flush, if it is still awaited.
unfoldable pub finish_flush : Ending → BillingPipeline → Option (ExportError ⊎ ℕ) × BillingPipeline
finish_flush exported pipeline = (
  some (inr (commit pipeline.guard)),
  record pipeline { flush_in_progress = false; guard = none },
)
finish_flush (failed error) pipeline = (
  some (inl error),
  record pipeline {
    buffer = drop_guard pipeline.guard pipeline.buffer;
    flush_in_progress = false;
    guard = none;
  },
)
finish_flush cancelled pipeline = (
  none,
  record pipeline {
    buffer = drop_guard pipeline.guard pipeline.buffer;
    flush_in_progress = false;
    guard = none;
  },
)

unfoldable pub record_usage :
    UsageEvent → BillingPipeline → (RecordError ⊎ RecordOutcome) × BillingPipeline
record_usage event pipeline =
    let answer = record_event pipeline.max_idempotency_keys event pipeline.buffer in
    (answer.0, record pipeline { buffer = answer.1 })

-- A flush that begins draws its identifiers from UUIDs of its own.
pub data Step : Type 0 where
  records : UsageEvent → Step
  begins : (ℕ → Str) → Step
  finishes : Ending → Step

unfoldable pub step : RetryPolicy → BillingPipeline → Step → BillingPipeline
step policy pipeline (records event) = (record_usage event pipeline).1
step policy pipeline (begins uuids) = (begin_flush policy uuids pipeline).1
step policy pipeline (finishes ending) = (finish_flush ending pipeline).1

unfoldable pub run : RetryPolicy → BillingPipeline → List Step → BillingPipeline
run policy pipeline [] = pipeline
run policy pipeline (s ∷ steps) = run policy (step policy pipeline s) steps
