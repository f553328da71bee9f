-- ===== src/Export/Billing.antt =====
-- crates/mcp-usage-export: `BillingPipeline::flush` with a `MeterEventExporter` that it alone uses,
-- as the code composes them: a flush runs up to the provider's submission in one step, and from
-- the provider's answer, or its cancellation, in another.
mod Link
mod Steps
pub mod Accepted
mod Tests
use mcp_usage_kit.Export.Buffer.{AggregatedUsage, UsageEvent, complete_batch}
use mcp_usage_kit.Export.MeterEvent.{
  MeterEventExporter, MeterEventOutcome, MeterEventProviderError, new_exporter,
  quarantine_async_rejection, take_dead_letters,
}
use mcp_usage_kit.Export.MeterEvent.Lease.{
  Begun, abandon_retry_progress, finish_export, refused, release, settled, start_export, submitted,
}
use mcp_usage_kit.Export.Pipeline.{
  BillingPipeline, Ending, ExportError, Started, begin_flush, cancelled, exported, failed,
  finish_flush, finished, record_usage, with_idempotency_capacity,
}
use mcp_usage_kit.Prelude.{List, Option, Str, [], none, some, ℕ, ◌∷◌, ◌⊎◌}

-- `waiting` holds the events that the running flush has submitted.
pub record Billing : Type 0 where
  pub pipeline : BillingPipeline
  pub exporter : MeterEventExporter
  pub waiting : Option (List (ℕ × AggregatedUsage))

unfoldable pub new_billing : ℕ → Billing
new_billing capacity = record {
  pipeline = with_idempotency_capacity capacity;
  exporter = new_exporter;
  waiting = none;
}

-- What the flush does with a batch, by how far the export came.
unfoldable pub settle : Begun → BillingPipeline → MeterEventExporter → Billing
settle (refused error) pipeline exporter = record {
  pipeline = (finish_flush (failed error) pipeline).1;
  exporter = exporter;
  waiting = none;
}
settle settled pipeline exporter = record {
  pipeline = (finish_flush exported pipeline).1;
  exporter = exporter;
  waiting = none;
}
settle (submitted events) pipeline exporter = record {
  pipeline = pipeline;
  exporter = exporter;
  waiting = some events;
}

unfoldable pub continue_flush : Started → BillingPipeline → Billing → Billing
continue_flush (finished answer) pipeline billing = record billing { pipeline = pipeline }
continue_flush (Started.exporting batched) pipeline billing =
    let begun = start_export batched billing.exporter in settle begun.0 pipeline begun.1

unfoldable pub flush : (ℕ → Str) → Billing → Billing
flush uuids billing =
    let begun = begin_flush complete_batch uuids billing.pipeline in
    continue_flush begun.0 begun.1 billing

unfoldable pub ending_of : Option ExportError → Ending
ending_of none = exported
ending_of (some error) = failed error

unfoldable pub answered :
    MeterEventProviderError ⊎ List MeterEventOutcome
    → Option (List (ℕ × AggregatedUsage))
    → Billing
    → Billing
answered answer none billing = billing
answered answer (some events) billing =
    let ended = finish_export answer events billing.exporter in
    record {
      pipeline = (finish_flush (ending_of ended.0) billing.pipeline).1;
      exporter = ended.1;
      waiting = none;
    }

-- A dropped flush gives back the lease and the batch.
unfoldable pub dropped : Option (List (ℕ × AggregatedUsage)) → Billing → Billing
dropped none billing = billing
dropped (some events) billing = record {
  pipeline = (finish_flush cancelled billing.pipeline).1;
  exporter = release billing.exporter;
  waiting = none;
}

pub data BillingStep : Type 0 where
  uses : UsageEvent → BillingStep
  flushes : (ℕ → Str) → BillingStep
  answers : MeterEventProviderError ⊎ List MeterEventOutcome → BillingStep
  drops abandons takes_letters : BillingStep
  quarantines : AggregatedUsage → Str → BillingStep

unfoldable pub billing_step : Billing → BillingStep → Billing
billing_step billing (uses event) = record billing {
  pipeline = (record_usage event billing.pipeline).1;
}
billing_step billing (flushes uuids) = flush uuids billing
billing_step billing (answers answer) = answered answer billing.waiting billing
billing_step billing drops = dropped billing.waiting billing
billing_step billing abandons = record billing {
  exporter = (abandon_retry_progress billing.exporter).1;
}
billing_step billing takes_letters = record billing {
  exporter = (take_dead_letters billing.exporter).1;
}
billing_step billing (quarantines aggregate code) = record billing {
  exporter = (quarantine_async_rejection aggregate code billing.exporter).1;
}

unfoldable pub billing_run : Billing → List BillingStep → Billing
billing_run billing [] = billing
billing_run billing (s ∷ steps) = billing_run (billing_step billing s) steps
