-- ===== src/Export/MeterEvent/Lease.antt =====
-- The export of `MeterEventExporter` under its lease, and what an application may do meanwhile.
use mcp_usage_kit.Export.Buffer.{AggregatedUsage, Batch, is_empty}
use mcp_usage_kit.Export.MeterEvent.{
  MeterEventExporter, MeterEventOutcome, MeterEventProviderError, RetryProgress, apply_outcomes,
  unresolved,
}
use mcp_usage_kit.Export.Pipeline.{ExportError, provider}
use mcp_usage_kit.Prelude.{
  Bool, List, Option, Str, [], false, if◌then◌else◌, inl, inr, is_some, length, map, none, not,
  some, str, str_eq, true, ℕ, ◌&&◌, ◌++◌, ◌==◌, ◌∷◌, ◌⊎◌,
}

pub data Begun : Type 0 where
  refused : ExportError → Begun
  settled : Begun
  submitted : List (ℕ × AggregatedUsage) → Begun

abbrev pub incomplete_batch_first : Str
incomplete_batch_first =
    str "meter event exporter requires the incomplete batch to be retried first; "
    ++ str "call abandon_retry_progress to give up on it"

unfoldable pub fresh_progress : Batch → RetryProgress
fresh_progress batched = record {
  progress_batch = batched;
  completed = map (λ usage. false) batched;
}

unfoldable pub usage_eq : AggregatedUsage → AggregatedUsage → Bool
usage_eq a b =
    str_eq a.identifier b.identifier
    && str_eq a.customer_id b.customer_id
    && str_eq a.meter b.meter
    && (a.units == b.units)
    && (a.timestamp == b.timestamp)

unfoldable pub batch_eq : Batch → Batch → Bool
batch_eq [] [] = true
batch_eq (a ∷ as') (b ∷ bs) = usage_eq a b && batch_eq as' bs
batch_eq _ _ = false

-- The progress that the batch continues or starts; no other batch is accepted meanwhile.
unfoldable pub begin_progress :
    Batch → Option RetryProgress → MeterEventExporter → Option ExportError × MeterEventExporter
begin_progress batched none exporter = (
  none,
  record exporter {
    exporting = true;
    state = record exporter.state { retry_progress = some (fresh_progress batched) };
  },
)
begin_progress batched (some progress) exporter =
    if batch_eq progress.progress_batch batched
    then (none, record exporter { exporting = true })
    else (some (provider incomplete_batch_first), exporter)

-- The lease, then the progress; an error gives the lease back.
unfoldable pub begin_export : Batch → MeterEventExporter → Option ExportError × MeterEventExporter
begin_export batched exporter =
    if exporter.exporting
    then (some (provider (str "meter event export already in progress")), exporter)
    else begin_progress batched exporter.state.retry_progress exporter

-- The lease is given back when the export ends.
unfoldable pub release : MeterEventExporter → MeterEventExporter
release exporter = record exporter { exporting = false }

unfoldable pub commit_export : MeterEventExporter → MeterEventExporter
commit_export exporter = record exporter { state = record exporter.state { retry_progress = none } }

unfoldable pub submit : Option ExportError → MeterEventExporter → Begun × MeterEventExporter
submit (some error) exporter = (refused error, exporter)
submit none exporter =
    if is_empty (unresolved exporter.state)
    then (settled, release (commit_export exporter))
    else (submitted (unresolved exporter.state), exporter)

-- An export up to its submission to the provider, if it comes to one.
unfoldable pub start_export : Batch → MeterEventExporter → Begun × MeterEventExporter
start_export batched exporter = let begun = begin_export batched exporter in submit begun.0 begun.1

-- An export from the provider's answer on.
unfoldable pub finish_export :
    MeterEventProviderError ⊎ List MeterEventOutcome
    → List (ℕ × AggregatedUsage)
    → MeterEventExporter
    → Option ExportError × MeterEventExporter
finish_export (inl error) events exporter =
    (some (provider (str "meter event provider failed: " ++ error.code)), release exporter)
finish_export (inr outcomes) events exporter =
    let applied = apply_outcomes exporter.dead_letter_capacity events outcomes exporter.state in
    let after = release (record exporter { state = applied.1 }) in
    if not (length outcomes == length events)
    then (
      some (provider (str "meter event provider returned an invalid outcome count")),
      release exporter,
    )
    else if applied.0
    then (some (provider (str "meter event provider reported retryable events")), after)
    else (none, commit_export after)

unfoldable pub unconfirmed : Batch → List Bool → List Str
unconfirmed (usage ∷ usages) (done ∷ flags) =
    let rest = unconfirmed usages flags in if done then rest else usage.identifier ∷ rest
unconfirmed _ _ = []

unfoldable pub left_over : Option RetryProgress → List Str
left_over none = []
left_over (some progress) = unconfirmed progress.progress_batch progress.completed

unfoldable pub abandon_retry_progress : MeterEventExporter → List Str × MeterEventExporter
abandon_retry_progress exporter =
    if exporter.exporting
    then ([], exporter)
    else (left_over exporter.state.retry_progress, commit_export exporter)

unfoldable pub retry_in_progress : MeterEventExporter → Bool
retry_in_progress exporter = is_some exporter.state.retry_progress
