-- ===== src/Export/Billing/Link.antt =====
-- The link between the pipeline and the exporter while a flush begins.
use mcp_usage_kit.Export.Billing.{Billing, continue_flush, flush, settle}
use mcp_usage_kit.Export.Buffer.{AggregatedUsage, Batch, complete_batch, is_empty}
use mcp_usage_kit.Export.MeterEvent.{MeterEventExporter, RetryProgress, unresolved}
use mcp_usage_kit.Export.MeterEvent.Lease.{
  batch_eq, begin_export, begin_progress, commit_export, fresh_progress, release, settled,
  start_export, submit, submitted, usage_eq,
}
use mcp_usage_kit.Export.Pipeline.{
  BillingPipeline, ExportError, Started, begin_flush, begins, exported, finish_flush, finished,
  finishes, step,
}
use mcp_usage_kit.Export.Pipeline.Completion.{
  IsSingle, IsSingle-step, begin_flush-in_hand, in_hand, owed_first, step-in_hand,
}
use mcp_usage_kit.Prelude.{
  Bool-cases, Option-cases, Str, [], arith, false, inl, inr, is_some, none, refl, some, str_eq_iff,
  sym, true, ℕ, ◌∙◌, ◌∷◌, ◌≡◌, ◌⊎◌,
}

usage_eq_refl : (a : AggregatedUsage) → usage_eq a a ≡ true
unfolding usage_eq
usage_eq_refl a = ground (
  arith,
  str_eq_iff a.identifier a.identifier,
  str_eq_iff a.customer_id a.customer_id,
  str_eq_iff a.meter a.meter,
)

batch_eq_refl : (b : Batch) → batch_eq b b ≡ true
unfolding batch_eq
batch_eq_refl [] = refl
batch_eq_refl (x ∷ xs) = ground (arith, usage_eq_refl x, batch_eq_refl xs)

-- The lease is held, and the flush flag up, exactly while an answer is awaited, and progress is kept
-- for the batch in hand only.
pub record IsLinked (billing : Billing) : Type 0 where
  pub single : IsSingle billing.pipeline
  pub leased : billing.exporter.exporting ≡ is_some billing.waiting
  pub flushing : billing.pipeline.flush_in_progress ≡ is_some billing.waiting
  pub linked :
      (progress : RetryProgress)
      → billing.exporter.state.retry_progress ≡ some progress
      → in_hand billing.pipeline ≡ some progress.progress_batch

-- What a flush that offers a batch knows of the pipeline.
begun_facts :
    (uuids : ℕ → Str) (pipeline : BillingPipeline) (batched : Batch)
    → (begin_flush complete_batch uuids pipeline).0 ≡ Started.exporting batched
    → (pipeline.flush_in_progress ≡ false)
      × ((begin_flush complete_batch uuids pipeline).1.flush_in_progress ≡ true)
      × ((begin_flush complete_batch uuids pipeline).1.guard ≡ some batched)
unfolding begin_flush
begun_facts uuids pipeline batched h = ground arith

finished_facts :
    (uuids : ℕ → Str) (pipeline : BillingPipeline) (answer : ExportError ⊎ ℕ)
    → (begin_flush complete_batch uuids pipeline).0 ≡ finished answer
    → (begin_flush complete_batch uuids pipeline).1.flush_in_progress ≡ pipeline.flush_in_progress
unfolding begin_flush
finished_facts uuids pipeline answer h = ground arith

-- The batch that a flush offers is the one that progress is kept for, if any is.
offered_batch :
    (uuids : ℕ → Str) (billing : Billing) (batched : Batch) (progress : RetryProgress)
    → IsLinked billing
    → (begin_flush complete_batch uuids billing.pipeline).0 ≡ Started.exporting batched
    → billing.exporter.state.retry_progress ≡ some progress
    → progress.progress_batch ≡ batched
offered_batch uuids billing batched progress v h e =
    let idle = (begun_facts uuids billing.pipeline batched h).0 in
    let offered =
      begin_flush-in_hand uuids billing.pipeline progress.progress_batch v.single
        (v.linked progress e) idle in
    ground (arith, offered)

pub begin_offered :
    (uuids : ℕ → Str) (billing : Billing) (batched : Batch)
    → IsLinked billing
    → (begin_flush complete_batch uuids billing.pipeline).0 ≡ Started.exporting batched
    → let (error, after) = begin_export batched billing.exporter in
      (error ≡ none)
      × (after.exporting ≡ true)
      × ((progress : RetryProgress) × (after.state.retry_progress ≡ some progress)
          × (progress.progress_batch ≡ batched))
unfolding begin_export begin_progress fresh_progress
begin_offered uuids billing batched v h =
    let unleased : billing.exporter.exporting ≡ false =
      v.leased ∙ sym v.flushing ∙ (begun_facts uuids billing.pipeline batched h).0 in
    elim (Option-cases billing.exporter.state.retry_progress) [
      | inl e ↦ rw (unleased, e) (refl, refl, (fresh_progress batched, refl, refl))
      | inr (progress, e) ↦
          let matching = offered_batch uuids billing batched progress v h e in
          let accepted : batch_eq progress.progress_batch batched ≡ true =
            rw matching (batch_eq_refl batched) in
          rw (unleased, e, accepted) (refl, refl, (progress, refl, matching))
    ]

Begun-cases :
    (exporter : MeterEventExporter)
    → (submit none exporter ≡ (settled, release (commit_export exporter)))
      ⊎ (submit none exporter ≡ (submitted (unresolved exporter.state), exporter))
unfolding submit
Begun-cases exporter = elim (Bool-cases (is_empty (unresolved exporter.state))) [
  | inl e ↦ inl (rw e refl)
  | inr e ↦ inr (rw e refl)
]

Started-cases :
    (started : Started)
    → ((answer : ExportError ⊎ ℕ) × (started ≡ finished answer))
      ⊎ ((batched : Batch) × (started ≡ Started.exporting batched))
Started-cases (finished answer) = inl (answer, refl)
Started-cases (Started.exporting batched) = inr (batched, refl)

IsLinked-settle :
    (pipeline : BillingPipeline) (exporter : MeterEventExporter) (batched : Batch)
    (progress : RetryProgress)
    → IsSingle pipeline
    → pipeline.flush_in_progress ≡ true
    → pipeline.guard ≡ some batched
    → exporter.exporting ≡ true
    → exporter.state.retry_progress ≡ some progress
    → progress.progress_batch ≡ batched
    → IsLinked (let begun = submit none exporter in settle begun.0 pipeline begun.1)
unfolding settle
IsLinked-settle pipeline exporter batched progress s f g l e m = elim (Begun-cases exporter) [
  | inl c ↦ rw c (record {
    single = unfold step in IsSingle-step pipeline (finishes exported) s;
    leased = unfold release in refl;
    flushing = unfold finish_flush in refl;
    linked = λ q h. unfold release commit_export in absurd (ground arith);
  })
  | inr c ↦ rw c (record {
    single = s;
    leased = l;
    flushing = f;
    linked = λ q h. unfold in_hand owed_first in ground arith;
  })
]

-- A flush that ends at once leaves the batch in hand.
stays :
    (uuids : ℕ → Str) (pipeline : BillingPipeline) (batched : Batch) (answer : ExportError ⊎ ℕ)
    → IsSingle pipeline
    → in_hand pipeline ≡ some batched
    → (begin_flush complete_batch uuids pipeline).0 ≡ finished answer
    → in_hand (begin_flush complete_batch uuids pipeline).1 ≡ some batched
unfolding step
stays uuids pipeline batched answer v h e =
    elim (step-in_hand pipeline batched (begins uuids) v h) [
      | inl (s, g) ↦ absurd (ground arith)
      | inr kept ↦ kept
    ]

pub IsLinked-flush :
    (uuids : ℕ → Str) (billing : Billing) → IsLinked billing → IsLinked (flush uuids billing)
unfolding flush continue_flush start_export
IsLinked-flush uuids billing v =
    let begun = begin_flush complete_batch uuids billing.pipeline in
    let single : IsSingle begun.1 =
      unfold step in IsSingle-step billing.pipeline (begins uuids) v.single in
    elim (Started-cases begun.0) [
      | inl (answer, e) ↦ rw e (record {
        single = single;
        leased = v.leased;
        flushing = finished_facts uuids billing.pipeline answer e ∙ v.flushing;
        linked = λ progress h.
            stays uuids billing.pipeline progress.progress_batch answer v.single
              (v.linked progress h) e;
      })
      | inr (batched, e) ↦
          let (none_refused, leased, (progress, kept, matching)) =
            begin_offered uuids billing batched v e in
          let (_, flushing, guarded) = begun_facts uuids billing.pipeline batched e in
          rw (e, none_refused)
            (IsLinked-settle begun.1 (begin_export batched billing.exporter).1 batched progress
              single flushing guarded leased kept matching)
    ]
