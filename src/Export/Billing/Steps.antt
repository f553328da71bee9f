-- ===== src/Export/Billing/Steps.antt =====
-- The link between the pipeline and the exporter on every other step.
use mcp_usage_kit.Export.Billing.{
  Billing, BillingStep, abandons, answered, answers, billing_run, billing_step, dropped, drops,
  ending_of, flushes, quarantines, takes_letters, uses,
}
use mcp_usage_kit.Export.Billing.Link.{IsLinked, IsLinked-flush}
use mcp_usage_kit.Export.Buffer.{AggregatedUsage, Batch, UsageEvent}
use mcp_usage_kit.Export.MeterEvent.{
  MeterEventExporter, MeterEventOutcome, MeterEventProviderError, RetryProgress, apply_outcomes,
  asynchronous_provider_rejection, quarantine_async_rejection, take_dead_letters,
}
use mcp_usage_kit.Export.MeterEvent.Lease.{
  abandon_retry_progress, commit_export, finish_export, release,
}
use mcp_usage_kit.Export.MeterEvent.Progress.{apply_outcomes-progress, progress_kept}
use mcp_usage_kit.Export.Pipeline.{
  BillingPipeline, Ending, cancelled, exported, failed, finish_flush, finishes, record_usage,
  records, step,
}
use mcp_usage_kit.Export.Pipeline.Completion.{IsSingle, IsSingle-step, in_hand, step-in_hand}
use mcp_usage_kit.Prelude.{
  Bool-cases, List, Option, [], ap, arith, false, inl, inr, length, none, refl, some, sym, ℕ, ◌==◌,
  ◌∙◌, ◌∷◌, ◌≡◌, ◌≢◌, ◌⊎◌,
}

failed_in_hand :
    (pipeline : BillingPipeline) (batched : Batch) (ending : Ending)
    → ending ≢ exported
    → IsSingle pipeline
    → in_hand pipeline ≡ some batched
    → in_hand (finish_flush ending pipeline).1 ≡ some batched
unfolding step
failed_in_hand pipeline batched ending n v h =
    elim (step-in_hand pipeline batched (finishes ending) v h) [
      | inl (s, g) ↦ absurd (n (ground arith))
      | inr kept ↦ kept
    ]

flag_down :
    (ending : Ending) (pipeline : BillingPipeline)
    → (finish_flush ending pipeline).1.flush_in_progress ≡ false
unfolding finish_flush
flag_down exported pipeline = refl
flag_down cancelled pipeline = refl
flag_down (failed error) pipeline = refl

-- An answer ends the lease, and keeps the batch of the progress or settles it.
finish_export_facts :
    (answer : MeterEventProviderError ⊎ List MeterEventOutcome)
    (events : List (ℕ × AggregatedUsage)) (exporter : MeterEventExporter)
    → let (error, after) = finish_export answer events exporter in
      (after.exporting ≡ false)
      × ((progress : RetryProgress)
          → after.state.retry_progress ≡ some progress
          → (ending_of error ≢ exported)
            × ((before : RetryProgress) × (exporter.state.retry_progress ≡ some before)
                × (before.progress_batch ≡ progress.progress_batch)))
unfolding finish_export release commit_export ending_of
finish_export_facts (inl error) events exporter =
    (refl, λ progress h. (λ e. ground arith, (progress, h, refl)))
finish_export_facts (inr outcomes) events exporter =
    let capacity = exporter.dead_letter_capacity in
    let applied = apply_outcomes capacity events outcomes exporter.state in
    elim (Bool-cases (length outcomes == length events)) [
      | inl e ↦ elim (Bool-cases applied.0) [
        | inl f ↦
            rw (e, f)
              (
                refl,
                λ progress h. (
                  λ g. ground arith,
                  apply_outcomes-progress capacity events outcomes exporter.state progress h,
                ),
              )
        | inr f ↦ rw (e, f) (refl, λ progress h. absurd (ground arith))
      ]
      | inr e ↦ rw e (refl, λ progress h. (λ g. ground arith, (progress, h, refl)))
    ]

IsLinked-answered :
    (answer : MeterEventProviderError ⊎ List MeterEventOutcome)
    (waiting : Option (List (ℕ × AggregatedUsage))) (billing : Billing)
    → IsLinked billing
    → IsLinked (answered answer waiting billing)
unfolding answered
IsLinked-answered answer none billing v = v
IsLinked-answered answer (some events) billing v =
    let ended = finish_export answer events billing.exporter in
    let (lease_free, keeps) = finish_export_facts answer events billing.exporter in
    record {
      single =
          unfold step in IsSingle-step billing.pipeline (finishes (ending_of ended.0)) v.single;
      leased = lease_free;
      flushing = flag_down (ending_of ended.0) billing.pipeline;
      linked = λ progress h.
          let (unsettled, (before, e, m)) = keeps progress h in
          failed_in_hand billing.pipeline progress.progress_batch (ending_of ended.0) unsettled
            v.single (v.linked before e ∙ ap some m);
    }

IsLinked-dropped :
    (waiting : Option (List (ℕ × AggregatedUsage))) (billing : Billing)
    → IsLinked billing
    → IsLinked (dropped waiting billing)
unfolding dropped release
IsLinked-dropped none billing v = v
IsLinked-dropped (some events) billing v = record {
  single = unfold step in IsSingle-step billing.pipeline (finishes cancelled) v.single;
  leased = refl;
  flushing = flag_down cancelled billing.pipeline;
  linked = λ progress h.
      failed_in_hand billing.pipeline progress.progress_batch cancelled (λ g. ground arith) v.single
        (v.linked progress h);
}

IsLinked-uses :
    (event : UsageEvent) (billing : Billing)
    → IsLinked billing
    → IsLinked (billing_step billing (uses event))
unfolding billing_step record_usage
IsLinked-uses event billing v = record {
  single = unfold step in IsSingle-step billing.pipeline (records event) v.single;
  leased = v.leased;
  flushing = v.flushing;
  linked = λ progress h.
      elim (step-in_hand billing.pipeline progress.progress_batch (records event) v.single
        (v.linked progress h)) [
          | inl (s, g) ↦ absurd (ground arith)
          | inr kept ↦ unfold step in kept
        ];
}

-- What only touches the exporter leaves the link, if it keeps the lease and starts no progress.
IsLinked-exporter :
    (billing : Billing) (exporter : MeterEventExporter)
    → IsLinked billing
    → exporter.exporting ≡ billing.exporter.exporting
    → (exporter.state.retry_progress ≡ billing.exporter.state.retry_progress)
      ⊎ (exporter.state.retry_progress ≡ none)
    → IsLinked (record billing { exporter = exporter })
IsLinked-exporter billing exporter v l p = record {
  single = v.single;
  leased = l ∙ v.leased;
  flushing = v.flushing;
  linked = λ progress h. elim p [
    | inl kept ↦ v.linked progress (sym kept ∙ h)
    | inr gone ↦ absurd (ground arith)
  ];
}

IsLinked-step :
    (billing : Billing) (s : BillingStep) → IsLinked billing → IsLinked (billing_step billing s)
unfolding billing_step
IsLinked-step billing (uses event) v = IsLinked-uses event billing v
IsLinked-step billing (flushes uuids) v = IsLinked-flush uuids billing v
IsLinked-step billing (answers answer) v = IsLinked-answered answer billing.waiting billing v
IsLinked-step billing drops v = IsLinked-dropped billing.waiting billing v
IsLinked-step billing abandons v =
    unfold abandon_retry_progress commit_export in
    IsLinked-exporter billing (abandon_retry_progress billing.exporter).1 v (ground arith)
      (elim (Bool-cases billing.exporter.exporting) [
        | inl e ↦ inl (ground arith)
        | inr e ↦ inr (ground arith)
      ])
IsLinked-step billing takes_letters v =
    unfold take_dead_letters in
    IsLinked-exporter billing (take_dead_letters billing.exporter).1 v refl (inl refl)
IsLinked-step billing (quarantines aggregate code) v =
    unfold quarantine_async_rejection in
    IsLinked-exporter billing (quarantine_async_rejection aggregate code billing.exporter).1 v refl
      (inl (
        progress_kept billing.exporter.dead_letter_capacity aggregate
          (asynchronous_provider_rejection code) billing.exporter.state))

pub IsLinked-run :
    (billing : Billing) (steps : List BillingStep)
    → IsLinked billing
    → IsLinked (billing_run billing steps)
unfolding billing_run
IsLinked-run billing [] v = v
IsLinked-run billing (s ∷ steps) v =
    IsLinked-run (billing_step billing s) steps (IsLinked-step billing s v)
