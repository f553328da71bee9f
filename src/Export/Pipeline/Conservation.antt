-- ===== src/Export/Pipeline/Conservation.antt =====
-- No usage is lost or exported twice by the pipeline's own doing, in any interleaving of records,
-- flushes, failures and cancellations.
use mcp_usage_kit.Export.Buffer.{
  AggregateKey, Batch, BufferState, RetryPolicy, prepare_flush, restore_after_interruption,
}
use mcp_usage_kit.Export.Buffer.Ledger.{
  booked, held, outstanding, outstanding-prepare_flush, outstanding-record_event, units_in,
  units_in-append, units_of,
}
use mcp_usage_kit.Export.Pipeline.{
  BillingPipeline, Step, begin_flush, begins, cancelled, drop_guard, exported, failed, finish_flush,
  finishes, record_usage, records, run, step, with_idempotency_capacity,
}
use mcp_usage_kit.Prelude.{
  List, Option, Str, [], arith, is_some, none, refl, some, ℕ, ◌+◌, ◌∷◌, ◌≡◌,
}

unfoldable pub guarded : AggregateKey → Option Batch → ℕ
guarded key none = 0
guarded key (some batched) = units_of key batched

-- What is recorded and not confirmed as exported.
unfoldable pub unexported : AggregateKey → BillingPipeline → ℕ
unexported key pipeline = outstanding key pipeline.buffer + guarded key pipeline.guard

-- The flag is up exactly while a batch is guarded.
abbrev pub IsGuarded : BillingPipeline → Type 0
IsGuarded pipeline = pipeline.flush_in_progress ≡ is_some pipeline.guard

-- The units that a step records, and those that it exports.
unfoldable pub recorded_by : AggregateKey → BillingPipeline → Step → ℕ
recorded_by key pipeline (records event) = booked key event (record_usage event pipeline).0
recorded_by key pipeline (begins uuids) = 0
recorded_by key pipeline (finishes ending) = 0

unfoldable pub exported_by : AggregateKey → BillingPipeline → Step → ℕ
exported_by key pipeline (finishes exported) = guarded key pipeline.guard
exported_by key pipeline (finishes cancelled) = 0
exported_by key pipeline (finishes (failed error)) = 0
exported_by key pipeline (records event) = 0
exported_by key pipeline (begins uuids) = 0

unfoldable pub total_recorded : RetryPolicy → AggregateKey → BillingPipeline → List Step → ℕ
total_recorded policy key pipeline [] = 0
total_recorded policy key pipeline (s ∷ steps) =
    recorded_by key pipeline s + total_recorded policy key (step policy pipeline s) steps

unfoldable pub total_exported : RetryPolicy → AggregateKey → BillingPipeline → List Step → ℕ
total_exported policy key pipeline [] = 0
total_exported policy key pipeline (s ∷ steps) =
    exported_by key pipeline s + total_exported policy key (step policy pipeline s) steps

step-IsGuarded :
    (policy : RetryPolicy) (pipeline : BillingPipeline) (s : Step)
    → IsGuarded pipeline
    → IsGuarded (step policy pipeline s)
unfolding step record_usage begin_flush finish_flush
step-IsGuarded policy pipeline (records event) g = g
step-IsGuarded policy pipeline (begins uuids) g = ground arith
step-IsGuarded policy pipeline (finishes exported) g = refl
step-IsGuarded policy pipeline (finishes cancelled) g = refl
step-IsGuarded policy pipeline (finishes (failed error)) g = refl

restored :
    (key : AggregateKey) (guard : Option Batch) (buffer : BufferState)
    → outstanding key (drop_guard guard buffer) ≡ outstanding key buffer + guarded key guard
unfolding drop_guard restore_after_interruption outstanding guarded units_in
restored key none buffer = omega arith
restored key (some batched) buffer = omega (arith, units_in-append key buffer.retry (batched ∷ []))

begin_conserves :
    (key : AggregateKey) (policy : RetryPolicy) (uuids : ℕ → Str) (pipeline : BillingPipeline)
    → IsGuarded pipeline
    → unexported key (begin_flush policy uuids pipeline).1 ≡ unexported key pipeline
unfolding begin_flush unexported guarded units_of
begin_conserves key policy uuids pipeline g =
    let prepared = prepare_flush policy uuids pipeline.buffer in
    let conserved = outstanding-prepare_flush key policy uuids pipeline.buffer in
    ground (arith, conserved)

step_conserves :
    (key : AggregateKey) (policy : RetryPolicy) (pipeline : BillingPipeline) (s : Step)
    → IsGuarded pipeline
    → unexported key (step policy pipeline s) + exported_by key pipeline s
      ≡ unexported key pipeline + recorded_by key pipeline s
unfolding step exported_by recorded_by unexported finish_flush record_usage guarded
step_conserves key policy pipeline (records event) g =
    omega (arith, outstanding-record_event key pipeline.max_idempotency_keys event pipeline.buffer)
step_conserves key policy pipeline (begins uuids) g =
    omega (arith, begin_conserves key policy uuids pipeline g)
step_conserves key policy pipeline (finishes exported) g = omega arith
step_conserves key policy pipeline (finishes cancelled) g =
    omega (arith, restored key pipeline.guard pipeline.buffer)
step_conserves key policy pipeline (finishes (failed error)) g =
    omega (arith, restored key pipeline.guard pipeline.buffer)

run_conserves :
    (key : AggregateKey) (policy : RetryPolicy) (pipeline : BillingPipeline) (steps : List Step)
    → IsGuarded pipeline
    → unexported key (run policy pipeline steps) + total_exported policy key pipeline steps
      ≡ unexported key pipeline + total_recorded policy key pipeline steps
unfolding run total_exported total_recorded
run_conserves key policy pipeline [] g = refl
run_conserves key policy pipeline (s ∷ steps) g = omega (
  arith,
  step_conserves key policy pipeline s g,
  run_conserves key policy (step policy pipeline s) steps (step-IsGuarded policy pipeline s g),
)

-- In any history of a new pipeline, the units exported for a customer and a meter and those still
-- in its buffer or in the running flush are together exactly the units recorded for them: no
-- failure, cancellation, overlapping flush or retry loses a unit or makes one up.
pub usage_conserved :
    (key : AggregateKey) (policy : RetryPolicy) (capacity : ℕ) (steps : List Step)
    → let fresh = with_idempotency_capacity capacity in
      total_exported policy key fresh steps + unexported key (run policy fresh steps)
      ≡ total_recorded policy key fresh steps
unfolding with_idempotency_capacity unexported outstanding held units_in guarded
usage_conserved key policy capacity steps =
    omega (arith, run_conserves key policy (with_idempotency_capacity capacity) steps refl)
