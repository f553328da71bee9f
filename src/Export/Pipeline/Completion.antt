-- ===== src/Export/Pipeline/Completion.antt =====
-- The `CompleteBatch` policy: one batch at a time, offered until it is exported.
use mcp_usage_kit.Prelude.Assoc
use mcp_usage_kit.Export.Buffer.{
  Batch, BufferState, UsageEvent, accumulate, admit, aggregate_key, complete_batch, completes,
  is_empty, next_units, pop_front, prepare_flush, record_event, remember,
  restore_after_interruption, scoped_idempotency, take_retry,
}
use mcp_usage_kit.Export.Pipeline.{
  BillingPipeline, Step, begin_flush, begins, cancelled, drop_guard, exported, exporting, failed,
  finish_flush, finishes, record_usage, records, run, step, with_idempotency_capacity,
}
use mcp_usage_kit.Prelude.{
  All, Bool-cases, List, Option, Option-cases, Str, [], arith, false, inl, inr, is_some, length,
  length-append, none, refl, some, str_equal, strs_equal, subst, suc, sym, true, ℕ, ◌++◌, ◌+◌, ◌∙◌,
  ◌∷◌, ◌≡◌, ◌≤◌, ◌⊎◌,
}

-- The oldest batch to be retried.
unfoldable pub first_of : List Batch → Option Batch
first_of [] = none
first_of (x ∷ xs) = some x

unfoldable pub owed_first : Option Batch → List Batch → Option Batch
owed_first none retry = first_of retry
owed_first (some batched) retry = some batched

-- The batch that a complete-batch exporter is owed: the one of the running flush, or the oldest to
-- be retried.
unfoldable pub in_hand : BillingPipeline → Option Batch
in_hand pipeline = owed_first pipeline.guard pipeline.buffer.retry

abbrev pub HasUsage : Batch → Type 0
HasUsage batched = is_empty batched ≡ false

abbrev pub guards : Option Batch → ℕ
guards none = 0
guards (some batched) = 1

-- At most one batch is outstanding, and no batch is empty.
pub record IsSingle (pipeline : BillingPipeline) : Type 0 where
  pub flagged : pipeline.flush_in_progress ≡ is_some pipeline.guard
  pub single : length pipeline.buffer.retry + guards pipeline.guard ≤ 1
  pub retry_usage : All HasUsage pipeline.buffer.retry
  pub guard_usage : (batched : Batch) → pipeline.guard ≡ some batched → HasUsage batched

Lists-cases {ℓ} : {A : Type ℓ} (xs : List A) → (xs ≡ []) ⊎ ((y : A) × (ys : List A) × (xs ≡ y ∷ ys))
Lists-cases [] = inl refl
Lists-cases (y ∷ ys) = inr (y, ys, refl)

no_elements {ℓ} : {A : Type ℓ} (xs : List A) → suc (length xs) ≤ 1 → xs ≡ []
no_elements [] w = refl
no_elements (x ∷ xs) w = absurd (omega arith)

retry-remember :
    (capacity : ℕ) (key : Option (Str × Str)) (state : BufferState)
    → (remember capacity key state).retry ≡ state.retry
unfolding remember
retry-remember capacity none state = refl
retry-remember capacity (some key) state = ground arith

retry-record_event :
    (capacity : ℕ) (event : UsageEvent) (state : BufferState)
    → (record_event capacity event state).1.retry ≡ state.retry
unfolding record_event accumulate admit
retry-record_event capacity event state =
    let found = next_units event (Assoc.lookup (aggregate_key event) state.pending) in
    elim (Option-cases found) [
      | inl e ↦ rw e (ground arith)
      | inr (total, e) ↦
          rw e (ground (arith, retry-remember capacity (scoped_idempotency event) state))
    ]

All-append {ℓ κ} :
    {A : Type ℓ} (P : A → Type κ) (xs : List A) (x : A) → All P xs → P x → All P (xs ++ x ∷ [])
All-append P [] x a p = (p, tt)
All-append P (y ∷ ys) x a p = (a.0, All-append P ys x a.1 p)

IsSingle-restored :
    (pipeline : BillingPipeline)
    → IsSingle pipeline
    → IsSingle (record pipeline {
      buffer = drop_guard pipeline.guard pipeline.buffer;
      flush_in_progress = false;
      guard = none;
    })
unfolding drop_guard restore_after_interruption
IsSingle-restored pipeline v = elim (Option-cases pipeline.guard) [
  | inl e ↦ rw e (record {
    flagged = refl;
    single = omega (arith, v.single);
    retry_usage = v.retry_usage;
    guard_usage = λ batched h. absurd (ground arith);
  })
  | inr (batched, e) ↦
      let w : length pipeline.buffer.retry + 1 ≤ 1 =
        subst (λ g. length pipeline.buffer.retry + guards g ≤ 1) e v.single in
      rw e (record {
        flagged = refl;
        single = omega (arith, length-append pipeline.buffer.retry (batched ∷ []), w);
        retry_usage =
            All-append HasUsage pipeline.buffer.retry batched v.retry_usage
              (v.guard_usage batched e);
        guard_usage = λ b h. absurd (ground arith);
      })
]

-- Nothing is left to retry once the only batch is taken.
retry-prepared :
    (uuids : ℕ → Str) (buffer : BufferState)
    → length buffer.retry ≤ 1
    → (prepare_flush complete_batch uuids buffer).1.retry ≡ []
unfolding prepare_flush take_retry completes pop_front
retry-prepared uuids buffer w = elim (Lists-cases buffer.retry) [
  | inl e ↦ rw e (ground arith)
  | inr (x, xs, e) ↦ rw e (no_elements xs (subst (λ bs. length bs ≤ 1) e w))
]

IsSingle-begin :
    (uuids : ℕ → Str) (pipeline : BillingPipeline)
    → IsSingle pipeline
    → IsSingle (begin_flush complete_batch uuids pipeline).1
unfolding begin_flush
IsSingle-begin uuids pipeline v =
    let prepared = prepare_flush complete_batch uuids pipeline.buffer in
    let alone = retry-prepared uuids pipeline.buffer (omega (arith, v.single)) in
    elim (Bool-cases pipeline.flush_in_progress) [
      | inl e ↦ simp e v
      | inr e ↦ elim (Bool-cases (is_empty prepared.0)) [
        | inl f ↦
            rw (e, f)
              (record {
                flagged = sym e ∙ v.flagged;
                single = rw alone (omega (arith, v.single));
                retry_usage = rw alone tt;
                guard_usage = v.guard_usage;
              })
        | inr f ↦
            rw (e, f)
              (record {
                flagged = refl;
                single = rw alone (omega arith);
                retry_usage = rw alone tt;
                guard_usage = λ b h. ground arith;
              })
      ]
    ]

pub IsSingle-step :
    (pipeline : BillingPipeline) (s : Step)
    → IsSingle pipeline
    → IsSingle (step complete_batch pipeline s)
unfolding step record_usage finish_flush
IsSingle-step pipeline (records event) v =
    let kept = retry-record_event pipeline.max_idempotency_keys event pipeline.buffer in
    record {
      flagged = v.flagged;
      single = rw kept v.single;
      retry_usage = rw kept v.retry_usage;
      guard_usage = v.guard_usage;
    }
IsSingle-step pipeline (begins uuids) v = IsSingle-begin uuids pipeline v
IsSingle-step pipeline (finishes exported) v = record {
  flagged = refl;
  single = omega (arith, v.single);
  retry_usage = v.retry_usage;
  guard_usage = λ b h. ground arith;
}
IsSingle-step pipeline (finishes cancelled) v = IsSingle-restored pipeline v
IsSingle-step pipeline (finishes (failed error)) v = IsSingle-restored pipeline v

IsSingle-run :
    (pipeline : BillingPipeline) (steps : List Step)
    → IsSingle pipeline
    → IsSingle (run complete_batch pipeline steps)
unfolding run
IsSingle-run pipeline [] v = v
IsSingle-run pipeline (s ∷ steps) v =
    IsSingle-run (step complete_batch pipeline s) steps (IsSingle-step pipeline s v)

-- With a batch in hand, a flush either finds another one running or offers that batch.
pub begin_flush-in_hand :
    (uuids : ℕ → Str) (pipeline : BillingPipeline) (batched : Batch)
    → IsSingle pipeline
    → in_hand pipeline ≡ some batched
    → pipeline.flush_in_progress ≡ false
    → ((begin_flush complete_batch uuids pipeline).0 ≡ exporting batched)
      × ((begin_flush complete_batch uuids pipeline).1.guard ≡ some batched)
unfolding begin_flush prepare_flush take_retry completes pop_front in_hand owed_first first_of
begin_flush-in_hand uuids pipeline batched v h idle = elim (Lists-cases pipeline.buffer.retry) [
  | inl e ↦ absurd (ground (arith, v.flagged))
  | inr (x, xs, e) ↦
      let offered : x ≡ batched = ground (arith, v.flagged) in
      let usage : is_empty x ≡ false = (subst (All HasUsage) e v.retry_usage).0 in ground arith
]

restored_in_hand :
    (pipeline : BillingPipeline) (batched : Batch)
    → IsSingle pipeline
    → in_hand pipeline ≡ some batched
    → first_of (drop_guard pipeline.guard pipeline.buffer).retry ≡ some batched
unfolding drop_guard restore_after_interruption in_hand owed_first first_of
restored_in_hand pipeline batched v h = elim (Option-cases pipeline.guard) [
  | inl e ↦ ground arith
  | inr (b, e) ↦
      let w : length pipeline.buffer.retry + 1 ≤ 1 =
        subst (λ g. length pipeline.buffer.retry + guards g ≤ 1) e v.single in
      let nothing : pipeline.buffer.retry ≡ [] =
        no_elements pipeline.buffer.retry (omega (arith, w)) in
      ground arith
]

begin_busy :
    (uuids : ℕ → Str) (pipeline : BillingPipeline)
    → pipeline.flush_in_progress ≡ true
    → (begin_flush complete_batch uuids pipeline).1 ≡ pipeline
unfolding begin_flush
begin_busy uuids pipeline e = ground arith

pub step-in_hand :
    (pipeline : BillingPipeline) (batched : Batch) (s : Step)
    → IsSingle pipeline
    → in_hand pipeline ≡ some batched
    → ((s ≡ finishes exported) × (pipeline.guard ≡ some batched))
      ⊎ (in_hand (step complete_batch pipeline s) ≡ some batched)
unfolding step record_usage finish_flush
step-in_hand pipeline batched (records event) v h =
    let kept = retry-record_event pipeline.max_idempotency_keys event pipeline.buffer in
    inr (unfold in_hand owed_first in rw kept h)
step-in_hand pipeline batched (begins uuids) v h =
    inr (elim (Bool-cases pipeline.flush_in_progress) [
      | inl e ↦ rw (begin_busy uuids pipeline e) h
      | inr e ↦
          unfold in_hand owed_first in
          ground (arith, begin_flush-in_hand uuids pipeline batched v h e)
    ])
step-in_hand pipeline batched (finishes exported) v h = elim (Option-cases pipeline.guard) [
  | inl e ↦ inr (unfold in_hand owed_first in ground arith)
  | inr (b, e) ↦ inl (refl, unfold in_hand owed_first in ground arith)
]
step-in_hand pipeline batched (finishes cancelled) v h =
    inr (unfold in_hand owed_first in restored_in_hand pipeline batched v h)
step-in_hand pipeline batched (finishes (failed error)) v h =
    inr (unfold in_hand owed_first in restored_in_hand pipeline batched v h)

pub fresh_IsSingle : (capacity : ℕ) → IsSingle (with_idempotency_capacity capacity)
unfolding with_idempotency_capacity
fresh_IsSingle capacity = record {
  flagged = refl;
  single = omega arith;
  retry_usage = tt;
  guard_usage = λ b h. ground arith;
}

-- In any history of a new pipeline whose exporter completes its batches, at most one batch is
-- outstanding, and whatever step comes next the same batch stays in hand, with its identifiers and
-- quantities, unless that step is the exporter's success with it.
pub one_batch_at_a_time :
    (capacity : ℕ) (steps : List Step)
    → let pipeline = run complete_batch (with_idempotency_capacity capacity) steps in
      (length pipeline.buffer.retry + guards pipeline.guard ≤ 1)
      × ((batched : Batch) (s : Step)
          → in_hand pipeline ≡ some batched
          → ((s ≡ finishes exported) × (pipeline.guard ≡ some batched))
            ⊎ (in_hand (step complete_batch pipeline s) ≡ some batched))
one_batch_at_a_time capacity steps =
    let pipeline = with_idempotency_capacity capacity in
    let v = IsSingle-run pipeline steps (fresh_IsSingle capacity) in
    (v.single, λ batched s h. step-in_hand (run complete_batch pipeline steps) batched s v h)
