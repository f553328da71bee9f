-- ===== src/Export/MeterEvent/Progress.antt =====
-- The progress of an incomplete batch: what the provider has settled is never submitted again.
use mcp_usage_kit.Prelude.Sets
use mcp_usage_kit.Export.Buffer.{AggregatedUsage, Batch, is_empty}
use mcp_usage_kit.Export.MeterEvent.{
  ExporterState, MeterEventDeadLetter, MeterEventDeadLetterReason, MeterEventOutcome, RetryProgress,
  accepted, append_letter, apply_outcomes, completed_at, evict, mark_completed_locked,
  permanent_rejection, quarantine_locked, retryable_failure, set_completed,
  synchronous_provider_rejection, unresolved, unresolved_from, unresolved_of,
}
use mcp_usage_kit.Prelude.{
  All, Bool, Bool-cases, List, Option-cases, [], arith, false, if◌then◌else◌, inl, inr, leb, length,
  none, not, refl, saturating_add, some, str_equal, strs_equal, subst, suc, sym, true, ℕ, ◌-◌, ◌∙◌,
  ◌∷◌, ◌≡◌, ◌≤◌,
}

unfoldable pub is_retryable : MeterEventOutcome → Bool
is_retryable accepted = false
is_retryable (retryable_failure code) = true
is_retryable (permanent_rejection code) = false

-- The events whose outcome leaves them to be retried.
unfoldable pub retryable_events :
    List (ℕ × AggregatedUsage) → List MeterEventOutcome → List (ℕ × AggregatedUsage)
retryable_events (event ∷ events) (outcome ∷ outcomes) =
    let rest = retryable_events events outcomes in
    if is_retryable outcome then event ∷ rest else rest
retryable_events _ _ = []

-- The flags after the outcomes, with the places counted from `i`.
marks : ℕ → List (ℕ × AggregatedUsage) → List MeterEventOutcome → List Bool → List Bool
marks i ((j, usage) ∷ events) (outcome ∷ outcomes) flags =
    marks i events outcomes (if is_retryable outcome then flags else set_completed (j - i) flags)
marks i _ _ flags = flags

progress_kept-evict :
    (full : ℕ → Bool) (letters : List MeterEventDeadLetter) (state : ExporterState)
    → (evict full letters state).retry_progress ≡ state.retry_progress
unfolding evict
progress_kept-evict full [] state = refl
progress_kept-evict full (letter ∷ letters) state =
    let fewer = record state {
      dead_letter_identifiers =
          Sets.discard letter.aggregate.identifier state.dead_letter_identifiers;
      dropped_dead_letters = saturating_add state.dropped_dead_letters 1;
    } in
    ground (arith, progress_kept-evict full letters fewer)

pub progress_kept :
    (capacity : ℕ) (aggregate : AggregatedUsage) (reason : MeterEventDeadLetterReason)
    (state : ExporterState)
    → (quarantine_locked capacity aggregate reason state).1.retry_progress ≡ state.retry_progress
unfolding quarantine_locked append_letter
progress_kept capacity aggregate reason state =
    ground (arith, progress_kept-evict (λ n. leb capacity n) state.dead_letters state)

marked : List (ℕ × AggregatedUsage) → List MeterEventOutcome → RetryProgress → RetryProgress
marked events outcomes progress = record progress {
  completed = marks 0 events outcomes progress.completed;
}

progress-apply_outcomes :
    (capacity : ℕ) (events : List (ℕ × AggregatedUsage)) (outcomes : List MeterEventOutcome)
    (state : ExporterState) (progress : RetryProgress)
    → state.retry_progress ≡ some progress
    → (apply_outcomes capacity events outcomes state).1.retry_progress
      ≡ some (marked events outcomes progress)
unfolding apply_outcomes marked marks is_retryable mark_completed_locked completed_at
progress-apply_outcomes capacity [] outcomes state progress h = h
progress-apply_outcomes capacity (event ∷ events) [] state progress h = h
progress-apply_outcomes capacity ((j, usage) ∷ events) (accepted ∷ outcomes) state progress h =
    let place : j - 0 ≡ j = omega arith in
    rw place (
      progress-apply_outcomes capacity events outcomes (mark_completed_locked j state)
        (completed_at j progress) (ground arith))
progress-apply_outcomes capacity ((j, usage) ∷ events) (retryable_failure code ∷ outcomes) state
      progress h =
    progress-apply_outcomes capacity events outcomes state progress h
progress-apply_outcomes capacity ((j, usage) ∷ events) (permanent_rejection code ∷ outcomes) state
      progress h =
    let kept = quarantine_locked capacity usage (synchronous_provider_rejection code) state in
    let place : j - 0 ≡ j = omega arith in
    rw place (
      progress-apply_outcomes capacity events outcomes (mark_completed_locked j kept.1)
        (completed_at j progress)
        (ground (arith, progress_kept capacity usage (synchronous_provider_rejection code) state)))

no_progress-apply_outcomes :
    (capacity : ℕ) (events : List (ℕ × AggregatedUsage)) (outcomes : List MeterEventOutcome)
    (state : ExporterState)
    → state.retry_progress ≡ none
    → (apply_outcomes capacity events outcomes state).1.retry_progress ≡ none
unfolding apply_outcomes mark_completed_locked
no_progress-apply_outcomes capacity [] outcomes state h = h
no_progress-apply_outcomes capacity (event ∷ events) [] state h = h
no_progress-apply_outcomes capacity ((j, usage) ∷ events) (accepted ∷ outcomes) state h =
    no_progress-apply_outcomes capacity events outcomes (mark_completed_locked j state)
      (ground arith)
no_progress-apply_outcomes capacity ((j, usage) ∷ events) (retryable_failure code ∷ outcomes) state
      h =
    no_progress-apply_outcomes capacity events outcomes state h
no_progress-apply_outcomes capacity ((j, usage) ∷ events) (permanent_rejection code ∷ outcomes)
      state h =
    let reason = synchronous_provider_rejection code in
    no_progress-apply_outcomes capacity events outcomes
      (mark_completed_locked j (quarantine_locked capacity usage reason state).1)
      (ground (arith, progress_kept capacity usage reason state))

-- Places from `i` on.
abbrev From : ℕ → List (ℕ × AggregatedUsage) → Type 0
From i events = All (λ (event : ℕ × AggregatedUsage). i ≤ event.0) events

From-weaken : (i : ℕ) (events : List (ℕ × AggregatedUsage)) → From (suc i) events → From i events
From-weaken i [] f = tt
From-weaken i (event ∷ events) f = (omega (arith, f.0), From-weaken i events f.1)

From-unresolved :
    (i : ℕ) (usages : Batch) (flags : List Bool) → From i (unresolved_from i usages flags)
unfolding unresolved_from
From-unresolved i [] flags = tt
From-unresolved i (usage ∷ usages) [] = tt
From-unresolved i (usage ∷ usages) (true ∷ flags) =
    From-weaken i (unresolved_from (suc i) usages flags) (From-unresolved (suc i) usages flags)
From-unresolved i (usage ∷ usages) (false ∷ flags) = (
  omega arith,
  From-weaken i (unresolved_from (suc i) usages flags) (From-unresolved (suc i) usages flags),
)

set_completed-later :
    (i j : ℕ) (flag : Bool) (flags : List Bool)
    → suc i ≤ j
    → set_completed (j - i) (flag ∷ flags) ≡ flag ∷ set_completed (j - suc i) flags
unfolding set_completed
set_completed-later i j flag flags w =
    let next : j - i ≡ suc (j - suc i) = omega (arith, w) in rw next refl

marks-later :
    (i : ℕ) (events : List (ℕ × AggregatedUsage)) (outcomes : List MeterEventOutcome) (flag : Bool)
    (flags : List Bool)
    → From (suc i) events
    → marks i events outcomes (flag ∷ flags) ≡ flag ∷ marks (suc i) events outcomes flags
unfolding marks
marks-later i [] outcomes flag flags f = refl
marks-later i (event ∷ events) [] flag flags f = refl
marks-later i ((j, usage) ∷ events) (outcome ∷ outcomes) flag flags f =
    elim (Bool-cases (is_retryable outcome)) [
      | inl e ↦ rw e (marks-later i events outcomes flag flags f.1)
      | inr e ↦
          rw (e, set_completed-later i j flag flags f.0)
            (marks-later i events outcomes flag (set_completed (j - suc i) flags) f.1)
    ]

-- The first place is marked by its own outcome.
marks-first :
    (i : ℕ) (usage : AggregatedUsage) (events : List (ℕ × AggregatedUsage))
    (outcome : MeterEventOutcome) (outcomes : List MeterEventOutcome) (flags : List Bool)
    → From (suc i) events
    → marks i ((i, usage) ∷ events) (outcome ∷ outcomes) (false ∷ flags)
      ≡ not (is_retryable outcome) ∷ marks (suc i) events outcomes flags
unfolding marks
marks-first i usage events outcome outcomes flags f =
    let none_yet : i - i ≡ 0 = omega arith in
    let here : set_completed (i - i) (false ∷ flags) ≡ true ∷ flags =
      unfold set_completed in rw none_yet refl in
    elim (Bool-cases (is_retryable outcome)) [
      | inl e ↦ rw e (marks-later i events outcomes false flags f)
      | inr e ↦ rw (e, here) (marks-later i events outcomes true flags f)
    ]

unresolved_from-marks :
    (i : ℕ) (usages : Batch) (flags : List Bool) (outcomes : List MeterEventOutcome)
    → length outcomes ≡ length (unresolved_from i usages flags)
    → unresolved_from i usages (marks i (unresolved_from i usages flags) outcomes flags)
      ≡ retryable_events (unresolved_from i usages flags) outcomes
unfolding unresolved_from retryable_events
unresolved_from-marks i [] flags outcomes h = refl
unresolved_from-marks i (usage ∷ usages) [] outcomes h = unfold marks in refl
unresolved_from-marks i (usage ∷ usages) (true ∷ flags) outcomes h =
    let later =
      marks-later i (unresolved_from (suc i) usages flags) outcomes true flags
        (From-unresolved (suc i) usages flags) in
    rw later (unresolved_from-marks (suc i) usages flags outcomes h)
unresolved_from-marks i (usage ∷ usages) (false ∷ flags) [] h = absurd (omega (arith, h))
unresolved_from-marks i (usage ∷ usages) (false ∷ flags) (outcome ∷ outcomes) h =
    let events = unresolved_from (suc i) usages flags in
    let first =
      marks-first i usage events outcome outcomes flags (From-unresolved (suc i) usages flags) in
    let rest = unresolved_from-marks (suc i) usages flags outcomes (omega (arith, h)) in
    rw first (ground (arith, rest))

retryable-apply_outcomes :
    (capacity : ℕ) (events : List (ℕ × AggregatedUsage)) (outcomes : List MeterEventOutcome)
    (state : ExporterState)
    → (apply_outcomes capacity events outcomes state).0
      ≡ not (is_empty (retryable_events events outcomes))
unfolding apply_outcomes retryable_events is_retryable
retryable-apply_outcomes capacity [] outcomes state = refl
retryable-apply_outcomes capacity (event ∷ events) [] state = refl
retryable-apply_outcomes capacity ((j, usage) ∷ events) (accepted ∷ outcomes) state =
    retryable-apply_outcomes capacity events outcomes (mark_completed_locked j state)
retryable-apply_outcomes capacity ((j, usage) ∷ events) (retryable_failure code ∷ outcomes) state =
    refl
retryable-apply_outcomes capacity ((j, usage) ∷ events) (permanent_rejection code ∷ outcomes)
      state =
    retryable-apply_outcomes capacity events outcomes (
      mark_completed_locked j
        (quarantine_locked capacity usage (synchronous_provider_rejection code) state).1)

-- After the provider answered for every submitted event, exactly the events whose outcome was a
-- retryable failure are left to be submitted again, in their order and under their old places and
-- identifiers; and the batch is reported as incomplete if there are any.
pub apply_outcomes-unresolved :
    (capacity : ℕ) (outcomes : List MeterEventOutcome) (state : ExporterState)
    → length outcomes ≡ length (unresolved state)
    → let (retryable, after) = apply_outcomes capacity (unresolved state) outcomes state in
      (unresolved after ≡ retryable_events (unresolved state) outcomes)
      × (retryable ≡ not (is_empty (unresolved after)))
unfolding unresolved unresolved_of marked
apply_outcomes-unresolved capacity outcomes state h =
    let events = unresolved state in
    let after = (apply_outcomes capacity events outcomes state).1 in
    let left : unresolved after ≡ retryable_events events outcomes =
      elim (Option-cases state.retry_progress) [
        | inl e ↦ unfold apply_outcomes retryable_events in rw e refl
        | inr (progress, e) ↦
            let first : events ≡ unresolved_from 0 progress.progress_batch progress.completed =
              rw e refl in
            let progressed = progress-apply_outcomes capacity events outcomes state progress e in
            let marked_batch : unresolved after
                ≡ unresolved_from 0 progress.progress_batch
                    (marks 0 events outcomes progress.completed) =
              rw progressed refl in
            marked_batch
            ∙ subst
                (λ es.
                  unresolved_from 0 progress.progress_batch (marks 0 es outcomes progress.completed)
                  ≡ retryable_events es outcomes)
                (sym first)
                (unresolved_from-marks 0 progress.progress_batch progress.completed outcomes
                  (subst (λ es. length outcomes ≡ length es) first h))
      ] in
    (left, rw left (retryable-apply_outcomes capacity events outcomes state))

-- Outcomes never change which batch the progress is of.
pub apply_outcomes-progress :
    (capacity : ℕ) (events : List (ℕ × AggregatedUsage)) (outcomes : List MeterEventOutcome)
    (state : ExporterState) (progress : RetryProgress)
    → (apply_outcomes capacity events outcomes state).1.retry_progress ≡ some progress
    → (before : RetryProgress) × (state.retry_progress ≡ some before)
      × (before.progress_batch ≡ progress.progress_batch)
unfolding marked
apply_outcomes-progress capacity events outcomes state progress h =
    elim (Option-cases state.retry_progress) [
      | inl e ↦ absurd (ground (arith, no_progress-apply_outcomes capacity events outcomes state e))
      | inr (before, e) ↦
          let after = progress-apply_outcomes capacity events outcomes state before e in
          (before, e, ground arith)
    ]
