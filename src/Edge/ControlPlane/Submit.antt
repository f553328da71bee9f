-- ===== src/Edge/ControlPlane/Submit.antt =====
-- crates/mcp-usage-edge/src/control_plane.rs with the meter event exporter: which events are settled
-- when the control plane is the provider.
use mcp_usage_kit.Edge.ControlPlane.{
  OutcomeIn, Reply, UsageAck, acknowledged, called, heard, identifiers_agree, is_success, malformed,
  malformed_response, no_answer, outcome_of, parsed_body, plane_failure, responded, status,
  submit_usage, unreachable,
}
use mcp_usage_kit.Edge.Timestamp.{number}
use mcp_usage_kit.Export.Buffer.{AggregatedUsage, is_empty}
use mcp_usage_kit.Export.MeterEvent.{
  MeterEventExporter, MeterEventOutcome, MeterEventProviderError, apply_outcomes, unresolved,
  unresolved_of,
}
use mcp_usage_kit.Export.MeterEvent.Lease.{commit_export, finish_export, release}
use mcp_usage_kit.Export.MeterEvent.Progress.{
  apply_outcomes-unresolved, is_retryable, retryable_events,
}
use mcp_usage_kit.Prelude.{
  Bool, Bool-cases, List, Option, Str, [], arith, false, if◌then◌else◌, inl, inr, length, map, none,
  refl, some, str, str_eq, sym, true, ℕ, ◌&&◌, ◌==◌, ◌||◌, ◌∙◌, ◌∷◌, ◌≡◌, ◌⊎◌,
}

abbrev names_of : List AggregatedUsage → List Str
names_of [] = []
names_of (usage ∷ usages) = usage.identifier ∷ names_of usages

abbrev answered_names : List OutcomeIn → List Str
answered_names [] = []
answered_names (outcome ∷ outcomes) = outcome.identifier ∷ answered_names outcomes

unfoldable pub names_eq : List Str → List Str → Bool
names_eq [] [] = true
names_eq (a ∷ as') (b ∷ bs) = str_eq a b && names_eq as' bs
names_eq _ _ = false

-- The outcomes that an answer of the plane gives to just these events, if it does.
unfoldable pub usable : List AggregatedUsage → Reply UsageAck → Option (List OutcomeIn)
usable batched no_answer = none
usable batched (responded code none) = none
usable batched (responded code (some ack)) =
    if is_success code && names_eq (names_of batched) (answered_names ack.outcomes)
    then some ack.outcomes
    else none

unfoldable pub is_final : OutcomeIn → Bool
is_final outcome =
    str_eq outcome.outcome (str "accepted") || str_eq outcome.outcome (str "rejected")

-- The events that the plane neither accepted nor rejected.
unfoldable pub left_by : List (ℕ × AggregatedUsage) → List OutcomeIn → List (ℕ × AggregatedUsage)
left_by (event ∷ events) (outcome ∷ outcomes) =
    let rest = left_by events outcomes in if is_final outcome then rest else event ∷ rest
left_by events outcomes = []

unfoldable pub left_after :
    List (ℕ × AggregatedUsage) → Option (List OutcomeIn) → List (ℕ × AggregatedUsage)
left_after events none = events
left_after events (some outcomes) = left_by events outcomes

-- The events that an exporter would submit, without their places.
abbrev pub batch_of : List (ℕ × AggregatedUsage) → List AggregatedUsage
batch_of [] = []
batch_of ((place, usage) ∷ events) = usage ∷ batch_of events

same_names :
    (batched : List AggregatedUsage) (outcomes : List OutcomeIn)
    → ((length outcomes == length batched) && identifiers_agree batched outcomes)
      ≡ names_eq (names_of batched) (answered_names outcomes)
unfolding identifiers_agree names_eq
same_names [] [] = refl
same_names [] (outcome ∷ outcomes) = ground arith
same_names (usage ∷ usages) [] = ground arith
same_names (usage ∷ usages) (outcome ∷ outcomes) = ground (arith, same_names usages outcomes)

names-length :
    (batched : List AggregatedUsage) (outcomes : List OutcomeIn)
    → names_eq (names_of batched) (answered_names outcomes) ≡ true
    → length (map outcome_of outcomes) ≡ length batched
unfolding names_eq
names-length [] [] h = refl
names-length [] (outcome ∷ outcomes) h = absurd (cc)
names-length (usage ∷ usages) [] h = absurd (cc)
names-length (usage ∷ usages) (outcome ∷ outcomes) h = ground (arith, names-length usages outcomes)

-- What the exporter hears of an answer: the outcomes that the plane gave, or a failure.
submit-usable :
    (batched : List AggregatedUsage) (reply : Reply UsageAck)
    → ((outcomes : List OutcomeIn) × (usable batched reply ≡ some outcomes)
        × (submit_usage batched reply ≡ inr (map outcome_of outcomes))
        × (length (map outcome_of outcomes) ≡ length batched))
      ⊎ ((usable batched reply ≡ none)
          × ((error : MeterEventProviderError) × (submit_usage batched reply ≡ inl error)))
unfolding usable submit_usage heard called parsed_body acknowledged
submit-usable batched no_answer = inr (refl, (plane_failure unreachable, refl))
submit-usable batched (responded code none) = elim (Bool-cases (is_success code)) [
  | inl e ↦ inr (refl, (plane_failure malformed, rw e refl))
  | inr e ↦ inr (refl, (plane_failure (status code), rw e refl))
]
submit-usable batched (responded code (some ack)) = elim (Bool-cases (is_success code)) [
  | inr e ↦ inr (rw e refl, (plane_failure (status code), rw e refl))
  | inl e ↦ elim (Bool-cases (names_eq (names_of batched) (answered_names ack.outcomes))) [
    | inl agree ↦ inl (
      ack.outcomes,
      ground (arith, agree),
      rw e (ground (arith, agree, same_names batched ack.outcomes)),
      names-length batched ack.outcomes agree,
    )
    | inr differ ↦ inr (
      ground (arith, differ),
      (malformed_response, rw e (ground (arith, differ, same_names batched ack.outcomes))),
    )
  ]
]

length-batch_of : (events : List (ℕ × AggregatedUsage)) → length (batch_of events) ≡ length events
length-batch_of [] = refl
length-batch_of ((place, usage) ∷ events) = omega (arith, length-batch_of events)

retryable-left_by :
    (events : List (ℕ × AggregatedUsage)) (outcomes : List OutcomeIn)
    → retryable_events events (map outcome_of outcomes) ≡ left_by events outcomes
unfolding retryable_events left_by is_retryable outcome_of is_final
retryable-left_by [] [] = refl
retryable-left_by [] (outcome ∷ outcomes) = refl
retryable-left_by (event ∷ events) [] = refl
retryable-left_by (event ∷ events) (outcome ∷ outcomes) =
    elim (Bool-cases (str_eq outcome.outcome (str "accepted"))) [
      | inl e ↦ rw e (retryable-left_by events outcomes)
      | inr e ↦ elim (Bool-cases (str_eq outcome.outcome (str "rejected"))) [
        | inl f ↦ rw (e, f) (retryable-left_by events outcomes)
        | inr f ↦ rw (e, f, retryable-left_by events outcomes) refl
      ]
    ]

empty-list : (events : List (ℕ × AggregatedUsage)) → is_empty events ≡ true → events ≡ []
empty-list [] h = refl
empty-list (event ∷ events) h = absurd (cc)

finished :
    (exporter : MeterEventExporter) (outcomes : List MeterEventOutcome)
    → length outcomes ≡ length (unresolved exporter.state)
    → unresolved (finish_export (inr outcomes) (unresolved exporter.state) exporter).1.state
      ≡ retryable_events (unresolved exporter.state) outcomes
unfolding finish_export release commit_export
finished exporter outcomes h =
    let events = unresolved exporter.state in
    let applied = apply_outcomes exporter.dead_letter_capacity events outcomes exporter.state in
    let told = apply_outcomes-unresolved exporter.dead_letter_capacity outcomes exporter.state h in
    let counted : (length outcomes == length events) ≡ true = ground (arith, h) in
    elim (Bool-cases applied.0) [
      | inl again ↦ rw (counted, again) (told.0)
      | inr done ↦
          let none_left : unresolved applied.1 ≡ [] =
            empty-list (unresolved applied.1) (ground (arith, done, told.1)) in
          let cleared : unresolved (record applied.1 { retry_progress = none }) ≡ [] =
            unfold unresolved unresolved_of in refl in
          rw (counted, done) (cleared ∙ sym none_left ∙ told.0)
    ]

-- With the control plane as the provider, an export leaves exactly these events to be submitted
-- again: where the plane answered with a success, with one outcome for each submitted event and in
-- their order, those that it neither accepted nor rejected; and after any other answer, or none, all
-- of them. No event is taken as settled on an answer that names another one.
pub plane_settles :
    (exporter : MeterEventExporter) (reply : Reply UsageAck)
    → let events = unresolved exporter.state in
      let told = submit_usage (batch_of events) reply in
      unresolved (finish_export told events exporter).1.state
      ≡ left_after events (usable (batch_of events) reply)
unfolding left_after
plane_settles exporter reply =
    let events = unresolved exporter.state in
    elim (submit-usable (batch_of events) reply) [
      | inl (outcomes, use_these, answer, number) ↦
          rw (use_these, answer)
            (finished exporter (map outcome_of outcomes) (number ∙ length-batch_of events)
              ∙ retryable-left_by events outcomes)
      | inr (unusable, (error, answer)) ↦
          rw (unusable, answer) (unfold finish_export release in refl)
    ]
