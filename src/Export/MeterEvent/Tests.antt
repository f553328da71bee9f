-- ===== src/Export/MeterEvent/Tests.antt =====
-- The meter event exporter on a batch of two.
use mcp_usage_kit.Export.Buffer.{AggregatedUsage, is_empty}
use mcp_usage_kit.Export.MeterEvent.{
  ExporterState, MeterEventDeadLetterReason, MeterEventOutcome, apply_outcomes, permanent_rejection,
  retryable_failure, synchronous_provider_rejection, unresolved, unresolved_from, unresolved_of,
}
use mcp_usage_kit.Export.MeterEvent.Progress.{
  apply_outcomes-unresolved, is_retryable, retryable_events,
}
use mcp_usage_kit.Prelude.{List, [], false, not, refl, some, str, ◌∷◌, ◌≡◌}

abbrev event_a : AggregatedUsage
event_a = record {
  identifier = str "mcp_usage_a";
  customer_id = str "cus_1";
  meter = str "mcp_calls";
  units = 5;
  timestamp = 100;
}

abbrev event_b : AggregatedUsage
event_b = record event_a { identifier = str "mcp_usage_b" }

abbrev in_progress : ExporterState
in_progress = record {
  dead_letters = [];
  dead_letter_identifiers = [];
  dropped_dead_letters = 0;
  retry_progress =
      some (record { progress_batch = event_a ∷ event_b ∷ []; completed = false ∷ false ∷ [] });
}

abbrev outcomes : List MeterEventOutcome
outcomes = permanent_rejection (str "bad") ∷ retryable_failure (str "busy") ∷ []

apply_outcomes-unresolved_example :
    let (retryable, after) = apply_outcomes 1 (unresolved in_progress) outcomes in_progress in
    (unresolved after ≡ retryable_events (unresolved in_progress) outcomes)
    × (retryable ≡ not (is_empty (unresolved after)))
apply_outcomes-unresolved_example =
    apply_outcomes-unresolved 1 outcomes in_progress
      (unfold unresolved unresolved_of unresolved_from in refl)

only_the_second_is_left : retryable_events (unresolved in_progress) outcomes ≡ (1, event_b) ∷ []
unfolding retryable_events unresolved unresolved_of unresolved_from is_retryable
only_the_second_is_left = refl

abbrev reason : MeterEventDeadLetterReason
reason = synchronous_provider_rejection (str "bad")
