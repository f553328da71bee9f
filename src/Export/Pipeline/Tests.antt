-- ===== src/Export/Pipeline/Tests.antt =====
-- The pipeline on concrete histories.
use mcp_usage_kit.Prelude.Assoc
use mcp_usage_kit.Export.Buffer.{
  AggregateKey, AggregatedUsage, UsageEvent, complete_batch, empty_buffer, interleave,
}
use mcp_usage_kit.Export.Pipeline.{
  BillingPipeline, Step, begins, cancelled, exported, failed, finishes, provider, records, run,
  with_idempotency_capacity,
}
use mcp_usage_kit.Export.Pipeline.Completion.{guards, one_batch_at_a_time}
use mcp_usage_kit.Export.Pipeline.Conservation.{
  total_exported, total_recorded, unexported, usage_conserved,
}
use mcp_usage_kit.Prelude.{
  List, Str, [], false, length, none, str, str_equal, strs_equal, ℕ, ◌+◌, ◌∷◌, ◌≡◌, ◌≤◌,
}

abbrev call_event : UsageEvent
call_event = record {
  tenant_id = str "acme";
  customer_id = str "cus_1";
  meter = str "mcp_calls";
  units = 5;
  idempotency_key = none;
  timestamp = 100;
}

abbrev ids : ℕ → Str
ids n = n ∷ []

abbrev billed_once : List Step
billed_once =
    records call_event ∷ begins ids ∷ finishes cancelled ∷ begins ids ∷ finishes exported ∷ []

abbrev billed_key : AggregateKey
billed_key = (str "cus_1", str "mcp_calls")

usage_conserved_example :
    total_exported interleave billed_key (with_idempotency_capacity 10) billed_once
      + unexported billed_key (run interleave (with_idempotency_capacity 10) billed_once)
    ≡ total_recorded interleave billed_key (with_idempotency_capacity 10) billed_once
usage_conserved_example = usage_conserved billed_key interleave 10 billed_once

one_batch_at_a_time_example :
    let pipeline = run complete_batch (with_idempotency_capacity 10) billed_once in
    length pipeline.buffer.retry + guards pipeline.guard ≤ 1
one_batch_at_a_time_example = (one_batch_at_a_time 10 billed_once).0

-- A batch that was refused, and usage that came after it.
abbrev usage : AggregatedUsage
usage = record {
  identifier = str "mcp_usage_1";
  customer_id = str "cus_1";
  meter = str "mcp_calls";
  units = 5;
  timestamp = 100;
}

abbrev refused_once : BillingPipeline
refused_once = record {
  buffer = record empty_buffer { retry = (usage ∷ []) ∷ [] };
  max_idempotency_keys = 0;
  flush_in_progress = false;
  guard = none;
}

abbrev since : List Step
since = records call_event ∷ finishes (failed (provider (str "down"))) ∷ []
