-- ===== src/Export/Billing/Tests.antt =====
-- A flush with the meter event exporter.
use mcp_usage_kit.Prelude.Assoc
use mcp_usage_kit.Export.Billing.{BillingStep, answers, flushes, uses}
use mcp_usage_kit.Export.Buffer.{AggregatedUsage, UsageEvent}
use mcp_usage_kit.Prelude.{List, Str, [], inl, none, str, str_equal, strs_equal, ℕ, ◌++◌, ◌∷◌}

abbrev call_usage : UsageEvent
call_usage = record {
  tenant_id = str "acme";
  customer_id = str "cus_1";
  meter = str "mcp_calls";
  units = 5;
  idempotency_key = none;
  timestamp = 100;
}

abbrev ids : ℕ → Str
ids n = n ∷ []

abbrev failed_once : List BillingStep
failed_once =
    uses call_usage ∷ flushes ids ∷ answers (inl (record { code = str "unavailable" })) ∷ []

abbrev offered : AggregatedUsage
offered = record {
  identifier = str "mcp_usage_" ++ ids 0;
  customer_id = str "cus_1";
  meter = str "mcp_calls";
  units = 5;
  timestamp = 100;
}
