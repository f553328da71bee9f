-- ===== src/Export/Buffer/Tests.antt =====
-- The usage buffer on concrete events.
use mcp_usage_kit.Prelude.Assoc
use mcp_usage_kit.Prelude.Sets
use mcp_usage_kit.Export.Buffer.{
  BufferState, UsageEvent, accumulate, already_seen, duplicate, empty_buffer, expire, next_units,
  record_event, recorded, remember, scoped_idempotency, updated,
}
use mcp_usage_kit.Export.Buffer.Once.{record_all, record_once}
use mcp_usage_kit.Export.Buffer.Seen.{fresh_Remembers}
use mcp_usage_kit.Prelude.{
  [], ap, arith, checked_add, inr, none, refl, some, str, str_eq, str_equal, strs_eq, strs_equal,
  ◌∷◌, ◌≡◌,
}

abbrev render : UsageEvent
render = record {
  tenant_id = str "acme";
  customer_id = str "cus_1";
  meter = str "mcp_calls";
  units = 5;
  idempotency_key = some (str "task-1");
  timestamp = 100;
}

abbrev plain : UsageEvent
plain = record render { units = 2; idempotency_key = none; timestamp = 90 }

abbrev remembered : BufferState
remembered = record empty_buffer {
  seen = (str "acme", str "task-1") ∷ [];
  seen_order = (str "acme", str "task-1") ∷ [];
}

abbrev buffered : BufferState
buffered = record remembered {
  pending = ((str "cus_1", str "mcp_calls"), record { units = 5; oldest_timestamp = 100 }) ∷ [];
}

first_recorded : record_event 2 render empty_buffer ≡ (inr recorded, buffered)
unfolding record_event already_seen scoped_idempotency next_units Assoc.lookup accumulate updated
    remember expire Assoc.insert Sets.contains Sets.add
first_recorded = refl

aggregates_and_keeps_oldest :
    (record_event 2 plain buffered).1.pending
    ≡ ((str "cus_1", str "mcp_calls"), record { units = 7; oldest_timestamp = 90 }) ∷ []
unfolding record_event already_seen scoped_idempotency next_units Assoc.lookup accumulate updated
    remember Assoc.insert checked_add strs_eq str_eq
aggregates_and_keeps_oldest = refl

record_once_example :
    let after = record_all 2 (plain ∷ []) (record_event 2 render empty_buffer).1 in
    record_event 2 (record render { timestamp = 200 }) after ≡ (inr duplicate, after)
record_once_example =
    record_once 2 render (record render { timestamp = 200 }) (str "acme", str "task-1") (plain ∷ [])
      empty_buffer fresh_Remembers (unfold scoped_idempotency in refl)
      (unfold scoped_idempotency in refl) (omega arith) (omega arith) (ap (λ r. r.0) first_recorded)
