-- ===== src/Edge/ControlPlane/Tests.antt =====
-- Two keys, a revocation and an outage; and two events of which the plane accepts one.
use mathlib.Core.Option
use mcp_usage_kit.Prelude.Assoc
use mcp_usage_kit.Edge.ControlPlane.{
  Reply, Snapshot, SnapshotEntry, UsageAck, apply, authenticate, called, collect, is_stale,
  is_success, new_store, parsed_body, quota_for, refresh_rounds, refreshed, responded, submit_usage,
}
use mcp_usage_kit.Edge.ControlPlane.Store.{current_entry, quota_of, served_from_newest, tenant_of}
use mcp_usage_kit.Edge.ControlPlane.Submit.{
  batch_of, is_final, left_after, left_by, names_eq, plane_settles, usable,
}
use mcp_usage_kit.Export.Buffer.{AggregatedUsage}
use mcp_usage_kit.Export.MeterEvent.{
  MeterEventExporter, new_exporter, unresolved, unresolved_from, unresolved_of,
}
use mcp_usage_kit.Export.MeterEvent.Lease.{finish_export}
use mcp_usage_kit.Prelude.{
  List, Str, [], false, is_some, none, refl, some, str, str_eq, str_equal, strs_equal, true, ℕ, ◌∷◌,
  ◌≡◌,
}

abbrev entry_of : Str → Str → SnapshotEntry
entry_of key tenant = record {
  api_key_sha256 = key;
  tenant_id = tenant;
  billing_customer_id = str "cus";
  prices = record { default_units = 1; names = []; methods = [] };
  max_units = some 100;
  max_spend_micros = none;
  unit_price_micros = 1000;
  committed_units = 42;
  committed_spend_micros = 42000;
}

abbrev rounds : List (ℕ × Reply Snapshot)
rounds =
    (
      10,
      responded 200 (
          some (record {
            tenants = entry_of (str "a") (str "acme") ∷ entry_of (str "b") (str "bravo") ∷ [];
          })),
    )
    ∷ (20, responded 200 (some (record { tenants = entry_of (str "a") (str "acme") ∷ [] })))
    ∷ (30, responded 503 none)
    ∷ []

served_from_newest_example :
    (authenticate (λ k. k) (refresh_rounds rounds (new_store 60)) 80 (str "a")
      ≡ Option.map tenant_of (current_entry 60 rounds 80 (str "a")))
    × (quota_for (λ k. k) (refresh_rounds rounds (new_store 60)) 80 (str "a")
        ≡ Option.map quota_of (current_entry 60 rounds 80 (str "a")))
served_from_newest_example = served_from_newest (λ k. k) 60 rounds 80 (str "a")

-- The outage at 30 does not shorten the budget, which ends after 80.
still_served :
    is_some (authenticate (λ k. k) (refresh_rounds rounds (new_store 60)) 80 (str "a")) ≡ true
unfolding authenticate refresh_rounds refreshed called is_success parsed_body apply collect
    new_store is_stale Assoc.lookup Assoc.insert str_eq
still_served = refl

now_stale : authenticate (λ k. k) (refresh_rounds rounds (new_store 60)) 81 (str "a") ≡ none
unfolding authenticate refresh_rounds refreshed called is_success parsed_body apply collect
    new_store is_stale
now_stale = refl

revoked : authenticate (λ k. k) (refresh_rounds rounds (new_store 60)) 21 (str "b") ≡ none
unfolding authenticate refresh_rounds refreshed called is_success parsed_body apply collect
    new_store is_stale Assoc.lookup Assoc.insert str_eq
revoked = refl

abbrev usage_of : Str → AggregatedUsage
usage_of name = record {
  identifier = name;
  customer_id = str "cus";
  meter = str "calls";
  units = 1;
  timestamp = 0;
}

abbrev busy : MeterEventExporter
busy = record new_exporter {
  state = record {
    dead_letters = [];
    dead_letter_identifiers = [];
    dropped_dead_letters = 0;
    retry_progress = some (record {
      progress_batch = usage_of (str "x") ∷ usage_of (str "y") ∷ [];
      completed = false ∷ false ∷ [];
    });
  };
}

abbrev half : Reply UsageAck
half = responded 200 (
    some (record {
      outcomes =
          record { identifier = str "x"; outcome = str "accepted" }
          ∷ record { identifier = str "y"; outcome = str "later" }
          ∷ [];
    }))

plane_settles_example :
    let events = unresolved busy.state in
    unresolved (finish_export (submit_usage (batch_of events) half) events busy).1.state
    ≡ left_after events (usable (batch_of events) half)
plane_settles_example = plane_settles busy half

one_left :
    left_after (unresolved busy.state) (usable (batch_of (unresolved busy.state)) half)
    ≡ (1, usage_of (str "y")) ∷ []
unfolding left_after usable left_by is_final is_success names_eq str_eq unresolved unresolved_of
    unresolved_from
one_left = refl
