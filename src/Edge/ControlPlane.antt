-- ===== src/Edge/ControlPlane.antt =====
-- crates/mcp-usage-edge/src/control_plane.rs: the tenant store that a control plane's snapshots keep
-- current, and the exporter that posts usage to it. The hash of a key is a function of the hashing
-- package; how the HTTP client answers is an input. An instant is a number on the clock's scale.
pub mod Store
pub mod Submit
mod Tests
use mathlib.Core.Option
use mcp_usage_kit.Prelude.Assoc
use mcp_usage_kit.Core.Limits.{Limits, Usage}
use mcp_usage_kit.Core.Price.{PriceBook}
use mcp_usage_kit.Export.Buffer.{AggregatedUsage}
use mcp_usage_kit.Export.MeterEvent.{
  MeterEventOutcome, MeterEventProviderError, accepted, permanent_rejection, retryable_failure,
}
use mcp_usage_kit.Prelude.{
  Bool, List, Option, Str, [], if◌then◌else◌, inl, inr, leb, length, ltb, map, none, not, some, str,
  str_eq, str_equal, strs_equal, true, ℕ, ◌&&◌, ◌-◌, ◌==◌, ◌∷◌, ◌⊎◌,
}
use mcp_usage_kit.Tower.Completion.{Tenant}

pub data PlaneError : Type 0 where
  unreachable malformed : PlaneError
  status : ℕ → PlaneError

-- How a request to the plane ends: no answer in time or none at all, or a status with the body that
-- was read and parsed, if it could be.
pub data Reply (A : Type 0) : Type 0 where
  no_answer : Reply A
  responded : ℕ → Option A → Reply A

unfoldable pub is_success : ℕ → Bool
is_success code = leb 200 code && ltb code 300

-- `PlaneClient::call` from the answer of the HTTP client.
module _ {A : Type 0} where
  unfoldable pub parsed_body : Option A → PlaneError ⊎ A
  parsed_body none = inl malformed
  parsed_body (some a) = inr a

  unfoldable pub called : Reply A → PlaneError ⊎ A
  called no_answer = inl unreachable
  called (responded code body) = if is_success code then parsed_body body else inl (status code)

pub record SnapshotEntry : Type 0 where
  pub api_key_sha256 : Str
  pub tenant_id : Str
  pub billing_customer_id : Str
  pub prices : PriceBook
  pub max_units : Option ℕ
  pub max_spend_micros : Option ℕ
  pub unit_price_micros : ℕ
  pub committed_units : ℕ
  pub committed_spend_micros : ℕ

pub record Snapshot : Type 0 where
  pub tenants : List SnapshotEntry

pub record Cached : Type 0 where
  pub tenant : Tenant
  pub limits : Limits
  pub committed : Usage
  pub unit_price_micros : ℕ

pub record ControlPlaneTenantStore : Type 0 where
  pub entries : List (Str × Cached)
  pub refreshed_at : Option ℕ
  pub max_stale : ℕ

unfoldable pub new_store : ℕ → ControlPlaneTenantStore
new_store max_stale = record { entries = []; refreshed_at = none; max_stale = max_stale }

unfoldable pub store_len : ControlPlaneTenantStore → ℕ
store_len store = length store.entries

unfoldable pub cached_of : SnapshotEntry → Cached
cached_of entry = record {
  tenant = record {
    id = entry.tenant_id;
    billing_customer_id = entry.billing_customer_id;
    prices = entry.prices;
  };
  limits = record { max_units = entry.max_units; max_spend_micros = entry.max_spend_micros };
  committed = record { units = entry.committed_units; spend_micros = entry.committed_spend_micros };
  unit_price_micros = entry.unit_price_micros;
}

-- Entries are collected in their order: a later one with the same key replaces an earlier one.
unfoldable pub collect : List SnapshotEntry → List (Str × Cached) → List (Str × Cached)
collect [] entries = entries
collect (entry ∷ rest) entries =
    collect rest (Assoc.insert entry.api_key_sha256 (cached_of entry) entries)

unfoldable pub apply : Snapshot → ℕ → ControlPlaneTenantStore → ControlPlaneTenantStore
apply snapshot now store = record store {
  entries = collect snapshot.tenants [];
  refreshed_at = some now;
}

-- `elapsed` stops at zero, as the subtraction here does.
unfoldable pub is_stale : ControlPlaneTenantStore → ℕ → Bool
is_stale store now = elim (store.refreshed_at) [
  | none ↦ true
  | some at ↦ ltb store.max_stale (now - at)
]

module _ (hash_api_key : Str → Str) where
  unfoldable pub tenant_for : ControlPlaneTenantStore → Str → Option Tenant
  tenant_for store api_key =
      Option.map (λ (cached : Cached). cached.tenant)
        (Assoc.lookup (hash_api_key api_key) store.entries)

  unfoldable pub quota_for : ControlPlaneTenantStore → ℕ → Str → Option (Usage × ℕ × Limits)
  quota_for store now api_key =
      if is_stale store now
      then none
      else Option.map
          (λ (cached : Cached). (cached.committed, cached.unit_price_micros, cached.limits))
          (Assoc.lookup (hash_api_key api_key) store.entries)

  unfoldable pub authenticate : ControlPlaneTenantStore → ℕ → Str → Option Tenant
  authenticate store now api_key =
      if is_stale store now
      then none
      else Option.map (λ (cached : Cached). cached.tenant)
          (Assoc.lookup (hash_api_key api_key) store.entries)

-- One round of `refresh_forever`, when its fetch ended.
unfoldable pub refreshed :
    PlaneError ⊎ Snapshot → ℕ → ControlPlaneTenantStore → ControlPlaneTenantStore
refreshed (inl error) now store = store
refreshed (inr snapshot) now store = apply snapshot now store

-- The rounds of `refresh_forever`, each with its time.
unfoldable pub refresh_rounds :
    List (ℕ × Reply Snapshot) → ControlPlaneTenantStore → ControlPlaneTenantStore
refresh_rounds [] store = store
refresh_rounds ((now, reply) ∷ rounds) store =
    refresh_rounds rounds (refreshed (called reply) now store)

pub record OutcomeIn : Type 0 where
  pub identifier : Str
  pub outcome : Str

pub record UsageAck : Type 0 where
  pub outcomes : List OutcomeIn

abbrev pub unauthorized : ℕ
unauthorized = 401

unfoldable pub plane_failure : PlaneError → MeterEventProviderError
plane_failure unreachable = record { code = str "unavailable" }
plane_failure malformed = record { code = str "unavailable" }
plane_failure (status code) =
    if code == unauthorized
    then record { code = str "authentication_failed" }
    else record { code = str "unavailable" }

-- Whether the outcomes are those of the events, in their order, as far as both go.
unfoldable pub identifiers_agree : List AggregatedUsage → List OutcomeIn → Bool
identifiers_agree (usage ∷ usages) (outcome ∷ outcomes) =
    str_eq usage.identifier outcome.identifier && identifiers_agree usages outcomes
identifiers_agree _ _ = true

unfoldable pub outcome_of : OutcomeIn → MeterEventOutcome
outcome_of outcome =
    if str_eq outcome.outcome (str "accepted")
    then accepted
    else if str_eq outcome.outcome (str "rejected")
    then permanent_rejection (str "invalid_event")
    else retryable_failure (str "unavailable")

abbrev pub malformed_response : MeterEventProviderError
malformed_response = record { code = str "malformed_response" }

unfoldable pub acknowledged :
    List AggregatedUsage → UsageAck → MeterEventProviderError ⊎ List MeterEventOutcome
acknowledged batched ack =
    if not (length ack.outcomes == length batched)
    then inl malformed_response
    else if identifiers_agree batched ack.outcomes
    then inr (map outcome_of ack.outcomes)
    else inl malformed_response

unfoldable pub heard :
    List AggregatedUsage → PlaneError ⊎ UsageAck → MeterEventProviderError ⊎ List MeterEventOutcome
heard batched (inl error) = inl (plane_failure error)
heard batched (inr ack) = acknowledged batched ack

-- `ControlPlaneExporter::submit` from the answer of the plane.
unfoldable pub submit_usage :
    List AggregatedUsage → Reply UsageAck → MeterEventProviderError ⊎ List MeterEventOutcome
submit_usage batched reply = heard batched (called reply)
