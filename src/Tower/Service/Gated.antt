-- ===== src/Tower/Service/Gated.antt =====
-- crates/mcp-usage-tower/src/layer.rs, `MeterService::call`: what an unauthenticated request can do, and
-- what reaches the origin or the cache.
use mcp_usage_kit.Tower.Cache
use mcp_usage_kit.Core.Charge.{Call}
use mcp_usage_kit.Prelude.{
  Str, [], if◌then◌else◌, inr, none, not, some, str_eq, ℕ, ◌&&◌, ◌||◌, ◌≡◌, ◌⊎◌,
}
use mcp_usage_kit.Tower.Body.{collect_request_body}
use mcp_usage_kit.Tower.Cache.{ResponseCache}
use mcp_usage_kit.Tower.Classify.{Classification, Headers, classify_request_headers}
use mcp_usage_kit.Tower.Completion.{Tenant}
use mcp_usage_kit.Tower.Credential.{api_key_header, authorization_header, extract_api_key}
use mcp_usage_kit.Tower.Inspect.{RequestMetadata, inspect_request, render_with_id}
use mcp_usage_kit.Tower.Service.{
  CachedResponse, EdgeConfig, HttpRequest, Instants, Packages, Served, ServiceState, answered, call,
  drain_first, forwarded, passed_through, refused,
}

-- The credentials are removed, unless they are to be forwarded, and nothing else.
abbrev pub Stripped : EdgeConfig → Headers → Headers → Type 0
Stripped config headers sent =
    (name : Str)
    → sent name ≡ (
        if not config.forward_credentials
          && (str_eq authorization_header name || str_eq api_key_header name)
        then []
        else headers name)

abbrev pub IsRefused : Served → Type 0
IsRefused (refused status code) = Unit
IsRefused _ = ⊥

module _ (p : Packages) where
  -- What the inspection of a body shows.
  abbrev pub inspected : Call → Str → RequestMetadata
  inspected = inspect_request p.sha256 p.write p.from_json p.read_lean

  -- What an authenticated request comes to, with the cache that it finds.
  abbrev pub Reaches :
      ℕ → EdgeConfig → HttpRequest → Str → Tenant → ResponseCache CachedResponse → Served → Type 0
  Reaches now config request api_key tenant cache (refused status code) = Unit
  Reaches now config request api_key tenant cache (passed_through sent bytes) =
      Stripped config request.headers sent
      × (collect_request_body config.max_request_body request.frames ≡ inr bytes)
  Reaches now config request api_key tenant cache (answered cached body accounting) =
      (accounting.tenant ≡ tenant)
      × (accounting.authorization_context ≡ p.hash_api_key api_key)
      × (bytes : Str) × (collect_request_body config.max_request_body request.frames ≡ inr bytes)
      × (accounting.request ≡ record {
        request_id = (inspected accounting.call bytes).request_id;
        cache_key = none;
        is_continuation = (inspected accounting.call bytes).is_continuation;
        requested_task_id = (inspected accounting.call bytes).requested_task_id;
      })
      × (key : Str) × ((inspected accounting.call bytes).cache_key ≡ some key)
      × ((Cache.get now key (p.hash_api_key api_key) cache).0 ≡ some cached)
      × (body ≡ render_with_id p.write cached.body (inspected accounting.call bytes).request_id)
  Reaches now config request api_key tenant cache (forwarded sent bytes accounting) =
      Stripped config request.headers sent
      × (collect_request_body config.max_request_body request.frames ≡ inr bytes)
      × (accounting.tenant ≡ tenant)
      × (accounting.authorization_context ≡ p.hash_api_key api_key)
      × (accounting.request ≡ inspected accounting.call bytes)
      × ((key : Str)
          → (inspected accounting.call bytes).cache_key ≡ some key
          → (Cache.get now key (p.hash_api_key api_key) cache).0 ≡ none)

  -- The request is classified, and its key is that of the tenant.
  abbrev pub Authentic : EdgeConfig → HttpRequest → Str → Tenant → Type 0
  Authentic config request api_key tenant =
      ((classification : Classification) × (classify_request_headers p.base64 request.headers
            config.strict_protocol_version
          ≡ inr classification))
      × (extract_api_key request.headers ≡ inr api_key)
      × (config.authenticate api_key ≡ some tenant)

module _ {A : Type 0} where
  abbrev pub Untouched : ServiceState A → Served × ServiceState A → Type 0
  Untouched state (served, after) =
      IsRefused served × (after.cache ≡ state.cache) × (after.deferred ≡ state.deferred)

  module _ (p : Packages) where
    module _ (finish_parked : A → ResponseCache CachedResponse → ResponseCache CachedResponse) where
      abbrev pub Gated :
          Instants → EdgeConfig → HttpRequest → ServiceState A → Served × ServiceState A → Type 0
      Gated times config request state result =
          ((api_key : Str) × (tenant : Tenant) × Authentic p config request api_key tenant
            × Reaches p times.looked_up_at config request api_key tenant
                (drain_first finish_parked config state).cache result.0)
          ⊎ Untouched state result
