-- ===== src/Tower/Service.antt =====
-- crates/mcp-usage-tower/src/layer.rs, `MeterService::call` up to the origin. The origin's answer comes later, so a call ends with what is sent to it.
-- A request body is its frames; a response keeps its status, headers and document. The texts of
-- refusals are their codes. The packages for Base64, JSON and SHA-256 are parameters, and so are the
-- hash of an API key and what a parked completion, which is any future, does to the cache.
pub mod Finish
pub mod Gated
pub mod Stored
mod Tests
use mcp_usage_kit.Tower.Cache
use mcp_usage_kit.Core.Charge.{Call}
use mcp_usage_kit.Core.Json.{Value}
use mcp_usage_kit.Core.Name.{Base64}
use mcp_usage_kit.Prelude.{
  Bool, List, Option, Str, [], if◌then◌else◌, inl, inr, leb, length, ltb, none, some, str, str_eq,
  suc, zero, ℕ, ◌∷◌, ◌⊎◌,
}
use mcp_usage_kit.Tower.Body.{
  RequestBodyError, RequestFrame, collect_request_body, too_large, unreadable,
}
use mcp_usage_kit.Tower.Cache.{ResponseCache}
use mcp_usage_kit.Tower.Classify.{
  Classification, Headers, RequestError, classify_request_headers, is_from_body, resolve,
}
use mcp_usage_kit.Tower.Completion.{Tenant}
use mcp_usage_kit.Tower.Credential.{
  AuthFailureLimit, CredentialError, Refusal, api_key_header, authorization_header, extract_api_key,
  refuse_credential, too_many_failures,
}
use mcp_usage_kit.Tower.Deferred.{DeferredCompletions, take_one}
use mcp_usage_kit.Tower.Inspect.{LeanRequest, RequestMetadata, inspect_request, render_with_id}
use mcp_usage_kit.Tower.Tenants.{hash_api_key}

pub record Packages : Type 0 where
  pub base64 : Base64
  pub from_json : Str → Option Value
  pub read_lean : Str → Option LeanRequest
  pub write : Value → Str
  pub sha256 : Str → Str
  pub hash_api_key : Str → Str

pub record HttpRequest : Type 0 where
  pub method : Str
  pub headers : Headers
  pub frames : List RequestFrame

pub record CachedResponse : Type 0 where
  pub status : ℕ
  pub headers : Headers
  pub body : Value

pub record EdgeConfig : Type 0 where
  pub strict_protocol_version : Bool
  pub authenticate : Str → Option Tenant
  pub max_request_body : ℕ
  pub forward_credentials : Bool
  pub deferred_drain_per_request : ℕ
  pub share_public_cache : Bool

pub data CallMetric : Type 0 where
  rejected unauthenticated throttled classified cache_hit cache_miss : CallMetric

pub record ServiceState (A : Type 0) : Type 0 where
  pub auth_failure_limit : Option AuthFailureLimit
  pub deferred : DeferredCompletions A
  pub cache : ResponseCache CachedResponse
  pub metrics : List CallMetric

-- The readings of the clock in a call: for the budget of failures, when it is checked and when a
-- failure is recorded, and for the cache.
pub record Instants : Type 0 where
  pub checked_at : ℕ
  pub recorded_at : ℕ
  pub looked_up_at : ℕ

-- What a call keeps for the accounting of its response.
pub record Accounting : Type 0 where
  pub tenant : Tenant
  pub authorization_context : Str
  pub legacy : Bool
  pub call : Call
  pub request : RequestMetadata

-- A refusal by its status and code, transport traffic for the origin, an answer from the cache, or a
-- call for the origin.
pub data Served : Type 0 where
  refused : ℕ → Str → Served
  passed_through : Headers → Str → Served
  answered : CachedResponse → Str → Accounting → Served
  forwarded : Headers → Str → Accounting → Served

unfoldable pub remove_header : Str → Headers → Headers
remove_header removed headers name = if str_eq removed name then [] else headers name

unfoldable pub strip_credentials : EdgeConfig → Headers → Headers
strip_credentials config headers =
    if config.forward_credentials
    then headers
    else remove_header authorization_header (remove_header api_key_header headers)

unfoldable pub without_key : RequestMetadata → RequestMetadata
without_key metadata = record metadata { cache_key = none }

module _ {A : Type 0} where
  abbrev pub count_call : CallMetric → ServiceState A → ServiceState A
  count_call metric state = record state { metrics = metric ∷ state.metrics }

  unfoldable pub refused_with :
      Refusal × AuthFailureLimit → ServiceState A → Served × ServiceState A
  refused_with (too_many_failures, limit) state = (
    refused 429 (str "TOO_MANY_FAILED_CREDENTIALS"),
    count_call throttled (record state { auth_failure_limit = some limit }),
  )
  refused_with (Refusal.unauthenticated, limit) state = (
    refused 401 (str "UNAUTHENTICATED"),
    count_call unauthenticated (record state { auth_failure_limit = some limit }),
  )

  unfoldable pub refuse_call :
      Instants → Option AuthFailureLimit → ServiceState A → Served × ServiceState A
  refuse_call times none state =
      (refused 401 (str "UNAUTHENTICATED"), count_call unauthenticated state)
  refuse_call times (some limit) state =
      refused_with (refuse_credential times.checked_at times.recorded_at limit) state

  -- `drain_some`: each completion that is taken runs to its end, and may change the cache.
  unfoldable pub drain_parked :
      (A → ResponseCache CachedResponse → ResponseCache CachedResponse)
      → ℕ
      → ServiceState A
      → ServiceState A
  drain_parked finish_parked zero state = state
  drain_parked finish_parked (suc limit) state =
      let taken = take_one state.deferred in
      elim taken.0 [
        | none ↦ record state { deferred = taken.1 }
        | some completion ↦
            drain_parked finish_parked limit
              (record state { deferred = taken.1; cache = finish_parked completion state.cache })
      ]

  -- An authenticated request drives deferred completions first.
  unfoldable pub drain_first :
      (A → ResponseCache CachedResponse → ResponseCache CachedResponse)
      → EdgeConfig
      → ServiceState A
      → ServiceState A
  drain_first finish_parked config state =
      if ltb 0 config.deferred_drain_per_request
      then drain_parked finish_parked config.deferred_drain_per_request state
      else state

  unfoldable pub refuse_body : RequestBodyError → ServiceState A → Served × ServiceState A
  refuse_body too_large state = (refused 413 (str "BODY_TOO_LARGE"), count_call rejected state)
  refuse_body unreadable state = (refused 400 (str "INVALID_BODY"), count_call rejected state)

  abbrev pub refuse_headers : ServiceState A → Served × ServiceState A
  refuse_headers state = (refused 400 (str "INVALID_MCP_HEADERS"), count_call rejected state)

  module _ (p : Packages) where
    unfoldable pub found_in_cache :
        EdgeConfig
        → HttpRequest
        → Str
        → Accounting
        → Option CachedResponse × ResponseCache CachedResponse
        → ServiceState A
        → Served × ServiceState A
    found_in_cache config request bytes accounting (some cached, cache) state = (
      answered cached (render_with_id p.write cached.body accounting.request.request_id)
          (record accounting { request = without_key accounting.request }),
      count_call cache_hit (record state { cache = cache }),
    )
    found_in_cache config request bytes accounting (none, cache) state = (
      forwarded (strip_credentials config request.headers) bytes accounting,
      count_call cache_miss (record state { cache = cache }),
    )

    unfoldable pub serve_keyed :
        ℕ
        → EdgeConfig
        → HttpRequest
        → Str
        → Accounting
        → Option Str
        → ServiceState A
        → Served × ServiceState A
    serve_keyed now config request bytes accounting none state =
        (forwarded (strip_credentials config request.headers) bytes accounting, state)
    serve_keyed now config request bytes accounting (some key) state =
        found_in_cache config request bytes accounting
          (Cache.get now key accounting.authorization_context state.cache) state

    unfoldable pub serve_call :
        ℕ → EdgeConfig → HttpRequest → Str → Accounting → ServiceState A → Served × ServiceState A
    serve_call now config request bytes accounting state =
        serve_keyed now config request bytes accounting accounting.request.cache_key state

    unfoldable pub serve_resolved :
        ℕ
        → EdgeConfig
        → HttpRequest
        → Str
        → Str
        → Tenant
        → Bool
        → RequestError ⊎ Option Call
        → ServiceState A
        → Served × ServiceState A
    serve_resolved now config request bytes api_key tenant legacy (inl error) state =
        refuse_headers state
    serve_resolved now config request bytes api_key tenant legacy (inr none) state =
        (passed_through (strip_credentials config request.headers) bytes, state)
    serve_resolved now config request bytes api_key tenant legacy (inr (some call)) state =
        serve_call now config request bytes
          (record {
            tenant = tenant;
            authorization_context = p.hash_api_key api_key;
            legacy = legacy;
            call = call;
            request = inspect_request p.sha256 p.write p.from_json p.read_lean call bytes;
          })
          state

    unfoldable pub serve_body :
        ℕ
        → EdgeConfig
        → HttpRequest
        → Str
        → Tenant
        → Classification
        → RequestBodyError ⊎ Str
        → ServiceState A
        → Served × ServiceState A
    serve_body now config request api_key tenant classification (inl error) state =
        refuse_body error state
    serve_body now config request api_key tenant classification (inr bytes) state =
        serve_resolved now config request bytes api_key tenant (is_from_body classification)
          (resolve classification request.method (leb (length bytes) 0) (p.from_json bytes)) state

    module _ (finish_parked : A → ResponseCache CachedResponse → ResponseCache CachedResponse) where
      unfoldable pub serve_tenant :
          Instants
          → EdgeConfig
          → HttpRequest
          → Classification
          → Str
          → Option Tenant
          → ServiceState A
          → Served × ServiceState A
      serve_tenant times config request classification api_key none state =
          refuse_call times state.auth_failure_limit state
      serve_tenant times config request classification api_key (some tenant) state =
          serve_body times.looked_up_at config request api_key tenant classification
            (collect_request_body config.max_request_body request.frames)
            (count_call classified (drain_first finish_parked config state))

      unfoldable pub serve_credential :
          Instants
          → EdgeConfig
          → HttpRequest
          → Classification
          → CredentialError ⊎ Str
          → ServiceState A
          → Served × ServiceState A
      serve_credential times config request classification (inl error) state =
          refuse_call times state.auth_failure_limit state
      serve_credential times config request classification (inr api_key) state =
          serve_tenant times config request classification api_key (config.authenticate api_key)
            state

      unfoldable pub serve_classified :
          Instants
          → EdgeConfig
          → HttpRequest
          → RequestError ⊎ Classification
          → ServiceState A
          → Served × ServiceState A
      serve_classified times config request (inl error) state = refuse_headers state
      serve_classified times config request (inr classification) state =
          serve_credential times config request classification (extract_api_key request.headers)
            state

      unfoldable pub call :
          Instants → EdgeConfig → HttpRequest → ServiceState A → Served × ServiceState A
      call times config request state =
          serve_classified times config request
            (classify_request_headers p.base64 request.headers config.strict_protocol_version) state
