-- ===== src/Tower/Service/Finish.antt =====
-- crates/mcp-usage-tower/src/layer.rs, the caching that ends `Completion::finish`, after the accounting
-- of its first part.
use mcp_usage_kit.Tower.Cache
use mcp_usage_kit.Core.Json.{Value}
use mcp_usage_kit.Prelude.{
  Bool, List, Option, Str, [], if◌then◌else◌, inl, inr, leb, ltb, none, not, some, str, str_eq, ℕ,
  ◌&&◌, ◌∷◌, ◌⊎◌,
}
use mcp_usage_kit.Tower.Cache.{CacheScope, ResponseCache}
use mcp_usage_kit.Tower.Classify.{Headers}
use mcp_usage_kit.Tower.Completion.{
  Books, Completion, UnaccountedReason, finish, mismatched, observed,
}
use mcp_usage_kit.Tower.Inspect.{cache_hints}
use mcp_usage_kit.Tower.Service.{Accounting, CachedResponse}
use mcp_usage_kit.Tower.Terminal.{has_media_type, terminal_response}

-- `StatusCode::is_success`.
unfoldable pub is_success : ℕ → Bool
is_success status = leb 200 status && ltb status 300

abbrev pub content_type_header : Str
content_type_header = str "content-type"

abbrev first_only : List (Option Str) → List (Option Str)
first_only [] = []
first_only (value ∷ more) = value ∷ []

unfoldable pub cacheable_headers : Headers → Headers
cacheable_headers headers name =
    if str_eq content_type_header name then first_only (headers content_type_header) else []

abbrev first_text : List (Option Str) → Str
first_text (some text ∷ more) = text
first_text (none ∷ more) = []
first_text [] = []

-- The content type as a text, empty where it is absent or no text.
unfoldable pub content_type_of : Headers → Str
content_type_of headers = first_text (headers content_type_header)

pub record OriginResponse : Type 0 where
  pub status : ℕ
  pub headers : Headers
  pub bytes : Str

unfoldable pub completion_of : Str → ℕ → Accounting → Completion
completion_of meter_name max_idempotency_keys accounting = record {
  tenant = accounting.tenant;
  meter_name = meter_name;
  max_idempotency_keys = max_idempotency_keys;
  legacy = accounting.legacy;
  call = accounting.call;
  requested_task_id = accounting.request.requested_task_id;
}

unfoldable pub may_cache : Accounting → OriginResponse → Bool
may_cache accounting response =
    is_success response.status
    && not accounting.request.is_continuation
    && has_media_type (content_type_of response.headers) (str "application/json")

unfoldable pub insert_hinted :
    ℕ
    → ℕ
    → Accounting
    → OriginResponse
    → Value
    → Option Str
    → Option (ℕ × CacheScope)
    → ResponseCache CachedResponse
    → ResponseCache CachedResponse
insert_hinted latest now accounting response body (some key) (some (ttl, scope)) cache =
    Cache.insert latest now key accounting.authorization_context scope ttl
      (record {
        status = response.status;
        headers = cacheable_headers response.headers;
        body = body;
      })
      cache
insert_hinted latest now accounting response body _ _ cache = cache

unfoldable pub store_answer :
    ℕ
    → ℕ
    → Accounting
    → OriginResponse
    → Value
    → ResponseCache CachedResponse
    → ResponseCache CachedResponse
store_answer latest now accounting response body cache =
    if may_cache accounting response
    then insert_hinted latest now accounting response body accounting.request.cache_key
        (cache_hints body) cache
    else cache

-- A body that is no response, and one for another task, end the accounting before the cache.
unfoldable pub cache_answer :
    ℕ
    → ℕ
    → Completion
    → Accounting
    → OriginResponse
    → UnaccountedReason ⊎ Value
    → ResponseCache CachedResponse
    → ResponseCache CachedResponse
cache_answer latest now completion accounting response (inl reason) cache = cache
cache_answer latest now completion accounting response (inr body) cache =
    if mismatched completion (observed completion body)
    then cache
    else store_answer latest now accounting response body cache

-- `Completion::finish` with the caching that ends it.
unfoldable pub finish_response :
    (Str → Option Value)
    → ℕ
    → ℕ
    → Completion
    → Accounting
    → OriginResponse
    → Books × ResponseCache CachedResponse
    → Books × ResponseCache CachedResponse
finish_response from_json latest now completion accounting response (books, cache) =
    let answer = terminal_response from_json (content_type_of response.headers) response.bytes in
    (
      finish completion now answer books,
      cache_answer latest now completion accounting response answer cache,
    )
