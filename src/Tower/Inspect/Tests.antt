-- ===== src/Tower/Inspect/Tests.antt =====
-- crates/mcp-usage-tower/src/cache.rs, the request side: runs.
use mcp_usage_kit.Core.Method
use mcp_usage_kit.Core.Peek
use mcp_usage_kit.Core.Charge.{Call}
use mcp_usage_kit.Core.Json.{
  Fields, Value, array, as_str, cons, end, field, find, get, is_array, is_null, is_number,
  is_string, nil, object, pos_int, string,
}
use mcp_usage_kit.Core.Method.{Method}
use mcp_usage_kit.Core.Peek.{has_value}
use mcp_usage_kit.Prelude.{
  Option, Str, false, if◌then◌else◌, inr, none, refl, some, str, str_eq, ◌++◌, ◌∷◌, ◌≡◌, ◌≢◌,
}
use mcp_usage_kit.Tower.Cache.{shared}
use mcp_usage_kit.Tower.Inspect.{
  LeanRequest, body_matches_headers, cache_hints, cache_key_of, from_lean, hints_of,
  inspect_request, inspect_whole_body, inspect_with, is_keyed, logical_input, logical_key,
  name_matches, params_text, positive_ttl, render_with_id, requested_task, same_name, scope_of,
  substituted, text_at, valid_json_rpc_id, with_id,
}
use mcp_usage_kit.Tower.Inspect.Keyed.{cache_key_same}
use mcp_usage_kit.Tower.Inspect.Lean.{
  is_present, lean_params, lean_request, optional_text, params_of, params_with, request_of,
  with_params,
}
use mcp_usage_kit.Tower.Inspect.Rendered.{render_with_id-find}
use mcp_usage_kit.Tower.Inspect.Whole.{inspect_request-whole}

abbrev plain : Str → Str
plain s = s

abbrev fixed : Value → Str
fixed value = str "{}"

abbrev listing : Call
listing = record { method = Method.tools_list; name = none }

abbrev polling : Call
polling = record { method = Method.tasks_get; name = none }

abbrev body_with : Str → Value → Value
body_with method params = object (
    field (str "jsonrpc") (string (str "2.0")) (
      field (str "id") (string (str "7"))
        (field (str "method") (string method) (field (str "params") params end))))

abbrev listing_body : Value
listing_body = body_with (str "tools/list") (object end)

abbrev polling_body : Value
polling_body = body_with (str "tasks/get") (object (field (str "taskId") (string (str "t1")) end))

-- A reader of one document, and a narrow reader that gives its fields.
abbrev reads : Value → Str → Option Value
reads body text = some body

abbrev reads_lean : Value → Str → Option LeanRequest
reads_lean body text = lean_request body

inspect_request-whole_example :
    inspect_request plain fixed (reads polling_body) (reads_lean polling_body) polling (str "{}")
    ≡ inspect_whole_body plain fixed polling (some polling_body)
inspect_request-whole_example =
    inspect_request-whole plain fixed (reads polling_body) (reads_lean polling_body) polling
      (str "{}") polling_body (λ bytes body e. inr (cc)) refl
      (unfold is_array get find str_eq in (refl, refl))

-- Parameters in an array: the narrow parse reads the task's id by its position, the whole body does
-- not.
abbrev array_body : Value
array_body = body_with (str "tasks/get") (array (cons (string (str "t1")) nil))

array_diverges :
    ((inspect_request plain fixed
        (reads array_body)
        (reads_lean array_body)
        polling
        (str "{}")).requested_task_id
      ≡ some (str "t1"))
    × ((inspect_whole_body plain fixed polling (some array_body)).requested_task_id ≡ none)
unfolding inspect_request inspect_with inspect_whole_body lean_request request_of with_params
    lean_params params_of params_with optional_text is_present from_lean requested_task text_at get
    find str_eq as_str Method.is_cacheable
array_diverges = (refl, refl)

-- Bytes that only the narrow reader accepts: it gives the id, the whole body does not.
narrow_diverges :
    ((inspect_request plain fixed
        (λ text. none)
        (reads_lean polling_body)
        polling
        (str "{}")).request_id
      ≡ some (string (str "7")))
    × ((inspect_whole_body plain fixed polling none).request_id ≡ none)
unfolding inspect_request inspect_with inspect_whole_body lean_request request_of with_params
    lean_params params_of params_with optional_text is_present from_lean get find str_eq
    Method.is_cacheable
narrow_diverges = (refl, refl)

cache_key_same_example :
    (listing.method ≡ listing.method)
    × (params_text fixed listing_body ≡ params_text fixed listing_body)
    × ((Peek.request listing_body).is_continuation ≡ false)
    × ((Peek.request listing_body).is_continuation ≡ false)
unfolding inspect_request inspect_whole_body cache_key_of is_keyed logical_key logical_input
    Method.is_cacheable Peek.request has_value get find str_eq is_null is_number is_string
    valid_json_rpc_id body_matches_headers same_name name_matches as_str Method.as_str
cache_key_same_example =
    cache_key_same plain fixed (reads listing_body) (reads_lean listing_body) listing listing
      (str "{}") (str "{}") listing_body listing_body
      (Method.as_str Method.tools_list ++ 0 ∷ str "{}") (λ s t e. e) refl refl refl refl

abbrev cached_fields : Fields
cached_fields = field (str "id") (string (str "1")) (field (str "result") (string (str "r")) end)

abbrev served : Value
served = object (field (str "id") (string (str "7")) (field (str "result") (string (str "r")) end))

abbrev known : Str → Option Value
known text = if str_eq text (str "{}") then some served else none

render_with_id-find_example :
    (answer : Value) × (known
        (render_with_id fixed (object cached_fields) (some (string (str "7"))))
      ≡ some answer)
    × (get answer (str "id") ≡ some (string (str "7")))
    × ((key : Str) → str "id" ≢ key → get answer key ≡ get (object cached_fields) key)
unfolding substituted with_id find str_eq
render_with_id-find_example = render_with_id-find known fixed cached_fields (string (str "7")) refl

hinted :
    cache_hints (
      object (
        field
          (str "result")
          (object (
            field (str "resultType") (string (str "complete")) (
              field
                (str "ttlMs")
                (Value.number (pos_int 500))
                (field (str "cacheScope") (string (str "public")) end))))
          end))
    ≡ some (500, shared)
unfolding cache_hints hints_of positive_ttl scope_of same_name get find str_eq as_str
hinted = refl
