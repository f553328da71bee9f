-- ===== src/Tower/Inspect.antt =====
-- crates/mcp-usage-tower/src/cache.rs, the request side: what a request tells the cache, its key, and
-- a cached body under another request's id. SHA-256, the JSON writer and the two readers of a body's
-- bytes are parameters: of a whole document, and of a `LeanRequest`. The second is derived, and reads
-- bytes that the first does not: fields that it ignores are not held to its bounds on numbers, depth
-- and escapes.
pub mod Lean
pub mod Whole
pub mod Keyed
pub mod Rendered
mod Tests
use mcp_usage_kit.Core.Method
use mcp_usage_kit.Core.Peek
use mcp_usage_kit.Core.Charge.{Call, is_tasks_get}
use mcp_usage_kit.Core.Json.{
  Fields, Value, as_str, end, field, find, get, is_null, is_number, is_string, object, pos_int,
}
use mcp_usage_kit.Core.Method.{Method}
use mcp_usage_kit.Prelude.{
  Bool, Option, Str, [], false, if◌then◌else◌, is_some, is_some_and, ltb, none, not, some, str,
  str_eq, true, ℕ, ◌&&◌, ◌++◌, ◌>>=◌, ◌^◌, ◌||◌, ◌∷◌,
}
use mcp_usage_kit.Tower.Cache.{CacheScope, private, shared}

pub record RequestMetadata : Type 0 where
  pub request_id : Option Value
  pub cache_key : Option Str
  pub is_continuation : Bool
  pub requested_task_id : Option Str

pub record LeanParams : Type 0 where
  pub task_id : Option Str
  pub input_responses : Bool
  pub request_state : Bool

pub record LeanRequest : Type 0 where
  pub id : Option Value
  pub params : LeanParams

unfoldable pub from_lean : Call → LeanRequest → RequestMetadata
from_lean call lean = record {
  request_id = lean.id;
  cache_key = none;
  is_continuation = lean.params.input_responses || lean.params.request_state;
  requested_task_id = if is_tasks_get call.method then lean.params.task_id else none;
}

unfoldable pub text_at : Value → Str → Str → Option Str
text_at body key field_name = do params ← get body key; found ← get params field_name; as_str found

unfoldable pub same_name : Option Str → Option Str → Bool
same_name none none = true
same_name (some a) (some b) = str_eq a b
same_name _ _ = false

unfoldable pub name_matches : Call → Value → Bool
name_matches call body = elim call.method [
  | Method.tools_call ↦ same_name (text_at body (str "params") (str "name")) call.name
  | Method.prompts_get ↦ same_name (text_at body (str "params") (str "name")) call.name
  | Method.resources_read ↦ same_name (text_at body (str "params") (str "uri")) call.name
  | _ ↦ true
]

unfoldable pub body_matches_headers : Call → Value → Bool
body_matches_headers call body =
    same_name (get body (str "jsonrpc") >>= as_str) (some (str "2.0"))
    && same_name (get body (str "method") >>= as_str) (some (Method.as_str call.method))
    && name_matches call body

unfoldable pub valid_json_rpc_id : Value → Bool
valid_json_rpc_id id = is_null id || is_number id || is_string id

unfoldable pub is_continuation_of : Option Value → Bool
is_continuation_of none = false
is_continuation_of (some body) = (Peek.request body).is_continuation

unfoldable pub requested_task : Call → Option Value → Option Str
requested_task call parsed =
    if is_tasks_get call.method
    then parsed >>= (λ body. text_at body (str "params") (str "taskId"))
    else none

module _ (write : Value → Str) where
  abbrev pub params_text : Value → Str
  params_text body = elim (get body (str "params")) [ none ↦ [] | some params ↦ write params ]

  unfoldable pub logical_input : Method → Value → Str
  logical_input method body = Method.as_str method ++ 0 ∷ params_text body

module _ (sha256 : Str → Str) (write : Value → Str) where
  unfoldable pub logical_key : Method → Value → Str
  logical_key method body = sha256 (logical_input write method body)

  unfoldable pub is_keyed : Call → Value → Bool
  is_keyed call body =
      Method.is_cacheable call.method
      && not (Peek.request body).is_continuation
      && is_some_and (get body (str "id")) valid_json_rpc_id
      && body_matches_headers call body

  unfoldable pub cache_key_of : Call → Option Value → Option Str
  cache_key_of call none = none
  cache_key_of call (some body) =
      if is_keyed call body then some (logical_key call.method body) else none

  unfoldable pub inspect_whole_body : Call → Option Value → RequestMetadata
  inspect_whole_body call parsed = record {
    request_id = parsed >>= (λ body. get body (str "id"));
    cache_key = cache_key_of call parsed;
    is_continuation = is_continuation_of parsed;
    requested_task_id = requested_task call parsed;
  }

  unfoldable pub inspect_with : Call → Option Value → Option LeanRequest → RequestMetadata
  inspect_with call parsed none = inspect_whole_body call parsed
  inspect_with call parsed (some lean) = from_lean call lean

  unfoldable pub inspect_request :
      (Str → Option Value) → (Str → Option LeanRequest) → Call → Str → RequestMetadata
  inspect_request from_json read_lean call bytes =
      if Method.is_cacheable call.method
      then inspect_whole_body call (from_json bytes)
      else inspect_with call (from_json bytes) (read_lean bytes)

-- `BodyWithId`: every `id` of the members is replaced, and one is appended where there is none.
unfoldable pub with_id : Fields → Value → Bool → Fields
with_id end id appended = if appended then field (str "id") id end else end
with_id (field key value fs) id appended =
    field key (if str_eq key (str "id") then id else value) (with_id fs id appended)

unfoldable pub substituted : Option Value → Value → Value
substituted (some id) (object fs) = object (with_id fs id (not (is_some (find (str "id") fs))))
substituted _ body = body

module _ (write : Value → Str) where
  unfoldable pub render_with_id : Value → Option Value → Str
  render_with_id body request_id = write (substituted request_id body)

unfoldable pub positive_ttl : Option Value → Option ℕ
positive_ttl (some (Value.number (pos_int n))) = if ltb 0 n && ltb n (2 ^ 63) then some n else none
positive_ttl _ = none

unfoldable pub scope_of : Option Str → Option CacheScope
scope_of none = some private
scope_of (some text) =
    if str_eq text (str "public")
    then some shared
    else if str_eq text (str "private")
    then some private
    else none

unfoldable pub hints_of : Value → Option (ℕ × CacheScope)
hints_of result =
    if not (same_name (get result (str "resultType") >>= as_str) (some (str "complete")))
    then none
    else do
      ttl ← positive_ttl (get result (str "ttlMs"))
      scope ← scope_of (get result (str "cacheScope") >>= as_str)
      some (ttl, scope)

unfoldable pub cache_hints : Value → Option (ℕ × CacheScope)
cache_hints body = get body (str "result") >>= hints_of
