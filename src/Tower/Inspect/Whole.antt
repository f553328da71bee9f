-- ===== src/Tower/Inspect/Whole.antt =====
-- crates/mcp-usage-tower/src/cache.rs, `inspect_request`: reading four fields of a request against
-- reading the whole body.
use mcp_usage_kit.Core.Method
use mcp_usage_kit.Core.Peek
use mcp_usage_kit.Core.Charge.{Call, is_tasks_get}
use mcp_usage_kit.Core.Json.{
  Value, array, as_str, bool, find, get, is_array, is_null, null, object, string,
}
use mcp_usage_kit.Core.Method.{Method}
use mcp_usage_kit.Core.Peek.{RequestPeek, has_value}
use mcp_usage_kit.Prelude.{
  Bool, Bool-cases, Option, Str, false, if◌then◌else◌, inl, inr, is_some_and, none, not, refl, some,
  str, sym, ◌>>=◌, ◌||◌, ◌∙◌, ◌≡◌, ◌⊎◌,
}
use mcp_usage_kit.Tower.Inspect.{
  LeanRequest, RequestMetadata, cache_key_of, from_lean, inspect_request, inspect_whole_body,
  inspect_with, is_continuation_of, is_keyed, requested_task, text_at,
}
use mcp_usage_kit.Tower.Inspect.Lean.{
  ReadsFields, is_present, lean_params, lean_request, optional_text, params_of, params_with,
  request_of, with_params,
}

-- Neither the body nor its parameters are an array.
abbrev pub NoArray : Value → Type 0
NoArray body = (is_array body ≡ false) × (is_some_and (get body (str "params")) is_array ≡ false)

-- What a narrow parse that succeeds has to show.
Agree : Call → RequestMetadata → Option LeanRequest → Type 0
Agree call expected none = Unit
Agree call expected (some lean) = from_lean call lean ≡ expected

shown : Call → Option Value → Bool → Option Str → RequestMetadata
shown call id is_continuation task_id = record {
  request_id = id;
  cache_key = none;
  is_continuation = is_continuation;
  requested_task_id = if is_tasks_get call.method then task_id else none;
}

Agree-fields :
    (call : Call) (id task_id : Option Value) (input_responses request_state : Bool)
    → Agree call
        (shown call id (input_responses || request_state) (task_id >>= as_str))
        (with_params id (params_with (optional_text task_id) input_responses request_state))
unfolding Agree shown with_params params_with optional_text from_lean as_str
Agree-fields call id none input_responses request_state = refl
Agree-fields call id (some null) input_responses request_state = refl
Agree-fields call id (some (string s)) input_responses request_state = refl
Agree-fields call id (some (bool b)) input_responses request_state = tt
Agree-fields call id (some (Value.number n)) input_responses request_state = tt
Agree-fields call id (some (array xs)) input_responses request_state = tt
Agree-fields call id (some (object fs)) input_responses request_state = tt

is_present-has_value :
    (found : Option Value) → is_present found ≡ is_some_and found (λ w. not (is_null w))
unfolding is_present
is_present-has_value none = refl
is_present-has_value (some value) = refl

-- What the whole body shows, by its parameters.
continues : Option Value → Bool
continues none = false
continues (some params) =
    has_value params (str "inputResponses") || has_value params (str "requestState")

task_of : Option Value → Option Str
task_of params = do found ← params; task_id ← get found (str "taskId"); as_str task_id

Agree-params :
    (call : Call) (id params : Option Value)
    → is_some_and params is_array ≡ false
    → Agree call (shown call id (continues params) (task_of params)) (request_of id params)
unfolding Agree request_of params_of lean_params continues task_of get has_value is_array is_present
    with_params
Agree-params call id none h = Agree-fields call id none false false
Agree-params call id (some (object fs)) h =
    rw
      (
        sym (is_present-has_value (find (str "inputResponses") fs)),
        sym (is_present-has_value (find (str "requestState") fs)),
      )
      (Agree-fields call id (find (str "taskId") fs) (is_present (find (str "inputResponses") fs))
        (is_present (find (str "requestState") fs)))
Agree-params call id (some (array xs)) h = absurd cc
Agree-params call id (some null) h = tt
Agree-params call id (some (string s)) h = tt
Agree-params call id (some (bool b)) h = tt
Agree-params call id (some (Value.number n)) h = tt

abbrev peeked : Option Value → RequestPeek
peeked params = elim params [
  | none ↦ record { is_continuation = false }
  | some found ↦ record {
    is_continuation =
        has_value found (str "inputResponses") || has_value found (str "requestState");
  }
]

peeked-continues : (params : Option Value) → (peeked params).is_continuation ≡ continues params
unfolding continues
peeked-continues none = refl
peeked-continues (some params) = refl

request-continues :
    (body : Value) → (Peek.request body).is_continuation ≡ continues (get body (str "params"))
unfolding Peek.request
request-continues body = peeked-continues (get body (str "params"))

module _ (sha256 : Str → Str) (write : Value → Str) where
  inspect_whole_body-shown :
      (call : Call) (body : Value)
      → Method.is_cacheable call.method ≡ false
      → inspect_whole_body sha256 write call (some body)
        ≡ shown call
            (get body (str "id"))
            (continues (get body (str "params")))
            (task_of (get body (str "params")))
  unfolding inspect_whole_body shown cache_key_of is_keyed is_continuation_of requested_task text_at
      task_of
  inspect_whole_body-shown call body h = rw (h, request-continues body) refl

  inspect_with-agrees :
      (call : Call) (parsed : Option Value) (expected : RequestMetadata) (lean : Option LeanRequest)
      → inspect_whole_body sha256 write call parsed ≡ expected
      → Agree call expected lean
      → inspect_with sha256 write call parsed lean ≡ inspect_whole_body sha256 write call parsed
  unfolding inspect_with Agree
  inspect_with-agrees call parsed expected none e agrees = refl
  inspect_with-agrees call parsed expected (some lean) e agrees = agrees ∙ sym e

  Agree-request :
      (call : Call) (body : Value)
      → is_array body ≡ false
      → is_some_and (get body (str "params")) is_array ≡ false
      → Agree call
          (shown call
            (get body (str "id"))
            (continues (get body (str "params")))
            (task_of (get body (str "params"))))
          (lean_request body)
  unfolding lean_request Agree get is_array
  Agree-request call (object fs) h k =
      Agree-params call (find (str "id") fs) (find (str "params") fs) k
  Agree-request call (array xs) h k = absurd cc
  Agree-request call null h k = tt
  Agree-request call (string s) h k = tt
  Agree-request call (bool b) h k = tt
  Agree-request call (Value.number n) h k = tt

  narrow_agrees :
      (call : Call) (body : Value) (lean : Option LeanRequest)
      → Method.is_cacheable call.method ≡ false
      → NoArray body
      → (lean ≡ none) ⊎ (lean ≡ lean_request body)
      → inspect_with sha256 write call (some body) lean
        ≡ inspect_whole_body sha256 write call (some body)
  unfolding inspect_with
  narrow_agrees call body lean h arrays (inl failed) = rw failed refl
  narrow_agrees call body lean h (whole, params) (inr fields) = rw fields (
      inspect_with-agrees call (some body) _ (lean_request body)
        (inspect_whole_body-shown call body h) (Agree-request call body whole params))

-- Reading the four fields of a request tells the same as reading its whole body: whatever the call,
-- for bytes that parse to a document which is neither an array nor has an array for its parameters,
-- as long as the narrow reader either fails on such bytes or gives the document's fields. Bytes that
-- only the narrow reader accepts are not meant.
pub inspect_request-whole :
    (sha256 : Str → Str) (write : Value → Str) (from_json : Str → Option Value)
    (read_lean : Str → Option LeanRequest) (call : Call) (bytes : Str) (body : Value)
    → ReadsFields from_json read_lean
    → from_json bytes ≡ some body
    → NoArray body
    → inspect_request sha256 write from_json read_lean call bytes
      ≡ inspect_whole_body sha256 write call (some body)
unfolding inspect_request
inspect_request-whole sha256 write from_json read_lean call bytes body reads parsed arrays =
    elim (Bool-cases (Method.is_cacheable call.method)) [
      | inl cacheable ↦ rw (cacheable, parsed) refl
      | inr not_cacheable ↦
          rw (not_cacheable, parsed)
            (narrow_agrees sha256 write call body (read_lean bytes) not_cacheable arrays
              (reads bytes body parsed))
    ]
