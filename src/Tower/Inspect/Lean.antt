-- ===== src/Tower/Inspect/Lean.antt =====
-- crates/mcp-usage-tower/src/cache.rs, the derived reader of `LeanRequest`: what it reads of bytes that
-- are also a whole document. A struct is read from an object or, by position, from an array.
use mcp_usage_kit.Core.Json.{Value, array, cons, find, is_null, nil, null, object, string}
use mcp_usage_kit.Prelude.{Bool, Option, Str, false, none, not, some, str, ◌≡◌, ◌⊎◌}
use mcp_usage_kit.Tower.Inspect.{LeanParams, LeanRequest}

-- `Option<String>`: what is no text fails the struct.
unfoldable pub optional_text : Option Value → Option (Option Str)
optional_text none = some none
optional_text (some null) = some none
optional_text (some (string s)) = some (some s)
optional_text (some _) = none

-- `Option<IgnoredAny>`.
unfoldable pub is_present : Option Value → Bool
is_present none = false
is_present (some value) = not (is_null value)

unfoldable pub params_with : Option (Option Str) → Bool → Bool → Option LeanParams
params_with none input_responses request_state = none
params_with (some task_id) input_responses request_state =
    some (record {
      task_id = task_id;
      input_responses = input_responses;
      request_state = request_state;
    })

unfoldable pub params_of : Option Value → Option Value → Option Value → Option LeanParams
params_of task_id input_responses request_state =
    params_with (optional_text task_id) (is_present input_responses) (is_present request_state)

unfoldable pub lean_params : Value → Option LeanParams
lean_params (object fs) =
    params_of (find (str "taskId") fs) (find (str "inputResponses") fs)
      (find (str "requestState") fs)
lean_params (array nil) = params_of none none none
lean_params (array (cons a nil)) = params_of (some a) none none
lean_params (array (cons a (cons b nil))) = params_of (some a) (some b) none
lean_params (array (cons a (cons b (cons c nil)))) = params_of (some a) (some b) (some c)
lean_params _ = none

unfoldable pub with_params : Option Value → Option LeanParams → Option LeanRequest
with_params id none = none
with_params id (some params) = some (record { id = id; params = params })

unfoldable pub request_of : Option Value → Option Value → Option LeanRequest
request_of id none = with_params id (params_of none none none)
request_of id (some params) = with_params id (lean_params params)

unfoldable pub lean_request : Value → Option LeanRequest
lean_request (object fs) = request_of (find (str "id") fs) (find (str "params") fs)
lean_request (array nil) = request_of none none
lean_request (array (cons a nil)) = request_of (some a) none
lean_request (array (cons a (cons b nil))) = request_of (some a) (some b)
lean_request _ = none

-- What is documented of a derived reader: on bytes that parse to a document it either fails, as it
-- does on a repeated field, or gives the fields of that document.
abbrev pub ReadsFields : (Str → Option Value) → (Str → Option LeanRequest) → Type 0
ReadsFields from_json read_lean =
    (bytes : Str) (body : Value)
    → from_json bytes ≡ some body
    → (read_lean bytes ≡ none) ⊎ (read_lean bytes ≡ lean_request body)
