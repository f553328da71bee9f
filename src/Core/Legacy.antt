-- ===== src/Core/Legacy.antt =====
-- crates/mcp-usage-core/src/legacy.rs: classifying a request from its body. The body is the
-- document that it parses to, `none` where it is not JSON.
pub mod Target
mod Tests
use mcp_usage_kit.Core.Json
use mcp_usage_kit.Core.Method
use mcp_usage_kit.Core.Json.{Value}
use mcp_usage_kit.Core.Method.{Method}
use mcp_usage_kit.Prelude.{
  Bool, Option, Str, false, if◌then◌else◌, none, not, some, str, true, ◌>>=◌,
}

pub data LegacyClassificationError : Type 0 where
  malformed batch missing_method : LegacyClassificationError
  missing_name : Method → LegacyClassificationError

pub data Classified : Type 0 where
  ok : Method → Option Str → Classified
  err : LegacyClassificationError → Classified

abbrev pub is_resources_read : Method → Bool
is_resources_read Method.resources_read = true
is_resources_read _ = false

-- The field of `params` that names the target.
unfoldable pub name_field : Method → Str
name_field method = if is_resources_read method then str "uri" else str "name"

unfoldable pub target : Value → Method → Option Str
unfolding name_field
target value method = do
  params ← Json.get value (str "params")
  found ← Json.get params (name_field method)
  Json.as_str found

unfoldable pub classify_method : Value → Method → Classified
classify_method value method =
    if not (Method.carries_name method) then ok method none else elim (target value method) [
      | none ↦ err (missing_name method)
      | some name ↦ ok method (some name)
    ]

unfoldable pub classify_body : Option Value → Classified
unfolding classify_method
classify_body none = err malformed
classify_body (some value) =
    if Json.is_array value
    then err batch
    else elim (Json.get value (str "method") >>= Json.as_str) [
      | none ↦ err missing_method
      | some raw ↦ classify_method value (Method.parse raw)
    ]
