-- ===== src/Core/Legacy/Tests.antt =====
-- Legacy bodies as documents.
use mcp_usage_kit.Core.Json
use mcp_usage_kit.Core.Method
use mcp_usage_kit.Core.Json.{Value, end, field, object, string}
use mcp_usage_kit.Core.Legacy.{classify_body, ok, target}
use mcp_usage_kit.Core.Method.{Method}
use mcp_usage_kit.Prelude.{refl, some, str, str_eq, ◌≡◌}

abbrev read_body : Value
read_body = object (
    field (str "method") (string (str "resources/read")) (
      field (str "params")
        (object (
          field (str "name") (string (str "free"))
            (field (str "uri") (string (str "file:///a.txt")) end)))
        end))

read_is_named_by_uri :
    classify_body (some read_body) ≡ ok Method.resources_read (some (str "file:///a.txt"))
unfolding classify_body target Method.parse Method.carries_name Json.get Json.as_str Json.is_array
    str_eq
read_is_named_by_uri = refl
