-- ===== src/Tower/Classify/Tests.antt =====
-- Requests of a new and of an old client.
use mcp_usage_kit.Core.Method
use mcp_usage_kit.Core.Charge.{Call}
use mcp_usage_kit.Core.Method.{Method}
use mcp_usage_kit.Core.Name.{Base64}
use mcp_usage_kit.Core.Version.{
  assess, is_ascii_digit, is_trusted, max_day, parse_digits, str_lt, valid_date, valid_day,
  validate_header,
}
use mcp_usage_kit.Prelude.{
  Str, [], false, if◌then◌else◌, inr, is_some, none, not, refl, some, str, str_eq, true, ◌||◌, ◌∷◌,
  ◌≡◌,
}
use mcp_usage_kit.Tower.Classify.{
  Headers, classify_method_header, classify_protocol_headers, classify_request_headers,
  classify_trust, classify_validated, decode_name, from_body, from_headers, is_malformed,
  method_header, optional_header_str, protocol_version_header, trusted_call, unique_header, visible,
}
use mcp_usage_kit.Tower.Classify.Trust.{classify-from_headers}

-- A codec of the standard alphabet is not needed here: any one that round-trips will do.
abbrev plain : Base64
plain = record {
  encode = λ bytes. bytes;
  decode = λ text. some text;
  decode_of_encode = λ bytes. refl;
}

abbrev new_client : Headers
new_client name =
    if str_eq name protocol_version_header
    then some (str "2026-07-28") ∷ []
    else if str_eq name method_header
    then some (str "tools/list") ∷ []
    else []

abbrev old_client : Headers
old_client name = []

abbrev list_call : Call
list_call = record { method = Method.tools_list; name = none }

new_client_classified :
    classify_request_headers plain new_client false ≡ inr (from_headers list_call)
unfolding classify_request_headers optional_header_str unique_header visible classify_trust
    classify_protocol_headers classify_validated classify_method_header decode_name trusted_call
    validate_header str_eq str_lt valid_date is_ascii_digit valid_day max_day parse_digits
    Method.parse Method.carries_name
new_client_classified = refl

old_client_classified : classify_request_headers plain old_client false ≡ inr from_body
unfolding classify_request_headers optional_header_str unique_header visible classify_trust
    classify_protocol_headers classify_validated validate_header is_malformed
old_client_classified = refl

classify-from_headers_example :
    (version raw : Str) × (new_client protocol_version_header ≡ some version ∷ [])
    × (is_trusted (assess (some version)) ≡ true)
    × (new_client method_header ≡ some raw ∷ [])
    × (list_call.method ≡ Method.parse raw)
    × ((not (Method.carries_name list_call.method) || is_some list_call.name) ≡ true)
classify-from_headers_example =
    classify-from_headers plain new_client false list_call new_client_classified
