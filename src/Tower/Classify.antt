-- ===== src/Tower/Classify.antt =====
-- crates/mcp-usage-tower/src/classify.rs, and the classification of a request in layer.rs: the
-- method and the name that a request is priced by, from its headers or from its body. The header
-- map belongs to another package and is a function from a name to the values under it, each with
-- its text if it is visible ASCII; a body is its length and the document it parses to.
pub mod Trust
mod Tests
use mcp_usage_kit.Core.Json
use mcp_usage_kit.Core.Method
use mcp_usage_kit.Core.Name
use mcp_usage_kit.Core.Charge.{Call}
use mcp_usage_kit.Core.Json.{Value}
use mcp_usage_kit.Core.Legacy.{Classified, LegacyClassificationError, classify_body, err, ok}
use mcp_usage_kit.Core.Method.{Method}
use mcp_usage_kit.Core.Name.{Base64, Decoded, NameError, borrowed, failed, owned}
use mcp_usage_kit.Core.Version.{
  TrustFailure, Validation, invalid, malformed_version, missing_version_header,
  unvalidated_revision, valid, validate_header,
}
use mcp_usage_kit.Prelude.{
  Bool, List, Option, Str, [], false, if◌then◌else◌, inl, inr, is_some, is_some_and, none, not,
  some, str, str_eq, strip_prefix, true, ◌&&◌, ◌>>=◌, ◌||◌, ◌∷◌, ◌⊎◌,
}

abbrev pub Headers : Type 0
Headers = Str → List (Option Str)

pub data ClassificationError : Type 0 where
  untrusted_version : TrustFailure → ClassificationError
  missing_method missing_name : ClassificationError
  invalid_name : NameError → ClassificationError

pub record ProtocolHeaders : Type 0 where
  pub method : Method
  pub name : Option Str

-- Why the headers are refused, where the code formats a text.
pub data RequestError : Type 0 where
  multiple_headers not_visible : Str → RequestError
  classification : ClassificationError → RequestError
  body_error : LegacyClassificationError → RequestError
  transport_body : RequestError

pub data Classification : Type 0 where
  from_headers : Call → Classification
  from_body : Classification

abbrev pub protocol_version_header : Str
protocol_version_header = str "mcp-protocol-version"

abbrev pub method_header : Str
method_header = str "mcp-method"

abbrev pub name_header : Str
name_header = str "mcp-name"

unfoldable pub unique_header : Headers → Str → RequestError ⊎ Option (Option Str)
unique_header headers name = elim (headers name) [
  | [] ↦ inr none
  | value ∷ [] ↦ inr (some value)
  | value ∷ second ∷ more ↦ inl (multiple_headers name)
]

unfoldable pub visible : Str → Option (Option Str) → RequestError ⊎ Option Str
visible name none = inr none
visible name (some none) = inl (not_visible name)
visible name (some (some value)) = inr (some value)

abbrev pub and_then {ℓ κ μ} : {E : Type ℓ} {A : Type κ} {B : Type μ} → E ⊎ A → (A → E ⊎ B) → E ⊎ B
and_then (inl error) f = inl error
and_then (inr a) f = f a

unfoldable pub optional_header_str : Headers → Str → RequestError ⊎ Option Str
optional_header_str headers name = and_then (unique_header headers name) (visible name)

module _ (base64 : Base64) where
  unfoldable pub named : Decoded → NameError ⊎ Str
  named (borrowed text) = inr text
  named (owned text) = inr text
  named (failed error) = inl error

  unfoldable pub decode_name : Method → Option Str → ClassificationError ⊎ ProtocolHeaders
  decode_name method none = inr (record { method = method; name = none })
  decode_name method (some raw) = elim (named (Name.decode base64 raw)) [
    | inl error ↦ inl (invalid_name error)
    | inr text ↦ inr (record { method = method; name = some text })
  ]

  unfoldable pub classify_method_header :
      Option Str → Option Str → ClassificationError ⊎ ProtocolHeaders
  classify_method_header none name = inl missing_method
  classify_method_header (some raw) name =
      let method = Method.parse raw in
      if Method.carries_name method && not (is_some name)
      then inl missing_name
      else decode_name method name

  unfoldable pub classify_validated :
      Validation → Option Str → Option Str → ClassificationError ⊎ ProtocolHeaders
  classify_validated (invalid reason) method name = inl (untrusted_version reason)
  classify_validated valid method name = classify_method_header method name

  unfoldable pub classify_protocol_headers :
      Option Str → Option Str → Option Str → ClassificationError ⊎ ProtocolHeaders
  classify_protocol_headers version method name =
      classify_validated (validate_header version) method name

  unfoldable pub is_malformed : TrustFailure → Bool
  is_malformed (malformed_version raw) = true
  is_malformed missing_version_header = false
  is_malformed (unvalidated_revision version) = false

  unfoldable pub trusted_call :
      ClassificationError ⊎ ProtocolHeaders → RequestError ⊎ Classification
  trusted_call (inl error) = inl (classification error)
  trusted_call (inr headers) =
      inr (from_headers (record { method = headers.method; name = headers.name }))

  -- A malformed version is refused; an old one is priced from the body, unless that is refused.
  unfoldable pub classify_trust :
      Bool → Validation → ClassificationError ⊎ ProtocolHeaders → RequestError ⊎ Classification
  classify_trust strict valid classified = trusted_call classified
  classify_trust strict (invalid failure) classified =
      if is_malformed failure || strict
      then inl (classification (untrusted_version failure))
      else inr from_body

  unfoldable pub classify_request_headers : Headers → Bool → RequestError ⊎ Classification
  classify_request_headers headers strict =
      and_then (optional_header_str headers protocol_version_header) (λ version.
        and_then (optional_header_str headers method_header) (λ method.
          and_then (optional_header_str headers name_header) (λ name.
            classify_trust strict (validate_header version)
              (classify_protocol_headers version method name))))

unfoldable pub is_from_body : Classification → Bool
is_from_body from_body = true
is_from_body (from_headers call) = false

-- `GET` and `DELETE` are transport operations of the protocol.
unfoldable pub is_transport : Str → Bool
is_transport http_method = str_eq http_method (str "GET") || str_eq http_method (str "DELETE")

unfoldable pub text_is : Option Value → Str → Bool
text_is found text = is_some_and (found >>= Json.as_str) (λ s. str_eq s text)

-- An answer to a request of the server: an envelope with a result or an error, not both.
unfoldable pub is_client_response : Value → Bool
is_client_response value =
    not (is_some (Json.get value (str "method")))
    && text_is (Json.get value (str "jsonrpc")) (str "2.0")
    && is_some_and (Json.get value (str "id")) (λ id. Json.is_string id || Json.is_number id)
    && (if is_some (Json.get value (str "result"))
        then not (is_some (Json.get value (str "error")))
        else is_some (Json.get value (str "error")))

unfoldable pub classified_call : Classified → RequestError ⊎ Option Call
classified_call (err error) = inl (body_error error)
classified_call (ok method name) =
    if is_some (strip_prefix (str "notifications/") (Method.as_str method))
    then inr none
    else inr (some (record { method = method; name = name }))

-- The call to price, or none for transport traffic.
unfoldable pub resolve : Classification → Str → Bool → Option Value → RequestError ⊎ Option Call
resolve (from_headers call) http_method body_is_empty parsed = inr (some call)
resolve from_body http_method body_is_empty parsed =
    if is_transport http_method
    then (if body_is_empty then inr none else inl transport_body)
    else if is_some_and parsed is_client_response
    then inr none
    else classified_call (classify_body parsed)
