-- ===== src/Edge/Payment/Challenge.antt =====
-- crates/mcp-usage-edge/src/mpp.rs, the challenge: its binding, its header form, and the credential
-- that answers it. The texts of headers are ASCII, as the header package has checked.
use mathlib.Core.Option
use mcp_usage_kit.Edge.Payment.{
  ChallengeParams, Credential, Packages, PaymentRequest, PricedIdentity, Receipt, identity_fields,
  request_fields,
}
use mcp_usage_kit.Prelude.{
  Bool, List, Option, Str, [], eq_ignore_ascii_case, if◌then◌else◌, is_some_and, none, some, str,
  str_eq, trim, ◌++◌, ◌==◌, ◌>>=◌, ◌||◌, ◌∷◌,
}
use mcp_usage_kit.Tower.Credential.{split_once_space}

abbrev pub payment_authorization : Str
payment_authorization = str "Payment-Authorization"

pub record Binding : Type 0 where
  pub realm : Str
  pub method : Str
  pub intent : Str
  pub request : Str
  pub expires : Option Str
  pub digest : Option Str
  pub opaque : Option Str
  pub header : Option Str

abbrev pub or_empty : Option Str → Str
or_empty none = []
or_empty (some text) = text

-- `join("|")`.
unfoldable pub join_bars : List Str → Str
join_bars [] = []
join_bars (s ∷ []) = s
join_bars (s ∷ t ∷ ts) = s ++ (b'|' ∷ join_bars (t ∷ ts))

unfoldable pub slots : Binding → List Str
slots b =
    b.realm
    ∷ b.method
    ∷ b.intent
    ∷ b.request
    ∷ or_empty b.expires
    ∷ or_empty b.digest
    ∷ or_empty b.opaque
    ∷ []

abbrev pub header_slot : Option Str → Str
header_slot none = []
header_slot (some header) = b'|' ∷ header

unfoldable pub binding_input : Binding → Str
binding_input b = join_bars (slots b) ++ header_slot b.header

unfoldable pub quoted_characters : Str → Str
quoted_characters [] = b'"' ∷ []
quoted_characters (c ∷ cs) =
    let rest = quoted_characters cs in
    if c == b'"' || c == b'\\' then b'\\' ∷ c ∷ rest else c ∷ rest

unfoldable pub quoted : Str → Str
quoted value = b'"' ∷ quoted_characters value

-- Joined by a comma and a space.
unfoldable pub join_params : List Str → Str
join_params [] = []
join_params (s ∷ []) = s
join_params (s ∷ t ∷ ts) = s ++ (b',' ∷ b' ' ∷ join_params (t ∷ ts))

unfoldable pub param : Str → Str → Str
param name value = name ++ (b'=' ∷ quoted value)

unfoldable pub optional_param : Str → Option Str → List Str → List Str
optional_param name none rest = rest
optional_param name (some value) rest = param name value ∷ rest

unfoldable pub challenge_params : ChallengeParams → List Str
challenge_params c =
    param (str "id") c.id
    ∷ param (str "realm") c.realm
    ∷ param (str "method") c.method
    ∷ param (str "intent") c.intent
    ∷ param (str "request") c.request
    ∷ optional_param (str "expires") c.expires (
        optional_param (str "digest") c.digest (
          optional_param (str "description") c.description
            (optional_param (str "opaque") c.opaque (optional_param (str "header") c.header []))))

unfoldable pub header_value : ChallengeParams → Str
header_value c = str "Payment " ++ join_params (challenge_params c)

unfoldable pub binding_of : ChallengeParams → Binding
binding_of c = record {
  realm = c.realm;
  method = c.method;
  intent = c.intent;
  request = c.request;
  expires = c.expires;
  digest = c.digest;
  opaque = c.opaque;
  header = c.header;
}

pub record ChallengeSpec : Type 0 where
  pub realm : Str
  pub method : Str
  pub intent : Str
  pub request : PaymentRequest
  pub expires : Option Str
  pub digest : Option Str
  pub description : Option Str
  pub identity : Option PricedIdentity

module _ (p : Packages) where
  unfoldable pub encode_jcs : PaymentRequest → Str
  encode_jcs request = p.base64_encode (p.write_object (request_fields request))

  unfoldable pub encode_identity : PricedIdentity → Str
  encode_identity identity = p.base64_encode (p.write_object (identity_fields identity))

  unfoldable pub decode_identity : Str → Option PricedIdentity
  decode_identity encoded = p.base64_decode encoded >>= p.read_identity

  unfoldable pub content_digest : Str → Str
  content_digest body = str "sha-256=:" ++ (p.base64_standard (p.sha256 body) ++ b':' ∷ [])

  unfoldable pub binding_mac : Str → Binding → Str
  binding_mac secret b = p.hmac_sha256 secret (binding_input b)

  unfoldable pub challenge_id : Str → Binding → Str
  challenge_id secret b = p.base64_encode (binding_mac secret b)

  -- The challenge before its identifier is known.
  unfoldable pub unbound : ChallengeSpec → ChallengeParams
  unbound spec = record {
    id = [];
    realm = spec.realm;
    method = spec.method;
    intent = spec.intent;
    request = encode_jcs spec.request;
    expires = spec.expires;
    digest = spec.digest;
    description = spec.description;
    opaque = Option.map encode_identity spec.identity;
    header = some payment_authorization;
  }

  unfoldable pub new_challenge : Str → ChallengeSpec → ChallengeParams
  new_challenge secret spec = record (unbound spec) {
    id = challenge_id secret (binding_of (unbound spec));
  }

  unfoldable pub binding_is_valid : Str → ChallengeParams → Bool
  binding_is_valid secret c =
      is_some_and (p.base64_decode c.id) (λ tag. str_eq (binding_mac secret (binding_of c)) tag)

  unfoldable pub payment_request : ChallengeParams → Option PaymentRequest
  payment_request c = p.base64_decode c.request >>= p.read_request

  unfoldable pub decode_credential : Str × Str → Option Credential
  decode_credential (scheme, encoded) =
      if eq_ignore_ascii_case scheme (str "Payment")
      then p.base64_decode (trim encoded) >>= p.read_credential
      else none

  -- `none` is the error of a malformed credential, the only one that parsing has.
  unfoldable pub parse_credential : Str → Option Credential
  parse_credential value = split_once_space (trim value) >>= decode_credential

  unfoldable pub receipt_fields : Receipt → List (Str × Str)
  receipt_fields r =
      (str "status", r.status)
      ∷ (str "method", r.method)
      ∷ (str "timestamp", r.timestamp)
      ∷ (str "reference", r.reference)
      ∷ []

  unfoldable pub receipt_header_value : Receipt → Str
  receipt_header_value r = p.base64_encode (p.write_object (receipt_fields r))

unfoldable pub new_receipt : Str → Str → Str → Receipt
new_receipt method reference timestamp = record {
  status = str "success";
  method = method;
  timestamp = timestamp;
  reference = reference;
}
