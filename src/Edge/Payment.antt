-- ===== src/Edge/Payment.antt =====
-- crates/mcp-usage-edge/src/mpp.rs: the `Payment` scheme. Here are its errors and its data; the
-- children have the challenge, the credential and its verification. The packages that it builds on
-- (Base64, HMAC, SHA-256 and the JSON reader and writer) are one record of functions.
pub mod Challenge
pub mod Verify
pub mod Redeem
pub mod Binding
pub mod History
pub mod Once
mod Taken
mod Tests
use mcp_usage_kit.Core.Json.{Value}
use mcp_usage_kit.Core.Peek.{request}
use mcp_usage_kit.Prelude.{List, Option, Str, [], some, str, ◌++◌, ◌∷◌, ◌≡◌}

pub data PaymentError : Type 0 where
  required malformed invalid_challenge expired digest_mismatch method_unsupported : PaymentError
  verification_failed not_settled unavailable insufficient : PaymentError

abbrev pub problem_base : Str
problem_base = str "https://paymentauth.org/problems/"

unfoldable pub problem_code : PaymentError → Str
problem_code required = str "payment-required"
problem_code malformed = str "malformed-credential"
problem_code digest_mismatch = str "malformed-credential"
problem_code invalid_challenge = str "invalid-challenge"
problem_code expired = str "payment-expired"
problem_code method_unsupported = str "method-unsupported"
problem_code verification_failed = str "verification-failed"
problem_code not_settled = str "verification-failed"
problem_code unavailable = str "verification-failed"
problem_code insufficient = str "payment-insufficient"

unfoldable pub problem_type : PaymentError → Str
problem_type error = problem_base ++ problem_code error

unfoldable pub title : PaymentError → Str
title required = str "Payment required"
title malformed = str "Malformed payment credential"
title invalid_challenge = str "Invalid challenge"
title expired = str "Payment challenge expired"
title digest_mismatch = str "Request body does not match the challenge"
title method_unsupported = str "Unsupported payment method"
title verification_failed = str "Payment verification failed"
title not_settled = str "Payment verification failed"
title unavailable = str "Payment verification unavailable"
title insufficient = str "Payment insufficient"

pub record PaymentRequest : Type 0 where
  pub amount : Str
  pub currency : Str
  pub recipient : Str

pub record ChallengeParams : Type 0 where
  pub id : Str
  pub realm : Str
  pub method : Str
  pub intent : Str
  pub request : Str
  pub expires : Option Str
  pub digest : Option Str
  pub description : Option Str
  pub opaque : Option Str
  pub header : Option Str

pub record PricedIdentity : Type 0 where
  pub tenant : Str
  pub method : Str
  pub name : Str
  pub nonce : Str

pub record Credential : Type 0 where
  pub challenge : ChallengeParams
  pub source : Option Str
  pub payload : Value

pub record Receipt : Type 0 where
  pub status : Str
  pub method : Str
  pub timestamp : Str
  pub reference : Str

-- The packages: URL-safe and standard Base64, HMAC-SHA-256 under a key, SHA-256, an object of texts
-- as JSON, and what JSON reads as each of the types that the scheme decodes.
pub record Packages : Type 0 where
  pub base64_encode : Str → Str
  pub base64_decode : Str → Option Str
  pub base64_standard : Str → Str
  pub hmac_sha256 : Str → Str → Str
  pub sha256 : Str → Str
  pub write_object : List (Str × Str) → Str
  pub read_request : Str → Option PaymentRequest
  pub read_identity : Str → Option PricedIdentity
  pub read_credential : Str → Option Credential

-- The texts of a request and of an identity, by the order of their keys.
unfoldable pub request_fields : PaymentRequest → List (Str × Str)
request_fields r =
    (str "amount", r.amount) ∷ (str "currency", r.currency) ∷ (str "recipient", r.recipient) ∷ []

unfoldable pub identity_fields : PricedIdentity → List (Str × Str)
identity_fields i =
    (str "method", i.method)
    ∷ (str "name", i.name)
    ∷ (str "nonce", i.nonce)
    ∷ (str "tenant", i.tenant)
    ∷ []

-- What the packages document: decoding and reading give back what was encoded and written.
pub record Documented (p : Packages) : Type 0 where
  pub base64_back : (s : Str) → p.base64_decode (p.base64_encode s) ≡ some s
  pub request_back :
      (r : PaymentRequest) → p.read_request (p.write_object (request_fields r)) ≡ some r
  pub identity_back :
      (i : PricedIdentity) → p.read_identity (p.write_object (identity_fields i)) ≡ some i
