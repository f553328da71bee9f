-- ===== src/Tower/Classify/Trust.antt =====
-- When headers price a request, and when its body does.
use mcp_usage_kit.Core.Method
use mcp_usage_kit.Core.Name
use mcp_usage_kit.Core.Charge.{Call}
use mcp_usage_kit.Core.Method.{Method}
use mcp_usage_kit.Core.Name.{Base64}
use mcp_usage_kit.Core.Version.{
  TrustFailure, Validation, assess, invalid, is_trusted, valid, valid_date, validate_header,
}
use mcp_usage_kit.Prelude.{
  Bool, Bool-cases, List, Option, Str, [], ap, arith, false, inl, inr, is_some, is_some_and, none,
  not, refl, some, true, ◌&&◌, ◌||◌, ◌∙◌, ◌∷◌, ◌≡◌, ◌⊎◌,
}
use mcp_usage_kit.Tower.Classify.{
  ClassificationError, Headers, ProtocolHeaders, and_then, classify_method_header,
  classify_protocol_headers, classify_request_headers, classify_trust, classify_validated,
  decode_name, from_body, from_headers, is_malformed, method_header, name_header, named,
  optional_header_str, protocol_version_header, trusted_call, unique_header, visible,
}

and_then-inr {ℓ κ μ} :
    {E : Type ℓ} {A : Type κ} {B : Type μ} (x : E ⊎ A) (f : A → E ⊎ B) (b : B)
    → and_then x f ≡ inr b
    → (a : A) × (x ≡ inr a) × (f a ≡ inr b)
and_then-inr (inl error) f b h = absurd (ground arith)
and_then-inr (inr a) f b h = (a, refl, h)

pub Values-cases {ℓ} :
    {A : Type ℓ} (xs : List A)
    → (xs ≡ []) ⊎ ((x : A) × (xs ≡ x ∷ [])) ⊎ ((x y : A) × (ys : List A) × (xs ≡ x ∷ y ∷ ys))
Values-cases [] = inl refl
Values-cases (x ∷ []) = inr (inl (x, refl))
Values-cases (x ∷ y ∷ ys) = inr (inr (x, y, ys, refl))

pub Named-cases {ℓ κ} :
    {E : Type ℓ} {A : Type κ} (x : E ⊎ A)
    → ((error : E) × (x ≡ inl error)) ⊎ ((a : A) × (x ≡ inr a))
Named-cases (inl error) = inl (error, refl)
Named-cases (inr a) = inr (a, refl)

Validation-cases :
    (v : Validation) → (v ≡ valid) ⊎ ((failure : TrustFailure) × (v ≡ invalid failure))
Validation-cases valid = inl refl
Validation-cases (invalid failure) = inr (failure, refl)

assess-valid : (v : Str) → validate_header (some v) ≡ valid → is_trusted (assess (some v)) ≡ true
unfolding assess validate_header is_trusted
assess-valid v e = ground arith

-- A header that is read is given once, as visible text.
optional-facts :
    (headers : Headers) (name : Str) (t : Str)
    → optional_header_str headers name ≡ inr (some t)
    → headers name ≡ some t ∷ []
unfolding optional_header_str unique_header visible
optional-facts headers name t h = elim (Values-cases (headers name)) [
  | inl e ↦ absurd (ground arith)
  | inr (inl (none, e)) ↦ absurd (ground arith)
  | inr (inl (some v, e)) ↦ ground arith
  | inr (inr (v, w, more, e)) ↦ absurd (ground arith)
]

module _ (base64 : Base64) where
  decode_name-facts :
      (method : Method) (name : Option Str) (classified : ProtocolHeaders)
      → decode_name base64 method name ≡ inr classified
      → (classified.method ≡ method) × (is_some classified.name ≡ is_some name)
  unfolding decode_name
  decode_name-facts method none classified h = ground arith
  decode_name-facts method (some raw) classified h =
      elim (Named-cases (named base64 (Name.decode base64 raw))) [
        | inl (error, e) ↦ absurd (ground arith)
        | inr (text, e) ↦ (ground arith, ground arith)
      ]

  method-facts :
      (method name : Option Str) (call : Call)
      → trusted_call base64 (classify_method_header base64 method name) ≡ inr (from_headers call)
      → (raw : Str) × (method ≡ some raw)
        × (call.method ≡ Method.parse raw)
        × ((not (Method.carries_name call.method) || is_some call.name) ≡ true)
  unfolding trusted_call classify_method_header
  method-facts none name call h = absurd (ground arith)
  method-facts (some raw) name call h =
      let given = decode_name base64 (Method.parse raw) name in
      elim (Bool-cases (Method.carries_name (Method.parse raw) && not (is_some name))) [
        | inl e ↦ absurd (ground arith)
        | inr e ↦ elim (Named-cases given) [
          | inl (error, f) ↦ absurd (ground arith)
          | inr (classified, f) ↦
              let (m, n) = decode_name-facts (Method.parse raw) name classified f in
              (raw, refl, ground arith, ground arith)
        ]
      ]

  trust-facts :
      (strict : Bool) (version method name : Option Str) (call : Call)
      → classify_trust base64 strict
          (validate_header version)
          (classify_protocol_headers base64 version method name)
        ≡ inr (from_headers call)
      → (v raw : Str) × (version ≡ some v)
        × (is_trusted (assess (some v)) ≡ true)
        × (method ≡ some raw)
        × (call.method ≡ Method.parse raw)
        × ((not (Method.carries_name call.method) || is_some call.name) ≡ true)
  unfolding classify_trust classify_protocol_headers classify_validated
  trust-facts strict none method name call h = unfold validate_header in absurd (ground arith)
  trust-facts strict (some v) method name call h =
      elim (Validation-cases (validate_header (some v))) [
        | inl e ↦
            let (raw, m, p, c) = method-facts method name call (ground arith) in
            (v, raw, refl, assess-valid v e, m, p, c)
        | inr (failure, e) ↦ absurd (ground arith)
      ]

  body-facts :
      (strict : Bool) (version : Option Str) (classified : ClassificationError ⊎ ProtocolHeaders)
      → classify_trust base64 strict (validate_header version) classified ≡ inr from_body
      → (strict ≡ false)
        × (is_trusted (assess version) ≡ false)
        × (is_some_and version (λ v. not (valid_date v)) ≡ false)
  unfolding classify_trust trusted_call is_malformed validate_header assess is_trusted
  body-facts strict none classified h = ground arith
  body-facts strict (some v) (inl error) h = ground arith
  body-facts strict (some v) (inr headers) h = ground arith

  -- A request is priced from its headers only if they say a protocol version, once and as visible
  -- text, whose revision obliges the origin to reject headers that disagree with the body; the
  -- method is then the one that the headers say, and a method that carries a name has one.
  pub classify-from_headers :
      (headers : Headers) (strict : Bool) (call : Call)
      → classify_request_headers base64 headers strict ≡ inr (from_headers call)
      → (version raw : Str) × (headers protocol_version_header ≡ some version ∷ [])
        × (is_trusted (assess (some version)) ≡ true)
        × (headers method_header ≡ some raw ∷ [])
        × (call.method ≡ Method.parse raw)
        × ((not (Method.carries_name call.method) || is_some call.name) ≡ true)
  unfolding classify_request_headers
  classify-from_headers headers strict call h =
      let (version, hv, h1) =
        and_then-inr (optional_header_str headers protocol_version_header) _ _ h in
      let (method, hm, h2) = and_then-inr (optional_header_str headers method_header) _ _ h1 in
      let (name, hn, h3) = and_then-inr (optional_header_str headers name_header) _ _ h2 in
      let (v, raw, ev, t, em, p, c) = trust-facts strict version method name call h3 in
      (
        v,
        raw,
        optional-facts headers protocol_version_header v (hv ∙ ap inr ev),
        t,
        optional-facts headers method_header raw (hm ∙ ap inr em),
        p,
        c,
      )

  -- A request is priced from its body only where the deployment serves old revisions, and only if
  -- its version header is missing or names an old revision: never a malformed one.
  pub classify-from_body :
      (headers : Headers) (strict : Bool)
      → classify_request_headers base64 headers strict ≡ inr from_body
      → (strict ≡ false)
        × (version : Option Str) × (optional_header_str headers protocol_version_header
            ≡ inr version)
        × (is_trusted (assess version) ≡ false)
        × (is_some_and version (λ v. not (valid_date v)) ≡ false)
  unfolding classify_request_headers
  classify-from_body headers strict h =
      let (version, hv, h1) =
        and_then-inr (optional_header_str headers protocol_version_header) _ _ h in
      let (method, hm, h2) = and_then-inr (optional_header_str headers method_header) _ _ h1 in
      let (name, hn, h3) = and_then-inr (optional_header_str headers name_header) _ _ h2 in
      let (s, t, d) =
        body-facts strict version (classify_protocol_headers base64 version method name) h3 in
      (s, version, hv, t, d)
