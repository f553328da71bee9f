-- ===== src/Core/Legacy/Target.antt =====
-- What legacy.rs accepts as a call, and where it reads the target from.
use mcp_usage_kit.Core.Json
use mcp_usage_kit.Core.Method
use mcp_usage_kit.Core.Json.{Value}
use mcp_usage_kit.Core.Legacy.{classify_body, classify_method, is_resources_read, ok, target}
use mcp_usage_kit.Core.Method.{Method}
use mcp_usage_kit.Core.Method.Classes.{as_str-parse}
use mcp_usage_kit.Prelude.{
  Bool-cases, Option, Option-cases, Str, arith, false, inl, inr, is_some, none, refl, some, str,
  true, ◌>>=◌, ◌↔◌, ◌≡◌, ◌≢◌,
}

-- The string at a path of a document.
abbrev pub text_at : Value → Str → Option Str
text_at v key = Json.get v key >>= Json.as_str

-- The target that a method's call must name: `params.uri` for `resources/read`, `params.name` for
-- the other two methods that carry a name, and none for the rest.
pub data Names (value : Value) (method : Method) (name : Option Str) : Type 0 where
  by_uri :
      (params : Value)
      → method ≡ Method.resources_read
      → Json.get value (str "params") ≡ some params
      → is_some name ≡ true
      → text_at params (str "uri") ≡ name
      → Names value method name
  by_name :
      (params : Value)
      → Method.carries_name method ≡ true
      → method ≢ Method.resources_read
      → Json.get value (str "params") ≡ some params
      → is_some name ≡ true
      → text_at params (str "name") ≡ name
      → Names value method name
  nameless : Method.carries_name method ≡ false → name ≡ none → Names value method name

is_resources_read_iff : (m : Method) → (is_resources_read m ≡ true) ↔ (m ≡ Method.resources_read)
is_resources_read_iff m = ground arith

target-Names :
    (value : Value) (method : Method) (name : Str)
    → Method.carries_name method ≡ true
    → target value method ≡ some name
    → Names value method (some name)
unfolding target
target-Names value method name c h = elim (Option-cases (Json.get value (str "params"))) [
  | inl e ↦ absurd (ground arith)
  | inr (params, e) ↦ elim (Bool-cases (is_resources_read method)) [
    | inl r ↦ by_uri params ((is_resources_read_iff method).0 r) e refl (ground arith)
    | inr r ↦ by_name params c (ground arith) e refl (ground arith)
  ]
]

classify_method-ok :
    (value : Value) (m method : Method) (name : Option Str)
    → classify_method value m ≡ ok method name
    → (m ≡ method) × Names value method name
unfolding classify_method
classify_method-ok value m method none h = (ground arith, nameless (ground arith) refl)
classify_method-ok value m method (some name) h =
    (ground arith, target-Names value method name (ground arith) (ground arith))

-- A body is classified only if it is an object whose `method` member is the method's wire string,
-- and the target is read from the one field of `params` that the method uses, so the priced name
-- is the one in the document that the origin executes.
pub classify_body-ok :
    (value : Value) (method : Method) (name : Option Str)
    → classify_body (some value) ≡ ok method name
    → (text_at value (str "method") ≡ some (Method.as_str method)) × Names value method name
unfolding classify_body
classify_body-ok value method name h = elim (Option-cases (text_at value (str "method"))) [
  | inl e ↦ absurd (ground arith)
  | inr (raw, e) ↦
      let c : classify_method value (Method.parse raw) ≡ ok method name = ground arith in
      let (same, names) = classify_method-ok value (Method.parse raw) method name c in
      (cc (e, same, as_str-parse raw), names)
]
