-- ===== src/Tower/Inspect/Keyed.antt =====
-- crates/mcp-usage-tower/src/cache.rs, `logical_key`: which requests share a cache key.
use mcp_usage_kit.Core.Method
use mcp_usage_kit.Core.Peek
use mcp_usage_kit.Core.Charge.{Call}
use mcp_usage_kit.Core.Json.{Value}
use mcp_usage_kit.Core.Method.{Method}
use mcp_usage_kit.Core.Method.Classes.{IsCanonical, parse-as_str}
use mcp_usage_kit.Prelude.{
  Bool, Bool-cases, Option, Option-cases, Str, [], ap, arith, false, if◌then◌else◌, inl, inr, not,
  refl, some, sym, true, ◌&&◌, ◌++◌, ◌==◌, ◌∙◌, ◌∷◌, ◌≡◌,
}
use mcp_usage_kit.Tower.Inspect.{
  LeanRequest, cache_key_of, from_lean, inspect_request, inspect_whole_body, inspect_with, is_keyed,
  logical_input, logical_key, params_text,
}

-- The text before its first zero byte, and the text after that byte.
abbrev cut : Str → Str × Str
cut [] = ([], [])
cut (b ∷ bs) = let rest = cut bs in if b == 0 then ([], bs) else (b ∷ rest.0, rest.1)

abbrev zero_free : Str → Bool
zero_free [] = true
zero_free (b ∷ bs) = not (b == 0) && zero_free bs

cut-append : (a t : Str) → zero_free a ≡ true → cut (a ++ 0 ∷ t) ≡ (a, t)
cut-append [] t h = refl
cut-append (b ∷ bs) t h =
    let apart : (b == 0) ≡ false = ground (arith, h) in
    let free : zero_free bs ≡ true = ground (arith, h) in rw (apart, cut-append bs t free) refl

same_parts :
    (a b s t : Str)
    → zero_free a ≡ true
    → zero_free b ≡ true
    → a ++ 0 ∷ s ≡ b ++ 0 ∷ t
    → (a ≡ b) × (s ≡ t)
same_parts a b s t h k e =
    let parts : (a, s) ≡ (b, t) = sym (cut-append a s h) ∙ ap cut e ∙ cut-append b t k in
    (ap (λ (p : Str × Str). p.0) parts, ap (λ (p : Str × Str). p.1) parts)

cacheable-zero_free :
    (m : Method) → Method.is_cacheable m ≡ true → zero_free (Method.as_str m) ≡ true
unfolding Method.is_cacheable Method.as_str
cacheable-zero_free Method.server_discover h = refl
cacheable-zero_free Method.tools_list h = refl
cacheable-zero_free Method.prompts_list h = refl
cacheable-zero_free Method.resources_list h = refl
cacheable-zero_free Method.resources_templates_list h = refl
cacheable-zero_free Method.resources_read h = refl
cacheable-zero_free (Method.other s) h = absurd cc
cacheable-zero_free _ h = absurd cc

cacheable-IsCanonical : (m : Method) → Method.is_cacheable m ≡ true → IsCanonical m
unfolding Method.is_cacheable
cacheable-IsCanonical Method.server_discover h = tt
cacheable-IsCanonical Method.tools_list h = tt
cacheable-IsCanonical Method.prompts_list h = tt
cacheable-IsCanonical Method.resources_list h = tt
cacheable-IsCanonical Method.resources_templates_list h = tt
cacheable-IsCanonical Method.resources_read h = tt
cacheable-IsCanonical (Method.other s) h = absurd cc
cacheable-IsCanonical _ h = absurd cc

same_method :
    (a b : Method)
    → Method.is_cacheable a ≡ true
    → Method.is_cacheable b ≡ true
    → Method.as_str a ≡ Method.as_str b
    → a ≡ b
same_method a b h k e =
    sym (parse-as_str a (cacheable-IsCanonical a h))
    ∙ ap Method.parse e
    ∙ parse-as_str b (cacheable-IsCanonical b k)

-- What a request with a key is.
record Question (sha256 : Str → Str) (write : Value → Str) (call : Call) (body : Value) (key : Str)
    : Type 0 where
  cacheable : Method.is_cacheable call.method ≡ true
  fresh : (Peek.request body).is_continuation ≡ false
  keyed : key ≡ sha256 (logical_input write call.method body)

module _ (sha256 : Str → Str) (write : Value → Str) where
  keyed-Question :
      (call : Call) (body : Value) (key : Str)
      → cache_key_of sha256 write call (some body) ≡ some key
      → Question sha256 write call body key
  unfolding cache_key_of is_keyed logical_key
  keyed-Question call body key e = elim (Bool-cases (is_keyed sha256 write call body)) [
    | inl is_keyed_ ↦ record { cacheable = ground arith; fresh = ground arith; keyed = grind arith }
    | inr not_keyed ↦ absurd (grind arith)
  ]

  -- The narrow parse gives no key.
  inspected_key :
      (from_json : Str → Option Value) (read_lean : Str → Option LeanRequest) (call : Call)
      (bytes : Str) (body : Value) (key : Str)
      → from_json bytes ≡ some body
      → (inspect_request sha256 write from_json read_lean call bytes).cache_key ≡ some key
      → cache_key_of sha256 write call (some body) ≡ some key
  unfolding inspect_request inspect_with inspect_whole_body from_lean
  inspected_key from_json read_lean call bytes body key parsed e =
      elim (Bool-cases (Method.is_cacheable call.method)) [
        | inl cacheable ↦ grind arith
        | inr not_cacheable ↦ elim (Option-cases (read_lean bytes)) [
          | inl wide ↦ grind arith
          | inr (lean, narrow) ↦ absurd (grind arith)
        ]
      ]

-- Requests that share a cache key ask the same: with a hash that has no collisions, two requests whose
-- bytes parse to documents and that have one key have the same cacheable method and the same text of their parameters, and neither
-- continues an earlier request.
pub cache_key_same :
    (sha256 : Str → Str) (write : Value → Str) (from_json : Str → Option Value)
    (read_lean : Str → Option LeanRequest) (a b : Call) (first_bytes second_bytes : Str)
    (first second : Value) (key : Str)
    → ((s t : Str) → sha256 s ≡ sha256 t → s ≡ t)
    → from_json first_bytes ≡ some first
    → from_json second_bytes ≡ some second
    → (inspect_request sha256 write from_json read_lean a first_bytes).cache_key ≡ some key
    → (inspect_request sha256 write from_json read_lean b second_bytes).cache_key ≡ some key
    → (a.method ≡ b.method)
      × (params_text write first ≡ params_text write second)
      × ((Peek.request first).is_continuation ≡ false)
      × ((Peek.request second).is_continuation ≡ false)
cache_key_same sha256 write from_json read_lean a b first_bytes second_bytes first second key
      collision_free parsed parsed_too e k =
    let p =
      keyed-Question sha256 write a first key
        (inspected_key sha256 write from_json read_lean a first_bytes first key parsed e) in
    let q =
      keyed-Question sha256 write b second key
        (inspected_key sha256 write from_json read_lean b second_bytes second key parsed_too k) in
    let inputs = collision_free _ _ (sym p.keyed ∙ q.keyed) in
    let same =
      same_parts (Method.as_str a.method) (Method.as_str b.method) (params_text write first)
        (params_text write second) (cacheable-zero_free a.method p.cacheable)
        (cacheable-zero_free b.method q.cacheable) (unfold logical_input in inputs) in
    (same_method a.method b.method p.cacheable q.cacheable same.0, same.1, p.fresh, q.fresh)
