-- ===== src/Core/Name.antt =====
-- crates/mcp-usage-core/src/name.rs: decoding the `Mcp-Name` header value. The Base64 engine is a
-- package of its own, and stands here as an interface with the one law that the code relies on.
pub mod RoundTrip
mod Tests
use mcp_usage_kit.Prelude.{
  Bool, Option, Str, [], from_utf8, if◌then◌else◌, is_some_and, none, some, str, str_eq,
  strip_prefix, ℕ, ◌++◌, ◌||◌, ◌∷◌, ◌≡◌,
}

abbrev pub sentinel_prefix : Str
sentinel_prefix = str "=?base64?"

abbrev pub sentinel_suffix : Str
sentinel_suffix = str "?="

-- `base64::engine::general_purpose::STANDARD`.
pub record Base64 : Type 0 where
  pub encode : Str → Str
  pub decode : Str → Option Str
  pub decode_of_encode : (bytes : Str) → decode (encode bytes) ≡ some bytes

pub data NameError : Type 0 where
  not_base64 not_utf8 : NameError

-- `Ok` of a borrowed or an owned text, or an error.
pub data Decoded : Type 0 where
  borrowed owned : Str → Decoded
  failed : NameError → Decoded

abbrev pub put_front : ℕ → Option Str → Option Str
put_front c none = none
put_front c (some s) = some (c ∷ s)

unfoldable pub strip_suffix : Str → Str → Option Str
strip_suffix suffix [] = if str_eq [] suffix then some [] else none
strip_suffix suffix (c ∷ cs) =
    let rest = strip_suffix suffix cs in
    if str_eq (c ∷ cs) suffix then some [] else put_front c rest

-- `str::ends_with`.
unfoldable pub ends_with : Str → Str → Bool
ends_with suffix [] = str_eq [] suffix
ends_with suffix (c ∷ cs) = str_eq (c ∷ cs) suffix || ends_with suffix cs

module _ (base64 : Base64) where
  unfoldable pub decode_payload : Str → Decoded
  decode_payload payload = elim (base64.decode payload) [
    | none ↦ failed not_base64
    | some bytes ↦ elim (from_utf8 bytes) [ none ↦ failed not_utf8 | some text ↦ owned text ]
  ]

  unfoldable pub decode : Str → Decoded
  unfolding decode_payload
  decode raw = elim (strip_prefix sentinel_prefix raw) [
    | none ↦ borrowed raw
    | some rest ↦ elim (strip_suffix sentinel_suffix rest) [
      | none ↦ borrowed raw
      | some payload ↦ decode_payload payload
    ]
  ]

  unfoldable pub encode : Str → Str
  encode value = sentinel_prefix ++ (base64.encode value ++ sentinel_suffix)

unfoldable pub is_sentinel : Str → Bool
is_sentinel raw = is_some_and (strip_prefix sentinel_prefix raw) (ends_with sentinel_suffix)
