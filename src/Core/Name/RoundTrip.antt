-- ===== src/Core/Name/RoundTrip.antt =====
-- The sentinel form of name.rs is unambiguous and survives the round trip.
use mcp_usage_kit.Core.Name.{
  Base64, borrowed, decode, encode, ends_with, is_sentinel, owned, sentinel_prefix, sentinel_suffix,
  strip_suffix,
}
use mcp_usage_kit.Prelude.{
  Bool-cases, Option-cases, Str, [], ap, arith, false, from_utf8, inl, inr, is_some, length,
  length-append, refl, some, str_eq, str_eq_iff, strip_prefix, ℕ, ◌++◌, ◌↔◌, ◌∷◌, ◌≡◌,
}

strip_prefix-append : (p s : Str) → strip_prefix p (p ++ s) ≡ some s
unfolding strip_prefix
strip_prefix-append [] s = refl
strip_prefix-append (c ∷ p) s = ground (arith, strip_prefix-append p s)

suffix_longer : (c : ℕ) (cs suffix : Str) → str_eq (c ∷ (cs ++ suffix)) suffix ≡ false
suffix_longer c cs suffix = elim (Bool-cases (str_eq (c ∷ (cs ++ suffix)) suffix)) [
  | inl e ↦ absurd (omega (arith, ap length ((str_eq_iff _ _).0 e), length-append cs suffix))
  | inr e ↦ e
]

strip_suffix_self : (suffix : Str) → strip_suffix suffix suffix ≡ some []
unfolding strip_suffix
strip_suffix_self [] = ground (arith, str_eq_iff [] [])
strip_suffix_self (c ∷ cs) = rw ((str_eq_iff (c ∷ cs) (c ∷ cs)).1 refl)

strip_suffix-append : (s suffix : Str) → strip_suffix suffix (s ++ suffix) ≡ some s
unfolding strip_suffix
strip_suffix-append [] suffix = strip_suffix_self suffix
strip_suffix-append (c ∷ s) suffix = rw (suffix_longer c s suffix, strip_suffix-append s suffix)

ends_with-strip_suffix : (suffix s : Str) → ends_with suffix s ≡ is_some (strip_suffix suffix s)
unfolding ends_with strip_suffix
ends_with-strip_suffix suffix [] = ground arith
ends_with-strip_suffix suffix (c ∷ cs) = ground (arith, ends_with-strip_suffix suffix cs)

module _ (base64 : Base64) where
  -- Every text, whether or not it looks like the sentinel itself, comes back from its encoding.
  pub decode-encode :
      (value : Str)
      → from_utf8 value ≡ some value
      → decode base64 (encode base64 value) ≡ owned value
  unfolding decode encode
  decode-encode value utf8 = ground (
    arith,
    strip_prefix-append sentinel_prefix (base64.encode value ++ sentinel_suffix),
    strip_suffix-append (base64.encode value) sentinel_suffix,
    base64.decode_of_encode value,
  )

  -- A value is passed through untouched exactly when it does not wear the complete sentinel.
  pub decode-borrowed_iff :
      (raw : Str) → (decode base64 raw ≡ borrowed raw) ↔ (is_sentinel raw ≡ false)
  unfolding decode is_sentinel
  decode-borrowed_iff raw = elim (Option-cases (strip_prefix sentinel_prefix raw)) [
    | inl e ↦ (λ h. ground arith, λ h. ground arith)
    | inr (rest, e) ↦
        let same = ends_with-strip_suffix sentinel_suffix rest in
        (λ h. ground arith, λ h. ground arith)
  ]
