-- ===== src/Core/Name/Tests.antt =====
-- The sentinel form with a stand-in for the Base64 engine, which encodes a text by itself.
use mcp_usage_kit.Core.Name.{Base64, borrowed, decode, encode, owned, strip_suffix}
use mcp_usage_kit.Core.Name.RoundTrip.{decode-encode}
use mcp_usage_kit.Prelude.{
  Str, [], from_utf8, is_utf8_from, none, refl, some, str, str_eq, strip_prefix, utf8_lead,
  utf8_step, ◌∷◌, ◌≡◌,
}

abbrev verbatim : Base64
verbatim = record { encode = λ s. s; decode = λ s. some s; decode_of_encode = λ s. refl }

partial_marker : decode verbatim (str "=?base64?SGVsbG8=") ≡ borrowed (str "=?base64?SGVsbG8=")
unfolding decode strip_prefix strip_suffix str_eq
partial_marker = refl

stray_byte : from_utf8 (0xff ∷ []) ≡ none
unfolding from_utf8 is_utf8_from utf8_step utf8_lead
stray_byte = refl

-- The two characters of the specification's example, in UTF-8.
abbrev world : Str
world = 0xe4 ∷ 0xb8 ∷ 0x96 ∷ 0xe7 ∷ 0x95 ∷ 0x8c ∷ []

decode-encode_example : decode verbatim (encode verbatim world) ≡ owned world
decode-encode_example =
    decode-encode verbatim world (unfold from_utf8 is_utf8_from utf8_step utf8_lead in refl)
