-- ===== src/Edge/Transport/Protected.antt =====
-- crates/mcp-usage-edge/src/transport.rs: the names that the `Connection` header must not list.
use mcp_usage_kit.Edge.Transport.{is_protected}
use mcp_usage_kit.Prelude.{
  ==_iff, Bool, Bool-cases, Str, [], arith, false, inl, inr, is_some, refl, str, str_eq, str_eq_iff,
  strip_prefix, true, ◌++◌, ◌==◌, ◌||◌, ◌↔◌, ◌∷◌, ◌≡◌, ◌≢◌,
}

abbrev Starts : Str → Str → Type 0
Starts prefix name = (rest : Str) × (name ≡ prefix ++ rest)

-- A header that a hop may drop: neither a credential nor what the request is routed or read by, and
-- none of the protocol's or the payment's own.
abbrev pub MayDrop : Str → Type 0
MayDrop name =
    (name ≢ str "authorization")
    × (name ≢ str "x-api-key")
    × (name ≢ str "origin")
    × (name ≢ str "host")
    × (name ≢ str "content-length")
    × (name ≢ str "content-type")
    × ((rest : Str) → name ≢ str "mcp-" ++ rest)
    × ((rest : Str) → name ≢ str "payment-" ++ rest)

strip_prefix-some :
    (prefix name : Str) → is_some (strip_prefix prefix name) ≡ true → Starts prefix name
unfolding strip_prefix
strip_prefix-some [] name h = (name, refl)
strip_prefix-some (p ∷ prefix) [] h = absurd cc
strip_prefix-some (p ∷ prefix) (c ∷ name) h = elim (Bool-cases (p == c)) [
  | inl e ↦
      let (rest, same) = strip_prefix-some prefix name (ground arith) in
      (rest, grind (arith, (==_iff p c).0 e))
  | inr e ↦ absurd (ground arith)
]

strip_prefix-none :
    (prefix name : Str)
    → is_some (strip_prefix prefix name) ≡ false
    → (rest : Str) → name ≢ prefix ++ rest
unfolding strip_prefix
strip_prefix-none [] name h rest e = absurd cc
strip_prefix-none (p ∷ prefix) [] h rest e = absurd cc
strip_prefix-none (p ∷ prefix) (c ∷ name) h rest e =
    strip_prefix-none prefix name (ground arith) rest (ground arith)

not_equal : (s t : Str) → (str_eq s t ≡ false) ↔ (s ≢ t)
not_equal s t = elim (Bool-cases (str_eq s t)) [
  | inl e ↦ (λ f. absurd cc, λ n. absurd (n ((str_eq_iff s t).0 e)))
  | inr e ↦ (λ f same. cc ((str_eq_iff s t).1 same), λ n. e)
]

not_prefixed :
    (prefix name : Str)
    → (is_some (strip_prefix prefix name) ≡ false) ↔ ((rest : Str) → name ≢ prefix ++ rest)
not_prefixed prefix name = elim (Bool-cases (is_some (strip_prefix prefix name))) [
  | inl e ↦
      let (rest, same) = strip_prefix-some prefix name e in
      (λ f. absurd cc, λ n. absurd (n rest same))
  | inr e ↦ (strip_prefix-none prefix name, λ n. e)
]

either_false : (a b : Bool) → (a || b ≡ false) ↔ ((a ≡ false) × (b ≡ false))
either_false true b = (λ h. absurd cc, λ h. absurd cc)
either_false false b = (λ h. (refl, h), λ h. h.1)

pub MayDrop-iff : (name : Str) → (is_protected name ≡ false) ↔ MayDrop name
unfolding is_protected
MayDrop-iff name =
    let mcp = not_prefixed (str "mcp-") name in
    let payment = not_prefixed (str "payment-") name in
    let eq = not_equal name in
    (
      λ h.
          let f : (str_eq name (str "authorization") ≡ false)
              × (str_eq name (str "x-api-key") ≡ false)
              × (str_eq name (str "origin") ≡ false)
              × (str_eq name (str "host") ≡ false)
              × (str_eq name (str "content-length") ≡ false)
              × (str_eq name (str "content-type") ≡ false)
              × (is_some (strip_prefix (str "mcp-") name) ≡ false)
              × (is_some (strip_prefix (str "payment-") name) ≡ false) =
            ground arith in
          (
            (eq (str "authorization")).0 f.0,
            (eq (str "x-api-key")).0 f.1,
            (eq (str "origin")).0 f.2,
            (eq (str "host")).0 f.3,
            (eq (str "content-length")).0 f.4,
            (eq (str "content-type")).0 f.5,
            mcp.0 f.6,
            payment.0 f.7,
          ),
      λ m.
          let a = (eq (str "authorization")).1 m.0 in
          let x = (eq (str "x-api-key")).1 m.1 in
          let o = (eq (str "origin")).1 m.2 in
          let host = (eq (str "host")).1 m.3 in
          let length = (eq (str "content-length")).1 m.4 in
          let kind = (eq (str "content-type")).1 m.5 in
          let c = mcp.1 m.6 in let p = payment.1 m.7 in ground arith,
    )
