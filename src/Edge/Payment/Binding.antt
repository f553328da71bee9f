-- ===== src/Edge/Payment/Binding.antt =====
-- crates/mcp-usage-edge/src/mpp.rs, what the binding of a challenge is computed over.
use mathlib.Core.List.{append_assoc}
use mcp_usage_kit.Edge.Payment.Challenge.{
  Binding, binding_input, header_slot, join_bars, or_empty, slots,
}
use mcp_usage_kit.Prelude.{
  ==_iff, All, Bool-cases, List, Option, Str, [], ap, if◌then◌else◌, inl, inr, refl, some, suc, sym,
  zero, ℕ, ◌++◌, ◌==◌, ◌∙◌, ◌∷◌, ◌≡◌, ◌≢◌,
}

abbrev in_first : ℕ → List Str → List Str
in_first b [] = (b ∷ []) ∷ []
in_first b (s ∷ ss) = (b ∷ s) ∷ ss

-- The texts between the bars.
unfoldable pub split_bars : Str → List Str
split_bars [] = [] ∷ []
split_bars (b ∷ bs) = let rest = split_bars bs in if b == b'|' then [] ∷ rest else in_first b rest

abbrev pub NoBar : Str → Type 0
NoBar s = All (λ b. b ≢ b'|') s

split-text : (s : Str) → NoBar s → split_bars s ≡ s ∷ []
unfolding split_bars
split-text [] n = refl
split-text (b ∷ bs) n = elim (Bool-cases (b == b'|')) [
  | inl bar ↦ absurd (n.0 ((==_iff b b'|').0 bar))
  | inr text ↦ rw (text, split-text bs n.1) refl
]

split-bar : (s t : Str) → NoBar s → split_bars (s ++ (b'|' ∷ t)) ≡ s ∷ split_bars t
unfolding split_bars
split-bar [] t n = refl
split-bar (b ∷ bs) t n = elim (Bool-cases (b == b'|')) [
  | inl bar ↦ absurd (n.0 ((==_iff b b'|').0 bar))
  | inr text ↦ rw (text, split-bar bs t n.1) refl
]

split-join :
    (s : Str) (ss : List Str) → All NoBar (s ∷ ss) → split_bars (join_bars (s ∷ ss)) ≡ s ∷ ss
unfolding join_bars
split-join s [] n = split-text s n.0
split-join s (t ∷ ts) n =
    split-bar s (join_bars (t ∷ ts)) n.0 ∙ ap (λ (rest : List Str). s ∷ rest) (split-join t ts n.1)

join-snoc :
    (s : Str) (ss : List Str) (h : Str)
    → join_bars (s ∷ ss) ++ (b'|' ∷ h) ≡ join_bars (s ∷ (ss ++ h ∷ []))
unfolding join_bars
join-snoc s [] h = refl
join-snoc s (t ∷ ts) h =
    append_assoc s (b'|' ∷ join_bars (t ∷ ts)) (b'|' ∷ h)
    ∙ ap (λ (rest : Str). s ++ (b'|' ∷ rest)) (join-snoc t ts h)

split-input :
    (b : Binding) (header : Str)
    → b.header ≡ some header
    → All NoBar (slots b ++ header ∷ [])
    → split_bars (binding_input b) ≡ slots b ++ header ∷ []
unfolding binding_input slots
split-input b header e n =
    ap (λ (h : Option Str). split_bars (join_bars (slots b) ++ header_slot h)) e
    ∙ ap split_bars (
        join-snoc b.realm
          (b.method
            ∷ b.intent
            ∷ b.request
            ∷ or_empty b.expires
            ∷ or_empty b.digest
            ∷ or_empty b.opaque
            ∷ [])
          header)
    ∙ split-join b.realm
        (b.method
          ∷ b.intent
          ∷ b.request
          ∷ or_empty b.expires
          ∷ or_empty b.digest
          ∷ or_empty b.opaque
          ∷ header
          ∷ [])
        n

-- No field of the binding holds a bar.
abbrev pub BarFree : Binding → Type 0
BarFree b =
    NoBar b.realm
    × NoBar b.method
    × NoBar b.intent
    × NoBar b.request
    × NoBar (or_empty b.expires)
    × NoBar (or_empty b.digest)
    × NoBar (or_empty b.opaque)

BarFree-slots : (b : Binding) (h : Str) → BarFree b → NoBar h → All NoBar (slots b ++ h ∷ [])
unfolding slots
BarFree-slots b h (r, m, i, q, e, d, o) n = (r, (m, (i, (q, (e, (d, (o, (n, tt))))))))

abbrev nth : ℕ → List Str → Str
nth k [] = []
nth zero (s ∷ ss) = s
nth (suc k) (s ∷ ss) = nth k ss

-- The input of a binding says what stands in each field, as long as no field holds a bar: two
-- bindings with a header and the same input agree on the realm, the method, the intent, the request
-- and the header, and on the expiry, the digest and the opaque state with an absent one read as
-- empty.
pub binding_input-injective :
    (a b : Binding) (h k : Str)
    → a.header ≡ some h
    → b.header ≡ some k
    → BarFree a
    → BarFree b
    → NoBar h
    → NoBar k
    → binding_input a ≡ binding_input b
    → (a.realm ≡ b.realm)
      × (a.method ≡ b.method)
      × (a.intent ≡ b.intent)
      × (a.request ≡ b.request)
      × (or_empty a.expires ≡ or_empty b.expires)
      × (or_empty a.digest ≡ or_empty b.digest)
      × (or_empty a.opaque ≡ or_empty b.opaque)
      × (h ≡ k)
unfolding slots
binding_input-injective a b h k e f n m hn km same =
    let lists : slots a ++ h ∷ [] ≡ slots b ++ k ∷ [] =
      sym (split-input a h e (BarFree-slots a h n hn))
      ∙ ap split_bars same
      ∙ split-input b k f (BarFree-slots b k m km) in
    (
      ap (nth 0) lists,
      ap (nth 1) lists,
      ap (nth 2) lists,
      ap (nth 3) lists,
      ap (nth 4) lists,
      ap (nth 5) lists,
      ap (nth 6) lists,
      ap (nth 7) lists,
    )
