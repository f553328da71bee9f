-- ===== src/Tower/Credential/Single.antt =====
-- A request is authenticated by exactly one credential.
use mcp_usage_kit.Prelude.{
  ==_iff, All, Bool-cases, Option, Option-cases, Str, [], ap, arith, eq_ignore_ascii_case, inl, inr,
  map, none, refl, some, str, to_ascii_lowercase, true, ℕ, ◌++◌, ◌==◌, ◌∙◌, ◌∷◌, ◌≡◌, ◌≢◌, ◌⊎◌,
}
use mcp_usage_kit.Tower.Classify.{Headers, unique_header}
use mcp_usage_kit.Tower.Classify.Trust.{Named-cases, Values-cases}
use mcp_usage_kit.Tower.Credential.{
  CredentialError, api_key_header, authorization_header, bearer_token, choose_credential,
  extract_api_key, non_empty, or_invalid, prepend, split_once_space, trim_start_spaces,
}

unique-facts :
    (headers : Headers) (name : Str) (v : Option (Option Str))
    → unique_header headers name ≡ inr v
    → ((v ≡ none) × (headers name ≡ []))
      ⊎ ((x : Option Str) × (v ≡ some x) × (headers name ≡ x ∷ []))
unfolding unique_header
unique-facts headers name v h = elim (Values-cases (headers name)) [
  | inl e ↦ inl (ground arith, e)
  | inr (inl (x, e)) ↦ inr (x, ground arith, e)
  | inr (inr (x, y, ys, e)) ↦ absurd (ground arith)
]

-- An authorization of the bearer scheme, written in any case, with a key after one or more spaces.
abbrev pub IsBearer : Str → Str → Type 0
IsBearer value key =
    (scheme : Str) × (spaces : Str) × (value ≡ scheme ++ (b' ' ∷ (spaces ++ key)))
    × (map to_ascii_lowercase scheme ≡ str "bearer")
    × All (λ b. b ≡ b' ') spaces
    × ((rest : Str) → key ≢ b' ' ∷ rest)

prepend-some :
    (b : ℕ) (found : Option (Str × Str)) (before after : Str)
    → prepend b found ≡ some (before, after)
    → (early : Str) × (found ≡ some (early, after)) × (before ≡ b ∷ early)
prepend-some b none before after h = absurd cc
prepend-some b (some (early, late)) before after h = (early, cc, cc)

split_once_space-joined :
    (value before after : Str)
    → split_once_space value ≡ some (before, after)
    → value ≡ before ++ (b' ' ∷ after)
unfolding split_once_space
split_once_space-joined [] before after h = absurd cc
split_once_space-joined (b ∷ bs) before after h = elim (Bool-cases (b == b' ')) [
  | inl e ↦ ground (arith, (==_iff b b' ').0 e)
  | inr e ↦
      let (early, found, same) = prepend-some b (split_once_space bs) before after (ground arith) in
      let rest = split_once_space-joined bs early after found in cc
]

trim_start_spaces-facts :
    (text : Str)
    → (spaces : Str) × (text ≡ spaces ++ trim_start_spaces text)
      × All (λ b. b ≡ b' ') spaces
      × ((rest : Str) → trim_start_spaces text ≢ b' ' ∷ rest)
unfolding trim_start_spaces
trim_start_spaces-facts [] = ([], refl, tt, λ rest e. cc)
trim_start_spaces-facts (b ∷ bs) = elim (Bool-cases (b == b' ')) [
  | inl e ↦
      let (spaces, same, blank, bare) = trim_start_spaces-facts bs in
      rw e (b ∷ spaces, ap (λ (t : Str). b ∷ t) same, ((==_iff b b' ').0 e, blank), bare)
  | inr e ↦ rw e ([], refl, tt, λ rest same. ground (arith, (==_iff b b' ').1))
]

same_lowercase :
    (s t : Str)
    → eq_ignore_ascii_case s t ≡ true
    → map to_ascii_lowercase s ≡ map to_ascii_lowercase t
unfolding eq_ignore_ascii_case
same_lowercase [] [] h = refl
same_lowercase [] (y ∷ ys) h = absurd cc
same_lowercase (x ∷ xs) [] h = absurd cc
same_lowercase (x ∷ xs) (y ∷ ys) h =
    let first : (to_ascii_lowercase x == to_ascii_lowercase y) ≡ true = ground arith in
    let rest = same_lowercase xs ys (ground arith) in
    let same = (==_iff (to_ascii_lowercase x) (to_ascii_lowercase y)).0 first in cc

bearer_lowercase : map to_ascii_lowercase (str "bearer") ≡ str "bearer"
unfolding to_ascii_lowercase
bearer_lowercase = refl

bearer_token-IsBearer : (value key : Str) → bearer_token value ≡ some key → IsBearer value key
unfolding bearer_token
bearer_token-IsBearer value key h = elim (Option-cases (split_once_space value)) [
  | inl e ↦ absurd (ground arith)
  | inr ((scheme, token), e) ↦ elim (Bool-cases (eq_ignore_ascii_case scheme (str "bearer"))) [
    | inl f ↦
        let trimmed : trim_start_spaces token ≡ key = ground arith in
        let (spaces, same, blank, bare) = trim_start_spaces-facts token in
        (
          scheme,
          spaces,
          split_once_space-joined value scheme token e
              ∙ ap (λ (t : Str). scheme ++ (b' ' ∷ t))
                  (same ∙ ap (λ (t : Str). spaces ++ t) trimmed),
          same_lowercase scheme (str "bearer") f ∙ bearer_lowercase,
          blank,
          λ rest k. bare rest (trimmed ∙ k),
        )
    | inr f ↦ absurd (ground arith)
  ]
]

abbrev Taken : Headers → Str → Type 0
Taken headers key =
    (key ≢ [])
    × (((headers api_key_header ≡ some key ∷ []) × (headers authorization_header ≡ []))
        ⊎ ((headers api_key_header ≡ [])
            × (value : Str) × (headers authorization_header ≡ some value ∷ [])
            × IsBearer value key))

abbrev Given : Headers → Str → Option (Option Str) → Type 0
Given headers name v =
    ((v ≡ none) × (headers name ≡ [])) ⊎ ((x : Option Str) × (v ≡ some x) × (headers name ≡ x ∷ []))

non_empty-facts :
    (chosen : CredentialError ⊎ Str) (key : Str)
    → non_empty chosen ≡ inr key
    → (chosen ≡ inr key) × (key ≢ [])
unfolding non_empty
non_empty-facts (inl error) key h = absurd (ground arith)
non_empty-facts (inr []) key h = absurd (ground arith)
non_empty-facts (inr (b ∷ bs)) key h = (h, λ e. ground arith)

chosen-facts :
    (headers : Headers) (key : Str) (first second : Option (Option Str))
    → Given headers api_key_header first
    → Given headers authorization_header second
    → non_empty (choose_credential first second) ≡ inr key
    → Taken headers key
unfolding choose_credential or_invalid
chosen-facts headers key none none g1 g2 h = unfold non_empty in absurd (ground arith)
chosen-facts headers key (some x) (some y) g1 g2 h = unfold non_empty in absurd (ground arith)
chosen-facts headers key (some none) none g1 g2 h = unfold non_empty in absurd (ground arith)
chosen-facts headers key (some (some v)) none g1 g2 h =
    let (c, n) = non_empty-facts (or_invalid (some v)) key h in
    (n, inl (ground arith, ground arith))
chosen-facts headers key none (some none) g1 g2 h = unfold non_empty in absurd (ground arith)
chosen-facts headers key none (some (some v)) g1 g2 h =
    let (c, n) = non_empty-facts (or_invalid (bearer_token v)) key h in
    elim (Option-cases (bearer_token v)) [
      | inl e ↦ absurd (ground arith)
      | inr (token, e) ↦
          (n, inr (ground arith, v, ground arith, bearer_token-IsBearer v key (ground arith)))
    ]

-- A key is taken from a request only if it is not empty and the request presents it in one place:
-- once as the API key and with no authorization, or with no API key and as the one authorization,
-- which is the word bearer in any case, a space, any further spaces and the key.
pub extract_api_key-single :
    (headers : Headers) (key : Str)
    → extract_api_key headers ≡ inr key
    → (key ≢ [])
      × (((headers api_key_header ≡ some key ∷ []) × (headers authorization_header ≡ []))
          ⊎ ((headers api_key_header ≡ [])
              × (value : Str) × (headers authorization_header ≡ some value ∷ [])
              × IsBearer value key))
unfolding extract_api_key
extract_api_key-single headers key h = elim (Named-cases (unique_header headers api_key_header)) [
  | inl (error, e) ↦ absurd (ground arith)
  | inr (first, e) ↦ elim (Named-cases (unique_header headers authorization_header)) [
    | inl (error, f) ↦ absurd (ground arith)
    | inr (second, f) ↦
        chosen-facts headers key first second (unique-facts headers api_key_header first e)
          (unique-facts headers authorization_header second f) (ground arith)
  ]
]
