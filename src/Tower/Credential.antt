-- ===== src/Tower/Credential.antt =====
-- crates/mcp-usage-tower/src/layer.rs and auth.rs: the credential that a request presents, and the
-- budget for credentials that do not authenticate. An instant is a number on the clock's scale.
pub mod Single
pub mod Budget
mod Tests
use mcp_usage_kit.Prelude.{
  Bool, Option, Str, [], eq_ignore_ascii_case, if◌then◌else◌, inl, inr, leb, none, saturating_add,
  some, str, ℕ, ◌-◌, ◌==◌, ◌>>=◌, ◌∷◌, ◌⊎◌,
}
use mcp_usage_kit.Tower.Classify.{Headers, unique_header}

pub data CredentialError : Type 0 where
  missing ambiguous : CredentialError

abbrev pub api_key_header : Str
api_key_header = str "x-api-key"

abbrev pub authorization_header : Str
authorization_header = str "authorization"

abbrev pub prepend : ℕ → Option (Str × Str) → Option (Str × Str)
prepend b none = none
prepend b (some (before, after)) = some (b ∷ before, after)

-- `split_once(' ')`.
unfoldable pub split_once_space : Str → Option (Str × Str)
split_once_space [] = none
split_once_space (b ∷ bs) =
    let rest = prepend b (split_once_space bs) in if b == b' ' then some ([], bs) else rest

unfoldable pub trim_start_spaces : Str → Str
trim_start_spaces [] = []
trim_start_spaces (b ∷ bs) = let rest = trim_start_spaces bs in if b == b' ' then rest else b ∷ bs

unfoldable pub bearer_token : Str → Option Str
bearer_token value = elim (split_once_space value) [
  | none ↦ none
  | some (scheme, token) ↦
      if eq_ignore_ascii_case scheme (str "bearer") then some (trim_start_spaces token) else none
]

unfoldable pub or_invalid {ℓ} : {A : Type ℓ} → Option A → CredentialError ⊎ A
or_invalid none = inl ambiguous
or_invalid (some a) = inr a

unfoldable pub non_empty : CredentialError ⊎ Str → CredentialError ⊎ Str
non_empty (inl error) = inl error
non_empty (inr []) = inl ambiguous
non_empty (inr (b ∷ bs)) = inr (b ∷ bs)

-- The values under the two headers, each given once at most.
unfoldable pub choose_credential : Option (Option Str) → Option (Option Str) → CredentialError ⊎ Str
choose_credential none none = inl missing
choose_credential (some api_key) (some authorization) = inl ambiguous
choose_credential (some api_key) none = or_invalid api_key
choose_credential none (some authorization) = or_invalid (authorization >>= bearer_token)

unfoldable pub extract_api_key : Headers → CredentialError ⊎ Str
extract_api_key headers = elim (unique_header headers api_key_header) [
  | inl error ↦ inl ambiguous
  | inr api_key ↦ elim (unique_header headers authorization_header) [
    | inl error ↦ inl ambiguous
    | inr authorization ↦ non_empty (choose_credential api_key authorization)
  ]
]

pub record AuthFailureLimit : Type 0 where
  pub max_failures : ℕ
  pub window : ℕ
  pub started : ℕ
  pub failures : ℕ

unfoldable pub expire_window : ℕ → AuthFailureLimit → AuthFailureLimit
expire_window now limit =
    if leb limit.window (now - limit.started)
    then record limit { started = now; failures = 0 }
    else limit

unfoldable pub is_exhausted : ℕ → AuthFailureLimit → Bool × AuthFailureLimit
is_exhausted now limit =
    let after = expire_window now limit in (leb after.max_failures after.failures, after)

unfoldable pub charge_failure : ℕ → AuthFailureLimit → AuthFailureLimit
charge_failure now limit =
    let after = expire_window now limit in
    record after { failures = saturating_add after.failures 1 }

pub data Refusal : Type 0 where
  unauthenticated too_many_failures : Refusal

-- The first part of `refuse_credential`, under the lock of `is_exhausted`: whether the refusal is
-- final, or goes on to record the failure.
unfoldable pub begin_refusal : ℕ → AuthFailureLimit → Option Refusal × AuthFailureLimit
begin_refusal now limit =
    let checked = is_exhausted now limit in
    (if checked.0 then some too_many_failures else none, checked.1)

-- The second part, under the lock of `record_failure`.
unfoldable pub end_refusal : ℕ → AuthFailureLimit → Refusal × AuthFailureLimit
end_refusal now limit = (unauthenticated, charge_failure now limit)

-- `refuse_credential` with a limit, without the response's text, where no other request comes
-- between the two locks, each of which reads the clock.
unfoldable pub refuse_credential : ℕ → ℕ → AuthFailureLimit → Refusal × AuthFailureLimit
refuse_credential checked_at recorded_at limit =
    let begun = begin_refusal checked_at limit in
    elim begun.0 [ some refusal ↦ (refusal, begun.1) | none ↦ end_refusal recorded_at begun.1 ]
