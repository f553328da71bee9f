-- ===== src/Tower/Credential/Tests.antt =====
-- One credential, and a budget of two failures.
use mcp_usage_kit.Prelude.{
  List, Str, [], arith, eq_ignore_ascii_case, if◌then◌else◌, inr, refl, saturating_add, some, str,
  str_eq, to_ascii_lowercase, ◌+◌, ◌-◌, ◌∷◌, ◌≡◌, ◌≢◌, ◌≤◌, ◌⊎◌,
}
use mcp_usage_kit.Tower.Classify.{Headers, unique_header}
use mcp_usage_kit.Tower.Credential.{
  AuthFailureLimit, api_key_header, authorization_header, bearer_token, begin_refusal,
  charge_failure, choose_credential, end_refusal, expire_window, extract_api_key, is_exhausted,
  non_empty, or_invalid, split_once_space, trim_start_spaces,
}
use mcp_usage_kit.Tower.Credential.Budget.{
  Guess, Guessing, check_guess, checked, guess_all, guess_step, record_guess, recorded,
  wrong_answers-bounded,
}
use mcp_usage_kit.Tower.Credential.Single.{IsBearer, extract_api_key-single}

abbrev bearer : Headers
bearer name = if str_eq name authorization_header then some (str "bearer  secret") ∷ [] else []

bearer_extracted : extract_api_key bearer ≡ inr (str "secret")
unfolding extract_api_key unique_header choose_credential or_invalid bearer_token split_once_space
    eq_ignore_ascii_case to_ascii_lowercase trim_start_spaces non_empty str_eq
bearer_extracted = refl

extract_api_key-single_example :
    (str "secret" ≢ [])
    × (((bearer api_key_header ≡ some (str "secret") ∷ []) × (bearer authorization_header ≡ []))
        ⊎ ((bearer api_key_header ≡ [])
            × (value : Str) × (bearer authorization_header ≡ some value ∷ [])
            × IsBearer value (str "secret")))
extract_api_key-single_example = extract_api_key-single bearer (str "secret") bearer_extracted

abbrev budget : AuthFailureLimit
budget = record { max_failures = 2; window = 60; started = 100; failures = 0 }

-- Two guesses at once against a budget of which one failure is left, and a third that comes too late.
abbrev nearly_spent : AuthFailureLimit
nearly_spent = record budget { failures = 1 }

abbrev guesses : List Guess
guesses = checked 100 ∷ checked 101 ∷ recorded 102 ∷ recorded 103 ∷ checked 104 ∷ []

abbrev guessing : Guessing
guessing = record { limit = nearly_spent; in_flight = 0; wrong = 0 }

-- Both are told that they are wrong.
overspent : (guess_all guessing guesses).wrong ≡ 2
unfolding guess_all guess_step check_guess record_guess begin_refusal end_refusal is_exhausted
    charge_failure expire_window saturating_add
overspent = refl

wrong_answers-bounded_example :
    (guess_all guessing guesses).wrong + (guess_all guessing guesses).in_flight ≤ (2 - 1) + (2 - 1)
unfolding guess_step check_guess record_guess begin_refusal end_refusal is_exhausted charge_failure
    expire_window saturating_add
wrong_answers-bounded_example =
    wrong_answers-bounded nearly_spent 2 guesses (omega arith) (omega arith) (omega arith)
      (omega arith) (omega arith)
