-- ===== src/Tower/Tenants/Tests.antt =====
-- crates/mcp-usage-tower/src/auth.rs: runs.
use mcp_usage_kit.Prelude.{
  Bool, List, Str, [], false, if◌then◌else◌, is_some, none, not, refl, some, str, str_eq, ℕ, ◌&&◌,
  ◌∷◌, ◌≡◌,
}
use mcp_usage_kit.Tower.Completion.{Tenant}
use mcp_usage_kit.Tower.Tenants.{
  authenticate, count_byte, counts_below, distinct, empty_store, hex, hex_digit, insert,
  too_few_distinct_symbols, too_short, validate_api_key_strength,
}
use mcp_usage_kit.Tower.Tenants.Lookup.{authenticate-insert}

abbrev plain : Str → Str
plain text = text

abbrev no_test : List ℕ → Bool
no_test counts = false

abbrev good_key : Str
good_key = str "9f3a1c7e5b2d8046af91c3e57d0b2a64"

abbrev tenant : Tenant
tenant = record {
  id = str "acme";
  billing_customer_id = str "cus_1";
  prices = record { default_units = 1; names = []; methods = [] };
}

digits : hex (0 ∷ 0x9a ∷ 0xff ∷ []) ≡ str "009aff"
unfolding hex hex_digit
digits = refl

short_key : validate_api_key_strength no_test (str "secret") ≡ some too_short
unfolding validate_api_key_strength
short_key = refl

repeated_key :
    validate_api_key_strength no_test (str "abababababababababababababababab")
    ≡ some too_few_distinct_symbols
unfolding validate_api_key_strength counts_below count_byte distinct
repeated_key = refl

accepted_key : validate_api_key_strength no_test good_key ≡ none
unfolding validate_api_key_strength counts_below count_byte distinct
accepted_key = refl

authenticate-insert_example :
    authenticate plain good_key (insert plain no_test good_key tenant empty_store).1 ≡ (
      if not (is_some (validate_api_key_strength no_test good_key)) && str_eq good_key good_key
      then some tenant
      else authenticate plain good_key empty_store)
authenticate-insert_example =
    authenticate-insert plain no_test good_key good_key tenant empty_store (λ s t e. e)
