-- ===== src/Tower/Tenants.antt =====
-- crates/mcp-usage-tower/src/auth.rs: the hash of an API key, the check of its strength, and the
-- in-memory table of tenants. SHA-256 is a parameter, and so is the entropy test, which computes
-- with floating point numbers, on the counts of the bytes. The lock makes each operation atomic.
pub mod Lookup
mod Tests
use mcp_usage_kit.Prelude.Assoc
use mcp_usage_kit.Prelude.{
  Bool, List, Option, Str, [], if◌then◌else◌, length, ltb, none, some, str_equal, strs_equal, suc,
  zero, ℕ, ◌%◌, ◌+◌, ◌/◌, ◌==◌, ◌∷◌,
}
use mcp_usage_kit.Tower.Completion.{Tenant}

-- The table "0123456789abcdef".
unfoldable pub hex_digit : ℕ → ℕ
hex_digit d = if ltb d 10 then 48 + d else 87 + d

unfoldable pub hex : Str → Str
hex [] = []
hex (b ∷ bs) = hex_digit (b / 16) ∷ hex_digit (b % 16) ∷ hex bs

unfoldable pub hash_api_key : (Str → Str) → Str → Str
hash_api_key sha256 api_key = hex (sha256 api_key)

pub data WeakApiKey : Type 0 where
  too_short too_few_distinct_symbols too_predictable : WeakApiKey

abbrev pub min_api_key_bytes : ℕ
min_api_key_bytes = 24

abbrev pub min_distinct_symbols : ℕ
min_distinct_symbols = 10

unfoldable pub count_byte : ℕ → Str → ℕ
count_byte b [] = 0
count_byte b (x ∷ xs) = let rest = count_byte b xs in if x == b then suc rest else rest

-- `counts`, of the bytes below the first argument, the greatest first.
unfoldable pub counts_below : ℕ → Str → List ℕ
counts_below zero bytes = []
counts_below (suc b) bytes = count_byte b bytes ∷ counts_below b bytes

unfoldable pub distinct : List ℕ → ℕ
distinct [] = 0
distinct (n ∷ counts) = let rest = distinct counts in if ltb 0 n then suc rest else rest

-- None where the key is accepted.
unfoldable pub validate_api_key_strength : (List ℕ → Bool) → Str → Option WeakApiKey
validate_api_key_strength little_entropy api_key =
    let counts = counts_below 256 api_key in
    if ltb (length api_key) min_api_key_bytes
    then some too_short
    else if ltb (distinct counts) min_distinct_symbols
    then some too_few_distinct_symbols
    else if little_entropy counts
    then some too_predictable
    else none

pub record InMemoryTenantStore : Type 0 where
  pub by_key_hash : List (Str × Tenant)

abbrev pub empty_store : InMemoryTenantStore
empty_store = record { by_key_hash = [] }

unfoldable pub configured_keys : InMemoryTenantStore → ℕ
configured_keys store = length store.by_key_hash

module _ (sha256 : Str → Str) where
  unfoldable pub insert_unchecked : Str → Tenant → InMemoryTenantStore → InMemoryTenantStore
  insert_unchecked api_key tenant store = record {
    by_key_hash = Assoc.insert (hash_api_key sha256 api_key) tenant store.by_key_hash;
  }

  unfoldable pub insert_with :
      Option WeakApiKey
      → Str
      → Tenant
      → InMemoryTenantStore
      → Option WeakApiKey × InMemoryTenantStore
  insert_with (some weak) api_key tenant store = (some weak, store)
  insert_with none api_key tenant store = (none, insert_unchecked api_key tenant store)

  unfoldable pub insert :
      (List ℕ → Bool) → Str → Tenant → InMemoryTenantStore → Option WeakApiKey × InMemoryTenantStore
  insert little_entropy api_key tenant store =
      insert_with (validate_api_key_strength little_entropy api_key) api_key tenant store

  unfoldable pub authenticate : Str → InMemoryTenantStore → Option Tenant
  authenticate api_key store = Assoc.lookup (hash_api_key sha256 api_key) store.by_key_hash
