-- ===== src/Tower/Tenants/Lookup.antt =====
-- crates/mcp-usage-tower/src/auth.rs: what the table answers after an insertion.
use mcp_usage_kit.Prelude.Assoc
use mcp_usage_kit.Prelude.{
  Bool, Bool-cases, List, Option, Str, [], ap, arith, if◌then◌else◌, inl, inr, is_some, none, not,
  refl, some, str_eq, str_eq_iff, str_equal, strs_equal, sym, ℕ, ◌%◌, ◌&&◌, ◌/◌, ◌∙◌, ◌∷◌, ◌≡◌,
}
use mcp_usage_kit.Tower.Completion.{Tenant}
use mcp_usage_kit.Tower.Tenants.{
  InMemoryTenantStore, WeakApiKey, authenticate, hash_api_key, hex, hex_digit, insert,
  insert_unchecked, insert_with, validate_api_key_strength,
}

hex_digit-injective : (a b : ℕ) → hex_digit a ≡ hex_digit b → a ≡ b
unfolding hex_digit
hex_digit-injective a b e = ground arith

-- A byte from its two digits.
byte-from_digits : (a b : ℕ) → a / 16 ≡ b / 16 → a % 16 ≡ b % 16 → a ≡ b
byte-from_digits a b high low = omega (arith, high, low)

hex-injective : (a b : Str) → hex a ≡ hex b → a ≡ b
unfolding hex
hex-injective [] [] e = refl
hex-injective [] (y ∷ ys) e = absurd cc
hex-injective (x ∷ xs) [] e = absurd cc
hex-injective (x ∷ xs) (y ∷ ys) e =
    let high : hex_digit (x / 16) ≡ hex_digit (y / 16) = cc in
    let low : hex_digit (x % 16) ≡ hex_digit (y % 16) = cc in
    let rest : hex xs ≡ hex ys = cc in
    let first : x ≡ y =
      byte-from_digits x y (hex_digit-injective (x / 16) (y / 16) high)
        (hex_digit-injective (x % 16) (y % 16) low) in
    let later : xs ≡ ys = hex-injective xs ys rest in cc

module _ (sha256 : Str → Str) (collision_free : (s t : Str) → sha256 s ≡ sha256 t → s ≡ t) where
  same_hash :
      (key other : Str)
      → str_eq (hash_api_key sha256 key) (hash_api_key sha256 other) ≡ str_eq key other
  unfolding hash_api_key
  same_hash key other = elim (Bool-cases (str_eq key other)) [
    | inl same ↦
        let keys : key ≡ other = (str_eq_iff key other).0 same in
        (str_eq_iff _ _).1 (ap (λ (k : Str). hex (sha256 k)) keys) ∙ sym same
    | inr apart ↦ elim (Bool-cases (str_eq (hex (sha256 key)) (hex (sha256 other)))) [
      | inr differ_too ↦ differ_too ∙ sym apart
      | inl clash ↦
          let keys : key ≡ other =
            collision_free key other
              (hex-injective (sha256 key) (sha256 other) ((str_eq_iff _ _).0 clash)) in
          absurd (ground (arith, apart, (str_eq_iff key other).1 keys))
    ]
  ]

  inserted :
      (weak : Option WeakApiKey) (key other : Str) (tenant : Tenant) (store : InMemoryTenantStore)
      → authenticate sha256 other (insert_with sha256 weak key tenant store).1 ≡ (
          if not (is_some weak) && str_eq key other
          then some tenant
          else authenticate sha256 other store)
  unfolding insert_with insert_unchecked authenticate
  inserted (some reason) key other tenant store = refl
  inserted none key other tenant store =
      Assoc.lookup-insert (hash_api_key sha256 key) (hash_api_key sha256 other) tenant
        store.by_key_hash
      ∙ rw (same_hash key other) refl

-- A key that is inserted and not refused as weak authenticates its tenant, the latest one given for
-- it, and no other key's answer changes; a key that is refused changes no answer. The hash is one
-- without collisions.
pub authenticate-insert :
    (sha256 : Str → Str) (little_entropy : List ℕ → Bool) (key other : Str) (tenant : Tenant)
    (store : InMemoryTenantStore)
    → ((s t : Str) → sha256 s ≡ sha256 t → s ≡ t)
    → authenticate sha256 other (insert sha256 little_entropy key tenant store).1 ≡ (
        if not (is_some (validate_api_key_strength little_entropy key)) && str_eq key other
        then some tenant
        else authenticate sha256 other store)
unfolding insert
authenticate-insert sha256 little_entropy key other tenant store collision_free =
    inserted sha256 collision_free (validate_api_key_strength little_entropy key) key other tenant
      store
