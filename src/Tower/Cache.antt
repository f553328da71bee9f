-- ===== src/Tower/Cache.antt =====
-- crates/mcp-usage-tower/src/cache.rs: the response cache. A logical key is the digest of a method
-- and its parameters, of which only its identity matters; an instant is a number on the clock's
-- scale, whose latest instant is a parameter; a response is any value. A mutex makes each
-- operation atomic, and the operation's instant is the one it reads from the clock.
pub mod History
mod Kept
pub mod Bounded
pub mod Isolation
mod Tests
use mcp_usage_kit.Prelude.Assoc
use mcp_usage_kit.Prelude.{
  Bool, Equal, List, Option, Str, [], arith, false, if◌then◌else◌, is_some, leb, length, ltb, min,
  none, not, retain, some, str_eq, str_eq_iff, str_equal, strs_equal, true, ℕ, ◌&&◌, ◌+◌, ◌==◌,
  ◌||◌, ◌↔◌, ◌∷◌, ◌≡◌,
}

pub data CacheScope : Type 0 where
  shared private : CacheScope

pub record CacheKey : Type 0 where
  pub logical : Str
  pub private_tenant : Option Str

unfoldable pub tenant_eq : Option Str → Option Str → Bool
tenant_eq none none = true
tenant_eq (some a) (some b) = str_eq a b
tenant_eq _ _ = false

unfoldable pub key_eq : CacheKey → CacheKey → Bool
key_eq a b = str_eq a.logical b.logical && tenant_eq a.private_tenant b.private_tenant

tenant_eq_iff : (a b : Option Str) → (tenant_eq a b ≡ true) ↔ (a ≡ b)
unfolding tenant_eq
tenant_eq_iff none none = ground arith
tenant_eq_iff none (some b) = ground arith
tenant_eq_iff (some a) none = ground arith
tenant_eq_iff (some a) (some b) = ground (arith, str_eq_iff a b)

pub key_eq_iff : (a b : CacheKey) → (key_eq a b ≡ true) ↔ (a ≡ b)
unfolding key_eq
key_eq_iff a b =
    ground (arith, str_eq_iff a.logical b.logical, tenant_eq_iff a.private_tenant b.private_tenant)

instance abbrev pub cache_keys : Equal CacheKey
cache_keys = record { beq = key_eq; beq_iff = key_eq_iff }

unfoldable pub private_key : Str → Str → CacheKey
private_key logical context = record { logical = logical; private_tenant = some context }

unfoldable pub public_key : Str → CacheKey
public_key logical = record { logical = logical; private_tenant = none }

unfoldable pub store_key : Bool → Str → Str → CacheKey
store_key is_public logical context =
    if is_public then public_key logical else private_key logical context

pub record Entry (R : Type 0) : Type 0 where
  pub response : R
  pub expires_at : ℕ
  pub inserted_at : ℕ

pub record ResponseCache (R : Type 0) : Type 0 where
  pub entries : List (CacheKey × Entry R)
  pub max_entries : ℕ
  pub max_ttl : ℕ
  pub share_public : Bool

module _ {R : Type 0} where
  abbrev pub new_cache : ℕ → ℕ → Bool → ResponseCache R
  new_cache max_entries max_ttl share_public = record {
    entries = [];
    max_entries = max_entries;
    max_ttl = max_ttl;
    share_public = share_public;
  }

  unfoldable pub is_live : ℕ → CacheKey × Entry R → Bool
  is_live now (key, entry) = ltb now entry.expires_at

  -- One key of a lookup: a live entry answers, an expired one is dropped.
  unfoldable pub examine :
      ℕ
      → CacheKey
      → Option (Entry R)
      → List (CacheKey × Entry R)
      → Option R × List (CacheKey × Entry R)
  examine now key none entries = (none, entries)
  examine now key (some entry) entries =
      if ltb now entry.expires_at
      then (some entry.response, entries)
      else (none, Assoc.remove key entries)

  -- The private entry first, then the shared one.
  unfoldable pub get : ℕ → Str → Str → ResponseCache R → Option R × ResponseCache R
  get now logical context cache =
      let mine = private_key logical context in
      let everyones = public_key logical in
      let first = examine now mine (Assoc.lookup mine cache.entries) cache.entries in
      let second = examine now everyones (Assoc.lookup everyones first.1) first.1 in
      if is_some first.0
      then (first.0, record cache { entries = first.1 })
      else (second.0, record cache { entries = second.1 })

  unfoldable pub effective_public : CacheScope → ResponseCache R → Bool
  effective_public shared cache = cache.share_public
  effective_public private cache = false

  -- The first entry with the least time of insertion.
  unfoldable pub earlier : CacheKey × Entry R → Option (CacheKey × Entry R) → CacheKey × Entry R
  earlier first none = first
  earlier first (some later) = if ltb later.1.inserted_at first.1.inserted_at then later else first

  unfoldable pub oldest_entry : List (CacheKey × Entry R) → Option (CacheKey × Entry R)
  oldest_entry [] = none
  oldest_entry (first ∷ entries) = some (earlier first (oldest_entry entries))

  unfoldable pub drop_entry :
      Option (CacheKey × Entry R) → List (CacheKey × Entry R) → List (CacheKey × Entry R)
  drop_entry none entries = entries
  drop_entry (some oldest) entries = Assoc.remove oldest.0 entries

  -- A full cache gives up its expired entries.
  unfoldable pub sweep : ℕ → ℕ → List (CacheKey × Entry R) → List (CacheKey × Entry R)
  sweep max_entries now entries =
      if leb max_entries (length entries) then retain (is_live now) entries else entries

  unfoldable pub survives_public : Str → CacheKey × Entry R → Bool
  survives_public logical (key, entry) =
      not (str_eq key.logical logical) || not (is_some key.private_tenant)

  -- The representations that the new one supersedes.
  unfoldable pub supersede : Bool → Str → List (CacheKey × Entry R) → List (CacheKey × Entry R)
  supersede is_public logical entries =
      if is_public
      then retain (survives_public logical) entries
      else Assoc.remove (public_key logical) entries

  unfoldable pub make_space : ℕ → CacheKey → List (CacheKey × Entry R) → List (CacheKey × Entry R)
  make_space max_entries key entries =
      if not (is_some (Assoc.lookup key entries)) && leb max_entries (length entries)
      then drop_entry (oldest_entry entries) entries
      else entries

  -- `latest` is the clock's latest instant, beyond which `checked_add` has none.
  unfoldable pub insert : ℕ → ℕ → Str → Str → CacheScope → ℕ → R → ResponseCache R → ResponseCache R
  insert latest now logical context scope ttl response cache =
      let kept_for = min ttl cache.max_ttl in
      let is_public = effective_public scope cache in
      let key = store_key is_public logical context in
      let room =
        make_space cache.max_entries key
          (supersede is_public logical (sweep cache.max_entries now cache.entries)) in
      if kept_for == 0 || cache.max_entries == 0 || ltb latest (now + kept_for)
      then cache
      else record cache {
        entries =
            Assoc.insert key
              (record { response = response; expires_at = now + kept_for; inserted_at = now }) room;
      }
