-- ===== src/Tower/Cache/Tests.antt =====
-- A cache of two entries for two tenants.
use mcp_usage_kit.Prelude.Assoc
use mcp_usage_kit.Tower.Cache
use mcp_usage_kit.Prelude.{
  List, [], false, length, none, refl, some, str, str_eq, str_equal, strs_equal, ℕ, ◌<◌, ◌∷◌, ◌≡◌,
  ◌≤◌, ◌⊎◌,
}
use mcp_usage_kit.Tower.Cache.{
  CacheScope, effective_public, examine, key_eq, make_space, new_cache, private_key, public_key,
  store_key, supersede, sweep, tenant_eq,
}
use mcp_usage_kit.Tower.Cache.Bounded.{cache_bounded}
use mcp_usage_kit.Tower.Cache.History.{CacheOp, cache_after, cache_step, stores}
use mcp_usage_kit.Tower.Cache.Isolation.{WasStored, get_isolated}

abbrev history : List (CacheOp ℕ)
history =
    stores 20 (str "k") (str "globex") CacheScope.shared 1000 8
    ∷ stores 10 (str "k") (str "acme") CacheScope.private 1000 7
    ∷ []

acme_gets_its_own :
    (Cache.get 30 (str "k") (str "acme") (cache_after 10000 (new_cache 2 100 false) history)).0
    ≡ some 7
unfolding Cache.get cache_after cache_step Cache.insert Assoc.lookup Assoc.insert Assoc.remove
    examine private_key public_key effective_public store_key sweep supersede make_space key_eq
    tenant_eq str_eq
acme_gets_its_own = refl

get_isolated_example :
    (expiry : ℕ) × (30 < expiry)
    × (WasStored (new_cache 2 100 false) (str "k") (some (str "acme")) 7 expiry history
        ⊎ WasStored (new_cache 2 100 false) (str "k") none 7 expiry history)
get_isolated_example =
    get_isolated 10000 30 2 100 false (str "k") (str "acme") 7 history acme_gets_its_own

cache_bounded_example : length (cache_after 10000 (new_cache 1 100 false) history).entries ≤ 1
cache_bounded_example = cache_bounded 10000 1 100 false history
