-- ===== src/Tower/Cache/History.antt =====
-- Histories of the response cache.
use mcp_usage_kit.Tower.Cache
use mcp_usage_kit.Prelude.{List, Str, [], arith, refl, ℕ, ◌∙◌, ◌∷◌, ◌≡◌}
use mcp_usage_kit.Tower.Cache.{CacheScope, ResponseCache}

-- The operations of a history, with their instants.
pub data CacheOp (R : Type 0) : Type 0 where
  looks_up : ℕ → Str → Str → CacheOp R
  stores : ℕ → Str → Str → CacheScope → ℕ → R → CacheOp R

module _ {R : Type 0} where
  unfoldable pub cache_step : ℕ → ResponseCache R → CacheOp R → ResponseCache R
  cache_step latest cache (looks_up now logical context) = (Cache.get now logical context cache).1
  cache_step latest cache (stores now logical context scope ttl response) =
      Cache.insert latest now logical context scope ttl response cache

  -- A history, its newest operation first.
  unfoldable pub cache_after : ℕ → ResponseCache R → List (CacheOp R) → ResponseCache R
  cache_after latest cache [] = cache
  cache_after latest cache (op ∷ older) = cache_step latest (cache_after latest cache older) op

  limits_kept :
      (latest : ℕ) (cache : ResponseCache R) (op : CacheOp R)
      → ((cache_step latest cache op).max_ttl ≡ cache.max_ttl)
        × ((cache_step latest cache op).share_public ≡ cache.share_public)
        × ((cache_step latest cache op).max_entries ≡ cache.max_entries)
  unfolding cache_step Cache.get Cache.insert
  limits_kept latest cache (looks_up now logical context) = ground arith
  limits_kept latest cache (stores now logical context scope ttl response) = ground arith

  pub limits_after :
      (latest : ℕ) (cache : ResponseCache R) (ops : List (CacheOp R))
      → ((cache_after latest cache ops).max_ttl ≡ cache.max_ttl)
        × ((cache_after latest cache ops).share_public ≡ cache.share_public)
        × ((cache_after latest cache ops).max_entries ≡ cache.max_entries)
  unfolding cache_after
  limits_after latest cache [] = (refl, refl, refl)
  limits_after latest cache (op ∷ older) =
      let (t, p, e) = limits_kept latest (cache_after latest cache older) op in
      let (t', p', e') = limits_after latest cache older in (t ∙ t', p ∙ p', e ∙ e')
