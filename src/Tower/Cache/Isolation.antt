-- ===== src/Tower/Cache/Isolation.antt =====
-- Whose responses the cache gives to whom, and for how long.
use mcp_usage_kit.Prelude.Assoc
use mcp_usage_kit.Prelude.Entries
use mcp_usage_kit.Tower.Cache
use mcp_usage_kit.Prelude.{
  All, Bool, Bool-cases, List, Option, Option-cases, Str, [], arith, inl, inr, is_some, ltb, min,
  none, refl, some, str_equal, strs_equal, subst, true, ℕ, ◌+◌, ◌<◌, ◌==◌, ◌||◌, ◌∷◌, ◌≡◌, ◌⊎◌,
}
use mcp_usage_kit.Tower.Cache.{
  CacheKey, CacheScope, Entry, ResponseCache, cache_keys, effective_public, examine, make_space,
  new_cache, private_key, public_key, store_key, supersede, sweep,
}
use mcp_usage_kit.Tower.Cache.History.{
  CacheOp, cache_after, cache_step, limits_after, looks_up, stores,
}
use mcp_usage_kit.Tower.Cache.Kept.{All-examine, All-get, All-room}

module _ {R : Type 0} where
  -- The holder of a response: the context that it was stored for, or everyone, if it is declared
  -- public and the cache shares public responses.
  abbrev pub HeldFor : ResponseCache R → CacheScope → Str → Option Str → Type 0
  HeldFor cache scope context tenant =
      (tenant ≡ some context)
      ⊎ ((tenant ≡ none) × (scope ≡ CacheScope.shared) × (cache.share_public ≡ true))

  -- A response stored for a context, within its time to live.
  abbrev pub StoredFor : ResponseCache R → Str → Option Str → R → ℕ → CacheOp R → Type 0
  StoredFor cache logical tenant response expiry (looks_up now l c) = ⊥
  StoredFor cache logical tenant response expiry (stores now l c scope ttl r) =
      (l ≡ logical)
      × (r ≡ response)
      × (expiry ≡ now + min ttl cache.max_ttl)
      × HeldFor cache scope c tenant

  abbrev pub WasStored : ResponseCache R → Str → Option Str → R → ℕ → List (CacheOp R) → Type 0
  WasStored cache logical tenant response expiry [] = ⊥
  WasStored cache logical tenant response expiry (op ∷ older) =
      StoredFor cache logical tenant response expiry op
      ⊎ WasStored cache logical tenant response expiry older

  -- The entry was stored by an operation of the history.
  abbrev HasOrigin : ResponseCache R → List (CacheOp R) → CacheKey × Entry R → Type 0
  HasOrigin cache ops entry =
      WasStored cache entry.0.logical entry.0.private_tenant entry.1.response entry.1.expires_at ops

  All-older :
      (cache : ResponseCache R) (op : CacheOp R) (older : List (CacheOp R))
      (entries : List (CacheKey × Entry R))
      → All (HasOrigin cache older) entries
      → All (HasOrigin cache (op ∷ older)) entries
  All-older cache op older [] a = tt
  All-older cache op older (entry ∷ entries) a = (inr a.0, All-older cache op older entries a.1)

  -- The key of a stored response says whose it is.
  held_for :
      (start cache : ResponseCache R) (logical context : Str) (scope : CacheScope)
      → cache.share_public ≡ start.share_public
      → let key = store_key (effective_public scope cache) logical context in
        (logical ≡ key.logical) × HeldFor start scope context key.private_tenant
  unfolding store_key effective_public private_key public_key
  held_for start cache logical context CacheScope.private s = (refl, inl refl)
  held_for start cache logical context CacheScope.shared s = elim (Bool-cases cache.share_public) [
    | inl e ↦ (ground arith, inr (ground arith, refl, ground arith))
    | inr e ↦ (ground arith, inl (ground arith))
  ]

  All-step :
      (latest : ℕ) (cache start : ResponseCache R) (op : CacheOp R) (older : List (CacheOp R))
      → cache.max_ttl ≡ start.max_ttl
      → cache.share_public ≡ start.share_public
      → All (HasOrigin start older) cache.entries
      → All (HasOrigin start (op ∷ older)) (cache_step latest cache op).entries
  unfolding cache_step
  All-step latest cache start (looks_up now logical context) older m s a =
      All-get (HasOrigin start (looks_up now logical context ∷ older)) now logical context cache
        (All-older start (looks_up now logical context) older cache.entries a)
  All-step latest cache start (stores now logical context scope ttl response) older m s a =
      let op = stores now logical context scope ttl response in
      let P = HasOrigin start (op ∷ older) in
      let kept_for = min ttl cache.max_ttl in
      let is_public = effective_public scope cache in
      let key = store_key is_public logical context in
      let room =
        make_space cache.max_entries key
          (supersede is_public logical (sweep cache.max_entries now cache.entries)) in
      let entry : Entry R = record {
        response = response;
        expires_at = now + kept_for;
        inserted_at = now;
      } in
      let older_room : All P room =
        All-room P cache.max_entries now key is_public logical cache.entries
          (All-older start op older cache.entries a) in
      let (l, t) = held_for start cache logical context scope s in
      let x : now + min ttl cache.max_ttl ≡ now + min ttl start.max_ttl = rw m refl in
      let new : P (key, entry) = inl (l, refl, x, t) in
      unfold Cache.insert in
      elim (Bool-cases (kept_for == 0 || cache.max_entries == 0 || ltb latest (now + kept_for))) [
        | inl e ↦ rw e (All-older start op older cache.entries a)
        | inr e ↦ rw e (Entries.All-insert P key entry room new older_room)
      ]

  All-after :
      (latest : ℕ) (start : ResponseCache R) (ops : List (CacheOp R))
      → start.entries ≡ []
      → All (HasOrigin start ops) (cache_after latest start ops).entries
  unfolding cache_after
  All-after latest start [] e = rw e tt
  All-after latest start (op ∷ older) e =
      let (t, p, _) = limits_after latest start older in
      All-step latest (cache_after latest start older) start op older t p
        (All-after latest start older e)

  examine_facts :
      (now : ℕ) (key : CacheKey) (entries : List (CacheKey × Entry R)) (response : R)
      → (examine now key (Assoc.lookup key entries) entries).0 ≡ some response
      → (entry : Entry R) × (Assoc.lookup key entries ≡ some entry)
        × (entry.response ≡ response)
        × (now < entry.expires_at)
  unfolding examine
  examine_facts now key entries response h = elim (Option-cases (Assoc.lookup key entries)) [
    | inl e ↦ absurd (ground arith)
    | inr (entry, e) ↦ (entry, e, ground arith, ground arith)
  ]

  -- After any history of a new cache, a lookup answers only with a response that was stored for
  -- the same logical request, is still within its time to live as the cache caps it, and was
  -- stored for the caller's own context, or was declared public in a cache that shares public
  -- responses.
  pub get_isolated :
      (latest now max_entries max_ttl : ℕ) (share_public : Bool) (logical context : Str)
      (response : R) (ops : List (CacheOp R))
      → let start = new_cache max_entries max_ttl share_public in
        (Cache.get now logical context (cache_after latest start ops)).0 ≡ some response
        → (expiry : ℕ) × (now < expiry)
          × (WasStored start logical (some context) response expiry ops
              ⊎ WasStored start logical none response expiry ops)
  unfolding Cache.get
  get_isolated latest now max_entries max_ttl share_public logical context response ops h =
      let start : ResponseCache R = new_cache max_entries max_ttl share_public in
      let entries = (cache_after latest start ops).entries in
      let mine = private_key logical context in
      let everyones = public_key logical in
      let P = HasOrigin start ops in
      let stored : All P entries = All-after latest start ops refl in
      let first = examine now mine (Assoc.lookup mine entries) entries in
      let stored1 = All-examine P now mine (Assoc.lookup mine entries) entries stored in
      elim (Bool-cases (is_some first.0)) [
        | inl e ↦
            let (entry, found, same_response, live) =
              examine_facts now mine entries response (ground arith) in
            (
              entry.expires_at,
              live,
              inl (
                  subst (λ r. WasStored start logical (some context) r entry.expires_at ops)
                    same_response
                    (unfold private_key in Entries.All-lookup P mine entry entries stored found)),
            )
        | inr e ↦
            let (entry, found, same_response, live) =
              examine_facts now everyones first.1 response (ground arith) in
            (
              entry.expires_at,
              live,
              inr (
                  subst (λ r. WasStored start logical none r entry.expires_at ops) same_response
                    (unfold public_key in
                      Entries.All-lookup P everyones entry first.1 stored1 found)),
            )
      ]
