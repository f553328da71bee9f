-- ===== src/Tower/Cache/Bounded.antt =====
-- The cache holds no more entries than it is given room for.
use mcp_usage_kit.Prelude.Assoc
use mcp_usage_kit.Tower.Cache
use mcp_usage_kit.Prelude.{
  Bool, Bool-cases, List, Option, Option-cases, Str, [], arith, false, inl, inr, is_some, leb,
  length, ltb, min, none, retain, some, str_equal, strs_equal, true, ℕ, ◌+◌, ◌<◌, ◌==◌, ◌||◌, ◌∷◌,
  ◌≡◌, ◌≢◌, ◌≤◌, ◌⊎◌,
}
use mcp_usage_kit.Tower.Cache.{
  CacheKey, Entry, ResponseCache, cache_keys, drop_entry, earlier, effective_public, examine,
  is_live, key_eq_iff, make_space, new_cache, oldest_entry, private_key, public_key, store_key,
  supersede, survives_public, sweep,
}
use mcp_usage_kit.Tower.Cache.History.{
  CacheOp, cache_after, cache_step, limits_after, looks_up, stores,
}

module _ {R : Type 0} where
  length-retain :
      (p : CacheKey × Entry R → Bool) (m : List (CacheKey × Entry R))
      → length (retain p m) ≤ length m
  unfolding retain
  length-retain p [] = omega arith
  length-retain p (x ∷ m) = ground (arith, length-retain p m)

  length-sweep :
      (max_entries now : ℕ) (entries : List (CacheKey × Entry R))
      → length (sweep max_entries now entries) ≤ length entries
  unfolding sweep
  length-sweep max_entries now entries = ground (arith, length-retain (is_live now) entries)

  length-supersede :
      (is_public : Bool) (logical : Str) (entries : List (CacheKey × Entry R))
      → length (supersede is_public logical entries) ≤ length entries
  unfolding supersede
  length-supersede true logical entries = length-retain (survives_public logical) entries
  length-supersede false logical entries = Assoc.length-remove-le (public_key logical) entries

  length-examine :
      (now : ℕ) (key : CacheKey) (found : Option (Entry R)) (entries : List (CacheKey × Entry R))
      → length (examine now key found entries).1 ≤ length entries
  unfolding examine
  length-examine now key none entries = omega arith
  length-examine now key (some entry) entries = ground (arith, Assoc.length-remove-le key entries)

  -- The oldest entry's key is in the map.
  oldest_is_in :
      (entries : List (CacheKey × Entry R)) (oldest : CacheKey × Entry R)
      → oldest_entry entries ≡ some oldest
      → is_some (Assoc.lookup oldest.0 entries) ≡ true
  unfolding oldest_entry earlier Assoc.lookup
  oldest_is_in [] oldest h = absurd (ground arith)
  oldest_is_in ((k, e) ∷ entries) oldest h = elim (Option-cases (oldest_entry entries)) [
    | inl n ↦ ground (arith, key_eq_iff k oldest.0)
    | inr (later, n) ↦ ground (arith, oldest_is_in entries later n, key_eq_iff k oldest.0)
  ]

  no_oldest :
      (entries : List (CacheKey × Entry R)) → 0 < length entries → oldest_entry entries ≢ none
  unfolding oldest_entry
  no_oldest [] p e = omega (arith, p)
  no_oldest (x ∷ entries) p e = ground arith

  drop_oldest :
      (entries : List (CacheKey × Entry R))
      → 0 < length entries
      → length (drop_entry (oldest_entry entries) entries) < length entries
  unfolding drop_entry
  drop_oldest entries p = elim (Option-cases (oldest_entry entries)) [
    | inl e ↦ absurd (no_oldest entries p e)
    | inr (oldest, e) ↦ elim (Option-cases (Assoc.lookup oldest.0 entries)) [
      | inl f ↦ absurd (ground (arith, oldest_is_in entries oldest e))
      | inr (entry, f) ↦ rw e (Assoc.length-remove-lt oldest.0 entry entries f)
    ]
  ]

  length-make_space :
      (max_entries : ℕ) (key : CacheKey) (entries : List (CacheKey × Entry R))
      → 0 < max_entries
      → length entries ≤ max_entries
      → let room = make_space max_entries key entries in
        (length room ≤ max_entries)
        × ((is_some (Assoc.lookup key room) ≡ true) ⊎ (length room < max_entries))
  unfolding make_space drop_entry
  length-make_space max_entries key entries p w =
      elim (Bool-cases (is_some (Assoc.lookup key entries))) [
        | inl e ↦ rw e (w, inl e)
        | inr e ↦ elim (Bool-cases (leb max_entries (length entries))) [
          | inl f ↦
              let fewer = drop_oldest entries (ground arith) in
              rw (e, f) (unfold drop_entry in (omega (arith, fewer), inr (omega (arith, fewer))))
          | inr f ↦ rw (e, f) (w, inr (ground arith))
        ]
      ]

  cache_step_bounded :
      (latest : ℕ) (cache : ResponseCache R) (op : CacheOp R)
      → length cache.entries ≤ cache.max_entries
      → length (cache_step latest cache op).entries ≤ cache.max_entries
  unfolding cache_step
  cache_step_bounded latest cache (looks_up now logical context) w =
      let mine = private_key logical context in
      let everyones = public_key logical in
      let first = examine now mine (Assoc.lookup mine cache.entries) cache.entries in
      unfold Cache.get in
      ground (
        arith,
        length-examine now mine (Assoc.lookup mine cache.entries) cache.entries,
        length-examine now everyones (Assoc.lookup everyones first.1) first.1,
      )
  cache_step_bounded latest cache (stores now logical context scope ttl response) w =
      let kept_for = min ttl cache.max_ttl in
      let is_public = effective_public scope cache in
      let key = store_key is_public logical context in
      let swept = sweep cache.max_entries now cache.entries in
      let rest = supersede is_public logical swept in
      let room = make_space cache.max_entries key rest in
      let entry : Entry R = record {
        response = response;
        expires_at = now + kept_for;
        inserted_at = now;
      } in
      let fits : length rest ≤ cache.max_entries = omega (
        arith,
        w,
        length-sweep cache.max_entries now cache.entries,
        length-supersede is_public logical swept,
      ) in
      unfold Cache.insert in
      elim (Bool-cases (kept_for == 0 || cache.max_entries == 0 || ltb latest (now + kept_for))) [
        | inl e ↦ rw e w
        | inr e ↦
            let (bound, space) = length-make_space cache.max_entries key rest (ground arith) fits in
            rw e (ground (arith, Assoc.length-insert key entry room))
      ]

  -- After any history, the cache holds at most `max_entries` responses.
  pub cache_bounded :
      (latest max_entries max_ttl : ℕ) (share_public : Bool) (ops : List (CacheOp R))
      → length (cache_after latest (new_cache max_entries max_ttl share_public) ops).entries
        ≤ max_entries
  unfolding cache_after
  cache_bounded latest max_entries max_ttl share_public [] = omega arith
  cache_bounded latest max_entries max_ttl share_public (op ∷ older) =
      let start : ResponseCache R = new_cache max_entries max_ttl share_public in
      let (_, _, e) = limits_after latest start older in
      let bound = cache_bounded latest max_entries max_ttl share_public older in
      let next = cache_step_bounded latest (cache_after latest start older) op (rw e bound) in
      omega (arith, next, e)
