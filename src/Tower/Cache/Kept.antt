-- ===== src/Tower/Cache/Kept.antt =====
-- What holds of every entry of the cache stays so: its operations only drop entries, or add one.
use mcp_usage_kit.Prelude.Assoc
use mcp_usage_kit.Prelude.Entries
use mcp_usage_kit.Tower.Cache
use mcp_usage_kit.Prelude.{
  All, Bool, Bool-cases, List, Option, Str, arith, false, inl, inr, is_some, ltb, none, some,
  str_equal, strs_equal, true, ℕ,
}
use mcp_usage_kit.Tower.Cache.{
  CacheKey, Entry, ResponseCache, cache_keys, drop_entry, examine, is_live, make_space,
  oldest_entry, private_key, public_key, supersede, survives_public, sweep,
}

module _ {R : Type 0} where
  pub All-examine :
      (P : CacheKey × Entry R → Type 0) (now : ℕ) (key : CacheKey) (found : Option (Entry R))
      (entries : List (CacheKey × Entry R))
      → All P entries
      → All P (examine now key found entries).1
  unfolding examine
  All-examine P now key none entries a = a
  All-examine P now key (some entry) entries a = elim (Bool-cases (ltb now entry.expires_at)) [
    | inl e ↦ rw e a
    | inr e ↦ rw e (Entries.All-remove P key entries a)
  ]

  pub All-get :
      (P : CacheKey × Entry R → Type 0) (now : ℕ) (logical context : Str) (cache : ResponseCache R)
      → All P cache.entries
      → All P (Cache.get now logical context cache).1.entries
  unfolding Cache.get
  All-get P now logical context cache a =
      let mine = private_key logical context in
      let everyones = public_key logical in
      let first = examine now mine (Assoc.lookup mine cache.entries) cache.entries in
      let a1 = All-examine P now mine (Assoc.lookup mine cache.entries) cache.entries a in
      elim (Bool-cases (is_some first.0)) [
        | inl e ↦ rw e a1
        | inr e ↦ rw e (All-examine P now everyones (Assoc.lookup everyones first.1) first.1 a1)
      ]

  All-drop :
      (P : CacheKey × Entry R → Type 0) (oldest : Option (CacheKey × Entry R))
      (entries : List (CacheKey × Entry R))
      → All P entries
      → All P (drop_entry oldest entries)
  unfolding drop_entry
  All-drop P none entries a = a
  All-drop P (some (key, entry)) entries a = Entries.All-remove P key entries a

  All-supersede :
      (P : CacheKey × Entry R → Type 0) (is_public : Bool) (logical : Str)
      (entries : List (CacheKey × Entry R))
      → All P entries
      → All P (supersede is_public logical entries)
  unfolding supersede
  All-supersede P true logical entries a = Entries.All-retain P (survives_public logical) entries a
  All-supersede P false logical entries a = Entries.All-remove P (public_key logical) entries a

  All-sweep :
      (P : CacheKey × Entry R → Type 0) (max_entries now : ℕ) (entries : List (CacheKey × Entry R))
      → All P entries
      → All P (sweep max_entries now entries)
  unfolding sweep
  All-sweep P max_entries now entries a =
      ground (arith, Entries.All-retain P (is_live now) entries a)

  pub All-room :
      (P : CacheKey × Entry R → Type 0) (max_entries now : ℕ) (key : CacheKey) (is_public : Bool)
      (logical : Str) (entries : List (CacheKey × Entry R))
      → All P entries
      → All P
          (make_space max_entries key (supersede is_public logical (sweep max_entries now entries)))
  unfolding make_space
  All-room P max_entries now key is_public logical entries a =
      let swept = sweep max_entries now entries in
      let rest = supersede is_public logical swept in
      let b = All-supersede P is_public logical swept (All-sweep P max_entries now entries a) in
      ground (arith, All-drop P (oldest_entry rest) rest b)
