-- ===== src/Tower/Service/Stored.antt =====
-- crates/mcp-usage-tower/src/layer.rs, the end of `Completion::finish`: which responses are cached.
use mcp_usage_kit.Tower.Cache
use mcp_usage_kit.Core.Json.{
  Value, array, as_str, bool, float, get, neg_int, null, object, pos_int, string,
}
use mcp_usage_kit.Prelude.{
  Bool-cases, Option, Option-cases, Str, ap, arith, false, inl, inr, none, refl, some, str, str_eq,
  str_eq_iff, subst, sym, true, ℕ, ◌<◌, ◌>>=◌, ◌^◌, ◌≡◌, ◌⊎◌,
}
use mcp_usage_kit.Tower.Cache.{CacheScope, ResponseCache, private, shared}
use mcp_usage_kit.Tower.Completion.{Books, Completion, UnaccountedReason, mismatched, observed}
use mcp_usage_kit.Tower.Inspect.{cache_hints, hints_of, positive_ttl, same_name, scope_of}
use mcp_usage_kit.Tower.Service.{Accounting, CachedResponse}
use mcp_usage_kit.Tower.Service.Finish.{
  OriginResponse, cache_answer, cacheable_headers, content_type_of, finish_response, insert_hinted,
  is_success, may_cache, store_answer,
}
use mcp_usage_kit.Tower.Terminal.{has_media_type, terminal_response}

same_name-text :
    (found : Option Str) (text : Str) → same_name found (some text) ≡ true → found ≡ some text
unfolding same_name
same_name-text none text h = absurd cc
same_name-text (some s) text h = ap some ((str_eq_iff s text).0 h)

positive_ttl-facts :
    (found : Option Value) (ttl : ℕ)
    → positive_ttl found ≡ some ttl
    → (found ≡ some (Value.number (pos_int ttl))) × (0 < ttl) × (ttl < 2 ^ 63)
unfolding positive_ttl
positive_ttl-facts none ttl e = absurd cc
positive_ttl-facts (some null) ttl e = absurd cc
positive_ttl-facts (some (bool b)) ttl e = absurd cc
positive_ttl-facts (some (string s)) ttl e = absurd cc
positive_ttl-facts (some (array xs)) ttl e = absurd cc
positive_ttl-facts (some (object fs)) ttl e = absurd cc
positive_ttl-facts (some (Value.number (pos_int n))) ttl e =
    let same : n ≡ ttl = grind arith in
    (ap (λ k. some (Value.number (pos_int k))) same, grind arith, grind arith)
positive_ttl-facts (some (Value.number (neg_int n))) ttl e = absurd cc
positive_ttl-facts (some (Value.number (float s))) ttl e = absurd cc

-- A positive number of milliseconds that fits in the type of the clock.
abbrev pub IsTtl : Value → ℕ → Type 0
IsTtl result ttl =
    (get result (str "ttlMs") ≡ some (Value.number (pos_int ttl))) × (0 < ttl) × (ttl < 2 ^ 63)

-- What a result says of who may be served it: everyone, or by default its own context alone.
abbrev pub IsScope : Value → CacheScope → Type 0
IsScope result shared = get result (str "cacheScope") >>= as_str ≡ some (str "public")
IsScope result private =
    (get result (str "cacheScope") >>= as_str ≡ none)
    ⊎ (get result (str "cacheScope") >>= as_str ≡ some (str "private"))

scope_of-facts :
    (found : Option Str) (scope : CacheScope)
    → scope_of found ≡ some scope
    → ((found ≡ some (str "public")) × (scope ≡ shared))
      ⊎ (((found ≡ none) ⊎ (found ≡ some (str "private"))) × (scope ≡ private))
unfolding scope_of
scope_of-facts none scope e = inr (inl refl, cc)
scope_of-facts (some text) scope e = elim (Bool-cases (str_eq text (str "public"))) [
  | inl public ↦ inl (ap some ((str_eq_iff text (str "public")).0 public), ground arith)
  | inr other ↦ elim (Bool-cases (str_eq text (str "private"))) [
    | inl own ↦ inr (inr (ap some ((str_eq_iff text (str "private")).0 own)), ground arith)
    | inr neither ↦ absurd (ground arith)
  ]
]

scope_of-IsScope :
    (result : Value) (scope : CacheScope)
    → scope_of (get result (str "cacheScope") >>= as_str) ≡ some scope
    → IsScope result scope
scope_of-IsScope result scope e =
    elim (scope_of-facts (get result (str "cacheScope") >>= as_str) scope e) [
      | inl (named, same) ↦ subst (IsScope result) (sym same) named
      | inr (named, same) ↦ subst (IsScope result) (sym same) named
    ]

-- The hints are those of a complete result that asks to be kept.
hints_of-facts :
    (result : Value) (ttl : ℕ) (scope : CacheScope)
    → hints_of result ≡ some (ttl, scope)
    → (get result (str "resultType") >>= as_str ≡ some (str "complete"))
      × IsTtl result ttl
      × IsScope result scope
unfolding hints_of
hints_of-facts result ttl scope e =
    let kind = get result (str "resultType") >>= as_str in
    elim (Bool-cases (same_name kind (some (str "complete")))) [
      | inr incomplete ↦ absurd (grind arith)
      | inl complete_ ↦ elim (Option-cases (positive_ttl (get result (str "ttlMs")))) [
        | inl no_ttl ↦ absurd (grind arith)
        | inr (kept, asks) ↦
            elim (Option-cases (scope_of (get result (str "cacheScope") >>= as_str))) [
              | inl no_scope ↦ absurd (grind arith)
              | inr (kept_in, scoped) ↦
                  let same : kept ≡ ttl = grind arith in
                  let same_scope : kept_in ≡ scope = grind arith in
                  (
                    same_name-text kind (str "complete") complete_,
                    subst (IsTtl result) same
                        (positive_ttl-facts (get result (str "ttlMs")) kept asks),
                    subst (IsScope result) same_scope (scope_of-IsScope result kept_in scoped),
                  )
            ]
      ]
    ]

-- What a response that is cached is.
pub record Cacheable (completion : Completion) (accounting : Accounting) (response : OriginResponse)
    (body : Value) (ttl : ℕ) (scope : CacheScope) : Type 0 where
  pub succeeded : is_success response.status ≡ true
  pub fresh : accounting.request.is_continuation ≡ false
  pub declared : has_media_type (content_type_of response.headers) (str "application/json") ≡ true
  pub same_task : mismatched completion (observed completion body) ≡ false
  pub result : Value
  pub delivered : get body (str "result") ≡ some result
  pub completed : get result (str "resultType") >>= as_str ≡ some (str "complete")
  pub asks : IsTtl result ttl
  pub allows : IsScope result scope

-- The cache after is the cache before, or the response is in it under its key.
abbrev pub StoredOnly :
    ℕ
    → ℕ
    → Completion
    → Accounting
    → OriginResponse
    → UnaccountedReason ⊎ Value
    → ResponseCache CachedResponse
    → ResponseCache CachedResponse
    → Type 0
StoredOnly latest now completion accounting response answer cache after =
    (after ≡ cache)
    ⊎ ((body : Value) × (answer ≡ inr body)
        × (ttl : ℕ) × (scope : CacheScope) × Cacheable completion accounting response body ttl scope
        × (key : Str) × (accounting.request.cache_key ≡ some key)
        × (after
            ≡ Cache.insert latest now key accounting.authorization_context scope ttl
                (record {
                  status = response.status;
                  headers = cacheable_headers response.headers;
                  body = body;
                })
                cache))

hinted-StoredOnly :
    (latest now : ℕ) (completion : Completion) (accounting : Accounting) (response : OriginResponse)
    (body : Value) (key : Option Str) (hints : Option (ℕ × CacheScope))
    (cache : ResponseCache CachedResponse)
    → accounting.request.cache_key ≡ key
    → cache_hints body ≡ hints
    → may_cache accounting response ≡ true
    → mismatched completion (observed completion body) ≡ false
    → StoredOnly latest now completion accounting response
        (inr body)
        cache
        (insert_hinted latest now accounting response body key hints cache)
unfolding insert_hinted may_cache cache_hints
hinted-StoredOnly latest now completion accounting response body none hints cache k e may same =
    inl refl
hinted-StoredOnly latest now completion accounting response body (some key) none cache k e may
      same =
    inl refl
hinted-StoredOnly latest now completion accounting response body (some key) (some (ttl, scope))
      cache k e may same =
    elim (Option-cases (get body (str "result"))) [
      | inl no_result ↦ absurd (grind arith)
      | inr (result, delivered) ↦
          let facts = hints_of-facts result ttl scope (grind arith) in
          inr (
            body,
            refl,
            ttl,
            scope,
            (record {
              succeeded = grind arith;
              fresh = grind arith;
              declared = grind arith;
              same_task = same;
              result = result;
              delivered = delivered;
              completed = facts.0;
              asks = facts.1;
              allows = facts.2;
            }),
            key,
            k,
            refl,
          )
    ]

answer-StoredOnly :
    (latest now : ℕ) (completion : Completion) (accounting : Accounting) (response : OriginResponse)
    (answer : UnaccountedReason ⊎ Value) (cache : ResponseCache CachedResponse)
    → StoredOnly latest now completion accounting response answer cache
        (cache_answer latest now completion accounting response answer cache)
unfolding cache_answer store_answer
answer-StoredOnly latest now completion accounting response (inl reason) cache = inl refl
answer-StoredOnly latest now completion accounting response (inr body) cache =
    elim (Bool-cases (mismatched completion (observed completion body))) [
      | inl other_task ↦ inl (rw other_task refl)
      | inr same ↦ elim (Bool-cases (may_cache accounting response)) [
        | inr may_not ↦ inl (rw (same, may_not) refl)
        | inl may ↦
            rw (same, may)
              (hinted-StoredOnly latest now completion accounting response body _ _ cache refl refl
                may same)
      ]
    ]

-- Only whole answers are cached: accounting for a response leaves the cache as it is, or the response
-- succeeded, was declared as JSON, answers no continuation and no other task, and holds a complete
-- result whose ttlMs is positive and below 2^63, and then the response is inserted with exactly that
-- lifetime, under the key of its request and the hash of the API key that the request was made with:
-- in the shared scope if the result's cacheScope is the text public, and in the private scope if that
-- is the text private or no text.
pub stored_only :
    (from_json : Str → Option Value) (latest now : ℕ) (completion : Completion)
    (accounting : Accounting) (response : OriginResponse) (books : Books)
    (cache : ResponseCache CachedResponse)
    → StoredOnly latest now completion accounting response
        (terminal_response from_json (content_type_of response.headers) response.bytes)
        cache
        (finish_response from_json latest now completion accounting response (books, cache)).1
unfolding finish_response
stored_only from_json latest now completion accounting response books cache =
    answer-StoredOnly latest now completion accounting response _ cache
