-- ===== src/Edge/ControlPlane/Store.antt =====
-- crates/mcp-usage-edge/src/control_plane.rs: what the store serves, told by the newest snapshot.
use mathlib.Core.Option
use mcp_usage_kit.Prelude.Assoc
use mcp_usage_kit.Core.Limits.{Limits, Usage}
use mcp_usage_kit.Edge.ControlPlane.{
  Cached, ControlPlaneTenantStore, PlaneError, Reply, Snapshot, SnapshotEntry, apply, authenticate,
  cached_of, called, collect, is_stale, new_store, quota_for, refresh_rounds, refreshed,
}
use mcp_usage_kit.Prelude.{
  List, Option, Str, [], arith, if◌then◌else◌, inl, inr, ltb, none, refl, some, str_eq, str_equal,
  strs_equal, ℕ, ◌-◌, ◌>>=◌, ◌∙◌, ◌∷◌, ◌≡◌, ◌⊎◌,
}
use mcp_usage_kit.Tower.Completion.{Tenant}

unfoldable pub fetched : PlaneError ⊎ Snapshot → ℕ → Option (ℕ × Snapshot) → Option (ℕ × Snapshot)
fetched (inl error) now found = found
fetched (inr snapshot) now found = some (now, snapshot)

-- The newest snapshot that a round fetched, with its time.
unfoldable pub newest : Option (ℕ × Snapshot) → List (ℕ × Reply Snapshot) → Option (ℕ × Snapshot)
newest found [] = found
newest found ((now, reply) ∷ rounds) = newest (fetched (called reply) now found) rounds

-- The last entry of a key.
unfoldable pub entry_for : Str → List SnapshotEntry → Option SnapshotEntry
entry_for key [] = none
entry_for key (entry ∷ entries) = elim (entry_for key entries) [
  | some later ↦ some later
  | none ↦ if str_eq entry.api_key_sha256 key then some entry else none
]

-- The entry that a key is served from: the last of the newest snapshot, as long as that is not older
-- than the staleness budget.
unfoldable pub current_entry : ℕ → List (ℕ × Reply Snapshot) → ℕ → Str → Option SnapshotEntry
current_entry max_stale rounds now key = newest none rounds >>= λ found.
    if ltb max_stale (now - found.0) then none else entry_for key (found.1).tenants

abbrev or_else : Option Cached → Option Cached → Option Cached
or_else none found = found
or_else (some cached) found = some cached

collect-lookup :
    (key : Str) (entries : List SnapshotEntry) (found : List (Str × Cached))
    → Assoc.lookup key (collect entries found)
      ≡ or_else (Option.map cached_of (entry_for key entries)) (Assoc.lookup key found)
unfolding collect entry_for
collect-lookup key [] found = refl
collect-lookup key (entry ∷ entries) found =
    collect-lookup key entries (Assoc.insert entry.api_key_sha256 (cached_of entry) found)
    ∙ step (entry_for key entries)
  where
    step :
        (later : Option SnapshotEntry)
        → or_else
            (Option.map cached_of later)
            (Assoc.lookup key (Assoc.insert entry.api_key_sha256 (cached_of entry) found))
          ≡ or_else
              (Option.map cached_of (elim later [
                | some l ↦ some l
                | none ↦ if str_eq entry.api_key_sha256 key then some entry else none
              ]))
              (Assoc.lookup key found)
    step (some l) = refl
    step none = ground (arith, Assoc.lookup-insert entry.api_key_sha256 key (cached_of entry) found)

-- What the store holds after some rounds that started from a snapshot, or from none.
record Reflects (found : Option (ℕ × Snapshot)) (store : ControlPlaneTenantStore) : Type 0 where
  times : store.refreshed_at ≡ Option.map (λ (f : ℕ × Snapshot). f.0) found
  holds :
      (key : Str)
      → Assoc.lookup key store.entries
        ≡ (found >>= λ f. Option.map cached_of (entry_for key (f.1).tenants))

or_else-none : (found : Option Cached) → or_else found none ≡ found
or_else-none none = refl
or_else-none (some cached) = refl

Reflects-apply :
    (snapshot : Snapshot) (now : ℕ) (store : ControlPlaneTenantStore)
    → Reflects (some (now, snapshot)) (apply snapshot now store)
unfolding apply Assoc.lookup
Reflects-apply snapshot now store = record {
  times = refl;
  holds = λ key.
      collect-lookup key snapshot.tenants []
      ∙ or_else-none (Option.map cached_of (entry_for key snapshot.tenants));
}

Reflects-refreshed :
    (fetch : PlaneError ⊎ Snapshot) (now : ℕ) (found : Option (ℕ × Snapshot))
    (store : ControlPlaneTenantStore)
    → Reflects found store
    → Reflects (fetched fetch now found) (refreshed fetch now store)
unfolding fetched refreshed
Reflects-refreshed (inl error) now found store r = r
Reflects-refreshed (inr snapshot) now found store r = Reflects-apply snapshot now store

Reflects-rounds :
    (rounds : List (ℕ × Reply Snapshot)) (found : Option (ℕ × Snapshot))
    (store : ControlPlaneTenantStore)
    → Reflects found store
    → Reflects (newest found rounds) (refresh_rounds rounds store)
unfolding newest refresh_rounds
Reflects-rounds [] found store r = r
Reflects-rounds ((now, reply) ∷ rounds) found store r =
    Reflects-rounds rounds (fetched (called reply) now found) (refreshed (called reply) now store)
      (Reflects-refreshed (called reply) now found store r)

same_budget-refreshed :
    (fetch : PlaneError ⊎ Snapshot) (now : ℕ) (store : ControlPlaneTenantStore)
    → (refreshed fetch now store).max_stale ≡ store.max_stale
unfolding refreshed apply
same_budget-refreshed (inl error) now store = refl
same_budget-refreshed (inr snapshot) now store = refl

same_budget :
    (rounds : List (ℕ × Reply Snapshot)) (store : ControlPlaneTenantStore)
    → (refresh_rounds rounds store).max_stale ≡ store.max_stale
unfolding refresh_rounds
same_budget [] store = refl
same_budget ((now, reply) ∷ rounds) store =
    same_budget rounds (refreshed (called reply) now store)
    ∙ same_budget-refreshed (called reply) now store

-- The tenant that an entry names, field by field.
abbrev pub tenant_of : SnapshotEntry → Tenant
tenant_of entry = record {
  id = entry.tenant_id;
  billing_customer_id = entry.billing_customer_id;
  prices = entry.prices;
}

-- The usage, the price and the limits that an entry names, field by field.
abbrev pub quota_of : SnapshotEntry → Usage × ℕ × Limits
quota_of entry = (
  record { units = entry.committed_units; spend_micros = entry.committed_spend_micros },
  entry.unit_price_micros,
  record { max_units = entry.max_units; max_spend_micros = entry.max_spend_micros },
)

-- After any rounds of refreshing, failed ones among them, the store authenticates a key as the
-- tenant of the last entry for it in the newest snapshot that was fetched, with the entry's tenant
-- id, billing customer and prices, and gives as its quota the entry's committed units and spend, its
-- unit price and its limits on units and on spend; with no such snapshot, one older than the staleness budget,
-- or no such entry, it does neither. So a key that the newest snapshot leaves out is revoked at once,
-- an outage changes nothing until the budget is spent, and then every key is refused.
pub served_from_newest :
    (hash_api_key : Str → Str) (max_stale : ℕ) (rounds : List (ℕ × Reply Snapshot)) (now : ℕ)
    (api_key : Str)
    → let store = refresh_rounds rounds (new_store max_stale) in
      let entry = current_entry max_stale rounds now (hash_api_key api_key) in
      (authenticate hash_api_key store now api_key ≡ Option.map tenant_of entry)
      × (quota_for hash_api_key store now api_key ≡ Option.map quota_of entry)
unfolding authenticate quota_for is_stale current_entry cached_of
served_from_newest hash_api_key max_stale rounds now api_key =
    let start : Reflects none (new_store max_stale) =
      unfold new_store Assoc.lookup in (record { times = refl; holds = λ key. refl }) in
    let reflects = Reflects-rounds rounds none (new_store max_stale) start in
    let budget : (refresh_rounds rounds (new_store max_stale)).max_stale ≡ max_stale =
      unfold new_store in same_budget rounds (new_store max_stale) in
    ground (arith, reflects.times, reflects.holds (hash_api_key api_key), budget)
