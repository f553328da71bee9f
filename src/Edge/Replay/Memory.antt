-- ===== src/Edge/Replay/Memory.antt =====
-- crates/mcp-usage-edge/src/replay.rs, the in-memory store: it fills the trait with its laws.
use mcp_usage_kit.Prelude.Assoc
use mcp_usage_kit.Prelude.Entries
use mcp_usage_kit.Edge.Replay.{
  InMemoryReplayStore, ReplayStore, Reservation, is_live, max_reservations, release, reserve,
  reserve_live,
}
use mcp_usage_kit.Prelude.{
  Bool, Bool-cases, Option, Option-cases, Str, ap, arith, if◌then◌else◌, inl, inr, is_some, leb,
  length, ltb, none, not, refl, retain, some, str_eq, str_eq_iff, str_equal, strs_equal, true, ℕ,
  ◌&&◌, ◌+◌, ◌<◌, ◌==◌, ◌>>=◌, ◌↔◌, ◌∙◌, ◌≡◌, ◌≢◌, ◌≤◌,
}

unfoldable pub holder : InMemoryReplayStore → ℕ → Str → Option Str
holder store t key =
    Assoc.lookup key store.entries >>= λ entry. if ltb t entry.0 then some entry.1 else none

abbrev pub OneEach : InMemoryReplayStore → Type 0
OneEach store = Assoc.Unique store.entries

-- The store once what has expired is gone.
abbrev pub swept : ℕ → InMemoryReplayStore → InMemoryReplayStore
swept now store = record { entries = retain (is_live now) store.entries }

-- Whether a reservation is granted: in time, free, and with room.
unfoldable pub grants : ℕ → InMemoryReplayStore → ℕ → Str → ℕ → Bool
grants latest store now key retain_for =
    leb (now + retain_for) latest
    && not (retain_for == 0)
    && not (is_some (holder store now key))
    && ltb (length (retain (is_live now) store.entries)) max_reservations

swept-lookup :
    (now : ℕ) (store : InMemoryReplayStore) (key : Str)
    → OneEach store
    → is_some (Assoc.lookup key (retain (is_live now) store.entries))
      ≡ is_some (holder store now key)
unfolding holder is_live
swept-lookup now store key u =
    rw (Entries.lookup-retain (is_live now) key store.entries u)
      (elim (Option-cases (Assoc.lookup key store.entries)) [
        | inl e ↦ rw e refl
        | inr (entry, e) ↦ rw e (ground arith)
      ])

swept-holder :
    (now t : ℕ) (store : InMemoryReplayStore) (key : Str)
    → OneEach store
    → now ≤ t
    → holder (swept now store) t key ≡ holder store t key
unfolding holder is_live
swept-holder now t store key u h =
    rw (Entries.lookup-retain (is_live now) key store.entries u)
      (elim (Option-cases (Assoc.lookup key store.entries)) [
        | inl e ↦ rw e refl
        | inr (entry, e) ↦ rw e (ground arith)
      ])

pub reserve-OneEach :
    (latest : ℕ) (store : InMemoryReplayStore) (now : ℕ) (owner key : Str) (retain_for : ℕ)
    → OneEach store
    → OneEach (reserve latest store now owner key retain_for).0
unfolding reserve reserve_live
reserve-OneEach latest store now owner key retain_for u =
    let v = Entries.Unique-retain (is_live now) store.entries u in
    ground (
      arith,
      v,
      Assoc.Unique-insert key (now + retain_for, owner) (retain (is_live now) store.entries) v,
    )

pub release-OneEach :
    (store : InMemoryReplayStore) (r : Reservation) → OneEach store → OneEach (release store r).0
unfolding release
release-OneEach store r u = ground (arith, Assoc.Unique-remove r.key store.entries u)

-- Who holds a key after a reservation, as the specification has it.
unfoldable pub holder_after : ℕ → InMemoryReplayStore → ℕ → Str → Str → ℕ → ℕ → Str → Option Str
holder_after latest store now owner key retain_for t k =
    if grants latest store now key retain_for && str_eq key k
    then (if ltb t (now + retain_for) then some owner else none)
    else holder store t k

inserted-holder :
    (store : InMemoryReplayStore) (expiry : ℕ) (owner key : Str) (t : ℕ) (k : Str)
    → holder (record { entries = Assoc.insert key (expiry, owner) store.entries }) t k
      ≡ (if str_eq key k then (if ltb t expiry then some owner else none) else holder store t k)
unfolding holder
inserted-holder store expiry owner key t k =
    rw (Assoc.lookup-insert key k (expiry, owner) store.entries)
      (elim (Bool-cases (str_eq key k)) [ inl e ↦ rw e refl | inr e ↦ rw e refl ])

-- The in-memory store does what the specification of reservations says: a key is granted exactly
-- when the retention is positive and can be represented, nobody holds the key, and fewer than
-- 100,000 keys are held; the reservation names the key and its owner. From then on a granted key is
-- held by its owner until the retention is over, and every other key, or every key where none is
-- granted, is held by whom it was.
pub reserve-refines :
    (latest : ℕ) (store : InMemoryReplayStore) (now : ℕ) (owner key : Str) (retain_for t : ℕ)
    (k : Str)
    → OneEach store
    → now ≤ t
    → (((reserve latest store now owner key retain_for).1
          ≡ inr (some (record { key = key; owner = owner })))
        ↔ (grants latest store now key retain_for ≡ true))
      × (holder (reserve latest store now owner key retain_for).0 t k
          ≡ holder_after latest store now owner key retain_for t k)
unfolding reserve reserve_live grants holder_after
reserve-refines latest store now owner key retain_for t k u h = ground (
  arith,
  swept-lookup now store key u,
  swept-holder now t store k u h,
  inserted-holder (swept now store) (now + retain_for) owner key t k,
)

pub reserve-granted :
    (latest : ℕ) (store : InMemoryReplayStore) (now : ℕ) (owner key : Str) (retain_for : ℕ)
    (r : Reservation)
    → OneEach store
    → (reserve latest store now owner key retain_for).1 ≡ inr (some r)
    → (grants latest store now key retain_for ≡ true) × (r ≡ record { key = key; owner = owner })
unfolding reserve reserve_live grants
reserve-granted latest store now owner key retain_for r u h =
    ground (arith, swept-lookup now store key u)

pub reserve-free :
    (latest : ℕ) (store : InMemoryReplayStore) (now : ℕ) (owner key : Str) (retain_for : ℕ)
    (r : Reservation)
    → OneEach store
    → (reserve latest store now owner key retain_for).1 ≡ inr (some r)
    → (holder store now key ≡ none) × (r ≡ record { key = key; owner = owner })
unfolding grants
reserve-free latest store now owner key retain_for r u h =
    let granted = reserve-granted latest store now owner key retain_for r u h in
    elim (Option-cases (holder store now key)) [
      | inl unheld ↦ (unheld, granted.1)
      | inr (o, held) ↦ absurd (ground (arith, granted.0))
    ]

pub reserve-held :
    (latest : ℕ) (store : InMemoryReplayStore) (now : ℕ) (owner key : Str) (retain_for : ℕ)
    (r : Reservation) (t : ℕ)
    → OneEach store
    → (reserve latest store now owner key retain_for).1 ≡ inr (some r)
    → now ≤ t
    → t < now + retain_for
    → holder (reserve latest store now owner key retain_for).0 t key ≡ some owner
unfolding holder_after
reserve-held latest store now owner key retain_for r t u h n e = ground (
  arith,
  (reserve-granted latest store now owner key retain_for r u h).0,
  str_eq_iff key key,
  (reserve-refines latest store now owner key retain_for t key u n).1,
)

pub reserve-keeps :
    (latest : ℕ) (store : InMemoryReplayStore) (now : ℕ) (owner key : Str) (retain_for t : ℕ)
    (k o : Str)
    → OneEach store
    → now ≤ t
    → holder store t k ≡ some o
    → holder (reserve latest store now owner key retain_for).0 t k ≡ some o
unfolding holder_after grants holder
reserve-keeps latest store now owner key retain_for t k o u n h = elim (Bool-cases (str_eq key k)) [
  | inl same ↦
      let e : key ≡ k = (str_eq_iff key k).0 same in
      ground (
        arith,
        e,
        (reserve-refines latest store now owner key retain_for t k u n).1,
        ap (λ (j : Str). Assoc.lookup j store.entries) e,
      )
  | inr differs ↦ ground (arith, (reserve-refines latest store now owner key retain_for t k u n).1)
]

pub release-keeps :
    (store : InMemoryReplayStore) (r : Reservation) (t : ℕ) (k o : Str)
    → OneEach store
    → holder store t k ≡ some o
    → r ≢ record { key = k; owner = o }
    → holder (release store r).0 t k ≡ some o
unfolding release holder
release-keeps store r t k o u h differs = elim (Bool-cases (str_eq r.key k)) [
  | inl same ↦
      let e : r.key ≡ k = (str_eq_iff r.key k).0 same in
      let look = ap (λ (j : Str). Assoc.lookup j store.entries) e in
      elim (Option-cases (Assoc.lookup k store.entries)) [
        | inl gone ↦ absurd (ground arith)
        | inr (entry, found) ↦ elim (Bool-cases (str_eq entry.1 r.owner)) [
          | inl owns ↦
              let mine : entry.1 ≡ r.owner = (str_eq_iff entry.1 r.owner).0 owns in
              absurd (differs (ground arith))
          | inr foreign ↦ rw (look ∙ found) (rw foreign (rw found (rw found at h)))
        ]
      ]
  | inr elsewhere ↦ ground (arith, elsewhere, Assoc.lookup-remove r.key k store.entries)
]

-- The store as the trait has it.
abbrev pub in_memory : ℕ → ReplayStore InMemoryReplayStore
in_memory latest = record {
  IsValid = OneEach;
  name_of = λ key. key;
  grain = 0;
  holder = holder;
  reserve = reserve latest;
  release = release;
  reserve-IsValid = reserve-OneEach latest;
  release-IsValid = release-OneEach;
  same_name = λ j k e. e;
  reserve-free = reserve-free latest;
  reserve-held = λ s now owner key retain_for r t valid granted after before.
      reserve-held latest s now owner key retain_for r t valid granted after
        (omega (arith, before));
  reserve-keeps = reserve-keeps latest;
  release-keeps = release-keeps;
}
