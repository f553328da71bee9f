-- ===== src/Edge/Replay.antt =====
-- crates/mcp-usage-edge/src/replay.rs and `ReplayGuard` of mpp.rs: reservations of payment proofs.
-- `ReplayStore` is the trait, with the laws that a client relies on; the in-memory store fills it.
-- The time is what an operation reads from the clock, the owner the UUID that it draws.
pub mod Memory
pub mod Guard
mod Tests
use mcp_usage_kit.Prelude.Assoc
use mcp_usage_kit.Prelude.{
  Bool, List, Option, Str, [], false, if◌then◌else◌, inl, inr, is_some, is_some_and, leb, length,
  ltb, none, not, retain, some, str_eq, str_equal, strs_equal, ℕ, ◌&&◌, ◌+◌, ◌-◌, ◌<◌, ◌==◌, ◌≡◌,
  ◌≢◌, ◌≤◌, ◌⊎◌,
}
use mcp_usage_kit.Tower.Task.Invariant.{IsValid}

-- An owned reservation. Only its owner may release it.
pub record Reservation : Type 0 where
  pub key : Str
  pub owner : Str

pub data ReplayStoreError : Type 0 where
  replay_store_error : ReplayStoreError

abbrev pub Reserved : Type 0
Reserved = ReplayStoreError ⊎ Option Reservation

abbrev pub Released : Type 0
Released = ReplayStoreError ⊎ Unit {0}

-- The shared backend: who holds a stored key at a time, and what the operations promise about it. A
-- backend stores a key under a name of its own, such as a prefix and a hash, which are taken to tell
-- keys apart, and may let a reservation end a grain earlier than asked, as one that counts whole
-- milliseconds does.
pub record ReplayStore (S : Type 0) : Type 1 where
  pub IsValid : S → Type 0
  pub name_of : Str → Str
  pub grain : ℕ
  pub holder : S → ℕ → Str → Option Str
  pub reserve : S → ℕ → Str → Str → ℕ → S × Reserved
  pub release : S → Reservation → S × Released
  pub reserve-IsValid :
      (s : S) (now : ℕ) (owner key : Str) (retain_for : ℕ)
      → IsValid s
      → IsValid (reserve s now owner key retain_for).0
  pub release-IsValid : (s : S) (r : Reservation) → IsValid s → IsValid (release s r).0
  pub same_name : (j k : Str) → name_of j ≡ name_of k → j ≡ k
  pub reserve-free :
      (s : S) (now : ℕ) (owner key : Str) (retain_for : ℕ) (r : Reservation)
      → IsValid s
      → (reserve s now owner key retain_for).1 ≡ inr (some r)
      → (holder s now (name_of key) ≡ none) × (r ≡ record { key = name_of key; owner = owner })
  pub reserve-held :
      (s : S) (now : ℕ) (owner key : Str) (retain_for : ℕ) (r : Reservation) (t : ℕ)
      → IsValid s
      → (reserve s now owner key retain_for).1 ≡ inr (some r)
      → now ≤ t
      → t + grain < now + retain_for
      → holder (reserve s now owner key retain_for).0 t (name_of key) ≡ some owner
  pub reserve-keeps :
      (s : S) (now : ℕ) (owner key : Str) (retain_for t : ℕ) (k o : Str)
      → IsValid s
      → now ≤ t
      → holder s t k ≡ some o
      → holder (reserve s now owner key retain_for).0 t k ≡ some o
  pub release-keeps :
      (s : S) (r : Reservation) (t : ℕ) (k o : Str)
      → IsValid s
      → holder s t k ≡ some o
      → r ≢ record { key = k; owner = o }
      → holder (release s r).0 t k ≡ some o

-- Each key with its expiry and owner.
pub record InMemoryReplayStore : Type 0 where
  pub entries : List (Str × (ℕ × Str))

abbrev pub max_reservations : ℕ
max_reservations = 100000

unfoldable pub is_live : ℕ → Str × (ℕ × Str) → Bool
is_live now (key, (expires, owner)) = ltb now expires

-- Under the lock, once the expired entries are gone.
unfoldable pub reserve_live :
    ℕ → Str → Str → List (Str × (ℕ × Str)) → InMemoryReplayStore × Reserved
reserve_live expiry owner key entries =
    if is_some (Assoc.lookup key entries)
    then (record { entries = entries }, inr none)
    else if leb max_reservations (length entries)
    then (record { entries = entries }, inl replay_store_error)
    else (
      record { entries = Assoc.insert key (expiry, owner) entries },
      inr (some (record { key = key; owner = owner })),
    )

-- The latest instant that the clock can represent bounds the expiry.
unfoldable pub reserve :
    ℕ → InMemoryReplayStore → ℕ → Str → Str → ℕ → InMemoryReplayStore × Reserved
reserve latest store now owner key retain_for =
    if leb (now + retain_for) latest && not (retain_for == 0)
    then reserve_live (now + retain_for) owner key (retain (is_live now) store.entries)
    else (store, inl replay_store_error)

unfoldable pub release : InMemoryReplayStore → Reservation → InMemoryReplayStore × Released
release store r =
    if is_some_and (Assoc.lookup r.key store.entries) (λ entry. str_eq entry.1 r.owner)
    then (record { entries = Assoc.remove r.key store.entries }, inr tt)
    else (store, inr tt)

-- `ReplayGuard`: each spent proof with the time of its reservation.
pub record ReplayGuard : Type 0 where
  pub spent : List (Str × ℕ)
  pub retain_for : ℕ
  pub capacity : ℕ

unfoldable pub new_guard : ℕ → ℕ → ReplayGuard
new_guard capacity retain_for = record { spent = []; retain_for = retain_for; capacity = capacity }

-- `duration_since` stops at zero, as the subtraction here does.
unfoldable pub is_recent : ℕ → ℕ → Str × ℕ → Bool
is_recent now retain_for (key, reserved) = ltb (now - reserved) retain_for

unfoldable pub reserve_proof : List (Str × ℕ) → ℕ → Str → ReplayGuard → ReplayGuard × Bool
reserve_proof spent now key guard =
    if leb guard.capacity (length spent) && not (is_some (Assoc.lookup key spent))
    then (record guard { spent = spent }, false)
    else (
      record guard { spent = Assoc.insert key now spent },
      not (is_some (Assoc.lookup key spent)),
    )

unfoldable pub guard_reserve : ReplayGuard → ℕ → Str → ReplayGuard × Bool
guard_reserve guard now key =
    reserve_proof (retain (is_recent now guard.retain_for) guard.spent) now key guard

unfoldable pub guard_release : ReplayGuard → Str → ReplayGuard
guard_release guard key = record guard { spent = Assoc.remove key guard.spent }

unfoldable pub guard_len : ReplayGuard → ℕ
guard_len guard = length guard.spent
