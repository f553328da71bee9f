-- ===== src/Edge/Replay/Guard.antt =====
-- crates/mcp-usage-edge/src/mpp.rs, `ReplayGuard`: a reserved proof through a history of operations.
use mcp_usage_kit.Prelude.Assoc
use mcp_usage_kit.Prelude.Entries
use mcp_usage_kit.Edge.Replay.{ReplayGuard, guard_release, guard_reserve, is_recent, reserve_proof}
use mcp_usage_kit.Prelude.{
  All, Bool-cases, List, Str, [], arith, false, if◌then◌else◌, inl, inr, is_some, leb, length, not,
  refl, retain, some, str_eq, str_eq_iff, str_equal, strs_equal, true, ℕ, ◌&&◌, ◌+◌, ◌<◌, ◌∷◌, ◌≡◌,
  ◌≢◌, ◌≤◌,
}

pub data GuardOperation : Type 0 where
  reserving : ℕ → Str → GuardOperation
  releasing : Str → GuardOperation

unfoldable pub guard_step : ReplayGuard → GuardOperation → ReplayGuard
guard_step guard (reserving now key) = (guard_reserve guard now key).0
guard_step guard (releasing key) = guard_release guard key

unfoldable pub guard_run : ReplayGuard → List GuardOperation → ReplayGuard
guard_run guard [] = guard
guard_run guard (operation ∷ operations) = guard_run (guard_step guard operation) operations

-- An operation at a time from the first to before the last, that does not release the proof.
abbrev pub Spares : Str → ℕ → ℕ → GuardOperation → Type 0
Spares proof from to (reserving now key) = (from ≤ now) × (now < to)
Spares proof from to (releasing key) = key ≢ proof

-- The proof is held, reserved no earlier than at the given time.
record Spent (proof : Str) (from retain_for : ℕ) (guard : ReplayGuard) : Type 0 where
  reserved : ℕ
  found : Assoc.lookup proof guard.spent ≡ some reserved
  since : from ≤ reserved
  retention : guard.retain_for ≡ retain_for
  unique : Assoc.Unique guard.spent

kept :
    (guard : ReplayGuard) (proof : Str) (from retain_for now : ℕ)
    → from ≤ now
    → now < from + retain_for
    → (s : Spent proof from retain_for guard)
    → Assoc.lookup proof (retain (is_recent now guard.retain_for) guard.spent) ≡ some s.reserved
unfolding is_recent
kept guard proof from retain_for now n h s = ground (
  arith,
  s.found,
  s.since,
  s.retention,
  Entries.lookup-retain (is_recent now guard.retain_for) proof guard.spent s.unique,
)

Spent-reserve :
    (guard : ReplayGuard) (proof : Str) (from retain_for now : ℕ) (key : Str)
    → from ≤ now
    → now < from + retain_for
    → Spent proof from retain_for guard
    → Spent proof from retain_for (guard_reserve guard now key).0
unfolding guard_reserve reserve_proof
Spent-reserve guard proof from retain_for now key h k s =
    let recent = retain (is_recent now guard.retain_for) guard.spent in
    let unique = Entries.Unique-retain (is_recent now guard.retain_for) guard.spent s.unique in
    let found = kept guard proof from retain_for now h k s in
    let here : Spent proof from retain_for (record guard { spent = recent }) = record {
      reserved = s.reserved;
      found = found;
      since = s.since;
      retention = s.retention;
      unique = unique;
    } in
    let there : Spent proof from retain_for (record guard { spent = Assoc.insert key now recent }) =
      record {
        reserved = if str_eq key proof then now else s.reserved;
        found = ground (arith, found, Assoc.lookup-insert key proof now recent);
        since = ground (arith, s.since);
        retention = s.retention;
        unique = Assoc.Unique-insert key now recent unique;
      } in
    elim (Bool-cases
      (leb guard.capacity (length recent) && not (is_some (Assoc.lookup key recent)))) [
        | inl full ↦ rw full here
        | inr room ↦ rw room there
      ]

Spent-release :
    (guard : ReplayGuard) (proof : Str) (from retain_for : ℕ) (key : Str)
    → key ≢ proof
    → Spent proof from retain_for guard
    → Spent proof from retain_for (guard_release guard key)
unfolding guard_release
Spent-release guard proof from retain_for key h s = record {
  reserved = s.reserved;
  found = ground (arith, s.found, str_eq_iff key proof, Assoc.lookup-remove key proof guard.spent);
  since = s.since;
  retention = s.retention;
  unique = Assoc.Unique-remove key guard.spent s.unique;
}

Spent-run :
    (proof : Str) (from retain_for : ℕ) (operations : List GuardOperation) (guard : ReplayGuard)
    → All (Spares proof from (from + retain_for)) operations
    → Spent proof from retain_for guard
    → Spent proof from retain_for (guard_run guard operations)
unfolding guard_run guard_step
Spent-run proof from retain_for [] guard a s = s
Spent-run proof from retain_for (reserving now key ∷ operations) guard a s =
    Spent-run proof from retain_for operations (guard_reserve guard now key).0 a.1
      (Spent-reserve guard proof from retain_for now key a.0.0 a.0.1 s)
Spent-run proof from retain_for (releasing key ∷ operations) guard a s =
    Spent-run proof from retain_for operations (guard_release guard key) a.1
      (Spent-release guard proof from retain_for key a.0 s)

refused :
    (guard : ReplayGuard) (proof : Str) (from retain_for now : ℕ)
    → from ≤ now
    → now < from + retain_for
    → Spent proof from retain_for guard
    → (guard_reserve guard now proof).1 ≡ false
unfolding guard_reserve reserve_proof
refused guard proof from retain_for now n h s =
    ground (arith, kept guard proof from retain_for now n h s)

reserved :
    (guard : ReplayGuard) (proof : Str) (from : ℕ)
    → Assoc.Unique guard.spent
    → (guard_reserve guard from proof).1 ≡ true
    → Spent proof from guard.retain_for (guard_reserve guard from proof).0
unfolding guard_reserve reserve_proof
reserved guard proof from u h =
    let recent = retain (is_recent from guard.retain_for) guard.spent in
    let unique = Entries.Unique-retain (is_recent from guard.retain_for) guard.spent u in
    elim (Bool-cases
      (leb guard.capacity (length recent) && not (is_some (Assoc.lookup proof recent)))) [
        | inl full ↦ absurd (ground (arith, full))
        | inr room ↦ rw room (record {
          reserved = from;
          found =
              ground (arith, str_eq_iff proof proof, Assoc.lookup-insert proof proof from recent);
          since = omega arith;
          retention = refl;
          unique = Assoc.Unique-insert proof from recent unique;
        })
      ]

-- A proof that the guard reserved is refused at every time within its retention, whatever other
-- proofs are reserved and released in between, and however often it is presented again itself,
-- as long as it is not released: no sequence of operations makes the guard forget it early, a full
-- set included.
pub guard_once :
    (guard : ReplayGuard) (proof : Str) (from now : ℕ) (operations : List GuardOperation)
    → Assoc.Unique guard.spent
    → (guard_reserve guard from proof).1 ≡ true
    → All (Spares proof from (from + guard.retain_for)) operations
    → from ≤ now
    → now < from + guard.retain_for
    → (guard_reserve (guard_run (guard_reserve guard from proof).0 operations) now proof).1 ≡ false
guard_once guard proof from now operations u h a n k =
    refused (guard_run (guard_reserve guard from proof).0 operations) proof from guard.retain_for
      now n k
      (Spent-run proof from guard.retain_for operations (guard_reserve guard from proof).0 a
        (reserved guard proof from u h))
