-- ===== src/Edge/Payment/History.antt =====
-- crates/mcp-usage-edge/src/mpp.rs: verifications that run side by side against one replay store.
-- `verify` waits for the payment method between its two steps, and any other steps may come between;
-- a caller may also drop a verification that waits. A presentation has two times: when the wall clock
-- is read for its checks, which change nothing, and when the store reads its own clock to reserve. The
-- wall clock and the clock of instants run together: `boot` is the wall clock's time when the instants
-- start.
use mathlib.Core.Option
use mcp_usage_kit.Edge.Payment.{Credential, Packages, PaymentRequest, Receipt}
use mcp_usage_kit.Edge.Payment.Challenge.{parse_credential}
use mcp_usage_kit.Edge.Payment.Verify.{
  Checked, Identity, Payments, Waiting, begin_verify, check_challenge, finish_verify, second,
}
use mcp_usage_kit.Edge.Replay.{ReplayStore, Reservation}
use mcp_usage_kit.Edge.Timestamp.{format, from_unix}
use mcp_usage_kit.Edge.Timestamp.RoundTrip.{last_second}
use mcp_usage_kit.Prelude.{
  All, List, Option, Str, [], inl, inr, none, some, suc, zero, ℕ, ◌+◌, ◌/◌, ◌∷◌, ◌≡◌, ◌≢◌, ◌≤◌,
}

pub data Event : Type 0 where
  present : ℕ → ℕ → Str → Str → Str → Str → Identity → ℕ → Event
  answer : ℕ → Checked Str → Event
  cancel : ℕ → Event

-- The store, the verifications that wait, and the reservations of those that gave a receipt.
pub record Run (S : Type 0) : Type 0 where
  pub store : S
  pub waiting : List Waiting
  pub settled : List Reservation

unfoldable pub take_at {ℓ} : {A : Type ℓ} → ℕ → List A → Option (A × List A)
take_at n [] = none
take_at zero (x ∷ xs) = some (x, xs)
take_at (suc n) (x ∷ xs) = Option.map (λ r. (r.0, x ∷ r.1)) (take_at n xs)

module _ {S : Type 0} where
  unfoldable pub presented : Run S → S × Checked Waiting → Run S
  presented run (store, inl error) = record run { store = store }
  presented run (store, inr w) = record run { store = store; waiting = w ∷ run.waiting }

  unfoldable pub concluded : Run S → List Waiting → Reservation → S × Checked Receipt → Run S
  concluded run rest reservation (store, inl error) = record run { store = store; waiting = rest }
  concluded run rest reservation (store, inr receipt) = record {
    store = store;
    waiting = rest;
    settled = reservation ∷ run.settled;
  }

  unfoldable pub cancelled : Run S → Option (Waiting × List Waiting) → Run S
  cancelled run none = run
  cancelled run (some (w, rest)) = record run { waiting = rest }

module _ {S : Type 0} (replay : ReplayStore S) where
  unfoldable pub answered : Run S → Checked Str → Option (Waiting × List Waiting) → Run S
  answered run outcome none = run
  answered run outcome (some (w, rest)) =
      concluded run rest w.reservation (finish_verify replay run.store w outcome)

unfoldable pub unix : ℕ → ℕ → ℕ
unix boot instant = (boot + instant) / second

module _ (p : Packages) {S : Type 0} (replay : ReplayStore S) (service : Payments) (boot : ℕ) where
  unfoldable pub step : Run S → Event → Run S
  step run (present checked instant owner header_value tenant body identity amount) =
      presented run (
        begin_verify p replay service run.store instant owner header_value tenant body identity
          amount (from_unix (unix boot checked)))
  step run (answer n outcome) = answered replay run outcome (take_at n run.waiting)
  step run (cancel n) = cancelled run (take_at n run.waiting)

  unfoldable pub run_all : Run S → List Event → Run S
  run_all run [] = run
  run_all run (event ∷ events) = run_all (step run event) events

-- The times of the presentations do not fall.
abbrev pub InOrder : ℕ → List Event → Type 0
InOrder t [] = Unit
InOrder t (present checked instant owner header_value tenant body identity amount ∷ events) =
    (t ≤ instant) × InOrder instant events
InOrder t (answer n outcome ∷ events) = InOrder t events
InOrder t (cancel n ∷ events) = InOrder t events

-- A reservation is made after the clock is read for the checks, and with at most a delay.
abbrev pub Prompt : ℕ → Event → Type 0
Prompt delay (present checked instant owner header_value tenant body identity amount) =
    (checked ≤ instant) × (instant ≤ checked + delay)
Prompt delay (answer n outcome) = Unit
Prompt delay (cancel n) = Unit

-- No challenge can be forged: a challenge that passes every check is one that this server issued
-- under its identifier, with the expiry that it issued it with. This is asked of no other echo, such
-- as one whose fields are cut at other bars, which verifies but fails a later check. Dates keep four
-- digits of years.
abbrev pub Genuine : Packages → Payments → ℕ → (Str → ℕ) → Event → Type 0
Genuine p service boot expiry
      (present checked instant owner header_value tenant body identity amount) =
    (unix boot checked + service.ttl / second ≤ last_second)
    × ((credential : Credential) (request : PaymentRequest)
        → parse_credential p header_value ≡ some credential
        → check_challenge p service credential.challenge tenant body identity amount
            (from_unix (unix boot checked))
          ≡ inr request
        → (credential.challenge.expires ≡ some (format (expiry credential.challenge.id)))
          × (expiry credential.challenge.id ≤ last_second))
Genuine p service boot expiry (answer n outcome) = Unit
Genuine p service boot expiry (cancel n) = Unit

-- No key twice.
abbrev pub Unspent : Str → List Reservation → Type 0
Unspent key rs = All (λ r. r.key ≢ key) rs

abbrev pub Distinct : List Reservation → Type 0
Distinct [] = Unit
Distinct (r ∷ rs) = Unspent r.key rs × Distinct rs
