-- ===== src/Edge/Payment/Once.antt =====
-- crates/mcp-usage-edge/src/mpp.rs and replay.rs: no challenge is settled twice.
use mcp_usage_kit.Edge.Payment.{
  ChallengeParams, Credential, Packages, PaymentError, PaymentRequest, digest_mismatch, expired,
  insufficient, invalid_challenge, malformed, method_unsupported, not_settled, required,
  unavailable, verification_failed,
}
use mcp_usage_kit.Edge.Payment.Challenge.{binding_is_valid, parse_credential}
use mcp_usage_kit.Edge.Payment.History.{
  Distinct, Event, Genuine, InOrder, Prompt, Run, Unspent, answer, answered, cancel, cancelled,
  concluded, present, presented, run_all, step, take_at, unix,
}
use mcp_usage_kit.Edge.Payment.Redeem.{is_answerable-issued}
use mcp_usage_kit.Edge.Payment.Taken.{All-both, All-imp, All-take_at, Apart, Apart-take_at}
use mcp_usage_kit.Edge.Payment.Verify.{
  Checked, Identity, Payments, PaymentsConfig, Waiting, begin_parsed, begin_verify, check_challenge,
  ensure, finish_verify, give_back, is_answerable, new_payments, ok_or, reserve_checked,
  reserved_for, second,
}
use mcp_usage_kit.Edge.Replay.{Released, ReplayStore, ReplayStoreError, Reservation, Reserved}
use mcp_usage_kit.Edge.Timestamp.{Rfc3339, format, from_unix}
use mcp_usage_kit.Edge.Timestamp.RoundTrip.{last_second}
use mcp_usage_kit.Prelude.{
  All, List, Option-cases, Str, [], ap, arith, inl, inr, none, refl, some, subst, sym, true, ℕ, ◌*◌,
  ◌+◌, ◌/◌, ◌<◌, ◌∙◌, ◌∷◌, ◌≡◌, ◌≢◌, ◌≤◌, ◌⊎◌,
}

Released-cases :
    (reply : Released) → ((error : ReplayStoreError) × (reply ≡ inl error)) ⊎ (reply ≡ inr tt)
Released-cases (inl error) = inl (error, refl)
Released-cases (inr tt) = inr refl

-- An accepted challenge has an expiry that is answerable, and its binding verifies.
accepted-facts :
    (p : Packages) (service : Payments) (c : ChallengeParams) (tenant body : Str)
    (identity : Identity) (amount : ℕ) (now : Rfc3339) (request : PaymentRequest)
    → check_challenge p service c tenant body identity amount now ≡ inr request
    → (binding_is_valid p service.secret c ≡ true)
      × ((expires : Str) × (c.expires ≡ some expires) × (is_answerable service now expires ≡ true))
unfolding check_challenge ensure ok_or
accepted-facts p service c tenant body identity amount now request h =
    elim (Option-cases c.expires) [
      | inl e ↦ absurd (ground (arith, e))
      | inr (expires, e) ↦ (ground (arith, e), (expires, e, ground (arith, e)))
    ]

module _ (p : Packages) {S : Type 0} (replay : ReplayStore S) (service : Payments) (boot : ℕ)
    (expiry : Str → ℕ) (delay : ℕ) (lasting : second + delay + replay.grain ≤ service.ttl)
    (twice : service.retain_for ≡ service.ttl * 2) where
  -- A reservation that holds its key to the end of its retention, by which time its challenge has
  -- expired.
  record Held (s : S) (t : ℕ) (r : Reservation) : Type 0 where
    id : Str
    named : r.key ≡ replay.name_of id
    since : ℕ
    bounded : expiry id ≤ unix boot since + service.ttl / second
    holds :
        (u : ℕ)
        → t ≤ u
        → u + replay.grain < since + service.retain_for
        → replay.holder s u r.key ≡ some r.owner

  record Sound (t : ℕ) (run : Run S) : Type 0 where
    valid : replay.IsValid run.store
    settled_held : All (Held run.store t) run.settled
    waiting_held : All (λ w. Held run.store t w.reservation) run.waiting
    settled_apart : Distinct run.settled
    waiting_apart : Apart run.waiting
    apart : All (λ w. Unspent w.reservation.key run.settled) run.waiting

  -- A challenge that may still be answered is within the retention of its reservation.
  in_retention :
      (since checked u e : ℕ)
      → e ≤ unix boot since + service.ttl / second
      → unix boot checked ≤ e
      → u ≤ checked + delay
      → u + replay.grain < since + service.retain_for
  unfolding unix
  in_retention since checked u e h k l = omega (arith, twice, lasting)

  answerable :
      (instant e : ℕ)
      → e ≤ last_second
      → unix boot instant + service.ttl / second ≤ last_second
      → is_answerable service (from_unix (unix boot instant)) (format e) ≡ true
      → (unix boot instant ≤ e) × (e ≤ unix boot instant + service.ttl / second)
  answerable instant e h k a =
      ground (arith, is_answerable-issued service (unix boot instant) e h k)

  Held-later : (s : S) (t u : ℕ) (r : Reservation) → t ≤ u → Held s t r → Held s u r
  Held-later s t u r h held = record {
    id = held.id;
    named = held.named;
    since = held.since;
    bounded = held.bounded;
    holds = λ v k. held.holds v (omega arith);
  }

  Held-reserve :
      (s : S) (t : ℕ) (owner key : Str) (r : Reservation)
      → replay.IsValid s
      → Held s t r
      → Held (replay.reserve s t owner key service.retain_for).0 t r
  Held-reserve s t owner key r valid held = record {
    id = held.id;
    named = held.named;
    since = held.since;
    bounded = held.bounded;
    holds = λ u k l.
        replay.reserve-keeps s t owner key service.retain_for u r.key r.owner valid k
          (held.holds u k l);
  }

  Held-release :
      (s : S) (t : ℕ) (q r : Reservation)
      → replay.IsValid s
      → q.key ≢ r.key
      → Held s t r
      → Held (replay.release s q).0 t r
  Held-release s t q r valid differs held = record {
    id = held.id;
    named = held.named;
    since = held.since;
    bounded = held.bounded;
    holds = λ u k l.
        replay.release-keeps s q u r.key r.owner valid (held.holds u k l)
          (λ e. differs (ap (λ (x : Reservation). x.key) e));
  }

  Sound-later : (t u : ℕ) (run : Run S) → t ≤ u → Sound t run → Sound u run
  Sound-later t u run h s = record {
    valid = s.valid;
    settled_held =
        All-imp (Held run.store t) (Held run.store u) run.settled
          (λ r. Held-later run.store t u r h) s.settled_held;
    waiting_held =
        All-imp (λ w. Held run.store t w.reservation) (λ w. Held run.store u w.reservation)
          run.waiting (λ w. Held-later run.store t u w.reservation h) s.waiting_held;
    settled_apart = s.settled_apart;
    waiting_apart = s.waiting_apart;
    apart = s.apart;
  }

  -- The store after a reservation, granted or not.
  Sound-reserve :
      (t : ℕ) (owner key : Str) (run : Run S)
      → Sound t run
      → Sound t (record run { store = (replay.reserve run.store t owner key service.retain_for).0 })
  Sound-reserve t owner key run s =
      let after = (replay.reserve run.store t owner key service.retain_for).0 in
      record {
        valid = replay.reserve-IsValid run.store t owner key service.retain_for s.valid;
        settled_held =
            All-imp (Held run.store t) (Held after t) run.settled
              (λ r. Held-reserve run.store t owner key r s.valid) s.settled_held;
        waiting_held =
            All-imp (λ w. Held run.store t w.reservation) (λ w. Held after t w.reservation)
              run.waiting (λ w. Held-reserve run.store t owner key w.reservation s.valid)
              s.waiting_held;
        settled_apart = s.settled_apart;
        waiting_apart = s.waiting_apart;
        apart = s.apart;
      }

  -- A key that is free soon after its challenge could be answered is no reservation's.
  fresh :
      (s : S) (checked t : ℕ) (key : Str) (r : Reservation)
      → replay.holder s t (replay.name_of key) ≡ none
      → unix boot checked ≤ expiry key
      → t ≤ checked + delay
      → Held s t r
      → r.key ≢ replay.name_of key
  fresh s checked t key r unheld time prompt held e =
      let same = replay.same_name held.id key (sym held.named ∙ e) in
      let now : unix boot checked ≤ expiry held.id =
        subst (λ k. unix boot checked ≤ expiry k) (sym same) time in
      let holds =
        held.holds t (omega arith)
          (in_retention held.since checked t (expiry held.id) held.bounded now prompt) in
      cc (subst (λ k. replay.holder s t k ≡ some r.owner) e holds)

  Held-new :
      (s : S) (t : ℕ) (owner key : Str) (r : Reservation)
      → replay.IsValid s
      → (replay.reserve s t owner key service.retain_for).1 ≡ inr (some r)
      → expiry key ≤ unix boot t + service.ttl / second
      → Held (replay.reserve s t owner key service.retain_for).0 t r
  Held-new s t owner key r valid granted bound =
      let named = (replay.reserve-free s t owner key service.retain_for r valid granted).1 in
      subst (Held (replay.reserve s t owner key service.retain_for).0 t) (sym named) (record {
        id = key;
        named = refl;
        since = t;
        bounded = bound;
        holds = λ u k l. replay.reserve-held s t owner key service.retain_for r u valid granted k l;
      })

  Sound-granted :
      (checked t : ℕ) (owner key : Str) (run : Run S) (w : Waiting)
      → Sound t run
      → (replay.reserve run.store t owner key service.retain_for).1 ≡ inr (some w.reservation)
      → unix boot checked ≤ expiry key
      → t ≤ checked + delay
      → expiry key ≤ unix boot t + service.ttl / second
      → Sound t (record run {
        store = (replay.reserve run.store t owner key service.retain_for).0;
        waiting = w ∷ run.waiting;
      })
  Sound-granted checked t owner key run w s granted time prompt bound =
      let kept = Sound-reserve t owner key run s in
      let free_key =
        replay.reserve-free run.store t owner key service.retain_for w.reservation s.valid
          granted in
      let named : w.reservation.key ≡ replay.name_of key =
        ap (λ (x : Reservation). x.key) free_key.1 in
      let new = λ (r : Reservation) (held : Held run.store t r).
        subst (λ k. r.key ≢ k) (sym named)
          (fresh run.store checked t key r free_key.0 time prompt held) in
      record {
        valid = kept.valid;
        settled_held = kept.settled_held;
        waiting_held =
            (Held-new run.store t owner key w.reservation s.valid granted bound, kept.waiting_held);
        settled_apart = s.settled_apart;
        waiting_apart = (
          All-imp (λ v. Held run.store t v.reservation) (λ v. v.reservation.key ≢ w.reservation.key)
              run.waiting (λ v. new v.reservation) s.waiting_held,
          s.waiting_apart,
        );
        apart = (
          All-imp (Held run.store t) (λ r. r.key ≢ w.reservation.key) run.settled new
              s.settled_held,
          s.apart,
        );
      }

  Sound-reserved :
      (checked t : ℕ) (run : Run S) (owner : Str) (credential : Credential)
      (request : PaymentRequest) (now : Rfc3339) (reply : Reserved)
      → Sound t run
      → unix boot checked ≤ expiry credential.challenge.id
      → t ≤ checked + delay
      → expiry credential.challenge.id ≤ unix boot t + service.ttl / second
      → (replay.reserve run.store t owner credential.challenge.id service.retain_for).1 ≡ reply
      → Sound t (
          presented run (
            (replay.reserve run.store t owner credential.challenge.id service.retain_for).0,
            reserved_for credential request now reply,
          ))
  unfolding presented reserved_for
  Sound-reserved checked t run owner credential request now (inl error) s time prompt bound e =
      Sound-reserve t owner credential.challenge.id run s
  Sound-reserved checked t run owner credential request now (inr none) s time prompt bound e =
      Sound-reserve t owner credential.challenge.id run s
  Sound-reserved checked t run owner credential request now (inr (some reservation)) s time prompt
        bound e =
      Sound-granted checked t owner credential.challenge.id run
        (record {
          credential = credential;
          request = request;
          reservation = reservation;
          now = now;
        })
        s e time prompt bound

  Sound-begun :
      (checked t : ℕ) (run : Run S) (owner : Str) (credential : Credential) (tenant body : Str)
      (identity : Identity) (amount : ℕ) (checks : Checked PaymentRequest)
      → Sound t run
      → checked ≤ t
      → t ≤ checked + delay
      → unix boot checked + service.ttl / second ≤ last_second
      → ((request : PaymentRequest)
          → checks ≡ inr request
          → (credential.challenge.expires ≡ some (format (expiry credential.challenge.id)))
            × (expiry credential.challenge.id ≤ last_second))
      → check_challenge p service credential.challenge tenant body identity amount
          (from_unix (unix boot checked))
        ≡ checks
      → Sound t (
          presented run (
            reserve_checked p replay service run.store t owner credential
              (from_unix (unix boot checked))
              checks))
  unfolding presented reserve_checked unix
  Sound-begun checked t run owner credential tenant body identity amount (inl error) s before prompt
        small issued e =
      s
  Sound-begun checked t run owner credential tenant body identity amount (inr request) s before
        prompt small issued e =
      let facts =
        accepted-facts p service credential.challenge tenant body identity amount
          (from_unix (unix boot checked)) request e in
      let real = issued request refl in
      let (expires, found, good) = facts.1 in
      let same_text : expires ≡ format (expiry credential.challenge.id) = cc (found, real.0) in
      let window = answerable checked (expiry credential.challenge.id) real.1 small (
        subst (λ text. is_answerable service (from_unix (unix boot checked)) text ≡ true) same_text
          good) in
      let bound : expiry credential.challenge.id ≤ unix boot t + service.ttl / second =
        omega (arith, window.1, before) in
      Sound-reserved checked t run owner credential request (from_unix (unix boot checked))
        (replay.reserve run.store t owner credential.challenge.id service.retain_for).1 s window.0
        prompt bound refl

  Sound-present :
      (checked t : ℕ) (run : Run S) (owner header_value tenant body : Str) (identity : Identity)
      (amount : ℕ)
      → Genuine p service boot expiry
          (present checked t owner header_value tenant body identity amount)
      → Prompt delay (present checked t owner header_value tenant body identity amount)
      → Sound t run
      → Sound t (
          step p replay service boot run
            (present checked t owner header_value tenant body identity amount))
  unfolding step begin_verify begin_parsed presented
  Sound-present checked t run owner header_value tenant body identity amount genuine prompt s =
      elim (Option-cases (parse_credential p header_value)) [
        | inl e ↦ rw e s
        | inr (credential, e) ↦ rw e (
            Sound-begun checked t run owner credential tenant body identity amount
              (check_challenge p service credential.challenge tenant body identity amount
                (from_unix (unix boot checked)))
              s prompt.0 prompt.1 genuine.0 (λ request. genuine.1 credential request e) refl)
      ]

  -- A verification leaves the waiting ones.
  Sound-taken :
      (t n : ℕ) (run : Run S) (w : Waiting) (rest : List Waiting)
      → take_at n run.waiting ≡ some (w, rest)
      → Sound t run
      → Sound t (record run { waiting = rest })
  Sound-taken t n run w rest e s = record {
    valid = s.valid;
    settled_held = s.settled_held;
    waiting_held =
        (All-take_at (λ v. Held run.store t v.reservation) n run.waiting w rest e s.waiting_held).1;
    settled_apart = s.settled_apart;
    waiting_apart = (Apart-take_at n run.waiting w rest e s.waiting_apart).1;
    apart =
        (All-take_at (λ v. Unspent v.reservation.key run.settled) n run.waiting w rest e s.apart).1;
  }

  Sound-settled :
      (t n : ℕ) (run : Run S) (w : Waiting) (rest : List Waiting)
      → take_at n run.waiting ≡ some (w, rest)
      → Sound t run
      → Sound t
          (record { store = run.store; waiting = rest; settled = w.reservation ∷ run.settled })
  Sound-settled t n run w rest e s =
      let taken = Sound-taken t n run w rest e s in
      let apart =
        All-take_at (λ v. Unspent v.reservation.key run.settled) n run.waiting w rest e s.apart in
      let held =
        All-take_at (λ v. Held run.store t v.reservation) n run.waiting w rest e s.waiting_held in
      record {
        valid = s.valid;
        settled_held = (held.0, s.settled_held);
        waiting_held = taken.waiting_held;
        settled_apart = (apart.0, s.settled_apart);
        waiting_apart = taken.waiting_apart;
        apart =
            All-both (λ v. v.reservation.key ≢ w.reservation.key)
              (λ v. Unspent v.reservation.key run.settled)
              (λ v. Unspent v.reservation.key (w.reservation ∷ run.settled)) rest
              (λ v differs unspent. ((λ q. differs (sym q)), unspent))
              (Apart-take_at n run.waiting w rest e s.waiting_apart).0 taken.apart;
      }

  Sound-released :
      (t n : ℕ) (run : Run S) (w : Waiting) (rest : List Waiting)
      → take_at n run.waiting ≡ some (w, rest)
      → Sound t run
      → Sound t (record run { store = (replay.release run.store w.reservation).0; waiting = rest })
  Sound-released t n run w rest e s =
      let taken = Sound-taken t n run w rest e s in
      let after = (replay.release run.store w.reservation).0 in
      let apart =
        All-take_at (λ v. Unspent v.reservation.key run.settled) n run.waiting w rest e s.apart in
      record {
        valid = replay.release-IsValid run.store w.reservation s.valid;
        settled_held =
            All-both (λ r. r.key ≢ w.reservation.key) (Held run.store t) (Held after t) run.settled
              (λ r differs. Held-release run.store t w.reservation r s.valid (λ q. differs (sym q)))
              apart.0 s.settled_held;
        waiting_held =
            All-both (λ v. v.reservation.key ≢ w.reservation.key)
              (λ v. Held run.store t v.reservation) (λ v. Held after t v.reservation) rest
              (λ v differs.
                Held-release run.store t w.reservation v.reservation s.valid (λ q. differs (sym q)))
              (Apart-take_at n run.waiting w rest e s.waiting_apart).0 taken.waiting_held;
        settled_apart = taken.settled_apart;
        waiting_apart = taken.waiting_apart;
        apart = taken.apart;
      }

  Sound-given_back :
      (t n : ℕ) (run : Run S) (w : Waiting) (rest : List Waiting) (error : PaymentError)
      → take_at n run.waiting ≡ some (w, rest)
      → Sound t run
      → Sound t (concluded run rest w.reservation (give_back replay run.store w.reservation error))
  unfolding concluded give_back
  Sound-given_back t n run w rest error e s =
      elim (Released-cases (replay.release run.store w.reservation).1) [
        | inl f ↦ rw (f.1) (Sound-released t n run w rest e s)
        | inr f ↦ rw f (Sound-released t n run w rest e s)
      ]

  Sound-concluded :
      (t n : ℕ) (run : Run S) (w : Waiting) (rest : List Waiting) (outcome : Checked Str)
      → take_at n run.waiting ≡ some (w, rest)
      → Sound t run
      → Sound t (concluded run rest w.reservation (finish_verify replay run.store w outcome))
  unfolding concluded finish_verify
  Sound-concluded t n run w rest (inr reference) e s = Sound-settled t n run w rest e s
  Sound-concluded t n run w rest (inl not_settled) e s =
      Sound-given_back t n run w rest not_settled e s
  Sound-concluded t n run w rest (inl insufficient) e s =
      Sound-given_back t n run w rest insufficient e s
  Sound-concluded t n run w rest (inl required) e s = Sound-taken t n run w rest e s
  Sound-concluded t n run w rest (inl malformed) e s = Sound-taken t n run w rest e s
  Sound-concluded t n run w rest (inl invalid_challenge) e s = Sound-taken t n run w rest e s
  Sound-concluded t n run w rest (inl expired) e s = Sound-taken t n run w rest e s
  Sound-concluded t n run w rest (inl digest_mismatch) e s = Sound-taken t n run w rest e s
  Sound-concluded t n run w rest (inl method_unsupported) e s = Sound-taken t n run w rest e s
  Sound-concluded t n run w rest (inl verification_failed) e s = Sound-taken t n run w rest e s
  Sound-concluded t n run w rest (inl unavailable) e s = Sound-taken t n run w rest e s

  Sound-answer :
      (t n : ℕ) (run : Run S) (outcome : Checked Str)
      → Sound t run
      → Sound t (step p replay service boot run (answer n outcome))
  unfolding step answered
  Sound-answer t n run outcome s = elim (Option-cases (take_at n run.waiting)) [
    | inl e ↦ rw e s
    | inr ((w, rest), e) ↦ rw e (Sound-concluded t n run w rest outcome e s)
  ]

  Sound-cancel :
      (t n : ℕ) (run : Run S) → Sound t run → Sound t (step p replay service boot run (cancel n))
  unfolding step cancelled
  Sound-cancel t n run s = elim (Option-cases (take_at n run.waiting)) [
    | inl e ↦ rw e s
    | inr ((w, rest), e) ↦ rw e (Sound-taken t n run w rest e s)
  ]

  settled-Distinct :
      (t : ℕ) (run : Run S) (events : List Event)
      → Sound t run
      → InOrder t events
      → All (Genuine p service boot expiry) events
      → All (Prompt delay) events
      → Distinct (run_all p replay service boot run events).settled
  unfolding run_all
  settled-Distinct t run [] s order genuine prompt = s.settled_apart
  settled-Distinct t run (present checked u owner header_value tenant body identity amount ∷ events)
        s order genuine prompt =
      settled-Distinct u
        (step p replay service boot run
          (present checked u owner header_value tenant body identity amount))
        events
        (Sound-present checked u run owner header_value tenant body identity amount genuine.0
          prompt.0 (Sound-later t u run order.0 s))
        order.1 genuine.1 prompt.1
  settled-Distinct t run (answer n outcome ∷ events) s order genuine prompt =
      settled-Distinct t (step p replay service boot run (answer n outcome)) events
        (Sound-answer t n run outcome s) order genuine.1 prompt.1
  settled-Distinct t run (cancel n ∷ events) s order genuine prompt =
      settled-Distinct t (step p replay service boot run (cancel n)) events (Sound-cancel t n run s)
        order genuine.1 prompt.1

-- No challenge gives two receipts, ever: however many verifications run side by side against one
-- replay store that keeps the trait's promises, whatever the payment method answers them, and
-- whichever of them are dropped while they wait, no identifier is settled twice. This needs a clock
-- that does not fall, reservations that are made within a delay of the reading of the clock for
-- their checks, a lifetime that is longer by a second or more than that delay and the grain by which
-- the store may end a reservation early, and that challenges that pass every check are ones that the
-- server issued, each with its expiry; a settled identifier stays reserved until its challenge has
-- expired, and for the delay after.
pub settled_once :
    (p : Packages) {S : Type 0} (replay : ReplayStore S) (latest boot start delay : ℕ)
    (config : PaymentsConfig) (method : Str) (service : Payments) (expiry : Str → ℕ) (store : S)
    (events : List Event)
    → new_payments latest start config method ≡ some service
    → second + delay + replay.grain ≤ config.ttl
    → replay.IsValid store
    → InOrder start events
    → All (Genuine p service boot expiry) events
    → All (Prompt delay) events
    → Distinct
        (run_all p replay service boot
          (record { store = store; waiting = []; settled = [] })
          events).settled
unfolding new_payments
settled_once p replay latest boot start delay config method service expiry store events new long
      valid order genuine prompt =
    settled-Distinct p replay service boot expiry delay (ground (arith, new)) (ground (arith, new))
      start (record { store = store; waiting = []; settled = [] }) events
      (record {
        valid = valid;
        settled_held = tt;
        waiting_held = tt;
        settled_apart = tt;
        waiting_apart = tt;
        apart = tt;
      })
      order genuine prompt
