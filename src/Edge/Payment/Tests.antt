-- ===== src/Edge/Payment/Tests.antt =====
-- A service whose packages keep texts as they are: Base64 and the digest change nothing, and the
-- message authentication code is the key before the message.
use mcp_usage_kit.Prelude.Assoc
use mcp_usage_kit.Prelude.Decimal
use mcp_usage_kit.Core.Json.{null}
use mcp_usage_kit.Core.Version.{str_lt}
use mcp_usage_kit.Edge.Payment.{
  ChallengeParams, Credential, Documented, Packages, PaymentRequest, PricedIdentity,
  identity_fields, request_fields,
}
use mcp_usage_kit.Edge.Payment.Binding.{binding_input-injective}
use mcp_usage_kit.Edge.Payment.Challenge.{
  Binding, binding_input, binding_is_valid, binding_mac, binding_of, challenge_id, content_digest,
  decode_credential, decode_identity, encode_identity, encode_jcs, join_bars, new_challenge,
  or_empty, parse_credential, payment_request, slots, unbound,
}
use mcp_usage_kit.Edge.Payment.History.{
  Distinct, Event, answer, answered, concluded, present, presented, run_all, step, take_at, unix,
}
use mcp_usage_kit.Edge.Payment.Once.{settled_once}
use mcp_usage_kit.Edge.Payment.Redeem.{plus-format, redeem_iff}
use mcp_usage_kit.Edge.Payment.Verify.{
  Identity, Payments, PaymentsConfig, begin_parsed, begin_verify, check_amount, check_body,
  check_challenge, check_identity, ensure, finish_verify, is_answerable, is_same_identity, issue,
  new_payments, ok_or, reserve_checked, reserved_for, second, spec_for, tenant_binding,
}
use mcp_usage_kit.Edge.Replay.{is_live, reserve, reserve_live}
use mcp_usage_kit.Edge.Replay.Memory.{in_memory}
use mcp_usage_kit.Edge.Timestamp.{
  days_in_month, days_in_year, ends_with, format, format_in_year, from_unix, is_after, is_date,
  is_leap, is_time, number, parse, plus, render, seconds_of, sum_months, sum_years, walk_months,
  walk_years,
}
use mcp_usage_kit.Edge.Timestamp.RoundTrip.{last_second}
use mcp_usage_kit.Prelude.{
  List, Option, Str, [], ap, arith, drop, eq_ignore_ascii_case, inr, is_whitespace, length, none,
  refl, retain, saturating_add, some, str, str_eq, str_equal, strs_equal, subst, suc, sym, take,
  to_ascii_lowercase, trim, trim_start, zero, ℕ, ◌*◌, ◌++◌, ◌+◌, ◌-◌, ◌/◌, ◌>>=◌, ◌^◌, ◌↔◌, ◌∙◌,
  ◌∷◌, ◌≡◌, ◌≤◌,
}
use mcp_usage_kit.Tower.Credential.{split_once_space}

-- Each text with its characters shifted by one, and closed by zero.
shifted : Str → Str → Str
shifted [] rest = 0 ∷ rest
shifted (b ∷ bs) rest = suc b ∷ shifted bs rest

prepend : ℕ → Option (Str × Str) → Option (Str × Str)
prepend b none = none
prepend b (some (s, rest)) = some (b ∷ s, rest)

unshifted : Str → Option (Str × Str)
unshifted [] = none
unshifted (zero ∷ bs) = some ([], bs)
unshifted (suc b ∷ bs) = prepend b (unshifted bs)

unshifted-shifted : (s rest : Str) → unshifted (shifted s rest) ≡ some (s, rest)
unfolding shifted unshifted prepend
unshifted-shifted [] rest = refl
unshifted-shifted (b ∷ bs) rest = rw (unshifted-shifted bs rest) refl

written : List (Str × Str) → Str
written [] = []
written ((key, value) ∷ fields) = shifted value (written fields)

read_three : Str → Option PaymentRequest
read_three s = do
  a ← unshifted s
  b ← unshifted a.1
  c ← unshifted b.1
  some (record { amount = a.0; currency = b.0; recipient = c.0 })

read_four : Str → Option PricedIdentity
read_four s = do
  a ← unshifted s
  b ← unshifted a.1
  c ← unshifted b.1
  d ← unshifted c.1
  some (record { tenant = d.0; method = a.0; name = b.0; nonce = c.0 })

plain : (Str → Option Credential) → Packages
plain read_credential = record {
  base64_encode = λ s. s;
  base64_decode = some;
  base64_standard = λ s. s;
  hmac_sha256 = λ key message. key ++ message;
  sha256 = λ s. s;
  write_object = written;
  read_request = read_three;
  read_identity = read_four;
  read_credential = read_credential;
}

plain-Documented : (read : Str → Option Credential) → Documented (plain read)
unfolding plain written read_three read_four request_fields identity_fields
plain-Documented read = record {
  base64_back = λ s. refl;
  request_back = λ r.
      rw (unshifted-shifted r.amount, unshifted-shifted r.currency, unshifted-shifted r.recipient)
        refl;
  identity_back = λ i.
      rw
        (
          unshifted-shifted i.method,
          unshifted-shifted i.name,
          unshifted-shifted i.nonce,
          unshifted-shifted i.tenant,
        )
        refl;
}

abbrev config : PaymentsConfig
config = record {
  secret = str "0123456789abcdef0123456789abcdef";
  realm = str "api";
  intent = str "charge";
  currency = str "usd";
  recipient = str "acct";
  ttl = 300 * second;
}

abbrev service : Payments
service = record {
  secret = str "0123456789abcdef0123456789abcdef";
  realm = str "api";
  intent = str "charge";
  currency = str "usd";
  recipient = str "acct";
  ttl = 300 * second;
  method = str "card";
  retain_for = 600 * second;
}

new_service : new_payments (2 ^ 63 * second) 0 config (str "card") ≡ some service
unfolding new_payments
new_service = refl

abbrev call : Identity
call = (str "tools/call", str "sum")

abbrev paid : ChallengeParams
paid = issue (plain (λ s. none)) service 5 (str "acme") call (str "body") (str "n") (from_unix 1000)

abbrev credential : Credential
credential = record { challenge = paid; source = none; payload = null }

-- Two bindings of different slots with the same input, where a slot holds a bar.
abbrev bare : Binding
bare = record {
  realm = [];
  method = [];
  intent = [];
  request = [];
  expires = none;
  digest = none;
  opaque = some (str "a|b");
  header = none;
}

bars_collide :
    binding_input bare
    ≡ binding_input (record bare { opaque = some (str "a"); header = some (str "b") })
unfolding binding_input slots join_bars
bars_collide = refl

abbrev two_slots : Binding
two_slots = record bare {
  method = str "charge";
  digest = some (str "sha");
  opaque = some (str "a");
  header = some (str "b");
}

binding_input-injective_example :
    (two_slots.realm ≡ [])
    × (str "charge" ≡ str "charge")
    × (two_slots.intent ≡ [])
    × (two_slots.request ≡ [])
    × (or_empty two_slots.expires ≡ [])
    × (str "sha" ≡ str "sha")
    × (str "a" ≡ str "a")
    × (str "b" ≡ str "b")
binding_input-injective_example =
    binding_input-injective two_slots (record two_slots { expires = some [] }) (str "b") (str "b")
      refl refl (omega arith) (omega arith) (omega arith) (omega arith)
      (unfold binding_input slots in refl)

redeem_iff_example :
    (check_challenge
        (plain (λ s. none))
        service
        paid
        (str "acme")
        (str "body")
        call
        5
        (from_unix 1200)
      ≡ inr (record { amount = Decimal.to_string 5; currency = str "usd"; recipient = str "acct" }))
    ↔ ((◌≡◌ {A = ℕ} 5 5)
        × ((call ≡ call)
            × (tenant_binding (plain (λ s. none)) service (str "acme")
                ≡ tenant_binding (plain (λ s. none)) service (str "acme")))
        × (content_digest (plain (λ s. none)) (str "body")
            ≡ content_digest (plain (λ s. none)) (str "body"))
        × (1000 ≤ 1200)
        × (1200 ≤ 1000 + 300 * second / second))
redeem_iff_example =
    redeem_iff (plain (λ s. none)) (plain-Documented (λ s. none)) service 5 5 (str "acme")
      (str "acme") call call (str "body") (str "body") (str "n") 1200 1000 (omega arith)
      (omega arith) (omega arith) (omega arith)

abbrev presenting : Packages
presenting = plain (λ s. some credential)

abbrev events : List Event
events =
    present (1200 * second) (1201 * second) (str "o") (str "Payment x") (str "acme") (str "body")
      call 5
    ∷ present (1201 * second) (1202 * second) (str "q") (str "Payment x") (str "acme") (str "body")
        call 5
    ∷ answer 0 (inr (str "settled"))
    ∷ []

paid_expires : paid.expires ≡ some (format 1300)
unfolding issue new_challenge unbound spec_for
paid_expires = ap some (plus-format 1000 300 (omega arith))

parsed : parse_credential presenting (str "Payment x") ≡ some credential
unfolding parse_credential decode_credential plain trim trim_start is_whitespace split_once_space
    eq_ignore_ascii_case to_ascii_lowercase
parsed = refl

-- The only credential that is read is the paid one.
read_paid :
    (c : Credential)
    → parse_credential presenting (str "Payment x") ≡ some c
    → (c.challenge.expires ≡ some (format 1300)) × (1300 ≤ last_second)
read_paid c h =
    let e : some credential ≡ some c = sym parsed ∙ h in
    subst
      (λ (o : Option Credential). elim o [
        | none ↦ Unit {0}
        | some k ↦ (k.challenge.expires ≡ some (format 1300)) × (1300 ≤ last_second)
      ])
      e (paid_expires, omega arith)

-- Two presentations of one challenge, of which the second is refused and the first settles.
settled_once_example :
    Distinct
      (run_all presenting
        (in_memory (2 ^ 63 * second))
        service
        0
        (record { store = record { entries = [] }; waiting = []; settled = [] })
        events).settled
settled_once_example =
    settled_once presenting (in_memory (2 ^ 63 * second)) (2 ^ 63 * second) 0 0 second config
      (str "card") service (λ id. 1300) (record { entries = [] }) events new_service (omega arith)
      tt (omega arith)
      (unfold unix in
        (
          (omega arith, λ c request h accepted. read_paid c h),
          ((omega arith, λ c request h accepted. read_paid c h), (tt, tt)),
        ))
      (omega arith, (omega arith, (tt, tt)))

-- A lifetime of one second, which is no longer than the delay by a second.
abbrev quick : Payments
quick = record service { ttl = second; retain_for = 2 * second }

abbrev quick_credential : Credential
quick_credential = record credential {
  challenge =
      issue (plain (λ s. none)) quick 5 (str "acme") call (str "body") (str "n") (from_unix 1000);
}

abbrev settled_by : Packages → Payments → List Event → ℕ
settled_by p served events =
    length
      (run_all p (in_memory (2 ^ 63 * second)) served 0
        (record { store = record { entries = [] }; waiting = []; settled = [] }) events).settled

-- Two presentations side by side give one receipt. With a lifetime of one second, a second
-- presentation that is checked in the last nanosecond of its challenge, and reserves right after,
-- gives another.
settlements :
    (settled_by presenting service events ≡ 1)
    × (settled_by (plain (λ s. some quick_credential)) quick (
          present
            (1000 * second)
            (1000 * second)
            (str "o")
            (str "Payment x")
            (str "acme")
            (str "body")
            call
            5
          ∷ answer 0 (inr (str "settled"))
          ∷ present
              (1002 * second - 1)
              (1002 * second)
              (str "q")
              (str "Payment x")
              (str "acme")
              (str "body")
              call
              5
          ∷ answer 0 (inr (str "settled again"))
          ∷ [])
        ≡ 2)
unfolding run_all step begin_verify begin_parsed reserve_checked reserved_for presented answered
    concluded finish_verify take_at parse_credential decode_credential plain trim trim_start
    is_whitespace split_once_space eq_ignore_ascii_case to_ascii_lowercase check_challenge
    check_body check_identity check_amount ensure ok_or binding_is_valid binding_mac binding_of
    binding_input slots join_bars issue new_challenge unbound spec_for challenge_id encode_jcs
    encode_identity decode_identity content_digest tenant_binding payment_request is_same_identity
    is_answerable is_after plus from_unix saturating_add unix str_lt str_eq written shifted
    unshifted prepend read_three read_four request_fields identity_fields reserve reserve_live
    is_live retain Assoc.lookup Assoc.insert Decimal.to_string Decimal.digits_before parse number
    ends_with take drop is_date is_time seconds_of sum_years sum_months days_in_year days_in_month
    is_leap Decimal.parse_unsigned Decimal.read_digits Decimal.is_digit format format_in_year render
    walk_years walk_months Decimal.padded Decimal.zeros
settlements = (refl, refl)
