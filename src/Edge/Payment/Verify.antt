-- ===== src/Edge/Payment/Verify.antt =====
-- crates/mcp-usage-edge/src/mpp.rs, `Payments`: issuing a challenge, and verifying a credential. A
-- duration is a number of nanoseconds. `verify` waits twice: it is two steps, up to the reservation
-- and from the payment method's answer. The nonce of a challenge and the owner of a reservation are
-- the UUIDs that they draw.
use mcp_usage_kit.Prelude.Decimal
use mcp_usage_kit.Core.Version.{str_lt}
use mcp_usage_kit.Edge.Payment.{
  ChallengeParams, Credential, Packages, PaymentError, PaymentRequest, PricedIdentity, Receipt,
  digest_mismatch, expired, insufficient, invalid_challenge, malformed, method_unsupported,
  not_settled, unavailable, verification_failed,
}
use mcp_usage_kit.Edge.Payment.Challenge.{
  ChallengeSpec, binding_is_valid, content_digest, decode_identity, new_challenge, new_receipt,
  parse_credential, payment_request,
}
use mcp_usage_kit.Edge.Replay.{ReplayStore, Reservation, Reserved}
use mcp_usage_kit.Edge.Timestamp.{Rfc3339, is_after, plus}
use mcp_usage_kit.Prelude.{
  Bool, Option, Str, [], false, if◌then◌else◌, inl, inr, length, ltb, none, not, some, str, str_eq,
  true, ℕ, ◌&&◌, ◌*◌, ◌++◌, ◌+◌, ◌-◌, ◌/◌, ◌==◌, ◌>>=◌, ◌^◌, ◌||◌, ◌∷◌, ◌⊎◌,
}

abbrev pub second : ℕ
second = 1000000000

-- The longest duration has 64 bits of seconds.
abbrev pub max_duration : ℕ
max_duration = 2 ^ 64 * second - 1

pub record PaymentsConfig : Type 0 where
  pub secret : Str
  pub realm : Str
  pub intent : Str
  pub currency : Str
  pub recipient : Str
  pub ttl : ℕ

pub record Payments : Type 0 where
  pub secret : Str
  pub realm : Str
  pub intent : Str
  pub currency : Str
  pub recipient : Str
  pub ttl : ℕ
  pub method : Str
  pub retain_for : ℕ

-- `None` is `PaymentsConfigError`, the only error. The clock has its latest instant.
unfoldable pub new_payments : ℕ → ℕ → PaymentsConfig → Str → Option Payments
new_payments latest now config method =
    if ltb max_duration (config.ttl * 2)
      || ltb (length config.secret) 32
      || config.ttl == 0
      || ltb latest (now + config.ttl * 2)
    then none
    else some (record {
      secret = config.secret;
      realm = config.realm;
      intent = config.intent;
      currency = config.currency;
      recipient = config.recipient;
      ttl = config.ttl;
      method = method;
      retain_for = config.ttl * 2;
    })

-- What a call is priced as: the method and the name.
abbrev pub Identity : Type 0
Identity = Str × Str

abbrev pub Checked : Type 0 → Type 0
Checked A = PaymentError ⊎ A

-- An early return with an error, where a condition fails or a value is missing.
unfoldable pub ensure {ℓ} : {A : Type ℓ} → Bool → PaymentError → PaymentError ⊎ A → PaymentError ⊎ A
ensure true error rest = rest
ensure false error rest = inl error

unfoldable pub ok_or {ℓ κ} :
    {A : Type ℓ} {B : Type κ} → Option A → PaymentError → (A → PaymentError ⊎ B) → PaymentError ⊎ B
ok_or none error rest = inl error
ok_or (some a) error rest = rest a

-- Not yet past, and no later than this server would issue it now.
unfoldable pub is_answerable : Payments → Rfc3339 → Str → Bool
is_answerable service now expires =
    not (is_after now expires || str_lt (plus now (service.ttl / second)) expires)

-- The separator of the tenant's binding, with its closing zero byte.
abbrev tenant_label : Str
tenant_label = str "mcp-usage-tenant-v1" ++ 0 ∷ []

module _ (p : Packages) where
  unfoldable pub tenant_binding : Payments → Str → Str
  tenant_binding service tenant =
      p.base64_encode (p.hmac_sha256 service.secret (tenant_label ++ tenant))

  unfoldable pub spec_for : Payments → ℕ → Str → Identity → Str → Str → Rfc3339 → ChallengeSpec
  spec_for service amount_minor tenant (method, name) body nonce now = record {
    realm = service.realm;
    method = service.method;
    intent = service.intent;
    request = record {
      amount = Decimal.to_string amount_minor;
      currency = service.currency;
      recipient = service.recipient;
    };
    expires = some (plus now (service.ttl / second));
    digest = some (content_digest p body);
    description = none;
    identity = some (record {
      tenant = tenant_binding service tenant;
      method = method;
      name = name;
      nonce = nonce;
    });
  }

  -- `Payments::challenge`.
  unfoldable pub issue : Payments → ℕ → Str → Identity → Str → Str → Rfc3339 → ChallengeParams
  issue service amount_minor tenant identity body nonce now =
      new_challenge p service.secret (spec_for service amount_minor tenant identity body nonce now)

  unfoldable pub is_same_identity : Payments → Str → Identity → PricedIdentity → Bool
  is_same_identity service tenant (method, name) issued =
      str_eq issued.tenant (tenant_binding service tenant)
      && str_eq issued.method method
      && str_eq issued.name name

  unfoldable pub check_amount : ChallengeParams → ℕ → Checked PaymentRequest
  check_amount challenge amount_minor =
      ok_or (payment_request p challenge) invalid_challenge λ request.
        ensure (str_eq request.amount (Decimal.to_string amount_minor)) insufficient (inr request)

  unfoldable pub check_identity :
      Payments → ChallengeParams → Str → Identity → ℕ → Checked PaymentRequest
  check_identity service challenge tenant identity amount_minor =
      ok_or (challenge.opaque >>= decode_identity p) invalid_challenge λ issued.
        ensure (is_same_identity service tenant identity issued) invalid_challenge
          (check_amount challenge amount_minor)

  unfoldable pub check_body :
      Payments → ChallengeParams → Str → Str → Identity → ℕ → Checked PaymentRequest
  check_body service challenge tenant body identity amount_minor =
      ok_or challenge.digest invalid_challenge λ digest.
        ensure (str_eq digest (content_digest p body)) digest_mismatch
          (check_identity service challenge tenant identity amount_minor)

  -- Every check up to the reservation, in its order.
  unfoldable pub check_challenge :
      Payments → ChallengeParams → Str → Str → Identity → ℕ → Rfc3339 → Checked PaymentRequest
  check_challenge service challenge tenant body identity amount_minor now =
      ensure (binding_is_valid p service.secret challenge) invalid_challenge (
        ensure (str_eq challenge.realm service.realm) invalid_challenge (
          ensure (str_eq challenge.method service.method) method_unsupported (
            ok_or challenge.expires invalid_challenge λ expires.
              ensure (is_answerable service now expires) expired
                (check_body service challenge tenant body identity amount_minor))))

-- A credential with its request, whose verification waits for the payment method.
pub record Waiting : Type 0 where
  pub credential : Credential
  pub request : PaymentRequest
  pub reservation : Reservation
  pub now : Rfc3339

unfoldable pub reserved_for : Credential → PaymentRequest → Rfc3339 → Reserved → Checked Waiting
reserved_for credential request now (inl error) = inl unavailable
reserved_for credential request now (inr none) = inl verification_failed
reserved_for credential request now (inr (some reservation)) =
    inr
      (record { credential = credential; request = request; reservation = reservation; now = now })

module _ (p : Packages) {S : Type 0} (replay : ReplayStore S) where
  unfoldable pub reserve_checked :
      Payments → S → ℕ → Str → Credential → Rfc3339 → Checked PaymentRequest → S × Checked Waiting
  reserve_checked service store instant owner credential now (inl error) = (store, inl error)
  reserve_checked service store instant owner credential now (inr request) =
      let answer = replay.reserve store instant owner credential.challenge.id service.retain_for in
      (answer.0, reserved_for credential request now answer.1)

  unfoldable pub begin_parsed :
      Payments
      → S
      → ℕ
      → Str
      → Option Credential
      → Str
      → Str
      → Identity
      → ℕ
      → Rfc3339
      → S × Checked Waiting
  begin_parsed service store instant owner none tenant body identity amount_minor now =
      (store, inl malformed)
  begin_parsed service store instant owner (some credential) tenant body identity amount_minor now =
      reserve_checked service store instant owner credential now
        (check_challenge p service credential.challenge tenant body identity amount_minor now)

  -- `Payments::verify` up to the wait for the payment method.
  unfoldable pub begin_verify :
      Payments → S → ℕ → Str → Str → Str → Str → Identity → ℕ → Rfc3339 → S × Checked Waiting
  begin_verify service store instant owner header_value tenant body identity amount_minor now =
      begin_parsed service store instant owner (parse_credential p header_value) tenant body
        identity amount_minor now

module _ {S : Type 0} (replay : ReplayStore S) where
  -- A definite answer that nothing was settled gives the reservation back.
  unfoldable pub give_back : S → Reservation → PaymentError → S × Checked Receipt
  give_back store reservation error =
      let answer = replay.release store reservation in
      (answer.0, elim (answer.1) [ inl store_error ↦ inl unavailable | inr released ↦ inl error ])

  -- `Payments::verify` from the payment method's answer. Any other error keeps the reservation.
  unfoldable pub finish_verify : S → Waiting → Checked Str → S × Checked Receipt
  finish_verify store w (inr reference) =
      (store, inr (new_receipt w.credential.challenge.method reference w.now.text))
  finish_verify store w (inl not_settled) = give_back store w.reservation not_settled
  finish_verify store w (inl insufficient) = give_back store w.reservation insufficient
  finish_verify store w (inl error) = (store, inl error)
