-- ===== src/Edge/Payment/Redeem.antt =====
-- crates/mcp-usage-edge/src/mpp.rs: for which calls, and when, an issued challenge is redeemed.
use mcp_usage_kit.Prelude.Decimal
use mcp_usage_kit.Core.Version.{str_lt}
use mcp_usage_kit.Edge.Payment.{
  ChallengeParams, Documented, Packages, PaymentRequest, PricedIdentity, digest_mismatch, expired,
  identity_fields, insufficient, invalid_challenge, request_fields,
}
use mcp_usage_kit.Edge.Payment.Challenge.{
  ChallengeSpec, binding_is_valid, binding_mac, binding_of, challenge_id, content_digest,
  decode_identity, encode_identity, encode_jcs, new_challenge, payment_request, unbound,
}
use mcp_usage_kit.Edge.Payment.Verify.{
  Checked, Identity, Payments, check_amount, check_body, check_challenge, check_identity, ensure,
  is_answerable, is_same_identity, issue, ok_or, second, spec_for, tenant_binding,
}
use mcp_usage_kit.Edge.Timestamp.{Rfc3339, format, from_unix, parse, plus}
use mcp_usage_kit.Edge.Timestamp.Order.{format-lt}
use mcp_usage_kit.Edge.Timestamp.RoundTrip.{is_after-format, last_second, parse-format}
use mcp_usage_kit.Prelude.{
  Bool-cases, Str, [], ap, arith, false, inl, inr, leb, ltb, refl, saturating_add, some, str_eq,
  str_eq_iff, sym, true, u64_max, ℕ, ◌&&◌, ◌+◌, ◌/◌, ◌>>=◌, ◌↔◌, ◌∙◌, ◌∷◌, ◌≡◌, ◌≤◌, ◌⊎◌,
}

str_eq_refl : (s : Str) → str_eq s s ≡ true
str_eq_refl s = (str_eq_iff s s).1 refl

-- The text of an instant is no later than that of another exactly when the instant is not.
str_lt-cases : (s t : Str) → (str_lt s t ≡ true) ⊎ ((s ≡ t) ⊎ (str_lt t s ≡ true))
unfolding str_lt
str_lt-cases [] [] = inr (inl refl)
str_lt-cases [] (y ∷ ys) = inl refl
str_lt-cases (x ∷ xs) [] = inr (inr refl)
str_lt-cases (x ∷ xs) (y ∷ ys) = ground (arith, str_lt-cases xs ys)

str_lt_irrefl : (s : Str) → str_lt s s ≡ false
unfolding str_lt
str_lt_irrefl [] = refl
str_lt_irrefl (x ∷ xs) = ground (arith, str_lt_irrefl xs)

pub str_lt-format :
    (a b : ℕ) → a ≤ last_second → b ≤ last_second → str_lt (format a) (format b) ≡ ltb a b
str_lt-format a b h k = elim (str_lt-cases (format a) (format b)) [
  | inl less ↦ ground (arith, format-lt a b h k less)
  | inr (inl same) ↦
      let e : a ≡ b = ground (arith, parse-format a h, parse-format b k, ap parse same) in
      ground (arith, str_lt_irrefl (format b), ap (λ (s : Str). str_lt s (format b)) same)
  | inr (inr more) ↦
      let gt = format-lt b a k h more in
      elim (Bool-cases (str_lt (format a) (format b))) [
        | inl less ↦ absurd (omega (arith, format-lt a b h k less))
        | inr not_less ↦ ground (arith, not_less)
      ]
]

saturating_small : (a b : ℕ) → a + b ≤ last_second → saturating_add a b ≡ a + b
unfolding saturating_add
saturating_small a b h = ground arith

pub plus-format :
    (now offset : ℕ)
    → now + offset ≤ last_second
    → plus (from_unix now) offset ≡ format (now + offset)
unfolding plus from_unix
plus-format now offset h = ap format (saturating_small now offset h)

-- An expiry that was issued is answerable from the time of its issue to its end.
pub is_answerable-issued :
    (service : Payments) (now expiry : ℕ)
    → expiry ≤ last_second
    → now + service.ttl / second ≤ last_second
    → is_answerable service (from_unix now) (format expiry)
      ≡ (leb now expiry && leb expiry (now + service.ttl / second))
unfolding is_answerable plus from_unix
is_answerable-issued service now expiry h k =
    rw
      (
        is_after-format now expiry h,
        saturating_small now (service.ttl / second) k,
        str_lt-format (now + service.ttl / second) expiry k h,
      )
      (ground arith)

same_amount :
    (a b : ℕ)
    → a ≤ u64_max
    → b ≤ u64_max
    → (str_eq (Decimal.to_string b) (Decimal.to_string a) ≡ true) ↔ (a ≡ b)
same_amount a b h k = (
  λ e. sym (
      Decimal.to_string-injective b a k h
        ((str_eq_iff (Decimal.to_string b) (Decimal.to_string a)).0 e)),
  λ e. (str_eq_iff (Decimal.to_string b) (Decimal.to_string a)).1 (ap Decimal.to_string (sym e)),
)

-- The checks of a challenge that this server bound, from its expiry on.
abbrev remaining :
    Packages
    → Payments
    → Rfc3339
    → Str
    → Str
    → Identity
    → ℕ
    → Str
    → Str
    → PricedIdentity
    → PaymentRequest
    → Checked PaymentRequest
remaining p service now tenant body identity amount expires digest issued request =
    ensure (is_answerable service now expires) expired (
      ensure (str_eq digest (content_digest p body)) digest_mismatch (
        ensure (is_same_identity p service tenant identity issued) invalid_challenge
          (ensure (str_eq request.amount (Decimal.to_string amount)) insufficient (inr request))))

checked :
    (p : Packages) (service : Payments) (c : ChallengeParams) (tenant body : Str)
    (identity : Identity) (amount : ℕ) (now : Rfc3339) (expires digest : Str)
    (issued : PricedIdentity) (request : PaymentRequest)
    → binding_is_valid p service.secret c ≡ true
    → c.realm ≡ service.realm
    → c.method ≡ service.method
    → c.expires ≡ some expires
    → c.digest ≡ some digest
    → (c.opaque >>= decode_identity p) ≡ some issued
    → payment_request p c ≡ some request
    → check_challenge p service c tenant body identity amount now
      ≡ remaining p service now tenant body identity amount expires digest issued request
unfolding check_challenge check_body check_identity check_amount ensure ok_or
checked p service c tenant body identity amount now expires digest issued request v r m e d o q =
    let realm : str_eq c.realm service.realm ≡ true = (str_eq_iff c.realm service.realm).1 r in
    let method : str_eq c.method service.method ≡ true = (str_eq_iff c.method service.method).1 m in
    simp (v, realm, method, e, d, o, q)

module _ (p : Packages) (law : Documented p) where
  new_challenge-valid :
      (secret : Str) (spec : ChallengeSpec)
      → binding_is_valid p secret (new_challenge p secret spec) ≡ true
  unfolding binding_is_valid new_challenge challenge_id binding_of
  new_challenge-valid secret spec =
      rw (law.base64_back (binding_mac p secret (binding_of (unbound p spec))))
        (str_eq_refl (binding_mac p secret (binding_of (unbound p spec))))

  decode-encode_identity :
      (identity : PricedIdentity) → decode_identity p (encode_identity p identity) ≡ some identity
  unfolding decode_identity encode_identity
  decode-encode_identity identity =
      rw (law.base64_back (p.write_object (identity_fields identity))) (law.identity_back identity)

  module _ (service : Payments) (amount amount0 : ℕ) (tenant tenant0 : Str)
      (identity identity0 : Identity) (body body0 nonce : Str) (now now0 : ℕ) where
    abbrev pub issued : ChallengeParams
    issued = issue p service amount0 tenant0 identity0 body0 nonce (from_unix now0)

    abbrev pub issued_request : PaymentRequest
    issued_request = record {
      amount = Decimal.to_string amount0;
      currency = service.currency;
      recipient = service.recipient;
    }

    issued_amount : payment_request p issued ≡ some issued_request
    unfolding payment_request issue new_challenge unbound spec_for encode_jcs
    issued_amount =
        rw (law.base64_back (p.write_object (request_fields issued_request)))
          (law.request_back issued_request)

    abbrev issued_identity : PricedIdentity
    issued_identity = record {
      tenant = tenant_binding p service tenant0;
      method = identity0.0;
      name = identity0.1;
      nonce = nonce;
    }

    issued_opaque : (issued.opaque >>= decode_identity p) ≡ some issued_identity
    unfolding issue new_challenge unbound spec_for
    issued_opaque = decode-encode_identity issued_identity

    -- What is left to check of an issued challenge: its time, its body, its identity, its amount.
    check_issued :
        check_challenge p service issued tenant body identity amount (from_unix now)
        ≡ remaining p service
            (from_unix now)
            tenant
            body
            identity
            amount
            (plus (from_unix now0) (service.ttl / second))
            (content_digest p body0)
            issued_identity
            issued_request
    unfolding issue new_challenge unbound spec_for
    check_issued =
        checked p service issued tenant body identity amount (from_unix now)
          (plus (from_unix now0) (service.ttl / second)) (content_digest p body0) issued_identity
          issued_request
          (new_challenge-valid service.secret
            (spec_for p service amount0 tenant0 identity0 body0 nonce (from_unix now0)))
          refl refl refl refl issued_opaque issued_amount

    same_identity : (is_same_identity p service tenant identity issued_identity ≡ true) ↔ (
        (identity ≡ identity0)
        × (tenant_binding p service tenant ≡ tenant_binding p service tenant0))
    unfolding is_same_identity
    same_identity = ground (
      arith,
      str_eq_iff identity0.0 identity.0,
      str_eq_iff identity0.1 identity.1,
      str_eq_iff (tenant_binding p service tenant0) (tenant_binding p service tenant),
    )

    -- A challenge that this server issued is redeemed for exactly the call that it was issued for,
    -- and exactly in its time: while dates have four digits of years, the checks of a credential
    -- that echoes it pass if and only if the call has the same price, the same priced identity, the
    -- same tenant's binding and the same body digest, and the server's clock stands between the
    -- issue and the end of the lifetime, both included.
    pub redeem_iff :
        amount ≤ u64_max
        → amount0 ≤ u64_max
        → now0 + service.ttl / second ≤ last_second
        → now + service.ttl / second ≤ last_second
        → (check_challenge p service issued tenant body identity amount (from_unix now)
            ≡ inr issued_request)
          ↔ ((amount ≡ amount0)
              × ((identity ≡ identity0)
                  × (tenant_binding p service tenant ≡ tenant_binding p service tenant0))
              × (content_digest p body ≡ content_digest p body0)
              × (now0 ≤ now)
              × (now ≤ now0 + service.ttl / second))
    unfolding ensure
    redeem_iff h k m n =
        let time =
          ap (is_answerable service (from_unix now)) (plus-format now0 (service.ttl / second) m)
          ∙ is_answerable-issued service now (now0 + service.ttl / second) m n in
        rw check_issued (
          ground (
            arith,
            time,
            same_amount amount amount0 h k,
            same_identity,
            str_eq_iff (content_digest p body0) (content_digest p body),
          ))
