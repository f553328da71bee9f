-- ===== src/Core/Version/Calendar.antt =====
-- Byte order on valid dates is chronological order, and trust is decided by it.
use mcp_usage_kit.Core.Version.{
  ProtocolVersion, assess, header_validation_since, is_ascii_digit, max_day, parse_digits, str_lt,
  trusted, valid_date, valid_day,
}
use mcp_usage_kit.Core.Version.Digits.{
  Date, IsCalendarDate, Shape, date_of, valid_date-Shape, valid_date_iff,
}
use mcp_usage_kit.Prelude.{
  Bool, Option, Str, [], ap, arith, false, none, refl, some, suc, true, ℕ, ◌*◌, ◌+◌, ◌-◌, ◌<◌, ◌↔◌,
  ◌∷◌, ◌≡◌, ◌≤◌, ◌⊎◌,
}

-- The order of dates by year, then month, then day.
abbrev pub Before : Date → Date → Type 0
Before d e =
    (d.year < e.year)
    ⊎ ((d.year ≡ e.year) × (d.month < e.month))
    ⊎ ((d.year ≡ e.year) × (d.month ≡ e.month) × (d.day < e.day))

-- Text order of two tails stands for the order of the numbers that they write.
abbrev Orders : Str → Str → ℕ → ℕ → Type 0
Orders xs ys m n = (str_lt xs ys ≡ true) ↔ (m < n)

nil_order : Orders [] [] 0 0
unfolding str_lt
nil_order = (λ h. ground arith, λ h. ground arith)

digit_weight : (x y w : ℕ) → 48 ≤ x → x < y → (x - 48) * w + w ≤ (y - 48) * w
digit_weight x y w h l = let k : suc (x - 48) ≤ y - 48 = omega arith in grind arith

-- One digit in front weighs more than all that follows it.
digit_order :
    (w x y m n : ℕ) (xs ys : Str)
    → 48 ≤ x
    → 48 ≤ y
    → m < w
    → n < w
    → Orders xs ys m n
    → Orders (x ∷ xs) (y ∷ ys) ((x - 48) * w + m) ((y - 48) * w + n)
unfolding str_lt
digit_order w x y m n xs ys hx hy hm hn o =
    (λ h. ground (arith, digit_weight x y w hx), λ h. ground (arith, digit_weight y x w hy))

dash_order : (xs ys : Str) (m n : ℕ) → Orders xs ys m n → Orders (b'-' ∷ xs) (b'-' ∷ ys) m n
unfolding str_lt
dash_order xs ys m n o = (λ h. ground arith, λ h. ground arith)

-- The number that a date writes when its dashes are dropped, most significant digit first.
weigh : {a : Str} → Shape a → ℕ
weigh s =
    (s.y0 - 48) * 10000000
    + ((s.y1 - 48) * 1000000
        + ((s.y2 - 48) * 100000
            + ((s.y3 - 48) * 10000
                + ((s.m5 - 48) * 1000
                    + ((s.m6 - 48) * 100 + ((s.d8 - 48) * 10 + ((s.d9 - 48) * 1 + 0)))))))

Shape-weigh : (a b : Str) (s : Shape a) (t : Shape b) → Orders a b (weigh s) (weigh t)
unfolding weigh
Shape-weigh a b s t =
    let l9 =
      digit_order 1 s.d9 t.d9 0 0 [] [] (omega arith) (omega arith) (omega arith) (omega arith)
        nil_order in
    let l8 =
      digit_order 10 s.d8 t.d8 _ _ _ _ (omega arith) (omega arith) (omega arith) (omega arith) l9 in
    let l6 =
      digit_order 100 s.m6 t.m6 _ _ _ _ (omega arith) (omega arith) (omega arith) (omega arith)
        (dash_order _ _ _ _ l8) in
    let l5 =
      digit_order 1000 s.m5 t.m5 _ _ _ _ (omega arith) (omega arith) (omega arith) (omega arith)
        l6 in
    let l3 =
      digit_order 10000 s.y3 t.y3 _ _ _ _ (omega arith) (omega arith) (omega arith) (omega arith)
        (dash_order _ _ _ _ l5) in
    let l2 =
      digit_order 100000 s.y2 t.y2 _ _ _ _ (omega arith) (omega arith) (omega arith) (omega arith)
        l3 in
    let l1 =
      digit_order 1000000 s.y1 t.y1 _ _ _ _ (omega arith) (omega arith) (omega arith) (omega arith)
        l2 in
    let l0 =
      digit_order 10000000 s.y0 t.y0 _ _ _ _ (omega arith) (omega arith) (omega arith) (omega arith)
        l1 in
    rw (s.same, t.same) l0

weigh-Before :
    (a b : Str) (s : Shape a) (t : Shape b) → (weigh s < weigh t) ↔ Before (date_of a) (date_of b)
unfolding weigh date_of
weigh-Before a b s t = rw (s.same, t.same) (λ h. ground arith, λ h. ground arith)

-- Between two valid dates, the byte order of the texts is the chronological order of the dates.
pub str_lt-Before :
    (a b : Str)
    → valid_date a ≡ true
    → valid_date b ≡ true
    → (str_lt a b ≡ true) ↔ Before (date_of a) (date_of b)
str_lt-Before a b ha hb =
    let s = valid_date-Shape a ha in
    let t = valid_date-Shape b hb in
    let o = Shape-weigh a b s t in
    let d = weigh-Before a b s t in (λ h. d.0 (o.0 h), λ h. o.1 (d.1 h))

since_valid : valid_date header_validation_since ≡ true
unfolding valid_date is_ascii_digit valid_day max_day parse_digits
since_valid = refl

assess-trusted :
    (raw : Str) (v : ProtocolVersion)
    → (assess (some raw) ≡ trusted v)
      ↔ ((raw ≡ v.text) × (valid_date raw ≡ true) × (str_lt raw header_validation_since ≡ false))
unfolding assess
assess-trusted raw v = (λ h. ground arith, λ h. ground arith)

-- A valid date is either before the validating revision in byte order or on no earlier day.
since-Before :
    (raw : Str)
    → valid_date raw ≡ true
    → (str_lt raw header_validation_since ≡ false)
      ↔ (¬ Before (date_of raw) (record { year = 2026; month = 7; day = 28 }))
unfolding date_of
since-Before raw h =
    let o = str_lt-Before raw header_validation_since h since_valid in
    (λ e b. cc (o.1 b), λ n. not_true (str_lt raw header_validation_since) (λ e. n (o.0 e)))
  where
    not_true : (b : Bool) → ¬ (b ≡ true) → b ≡ false
    not_true true n = absurd (n refl)
    not_true false n = refl

-- Headers are trusted exactly when the version header is there, has the form YYYY-MM-DD, writes a
-- day of the Gregorian calendar (with its leap years) and does not lie before 2026-07-28, and then
-- with that very version.
pub assess-trusted_iff :
    (header : Option Str) (v : ProtocolVersion)
    → (assess header ≡ trusted v) ↔ (
        (header ≡ some v.text)
        × IsCalendarDate v.text
        × ¬ Before (date_of v.text) (record { year = 2026; month = 7; day = 28 }))
unfolding assess
assess-trusted_iff none v = (λ h. ground arith, λ h. ground arith)
assess-trusted_iff (some raw) v = (
  λ h.
      let (same, date, since) = (assess-trusted raw v).0 h in
      (
        ap some same,
        (valid_date_iff v.text).0 (rw same at date),
        rw same at ((since-Before raw date).0 since),
      ),
  λ h.
      let same : raw ≡ v.text = ground arith in
      let date : valid_date raw ≡ true = rw same ((valid_date_iff v.text).1 h.1) in
      (assess-trusted raw v).1 (same, date, (since-Before raw date).1 (rw same h.2)),
)
