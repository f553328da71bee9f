-- ===== src/Edge/Timestamp/Shape.antt =====
-- crates/mcp-usage-edge/src/mpp.rs, the text of an instant: twenty characters, read back field by
-- field.
use mcp_usage_kit.Prelude.Decimal
use mcp_usage_kit.Edge.Timestamp.{ends_with, is_date, is_time, number, parse, render, seconds_of}
use mcp_usage_kit.Prelude.{
  Bool-cases, Str, [], ap, arith, drop, false, inl, inr, ltb, refl, some, suc, take, true, ℕ, ◌%◌,
  ◌*◌, ◌+◌, ◌-◌, ◌/◌, ◌<◌, ◌==◌, ◌∙◌, ◌∷◌, ◌≡◌, ◌≤◌,
}

-- Two digits and four digits, as they stand in the text.
abbrev pub two_digits : ℕ → Str → Str
two_digits n rest = (48 + n / 10) ∷ (48 + n % 10) ∷ rest

abbrev pub four_digits : ℕ → Str → Str
four_digits n rest = two_digits (n / 100) (two_digits (n % 100) rest)

padded_two : (n : ℕ) → n < 100 → Decimal.padded 2 n ≡ two_digits n []
unfolding Decimal.padded Decimal.to_string Decimal.zeros
padded_two n h = elim (Bool-cases (ltb n 10)) [
  | inl small ↦
      let q : n / 10 ≡ 0 = ground arith in
      let r : n % 10 ≡ n = ground arith in
      rw (q, r, Decimal.digits_before_last n n [] (ground arith)) refl
  | inr large ↦
      let e : n ≡ suc (n - 1) = ground arith in
      let d =
        Decimal.digits_before_more n n [] (ground arith)
        ∙ ap (λ (f : ℕ). Decimal.digits_before f (n / 10) ((48 + n % 10) ∷ [])) e
        ∙ Decimal.digits_before_last (n - 1) (n / 10) ((48 + n % 10) ∷ []) (ground arith) in
      rw d refl
]

four_step :
    (fuel n : ℕ)
    → 1000 ≤ n
    → n ≤ 9999
    → Decimal.digits_before (suc (suc (suc (suc fuel)))) n [] ≡ four_digits n []
four_step fuel n h k =
    let thousands : n / 10 / 10 / 10 ≡ n / 100 / 10 = omega arith in
    let hundreds : n / 10 / 10 % 10 ≡ n / 100 % 10 = omega arith in
    let tens : n / 10 % 10 ≡ n % 100 / 10 = omega arith in
    let ones : n % 10 ≡ n % 100 % 10 = omega arith in
    Decimal.digits_before_more (suc (suc (suc fuel))) n [] (omega arith)
    ∙ Decimal.digits_before_more (suc (suc fuel)) (n / 10) ((48 + n % 10) ∷ []) (omega arith)
    ∙ Decimal.digits_before_more (suc fuel) (n / 10 / 10) _ (omega arith)
    ∙ Decimal.digits_before_last fuel (n / 10 / 10 / 10) _ (omega arith)
    ∙ rw (thousands, hundreds, tens, ones) refl

padded_four : (n : ℕ) → 1000 ≤ n → n ≤ 9999 → Decimal.padded 4 n ≡ four_digits n []
unfolding Decimal.padded Decimal.to_string Decimal.zeros
padded_four n h k =
    let e : suc n ≡ suc (suc (suc (suc (n - 3)))) = omega arith in
    let d = ap (λ (f : ℕ). Decimal.digits_before f n []) e ∙ four_step (n - 3) n h k in rw d refl

unfoldable pub rendered : ℕ → ℕ → ℕ → ℕ → Str
rendered year month day rest = four_digits year (
    b'-'
    ∷ two_digits month (
        b'-'
        ∷ two_digits day (
            b'T'
            ∷ two_digits (rest / 3600) (
                b':' ∷ two_digits (rest % 3600 / 60) (b':' ∷ two_digits (rest % 60) (b'Z' ∷ []))))))

pub render-rendered :
    (year month day rest : ℕ)
    → 1000 ≤ year
    → year ≤ 9999
    → month < 100
    → day < 100
    → rest < 86400
    → render year month day rest ≡ rendered year month day rest
unfolding render rendered
render-rendered year month day rest h k m d r =
    rw
      (
        padded_four year h k,
        padded_two month m,
        padded_two day d,
        padded_two (rest / 3600) (omega arith),
        padded_two (rest % 3600 / 60) (omega arith),
        padded_two (rest % 60) (omega arith),
      )
      refl

read_two : (n : ℕ) → n < 100 → Decimal.parse_unsigned (two_digits n []) ≡ some n
unfolding Decimal.parse_unsigned Decimal.read_digits
read_two n h =
    let plus : (48 + n / 10 == 43) ≡ false = ground arith in
    rw plus (
      Decimal.read_digit 0 (n / 10) ((48 + n % 10) ∷ []) (omega arith) (omega arith)
      ∙ Decimal.read_digit (0 * 10 + n / 10) (n % 10) [] (omega arith) (omega arith)
      ∙ ap some (omega arith))

read_four : (n : ℕ) → n ≤ 9999 → Decimal.parse_unsigned (four_digits n []) ≡ some n
unfolding Decimal.parse_unsigned Decimal.read_digits
read_four n h =
    let plus : (48 + n / 100 / 10 == 43) ≡ false = ground arith in
    rw plus (
      Decimal.read_digit 0 (n / 100 / 10) ((48 + n / 100 % 10) ∷ two_digits (n % 100) [])
        (omega arith) (omega arith)
      ∙ Decimal.read_digit (0 * 10 + n / 100 / 10) (n / 100 % 10) (two_digits (n % 100) [])
          (omega arith) (omega arith)
      ∙ Decimal.read_digit ((0 * 10 + n / 100 / 10) * 10 + n / 100 % 10) (n % 100 / 10)
          ((48 + n % 100 % 10) ∷ []) (omega arith) (omega arith)
      ∙ Decimal.read_digit (((0 * 10 + n / 100 / 10) * 10 + n / 100 % 10) * 10 + n % 100 / 10)
          (n % 100 % 10) [] (omega arith) (omega arith)
      ∙ ap some (omega arith))

-- A rendered text is read field by field.
pub parse-rendered :
    (year month day rest : ℕ)
    → year ≤ 9999
    → month < 100
    → day < 100
    → rest < 86400
    → is_date year month day ≡ true
    → is_time year month day (rest / 3600) (rest % 3600 / 60) (rest % 60) ≡ true
    → parse (rendered year month day rest)
      ≡ some (seconds_of year month day (rest / 3600) (rest % 3600 / 60) (rest % 60))
unfolding parse rendered number take drop ends_with
parse-rendered year month day rest h m d r date time =
    rw
      (
        read_four year h,
        read_two month m,
        read_two day d,
        read_two (rest / 3600) (omega arith),
        read_two (rest % 3600 / 60) (omega arith),
        read_two (rest % 60) (omega arith),
        date,
        time,
      )
      refl
