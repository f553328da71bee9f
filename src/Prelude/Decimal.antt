-- ===== src/Prelude/Decimal.antt =====
-- `u64::to_string`, padding with zeros, and `str::parse::<u64>`, as the standard library has them.
use Prim.Native.Nat.{ℕ, zero, suc, ◌+◌, ◌-◌, ◌*◌, ◌/◌, ◌%◌, ◌≤◌, ◌<◌}
use mathlib.Core.Path.{◌≡◌, refl, ap, ◌∙◌}
use mathlib.Core.Bool.{Bool, ◌&&◌}
use mathlib.Core.Option.{Option, none, some}
use mathlib.Core.List.{[], ◌∷◌, ◌++◌}
use mathlib.Core.Logic.{inl, inr}
use native.Mathlib.Omega.{arith}
use mcp_usage_kit.Prelude.Lists.{length}
use mcp_usage_kit.Prelude.Tests.{Bool-cases, if◌then◌else◌, leb, ltb, ◌==◌}
use mcp_usage_kit.Prelude.Text.{Str}
use mcp_usage_kit.Prelude.Words.{u64_max}

-- The digits of a number before those written so far, in as many rounds as the fuel allows.
unfoldable pub digits_before : ℕ → ℕ → Str → Str
digits_before zero n written = written
digits_before (suc fuel) n written =
    let rest = digits_before fuel (n / 10) ((48 + n % 10) ∷ written) in
    if ltb n 10 then (48 + n) ∷ written else rest

-- A number has no more digits than its successor counts rounds.
unfoldable pub to_string : ℕ → Str
to_string n = digits_before (suc n) n []

unfoldable pub zeros : ℕ → Str
zeros zero = []
zeros (suc n) = 48 ∷ zeros n

-- `{n:0width}`.
unfoldable pub padded : ℕ → ℕ → Str
padded width n = zeros (width - length (to_string n)) ++ to_string n

unfoldable pub is_digit : ℕ → Bool
is_digit b = leb 48 b && leb b 57

unfoldable pub read_digits : ℕ → Str → Option ℕ
read_digits value [] = some value
read_digits value (b ∷ bs) =
    let rest = read_digits (value * 10 + (b - 48)) bs in
    if is_digit b && leb (value * 10 + (b - 48)) u64_max then rest else none

-- One leading plus sign is allowed, and a digit is needed.
unfoldable pub parse_unsigned : Str → Option ℕ
parse_unsigned [] = none
parse_unsigned (b ∷ []) = read_digits 0 (b ∷ [])
parse_unsigned (b ∷ c ∷ bs) = if b == 43 then read_digits 0 (c ∷ bs) else read_digits 0 (b ∷ c ∷ bs)

pub digits_before_last :
    (fuel n : ℕ) (written : Str) → n < 10 → digits_before (suc fuel) n written ≡ (48 + n) ∷ written
unfolding digits_before
digits_before_last fuel n written h = ground arith

pub digits_before_more :
    (fuel n : ℕ) (written : Str)
    → 10 ≤ n
    → digits_before (suc fuel) n written ≡ digits_before fuel (n / 10) ((48 + n % 10) ∷ written)
unfolding digits_before
digits_before_more fuel n written h = ground arith

pub read_digit :
    (value d : ℕ) (rest : Str)
    → d < 10
    → value * 10 + d ≤ u64_max
    → read_digits value ((48 + d) ∷ rest) ≡ read_digits (value * 10 + d) rest
unfolding read_digits is_digit
read_digit value d rest h k = let e : 48 + d - 48 ≡ d = omega arith in rw e (ground arith)

-- What is written is read back.
read_digits-digits_before :
    (fuel n : ℕ) (written : Str)
    → n < fuel
    → n ≤ u64_max
    → read_digits 0 (digits_before fuel n written) ≡ read_digits n written
read_digits-digits_before zero n written h k = absurd (omega arith)
read_digits-digits_before (suc fuel) n written h k = elim (Bool-cases (ltb n 10)) [
  | inl small ↦
      let e : 0 * 10 + n ≡ n = omega arith in
      rw (digits_before_last fuel n written (ground arith)) (
        read_digit 0 n written (ground arith) (omega arith)
        ∙ ap (λ (m : ℕ). read_digits m written) e)
  | inr large ↦
      let e : n / 10 * 10 + n % 10 ≡ n = omega arith in
      rw (digits_before_more fuel n written (ground arith)) (
        read_digits-digits_before fuel (n / 10) ((48 + n % 10) ∷ written) (ground arith)
          (omega arith)
        ∙ read_digit (n / 10) (n % 10) written (omega arith) (omega arith)
        ∙ ap (λ (m : ℕ). read_digits m written) e)
]

parse-digits_before :
    (fuel n : ℕ) (written : Str)
    → n < fuel
    → parse_unsigned (digits_before fuel n written) ≡ read_digits 0 (digits_before fuel n written)
unfolding parse_unsigned
parse-digits_before zero n written h = absurd (omega arith)
parse-digits_before (suc fuel) n written h = elim (Bool-cases (ltb n 10)) [
  | inl small ↦ rw (digits_before_last fuel n written (ground arith)) (first n written)
  | inr large ↦
      rw (digits_before_more fuel n written (ground arith))
        (parse-digits_before fuel (n / 10) ((48 + n % 10) ∷ written) (ground arith))
]
  where
    first :
        (n : ℕ) (written : Str)
        → parse_unsigned ((48 + n) ∷ written) ≡ read_digits 0 ((48 + n) ∷ written)
    first n [] = refl
    first n (b ∷ bs) = ground arith

pub parse_unsigned-to_string : (n : ℕ) → n ≤ u64_max → parse_unsigned (to_string n) ≡ some n
unfolding to_string read_digits
parse_unsigned-to_string n h =
    parse-digits_before (suc n) n [] (omega arith)
    ∙ read_digits-digits_before (suc n) n [] (omega arith) h

-- Two numbers with the same text are the same.
pub to_string-injective : (n m : ℕ) → n ≤ u64_max → m ≤ u64_max → to_string n ≡ to_string m → n ≡ m
to_string-injective n m h k e =
    ground (arith, parse_unsigned-to_string n h, parse_unsigned-to_string m k, ap parse_unsigned e)
