-- ===== src/Core/Version/Digits.antt =====
-- The shape of a valid date: its ten bytes as digits, and the numbers that they write.
use mcp_usage_kit.Core.Version.{
  all_digits, is_ascii_digit, is_leap_year, max_day, parse_digits, valid_date, valid_day,
}
use mcp_usage_kit.Prelude.{
  Str, [], arith, refl, subst, sym, true, ℕ, ◌%◌, ◌*◌, ◌+◌, ◌-◌, ◌↔◌, ◌∷◌, ◌≡◌, ◌≢◌, ◌≤◌, ◌⊎◌,
}

pub record Date : Type 0 where
  pub year : ℕ
  pub month : ℕ
  pub day : ℕ

-- The number that decimal digits write.
abbrev pub two : ℕ → ℕ → ℕ
two a b = (a - 48) * 10 + (b - 48)

-- The date that a text of the form YYYY-MM-DD writes.
unfoldable pub date_of : Str → Date
date_of (y0 ∷ y1 ∷ y2 ∷ y3 ∷ s4 ∷ m5 ∷ m6 ∷ s7 ∷ d8 ∷ d9 ∷ []) = record {
  year = two y0 y1 * 100 + two y2 y3;
  month = two m5 m6;
  day = two d8 d9;
}
date_of _ = record { year = 0; month = 0; day = 0 }

abbrev IsDigit : ℕ → Type 0
IsDigit b = (48 ≤ b) × (b ≤ 57)

-- A text of the form YYYY-MM-DD.
pub record Shape (s : Str) : Type 0 where
  pub y0 : ℕ
  pub y1 : ℕ
  pub y2 : ℕ
  pub y3 : ℕ
  pub m5 : ℕ
  pub m6 : ℕ
  pub d8 : ℕ
  pub d9 : ℕ
  pub same : s ≡ y0 ∷ y1 ∷ y2 ∷ y3 ∷ b'-' ∷ m5 ∷ m6 ∷ b'-' ∷ d8 ∷ d9 ∷ []
  pub year_digits : IsDigit y0 × IsDigit y1 × IsDigit y2 × IsDigit y3
  pub month_digits : IsDigit m5 × IsDigit m6
  pub day_digits : IsDigit d8 × IsDigit d9

pub valid_date-Shape : (s : Str) → valid_date s ≡ true → Shape s
unfolding valid_date is_ascii_digit
valid_date-Shape (y0 ∷ y1 ∷ y2 ∷ y3 ∷ s4 ∷ m5 ∷ m6 ∷ s7 ∷ d8 ∷ d9 ∷ []) h = record {
  y0 = y0;
  y1 = y1;
  y2 = y2;
  y3 = y3;
  m5 = m5;
  m6 = m6;
  d8 = d8;
  d9 = d9;
  same = ground arith;
  year_digits = ground arith;
  month_digits = ground arith;
  day_digits = ground arith;
}
valid_date-Shape _ h = absurd (cc)

parse_two : (a b : ℕ) → IsDigit a → IsDigit b → parse_digits (a ∷ b ∷ []) 0 ≡ two a b
unfolding parse_digits
parse_two a b h k = omega arith

parse_four :
    (a b c d : ℕ)
    → IsDigit a
    → IsDigit b
    → IsDigit c
    → IsDigit d
    → parse_digits (a ∷ b ∷ c ∷ d ∷ []) 0 ≡ two a b * 100 + two c d
unfolding parse_digits
parse_four a b c d h i j k = omega arith

-- A year with a 29 February.
abbrev pub IsLeap : ℕ → Type 0
IsLeap year = (year % 4 ≡ 0) × ((year % 100 ≢ 0) ⊎ (year % 400 ≡ 0))

-- A day of the calendar: April, June, September and November have 30 days, February has 29 in a
-- leap year and 28 in another, and every other month has 31.
pub record InCalendar (d : Date) : Type 0 where
  pub in_year : (1 ≤ d.month) × (d.month ≤ 12)
  pub in_month : (1 ≤ d.day) × (d.day ≤ 31)
  pub short : (d.month ≡ 4) ⊎ (d.month ≡ 6) ⊎ (d.month ≡ 9) ⊎ (d.month ≡ 11) → d.day ≤ 30
  pub february : d.month ≡ 2 → d.day ≤ 29
  pub leap : d.month ≡ 2 → d.day ≡ 29 → IsLeap d.year

-- A text of the form YYYY-MM-DD that writes a day of the calendar.
pub record IsCalendarDate (s : Str) : Type 0 where
  pub shape : Shape s
  pub in_calendar : InCalendar (date_of s)

valid_day-InCalendar : (d : Date) → valid_day d.year d.month d.day ≡ true → InCalendar d
unfolding valid_day max_day is_leap_year
valid_day-InCalendar d h = record {
  in_year = ground arith;
  in_month = ground arith;
  short = λ m. ground arith;
  february = λ m. ground arith;
  leap = λ m n. ground arith;
}

InCalendar-valid_day : (d : Date) → InCalendar d → valid_day d.year d.month d.day ≡ true
unfolding valid_day max_day is_leap_year
InCalendar-valid_day d c =
    let y = c.in_year in
    let m = c.in_month in let s = c.short in let f = c.february in let l = c.leap in ground arith

-- In a valid date the day exists in its month of its year.
pub valid_date-day :
    (s : Str)
    → valid_date s ≡ true
    → valid_day (date_of s).year (date_of s).month (date_of s).day ≡ true
unfolding valid_date date_of is_ascii_digit
valid_date-day (y0 ∷ y1 ∷ y2 ∷ y3 ∷ s4 ∷ m5 ∷ m6 ∷ s7 ∷ d8 ∷ d9 ∷ []) h =
    ground (arith, parse_two m5 m6, parse_two d8 d9, parse_four y0 y1 y2 y3)
valid_date-day _ h = absurd (cc)

digits_seen :
    (y0 y1 y2 y3 m5 m6 d8 d9 : ℕ)
    → IsDigit y0 × IsDigit y1 × IsDigit y2 × IsDigit y3
    → IsDigit m5 × IsDigit m6
    → IsDigit d8 × IsDigit d9
    → all_digits (y0 ∷ y1 ∷ y2 ∷ y3 ∷ m5 ∷ m6 ∷ d8 ∷ d9 ∷ []) ≡ true
unfolding is_ascii_digit
digits_seen y0 y1 y2 y3 m5 m6 d8 d9 y m d = ground arith

written_valid :
    (y0 y1 y2 y3 m5 m6 d8 d9 : ℕ)
    → IsDigit y0 × IsDigit y1 × IsDigit y2 × IsDigit y3
    → IsDigit m5 × IsDigit m6
    → IsDigit d8 × IsDigit d9
    → valid_day (two y0 y1 * 100 + two y2 y3) (two m5 m6) (two d8 d9) ≡ true
    → valid_date (y0 ∷ y1 ∷ y2 ∷ y3 ∷ b'-' ∷ m5 ∷ m6 ∷ b'-' ∷ d8 ∷ d9 ∷ []) ≡ true
unfolding valid_date
written_valid y0 y1 y2 y3 m5 m6 d8 d9 y m d h =
    rw
      (
        parse_four y0 y1 y2 y3 y.0 y.1 y.2 y.3,
        parse_two m5 m6 m.0 m.1,
        parse_two d8 d9 d.0 d.1,
        h,
        digits_seen y0 y1 y2 y3 m5 m6 d8 d9 y m d,
      )
      refl

IsCalendarDate-valid_date : (s : Str) → IsCalendarDate s → valid_date s ≡ true
unfolding date_of
IsCalendarDate-valid_date s c =
    let k = c.shape in
    let day =
      subst (λ t. valid_day (date_of t).year (date_of t).month (date_of t).day ≡ true) k.same
        (InCalendar-valid_day (date_of s) c.in_calendar) in
    subst (λ t. valid_date t ≡ true) (sym k.same)
      (written_valid k.y0 k.y1 k.y2 k.y3 k.m5 k.m6 k.d8 k.d9 k.year_digits k.month_digits
        k.day_digits day)

-- A date is valid exactly when it writes a day of the calendar.
pub valid_date_iff : (s : Str) → (valid_date s ≡ true) ↔ IsCalendarDate s
valid_date_iff s = (
  λ h. record {
    shape = valid_date-Shape s h;
    in_calendar = valid_day-InCalendar (date_of s) (valid_date-day s h);
  },
  IsCalendarDate-valid_date s,
)
