-- ===== src/Edge/Timestamp/Order.antt =====
-- crates/mcp-usage-edge/src/mpp.rs, `chrono_lite`: texts of instants compare like the instants.
use mcp_usage_kit.Core.Version.{str_lt}
use mcp_usage_kit.Edge.Timestamp.{days_in_month, days_in_year, format, sum_months, sum_years}
use mcp_usage_kit.Edge.Timestamp.RoundTrip.{
  Civil, civil, format-rendered, four_digit_year, last_second,
}
use mcp_usage_kit.Edge.Timestamp.Shape.{rendered, two_digits}
use mcp_usage_kit.Edge.Timestamp.Walk.{day_within}
use mcp_usage_kit.Prelude.{
  Bool-cases, Str, [], ap, arith, inl, inr, ltb, suc, true, zero, ℕ, ◌%◌, ◌+◌, ◌-◌, ◌/◌, ◌<◌, ◌∷◌,
  ◌≡◌, ◌≤◌, ◌⊎◌,
}

-- What is first different decides.
two_digits-lt :
    (n m : ℕ) (s t : Str)
    → n < 100
    → m < 100
    → str_lt (two_digits n s) (two_digits m t) ≡ true
    → (n < m) ⊎ ((n ≡ m) × (str_lt s t ≡ true))
unfolding str_lt
two_digits-lt n m s t h k lt = elim (Bool-cases (ltb n m)) [
  | inl less ↦ inl (ground arith)
  | inr more ↦ inr (ground arith)
]

abbrev second_text : ℕ → Str
second_text rest = b':' ∷ two_digits (rest % 60) (b'Z' ∷ [])

abbrev minute_text : ℕ → Str
minute_text rest = b':' ∷ two_digits (rest % 3600 / 60) (second_text rest)

abbrev clock_text : ℕ → Str
clock_text rest = two_digits (rest / 3600) (minute_text rest)

clock-lt : (r q : ℕ) → r < 86400 → q < 86400 → str_lt (clock_text r) (clock_text q) ≡ true → r < q
unfolding str_lt
clock-lt r q h k lt =
    elim (two_digits-lt (r / 3600) (q / 3600) (minute_text r) (minute_text q) (omega arith)
      (omega arith) lt) [
        | inl less ↦ omega arith
        | inr (hour, lt) ↦
            elim (two_digits-lt (r % 3600 / 60) (q % 3600 / 60) (second_text r) (second_text q)
              (omega arith) (omega arith) lt) [
                | inl less ↦ omega arith
                | inr (minute, lt) ↦
                    elim (two_digits-lt (r % 60) (q % 60) (b'Z' ∷ []) (b'Z' ∷ []) (omega arith)
                      (omega arith) lt) [ inl less ↦ omega arith | inr (second, lt) ↦ absurd (cc) ]
              ]
      ]

sum_years_lt :
    (from a b : ℕ) → a < b → sum_years from a + days_in_year (from + a) ≤ sum_years from b
unfolding sum_years
sum_years_lt from zero zero h = absurd (omega arith)
sum_years_lt from zero (suc b) h = let e : from + 0 ≡ from = omega arith in rw e (omega arith)
sum_years_lt from (suc a) zero h = absurd (omega arith)
sum_years_lt from (suc a) (suc b) h =
    let e : from + suc a ≡ from + 1 + a = omega arith in
    rw e (omega (arith, sum_years_lt (from + 1) a b (omega arith)))

sum_months_lt :
    (year from a b : ℕ)
    → a < b
    → sum_months year from a + days_in_month year (from + a) ≤ sum_months year from b
unfolding sum_months
sum_months_lt year from zero zero h = absurd (omega arith)
sum_months_lt year from zero (suc b) h = let e : from + 0 ≡ from = omega arith in rw e (omega arith)
sum_months_lt year from (suc a) zero h = absurd (omega arith)
sum_months_lt year from (suc a) (suc b) h =
    let e : from + suc a ≡ from + 1 + a = omega arith in
    rw e (omega (arith, sum_months_lt year (from + 1) a b (omega arith)))

earlier_year : (a b : ℕ) (c : Civil a) (d : Civil b) → c.year < d.year → a / 86400 < b / 86400
earlier_year a b c d h =
    let e : 1970 + (c.year - 1970) ≡ c.year = omega (arith, c.after_epoch) in
    let lt = sum_years_lt 1970 (c.year - 1970) (d.year - 1970) (omega (arith, c.after_epoch)) in
    omega (arith, rw e at lt, c.total, d.total, c.in_year)

earlier_month :
    (a b : ℕ) (c : Civil a) (d : Civil b)
    → c.year ≡ d.year
    → c.month < d.month
    → a / 86400 < b / 86400
earlier_month a b c d y h =
    let e : 1 + (c.month - 1) ≡ c.month = omega (arith, c.first_month) in
    let lt = sum_months_lt c.year 1 (c.month - 1) (d.month - 1) (omega (arith, c.first_month)) in
    omega (
      arith,
      rw e at lt,
      c.total,
      d.total,
      c.in_month,
      ap (λ (year : ℕ). sum_years 1970 (year - 1970)) y,
      ap (λ (year : ℕ). sum_months year 1 (d.month - 1)) y,
    )

same_month :
    (a b : ℕ) (c : Civil a) (d : Civil b)
    → c.year ≡ d.year
    → c.month ≡ d.month
    → c.day ≤ d.day
    → a / 86400 + d.day ≡ b / 86400 + c.day
same_month a b c d y m h = omega (
  arith,
  c.total,
  d.total,
  ap (λ (year : ℕ). sum_years 1970 (year - 1970)) y,
  ap (λ (year : ℕ). sum_months year 1 (c.month - 1)) y,
  ap (λ (month : ℕ). sum_months d.year 1 (month - 1)) m,
)

abbrev day_text : {a : ℕ} → Civil a → Str
day_text {a} c = b'-' ∷ two_digits (c.day + 1) (b'T' ∷ clock_text (a % 86400))

abbrev month_text : {a : ℕ} → Civil a → Str
month_text c = b'-' ∷ two_digits c.month (day_text c)

day-lt :
    (a b : ℕ) (c : Civil a) (d : Civil b)
    → c.year ≡ d.year
    → c.month ≡ d.month
    → str_lt (day_text c) (day_text d) ≡ true
    → a < b
unfolding str_lt
day-lt a b c d y m lt =
    let cd = day_within c.year c.month c.day c.in_month in
    let dd = day_within d.year d.month d.day d.in_month in
    elim (two_digits-lt (c.day + 1) (d.day + 1) (b'T' ∷ clock_text (a % 86400))
      (b'T' ∷ clock_text (b % 86400)) (omega arith) (omega arith) lt) [
        | inl less ↦ omega (arith, same_month a b c d y m (omega arith))
        | inr (day, lt) ↦ omega (
          arith,
          same_month a b c d y m (omega arith),
          clock-lt (a % 86400) (b % 86400) (omega arith) (omega arith) lt,
        )
      ]

month-lt :
    (a b : ℕ) (c : Civil a) (d : Civil b)
    → c.year ≡ d.year
    → str_lt (month_text c) (month_text d) ≡ true
    → a < b
unfolding str_lt
month-lt a b c d y lt =
    let cm = c.last_month in
    let dm = d.last_month in
    elim (two_digits-lt c.month d.month (day_text c) (day_text d) (omega arith) (omega arith) lt) [
      | inl less ↦ omega (arith, earlier_month a b c d y less)
      | inr (m, lt) ↦ day-lt a b c d y m lt
    ]

rendered-lt :
    (a b : ℕ) (c : Civil a) (d : Civil b)
    → c.year ≤ 9999
    → d.year ≤ 9999
    → str_lt
        (rendered c.year c.month (c.day + 1) (a % 86400))
        (rendered d.year d.month (d.day + 1) (b % 86400))
      ≡ true
    → a < b
unfolding rendered str_lt
rendered-lt a b c d h k lt =
    elim (two_digits-lt (c.year / 100) (d.year / 100) (two_digits (c.year % 100) (month_text c))
      (two_digits (d.year % 100) (month_text d)) (omega arith) (omega arith) lt) [
        | inl less ↦ omega (arith, earlier_year a b c d (omega arith))
        | inr (century, lt) ↦
            elim (two_digits-lt (c.year % 100) (d.year % 100) (month_text c) (month_text d)
              (omega arith) (omega arith) lt) [
                | inl less ↦ omega (arith, earlier_year a b c d (omega arith))
                | inr (year, lt) ↦ month-lt a b c d (omega arith) lt
              ]
      ]

-- Up to the year 9999, where one written instant is before another as a text, it is the earlier
-- instant: a comparison of two issued expiries as texts, as the code makes it, compares the times.
pub format-lt :
    (a b : ℕ) → a ≤ last_second → b ≤ last_second → str_lt (format a) (format b) ≡ true → a < b
format-lt a b h k lt =
    let c = civil a in
    let d = civil b in
    rendered-lt a b c d (four_digit_year a c h) (four_digit_year b d k)
      (rw (format-rendered a c h, format-rendered b d k) at lt)
