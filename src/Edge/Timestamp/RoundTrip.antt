-- ===== src/Edge/Timestamp/RoundTrip.antt =====
-- crates/mcp-usage-edge/src/mpp.rs, `chrono_lite`: an instant that is written is read back.
use mcp_usage_kit.Edge.Timestamp.{
  days_in_month, days_in_year, format, format_in_year, from_unix, is_after, is_date, is_leap,
  is_time, parse, render, seconds_of, sum_months, sum_years, walk_months, walk_years,
}
use mcp_usage_kit.Edge.Timestamp.Shape.{parse-rendered, render-rendered, rendered}
use mcp_usage_kit.Edge.Timestamp.Walk.{
  day_within, sum_months-year, walk_months-InMonth, walk_years-Reached,
}
use mcp_usage_kit.Prelude.{
  Bool-cases, ap, arith, inl, inr, leb, ltb, refl, some, suc, true, zero, ℕ, ◌%◌, ◌*◌, ◌+◌, ◌-◌,
  ◌/◌, ◌<◌, ◌∙◌, ◌≡◌, ◌≤◌,
}

-- The calendar date on which an instant falls, and that it is what `format` writes.
pub record Civil (seconds : ℕ) : Type 0 where
  pub year : ℕ
  pub month : ℕ
  pub day : ℕ
  pub after_epoch : 1970 ≤ year
  pub first_month : 1 ≤ month
  pub last_month : month ≤ 12
  pub in_month : day < days_in_month year month
  pub in_year : sum_months year 1 (month - 1) + day < days_in_year year
  pub total : seconds / 86400 ≡ sum_years 1970 (year - 1970) + (sum_months year 1 (month - 1) + day)
  pub written : format seconds ≡ render year month (day + 1) (seconds % 86400)

pub civil : (seconds : ℕ) → Civil seconds
unfolding format format_in_year
civil seconds =
    let days = seconds / 86400 in
    let y = walk_years-Reached (suc days) 1970 days (omega arith) in
    let (year, left) = walk_years (suc days) 1970 days in
    let m =
      walk_months-InMonth (suc days) year 1 12 left (omega (arith, y.total)) (omega arith)
        (omega (arith, y.within, sum_months-year year)) in
    record {
      year = year;
      month = (walk_months (suc days) year 1 left).0;
      day = (walk_months (suc days) year 1 left).1;
      after_epoch = y.from_start;
      first_month = m.from_start;
      last_month = m.last;
      in_month = m.within;
      in_year = omega (arith, m.total, y.within);
      total = omega (arith, m.total, y.total);
      written = refl;
    }

sum_years_mono : (from a b : ℕ) → a ≤ b → sum_years from a ≤ sum_years from b
unfolding sum_years
sum_years_mono from zero b h = omega arith
sum_years_mono from (suc a) zero h = absurd (omega arith)
sum_years_mono from (suc a) (suc b) h = omega (arith, sum_years_mono (from + 1) a b (omega arith))

years_to_10000 : sum_years 1970 8030 ≡ 2932897
unfolding sum_years days_in_year is_leap
years_to_10000 = refl

-- The last second of the year 9999.
abbrev pub last_second : ℕ
last_second = 253402300799

pub four_digit_year : (seconds : ℕ) (c : Civil seconds) → seconds ≤ last_second → c.year ≤ 9999
four_digit_year seconds c h = elim (Bool-cases (leb c.year 9999)) [
  | inl small ↦ ground arith
  | inr large ↦
      let e = sum_years_mono 1970 8030 (c.year - 1970) (ground arith) in
      absurd (omega (arith, c.total, e, years_to_10000))
]

is_date-Civil :
    (seconds : ℕ) (c : Civil seconds) → c.year ≤ 9999 → is_date c.year c.month (c.day + 1) ≡ true
unfolding is_date
is_date-Civil seconds c h = ground (arith, c.after_epoch, c.first_month, c.last_month)

is_time-Civil :
    (seconds : ℕ) (c : Civil seconds) (rest : ℕ)
    → rest < 86400
    → is_time c.year c.month (c.day + 1) (rest / 3600) (rest % 3600 / 60) (rest % 60) ≡ true
unfolding is_time
is_time-Civil seconds c rest h =
    let hour : rest / 3600 ≤ 23 = omega arith in
    let minute : rest % 3600 / 60 ≤ 59 = omega arith in
    let second : rest % 60 ≤ 60 = omega arith in ground (arith, c.in_month)

seconds_of-Civil :
    (seconds : ℕ) (c : Civil seconds) (rest : ℕ)
    → rest < 86400
    → seconds_of c.year c.month (c.day + 1) (rest / 3600) (rest % 3600 / 60) (rest % 60)
      ≡ seconds / 86400 * 86400 + rest
unfolding seconds_of
seconds_of-Civil seconds c rest h = omega (arith, c.total)

pub format-rendered :
    (seconds : ℕ) (c : Civil seconds)
    → seconds ≤ last_second
    → format seconds ≡ rendered c.year c.month (c.day + 1) (seconds % 86400)
format-rendered seconds c h =
    c.written
    ∙ render-rendered c.year c.month (c.day + 1) (seconds % 86400) (omega (arith, c.after_epoch))
        (four_digit_year seconds c h) (omega (arith, c.last_month))
        (omega (arith, day_within c.year c.month c.day c.in_month)) (omega arith)

-- Every instant up to the last second of the year 9999 is read back from the text that is written
-- for it, through leap years and month ends; in particular both loops end on a date that exists.
pub parse-format : (seconds : ℕ) → seconds ≤ last_second → parse (format seconds) ≡ some seconds
parse-format seconds h =
    let c = civil seconds in
    let e : seconds / 86400 * 86400 + seconds % 86400 ≡ seconds = omega arith in
    rw (format-rendered seconds c h) (
      parse-rendered c.year c.month (c.day + 1) (seconds % 86400) (four_digit_year seconds c h)
        (omega (arith, c.last_month)) (omega (arith, day_within c.year c.month c.day c.in_month))
        (omega arith) (is_date-Civil seconds c (four_digit_year seconds c h))
        (is_time-Civil seconds c (seconds % 86400) (omega arith))
      ∙ ap some (seconds_of-Civil seconds c (seconds % 86400) (omega arith) ∙ e))

-- An instant is after a written instant exactly when it is later.
pub is_after-format :
    (now expiry : ℕ)
    → expiry ≤ last_second
    → is_after (from_unix now) (format expiry) ≡ ltb expiry now
unfolding is_after from_unix
is_after-format now expiry h = rw (parse-format expiry h, is_after) refl
