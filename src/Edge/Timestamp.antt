-- ===== src/Edge/Timestamp.antt =====
-- crates/mcp-usage-edge/src/mpp.rs, `chrono_lite`: RFC 3339 instants, as an `expires` is issued and
-- compared. The loops of `format` walk by years and by months; every round takes a day at least, so
-- one more round than there are days is enough.
mod Walk
mod Shape
pub mod RoundTrip
pub mod Order
mod Tests
use mcp_usage_kit.Prelude.Decimal
use mcp_usage_kit.Prelude.{
  Bool, Option, Str, [], drop, false, if◌then◌else◌, leb, length, ltb, none, not, saturating_add,
  some, suc, take, true, zero, ℕ, ◌%◌, ◌&&◌, ◌*◌, ◌++◌, ◌+◌, ◌-◌, ◌/◌, ◌==◌, ◌>>=◌, ◌||◌, ◌∷◌,
}

-- An instant with its text.
pub record Rfc3339 : Type 0 where
  pub text : Str
  pub seconds : ℕ

unfoldable pub is_leap : ℕ → Bool
is_leap year = ((year % 4 == 0) && not (year % 100 == 0)) || (year % 400 == 0)

unfoldable pub days_in_month : ℕ → ℕ → ℕ
days_in_month year month =
    if month == 1
      || month == 3
      || month == 5
      || month == 7
      || month == 8
      || month == 10
      || month == 12
    then 31
    else if month == 4 || month == 6 || month == 9 || month == 11
    then 30
    else if is_leap year
    then 29
    else 28

unfoldable pub days_in_year : ℕ → ℕ
days_in_year year = if is_leap year then 366 else 365

-- The loop over years: the year reached and the days left in it.
unfoldable pub walk_years : ℕ → ℕ → ℕ → ℕ × ℕ
walk_years zero year days = (year, days)
walk_years (suc fuel) year days =
    let rest = walk_years fuel (year + 1) (days - days_in_year year) in
    if ltb days (days_in_year year) then (year, days) else rest

-- The loop over the months of a year: the month reached and the days left in it.
unfoldable pub walk_months : ℕ → ℕ → ℕ → ℕ → ℕ × ℕ
walk_months zero year month days = (month, days)
walk_months (suc fuel) year month days =
    let rest = walk_months fuel year (month + 1) (days - days_in_month year month) in
    if leb (days_in_month year month) days then rest else (month, days)

unfoldable pub render : ℕ → ℕ → ℕ → ℕ → Str
render year month day rest =
    Decimal.padded 4 year
    ++ (b'-' ∷ Decimal.padded 2 month
        ++ (b'-' ∷ Decimal.padded 2 day
            ++ (b'T' ∷ Decimal.padded 2 (rest / 3600)
                ++ (b':' ∷ Decimal.padded 2 (rest % 3600 / 60)
                    ++ (b':' ∷ Decimal.padded 2 (rest % 60) ++ b'Z' ∷ [])))))

unfoldable pub format_in_year : ℕ → ℕ × ℕ → ℕ → Str
format_in_year fuel (year, days) rest =
    let reached = walk_months fuel year 1 days in render year (reached.0) (reached.1 + 1) rest

unfoldable pub format : ℕ → Str
format seconds =
    format_in_year (suc (seconds / 86400))
      (walk_years (suc (seconds / 86400)) 1970 (seconds / 86400)) (seconds % 86400)

-- `for y in from..` over as many years as are left.
unfoldable pub sum_years : ℕ → ℕ → ℕ
sum_years from zero = 0
sum_years from (suc left) = days_in_year from + sum_years (from + 1) left

-- `for m in from..` over as many months as are left.
unfoldable pub sum_months : ℕ → ℕ → ℕ → ℕ
sum_months year from zero = 0
sum_months year from (suc left) = days_in_month year from + sum_months year (from + 1) left

-- `timestamp.get(from..to)?.parse().ok()`: a range that is no character boundary has no digits.
unfoldable pub number : Str → ℕ → ℕ → Option ℕ
number timestamp from to =
    if leb to (length timestamp)
    then Decimal.parse_unsigned (take (to - from) (drop from timestamp))
    else none

unfoldable pub ends_with : ℕ → Str → Bool
ends_with c [] = false
ends_with c (b ∷ []) = b == c
ends_with c (b ∷ d ∷ bs) = ends_with c (d ∷ bs)

unfoldable pub is_date : ℕ → ℕ → ℕ → Bool
is_date year month day =
    leb 1970 year && leb year 9999 && leb 1 month && leb month 12 && not (day == 0)

unfoldable pub is_time : ℕ → ℕ → ℕ → ℕ → ℕ → ℕ → Bool
is_time year month day hour minute second =
    leb day (days_in_month year month) && leb hour 23 && leb minute 59 && leb second 60

unfoldable pub seconds_of : ℕ → ℕ → ℕ → ℕ → ℕ → ℕ → ℕ
seconds_of year month day hour minute second =
    (sum_years 1970 (year - 1970) + sum_months year 1 (month - 1) + (day - 1)) * 86400
    + hour * 3600
    + minute * 60
    + second

unfoldable pub parse : Str → Option ℕ
parse timestamp = if ltb (length timestamp) 20 || not (ends_with b'Z' timestamp) then none else do
  year ← number timestamp 0 4
  month ← number timestamp 5 7
  day ← number timestamp 8 10
  hour ← number timestamp 11 13
  minute ← number timestamp 14 16
  second ← number timestamp 17 19
  if is_date year month day && is_time year month day hour minute second
      then some (seconds_of year month day hour minute second)
      else none

unfoldable pub from_unix : ℕ → Rfc3339
from_unix seconds = record { text = format seconds; seconds = seconds }

-- An offset in seconds.
unfoldable pub plus : Rfc3339 → ℕ → Str
plus now offset = format (saturating_add now.seconds offset)

-- A timestamp that cannot be read is past.
unfoldable pub is_after : Rfc3339 → Str → Bool
is_after now timestamp = elim (parse timestamp) [ none ↦ true | some t ↦ ltb t now.seconds ]
