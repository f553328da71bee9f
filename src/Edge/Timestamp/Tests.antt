-- ===== src/Edge/Timestamp/Tests.antt =====
-- The epoch, a leap day, and texts that are no instants.
use mcp_usage_kit.Prelude.Decimal
use mcp_usage_kit.Edge.Timestamp.{
  days_in_month, days_in_year, ends_with, format, format_in_year, is_date, is_leap, is_time, number,
  parse, render, seconds_of, sum_months, sum_years, walk_months, walk_years,
}
use mcp_usage_kit.Edge.Timestamp.RoundTrip.{parse-format}
use mcp_usage_kit.Prelude.{arith, drop, none, refl, some, str, take, ◌≡◌}

format_epoch : format 0 ≡ str "1970-01-01T00:00:00Z"
unfolding format format_in_year render walk_years walk_months days_in_year days_in_month is_leap
    Decimal.padded Decimal.zeros Decimal.to_string Decimal.digits_before
format_epoch = refl

format_billion : format 1000000000 ≡ str "2001-09-09T01:46:40Z"
unfolding format format_in_year render walk_years walk_months days_in_year days_in_month is_leap
    Decimal.padded Decimal.zeros Decimal.to_string Decimal.digits_before
format_billion = refl

format_leap_day : format 1709164800 ≡ str "2024-02-29T00:00:00Z"
unfolding format format_in_year render walk_years walk_months days_in_year days_in_month is_leap
    Decimal.padded Decimal.zeros Decimal.to_string Decimal.digits_before
format_leap_day = refl

parse_no_month : parse (str "2026-13-01T00:00:00Z") ≡ none
unfolding parse number ends_with take drop is_date is_time seconds_of sum_years sum_months
    days_in_year days_in_month is_leap Decimal.parse_unsigned Decimal.read_digits Decimal.is_digit
parse_no_month = refl

parse_no_day : parse (str "2026-02-30T00:00:00Z") ≡ none
unfolding parse number ends_with take drop is_date is_time seconds_of sum_years sum_months
    days_in_year days_in_month is_leap Decimal.parse_unsigned Decimal.read_digits Decimal.is_digit
parse_no_day = refl

-- The characters between the fields are not read.
parse_separators : parse (str "2001/09/09 01.46.40Z") ≡ some 1000000000
unfolding parse number ends_with take drop is_date is_time seconds_of sum_years sum_months
    days_in_year days_in_month is_leap Decimal.parse_unsigned Decimal.read_digits Decimal.is_digit
parse_separators = refl

parse-format_example : parse (format 1709164800) ≡ some 1709164800
parse-format_example = parse-format 1709164800 (omega arith)
