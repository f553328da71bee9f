-- ===== src/Core/Version/Tests.antt =====
-- Version headers as clients send them.
use mcp_usage_kit.Core.Version.{
  ProtocolVersion, assess, is_ascii_digit, is_leap_year, malformed_version, max_day, parse_digits,
  reject, str_lt, trusted, valid_date, valid_day,
}
use mcp_usage_kit.Core.Version.Calendar.{Before, assess-trusted_iff}
use mcp_usage_kit.Core.Version.Digits.{IsCalendarDate, date_of}
use mcp_usage_kit.Prelude.{false, refl, some, str, true, ◌↔◌, ◌≡◌}

leap_day : valid_date (str "2024-02-29") ≡ true
unfolding valid_date is_ascii_digit valid_day max_day parse_digits is_leap_year
leap_day = refl

no_leap_day : valid_date (str "2100-02-29") ≡ false
unfolding valid_date is_ascii_digit valid_day max_day parse_digits is_leap_year
no_leap_day = refl

draft_is_malformed : assess (some (str "draft")) ≡ reject (malformed_version (str "draft"))
unfolding assess valid_date
draft_is_malformed = refl

abbrev current : ProtocolVersion
current = record { text = str "2026-07-28" }

current_is_trusted : assess (some (str "2026-07-28")) ≡ trusted current
unfolding assess valid_date is_ascii_digit valid_day max_day parse_digits str_lt
current_is_trusted = refl

assess-trusted_iff_example : (assess (some (str "2026-07-28")) ≡ trusted current) ↔ (
    (some (str "2026-07-28") ≡ some current.text)
    × IsCalendarDate current.text
    × ¬ Before (date_of current.text) (record { year = 2026; month = 7; day = 28 }))
assess-trusted_iff_example = assess-trusted_iff (some (str "2026-07-28")) current
