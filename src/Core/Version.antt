-- ===== src/Core/Version.antt =====
-- crates/mcp-usage-core/src/version.rs: the protocol version, and the guard that decides whether
-- the mirrored headers may be trusted.
pub mod Calendar
mod Digits
mod Tests
use mcp_usage_kit.Prelude.{
  Bool, Option, Str, [], false, if◌then◌else◌, leb, ltb, none, not, some, str, true, ℕ, ◌%◌, ◌&&◌,
  ◌*◌, ◌+◌, ◌-◌, ◌==◌, ◌^◌, ◌||◌, ◌∷◌,
}

abbrev pub header_validation_since : Str
header_validation_since = str "2026-07-28"

-- `ProtocolVersion` wraps its text.
pub record ProtocolVersion : Type 0 where
  pub text : Str

pub data TrustFailure : Type 0 where
  missing_version_header : TrustFailure
  unvalidated_revision : ProtocolVersion → TrustFailure
  malformed_version : Str → TrustFailure

pub data HeaderTrust : Type 0 where
  trusted : ProtocolVersion → HeaderTrust
  reject : TrustFailure → HeaderTrust

unfoldable pub is_trusted : HeaderTrust → Bool
is_trusted (trusted v) = true
is_trusted (reject f) = false

-- Text order: byte by byte, a prefix first.
unfoldable pub str_lt : Str → Str → Bool
str_lt [] [] = false
str_lt [] (y ∷ ys) = true
str_lt (x ∷ xs) [] = false
str_lt (x ∷ xs) (y ∷ ys) = ltb x y || (x == y && str_lt xs ys)

unfoldable pub is_ascii_digit : ℕ → Bool
is_ascii_digit b = leb b'0' b && leb b b'9'

-- The value in 32 bits, which four digits cannot exceed.
unfoldable pub parse_digits : Str → ℕ → ℕ
parse_digits [] value = value
parse_digits (b ∷ bs) value = parse_digits bs ((value * 10 + (b - b'0')) % 2 ^ 32)

unfoldable pub is_leap_year : ℕ → Bool
is_leap_year year = (year % 4 == 0) && (not (year % 100 == 0) || (year % 400 == 0))

-- The last day of a month, `none` for a number that is no month.
unfoldable pub max_day : ℕ → ℕ → Option ℕ
max_day year month =
    if month == 1
      || month == 3
      || month == 5
      || month == 7
      || month == 8
      || month == 10
      || month == 12
    then some 31
    else if month == 4 || month == 6 || month == 9 || month == 11
    then some 30
    else if month == 2 && is_leap_year year
    then some 29
    else if month == 2
    then some 28
    else none

abbrev pub all_digits : Str → Bool
all_digits [] = true
all_digits (b ∷ bs) = is_ascii_digit b && all_digits bs

unfoldable pub valid_day : ℕ → ℕ → ℕ → Bool
valid_day year month day = elim (max_day year month) [
  | none ↦ false
  | some last ↦ not (day == 0) && leb day last
]

-- Ten bytes, with dashes at the places 4 and 7 and digits at the others.
unfoldable pub valid_date : Str → Bool
valid_date (y0 ∷ y1 ∷ y2 ∷ y3 ∷ s4 ∷ m5 ∷ m6 ∷ s7 ∷ d8 ∷ d9 ∷ []) =
    s4 == b'-'
    && s7 == b'-'
    && all_digits (y0 ∷ y1 ∷ y2 ∷ y3 ∷ m5 ∷ m6 ∷ d8 ∷ d9 ∷ [])
    && valid_day (parse_digits (y0 ∷ y1 ∷ y2 ∷ y3 ∷ []) 0) (parse_digits (m5 ∷ m6 ∷ []) 0)
        (parse_digits (d8 ∷ d9 ∷ []) 0)
valid_date _ = false

unfoldable pub parse_version : Str → Option ProtocolVersion
parse_version raw = if valid_date raw then some (record { text = raw }) else none

unfoldable pub requires_header_validation : ProtocolVersion → Bool
requires_header_validation v = not (str_lt v.text header_validation_since)

pub data Validation : Type 0 where
  valid : Validation
  invalid : TrustFailure → Validation

unfoldable pub validate_header : Option Str → Validation
validate_header none = invalid missing_version_header
validate_header (some raw) =
    if not (valid_date raw)
    then invalid (malformed_version raw)
    else if str_lt raw header_validation_since
    then invalid (unvalidated_revision (record { text = raw }))
    else valid

abbrev unwrap_or_default : Option Str → Str
unwrap_or_default none = []
unwrap_or_default (some raw) = raw

unfoldable pub assess : Option Str → HeaderTrust
unfolding validate_header
assess version = elim (validate_header version) [
  | valid ↦ trusted (record { text = unwrap_or_default version })
  | invalid failure ↦ reject failure
]
