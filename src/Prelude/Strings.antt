-- ===== src/Prelude/Strings.antt =====
-- Rust's texts: UTF-8, prefixes, ASCII case and ASCII white space.
use Prim.Native.Nat.{ℕ, zero, suc, ◌+◌, ◌-◌}
use mathlib.Core.Bool.{Bool, false, true, ◌&&◌, ◌||◌}
use mathlib.Core.Option.{Option, none, some}
use mathlib.Core.List.{List, [], reverse, ◌∷◌}
use mcp_usage_kit.Prelude.Lists.{length}
use mcp_usage_kit.Prelude.Tests.{if◌then◌else◌, leb, ltb, ◌==◌}
use mcp_usage_kit.Prelude.Text.{Str}

unfoldable pub strip_prefix : Str → Str → Option Str
strip_prefix [] s = some s
strip_prefix (p ∷ ps) [] = none
strip_prefix (p ∷ ps) (c ∷ cs) = if p == c then strip_prefix ps cs else none

-- What the next bytes of a UTF-8 text must be: so many continuation bytes, the first of them in a
-- range.
pub record Pending : Type 0 where
  pub count : ℕ
  pub low : ℕ
  pub high : ℕ

abbrev pub start : Pending
start = record { count = 0; low = 0x80; high = 0xbf }

abbrev continuation : ℕ → ℕ → ℕ → Option Pending
continuation n low high = some (record { count = n; low = low; high = high })

-- One step of the well-formedness table of UTF-8.
unfoldable pub utf8_lead : ℕ → Option Pending
utf8_lead b =
    if ltb b 0x80
    then some start
    else if leb 0xc2 b && leb b 0xdf
    then continuation 1 0x80 0xbf
    else if b == 0xe0
    then continuation 2 0xa0 0xbf
    else if b == 0xed
    then continuation 2 0x80 0x9f
    else if leb 0xe1 b && leb b 0xef
    then continuation 2 0x80 0xbf
    else if b == 0xf0
    then continuation 3 0x90 0xbf
    else if leb 0xf1 b && leb b 0xf3
    then continuation 3 0x80 0xbf
    else if b == 0xf4
    then continuation 3 0x80 0x8f
    else none

unfoldable pub utf8_step : Pending → ℕ → Option Pending
utf8_step pending b =
    if pending.count == 0
    then utf8_lead b
    else if leb pending.low b && leb b pending.high
    then continuation (pending.count - 1) 0x80 0xbf
    else none

unfoldable pub is_utf8_from : Option Pending → Str → Bool
is_utf8_from none bytes = false
is_utf8_from (some pending) [] = pending.count == 0
is_utf8_from (some pending) (b ∷ bs) = is_utf8_from (utf8_step pending b) bs

-- `String::from_utf8`: a text is its bytes, if they are well formed.
unfoldable pub from_utf8 : Str → Option Str
from_utf8 bytes = if is_utf8_from (some start) bytes then some bytes else none

unfoldable pub to_ascii_lowercase : ℕ → ℕ
to_ascii_lowercase b = if leb b'A' b && leb b b'Z' then b + 32 else b

unfoldable pub eq_ignore_ascii_case : Str → Str → Bool
eq_ignore_ascii_case [] [] = true
eq_ignore_ascii_case (x ∷ xs) (y ∷ ys) =
    to_ascii_lowercase x == to_ascii_lowercase y && eq_ignore_ascii_case xs ys
eq_ignore_ascii_case _ _ = false

unfoldable pub is_whitespace : ℕ → Bool
is_whitespace b = b == 32 || (leb 9 b && leb b 13)

unfoldable pub trim_start : Str → Str
trim_start [] = []
trim_start (b ∷ bs) = let rest = trim_start bs in if is_whitespace b then rest else b ∷ bs

-- `trim`: no white space at either end.
unfoldable pub trim : Str → Str
trim s = reverse (trim_start (reverse (trim_start s)))

-- The white space of Unicode beyond ASCII.
abbrev wide_spaces : List Str
wide_spaces =
    (0xc2 ∷ 0x85 ∷ [])
    ∷ (0xc2 ∷ 0xa0 ∷ [])
    ∷ (0xe1 ∷ 0x9a ∷ 0x80 ∷ [])
    ∷ (0xe2 ∷ 0x80 ∷ 0x80 ∷ [])
    ∷ (0xe2 ∷ 0x80 ∷ 0x81 ∷ [])
    ∷ (0xe2 ∷ 0x80 ∷ 0x82 ∷ [])
    ∷ (0xe2 ∷ 0x80 ∷ 0x83 ∷ [])
    ∷ (0xe2 ∷ 0x80 ∷ 0x84 ∷ [])
    ∷ (0xe2 ∷ 0x80 ∷ 0x85 ∷ [])
    ∷ (0xe2 ∷ 0x80 ∷ 0x86 ∷ [])
    ∷ (0xe2 ∷ 0x80 ∷ 0x87 ∷ [])
    ∷ (0xe2 ∷ 0x80 ∷ 0x88 ∷ [])
    ∷ (0xe2 ∷ 0x80 ∷ 0x89 ∷ [])
    ∷ (0xe2 ∷ 0x80 ∷ 0x8a ∷ [])
    ∷ (0xe2 ∷ 0x80 ∷ 0xa8 ∷ [])
    ∷ (0xe2 ∷ 0x80 ∷ 0xa9 ∷ [])
    ∷ (0xe2 ∷ 0x80 ∷ 0xaf ∷ [])
    ∷ (0xe2 ∷ 0x81 ∷ 0x9f ∷ [])
    ∷ (0xe3 ∷ 0x80 ∷ 0x80 ∷ [])
    ∷ []

-- How many bytes the space takes that a text starts with, if it does.
unfoldable pub space_width : List Str → Str → ℕ
space_width [] text = 0
space_width (space ∷ spaces) text =
    let rest = space_width spaces text in
    elim (strip_prefix space text) [ none ↦ rest | some after ↦ length space ]

unfoldable pub skip_space : ℕ → Str → Str
skip_space n [] = []
skip_space (suc n) (b ∷ bs) = skip_space n bs
skip_space zero (b ∷ bs) =
    let one = skip_space 0 bs in
    let two = skip_space 1 bs in
    let three = skip_space 2 bs in
    if is_whitespace b then one else elim (space_width wide_spaces (b ∷ bs)) [
      | zero ↦ b ∷ bs
      | suc zero ↦ one
      | suc (suc zero) ↦ two
      | _ ↦ three
    ]

-- `trim_start` of a text that need not be ASCII.
unfoldable pub trim_start_unicode : Str → Str
trim_start_unicode text = skip_space 0 text
