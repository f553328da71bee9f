-- ===== src/Prelude/Text.antt =====
-- Rust strings as their UTF-8 bytes.
use Prim.Native.Nat.{ℕ}
use Prim.Native.Char.{code}
use Prim.Native.String.{String}
use mathlib.Core.Path.{◌≡◌}
use mathlib.Core.Logic.{◌↔◌}
use mathlib.Core.Bool.{Bool, true, false, ◌&&◌}
use mathlib.Core.List.{List, [], ◌∷◌}
use native.Mathlib.Omega.{arith}
use mcp_usage_kit.Prelude.Keys.{Equal}
use mcp_usage_kit.Prelude.Tests.{◌==◌}

abbrev pub Str : Type 0
Str = List ℕ

-- The bytes of an ASCII literal.
abbrev pub str : String → Str
str String.[] = []
str (String.◌∷◌ c s) = code c ∷ str s

unfoldable pub str_eq : Str → Str → Bool
str_eq [] [] = true
str_eq (x ∷ xs) (y ∷ ys) = x == y && str_eq xs ys
str_eq _ _ = false

pub str_eq_iff : (s t : Str) → (str_eq s t ≡ true) ↔ (s ≡ t)
unfolding str_eq
str_eq_iff [] [] = ground arith
str_eq_iff [] (y ∷ ys) = ground arith
str_eq_iff (x ∷ xs) [] = ground arith
str_eq_iff (x ∷ xs) (y ∷ ys) = ground (arith, str_eq_iff xs ys)

instance abbrev pub str_equal : Equal Str
str_equal = record { beq = str_eq; beq_iff = str_eq_iff }

-- Pairs of texts, as keys.
unfoldable pub strs_eq : Str × Str → Str × Str → Bool
strs_eq (a, b) (c, d) = str_eq a c && str_eq b d

pub strs_eq_iff : (p q : Str × Str) → (strs_eq p q ≡ true) ↔ (p ≡ q)
unfolding strs_eq
strs_eq_iff (a, b) (c, d) = ground (arith, str_eq_iff a c, str_eq_iff b d)

instance abbrev pub strs_equal : Equal (Str × Str)
strs_equal = record { beq = strs_eq; beq_iff = strs_eq_iff }
