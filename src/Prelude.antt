-- ===== src/Prelude.antt =====
-- The names that every module shares: the libraries', passed on, and those of the children.
mod Tests
mod Lists
mod Keys
mod Text
mod Words
mod Strings
pub mod Assoc
pub mod Sets
pub mod Entries
pub mod Decimal
pub use Tests.*
unfoldable pub use Words.{checked_add, checked_mul, saturating_add}
pub use Words.{u64_max}
unfoldable pub use Lists.{retain, take, drop}
pub use Lists.{length, get_elem?, length-append, All}
pub use Keys.*
unfoldable pub use Text.{str_eq, strs_eq}
unfoldable pub use Strings.{strip_prefix, from_utf8, is_utf8_from, utf8_lead, utf8_step}
unfoldable pub use Strings.{to_ascii_lowercase, eq_ignore_ascii_case}
unfoldable pub use Strings.{
  is_whitespace, trim_start, trim, space_width, skip_space, trim_start_unicode,
}
pub use Text.{Str, str, str_eq_iff, str_equal, strs_eq_iff, strs_equal}
pub use Prim.Native.Nat.{ℕ, zero, suc, ◌+◌, ◌-◌, ◌*◌, ◌/◌, ◌%◌, ◌^◌, ◌≤◌, ◌<◌, min, max}
pub use mathlib.Core.Path.{◌≡◌, refl, sym, ap, ◌∙◌, subst}
pub use mathlib.Core.Logic.{◌≢◌, ◌↔◌, ◌⊎◌, inl, inr}
pub use mathlib.Core.Bool.{Bool, true, false, ◌&&◌, ◌||◌, not}
pub use mathlib.Core.Option.{Option, none, some}
pub use mathlib.Core.List.{List, [], ◌∷◌, ◌++◌, map}
pub use native.Mathlib.Omega.{arith}
