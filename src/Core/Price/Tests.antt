-- ===== src/Core/Price/Tests.antt =====
-- A price book with a named and a method price.
use mcp_usage_kit.Core.Method
use mcp_usage_kit.Prelude.Assoc
use mcp_usage_kit.Core.Method.{Method, tools_call}
use mcp_usage_kit.Core.Price.{PriceBook, units_for}
use mcp_usage_kit.Prelude.{[], refl, some, str, str_eq, str_equal, strs_equal, ◌∷◌, ◌≡◌}

abbrev priced : PriceBook
priced = record {
  default_units = 1;
  names = (str "expensive_tool", 100) ∷ [];
  methods = (str "tools/call", 5) ∷ [];
}

name_beats_method : units_for priced tools_call (some (str "expensive_tool")) ≡ 100
unfolding units_for Assoc.lookup str_eq
name_beats_method = refl

method_beats_default : units_for priced tools_call (some (str "other_tool")) ≡ 5
unfolding units_for Assoc.lookup str_eq Method.as_str
method_beats_default = refl
