-- ===== src/Core/Price/Lookup.antt =====
-- What the builders of price.rs change for `units_for`, and what they leave alone.
use mcp_usage_kit.Core.Method
use mcp_usage_kit.Prelude.Assoc
use mcp_usage_kit.Core.Method.{Method}
use mcp_usage_kit.Core.Price.{PriceBook, flat, units_for, with_method, with_name}
use mcp_usage_kit.Prelude.{
  Option, Str, arith, if◌then◌else◌, is_some, is_some_and, none, refl, some, str_eq, str_equal, ℕ,
  ◌>>=◌, ◌≡◌,
}

-- After pricing a name, that name costs the given units under every method, and a call without
-- that name costs what it did.
pub units_for-with_name :
    (book : PriceBook) (n : Str) (units : ℕ) (method : Method) (name : Option Str)
    → units_for (with_name book n units) method name
      ≡ (if is_some_and name (str_eq n) then units else units_for book method name)
unfolding units_for with_name
units_for-with_name book n units method none = refl
units_for-with_name book n units method (some m) =
    ground (arith, Assoc.lookup-insert ⦃e = str_equal⦄ n m units book.names)

-- After pricing a method, calls of that method cost the given units unless their name has a price
-- of its own, and calls of other methods cost what they did.
pub units_for-with_method :
    (book : PriceBook) (m : Method) (units : ℕ) (method : Method) (name : Option Str)
    → units_for (with_method book m units) method name ≡ (
        if is_some (name >>= λ n. Assoc.lookup n book.names)
        then units_for book method name
        else if str_eq (Method.as_str m) (Method.as_str method)
        then units
        else units_for book method name)
unfolding units_for with_method
units_for-with_method book m units method name = ground (
  arith,
  Assoc.lookup-insert ⦃e = str_equal⦄ (Method.as_str m) (Method.as_str method) units book.methods,
)

-- A flat book charges the same for every call.
pub units_for-flat :
    (units : ℕ) (method : Method) (name : Option Str) → units_for (flat units) method name ≡ units
unfolding units_for flat Assoc.lookup
units_for-flat units method none = refl
units_for-flat units method (some n) = refl
