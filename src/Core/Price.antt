-- ===== src/Core/Price.antt =====
-- crates/mcp-usage-core/src/price.rs: units owed for a delivered call. A `BTreeMap` is an
-- association list; its order only shows in the serialised book, which is not modelled.
pub mod Lookup
mod Tests
use mcp_usage_kit.Core.Method
use mcp_usage_kit.Prelude.Assoc
use mcp_usage_kit.Core.Method.{Method}
use mcp_usage_kit.Prelude.{List, Option, Str, [], none, some, str_equal, strs_equal, ℕ, ◌>>=◌}

pub record PriceBook : Type 0 where
  pub default_units : ℕ
  pub names : List (Str × ℕ)
  pub methods : List (Str × ℕ)

abbrev pub default_book : PriceBook
default_book = record { default_units = 1; names = []; methods = [] }

unfoldable pub flat : ℕ → PriceBook
flat units = record default_book { default_units = units }

unfoldable pub with_name : PriceBook → Str → ℕ → PriceBook
with_name book name units = record book { names = Assoc.insert name units book.names }

unfoldable pub with_method : PriceBook → Method → ℕ → PriceBook
with_method book method units = record book {
  methods = Assoc.insert (Method.as_str method) units book.methods;
}

-- The name's own price, then the method's, then the default.
unfoldable pub units_for : PriceBook → Method → Option Str → ℕ
units_for book method name = elim (name >>= λ n. Assoc.lookup n book.names) [
  | some units ↦ units
  | none ↦ elim (Assoc.lookup (Method.as_str method) book.methods) [
    | some units ↦ units
    | none ↦ book.default_units
  ]
]
