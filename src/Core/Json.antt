-- ===== src/Core/Json.antt =====
-- `serde_json::Value` as the crates use it: a document, and the accessors that they call.
-- The text parser of that package is not modelled: a body is what it parses to, if it does.
use mcp_usage_kit.Prelude.{Bool, Option, Str, false, if◌then◌else◌, none, some, str_eq, true, ℕ}

pub data Number : Type 0 where
  pos_int neg_int : ℕ → Number
  float : Str → Number

mutual
  pub data Value : Type 0 where
    null : Value
    bool : Bool → Value
    number : Number → Value
    string : Str → Value
    array : Items → Value
    object : Fields → Value

  pub data Items : Type 0 where
    nil : Items
    cons : Value → Items → Items

  pub data Fields : Type 0 where
    end : Fields
    field : Str → Value → Fields → Fields

unfoldable pub find : Str → Fields → Option Value
find k end = none
find k (field j v fs) = if str_eq j k then some v else find k fs

-- `Value::get` at a string: a member of an object, and nothing on any other value.
unfoldable pub get : Value → Str → Option Value
unfolding find
get (object fs) k = find k fs
get _ k = none

unfoldable pub as_str : Value → Option Str
as_str (string s) = some s
as_str _ = none

unfoldable pub is_null : Value → Bool
is_null null = true
is_null _ = false

unfoldable pub is_array : Value → Bool
is_array (array xs) = true
is_array _ = false

unfoldable pub is_string : Value → Bool
is_string (string s) = true
is_string _ = false

unfoldable pub is_number : Value → Bool
is_number (number n) = true
is_number _ = false
