-- ===== src/Core/Method/Classes.antt =====
-- The wire strings of method.rs against the parser, and the classifications against each other.
use mcp_usage_kit.Core.Method.{
  Method, as_str, carries_name, delivers_priced_work, is_cacheable, is_discovery, is_task_drive,
  other, parse, resources_read, supports_mrtr, tools_call,
}
use mcp_usage_kit.Prelude.{
  All, List, Str, [], arith, false, refl, str, str_eq, str_eq_iff, true, ◌∷◌, ◌≡◌, ◌≢◌,
}

-- Parsing a header value loses nothing: whatever the value, the parsed method's wire string is that
-- value again, so no other spelling or capitalisation is folded into a core method.
pub as_str-parse : (raw : Str) → as_str (parse raw) ≡ raw
unfolding parse as_str
as_str-parse raw = ground (
  arith,
  str_eq_iff raw (str "tools/call"),
  str_eq_iff raw (str "tools/list"),
  str_eq_iff raw (str "resources/read"),
  str_eq_iff raw (str "resources/list"),
  str_eq_iff raw (str "resources/templates/list"),
  str_eq_iff raw (str "prompts/get"),
  str_eq_iff raw (str "prompts/list"),
  str_eq_iff raw (str "server/discover"),
  str_eq_iff raw (str "tasks/get"),
  str_eq_iff raw (str "tasks/update"),
  str_eq_iff raw (str "tasks/cancel"),
  str_eq_iff raw (str "subscriptions/listen"),
)

-- The wire strings of the twelve core methods.
abbrev pub core_names : List Str
core_names =
    str "tools/call"
    ∷ str "tools/list"
    ∷ str "resources/read"
    ∷ str "resources/list"
    ∷ str "resources/templates/list"
    ∷ str "prompts/get"
    ∷ str "prompts/list"
    ∷ str "server/discover"
    ∷ str "tasks/get"
    ∷ str "tasks/update"
    ∷ str "tasks/cancel"
    ∷ str "subscriptions/listen"
    ∷ []

-- An extension method does not carry the name of a core method.
abbrev pub IsCanonical : Method → Type 0
IsCanonical (other s) = All (λ name. s ≢ name) core_names
IsCanonical _ = Unit {0}

parse_other : (raw s : Str) → parse raw ≡ other s → IsCanonical (other s)
unfolding parse
parse_other raw s h = ground (
  arith,
  str_eq_iff raw (str "tools/call"),
  str_eq_iff raw (str "tools/list"),
  str_eq_iff raw (str "resources/read"),
  str_eq_iff raw (str "resources/list"),
  str_eq_iff raw (str "resources/templates/list"),
  str_eq_iff raw (str "prompts/get"),
  str_eq_iff raw (str "prompts/list"),
  str_eq_iff raw (str "server/discover"),
  str_eq_iff raw (str "tasks/get"),
  str_eq_iff raw (str "tasks/update"),
  str_eq_iff raw (str "tasks/cancel"),
  str_eq_iff raw (str "subscriptions/listen"),
)

IsCanonical-of_eq : (raw : Str) (m : Method) → parse raw ≡ m → IsCanonical m
IsCanonical-of_eq raw (other s) h = parse_other raw s h
IsCanonical-of_eq raw tools_call h = tt
IsCanonical-of_eq raw _ h = tt

-- Parsing never leaves a core method's name in the extension case.
pub parse-IsCanonical : (raw : Str) → IsCanonical (parse raw)
parse-IsCanonical raw = IsCanonical-of_eq raw (parse raw) refl

other_of_canonical : (s : Str) → IsCanonical (other s) → parse s ≡ other s
unfolding parse
other_of_canonical s c = ground (
  arith,
  str_eq_iff s (str "tools/call"),
  str_eq_iff s (str "tools/list"),
  str_eq_iff s (str "resources/read"),
  str_eq_iff s (str "resources/list"),
  str_eq_iff s (str "resources/templates/list"),
  str_eq_iff s (str "prompts/get"),
  str_eq_iff s (str "prompts/list"),
  str_eq_iff s (str "server/discover"),
  str_eq_iff s (str "tasks/get"),
  str_eq_iff s (str "tasks/update"),
  str_eq_iff s (str "tasks/cancel"),
  str_eq_iff s (str "subscriptions/listen"),
)

-- A method that does not smuggle a core name into the extension case parses back from its wire
-- string.
pub parse-as_str : (m : Method) → IsCanonical m → parse (as_str m) ≡ m
unfolding parse as_str str_eq
parse-as_str (other s) c = other_of_canonical s c
parse-as_str tools_call c = refl
parse-as_str _ c = refl

-- What a meter relies on: the methods that deliver priced work are neither discovery nor task
-- traffic, they are those that carry a name and those that may answer with an interim result, and
-- the cacheable ones are the discovery methods together with one method that delivers.
pub record Classified (m : Method) : Type 0 where
  pub delivers_apart :
      delivers_priced_work m ≡ true → (is_discovery m ≡ false) × (is_task_drive m ≡ false)
  pub drive_apart : is_task_drive m ≡ true → (is_discovery m ≡ false) × (is_cacheable m ≡ false)
  pub named : carries_name m ≡ delivers_priced_work m
  pub interim : supports_mrtr m ≡ delivers_priced_work m
  pub discovery_cacheable : is_discovery m ≡ true → is_cacheable m ≡ true
  pub overlap : is_cacheable m ≡ true → supports_mrtr m ≡ true → m ≡ resources_read

-- Every method, extension methods included, is classified consistently.
pub Classified-all : (m : Method) → Classified m
unfolding delivers_priced_work is_discovery is_task_drive is_cacheable carries_name supports_mrtr
Classified-all tools_call = ground arith
Classified-all _ = ground arith
