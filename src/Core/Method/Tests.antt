-- ===== src/Core/Method/Tests.antt =====
-- Runs of method.rs on concrete header values.
use mcp_usage_kit.Core.Method.{other, parse, tools_call}
use mcp_usage_kit.Prelude.{refl, str, str_eq, ◌≡◌}

-- Values are case-sensitive, and `tasks/list` was removed from the protocol.
tools_call_parses : parse (str "tools/call") ≡ tools_call
unfolding parse str_eq
tools_call_parses = refl

case_is_kept : parse (str "Tools/Call") ≡ other (str "Tools/Call")
unfolding parse str_eq
case_is_kept = refl

tasks_list_is_unknown : parse (str "tasks/list") ≡ other (str "tasks/list")
unfolding parse str_eq
tasks_list_is_unknown = refl
