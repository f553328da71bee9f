-- ===== src/Core/Method.antt =====
-- crates/mcp-usage-core/src/method.rs: the method taxonomy of the `Mcp-Method` header.
pub mod Classes
mod Tests
use mcp_usage_kit.Prelude.{Bool, Str, false, if◌then◌else◌, str, str_eq, true}

pub data Method : Type 0 where
  tools_call tools_list resources_read resources_list resources_templates_list : Method
  prompts_get prompts_list server_discover tasks_get tasks_update tasks_cancel : Method
  subscriptions_listen : Method
  other : Str → Method

unfoldable pub parse : Str → Method
parse raw =
    if str_eq raw (str "tools/call")
    then tools_call
    else if str_eq raw (str "tools/list")
    then tools_list
    else if str_eq raw (str "resources/read")
    then resources_read
    else if str_eq raw (str "resources/list")
    then resources_list
    else if str_eq raw (str "resources/templates/list")
    then resources_templates_list
    else if str_eq raw (str "prompts/get")
    then prompts_get
    else if str_eq raw (str "prompts/list")
    then prompts_list
    else if str_eq raw (str "server/discover")
    then server_discover
    else if str_eq raw (str "tasks/get")
    then tasks_get
    else if str_eq raw (str "tasks/update")
    then tasks_update
    else if str_eq raw (str "tasks/cancel")
    then tasks_cancel
    else if str_eq raw (str "subscriptions/listen")
    then subscriptions_listen
    else other raw

unfoldable pub as_str : Method → Str
as_str tools_call = str "tools/call"
as_str tools_list = str "tools/list"
as_str resources_read = str "resources/read"
as_str resources_list = str "resources/list"
as_str resources_templates_list = str "resources/templates/list"
as_str prompts_get = str "prompts/get"
as_str prompts_list = str "prompts/list"
as_str server_discover = str "server/discover"
as_str tasks_get = str "tasks/get"
as_str tasks_update = str "tasks/update"
as_str tasks_cancel = str "tasks/cancel"
as_str subscriptions_listen = str "subscriptions/listen"
as_str (other s) = s

unfoldable pub carries_name : Method → Bool
carries_name tools_call = true
carries_name resources_read = true
carries_name prompts_get = true
carries_name _ = false

unfoldable pub supports_mrtr : Method → Bool
supports_mrtr tools_call = true
supports_mrtr resources_read = true
supports_mrtr prompts_get = true
supports_mrtr _ = false

unfoldable pub is_cacheable : Method → Bool
is_cacheable server_discover = true
is_cacheable tools_list = true
is_cacheable prompts_list = true
is_cacheable resources_list = true
is_cacheable resources_templates_list = true
is_cacheable resources_read = true
is_cacheable _ = false

unfoldable pub is_discovery : Method → Bool
is_discovery server_discover = true
is_discovery tools_list = true
is_discovery prompts_list = true
is_discovery resources_list = true
is_discovery resources_templates_list = true
is_discovery _ = false

unfoldable pub is_task_drive : Method → Bool
is_task_drive tasks_get = true
is_task_drive tasks_update = true
is_task_drive tasks_cancel = true
is_task_drive _ = false

unfoldable pub delivers_priced_work : Method → Bool
delivers_priced_work tools_call = true
delivers_priced_work resources_read = true
delivers_priced_work prompts_get = true
delivers_priced_work _ = false
