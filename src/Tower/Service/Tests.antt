-- ===== src/Tower/Service/Tests.antt =====
-- crates/mcp-usage-tower/src/layer.rs, `MeterService::call` and the end of `Completion::finish`: runs.
use mcp_usage_kit.Core.Method
use mcp_usage_kit.Core.Json.{Value, end, field, object, pos_int, string}
use mcp_usage_kit.Core.Method.{Method}
use mcp_usage_kit.Core.Version.{
  is_ascii_digit, max_day, parse_digits, str_lt, valid_date, valid_day, validate_header,
}
use mcp_usage_kit.Export.Buffer.{empty_buffer}
use mcp_usage_kit.Prelude.{
  List, Option, Str, [], false, if◌then◌else◌, none, refl, some, str, str_eq, ℕ, ◌∷◌, ◌≡◌,
}
use mcp_usage_kit.Tower.Body.{chunk}
use mcp_usage_kit.Tower.Cache.{ResponseCache}
use mcp_usage_kit.Tower.Classify.{
  Headers, classify_method_header, classify_protocol_headers, classify_request_headers,
  classify_trust, classify_validated, decode_name, method_header, optional_header_str,
  protocol_version_header, trusted_call, unique_header, visible,
}
use mcp_usage_kit.Tower.Completion.{Books, Tenant}
use mcp_usage_kit.Tower.Credential.{
  api_key_header, choose_credential, extract_api_key, non_empty, or_invalid,
}
use mcp_usage_kit.Tower.Service.{
  Accounting, CachedResponse, EdgeConfig, HttpRequest, Instants, Packages, ServiceState, call,
  refuse_call, refused, serve_classified, serve_credential, serve_tenant, unauthenticated,
}
use mcp_usage_kit.Tower.Service.Finish.{
  OriginResponse, completion_of, content_type_header, content_type_of, finish_response,
}
use mcp_usage_kit.Tower.Service.Gated.{Gated}
use mcp_usage_kit.Tower.Service.Stored.{StoredOnly, stored_only}
use mcp_usage_kit.Tower.Task.{with_capacity}
use mcp_usage_kit.Tower.Terminal.{terminal_response}

-- Any codec that round-trips will do, and a parser that knows one document.
abbrev packages : Packages
packages = record {
  base64 = record {
    encode = λ bytes. bytes;
    decode = λ text. some text;
    decode_of_encode = λ bytes. refl;
  };
  from_json = λ text. none;
  read_lean = λ text. none;
  write = λ value. str "{}";
  sha256 = λ text. text;
  hash_api_key = λ key. key;
}

abbrev tenant : Tenant
tenant = record {
  id = str "acme";
  billing_customer_id = str "cus_1";
  prices = record { default_units = 2; names = []; methods = [] };
}

abbrev config : EdgeConfig
config = record {
  strict_protocol_version = false;
  authenticate = λ key. if str_eq key (str "secret") then some tenant else none;
  max_request_body = 100;
  forward_credentials = false;
  deferred_drain_per_request = 0;
  share_public_cache = false;
}

abbrev headers_with : List (Option Str) → Headers
headers_with keys name =
    if str_eq name protocol_version_header
    then some (str "2026-07-28") ∷ []
    else if str_eq name method_header
    then some (str "tools/list") ∷ []
    else if str_eq name api_key_header
    then keys
    else []

abbrev request_with : List (Option Str) → HttpRequest
request_with keys = record {
  method = str "POST";
  headers = headers_with keys;
  frames = chunk (str "{}") ∷ [];
}

abbrev state : ServiceState ℕ
state = record {
  auth_failure_limit = none;
  deferred = record { queue = []; capacity = 2; dropped = 0 };
  cache = record { entries = []; max_entries = 4; max_ttl = 1000; share_public = false };
  metrics = [];
}

-- A parked completion that leaves the cache as it is.
abbrev run_parked : ℕ → ResponseCache CachedResponse → ResponseCache CachedResponse
run_parked completion cache = cache

abbrev times : Instants
times = record { checked_at = 0; recorded_at = 1; looked_up_at = 2 }

unauthenticated_call :
    call packages run_parked times config (request_with (some (str "guess") ∷ [])) state
    ≡ (refused 401 (str "UNAUTHENTICATED"), record state { metrics = unauthenticated ∷ [] })
unfolding call serve_classified serve_credential serve_tenant refuse_call classify_request_headers
    optional_header_str unique_header visible classify_trust classify_protocol_headers
    classify_validated classify_method_header decode_name trusted_call validate_header str_eq str_lt
    valid_date is_ascii_digit valid_day max_day parse_digits Method.parse Method.carries_name
    extract_api_key choose_credential or_invalid non_empty
unauthenticated_call = refl

abbrev listing : Accounting
listing = record {
  tenant = tenant;
  authorization_context = str "secret";
  legacy = false;
  call = record { method = Method.tools_list; name = none };
  request = record {
    request_id = some (string (str "7"));
    cache_key = some (str "tools");
    is_continuation = false;
    requested_task_id = none;
  };
}

abbrev complete_result : Value
complete_result = object (
    field (str "result")
      (object (
        field (str "resultType") (string (str "complete"))
          (field (str "ttlMs") (Value.number (pos_int 500)) end)))
      end)

abbrev reads_complete : Str → Option Value
reads_complete text = some complete_result

abbrev listed : OriginResponse
listed = record {
  status = 200;
  headers =
      λ name. if str_eq name content_type_header then some (str "application/json") ∷ [] else [];
  bytes = str "{}";
}

abbrev accounts : Books
accounts = record { tasks = with_capacity 4; buffer = empty_buffer; metrics = [] }

stored_only_example :
    StoredOnly 10000 0
      (completion_of (str "mcp_calls") 10 listing)
      listing
      listed
      (terminal_response reads_complete (content_type_of listed.headers) listed.bytes)
      state.cache
      (finish_response reads_complete 10000 0
        (completion_of (str "mcp_calls") 10 listing)
        listing
        listed
        (accounts, state.cache)).1
stored_only_example =
    stored_only reads_complete 10000 0 (completion_of (str "mcp_calls") 10 listing) listing listed
      accounts state.cache
