-- ===== src/Edge/Transport/Tests.antt =====
-- crates/mcp-usage-edge/src/transport.rs: runs.
use mcp_usage_kit.Edge.Transport.{
  connections_allowed, inner_response, is_listed, is_protected, names_allowed, origin_allowed,
  poll_all, poll_deadline, rejection, split_commas, transport_call, validate,
}
use mcp_usage_kit.Edge.Transport.Checked.{
  ConnectionClean, InTime, OriginListed, transport_call-answered_iff,
}
use mcp_usage_kit.Prelude.{
  All, Bool, List, Option, Str, [], false, if◌then◌else◌, is_whitespace, map, none, refl, some, str,
  str_eq, strip_prefix, to_ascii_lowercase, trim, trim_start, true, ◌↔◌, ◌∷◌, ◌≡◌,
}
use mcp_usage_kit.Tower.Body.{Inner, ended, frame, pending}
use mcp_usage_kit.Tower.Classify.{Headers}

abbrev lower : Str → Option Str
lower token = if str_eq token [] then none else some (map to_ascii_lowercase token)

abbrev from_app : List (Option Str) → Headers
from_app connections name =
    if str_eq name (str "origin")
    then some (str "https://app.example") ∷ []
    else if str_eq name (str "connection")
    then connections
    else []

abbrev in_time : List (Bool × Inner)
in_time = (false, frame (some (str "{}"))) ∷ (false, ended) ∷ (true, pending) ∷ []

dropped_credential :
    transport_call lower
      (str "https://app.example" ∷ [])
      (from_app (some (str "keep-alive, X-Api-Key") ∷ []))
      in_time
    ≡ rejection 400
unfolding transport_call validate origin_allowed is_listed connections_allowed names_allowed
    split_commas is_protected str_eq trim trim_start is_whitespace to_ascii_lowercase strip_prefix
dropped_credential = refl

too_slow :
    transport_call lower (str "https://app.example" ∷ []) (from_app []) ((true, ended) ∷ [])
    ≡ rejection 408
unfolding transport_call validate origin_allowed is_listed connections_allowed str_eq poll_all
    poll_deadline
too_slow = refl

transport_call-answered_iff_example :
    (transport_call lower
        (str "https://app.example" ∷ [])
        (from_app (some (str "keep-alive") ∷ []))
        in_time
      ≡ inner_response)
    ↔ (OriginListed
          (str "https://app.example" ∷ [])
          (from_app (some (str "keep-alive") ∷ []) (str "origin"))
        × All (ConnectionClean lower) (from_app (some (str "keep-alive") ∷ []) (str "connection"))
        × InTime in_time)
transport_call-answered_iff_example =
    transport_call-answered_iff lower (str "https://app.example" ∷ [])
      (from_app (some (str "keep-alive") ∷ [])) in_time
