-- ===== src/Edge/Transport.antt =====
-- crates/mcp-usage-edge/src/transport.rs: the checks of a request before authentication. The parser of
-- header names is a parameter: a name in lower case, or none.
pub mod Protected
pub mod Checked
mod Tests
use mcp_usage_kit.Prelude.{
  Bool, List, Option, Str, [], false, if◌then◌else◌, is_some, none, not, some, str, str_eq,
  strip_prefix, trim, true, ℕ, ◌&&◌, ◌==◌, ◌||◌, ◌∷◌,
}
use mcp_usage_kit.Tower.Body.{Inner, Polled, not_ready, ready_failure, ready_frame, ready_none}
use mcp_usage_kit.Tower.Classify.{Headers}

abbrev onto_first : ℕ → List Str → List Str
onto_first b [] = (b ∷ []) ∷ []
onto_first b (text ∷ texts) = (b ∷ text) ∷ texts

-- `split(',')`.
unfoldable pub split_commas : Str → List Str
split_commas [] = [] ∷ []
split_commas (b ∷ bs) =
    let rest = split_commas bs in if b == b',' then [] ∷ rest else onto_first b rest

unfoldable pub is_protected : Str → Bool
is_protected name =
    str_eq name (str "authorization")
    || str_eq name (str "x-api-key")
    || str_eq name (str "origin")
    || str_eq name (str "host")
    || str_eq name (str "content-length")
    || str_eq name (str "content-type")
    || is_some (strip_prefix (str "mcp-") name)
    || is_some (strip_prefix (str "payment-") name)

unfoldable pub is_listed : Str → List Str → Bool
is_listed origin [] = false
is_listed origin (allowed ∷ origins) = str_eq allowed origin || is_listed origin origins

-- One origin at most, which is listed.
unfoldable pub origin_allowed : List Str → List (Option Str) → Bool
origin_allowed origins [] = true
origin_allowed origins (some origin ∷ []) = is_listed origin origins
origin_allowed origins (none ∷ []) = false
origin_allowed origins (first ∷ second ∷ more) = false

module _ (header_name : Str → Option Str) where
  unfoldable pub names_allowed : List Str → Bool
  names_allowed [] = true
  names_allowed (token ∷ tokens) = elim (header_name (trim token)) [
    | none ↦ false
    | some name ↦ not (is_protected name) && names_allowed tokens
  ]

  unfoldable pub connections_allowed : List (Option Str) → Bool
  connections_allowed [] = true
  connections_allowed (none ∷ values) = false
  connections_allowed (some value ∷ values) =
      names_allowed (split_commas value) && connections_allowed values

  -- The status of the refusal, if there is one.
  unfoldable pub validate : List Str → Headers → Option ℕ
  validate origins headers =
      if not (origin_allowed origins (headers (str "origin")))
      then some 403
      else if connections_allowed (headers (str "connection"))
      then none
      else some 400

pub record DeadlineBody : Type 0 where
  pub expired : Bool
  pub finished : Bool

abbrev pub new_deadline_body : DeadlineBody
new_deadline_body = record { expired = false; finished = false }

unfoldable pub pass_frame : Inner → DeadlineBody → Polled × DeadlineBody
pass_frame (Inner.frame bytes) body = (ready_frame bytes, body)
pass_frame Inner.failure body = (ready_failure, body)
pass_frame Inner.ended body = (ready_none, record body { finished = true })
pass_frame Inner.pending body = (not_ready, body)

-- A poll, with whether the deadline has passed and what a poll of the wrapped body gives.
unfoldable pub poll_deadline : Bool × Inner → DeadlineBody → Polled × DeadlineBody
poll_deadline (late, inner) body =
    if body.finished
    then (ready_none, body)
    else if late
    then (ready_failure, record { expired = true; finished = true })
    else pass_frame inner body

unfoldable pub poll_all : List (Bool × Inner) → DeadlineBody → DeadlineBody
poll_all [] body = body
poll_all (poll ∷ polls) body = poll_all polls (poll_deadline poll body).1

-- The answer of the service: its own refusal, or what the inner service answers.
pub data TransportAnswer : Type 0 where
  rejection : ℕ → TransportAnswer
  inner_response : TransportAnswer

-- A request whose body is polled while the inner service runs.
unfoldable pub transport_call :
    (Str → Option Str) → List Str → Headers → List (Bool × Inner) → TransportAnswer
transport_call header_name origins headers polls = elim (validate header_name origins headers) [
  | some status ↦ rejection status
  | none ↦ if (poll_all polls new_deadline_body).expired then rejection 408 else inner_response
]
