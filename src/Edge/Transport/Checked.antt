-- ===== src/Edge/Transport/Checked.antt =====
-- crates/mcp-usage-edge/src/transport.rs: which requests the inner service answers.
use mcp_usage_kit.Edge.Transport.{
  TransportAnswer, connections_allowed, inner_response, is_listed, is_protected, names_allowed,
  new_deadline_body, origin_allowed, pass_frame, poll_all, poll_deadline, rejection, split_commas,
  transport_call, validate,
}
use mcp_usage_kit.Edge.Transport.Protected.{MayDrop, MayDrop-iff}
use mcp_usage_kit.Prelude.{
  All, Bool, Bool-cases, List, Option, Str, [], arith, false, if◌then◌else◌, inl, inr, none, not,
  refl, some, str, str_eq, str_eq_iff, subst, sym, trim, true, ℕ, ◌↔◌, ◌∙◌, ◌∷◌, ◌≡◌, ◌⊎◌,
}
use mcp_usage_kit.Tower.Body.{Inner}
use mcp_usage_kit.Tower.Classify.{Headers}

abbrev pub Listed : Str → List Str → Type 0
Listed origin [] = ⊥
Listed origin (named ∷ origins) = (named ≡ origin) ⊎ Listed origin origins

-- No origin is given, or one that is listed.
abbrev pub OriginListed : List Str → List (Option Str) → Type 0
OriginListed origins values =
    (values ≡ []) ⊎ ((origin : Str) × (values ≡ some origin ∷ []) × Listed origin origins)

-- A token of the `Connection` header that is a header name, and one that a hop may drop.
abbrev pub NameClean : (Str → Option Str) → Str → Type 0
NameClean header_name token = (name : Str) × (header_name (trim token) ≡ some name) × MayDrop name

abbrev pub ConnectionClean : (Str → Option Str) → Option Str → Type 0
ConnectionClean header_name none = ⊥
ConnectionClean header_name (some value) = All (NameClean header_name) (split_commas value)

-- The body ends, or the polls do, before a poll after the deadline.
abbrev pub InTime : List (Bool × Inner) → Type 0
InTime [] = Unit
InTime ((true, inner) ∷ polls) = ⊥
InTime ((false, Inner.ended) ∷ polls) = Unit
InTime ((false, Inner.frame bytes) ∷ polls) = InTime polls
InTime ((false, Inner.failure) ∷ polls) = InTime polls
InTime ((false, Inner.pending) ∷ polls) = InTime polls

Listed-iff :
    (origin : Str) (origins : List Str) → (is_listed origin origins ≡ true) ↔ Listed origin origins
unfolding is_listed
Listed-iff origin [] = (λ h. absurd cc, λ h. absurd h)
Listed-iff origin (named ∷ origins) = (
  λ h. elim (Bool-cases (str_eq named origin)) [
    | inl same ↦ inl ((str_eq_iff named origin).0 same)
    | inr apart ↦ inr ((Listed-iff origin origins).0 (ground (arith, h, apart)))
  ],
  λ l. elim l [
    | inl same ↦ ground (arith, (str_eq_iff named origin).1 same)
    | inr later ↦ ground (arith, (Listed-iff origin origins).1 later)
  ],
)

origin_allowed_iff :
    (origins : List Str) (values : List (Option Str))
    → (origin_allowed origins values ≡ true) ↔ OriginListed origins values
unfolding origin_allowed
origin_allowed_iff origins [] = (λ h. inl refl, λ l. refl)
origin_allowed_iff origins (some origin ∷ []) = (
  λ h. inr (origin, refl, (Listed-iff origin origins).0 h),
  λ l. elim l [
    | inl e ↦ absurd cc
    | inr (other_origin, e, k) ↦
        let same : origin ≡ other_origin = cc in
        (Listed-iff origin origins).1 (subst (λ (o : Str). Listed o origins) (sym same) k)
  ],
)
origin_allowed_iff origins (none ∷ []) =
    (λ h. absurd cc, λ l. elim l [ inl e ↦ absurd cc | inr (o, e, k) ↦ absurd cc ])
origin_allowed_iff origins (first ∷ second ∷ more) =
    (λ h. absurd cc, λ l. elim l [ inl e ↦ absurd cc | inr (o, e, k) ↦ absurd cc ])

module _ (header_name : Str → Option Str) where
  name_read :
      (token : Str) (found : Option Str) (tokens : List Str)
      → header_name (trim token) ≡ found
      → names_allowed header_name (token ∷ tokens) ≡ true
      → NameClean header_name token × (names_allowed header_name tokens ≡ true)
  unfolding names_allowed
  name_read token none tokens e h = absurd (grind arith)
  name_read token (some name) tokens e h =
      let safe : is_protected name ≡ false = grind arith in
      ((name, e, (MayDrop-iff name).0 safe), grind arith)

  names_allowed_iff :
      (tokens : List Str)
      → (names_allowed header_name tokens ≡ true) ↔ All (NameClean header_name) tokens
  unfolding names_allowed
  names_allowed_iff [] = (λ h. tt, λ a. refl)
  names_allowed_iff (token ∷ tokens) = (
    λ h.
        let read = name_read token (header_name (trim token)) tokens refl h in
        (read.0, (names_allowed_iff tokens).0 read.1),
    λ a.
        let rest = (names_allowed_iff tokens).1 a.1 in
        let known = a.0.1 in
        let safe : is_protected a.0.0 ≡ false = (MayDrop-iff a.0.0).1 a.0.2 in grind arith,
  )

  connections_allowed_iff :
      (values : List (Option Str))
      → (connections_allowed header_name values ≡ true) ↔ All (ConnectionClean header_name) values
  unfolding connections_allowed
  connections_allowed_iff [] = (λ h. tt, λ a. refl)
  connections_allowed_iff (none ∷ values) = (λ h. absurd cc, λ a. absurd a.0)
  connections_allowed_iff (some value ∷ values) = (
    λ h. (
      (names_allowed_iff (split_commas value)).0 (ground (arith, h)),
      (connections_allowed_iff values).0 (ground (arith, h)),
    ),
    λ a. ground (
      arith,
      (names_allowed_iff (split_commas value)).1 a.0,
      (connections_allowed_iff values).1 a.1,
    ),
  )

-- A body that is finished stays so.
finished_stays :
    (polls : List (Bool × Inner)) (expired : Bool)
    → (poll_all polls (record { expired = expired; finished = true })).expired ≡ expired
unfolding poll_all poll_deadline
finished_stays [] expired = refl
finished_stays ((late, inner) ∷ polls) expired = finished_stays polls expired

InTime-iff :
    (polls : List (Bool × Inner))
    → ((poll_all polls new_deadline_body).expired ≡ false) ↔ InTime polls
unfolding poll_all poll_deadline pass_frame
InTime-iff [] = (λ h. tt, λ t. refl)
InTime-iff ((true, inner) ∷ polls) =
    (λ h. let same = sym (finished_stays polls true) ∙ h in absurd cc, λ t. absurd t)
InTime-iff ((false, Inner.ended) ∷ polls) = (λ h. tt, λ t. finished_stays polls false)
InTime-iff ((false, Inner.frame bytes) ∷ polls) = InTime-iff polls
InTime-iff ((false, Inner.failure) ∷ polls) = InTime-iff polls
InTime-iff ((false, Inner.pending) ∷ polls) = InTime-iff polls

-- The answer by the three tests.
tested_answer : Bool → Bool → Bool → TransportAnswer
tested_answer origin_ok connections_ok expired =
    let verdict : Option ℕ =
      if not origin_ok then some 403 else if connections_ok then none else some 400 in
    elim verdict [
      | some status ↦ rejection status
      | none ↦ if expired then rejection 408 else inner_response
    ]

tested_answer_iff :
    (origin_ok connections_ok expired : Bool)
    → (tested_answer origin_ok connections_ok expired ≡ inner_response)
      ↔ ((origin_ok ≡ true) × (connections_ok ≡ true) × (expired ≡ false))
unfolding tested_answer
tested_answer_iff false connections_ok expired = (λ h. absurd cc, λ t. absurd cc)
tested_answer_iff true false expired = (λ h. absurd cc, λ t. absurd cc)
tested_answer_iff true true true = (λ h. absurd cc, λ t. absurd cc)
tested_answer_iff true true false = (λ h. (refl, refl, refl), λ t. refl)

-- The inner service answers a request exactly when the request gives no origin or one that is listed,
-- every name in its `Connection` headers is a header name other than authorization, x-api-key,
-- origin, host, content-length and content-type that starts with neither mcp- nor payment-, so that
-- no hop can be told to drop one of those, and its body ends, or is no longer polled, before a poll
-- after the deadline; any other request is rejected.
pub transport_call-answered_iff :
    (header_name : Str → Option Str) (origins : List Str) (headers : Headers)
    (polls : List (Bool × Inner))
    → (transport_call header_name origins headers polls ≡ inner_response) ↔ (
        OriginListed origins (headers (str "origin"))
        × All (ConnectionClean header_name) (headers (str "connection"))
        × InTime polls)
unfolding transport_call validate tested_answer
transport_call-answered_iff header_name origins headers polls =
    let tests =
      tested_answer_iff (origin_allowed origins (headers (str "origin")))
        (connections_allowed header_name (headers (str "connection")))
        (poll_all polls new_deadline_body).expired in
    let origin = origin_allowed_iff origins (headers (str "origin")) in
    let connections = connections_allowed_iff header_name (headers (str "connection")) in
    let time = InTime-iff polls in
    (
      λ h. let t = tests.0 h in (origin.0 t.0, connections.0 t.1, time.0 t.2),
      λ t. tests.1 (origin.1 t.0, connections.1 t.1, time.1 t.2),
    )
