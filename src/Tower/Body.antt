-- ===== src/Tower/Body.antt =====
-- crates/mcp-usage-tower/src/layer.rs, `ObservedBody` and `collect_request_body`: the bytes that pass
-- through the meter. The wrapped body and the accounting future are polled from outside: what a poll
-- of each gives is an input. A frame's data is one chunk. The accounting is a value of any type,
-- with the bound on its capture. Lengths are numbers of a machine word.
pub mod Once
pub mod Request
mod Tests
use mcp_usage_kit.Prelude.{
  Bool, List, Option, Str, [], checked_add, false, if◌then◌else◌, inl, inr, leb, length, ltb, none,
  saturating_add, some, true, ℕ, ◌++◌, ◌∷◌, ◌⊎◌,
}

-- What a poll of the wrapped body gives: a frame, of data or of trailers, an error, its end, or
-- nothing yet.
pub data Inner : Type 0 where
  frame : Option Str → Inner
  failure ended pending : Inner

-- What a poll of the observed body gives.
pub data Polled : Type 0 where
  ready_frame : Option Str → Polled
  ready_failure ready_none not_ready : Polled

-- The accounting future: the completion with the bytes that it reads.
pub record Finishing (C : Type 0) : Type 0 where
  pub completion : C
  pub bytes : Str

-- What the body does to the meter: an accounting starts, ends, or is parked, or a response is
-- counted as oversized.
pub data Effect (C : Type 0) : Type 0 where
  started done parked : Finishing C → Effect C
  oversized : Effect C

pub record ObservedBody (C : Type 0) : Type 0 where
  pub completion : Option C
  pub finishing : Option (Finishing C)
  pub captured : Str
  pub overflowed : Bool

module _ {C : Type 0} where
  unfoldable pub new_body : C → ObservedBody C
  new_body completion = record {
    completion = some completion;
    finishing = none;
    captured = [];
    overflowed = false;
  }

  -- The accounting that starts, the body after, and its effects.
  unfoldable pub started_with :
      Option C → ObservedBody C → Option (Finishing C) × ObservedBody C × List (Effect C)
  started_with none body = (none, body, [])
  started_with (some c) body =
      if body.overflowed then (none, record body { completion = none }, oversized ∷ []) else (
        some (record { completion = c; bytes = body.captured }),
        record body { completion = none; captured = [] },
        started (record { completion = c; bytes = body.captured }) ∷ [],
      )

  unfoldable pub start_completion :
      ObservedBody C → Option (Finishing C) × ObservedBody C × List (Effect C)
  start_completion body = started_with body.completion body

  -- A future that starts at the end of the stream is polled at once.
  unfoldable pub at_end :
      Option (Finishing C) × ObservedBody C × List (Effect C)
      → Bool
      → Polled × ObservedBody C × List (Effect C)
  at_end (none, body, effects) ready = (ready_none, body, effects)
  at_end (some f, body, effects) ready =
      if ready
      then (ready_none, body, effects ++ done f ∷ [])
      else (not_ready, record body { finishing = some f }, effects)

  -- A future that runs is polled, and the wrapped body is not.
  unfoldable pub poll_finishing :
      Finishing C → ObservedBody C → Bool → Polled × ObservedBody C × List (Effect C)
  poll_finishing f body ready =
      if ready
      then (ready_none, record body { finishing = none }, done f ∷ [])
      else (not_ready, body, [])

  -- The future that is left is polled once, and parked if that does not end it.
  unfoldable pub settled : Option (Finishing C) → Bool → List (Effect C)
  settled none ready = []
  settled (some f) ready = if ready then done f ∷ [] else parked f ∷ []

  unfoldable pub dropped_with : Option (Finishing C) → ObservedBody C → Bool → List (Effect C)
  dropped_with (some f) body ready = settled (some f) ready
  dropped_with none body ready = let next = start_completion body in next.2 ++ settled next.0 ready

  unfoldable pub drop_body : ObservedBody C → Bool → List (Effect C)
  drop_body body ready = dropped_with body.finishing body ready

module _ {C : Type 0} (max_response_capture : C → ℕ) where
  abbrev pub capture_limit : Option C → ℕ
  capture_limit none = 0
  capture_limit (some c) = max_response_capture c

  unfoldable pub capture : Str → ObservedBody C → ObservedBody C
  capture chunk body =
      if body.overflowed
      then body
      else if leb (saturating_add (length body.captured) (length chunk))
          (capture_limit body.completion)
      then record body { captured = body.captured ++ chunk }
      else record body { captured = []; overflowed = true }

  unfoldable pub captured_frame : Option Str → ObservedBody C → ObservedBody C
  captured_frame none body = body
  captured_frame (some chunk) body = capture chunk body

  unfoldable pub poll_inner :
      Inner → Bool → ObservedBody C → Polled × ObservedBody C × List (Effect C)
  poll_inner (frame chunk) ready body = (ready_frame chunk, captured_frame chunk body, [])
  poll_inner failure ready body = (ready_failure, body, [])
  poll_inner ended ready body = at_end (start_completion body) ready
  poll_inner pending ready body = (not_ready, body, [])

  unfoldable pub poll_with :
      Option (Finishing C)
      → Inner
      → Bool
      → ObservedBody C
      → Polled × ObservedBody C × List (Effect C)
  poll_with (some f) inner ready body = poll_finishing f body ready
  poll_with none inner ready body = poll_inner inner ready body

  -- What polling gives, the body after, and its effects.
  unfoldable pub poll_frame :
      Inner → Bool → ObservedBody C → Polled × ObservedBody C × List (Effect C)
  poll_frame inner ready body = poll_with body.finishing inner ready body

  -- The effects of any polls, and of the drop after them.
  unfoldable pub observe : ObservedBody C → List (Inner × Bool) → Bool → List (Effect C)
  observe body [] ready = drop_body body ready
  observe body ((inner, now) ∷ polls) ready =
      let step = poll_frame inner now body in step.2 ++ observe step.1 polls ready

pub data RequestBodyError : Type 0 where
  too_large unreadable : RequestBodyError

-- Frames of a request body: an error, data, or what has none.
pub data RequestFrame : Type 0 where
  broken trailers : RequestFrame
  chunk : Str → RequestFrame

-- `collect_request_body`, from what is captured so far.
unfoldable pub collect_frames : ℕ → Str → List RequestFrame → RequestBodyError ⊎ Str
collect_frames limit captured [] = inr captured
collect_frames limit captured (broken ∷ frames) = inl unreadable
collect_frames limit captured (trailers ∷ frames) = collect_frames limit captured frames
collect_frames limit captured (chunk bytes ∷ frames) =
    let rest = collect_frames limit (captured ++ bytes) frames in
    elim (checked_add (length captured) (length bytes)) [
      | none ↦ inl too_large
      | some next ↦ if ltb limit next then inl too_large else rest
    ]

unfoldable pub collect_request_body : ℕ → List RequestFrame → RequestBodyError ⊎ Str
collect_request_body limit frames = collect_frames limit [] frames
