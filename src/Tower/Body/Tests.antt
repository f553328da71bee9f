-- ===== src/Tower/Body/Tests.antt =====
-- crates/mcp-usage-tower/src/layer.rs, `ObservedBody` and `collect_request_body`: runs.
use mcp_usage_kit.Prelude.{
  Bool, List, [], arith, checked_add, false, inl, inr, length, none, refl, saturating_add, some,
  str, true, ℕ, ◌++◌, ◌↔◌, ◌∷◌, ◌≡◌, ◌≤◌,
}
use mcp_usage_kit.Tower.Body.{
  Finishing, Inner, RequestFrame, at_end, capture, captured_frame, chunk, collect_frames,
  collect_request_body, done, drop_body, dropped_with, ended, frame, new_body, observe, oversized,
  parked, pending, poll_finishing, poll_frame, poll_inner, poll_with, settled, start_completion,
  started, started_with, too_large, trailers,
}
use mcp_usage_kit.Tower.Body.Once.{Outcome, accounted_once, data_from}
use mcp_usage_kit.Tower.Body.Request.{collect_request_body_iff, data_after}

abbrev bound : ℕ → ℕ
bound c = c

abbrev polls : List (Inner × Bool)
polls =
    (frame (some (str "ab")), false)
    ∷ (pending, false)
    ∷ (frame none, false)
    ∷ (frame (some (str "c")), false)
    ∷ (ended, false)
    ∷ []

abbrev accounting : Finishing ℕ
accounting = record { completion = 3; bytes = str "abc" }

finished :
    observe bound (new_body 3) (polls ++ (pending, true) ∷ []) false
    ≡ started accounting ∷ done accounting ∷ []
unfolding observe new_body poll_frame poll_with poll_inner captured_frame capture saturating_add
    at_end start_completion started_with poll_finishing drop_body dropped_with settled
finished = refl

dropped : observe bound (new_body 3) polls false ≡ started accounting ∷ parked accounting ∷ []
unfolding observe new_body poll_frame poll_with poll_inner captured_frame capture saturating_add
    at_end start_completion started_with poll_finishing drop_body dropped_with settled
dropped = refl

outgrown : observe bound (new_body 2) polls false ≡ oversized ∷ []
unfolding observe new_body poll_frame poll_with poll_inner captured_frame capture saturating_add
    at_end start_completion started_with poll_finishing drop_body dropped_with settled
outgrown = refl

accounted_once_example :
    Outcome bound 3 (data_from [] polls) (observe bound (new_body 3) polls false)
accounted_once_example = accounted_once bound 3 polls false (omega arith)

abbrev request_frames : List RequestFrame
request_frames = chunk (str "{") ∷ trailers ∷ chunk (str "}") ∷ []

too_long : collect_request_body 1 request_frames ≡ inl too_large
unfolding collect_request_body collect_frames checked_add
too_long = refl

collect_request_body_iff_example :
    (collect_request_body 2 request_frames ≡ inr (str "{}"))
    ↔ ((data_after [] request_frames ≡ some (str "{}")) × (length (str "{}") ≤ 2))
collect_request_body_iff_example =
    collect_request_body_iff 2 request_frames (str "{}") (omega arith)
