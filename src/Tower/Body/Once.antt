-- ===== src/Tower/Body/Once.antt =====
-- crates/mcp-usage-tower/src/layer.rs, `ObservedBody`: every response is accounted for once.
use mcp_usage_kit.Prelude.{
  Bool, Bool-cases, List, Option, Str, [], ap, arith, false, inl, inr, leb, length, length-append,
  none, refl, saturating_add, some, true, u64_max, ℕ, ◌++◌, ◌+◌, ◌<◌, ◌∷◌, ◌≡◌, ◌≤◌, ◌⊎◌,
}
use mcp_usage_kit.Tower.Body.{
  Effect, Finishing, Inner, ObservedBody, at_end, capture, captured_frame, done, drop_body,
  dropped_with, ended, failure, frame, new_body, observe, oversized, parked, pending,
  poll_finishing, poll_frame, poll_inner, poll_with, settled, start_completion, started,
  started_with,
}

-- The data that passes before the end of the stream is seen.
abbrev pub data_from : Str → List (Inner × Bool) → Str
data_from before [] = before
data_from before ((frame none, now) ∷ polls) = data_from before polls
data_from before ((frame (some bytes), now) ∷ polls) = data_from (before ++ bytes) polls
data_from before ((failure, now) ∷ polls) = data_from before polls
data_from before ((pending, now) ∷ polls) = data_from before polls
data_from before ((ended, now) ∷ polls) = before

saturating_within :
    (a b limit : ℕ) → limit < u64_max → leb (saturating_add a b) limit ≡ true → a + b ≤ limit
unfolding saturating_add
saturating_within a b limit room h = ground arith

saturating_over : (a b limit : ℕ) → leb (saturating_add a b) limit ≡ false → limit < a + b
unfolding saturating_add
saturating_over a b limit h = ground arith

module _ {C : Type 0} where
  -- One start, and one end of what was started.
  abbrev pub Accounted : Finishing C → List (Effect C) → Type 0
  Accounted f effects = (effects ≡ started f ∷ done f ∷ []) ⊎ (effects ≡ started f ∷ parked f ∷ [])

  abbrev pub Ended : Finishing C → List (Effect C) → Type 0
  Ended f effects = (effects ≡ done f ∷ []) ⊎ (effects ≡ parked f ∷ [])

  abbrev body_of : Option C → Option (Finishing C) → Str → Bool → ObservedBody C
  body_of completion finishing captured overflowed = record {
    completion = completion;
    finishing = finishing;
    captured = captured;
    overflowed = overflowed;
  }

module _ {C : Type 0} (max_response_capture : C → ℕ) where
  -- Once accounting is over, nothing more happens.
  closed :
      (captured : Str) (overflowed : Bool) (polls : List (Inner × Bool)) (ready : Bool)
      → observe max_response_capture (body_of none none captured overflowed) polls ready ≡ []
  unfolding observe drop_body dropped_with start_completion started_with settled poll_frame
      poll_with poll_inner at_end captured_frame capture
  closed captured overflowed [] ready = refl
  closed captured overflowed ((frame none, now) ∷ polls) ready =
      closed captured overflowed polls ready
  closed captured true ((frame (some bytes), now) ∷ polls) ready = closed captured true polls ready
  closed captured false ((frame (some bytes), now) ∷ polls) ready =
      elim (Bool-cases (leb (saturating_add (length captured) (length bytes)) 0)) [
        | inl fits ↦ rw fits (closed (captured ++ bytes) false polls ready)
        | inr over ↦ rw over (closed [] true polls ready)
      ]
  closed captured overflowed ((failure, now) ∷ polls) ready = closed captured overflowed polls ready
  closed captured overflowed ((pending, now) ∷ polls) ready = closed captured overflowed polls ready
  closed captured overflowed ((ended, now) ∷ polls) ready = closed captured overflowed polls ready

  finishing_done :
      (f : Finishing C) (captured : Str) (overflowed : Bool) (inner : Inner)
      (polls : List (Inner × Bool)) (ready : Bool)
      → observe max_response_capture
          (body_of none (some f) captured overflowed)
          ((inner, true) ∷ polls)
          ready
        ≡ done f ∷ []
  unfolding observe poll_frame poll_with poll_finishing
  finishing_done f captured overflowed inner polls ready =
      ap (λ (rest : List (Effect C)). done f ∷ rest) (closed captured overflowed polls ready)

  -- A started accounting is polled to its end, or parked.
  running :
      (f : Finishing C) (captured : Str) (overflowed : Bool) (polls : List (Inner × Bool))
      (ready : Bool)
      → Ended f
          (observe max_response_capture (body_of none (some f) captured overflowed) polls ready)
  unfolding observe drop_body dropped_with settled poll_frame poll_with poll_finishing
  running f captured overflowed [] true = inl refl
  running f captured overflowed [] false = inr refl
  running f captured overflowed ((inner, true) ∷ polls) ready =
      inl (finishing_done f captured overflowed inner polls ready)
  running f captured overflowed ((inner, false) ∷ polls) ready =
      running f captured overflowed polls ready

  with_start :
      (f : Finishing C) (effects : List (Effect C))
      → Ended f effects
      → Accounted f (started f ∷ effects)
  with_start f effects (inl e) = inl (ap (λ (rest : List (Effect C)). started f ∷ rest) e)
  with_start f effects (inr e) = inr (ap (λ (rest : List (Effect C)). started f ∷ rest) e)

  -- A response that outgrew the bound is counted once, and never accounted for.
  overflown :
      (c : C) (captured : Str) (polls : List (Inner × Bool)) (ready : Bool)
      → observe max_response_capture (body_of (some c) none captured true) polls ready
        ≡ oversized ∷ []
  unfolding observe drop_body dropped_with start_completion started_with settled poll_frame
      poll_with poll_inner at_end captured_frame capture
  overflown c captured [] ready = refl
  overflown c captured ((frame none, now) ∷ polls) ready = overflown c captured polls ready
  overflown c captured ((frame (some bytes), now) ∷ polls) ready = overflown c captured polls ready
  overflown c captured ((failure, now) ∷ polls) ready = overflown c captured polls ready
  overflown c captured ((pending, now) ∷ polls) ready = overflown c captured polls ready
  overflown c captured ((ended, now) ∷ polls) ready =
      ap (λ (rest : List (Effect C)). oversized ∷ rest) (closed captured true polls ready)

  data-grows :
      (before : Str) (polls : List (Inner × Bool)) → length before ≤ length (data_from before polls)
  data-grows before [] = omega arith
  data-grows before ((frame none, now) ∷ polls) = data-grows before polls
  data-grows before ((frame (some bytes), now) ∷ polls) =
      omega (arith, data-grows (before ++ bytes) polls, length-append before bytes)
  data-grows before ((failure, now) ∷ polls) = data-grows before polls
  data-grows before ((pending, now) ∷ polls) = data-grows before polls
  data-grows before ((ended, now) ∷ polls) = omega arith

  abbrev pub Outcome : C → Str → List (Effect C) → Type 0
  Outcome c bytes effects =
      ((length bytes ≤ max_response_capture c)
        × Accounted (record { completion = c; bytes = bytes }) effects)
      ⊎ ((max_response_capture c < length bytes) × (effects ≡ oversized ∷ []))

  open_body :
      (c : C) (captured : Str) (polls : List (Inner × Bool)) (ready : Bool)
      → max_response_capture c < u64_max
      → length captured ≤ max_response_capture c
      → Outcome c
          (data_from captured polls)
          (observe max_response_capture (body_of (some c) none captured false) polls ready)
  unfolding observe drop_body dropped_with start_completion started_with settled poll_frame
      poll_with poll_inner at_end captured_frame capture
  open_body c captured [] true room h = inl (h, inl refl)
  open_body c captured [] false room h = inl (h, inr refl)
  open_body c captured ((frame none, now) ∷ polls) ready room h =
      open_body c captured polls ready room h
  open_body c captured ((failure, now) ∷ polls) ready room h =
      open_body c captured polls ready room h
  open_body c captured ((pending, now) ∷ polls) ready room h =
      open_body c captured polls ready room h
  open_body c captured ((ended, true) ∷ polls) ready room h =
      let f : Finishing C = record { completion = c; bytes = captured } in
      inl (
        h,
        inl (
            ap (λ (rest : List (Effect C)). started f ∷ done f ∷ rest)
              (closed [] false polls ready)),
      )
  open_body c captured ((ended, false) ∷ polls) ready room h =
      let f : Finishing C = record { completion = c; bytes = captured } in
      inl (
        h,
        with_start f (observe max_response_capture (body_of none (some f) [] false) polls ready)
            (running f [] false polls ready),
      )
  open_body c captured ((frame (some bytes), now) ∷ polls) ready room h =
      elim (Bool-cases
        (leb (saturating_add (length captured) (length bytes)) (max_response_capture c))) [
          | inl fits ↦ rw fits (
              open_body c (captured ++ bytes) polls ready room
                (omega (arith, length-append captured bytes, saturating_within _ _ _ room fits)))
          | inr over ↦ rw over (
              inr (
                omega (
                  arith,
                  saturating_over _ _ _ over,
                  length-append captured bytes,
                  data-grows (captured ++ bytes) polls,
                ),
                overflown c [] polls ready,
              ))
        ]

-- Every response that the meter observes is accounted for exactly once, however its body is polled
-- and whenever it is dropped, when the bound on a capture is below the largest machine word: with a
-- response that fits the bound on its capture, one accounting starts, with all the data that passed before the end of the stream or the drop, and it either ends
-- or is parked; a response that does not fit is counted as oversized, once, and is not accounted for.
pub accounted_once :
    {C : Type 0} (max_response_capture : C → ℕ) (c : C) (polls : List (Inner × Bool)) (ready : Bool)
    → max_response_capture c < u64_max
    → Outcome max_response_capture c
        (data_from [] polls)
        (observe max_response_capture (new_body c) polls ready)
unfolding new_body
accounted_once max_response_capture c polls ready room =
    open_body max_response_capture c [] polls ready room (omega arith)
