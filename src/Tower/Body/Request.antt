-- ===== src/Tower/Body/Request.antt =====
-- crates/mcp-usage-tower/src/layer.rs, `collect_request_body`: which request bodies are read.
use mcp_usage_kit.Prelude.{
  Bool-cases, List, Option, Str, [], ap, arith, checked_add, false, inl, inr, leb, length,
  length-append, ltb, none, some, sym, true, u64_max, ℕ, ◌++◌, ◌+◌, ◌↔◌, ◌∙◌, ◌∷◌, ◌≡◌, ◌≤◌,
}
use mcp_usage_kit.Tower.Body.{
  RequestFrame, broken, chunk, collect_frames, collect_request_body, too_large, trailers,
}

-- All the data of a body that follows some bytes, when every frame of it is read.
unfoldable pub data_after : Str → List RequestFrame → Option Str
data_after before [] = some before
data_after before (broken ∷ frames) = none
data_after before (trailers ∷ frames) = data_after before frames
data_after before (chunk bytes ∷ frames) = data_after (before ++ bytes) frames

data_after-grows :
    (before whole : Str) (frames : List RequestFrame)
    → data_after before frames ≡ some whole
    → length before ≤ length whole
unfolding data_after
data_after-grows before whole [] e = let same : before ≡ whole = cc in omega (arith, ap length same)
data_after-grows before whole (broken ∷ frames) e = absurd cc
data_after-grows before whole (trailers ∷ frames) e = data_after-grows before whole frames e
data_after-grows before whole (chunk bytes ∷ frames) e =
    omega (arith, data_after-grows (before ++ bytes) whole frames e, length-append before bytes)

-- The step on a chunk: it is read, it is over the limit, or the sum is no machine number.
chunk_read :
    (limit : ℕ) (before bytes : Str) (frames : List RequestFrame)
    → leb (length before + length bytes) u64_max ≡ true
    → ltb limit (length before + length bytes) ≡ false
    → collect_frames limit before (chunk bytes ∷ frames)
      ≡ collect_frames limit (before ++ bytes) frames
unfolding collect_frames checked_add
chunk_read limit before bytes frames fits under = grind arith

chunk_over :
    (limit : ℕ) (before bytes : Str) (frames : List RequestFrame)
    → leb (length before + length bytes) u64_max ≡ true
    → ltb limit (length before + length bytes) ≡ true
    → collect_frames limit before (chunk bytes ∷ frames) ≡ inl too_large
unfolding collect_frames checked_add
chunk_over limit before bytes frames fits above = grind arith

chunk_refused :
    (limit : ℕ) (before bytes : Str) (frames : List RequestFrame)
    → leb (length before + length bytes) u64_max ≡ false
    → collect_frames limit before (chunk bytes ∷ frames) ≡ inl too_large
unfolding collect_frames checked_add
chunk_refused limit before bytes frames over = grind arith

collect_sound :
    (limit : ℕ) (before whole : Str) (frames : List RequestFrame)
    → length before ≤ limit
    → collect_frames limit before frames ≡ inr whole
    → (data_after before frames ≡ some whole) × (length whole ≤ limit)
unfolding data_after collect_frames
collect_sound limit before whole [] h e =
    let same : before ≡ whole = cc in (ap some same, omega (arith, h, ap length same))
collect_sound limit before whole (broken ∷ frames) h e = absurd cc
collect_sound limit before whole (trailers ∷ frames) h e =
    collect_sound limit before whole frames h e
collect_sound limit before whole (chunk bytes ∷ frames) h e =
    elim (Bool-cases (leb (length before + length bytes) u64_max)) [
      | inl fits ↦ elim (Bool-cases (ltb limit (length before + length bytes))) [
        | inl above ↦
            let refused = sym (chunk_over limit before bytes frames fits above) ∙ e in absurd cc
        | inr under ↦
            collect_sound limit (before ++ bytes) whole frames
              (ground (arith, under, length-append before bytes))
              (sym (chunk_read limit before bytes frames fits under) ∙ e)
      ]
      | inr over ↦ let refused = sym (chunk_refused limit before bytes frames over) ∙ e in absurd cc
    ]

collect_complete :
    (limit : ℕ) (before whole : Str) (frames : List RequestFrame)
    → limit ≤ u64_max
    → data_after before frames ≡ some whole
    → length whole ≤ limit
    → collect_frames limit before frames ≡ inr whole
unfolding data_after collect_frames checked_add
collect_complete limit before whole [] wide e h = let same : before ≡ whole = cc in ap inr same
collect_complete limit before whole (broken ∷ frames) wide e h = absurd cc
collect_complete limit before whole (trailers ∷ frames) wide e h =
    collect_complete limit before whole frames wide e h
collect_complete limit before whole (chunk bytes ∷ frames) wide e h =
    let total = length-append before bytes in
    let grown = data_after-grows (before ++ bytes) whole frames e in
    let fits : leb (length before + length bytes) u64_max ≡ true =
      ground (arith, total, grown, h) in
    let under : ltb limit (length before + length bytes) ≡ false =
      ground (arith, total, grown, h) in
    chunk_read limit before bytes frames fits under
    ∙ collect_complete limit (before ++ bytes) whole frames wide e h

-- With a limit of the machine's width, a request body is read exactly when every frame of it is read
-- and all its data together is within the limit, and then what is read is all its data.
pub collect_request_body_iff :
    (limit : ℕ) (frames : List RequestFrame) (whole : Str)
    → limit ≤ u64_max
    → (collect_request_body limit frames ≡ inr whole)
      ↔ ((data_after [] frames ≡ some whole) × (length whole ≤ limit))
unfolding collect_request_body
collect_request_body_iff limit frames whole wide = (
  collect_sound limit [] whole frames (omega arith),
  λ read. collect_complete limit [] whole frames wide read.0 read.1,
)
