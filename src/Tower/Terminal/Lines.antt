-- ===== src/Tower/Terminal/Lines.antt =====
-- crates/mcp-usage-tower/src/layer.rs, `sse_lines`: the three ends of a line are alike.
use mcp_usage_kit.Prelude.{
  List, Str, [], ap, arith, drop, false, is_some, length, length-append, refl, strip_prefix, suc,
  zero, ℕ, ◌++◌, ◌<◌, ◌∷◌, ◌≡◌, ◌≤◌,
}
use mcp_usage_kit.Tower.Terminal.{is_line_end, line_then, split_line, sse_lines, terminator}

pub data Terminator : Type 0 where
  line_feed carriage_return both : Terminator

abbrev pub ended_by : Terminator → Str → Str
ended_by line_feed text = 10 ∷ text
ended_by carriage_return text = 13 ∷ text
ended_by both text = 13 ∷ 10 ∷ text

-- A text of lines, each with its end, and a last line that has none.
unfoldable pub render : List (Str × Terminator) → Str → Str
render [] last = last
render ((line, end) ∷ lines) last = line ++ ended_by end (render lines last)

abbrev pub IsLine : Str → Type 0
IsLine [] = Unit
IsLine (b ∷ bs) = (is_line_end b ≡ false) × IsLine bs

-- A carriage return that ends a line is not followed by a line feed.
abbrev pub Apart : Terminator → Str → Type 0
Apart carriage_return text = is_some (strip_prefix (10 ∷ []) text) ≡ false
Apart line_feed text = Unit
Apart both text = Unit

abbrev pub Clean : List (Str × Terminator) → Str → Type 0
Clean [] last = IsLine last
Clean ((line, end) ∷ lines) last = IsLine line × Apart end (render lines last) × Clean lines last

abbrev pub texts : List (Str × Terminator) → Str → List Str
texts [] last = last ∷ []
texts ((line, end) ∷ lines) last = line ∷ texts lines last

split_line-last : (line : Str) → IsLine line → split_line line ≡ (line, [])
unfolding split_line
split_line-last [] h = refl
split_line-last (b ∷ bs) (h, hs) = rw (h, split_line-last bs hs) refl

split_line-append :
    (line rest : Str)
    → IsLine line
    → split_line rest ≡ ([], rest)
    → split_line (line ++ rest) ≡ (line, rest)
unfolding split_line
split_line-append [] rest h e = e
split_line-append (b ∷ bs) rest (h, hs) e = rw (h, split_line-append bs rest hs e) refl

split_line-ended :
    (end : Terminator) (text : Str) → split_line (ended_by end text) ≡ ([], ended_by end text)
unfolding split_line
split_line-ended line_feed text = refl
split_line-ended carriage_return text = refl
split_line-ended both text = refl

drop-terminator :
    (end : Terminator) (text : Str)
    → Apart end text
    → drop (terminator (ended_by end text)) (ended_by end text) ≡ text
unfolding drop terminator strip_prefix
drop-terminator line_feed text h = refl
drop-terminator both text h = refl
drop-terminator carriage_return text h = rw h refl

line_then-ended :
    (line : Str) (end : Terminator) (text : Str) (lines : List Str)
    → line_then line (ended_by end text) lines ≡ line ∷ lines
unfolding line_then
line_then-ended line line_feed text lines = refl
line_then-ended line carriage_return text lines = refl
line_then-ended line both text lines = refl

pub sse_lines-render :
    (fuel : ℕ) (lines : List (Str × Terminator)) (last : Str)
    → Clean lines last
    → length lines < fuel
    → sse_lines fuel (render lines last) ≡ texts lines last
unfolding sse_lines render line_then
sse_lines-render zero lines last h k = absurd (omega arith)
sse_lines-render (suc fuel) [] last h k = rw (split_line-last last h) refl
sse_lines-render (suc fuel) ((line, end) ∷ lines) last (h, apart, hs) k =
    let rest = render lines last in
    let split = split_line-append line (ended_by end rest) h (split_line-ended end rest) in
    rw (split, drop-terminator end rest apart, line_then-ended line end rest (sse_lines fuel rest))
      (ap (λ (after : List Str). line ∷ after) (sse_lines-render fuel lines last hs (omega arith)))

pub length-ended : (end : Terminator) (text : Str) → length text < length (ended_by end text)
length-ended line_feed text = omega arith
length-ended carriage_return text = omega arith
length-ended both text = omega arith

-- A text has no more lines than bytes, and one.
pub length-render :
    (lines : List (Str × Terminator)) (last : Str) → length lines ≤ length (render lines last)
unfolding render
length-render [] last = omega arith
length-render ((line, end) ∷ lines) last =
    let rest = render lines last in
    omega (
      arith,
      length-append line (ended_by end rest),
      length-ended end rest,
      length-render lines last,
    )
