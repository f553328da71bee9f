-- ===== src/Tower/Terminal.antt =====
-- crates/mcp-usage-tower/src/layer.rs, `terminal_response` and what it calls: the JSON-RPC response
-- in a captured body, from JSON or from an event stream. The parser of the JSON package is a
-- parameter. A content type is ASCII, since it comes from `HeaderValue::to_str`.
pub mod Lines
pub mod Stream
mod Tests
use mcp_usage_kit.Core.Json.{Value, get}
use mcp_usage_kit.Prelude.{
  Bool, List, Option, Str, [], drop, eq_ignore_ascii_case, from_utf8, if◌then◌else◌, inl, inr,
  is_some, length, none, not, some, str, strip_prefix, suc, trim, trim_start_unicode, zero, ℕ, ◌++◌,
  ◌==◌, ◌||◌, ◌∷◌, ◌⊎◌,
}
use mcp_usage_kit.Tower.Completion.{
  Books, Completion, UnaccountedReason, finish, media_type, unparseable,
}

unfoldable pub before_semicolon : Str → Str
before_semicolon [] = []
before_semicolon (b ∷ bs) = let rest = before_semicolon bs in if b == b';' then [] else b ∷ rest

unfoldable pub has_media_type : Str → Str → Bool
has_media_type content_type expected =
    eq_ignore_ascii_case (trim (before_semicolon content_type)) expected

unfoldable pub is_json_rpc_response : Value → Bool
is_json_rpc_response value = is_some (get value (str "result")) || is_some (get value (str "error"))

abbrev pub is_line_end : ℕ → Bool
is_line_end b = b == 10 || b == 13

-- The text before its first line feed or carriage return, and the text from it on.
unfoldable pub split_line : Str → Str × Str
split_line [] = ([], [])
split_line (b ∷ bs) =
    let rest = split_line bs in if is_line_end b then ([], b ∷ bs) else (b ∷ rest.0, rest.1)

-- How long the end of the line is that a text starts with.
unfoldable pub terminator : Str → ℕ
terminator after = if is_some (strip_prefix (13 ∷ 10 ∷ []) after) then 2 else 1

unfoldable pub line_then : Str → Str → List Str → List Str
line_then line [] lines = line ∷ []
line_then line (b ∷ after) lines = line ∷ lines

-- `sse_lines`, a line for each unit of the first argument at most.
unfoldable pub sse_lines : ℕ → Str → List Str
sse_lines zero remaining = []
sse_lines (suc fuel) remaining =
    let split = split_line remaining in
    line_then split.0 split.1 (sse_lines fuel (drop (terminator split.1) split.1))

unfoldable pub push_data : Option Str → Str → Str
push_data none data_text = data_text
push_data (some value) [] = trim_start_unicode value
push_data (some value) (b ∷ bs) = (b ∷ bs) ++ 10 ∷ trim_start_unicode value

unfoldable pub or_unparseable : Option Value → UnaccountedReason ⊎ Value
or_unparseable none = inl unparseable
or_unparseable (some value) = inr value

unfoldable pub response_only : Option Value → Option Value
response_only none = none
response_only (some value) = if is_json_rpc_response value then some value else none

unfoldable pub replaced : Option Value → Option Value → Option Value
replaced none terminal = terminal
replaced (some value) terminal = if is_json_rpc_response value then some value else terminal

module _ (from_json : Str → Option Value) where
  unfoldable pub take_terminal : Str → Option Value → Option Value
  take_terminal [] terminal = terminal
  take_terminal (b ∷ bs) terminal = replaced (from_json (b ∷ bs)) terminal

  -- The loop over the lines, with the data and the terminal response so far.
  unfoldable pub read_lines : List Str → Str → Option Value → Option Value
  read_lines [] data_text terminal = take_terminal data_text terminal
  read_lines ([] ∷ lines) data_text terminal =
      read_lines lines [] (take_terminal data_text terminal)
  read_lines ((b ∷ line) ∷ lines) data_text terminal =
      read_lines lines (push_data (strip_prefix (str "data:") (b ∷ line)) data_text) terminal

  unfoldable pub stream_response : Option Str → UnaccountedReason ⊎ Value
  stream_response none = inl unparseable
  stream_response (some text) =
      or_unparseable (read_lines (sse_lines (suc (length text)) text) [] none)

  unfoldable pub terminal_response : Str → Str → UnaccountedReason ⊎ Value
  terminal_response content_type bytes =
      if has_media_type content_type (str "application/json")
      then or_unparseable (response_only (from_json bytes))
      else if not (has_media_type content_type (str "text/event-stream"))
      then inl media_type
      else stream_response (from_utf8 bytes)

  -- `Completion::finish` from the captured bytes.
  unfoldable pub finish_bytes : Completion → ℕ → Str → Str → Books → Books
  finish_bytes completion now content_type bytes books =
      finish completion now (terminal_response content_type bytes) books
