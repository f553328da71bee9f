-- ===== src/Tower/Terminal/Tests.antt =====
-- crates/mcp-usage-tower/src/layer.rs, `terminal_response`: runs.
use mcp_usage_kit.Core.Json.{Value, end, field, find, get, object, string}
use mcp_usage_kit.Prelude.{
  List, Option, Str, [], drop, eq_ignore_ascii_case, false, from_utf8, if◌then◌else◌, inl, inr,
  is_utf8_from, is_whitespace, none, refl, skip_space, some, space_width, str, str_eq, strip_prefix,
  to_ascii_lowercase, trim, trim_start, trim_start_unicode, true, utf8_lead, utf8_step, ◌==◌, ◌∷◌,
  ◌≡◌,
}
use mcp_usage_kit.Tower.Completion.{media_type}
use mcp_usage_kit.Tower.Terminal.{
  before_semicolon, has_media_type, is_json_rpc_response, line_then, or_unparseable, push_data,
  read_lines, replaced, split_line, sse_lines, stream_response, take_terminal, terminal_response,
  terminator,
}
use mcp_usage_kit.Tower.Terminal.Lines.{Terminator, both, carriage_return, line_feed, render, texts}
use mcp_usage_kit.Tower.Terminal.Stream.{events, last_answer, terminal_response-stream}

-- A parser that knows two documents.
abbrev parsed : Str → Option Value
parsed (b ∷ bs) =
    if b == b'r'
    then some (object (field (str "result") (string bs) end))
    else if b == b'n'
    then some (object (field (str "method") (string bs) end))
    else none
parsed [] = none

abbrev notified_then_answered : List (Str × Terminator)
notified_then_answered =
    (str "event: message", both)
    ∷ (str "data: n1", both)
    ∷ ([], both)
    ∷ (str "data: r1", line_feed)
    ∷ ([], line_feed)
    ∷ (str "data: r2", carriage_return)
    ∷ []

media_types :
    (has_media_type (str "Text/Event-Stream ; charset=utf-8") (str "text/event-stream") ≡ true)
    × (has_media_type (str "application/jsonp") (str "application/json") ≡ false)
unfolding has_media_type before_semicolon trim trim_start is_whitespace eq_ignore_ascii_case
    to_ascii_lowercase
media_types = (refl, refl)

unread : terminal_response parsed (str "text/html") (str "r") ≡ inl media_type
unfolding terminal_response has_media_type before_semicolon trim trim_start is_whitespace
    eq_ignore_ascii_case to_ascii_lowercase
unread = refl

wide_space : trim_start_unicode (0xe2 ∷ 0x80 ∷ 0x83 ∷ 0xc2 ∷ 0xa0 ∷ str " x") ≡ str "x"
unfolding trim_start_unicode skip_space space_width is_whitespace strip_prefix
wide_space = refl

last_wins :
    terminal_response parsed (str "text/event-stream") (render notified_then_answered (str "data"))
    ≡ inr (object (field (str "result") (string (str "2")) end))
unfolding terminal_response has_media_type before_semicolon trim trim_start is_whitespace
    eq_ignore_ascii_case to_ascii_lowercase stream_response or_unparseable read_lines sse_lines
    split_line terminator line_then push_data take_terminal replaced is_json_rpc_response get find
    str_eq render from_utf8 is_utf8_from utf8_step utf8_lead strip_prefix trim_start_unicode
    skip_space space_width drop
last_wins = refl

terminal_response-stream_example :
    terminal_response parsed (str "text/event-stream") (render notified_then_answered [])
    ≡ or_unparseable (last_answer parsed (events (texts notified_then_answered [])))
unfolding has_media_type before_semicolon trim trim_start is_whitespace eq_ignore_ascii_case
    to_ascii_lowercase from_utf8 is_utf8_from utf8_step utf8_lead render strip_prefix
terminal_response-stream_example =
    terminal_response-stream parsed (str "text/event-stream") notified_then_answered [] refl refl
      refl search
