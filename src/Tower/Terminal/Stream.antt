-- ===== src/Tower/Terminal/Stream.antt =====
-- crates/mcp-usage-tower/src/layer.rs, `terminal_response` of an event stream: which of its events is
-- the terminal response.
use mathlib.Core.List.{append-nil, append_assoc}
use mcp_usage_kit.Core.Json.{Value}
use mcp_usage_kit.Prelude.{
  Bool-cases, List, Option, Str, [], ap, arith, false, from_utf8, inl, inr, length, none, refl,
  some, str, strip_prefix, suc, sym, trim_start_unicode, true, ℕ, ◌++◌, ◌<◌, ◌∙◌, ◌∷◌, ◌≡◌,
}
use mcp_usage_kit.Tower.Terminal.{
  has_media_type, is_json_rpc_response, or_unparseable, push_data, read_lines, replaced,
  response_only, stream_response, take_terminal, terminal_response,
}
use mcp_usage_kit.Tower.Terminal.Lines.{
  Clean, Terminator, length-render, render, sse_lines-render, texts,
}

abbrev pub put_value : Option Str → List Str → List Str
put_value none values = values
put_value (some value) values = trim_start_unicode value ∷ values

-- The values of the data lines of an event.
abbrev pub data_values : List Str → List Str
data_values [] = []
data_values (line ∷ lines) = put_value (strip_prefix (str "data:") line) (data_values lines)

abbrev pub after_first : List Str → Str
after_first [] = []
after_first (v ∷ vs) = 10 ∷ v ++ after_first vs

-- The values, each on a line of its own, from the first that is not empty.
abbrev pub joined : List Str → Str
joined [] = []
joined ([] ∷ vs) = joined vs
joined ((b ∷ bs) ∷ vs) = (b ∷ bs) ++ after_first vs

abbrev pub event_data : List Str → Str
event_data lines = joined (data_values lines)

-- The lines of the first event, and of those after it: a blank line ends one.
unfoldable pub split_events : List Str → List Str × List (List Str)
split_events [] = ([], [])
split_events ([] ∷ lines) = let rest = split_events lines in ([], rest.0 ∷ rest.1)
split_events ((b ∷ bs) ∷ lines) = let rest = split_events lines in ((b ∷ bs) ∷ rest.0, rest.1)

abbrev pub events : List Str → List (List Str)
events lines = let split = split_events lines in split.0 ∷ split.1

abbrev pub or_earlier : Option Value → Option Value → Option Value
or_earlier none earlier = earlier
or_earlier (some value) earlier = some value

or_earlier_assoc :
    (a b c : Option Value) → or_earlier a (or_earlier b c) ≡ or_earlier (or_earlier a b) c
or_earlier_assoc none b c = refl
or_earlier_assoc (some a) b c = refl

or_earlier-none : (a b : Option Value) → or_earlier a (or_earlier b none) ≡ or_earlier a b
or_earlier-none none none = refl
or_earlier-none none (some b) = refl
or_earlier-none (some a) b = refl

-- The data of an event that follows what is gathered already.
abbrev extend : Str → List Str → Str
extend data_text [] = data_text
extend data_text (line ∷ lines) =
    extend (push_data (strip_prefix (str "data:") line) data_text) lines

pushed_value :
    (b : ℕ) (bs : Str) (value : Option Str) (lines : List Str)
    → ((cs : Str) → extend (b ∷ cs) lines ≡ (b ∷ cs) ++ after_first (data_values lines))
    → extend (push_data value (b ∷ bs)) lines
      ≡ (b ∷ bs) ++ after_first (put_value value (data_values lines))
unfolding push_data
pushed_value b bs none lines hyp = hyp bs
pushed_value b bs (some value) lines hyp =
    hyp (bs ++ 10 ∷ trim_start_unicode value)
    ∙ append_assoc (b ∷ bs) (10 ∷ trim_start_unicode value) (after_first (data_values lines))

extend-pushed :
    (b : ℕ) (bs : Str) (lines : List Str)
    → extend (b ∷ bs) lines ≡ (b ∷ bs) ++ after_first (data_values lines)
extend-pushed b bs [] = sym (append-nil (b ∷ bs))
extend-pushed b bs (line ∷ lines) =
    pushed_value b bs (strip_prefix (str "data:") line) lines (λ cs. extend-pushed b cs lines)

first_text :
    (text : Str) (lines : List Str)
    → extend [] lines ≡ event_data lines
    → extend text lines ≡ joined (text ∷ data_values lines)
first_text [] lines hyp = hyp
first_text (b ∷ bs) lines hyp = extend-pushed b bs lines

first_value :
    (value : Option Str) (lines : List Str)
    → extend [] lines ≡ event_data lines
    → extend (push_data value []) lines ≡ joined (put_value value (data_values lines))
unfolding push_data
first_value none lines hyp = hyp
first_value (some value) lines hyp = first_text (trim_start_unicode value) lines hyp

extend-event : (lines : List Str) → extend [] lines ≡ event_data lines
extend-event [] = refl
extend-event (line ∷ lines) =
    first_value (strip_prefix (str "data:") line) lines (extend-event lines)

replaced-earlier :
    (parsed terminal : Option Value)
    → replaced parsed terminal ≡ or_earlier (response_only parsed) terminal
unfolding replaced response_only
replaced-earlier none terminal = refl
replaced-earlier (some value) terminal = elim (Bool-cases (is_json_rpc_response value)) [
  | inl yes_it_is ↦ rw yes_it_is refl
  | inr it_is_not ↦ rw it_is_not refl
]

module _ (from_json : Str → Option Value) where
  -- The response that some data is, if it is one.
  abbrev pub answer_in : Str → Option Value
  answer_in [] = none
  answer_in (b ∷ bs) = response_only (from_json (b ∷ bs))

  abbrev pub last_answer : List (List Str) → Option Value
  last_answer [] = none
  last_answer (event ∷ later) = or_earlier (last_answer later) (answer_in (event_data event))

  take_terminal-answer :
      (data_text : Str) (terminal : Option Value)
      → take_terminal from_json data_text terminal ≡ or_earlier (answer_in data_text) terminal
  unfolding take_terminal
  take_terminal-answer [] terminal = refl
  take_terminal-answer (b ∷ bs) terminal = replaced-earlier (from_json (b ∷ bs)) terminal

  -- The loop, from any data and terminal response.
  read_lines-last :
      (lines : List Str) (data_text : Str) (terminal : Option Value)
      → read_lines from_json lines data_text terminal
        ≡ or_earlier
            (last_answer (split_events lines).1)
            (or_earlier (answer_in (extend data_text (split_events lines).0)) terminal)
  unfolding read_lines split_events
  read_lines-last [] data_text terminal = take_terminal-answer data_text terminal
  read_lines-last ((b ∷ bs) ∷ lines) data_text terminal =
      read_lines-last lines (push_data (strip_prefix (str "data:") (b ∷ bs)) data_text) terminal
  read_lines-last ([] ∷ lines) data_text terminal =
      let split = split_events lines in
      read_lines-last lines [] (take_terminal from_json data_text terminal)
      ∙ rw (take_terminal-answer data_text terminal, extend-event split.0)
          (or_earlier_assoc (last_answer split.1) (answer_in (event_data split.0))
            (or_earlier (answer_in data_text) terminal))

  read_lines-events :
      (lines : List Str) → read_lines from_json lines [] none ≡ last_answer (events lines)
  read_lines-events lines =
      let split = split_events lines in
      read_lines-last lines [] none
      ∙ rw (extend-event split.0)
          (or_earlier-none (last_answer split.1) (answer_in (event_data split.0)))

-- An event stream, declared as one, in UTF-8, in which each line is ended by a line feed, a carriage
-- return or both, is read as the last of its events whose data is a JSON-RPC response, and as
-- unparseable if none is: the events are the groups of lines between blank lines, and the data of an
-- event are the values of its data lines, without leading white space, from the first that is not
-- empty, joined by line feeds.
pub terminal_response-stream :
    (from_json : Str → Option Value) (content_type : Str) (lines : List (Str × Terminator))
    (last : Str)
    → has_media_type content_type (str "application/json") ≡ false
    → has_media_type content_type (str "text/event-stream") ≡ true
    → from_utf8 (render lines last) ≡ some (render lines last)
    → Clean lines last
    → terminal_response from_json content_type (render lines last)
      ≡ or_unparseable (last_answer from_json (events (texts lines last)))
unfolding terminal_response stream_response
terminal_response-stream from_json content_type lines last json stream utf8 clean =
    let text = render lines last in
    let enough : length lines < suc (length text) = omega (arith, length-render lines last) in
    rw (json, stream, utf8)
      (rw (sse_lines-render (suc (length text)) lines last clean enough)
        (ap or_unparseable (read_lines-events from_json (texts lines last))))
