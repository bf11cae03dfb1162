-- ===== src/StreamJson/Reader.antt =====
-- `reader_task` of stream_json.rs and the driver's `send`, which share the flag `turn_pending`.
use Prim.Native.String.{◌++◌ as append}
use cap_protocol.Prelude.{
  String, Bool, true, false, not, ◌||◌, Option, none, some, List, [], ◌∷◌, ◌++◌, Result, ok, err,
  ◌==◌, strip_prefix, if◌then◌else◌,
}
use cap_protocol.Core.{Foreign, ClientFrame, StopReason, AgentEvent, TextChannel, no_usage}
use cap_protocol.Json.{unwrap_or, or_else, and_then, str_at, text_at}
use cap_protocol.Pty.Driver.{DriverError}
use cap_protocol.StreamJson.{starts_with, is_some_text, parse_stream_line}
use cap_protocol.StreamJson.Encode.{encode_client_frame, encode_rscode_client_frame, starts_turn}

-- What happens to the driver, in order: a frame of the session was sent, or the channel to the writer was
-- found closed; an event was forwarded.
pub data Entry (x : Foreign) : Type 0 where
  started refused : Entry x
  forwarded : AgentEvent x → Entry x

pub record Reader (x : Foreign) : Type 0 where
  pub streamed_text : Bool
  pub assistant_text : String
  pub turn_pending : Bool
  pub log : List (Entry x)

-- `eof_is_success` and `is_rscode` of the driver.
pub record Mode : Type 0 where
  pub eof_is_success : Bool
  pub is_rscode : Bool

-- The first `match &event`: whether the event is dropped, and the flag after it. A text under no
-- message's id is a piece of a stream.
unfoldable pub dedupe_text : Bool → Bool → Bool × Bool
dedupe_text true streamed_text = (false, true)
dedupe_text false streamed_text = (streamed_text, streamed_text)

module _ (x : Foreign) where
  abbrev pub new_reader : Reader x
  new_reader = record { streamed_text = false; assistant_text = ""; turn_pending = false; log = [] }

  -- A text that repeats what was forwarded is nothing; one that goes on is the rest.
  unfoldable pub missing_text : String → String → Option String
  unfolding strip_prefix
  missing_text text forwarded_text =
      if text == "" || text == forwarded_text
      then none
      else if not (forwarded_text == "")
      then some (unwrap_or text (strip_prefix text forwarded_text))
      else some text

  -- The event of the text that is left
  unfoldable pub fallback_event : x.Value → Option String → Option (AgentEvent x)
  fallback_event frame none = none
  fallback_event frame (some text) =
      if text == ""
      then none
      else some (AgentEvent.text_chunk (text_at x "uuid" frame) text TextChannel.assistant)

  abbrev is_error_subtype : Option String → Bool
  unfolding starts_with
  is_error_subtype none = false
  is_error_subtype (some s) = starts_with s "error"

  unfoldable pub result_text_fallback : x.Value → String → Option (AgentEvent x)
  unfolding missing_text fallback_event starts_with
  result_text_fallback frame assistant_text =
      if not (is_some_text x (str_at x "type" frame) "result")
        || is_error_subtype (str_at x "subtype" frame)
      then none
      else fallback_event frame (
          and_then (λ text. missing_text text assistant_text)
            (and_then x.as_str (or_else (x.get "result" frame) (x.get "final_text" frame))))

  unfoldable pub dedupe : AgentEvent x → Bool → Bool × Bool
  unfolding dedupe_text
  dedupe (AgentEvent.text_chunk msg_id text TextChannel.assistant) streamed_text =
      dedupe_text (msg_id == "") streamed_text
  dedupe (AgentEvent.tool_call_start call_id name input) streamed_text = (false, false)
  dedupe _ streamed_text = (false, streamed_text)

  -- The end of a turn
  unfoldable pub settle : AgentEvent x → Reader x → Reader x
  settle (AgentEvent.done stop usage) r = record r {
    turn_pending = false;
    streamed_text = false;
    assistant_text = "";
  }
  settle (AgentEvent.error code message retryable details) r = record r { turn_pending = false }
  settle _ r = r

  unfoldable pub keep_text : AgentEvent x → String → String
  keep_text (AgentEvent.text_chunk msg_id text TextChannel.assistant) s = append s text
  keep_text _ s = s

  unfoldable pub forward : Bool → AgentEvent x → Reader x → Reader x
  unfolding keep_text
  forward true e r = r
  forward false e r = record r {
    assistant_text = keep_text e r.assistant_text;
    log = r.log ++ forwarded e ∷ [];
  }

  -- One round of the loop over the events of a line
  unfoldable pub on_event : AgentEvent x → Reader x → Reader x
  unfolding dedupe settle forward
  on_event e r =
      let (skip, streamed) = dedupe e r.streamed_text in
      forward skip e (settle e (record r { streamed_text = streamed }))

  unfoldable pub on_events : List (AgentEvent x) → Reader x → Reader x
  unfolding on_event
  on_events [] r = r
  on_events (e ∷ es) r = on_events es (on_event e r)

  -- `events.insert(0, event)`
  abbrev pub insert_first : Option (AgentEvent x) → List (AgentEvent x) → List (AgentEvent x)
  insert_first none es = es
  insert_first (some e) es = e ∷ es

  abbrev fallback_of : Option x.Value → String → Option (AgentEvent x)
  unfolding result_text_fallback
  fallback_of none text = none
  fallback_of (some frame) text = result_text_fallback frame text

  -- The events of a line, with the text that only the result has in front
  unfoldable pub line_events : String → String → List (AgentEvent x)
  unfolding parse_stream_line result_text_fallback
  line_events line assistant_text =
      let value = x.from_str line in
      insert_first (fallback_of value assistant_text) (parse_stream_line x value)

  unfoldable pub on_line : String → Reader x → Reader x
  unfolding on_events line_events
  on_line line r = on_events (line_events line r.assistant_text) r

  -- `eof_event`
  unfoldable pub eof_event : Bool → Bool → List (AgentEvent x)
  eof_event false eof_is_success = []
  eof_event true true = AgentEvent.done StopReason.end_turn (no_usage x) ∷ []
  eof_event true false =
      AgentEvent.error "agent_eof_before_result"
        "agent stdout closed before a terminal result frame" false none
      ∷ []

  -- The error of a read, with the system's message
  unfoldable pub read_error : Bool → String → List (AgentEvent x)
  read_error false message = []
  read_error true message = AgentEvent.error "stream_read_failed" message false none ∷ []

  abbrev pub log_events : List (AgentEvent x) → List (Entry x)
  log_events [] = []
  log_events (e ∷ es) = forwarded e ∷ log_events es

  -- The end of the reader: the pipe was closed, or it could not be read.
  pub data End : Type 0 where
    closed : End
    failed : String → End

  unfoldable pub on_end : Mode → End → Reader x → Reader x
  unfolding eof_event read_error
  on_end mode closed r = record r {
    log = r.log ++ log_events (eof_event r.turn_pending mode.eof_is_success);
  }
  on_end mode (failed message) r = record r {
    log = r.log ++ log_events (read_error r.turn_pending message);
  }

  abbrev pub line_of : Mode → ClientFrame x → Result DriverError String
  unfolding encode_client_frame encode_rscode_client_frame
  line_of mode frame =
      if mode.is_rscode then encode_rscode_client_frame x frame else encode_client_frame x frame

  -- The store of the flag and the send to the writer, which may be gone
  unfoldable pub transmit : Bool → Bool → Reader x → Result DriverError (Unit {0}) × Reader x
  transmit true true r = (ok tt, record r { turn_pending = true; log = r.log ++ started ∷ [] })
  transmit false true r = (ok tt, r)
  transmit starts false r =
      (err DriverError.agent_exited, record r { turn_pending = false; log = r.log ++ refused ∷ [] })

  -- `send` with the line made, and whether the writer takes it
  unfoldable pub send_line :
      Bool → Bool → Result DriverError String → Reader x → Result DriverError (Unit {0}) × Reader x
  unfolding transmit
  send_line starts taken (err e) r = (err e, r)
  send_line starts taken (ok line) r = if line == "" then (ok tt, r) else transmit starts taken r

  unfoldable pub send :
      Mode → ClientFrame x → Bool → Reader x → Result DriverError (Unit {0}) × Reader x
  unfolding send_line encode_client_frame encode_rscode_client_frame
  send mode frame taken r = send_line (starts_turn x frame) taken (line_of mode frame) r

  -- What happens to a driver while its agent runs: a line of the agent, or a frame of the session with
  -- whether the writer takes it.
  pub data Step : Type 0 where
    line : String → Step
    frame : ClientFrame x → Bool → Step

  unfoldable pub step : Mode → Step → Reader x → Reader x
  unfolding on_line send
  step mode (line text) r = on_line text r
  step mode (frame f taken) r = (send mode f taken r).1

  unfoldable pub steps : Mode → List Step → Reader x → Reader x
  unfolding step
  steps mode [] r = r
  steps mode (s ∷ ss) r = steps mode ss (step mode s r)
