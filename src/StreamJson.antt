-- ===== src/StreamJson.antt =====
-- crates/cap-rs/src/driver/stream_json.rs: what the frames of an agent that writes a JSON object per line
-- mean. An `if let` chain on `as_str` and the like is a function on the option.
pub mod Rscode
pub mod Reader
pub mod Encode
mod View
mod Turns
mod Examples
use cap_protocol.Prelude.{
  ℕ, ◌+◌, ◌*◌, String, Bool, true, false, Option, none, some, List, [], ◌∷◌, ◌++◌, ltb, ◌==◌,
  strip_prefix, join, if◌then◌else◌,
}
use cap_protocol.Core.{Foreign, StopReason, Usage, AgentEvent, TextChannel}
use cap_protocol.Json.{
  unwrap_or, or_else, and_then, str_at, array_at, bool_at, u64_at, value_at, text_at,
}
use cap_protocol.StreamJson.Rscode.{parse_rscode_event}

-- `s.starts_with(p)`
unfoldable pub starts_with : String → String → Bool
unfolding strip_prefix
starts_with s p = elim (strip_prefix s p) [ none ↦ false | some rest ↦ true ]

-- The stop reason that a `subtype` names
unfoldable pub stop_reason_of : String → StopReason
unfolding starts_with
stop_reason_of s =
    if s == "success"
    then StopReason.end_turn
    else if s == "error_max_turns"
    then StopReason.max_tokens
    else if starts_with s "error"
    then StopReason.error
    else StopReason.end_turn

-- A `Duration` of milliseconds, in nanoseconds
abbrev pub from_millis : Option ℕ → Option ℕ
from_millis none = none
from_millis (some ms) = some (ms * 1000000)

abbrev pub map_stop : Option String → Option StopReason
unfolding stop_reason_of
map_stop none = none
map_stop (some s) = some (stop_reason_of s)

module _ (x : Foreign) where
  -- `max_by_key`, which returns the last of the greatest
  unfoldable pub best_model : List (String × x.Value) → Option (String × ℕ)
  best_model [] = none
  best_model ((k, v) ∷ models) =
      let tokens = unwrap_or 0 (u64_at x "output_tokens" v) in
      elim (best_model models) [
        | none ↦ some (k, tokens)
        | some best ↦ if ltb best.1 tokens then some (k, tokens) else some best
      ]

  abbrev pub model_of : Option (List (String × x.Value)) → Option String
  unfolding best_model
  model_of none = none
  model_of (some models) = elim (best_model models) [ none ↦ none | some best ↦ some best.0 ]

  unfoldable pub parse_usage : x.Value → Usage x
  unfolding best_model stop_reason_of
  parse_usage frame =
      let u = unwrap_or x.null (or_else (x.get "usage" frame) (x.get "total_usage" frame)) in
      record {
        input_tokens = unwrap_or 0 (u64_at x "input_tokens" u);
        output_tokens = unwrap_or 0 (u64_at x "output_tokens" u);
        cache_read_tokens = unwrap_or 0 (u64_at x "cache_read_input_tokens" u);
        cache_creation_tokens = unwrap_or 0 (u64_at x "cache_creation_input_tokens" u);
        thinking_tokens = unwrap_or 0 (
            and_then x.as_u64 (
              or_else
                (or_else (or_else (x.get "thinking_tokens" u) (x.get "reasoning_output_tokens" u))
                  (x.get "thinking_tokens" frame))
                (x.get "reasoning_output_tokens" frame)));
        cost_usd_estimate = and_then x.as_f64 (x.get "total_cost_usd" frame);
        duration = from_millis (u64_at x "duration_ms" frame);
        model_id = model_of (and_then x.as_object (x.get "modelUsage" frame));
        stop_reason = map_stop (str_at x "subtype" frame);
      }

  -- `text` of each part that has one
  unfoldable pub part_texts : List x.Value → List String
  part_texts [] = []
  part_texts (part ∷ parts) =
      let rest = part_texts parts in elim (str_at x "text" part) [ none ↦ rest | some s ↦ s ∷ rest ]

  abbrev array_output : Option (List x.Value) → String
  unfolding part_texts join
  array_output none = ""
  array_output (some parts) = join "\n" (part_texts parts)

  abbrev string_output : x.Value → Option String → String
  unfolding part_texts join
  string_output v (some s) = s
  string_output v none = array_output (x.as_array v)

  unfoldable pub content_output : Option x.Value → String
  unfolding part_texts join
  content_output none = ""
  content_output (some v) = string_output v (x.as_str v)

  unfoldable pub extract_tool_result_output : x.Value → String
  unfolding content_output
  extract_tool_result_output block = content_output (x.get "content" block)

  -- `if !text.is_empty() { events.push(…) }`
  abbrev pub unless_empty : String → AgentEvent x → List (AgentEvent x)
  unless_empty text e = if text == "" then [] else e ∷ []

  -- The `match btype` of a block of an assistant message
  unfoldable pub read_block : String → x.Value → String → List (AgentEvent x)
  read_block msg_id block btype =
      let text = text_at x "text" block in
      let thinking = unwrap_or "" (or_else (str_at x "thinking" block) (str_at x "text" block)) in
      if btype == "text"
      then unless_empty text (AgentEvent.text_chunk msg_id text TextChannel.assistant)
      else if btype == "thinking"
      then unless_empty thinking (AgentEvent.thought msg_id thinking)
      else if btype == "tool_use"
      then AgentEvent.tool_call_start (text_at x "id" block) (text_at x "name" block)
          (value_at x "input" block)
        ∷ []
      else []

  unfoldable pub read_blocks : String → List x.Value → List (AgentEvent x)
  unfolding read_block
  read_blocks msg_id [] = []
  read_blocks msg_id (block ∷ blocks) =
      read_block msg_id block (text_at x "type" block) ++ read_blocks msg_id blocks

  unfoldable pub read_result_block : Bool → x.Value → List (AgentEvent x)
  unfolding extract_tool_result_output
  read_result_block false block = []
  read_result_block true block =
      AgentEvent.tool_call_end (text_at x "tool_use_id" block) (extract_tool_result_output block)
        (unwrap_or false (bool_at x "is_error" block)) (from_millis (u64_at x "duration_ms" block))
      ∷ []

  abbrev pub is_some_text : Option String → String → Bool
  is_some_text none t = false
  is_some_text (some s) t = s == t

  unfoldable pub read_results : List x.Value → List (AgentEvent x)
  unfolding read_result_block
  read_results [] = []
  read_results (block ∷ blocks) =
      read_result_block (is_some_text (str_at x "type" block) "tool_result") block
      ++ read_results blocks

  unfoldable pub read_assistant : x.Value → List (AgentEvent x)
  unfolding read_blocks
  read_assistant frame =
      let msg = value_at x "message" frame in
      read_blocks (text_at x "id" msg) (unwrap_or [] (array_at x "content" msg))

  unfoldable pub read_user : x.Value → List (AgentEvent x)
  unfolding read_results
  read_user frame =
      read_results (unwrap_or [] (and_then (array_at x "content") (x.get "message" frame)))

  -- A `result` frame, given whether its `subtype` starts with "error"
  unfoldable pub read_result : Bool → x.Value → List (AgentEvent x)
  unfolding parse_usage
  read_result true frame =
      let error = value_at x "error" frame in
      let code = and_then x.as_str (or_else (x.get "type" error) (x.get "code" error)) in
      AgentEvent.error (unwrap_or "unknown" code)
        (unwrap_or "agent error" (str_at x "message" error)) false (some error)
      ∷ AgentEvent.done StopReason.error (parse_usage frame)
      ∷ []
  read_result false frame =
      let usage = parse_usage frame in
      AgentEvent.done (unwrap_or StopReason.end_turn usage.stop_reason) usage ∷ []

  unfoldable pub read_delta : x.Value → List (AgentEvent x)
  read_delta delta =
      let dtype = text_at x "type" delta in
      if dtype == "text_delta"
      then unless_empty (text_at x "text" delta)
          (AgentEvent.text_chunk "" (text_at x "text" delta) TextChannel.assistant)
      else if dtype == "thinking_delta"
      then unless_empty (text_at x "thinking" delta)
          (AgentEvent.thought "" (text_at x "thinking" delta))
      else []

  unfoldable pub read_stream_event : x.Value → List (AgentEvent x)
  unfolding read_delta
  read_stream_event frame =
      let ev = value_at x "event" frame in
      if text_at x "type" ev == "content_block_delta"
      then read_delta (value_at x "delta" ev)
      else []

  unfoldable pub read_system : x.Value → List (AgentEvent x)
  read_system frame =
      if text_at x "subtype" frame == "init"
      then AgentEvent.ready (str_at x "session_id" frame) "cap-protocol/v1" (str_at x "model" frame)
        ∷ []
      else []

  -- The `match kind`
  unfoldable pub read_kind : String → x.Value → List (AgentEvent x)
  unfolding read_system read_assistant read_user parse_rscode_event read_result read_stream_event
      starts_with
  read_kind kind frame =
      if kind == "system"
      then read_system frame
      else if kind == "assistant"
      then read_assistant frame
      else if kind == "user"
      then read_user frame
      else if kind == "event"
      then parse_rscode_event x frame
      else if kind == "error"
      then AgentEvent.error "agent_error" (unwrap_or "agent error" (str_at x "message" frame)) false
          (some frame)
        ∷ []
      else if kind == "result"
      then read_result (starts_with (unwrap_or "success" (str_at x "subtype" frame)) "error") frame
      else if kind == "stream_event"
      then read_stream_event frame
      else []

  unfoldable pub parse_stream_frame : x.Value → List (AgentEvent x)
  unfolding read_kind
  parse_stream_frame frame = read_kind (text_at x "type" frame) frame

  -- `parse_stream_line(line, false)`: a line that is no JSON is passed over
  unfoldable pub parse_stream_line : Option x.Value → List (AgentEvent x)
  unfolding parse_stream_frame
  parse_stream_line none = []
  parse_stream_line (some frame) = parse_stream_frame frame
