-- ===== src/StreamJson/Rscode.antt =====
-- `parse_rscode_event` of stream_json.rs: the first entry of the object under `event` is the event.
use cap_protocol.Prelude.{
  String, false, Option, none, some, List, [], ◌∷◌, ◌++◌, ◌==◌, if◌then◌else◌,
}
use cap_protocol.Core.{Foreign, StopReason, AgentEvent, no_usage, TextChannel}
use cap_protocol.Json.{unwrap_or, and_then, str_at, array_at, bool_at, value_at, text_at}

module _ (x : Foreign) where
  -- The text of a turn id, which may be any value
  abbrev pub shown : Option x.Value → String
  shown none = ""
  shown (some v) = unwrap_or (x.to_string v) (x.as_str v)

  -- `.filter(|text| !text.is_empty())` and the event
  abbrev pub with_text : Option String → (String → AgentEvent x) → List (AgentEvent x)
  with_text none e = []
  with_text (some text) e = if text == "" then [] else e text ∷ []

  -- The text of a block that is an object
  abbrev pub block_text : Option (List (String × x.Value)) → x.Value → Option String
  block_text none block = none
  block_text (some fields) block = and_then (str_at x "text") (x.get "Text" block)

  unfoldable pub final_blocks : String → List x.Value → List (AgentEvent x)
  final_blocks turn_id [] = []
  final_blocks turn_id (block ∷ blocks) =
      with_text (block_text (x.as_object block) block)
        (λ text. AgentEvent.text_chunk turn_id text TextChannel.assistant)
      ++ final_blocks turn_id blocks

  -- The `match kind`
  unfoldable pub rscode_kind : String → x.Value → List (AgentEvent x)
  unfolding final_blocks
  rscode_kind kind payload =
      let turn_id = shown (x.get "turn" payload) in
      if kind == "ThinkingDelta"
      then with_text (str_at x "text" payload) (AgentEvent.thought turn_id)
      else if kind == "AssistantDelta"
      then with_text (str_at x "text" payload)
          (λ text. AgentEvent.text_chunk "" text TextChannel.assistant)
      else if kind == "AssistantFinal"
      then final_blocks turn_id (unwrap_or [] (array_at x "blocks" payload))
      else if kind == "ToolRequested"
      then AgentEvent.tool_call_start (text_at x "call" payload) (text_at x "name" payload)
          (value_at x "input" payload)
        ∷ []
      else if kind == "ToolCompleted"
      then AgentEvent.tool_call_end (text_at x "call" payload) (text_at x "content" payload)
          (unwrap_or false (bool_at x "is_error" payload)) none
        ∷ []
      else if kind == "Cancelled"
      then AgentEvent.done StopReason.cancelled (no_usage x) ∷ []
      else []

  unfoldable pub first_event : Option (List (String × x.Value)) → List (AgentEvent x)
  unfolding rscode_kind
  first_event none = []
  first_event (some []) = []
  first_event (some ((kind, payload) ∷ _)) = rscode_kind kind payload

  unfoldable pub parse_rscode_event : x.Value → List (AgentEvent x)
  unfolding first_event
  parse_rscode_event frame = first_event (and_then x.as_object (x.get "event" frame))
