-- ===== src/Acp.antt =====
-- crates/cap-rs/src/driver/acp.rs: what the frames of an agent mean that speaks the Agent Client Protocol.
-- `pending` is the list of the ids that the handshake waits for; `pending_perms` is an association list.
pub mod Driver
mod Select
pub mod Handshake
mod Asked
mod Answers
mod Examples
use cap_protocol.Prelude.{
  ℕ, ◌+◌, negsuc, String, Bool, true, false, not, ◌&&◌, ◌||◌, Option, none, some, List, [], ◌∷◌,
  ◌++◌, ◌==◌, put, show_nat, if◌then◌else◌,
}
use Prim.Native.String.{◌++◌ as append}
use cap_protocol.Core.{
  Foreign, StopReason, Usage, AgentEvent, TextChannel, PlanEntry, PlanStatus, AskKind,
  PermissionScope, RiskLevel,
}
use cap_protocol.Json.{
  unwrap_or, or_else, and_then, is_some, str_at, u64_at, array_at, value_at, text_at,
}
use cap_protocol.Pty.Driver.{DriverExitStatus}
use cap_protocol.Codex.{item_duration, plan_event}
use cap_protocol.Rpc.{JsonRpcResult, has_id, drop_id, result_of, error_event, message}

-- What the driver writes: the request of a prompt, a cancellation, the answer to a permission request, with
-- the CAP id and the JSON-RPC id, the refusal of a request of the agent, or a line of the handshake.
pub data Line (x : Foreign) : Type 0 where
  prompt_request cancel_note handshake_line : x.Value → Line x
  permission_answer : (req_id : String) (id line : x.Value) → Line x
  refusal : (id line : x.Value) → Line x

-- What happens at the driver, in order: an event for the session, a line for the agent.
pub data Entry (x : Foreign) : Type 0 where
  forwarded : AgentEvent x → Entry x
  wrote : Line x → Entry x

pub record AcpDriver (x : Foreign) : Type 0 where
  pub writer_open : Bool
  pub writer_alive : Bool
  pub session_id : Option String
  pub next_id : ℕ
  pub pending : List ℕ
  pub handed : List (ℕ × JsonRpcResult x)
  pub pending_perms : List (String × (x.Value × x.Value))
  pub child : Bool
  pub exited : Bool
  pub exit_status : Option DriverExitStatus
  pub trace : List (Entry x)

unfoldable pub map_stop_reason : String → StopReason
map_stop_reason s =
    if s == "end_turn"
    then StopReason.end_turn
    else if s == "max_tokens" || s == "max_turn_requests"
    then StopReason.max_tokens
    else if s == "refusal"
    then StopReason.error
    else if s == "cancelled" || s == "canceled"
    then StopReason.cancelled
    else StopReason.end_turn

module _ (x : Foreign) where
  unfoldable pub block_text : x.Value → String
  block_text block = elim (str_at x "type" block) [
    | none ↦ ""
    | some t ↦ if t == "text" then text_at x "text" block else ""
  ]

  -- `arr.iter().map(block_text).collect()`
  unfoldable pub blocks_text : List x.Value → String
  unfolding block_text
  blocks_text [] = ""
  blocks_text (b ∷ bs) = append (block_text b) (blocks_text bs)

  unfoldable pub content_text : Option x.Value → String
  unfolding blocks_text block_text
  content_text none = ""
  content_text (some c) = elim (x.as_array c) [ some bs ↦ blocks_text bs | none ↦ block_text c ]

  unfoldable pub prompt_usage : Option x.Value → StopReason → Usage x
  prompt_usage usage stop_reason =
      let u = unwrap_or x.null usage in
      record {
        input_tokens = unwrap_or 0 (u64_at x "inputTokens" u);
        output_tokens = unwrap_or 0 (u64_at x "outputTokens" u);
        cache_read_tokens = 0;
        cache_creation_tokens = 0;
        thinking_tokens = unwrap_or 0 (u64_at x "thoughtTokens" u);
        cost_usd_estimate = none;
        duration = none;
        model_id = none;
        stop_reason = some stop_reason;
      }

  unfoldable pub plan_status : Option String → PlanStatus
  plan_status none = PlanStatus.pending
  plan_status (some s) =
      if s == "in_progress"
      then PlanStatus.in_progress
      else if s == "completed"
      then PlanStatus.completed
      else PlanStatus.pending

  unfoldable pub plan_entries : ℕ → List x.Value → List (PlanEntry x)
  unfolding plan_status show_nat
  plan_entries idx [] = []
  plan_entries idx (e ∷ es) =
      record {
        id = unwrap_or (append "t" (show_nat idx)) (str_at x "id" e);
        content = unwrap_or "" (and_then x.as_str (or_else (x.get "content" e) (x.get "text" e)));
        status = plan_status (str_at x "status" e);
        priority = none;
        meta = none;
      }
      ∷ plan_entries (idx + 1) es

  -- `parse_plan_entries`
  unfoldable pub parse_plan_entries : x.Value → List (PlanEntry x)
  unfolding plan_entries
  parse_plan_entries entries = elim (x.as_array entries) [ none ↦ [] | some es ↦ plan_entries 0 es ]

  -- The `match kind` of an update
  unfoldable pub update_kind : String → x.Value → List (AgentEvent x)
  unfolding content_text parse_plan_entries item_duration
  update_kind kind update =
      let msg_id = text_at x "messageId" update in
      let text = content_text (x.get "content" update) in
      let call_id = text_at x "toolCallId" update in
      let status = text_at x "status" update in
      if kind == "agent_message_chunk"
      then (if text == "" then [] else AgentEvent.text_chunk msg_id text TextChannel.assistant ∷ [])
      else if kind == "agent_thought_chunk"
      then (if text == "" then [] else AgentEvent.thought msg_id text ∷ [])
      else if kind == "tool_call"
      then AgentEvent.tool_call_start call_id
          (unwrap_or "tool"
            (and_then x.as_str (or_else (x.get "kind" update) (x.get "title" update))))
          (value_at x "rawInput" update)
        ∷ []
      else if kind == "tool_call_update"
      then (if status == "completed" || status == "failed"
          then AgentEvent.tool_call_end call_id text (status == "failed") (item_duration x update)
            ∷ []
          else [])
      else if kind == "plan"
      then plan_event x (parse_plan_entries (value_at x "entries" update))
      else []

  unfoldable pub parse_notification : String → x.Value → List (AgentEvent x)
  unfolding update_kind
  parse_notification method params =
      let update = value_at x "update" params in
      if method == "session/update"
      then update_kind (text_at x "sessionUpdate" update) update
      else []

  -- The response to a prompt
  unfoldable pub turn_response : x.Value → List (AgentEvent x)
  unfolding map_stop_reason prompt_usage error_event
  turn_response frame =
      let res = value_at x "result" frame in
      elim (x.get "error" frame) [
        | some e ↦ error_event x "acp_jsonrpc_" "acp_error" e ∷ []
        | none ↦ elim (str_at x "stopReason" res) [
          | none ↦ []
          | some stop ↦
              AgentEvent.done (map_stop_reason stop)
                (prompt_usage (x.get "usage" res) (map_stop_reason stop))
              ∷ []
        ]
      ]

  -- The events are forwarded.
  abbrev pub forward_all : List (AgentEvent x) → List (Entry x)
  forward_all [] = []
  forward_all (e ∷ es) = forwarded e ∷ forward_all es

  abbrev pub forward : List (AgentEvent x) → AcpDriver x → AcpDriver x
  forward es d = record d { trace = d.trace ++ forward_all es }

  unfoldable pub handle_response : x.Value → AcpDriver x → AcpDriver x
  unfolding turn_response has_id drop_id result_of
  handle_response frame d = elim (u64_at x "id" frame) [
    | none ↦ forward (turn_response frame) d
    | some id ↦
        if has_id id d.pending
        then record d {
          pending = drop_id id d.pending;
          handed = d.handed ++ (id, result_of x frame) ∷ [];
        }
        else forward (turn_response frame) d
  ]

  -- `req_id`: the text of a number, or a text
  unfoldable pub request_key : x.Value → Option String
  request_key id = or_else (x.as_number id) (x.as_str id)

  -- A request for permission
  unfoldable pub ask_permission : String → x.Value → x.Value → AcpDriver x → AcpDriver x
  unfolding put
  ask_permission req_id id params d =
      let tool_call = value_at x "toolCall" params in
      let tool =
        unwrap_or "tool"
          (and_then x.as_str (or_else (x.get "title" tool_call) (x.get "kind" tool_call))) in
      let options = unwrap_or (x.array []) (x.get "options" params) in
      record d {
        pending_perms = put req_id (id, options) d.pending_perms;
        trace =
            d.trace
            ++ forwarded (
                AgentEvent.permission_request req_id tool tool_call PermissionScope.execute
                  RiskLevel.medium)
              ∷ [];
      }

  abbrev is_boolean : x.Value → Bool
  is_boolean form = elim (str_at x "type" form) [ none ↦ false | some t ↦ t == "boolean" ]

  unfoldable pub ask_kind_of : Option x.Value → AskKind x
  ask_kind_of none = AskKind.free_text
  ask_kind_of (some form) =
      if is_boolean form
      then AskKind.yes_no
      else if is_some (x.get "oneOf" form) || is_some (x.get "enum" form)
      then AskKind.schema form
      else AskKind.free_text

  unfoldable pub elicit_event : String → x.Value → AgentEvent x
  unfolding ask_kind_of
  elicit_event req_id params =
      AgentEvent.ask_user req_id
        (unwrap_or "agent requests input"
          (and_then x.as_str (or_else (x.get "question" params) (x.get "prompt" params))))
        (ask_kind_of (x.get "form" params)) [] none

  unfoldable pub refusal_value : String → x.Value → x.Value
  refusal_value method id = message x (
      ("id", id)
      ∷ (
        "error",
        x.object (
            ("code", x.integer (negsuc 32600))
            ∷ ("message", x.string (append "method not supported: " method))
            ∷ []),
      )
      ∷ [])

  -- `try_send`, which may find the channel full
  abbrev try_send : Bool → Line x → AcpDriver x → AcpDriver x
  try_send true line d = record d { trace = d.trace ++ wrote line ∷ [] }
  try_send false line d = d

  -- The `match method`, given whether the channel takes a refusal
  unfoldable pub request_method :
      Bool → String → String → x.Value → x.Value → AcpDriver x → AcpDriver x
  unfolding ask_permission elicit_event refusal_value
  request_method takes method req_id id params d =
      if method == "session/request_permission"
      then ask_permission req_id id params d
      else if method == "session/elicit"
      then forward (elicit_event req_id params ∷ []) d
      else try_send (takes && d.writer_alive) (refusal id (refusal_value method id)) d

  unfoldable pub handle_server_request :
      Bool → String → x.Value → x.Value → AcpDriver x → AcpDriver x
  unfolding request_key request_method
  handle_server_request takes method id params d = elim (request_key id) [
    | none ↦ d
    | some req_id ↦ request_method takes method req_id id params d
  ]

  unfoldable pub process_frame : Bool → x.Value → AcpDriver x → AcpDriver x
  unfolding handle_response handle_server_request parse_notification
  process_frame takes frame d =
      if is_some (x.get "id" frame) && not (is_some (x.get "method" frame))
      then handle_response frame d
      else if is_some (x.get "id" frame)
      then handle_server_request takes (text_at x "method" frame) (value_at x "id" frame)
          (value_at x "params" frame) d
      else forward (parse_notification (text_at x "method" frame) (value_at x "params" frame)) d

  -- A line that is blank or no JSON is passed over.
  unfoldable pub on_line : Bool → Option x.Value → AcpDriver x → AcpDriver x
  unfolding process_frame
  on_line takes none d = d
  on_line takes (some frame) d = process_frame takes frame d
