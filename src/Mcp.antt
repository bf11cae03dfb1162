-- ===== src/Mcp.antt =====
-- crates/cap-rs/src/driver/codex_mcp.rs: what the frames of `codex mcp-server` mean, and what its reader
-- keeps. The numbers that a reader and the driver share are fields of one record; `pending` is the list of
-- the ids that a handshake waits for.
pub mod Driver
mod Ready
mod Streamed
mod Calls
mod Examples
use cap_protocol.Prelude.{
  ℕ, ◌+◌, String, Bool, true, false, not, ◌&&◌, ◌||◌, Option, none, some, List, [], ◌∷◌, ◌++◌, ◌==◌,
  ◌=ℕ◌, Result, if◌then◌else◌,
}
use cap_protocol.Core.{
  Foreign, StopReason, Usage, AgentEvent, TextChannel, no_usage, cap_protocol_version,
}
use cap_protocol.Json.{unwrap_or, or_else, and_then, is_some, str_at, u64_at, value_at, text_at}
use cap_protocol.Codex.{item_duration, shown_result}
use cap_protocol.Rpc.{JsonRpcResult, has_id, drop_id, result_of, error_event}

-- What the reader keeps: `ReaderCtx`, with what was handed to the handshake, and what was forwarded.
pub record ReaderCtx (x : Foreign) : Type 0 where
  pub thread_id : Option String
  pub pending : List ℕ
  pub streamed_this_turn : Bool
  pub ready_emitted : Bool
  pub model : Option String
  pub exited : Bool
  pub handed : List (ℕ × JsonRpcResult x)
  pub log : List (AgentEvent x)

module _ (x : Foreign) where
  abbrev Answer : Type 0
  Answer = List (AgentEvent x) × ReaderCtx x

  -- The text of a response: only if nothing was streamed
  unfoldable pub content_event : Bool → x.Value → List (AgentEvent x)
  content_event true res = []
  content_event false res =
      let content = value_at x "structuredContent" res in
      elim (str_at x "content" content) [
        | none ↦ []
        | some text ↦
            AgentEvent.text_chunk (text_at x "threadId" content) text TextChannel.assistant ∷ []
      ]

  -- The response that no handshake waits for
  unfoldable pub turn_response : x.Value → ReaderCtx x → Answer
  unfolding content_event error_event
  turn_response frame c = elim (x.get "error" frame) [
    | some e ↦ (error_event x "codex_mcp_jsonrpc_" "codex_mcp_error" e ∷ [], c)
    | none ↦ (
      content_event c.streamed_this_turn (value_at x "result" frame)
          ++ AgentEvent.done StopReason.end_turn
              (record (no_usage x) { stop_reason = some StopReason.end_turn })
            ∷ [],
      record c { streamed_this_turn = false },
    )
  ]

  unfoldable pub handle_response : x.Value → ReaderCtx x → Answer
  unfolding turn_response has_id drop_id result_of
  handle_response frame c = elim (u64_at x "id" frame) [
    | none ↦ turn_response frame c
    | some id ↦
        if has_id id c.pending
        then (
          [],
          record c {
            pending = drop_id id c.pending;
            handed = c.handed ++ (id, result_of x frame) ∷ [];
          },
        )
        else turn_response frame c
  ]

  -- `slot.is_none()` and the store
  abbrev pub first_of : Option String → String → Option String
  first_of none s = some s
  first_of (some old) s = some old

  unfoldable pub session_configured : Option String → ReaderCtx x → Answer
  session_configured none c = ([], c)
  session_configured (some tid) c =
      if c.ready_emitted then ([], record c { thread_id = first_of c.thread_id tid }) else (
        AgentEvent.ready (some tid) cap_protocol_version c.model ∷ [],
        record c { thread_id = first_of c.thread_id tid; ready_emitted = true },
      )

  unfoldable pub reasoning_delta : x.Value → List (AgentEvent x)
  reasoning_delta msg =
      let delta = text_at x "delta" msg in
      if delta == ""
      then []
      else AgentEvent.thought (unwrap_or "reasoning" (str_at x "item_id" msg)) delta ∷ []

  unfoldable pub message_delta : x.Value → ReaderCtx x → Answer
  message_delta msg c =
      let delta = text_at x "delta" msg in
      if delta == "" then ([], c) else (
        AgentEvent.text_chunk (text_at x "item_id" msg) delta TextChannel.assistant ∷ [],
        record c { streamed_this_turn = true },
      )

  abbrev is_command : String → Bool
  is_command t = t == "CommandExecution" || t == "command_execution"

  abbrev is_tool : String → Bool
  is_tool t =
      t == "FunctionCall" || t == "function_call" || t == "McpToolCall" || t == "mcp_tool_call"

  abbrev is_reasoning : String → Bool
  is_reasoning t = t == "Reasoning" || t == "reasoning"

  -- `.get("text").or_else(…summary…).or_else(…content…)`
  unfoldable pub reasoning_text : x.Value → String
  reasoning_text item = unwrap_or "" (
      and_then x.as_str
        (or_else (or_else (x.get "text" item) (x.get "summary" item)) (x.get "content" item)))

  unfoldable pub item_started : x.Value → List (AgentEvent x)
  unfolding reasoning_text
  item_started item =
      let item_type = text_at x "type" item in
      let item_id = text_at x "id" item in
      if is_command item_type
      then AgentEvent.tool_call_start item_id "Bash" (value_at x "command" item) ∷ []
      else if is_tool item_type
      then AgentEvent.tool_call_start item_id
          (unwrap_or "tool" (and_then x.as_str (or_else (x.get "name" item) (x.get "tool" item))))
          (value_at x "arguments" item)
        ∷ []
      else if is_reasoning item_type
      then AgentEvent.thought item_id (reasoning_text item) ∷ []
      else []

  unfoldable pub item_completed : x.Value → List (AgentEvent x)
  unfolding reasoning_text item_duration shown_result
  item_completed item =
      let item_type = text_at x "type" item in
      let item_id = text_at x "id" item in
      if is_reasoning item_type
      then (let text = reasoning_text item in
          if text == "" then [] else AgentEvent.thought item_id text ∷ [])
      else if is_command item_type
      then AgentEvent.tool_call_end item_id
          (unwrap_or ""
            (and_then x.as_str (or_else (x.get "output" item) (x.get "aggregated_output" item))))
          (text_at x "status" item == "failed") (item_duration x item)
        ∷ []
      else if is_tool item_type
      then AgentEvent.tool_call_end item_id (shown_result x (x.get "result" item)) false
          (item_duration x item)
        ∷ []
      else []

  unfoldable pub token_count : x.Value → List (AgentEvent x)
  token_count msg =
      if unwrap_or 0 (u64_at x "total_tokens" msg) =ℕ 0
      then []
      else AgentEvent.usage (record (no_usage x) {
        input_tokens = unwrap_or 0 (u64_at x "input_tokens" msg);
        output_tokens = unwrap_or 0 (u64_at x "output_tokens" msg);
      })
        ∷ []

  -- The `match kind`
  unfoldable pub codex_event_kind : String → x.Value → ReaderCtx x → Answer
  unfolding session_configured reasoning_delta message_delta item_started item_completed token_count
  codex_event_kind kind msg c =
      if kind == "session_configured"
      then session_configured (str_at x "thread_id" msg) c
      else if kind == "agent_reasoning_delta" || kind == "agent_reasoning_content_delta"
      then (reasoning_delta msg, c)
      else if kind == "agent_message_content_delta"
      then message_delta msg c
      else if kind == "item_started"
      then (item_started (value_at x "item" msg), c)
      else if kind == "item_completed"
      then (item_completed (value_at x "item" msg), c)
      else if kind == "token_count"
      then (token_count msg, c)
      else ([], c)

  unfoldable pub handle_codex_event : x.Value → ReaderCtx x → Answer
  unfolding codex_event_kind
  handle_codex_event params c =
      let msg = value_at x "msg" params in codex_event_kind (text_at x "type" msg) msg c

  -- A response, a request of the server, which is passed over, or a notification
  unfoldable pub process_frame : x.Value → ReaderCtx x → Answer
  unfolding handle_response handle_codex_event
  process_frame frame c =
      if is_some (x.get "id" frame) && not (is_some (x.get "method" frame))
      then handle_response frame c
      else if is_some (x.get "id" frame)
      then ([], c)
      else if text_at x "method" frame == "codex/event"
      then handle_codex_event (value_at x "params" frame) c
      else ([], c)

  -- The events are forwarded after those of `log`.
  abbrev pub forward : List (AgentEvent x) → Answer → ReaderCtx x
  forward log (es, c) = record c { log = log ++ es }

  -- A line that is blank or no JSON is passed over.
  unfoldable pub on_line : Option x.Value → ReaderCtx x → ReaderCtx x
  unfolding process_frame
  on_line none c = c
  on_line (some frame) c = forward c.log (process_frame frame c)

  unfoldable pub on_lines : List String → ReaderCtx x → ReaderCtx x
  unfolding on_line
  on_lines [] c = c
  on_lines (line ∷ lines) c = on_lines lines (on_line (x.from_str line) c)

  -- The end of the output, after these lines
  unfoldable pub reader_task : List String → ReaderCtx x → ReaderCtx x
  unfolding on_lines
  reader_task lines c = record (on_lines lines c) { exited = true }

  abbrev pub new_ctx : Option String → ReaderCtx x
  new_ctx model = record {
    thread_id = none;
    pending = [];
    streamed_this_turn = false;
    ready_emitted = false;
    model = model;
    exited = false;
    handed = [];
    log = [];
  }
