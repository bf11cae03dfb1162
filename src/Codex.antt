-- ===== src/Codex.antt =====
-- crates/cap-rs/src/driver/codex.rs: what the frames of `codex exec --json` mean. `last_text_for` is an
-- association list. The lock around the thread id is taken for a single store.
pub mod Reader
pub mod Exec
mod Release
mod Views
mod Pieces
mod Examples
use cap_protocol.Prelude.{
  ℕ, ◌+◌, String, false, ◌&&◌, ◌||◌, Option, none, some, List, [], ◌∷◌, ◌==◌, strip_prefix, lookup,
  put, show_nat, if◌then◌else◌,
}
use Prim.Native.String.{◌++◌ as append}
use cap_protocol.Core.{
  Foreign, StopReason, Usage, AgentEvent, TextChannel, no_usage, cap_protocol_version, PlanEntry,
  PlanStatus,
}
use cap_protocol.Json.{unwrap_or, or_else, and_then, str_at, array_at, u64_at, value_at, text_at}
use cap_protocol.StreamJson.{from_millis}

-- `map.remove(k)`
unfoldable pub remove : String → List (String × String) → List (String × String)
remove k [] = []
remove k ((j, v) ∷ m) = let rest = remove k m in if j == k then rest else (j, v) ∷ rest

-- `text[prev.len()..]` where the text starts with `prev`, or else the whole text
unfoldable pub delta_of : String → String → String
unfolding strip_prefix
delta_of prev text = unwrap_or text (strip_prefix text prev)

module _ (x : Foreign) where
  unfoldable pub parse_codex_usage : Option x.Value → Usage x
  parse_codex_usage usage =
      let u = unwrap_or x.null usage in
      record {
        input_tokens = unwrap_or 0 (u64_at x "input_tokens" u);
        output_tokens = unwrap_or 0 (u64_at x "output_tokens" u);
        cache_read_tokens = unwrap_or 0 (u64_at x "cached_input_tokens" u);
        cache_creation_tokens = 0;
        thinking_tokens = unwrap_or 0 (u64_at x "reasoning_output_tokens" u);
        cost_usd_estimate = none;
        duration = none;
        model_id = none;
        stop_reason = some StopReason.end_turn;
      }

  -- The `match` on the status
  unfoldable pub todo_status : Option String → PlanStatus
  todo_status none = PlanStatus.pending
  todo_status (some s) =
      if s == "pending" || s == "todo"
      then PlanStatus.pending
      else if s == "in_progress" || s == "active"
      then PlanStatus.in_progress
      else if s == "completed" || s == "done"
      then PlanStatus.completed
      else if s == "cancelled"
      then PlanStatus.cancelled
      else PlanStatus.blocked

  unfoldable pub codex_todo_to_plan_entry : ℕ → x.Value → PlanEntry x
  unfolding todo_status show_nat
  codex_todo_to_plan_entry idx entry = record {
    id = unwrap_or (append "t" (show_nat idx)) (str_at x "id" entry);
    content =
        unwrap_or "" (and_then x.as_str (or_else (x.get "text" entry) (x.get "content" entry)));
    status = todo_status (str_at x "status" entry);
    priority = none;
    meta = none;
  }

  -- `enumerate().map(…)`
  unfoldable pub todo_entries : ℕ → List x.Value → List (PlanEntry x)
  unfolding codex_todo_to_plan_entry
  todo_entries idx [] = []
  todo_entries idx (e ∷ es) = codex_todo_to_plan_entry idx e ∷ todo_entries (idx + 1) es

  abbrev pub plan_event : List (PlanEntry x) → List (AgentEvent x)
  plan_event [] = []
  plan_event (e ∷ es) = AgentEvent.plan (e ∷ es) ∷ []

  -- `item.get("duration_ms").or_else(|| item.get("durationMs"))`
  unfoldable pub item_duration : x.Value → Option ℕ
  item_duration item =
      from_millis (and_then x.as_u64 (or_else (x.get "duration_ms" item) (x.get "durationMs" item)))

  -- A text, or else the JSON of the value; nothing if there is none
  unfoldable pub shown_result : Option x.Value → String
  shown_result none = ""
  shown_result (some v) = unwrap_or (x.to_string v) (x.as_str v)

  -- The arms of the items that carry a growing text, given the event of a piece. The map is left as it is
  -- after the insertion when there is nothing new, since the function returns there.
  unfoldable pub text_item :
      Option String
      → String
      → String
      → (String → AgentEvent x)
      → List (String × String)
      → List (AgentEvent x) × List (String × String)
  unfolding delta_of remove lookup put
  text_item cleanup_id item_id text event m =
      let delta = delta_of (unwrap_or "" (lookup item_id m)) text in
      let kept = put item_id text m in
      if delta == ""
      then ([], kept)
      else (event delta ∷ [], elim cleanup_id [ none ↦ kept | some id ↦ remove id kept ])

  unfoldable pub command_item : String → String → x.Value → List (AgentEvent x)
  unfolding item_duration
  command_item kind item_id item =
      if kind == "item.started"
      then AgentEvent.tool_call_start item_id "Bash" (value_at x "command" item) ∷ []
      else if kind == "item.completed"
      then (let status = text_at x "status" item in
          AgentEvent.tool_call_end item_id (text_at x "output" item)
            (status == "failed" || status == "error" || status == "cancelled") (item_duration item)
          ∷ [])
      else []

  unfoldable pub tool_item : String → String → String → x.Value → List (AgentEvent x)
  unfolding item_duration shown_result
  tool_item kind item_type item_id item =
      if kind == "item.started"
      then AgentEvent.tool_call_start item_id (unwrap_or item_type (str_at x "name" item))
          (value_at x "arguments" item)
        ∷ []
      else if kind == "item.completed"
      then AgentEvent.tool_call_end item_id (shown_result (x.get "result" item)) false
          (item_duration item)
        ∷ []
      else []

  -- `cleanup_id`
  abbrev pub cleanup_of : String → String → String → Option String
  cleanup_of kind item_type item_id =
      if kind == "item.completed" && (item_type == "agent_message" || item_type == "reasoning")
      then some item_id
      else none

  -- The `match item_type`
  unfoldable pub on_item :
      String
      → String
      → String
      → x.Value
      → List (String × String)
      → List (AgentEvent x) × List (String × String)
  unfolding text_item command_item tool_item todo_entries
  on_item kind item_type item_id item m =
      let cleanup_id = cleanup_of kind item_type item_id in
      if item_type == "agent_message"
      then text_item cleanup_id item_id (text_at x "text" item)
          (λ delta. AgentEvent.text_chunk item_id delta TextChannel.assistant) m
      else if item_type == "reasoning"
      then text_item cleanup_id item_id (text_at x "text" item) (AgentEvent.thought item_id) m
      else if item_type == "command_execution"
      then (command_item kind item_id item, m)
      else if item_type == "mcp_tool_call" || item_type == "collab_tool_call"
      then (tool_item kind item_type item_id item, m)
      else if item_type == "todo_list"
      then (plan_event (todo_entries 0 (unwrap_or [] (array_at x "items" item))), m)
      else if item_type == "error"
      then (AgentEvent.error "codex_item_error" (text_at x "message" item) false none ∷ [], m)
      else ([], m)

  -- The frames that carry an item, or not
  unfoldable pub item_frame :
      String
      → Option x.Value
      → List (String × String)
      → List (AgentEvent x) × List (String × String)
  unfolding on_item
  item_frame kind none m = ([], m)
  item_frame kind (some item) m = on_item kind (text_at x "type" item) (text_at x "id" item) item m

  -- What `parse_codex_frame` reads and writes beside the frame
  pub record Memory : Type 0 where
    pub last_text_for : List (String × String)
    pub thread_id : Option String

  abbrev with_texts :
      Memory → List (AgentEvent x) × List (String × String) → List (AgentEvent x) × Memory
  with_texts s (es, m) = (es, record s { last_text_for = m })

  unfoldable pub on_kind : String → x.Value → Memory → List (AgentEvent x) × Memory
  unfolding parse_codex_usage item_frame
  on_kind kind frame s =
      if kind == "thread.started"
      then (let tid = text_at x "thread_id" frame in
          (
            AgentEvent.ready (some tid) cap_protocol_version none ∷ [],
            record s { thread_id = some tid },
          ))
      else if kind == "turn.started"
      then ([], s)
      else if kind == "turn.completed"
      then (AgentEvent.done StopReason.end_turn (parse_codex_usage (x.get "usage" frame)) ∷ [], s)
      else if kind == "turn.failed"
      then (
        AgentEvent.error "codex_turn_failed"
              (unwrap_or "unknown" (and_then (str_at x "message") (x.get "error" frame))) false none
            ∷ AgentEvent.done StopReason.error (no_usage x)
            ∷ [],
        s,
      )
      else if kind == "error"
      then (AgentEvent.error "codex_error" (text_at x "message" frame) false none ∷ [], s)
      else if kind == "item.started" || kind == "item.updated" || kind == "item.completed"
      then with_texts s (item_frame kind (x.get "item" frame) s.last_text_for)
      else ([], s)

  unfoldable pub parse_codex_frame : x.Value → Memory → List (AgentEvent x) × Memory
  unfolding on_kind
  parse_codex_frame frame s = on_kind (text_at x "type" frame) frame s
