-- ===== src/Core.antt =====
-- crates/cap-rs/src/core.rs: the protocol's frames and events, which the session actors and the
-- executor exchange. Serde attributes are not modelled: no module here serialises them.
-- `Duration` is a number of nanoseconds, `PathBuf` a text, `Arc<[u8]>` a list of bytes.
use cap_protocol.Prelude.{ℕ, ℤ, String, Bool, Option, List}

-- What the crates take from elsewhere. `serde_json`: the type `Value` with `get`, the `as_*`
-- accessors, the text of a number, the entries of an object in the order of its map, `from_str` and `to_string`, and the
-- values that `json!` builds. `f64` with the sum and the comparison that the budget uses.
pub record Foreign : Type 1 where
  pub Value : Type 0
  pub null : Value
  pub string : String → Value
  pub object : List (String × Value) → Value
  pub array : List Value → Value
  pub get : String → Value → Option Value
  pub as_str : Value → Option String
  pub as_bool : Value → Option Bool
  pub as_array : Value → Option (List Value)
  pub as_object : Value → Option (List (String × Value))
  pub from_str : String → Option Value
  pub to_string : Value → String
  pub F64 : Type 0
  pub integer : ℤ → Value
  pub boolean : Bool → Value
  pub as_i64 : Value → Option ℤ
  pub as_number : Value → Option String
  pub as_u64 : Value → Option ℕ
  pub as_f64 : Value → Option F64
  pub zero : F64
  pub add : F64 → F64 → F64
  pub gt : F64 → F64 → Bool

-- `CAP_PROTOCOL_VERSION`
abbrev pub cap_protocol_version : String
cap_protocol_version = "cap-protocol/v1"

pub data CancelScope : Type 0 where
  current_turn session : CancelScope

pub data PermissionMode : Type 0 where
  none confirm interactive : PermissionMode

pub record SessionConfig (x : Foreign) : Type 0 where
  pub cwd : String
  pub model : Option String
  pub system_prompt : Option String
  pub max_turns : Option ℕ
  pub budget_usd : Option x.F64
  pub permission_mode : PermissionMode
  pub session_resume_id : Option String
  pub profile_config : List (String × x.Value)

-- `SessionConfig::new`: every field but `cwd` is the default; the default mode is `Confirm`.
unfoldable pub new_session_config : {x : Foreign} → String → SessionConfig x
new_session_config cwd = record {
  cwd = cwd;
  model = Option.none;
  system_prompt = Option.none;
  max_turns = Option.none;
  budget_usd = Option.none;
  permission_mode = PermissionMode.confirm;
  session_resume_id = Option.none;
  profile_config = List.[];
}

pub data Content : Type 0 where
  text : String → Content
  image : (mime : String) (bytes : List ℕ) → Content

pub data PermissionDecision : Type 0 where
  allow_once allow_always deny : PermissionDecision

pub data ReverseRpcResult : Type 0 where
  success : Bool → ReverseRpcResult
  text_result : String → ReverseRpcResult

pub data ClientFrame (x : Foreign) : Type 0 where
  session_config : SessionConfig x → ClientFrame x
  prompt : List Content → ClientFrame x
  ask_user_answer : (ask_id : String) (value : x.Value) → ClientFrame x
  permission_response : (req_id : String) (decision : PermissionDecision) → ClientFrame x
  cancel : (scope : CancelScope) (reason : Option String) → ClientFrame x
  reverse_rpc_result : (rpc_id : String) (result : ReverseRpcResult) → ClientFrame x

pub data TextChannel : Type 0 where
  assistant thought system : TextChannel

pub data NotificationLevel : Type 0 where
  info warn error : NotificationLevel

pub data ReverseRpc : Type 0 where
  user_io_show : (title body : String) (level : NotificationLevel) → ReverseRpc
  user_io_input : (prompt : String) (fallback : Option String) → ReverseRpc
  notify : (title body : String) (urgent : Bool) → ReverseRpc

pub data PlanStatus : Type 0 where
  pending in_progress completed cancelled blocked : PlanStatus

pub data PlanPriority : Type 0 where
  urgent high medium low : PlanPriority

pub record PlanEntry (x : Foreign) : Type 0 where
  pub id : String
  pub content : String
  pub status : PlanStatus
  pub priority : Option PlanPriority
  pub meta : Option (List (String × x.Value))

pub data AskKind (x : Foreign) : Type 0 where
  yes_no options free_text : AskKind x
  schema : x.Value → AskKind x

pub record AskOption : Type 0 where
  pub id : String
  pub label : String

pub data PermissionScope : Type 0 where
  read write execute network : PermissionScope

pub data RiskLevel : Type 0 where
  low medium high : RiskLevel

pub data StopReason : Type 0 where
  end_turn max_tokens tool_use stop_sequence cancelled error : StopReason

pub record Usage (x : Foreign) : Type 0 where
  pub input_tokens : ℕ
  pub output_tokens : ℕ
  pub cache_read_tokens : ℕ
  pub cache_creation_tokens : ℕ
  pub thinking_tokens : ℕ
  pub cost_usd_estimate : Option x.F64
  pub duration : Option ℕ
  pub model_id : Option String
  pub stop_reason : Option StopReason

-- `Usage::default()`
abbrev pub no_usage : (x : Foreign) → Usage x
no_usage x = record {
  input_tokens = 0;
  output_tokens = 0;
  cache_read_tokens = 0;
  cache_creation_tokens = 0;
  thinking_tokens = 0;
  cost_usd_estimate = Option.none;
  duration = Option.none;
  model_id = Option.none;
  stop_reason = Option.none;
}

pub data AgentEvent (x : Foreign) : Type 0 where
  ready : (session_id : Option String) (version : String) (model : Option String) → AgentEvent x
  text_chunk : (msg_id text : String) (channel : TextChannel) → AgentEvent x
  thought : (msg_id text : String) → AgentEvent x
  tool_call_start : (call_id name : String) (input : x.Value) → AgentEvent x
  tool_call_delta : (call_id output_chunk : String) → AgentEvent x
  tool_call_end : (call_id output : String) (is_error : Bool) (duration : Option ℕ) → AgentEvent x
  plan : List (PlanEntry x) → AgentEvent x
  ask_user :
      (ask_id prompt : String) (ask_kind : AskKind x) (options : List AskOption)
      (timeout_seconds : Option ℕ)
      → AgentEvent x
  permission_request :
      (req_id tool : String) (intent : x.Value) (scope : PermissionScope) (risk_level : RiskLevel)
      → AgentEvent x
  usage : Usage x → AgentEvent x
  done : (stop_reason : StopReason) (usage : Usage x) → AgentEvent x
  error : (code message : String) (retryable : Bool) (details : Option x.Value) → AgentEvent x
  pty_raw_bytes : List ℕ → AgentEvent x
  reverse_rpc : (rpc_id : String) (rpc : ReverseRpc) → AgentEvent x
