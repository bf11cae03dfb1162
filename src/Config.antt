-- ===== src/Config.antt =====
-- crates/cap-rs-orchestrator/src/config.rs: the `fleet.yaml` schema and its validation.
-- YAML parsing (serde) is not modelled: a `Fleet` is what `from_yaml` returns.
pub mod Names
pub mod Routes
pub mod Drivers
pub mod Manifest
mod Trimmed
mod Agents
mod Chosen
pub mod Cycles
pub mod Validate
pub mod Examples
use cap_protocol.Prelude.{ℕ, String, Bool, Option, none, some, List, [], ◌∷◌}
use cap_protocol.Core.{Foreign}

abbrev pub SessionId : Type 0
SessionId = String

pub data RoutingMode : Type 0 where
  static llm hybrid : RoutingMode

pub record LlmConfig : Type 0 where
  pub command : Option (List String)
  pub system_prompt : Option String
  pub timeout_secs : Option ℕ
  pub max_decisions : Option ℕ
  pub max_context_chars : Option ℕ

pub data PermissionPolicy : Type 0 where
  ask allow deny bypass : PermissionPolicy

pub data DriverKind : Type 0 where
  claude open_claude codex open_code qoder rscode codebuddy aider : DriverKind
  acp a2a grpc pty : String → DriverKind

pub record SessionSpec : Type 0 where
  pub driver : Option DriverKind
  pub agent : Option String
  pub manifest : Option String
  pub permissions : Option PermissionPolicy
  pub role : Option String
  pub model : Option String
  pub system_prompt : Option String
  pub max_turns : Option ℕ

pub data Start : Type 0 where
  one : SessionId → Start
  many : List SessionId → Start

unfoldable pub start_sessions : Start → List SessionId
start_sessions (one s) = s ∷ []
start_sessions (many v) = v

pub data Trigger : Type 0 where
  single : String → Trigger
  joined : List String → Trigger

pub data Split : Type 0 where
  broadcast by_subtask : Split

pub data Collect : Type 0 where
  human : Collect

pub record FanOut : Type 0 where
  pub to : List SessionId
  pub split : Split

pub record Route : Type 0 where
  pub trigger : Trigger
  pub route_to : Option SessionId
  pub fan_out : Option FanOut
  pub collect : Option Collect

pub data Action : Type 0 where
  route_to : SessionId → Action
  fan_out : FanOut → Action
  collect : Collect → Action

-- A `BTreeMap` of sessions is the list of its entries.
pub record Fleet (x : Foreign) : Type 0 where
  pub base_branch : String
  pub task : Option String
  pub permissions : PermissionPolicy
  pub budget_usd : Option x.F64
  pub mode : RoutingMode
  pub llm : Option LlmConfig
  pub sessions : List (SessionId × SessionSpec)
  pub start : Start
  pub routes : List Route

-- The messages of `OrchestratorError::Config`, one constructor for each place that makes one, with
-- the values that the message shows. `crashed` is no message: it marks a panic of the cycle search,
-- or the end of its fuel.
pub data ConfigError : Type 0 where
  too_many_sessions : ℕ → ConfigError
  bad_base_branch bad_session_id bad_agent_name bad_manifest_path : String → ConfigError
  not_one_driver : SessionId → ConfigError
  unknown_session : (what : String) (id : SessionId) → ConfigError
  empty_trigger empty_fan_out subtask_join no_action : ConfigError
  not_done_token : String → ConfigError
  not_one_action : List SessionId → ℕ → ConfigError
  route_cycle : List SessionId → ConfigError
  bad_worktree_name : String → ConfigError
  no_such_session inbox_closed session_not_found : SessionId → ConfigError
  crashed : ConfigError

pub data OrchestratorError : Type 0 where
  config : ConfigError → OrchestratorError
  worktree : String → OrchestratorError
  driver : String → OrchestratorError
