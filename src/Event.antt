-- ===== src/Event.antt =====
-- crates/cap-rs-orchestrator/src/event.rs: what crosses the boundary between engine and consumer.
use cap_protocol.Prelude.{String, Bool, List}
use cap_protocol.Core.{
  Foreign, AgentEvent, AskKind, AskOption, ReverseRpc, ReverseRpcResult, RiskLevel, StopReason,
}
use cap_protocol.Config.{SessionId, OrchestratorError}

-- The texts of `SessionFailed`, one constructor for each place that makes one.
pub data Failure (x : Foreign) : Type 0 where
  text : String → Failure x
  unconfigured : SessionId → Failure x
  spawning : OrchestratorError → Failure x
  over_budget : (cost limit : x.F64) → Failure x
  bad_subtasks : Failure x

pub data OrchestratorEvent (x : Foreign) : Type 0 where
  session_started : SessionId → OrchestratorEvent x
  agent : (session : SessionId) (event : AgentEvent x) → OrchestratorEvent x
  ask : (session : SessionId) (req_id tool : String) (risk_level : RiskLevel) → OrchestratorEvent x
  ask_user :
      (session : SessionId) (ask_id prompt : String) (ask_kind : AskKind x)
      (options : List AskOption)
      → OrchestratorEvent x
  reverse_rpc : (session : SessionId) (rpc_id : String) (rpc : ReverseRpc) → OrchestratorEvent x
  routed : (from to : SessionId) → OrchestratorEvent x
  session_done : (session : SessionId) (stop_reason : StopReason) → OrchestratorEvent x
  session_failed : (session : SessionId) (error : Failure x) → OrchestratorEvent x
  await_selection : List SessionId → OrchestratorEvent x
  fleet_complete : OrchestratorEvent x

pub data OrchestratorControl (x : Foreign) : Type 0 where
  decision : (session : SessionId) (req_id : String) (allow : Bool) → OrchestratorControl x
  ask_user_response :
      (session : SessionId) (ask_id : String) (value : x.Value) → OrchestratorControl x
  reverse_rpc_result :
      (session : SessionId) (rpc_id : String) (result : ReverseRpcResult) → OrchestratorControl x
  select : SessionId → OrchestratorControl x
  user_message : (session : SessionId) (text : String) → OrchestratorControl x
  cancel : OrchestratorControl x
