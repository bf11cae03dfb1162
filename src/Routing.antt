-- ===== src/Routing.antt =====
-- crates/cap-rs-orchestrator/src/routing.rs: what a strategy sees and what it decides.
pub mod Static
mod Targets
mod Subtasks
pub mod Llm
mod Vetted
mod Hybrid
pub mod Prompt
mod Cuts
mod Summaries
mod Examples
use cap_protocol.Prelude.{String, List}
use cap_protocol.Core.{Foreign}
use cap_protocol.Config.{SessionId, DriverKind, PermissionPolicy, Fleet}

pub record RoutingContext (x : Foreign) : Type 0 where
  pub spec : Fleet x
  pub done : List SessionId
  pub failed : List SessionId
  pub spawned : List SessionId
  pub buffers : List (SessionId × String)
  pub task : String

pub data RouteDecision : Type 0 where
  route : (target : SessionId) (payload : String) → RouteDecision
  dynamic_route :
      (target : SessionId) (payload : String) (driver : DriverKind) (permissions : PermissionPolicy)
      → RouteDecision
  fan_out : List (SessionId × String) → RouteDecision
  select : (candidates : List SessionId) → RouteDecision
  error : String → RouteDecision
  none : RouteDecision
