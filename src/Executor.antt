-- ===== src/Executor.antt =====
-- crates/cap-rs-orchestrator/src/executor.rs: the state machine that owns the registry and the audit
-- log. Each async method is a function on the state `Run`; what it sends to the consumer is added
-- to `out`. The HashSets are lists of keys.
pub mod Loop
pub mod Extends
pub mod Completion
pub mod Follows
pub mod Reports
pub mod Tracked
pub mod Steps
pub mod Leaks
pub mod Pending
pub mod Kept
pub mod Budget
mod Examples
use cap_protocol.Prelude.{
  ℕ, String, Bool, true, false, not, ◌&&◌, ◌||◌, Option, none, some, List, [], ◌∷◌, ◌++◌, Result,
  ok, err, lookup, put, contains, insert_key, remove_key, all, if◌then◌else◌,
}
use cap_protocol.Core.{Foreign, ClientFrame, Content, PermissionDecision, StopReason}
use cap_protocol.Config.{
  SessionId, SessionSpec, DriverKind, PermissionPolicy, Fleet, OrchestratorError, config,
  session_not_found,
}
use cap_protocol.Config.Drivers.{driver_kind}
use cap_protocol.Config.Drivers.Hosts.{Url}
use cap_protocol.Event.{OrchestratorEvent, OrchestratorControl, Failure}
use cap_protocol.Audit.{AuditLog, record_route}
use cap_protocol.Registry.{
  Platform, SpawnConfig, default_spawn, Registry, is_live, spawn_with_mode, shutdown,
  cleanup_worktree,
}
use cap_protocol.Registry
use cap_protocol.Routing.{RoutingContext, RouteDecision}

-- What `start_with_mode` fixes for a run. The strategy may consult the world (a model, say).
-- `from_manifest` is `driver_kind_from_manifest`, which reads the file at a path, and `parse_url` the
-- url crate's `Url::parse`.
pub record Setup (x : Foreign) (p : Platform) : Type 0 where
  pub spec : Fleet x
  pub task : String
  pub chat_mode : Bool
  pub parse_url : String → Option Url
  pub from_manifest : String → Option DriverKind
  pub strategy : RoutingContext x → SessionId → StopReason → p.World → List RouteDecision × p.World

pub record Run (x : Foreign) (p : Platform) : Type 0 where
  pub registry : Registry x p
  pub audit : AuditLog
  pub done : List SessionId
  pub spawned : List SessionId
  pub failed : List SessionId
  pub usage_cost_usd : x.F64
  pub buffers : List (SessionId × String)
  pub out : List (OrchestratorEvent x)
  pub cancelled : Bool

-- `task_prompt`
abbrev pub task_prompt : {x : Foreign} → String → ClientFrame x
task_prompt task = ClientFrame.prompt (Content.text task ∷ [])

-- The local `enum Fire`.
pub data Fire (x : Foreign) : Type 0 where
  route : SessionId → ClientFrame x → Fire x
  dynamic : SessionId → ClientFrame x → DriverKind → PermissionPolicy → Fire x
  select : List SessionId → Fire x

-- The loop over the decisions: what to fire, in order, and `routing_failed`.
unfoldable pub fan_fires : {x : Foreign} → List (SessionId × String) → List (Fire x) → List (Fire x)
fan_fires [] rest = rest
fan_fires ((target, payload) ∷ targets) rest =
    Fire.route target (task_prompt payload) ∷ fan_fires targets rest

unfoldable pub collect_fires : {x : Foreign} → List RouteDecision → List (Fire x)
unfolding fan_fires
collect_fires [] = []
collect_fires (RouteDecision.route target payload ∷ ds) =
    Fire.route target (task_prompt payload) ∷ collect_fires ds
collect_fires (RouteDecision.dynamic_route target payload driver permissions ∷ ds) =
    Fire.dynamic target (task_prompt payload) driver permissions ∷ collect_fires ds
collect_fires (RouteDecision.fan_out targets ∷ ds) = fan_fires targets (collect_fires ds)
collect_fires (RouteDecision.select candidates ∷ ds) = Fire.select candidates ∷ collect_fires ds
collect_fires (RouteDecision.error _ ∷ ds) = collect_fires ds
collect_fires (RouteDecision.none ∷ ds) = collect_fires ds

abbrev pub is_error : RouteDecision → Bool
is_error (RouteDecision.error _) = true
is_error _ = false

unfoldable pub routing_failed : List RouteDecision → Bool
routing_failed [] = false
routing_failed (d ∷ ds) = is_error d || routing_failed ds

module _ {x : Foreign} {p : Platform} where
  -- `self.out.send(event)`
  abbrev pub send : OrchestratorEvent x → Run x p → Run x p
  send e s = record s { out = s.out ++ e ∷ [] }

  -- `self.registry.route(…)`, whose result the executor drops
  unfoldable pub deliver : SessionId → ClientFrame x → Run x p → Run x p
  unfolding Registry.route
  deliver to frame s = record s { registry = (Registry.route to frame s.registry).1 }

  -- `record_route`, at the time that the world shows
  unfoldable pub audit_route : SessionId → SessionId → Run x p → Run x p
  unfolding record_route
  audit_route from to s = record s { audit = record_route (p.now s.registry.world) from to s.audit }

  -- What a `Route` and a `Dynamic` do once the target is live: audit, `Routed`, and the frame.
  unfoldable pub forward : SessionId → SessionId → ClientFrame x → Run x p → Run x p
  unfolding audit_route deliver
  forward from to frame s =
      deliver to frame (send (OrchestratorEvent.routed from to) (audit_route from to s))

  -- `if !is_live(to) && !spawn(to) { continue; }` and what follows it
  unfoldable pub forward_live :
      Bool → (Run x p → Bool × Run x p) → SessionId → SessionId → ClientFrame x → Run x p → Run x p
  forward_live live spawn_it from to frame s =
      if live
      then forward from to frame s
      else let (spawned, s') = spawn_it s in if spawned then forward from to frame s' else s'

  -- `fleet_complete`: each spawned session is done or failed.
  unfoldable pub fleet_complete : Run x p → Bool
  fleet_complete s = all (λ id. contains s.done id || contains s.failed id) s.spawned

module _ {x : Foreign} {p : Platform} (setup : Setup x p) where
  unfoldable pub policy_for : SessionId → Result OrchestratorError PermissionPolicy
  policy_for id = elim (lookup id setup.spec.sessions) [
    | none ↦ err (config (session_not_found id))
    | some s ↦ elim s.permissions [ none ↦ ok setup.spec.permissions | some policy ↦ ok policy ]
  ]

  -- The `spawn_cfg` of `do_spawn`
  unfoldable pub spawn_config : SessionId → SpawnConfig x
  spawn_config id = elim (lookup id setup.spec.sessions) [
    | none ↦ default_spawn
    | some s ↦ record {
      model = s.model;
      system_prompt = s.system_prompt;
      max_turns = s.max_turns;
      budget_usd = setup.spec.budget_usd;
    }
  ]

  -- The `match spawn_result`
  unfoldable pub settle_spawn :
      SessionId → Result OrchestratorError (Unit {0}) → Run x p → Bool × Run x p
  settle_spawn id (ok _) s = (true, record s { spawned = insert_key id s.spawned })
  settle_spawn id (err e) s =
      (false, send (OrchestratorEvent.session_failed id (Failure.spawning e)) s)

  unfoldable pub do_spawn : SessionId → DriverKind → PermissionPolicy → Run x p → Bool × Run x p
  unfolding spawn_config settle_spawn
  do_spawn id kind policy s =
      let (result, r) =
        spawn_with_mode id kind policy setup.spec.base_branch setup.chat_mode (spawn_config id)
          s.registry in
      settle_spawn id result (record s { registry = r })

  -- `spawn` after the driver and the policy were looked up
  unfoldable pub spawn_configured :
      SessionId
      → Option DriverKind
      → Result OrchestratorError PermissionPolicy
      → Run x p
      → Bool × Run x p
  unfolding do_spawn
  spawn_configured id none policy s =
      (false, send (OrchestratorEvent.session_failed id (Failure.unconfigured id)) s)
  spawn_configured id (some kind) (err e) s =
      (false, send (OrchestratorEvent.session_failed id (Failure.spawning e)) s)
  spawn_configured id (some kind) (ok policy) s = do_spawn id kind policy s

  -- `self.spec.sessions.get(&id)`
  unfoldable pub spawn_found : SessionId → Option SessionSpec → Run x p → Bool × Run x p
  unfolding policy_for spawn_configured
  spawn_found id none s = (false, s)
  spawn_found id (some spec) s =
      spawn_configured id (driver_kind setup.parse_url setup.from_manifest spec) (policy_for id) s

  unfoldable pub spawn : SessionId → Run x p → Bool × Run x p
  unfolding spawn_found
  spawn id s = spawn_found id (lookup id setup.spec.sessions) s

  unfoldable pub fire_one : SessionId → Fire x → Run x p → Run x p
  unfolding forward_live
  fire_one from (Fire.route to frame) s =
      forward_live (is_live to s.registry) (spawn to) from to frame s
  fire_one from (Fire.dynamic id frame kind permissions) s =
      forward_live (is_live id s.registry) (do_spawn id kind permissions) from id frame s
  fire_one from (Fire.select candidates) s = send (OrchestratorEvent.await_selection candidates) s

  unfoldable pub fire_all : SessionId → List (Fire x) → Run x p → Run x p
  unfolding fire_one
  fire_all from [] s = s
  fire_all from (f ∷ fs) s = fire_all from fs (fire_one from f s)

  unfoldable pub context_of : Run x p → RoutingContext x
  context_of s = record {
    spec = setup.spec;
    done = s.done;
    failed = s.failed;
    spawned = s.spawned;
    buffers = s.buffers;
    task = setup.task;
  }

  -- The outcome that is sent before the routes fire.
  unfoldable pub announce : SessionId → StopReason → Bool → Run x p → Run x p
  announce from stop true s =
      send (OrchestratorEvent.session_failed from Failure.bad_subtasks)
        (record s { done = remove_key from s.done; failed = insert_key from s.failed })
  announce from stop false s = send (OrchestratorEvent.session_done from stop) s

  unfoldable pub on_session_done : SessionId → StopReason → Run x p → Bool × Run x p
  unfolding announce fire_all context_of collect_fires routing_failed
  on_session_done session stop s =
      let marked = record s { done = insert_key session s.done } in
      let (decisions, w) = setup.strategy (context_of marked) session stop s.registry.world in
      let asked = record marked { registry = record s.registry { world = w } } in
      let fired =
        fire_all session (collect_fires decisions)
          (announce session stop (routing_failed decisions) asked) in
      (fleet_complete fired, fired)

  -- `on_control`
  unfoldable pub on_control : OrchestratorControl x → Run x p → Run x p
  unfolding deliver
  on_control (OrchestratorControl.decision session req_id allow) s =
      deliver session
        (ClientFrame.permission_response req_id
          (if allow then PermissionDecision.allow_once else PermissionDecision.deny))
        s
  on_control (OrchestratorControl.ask_user_response session ask_id value) s =
      deliver session (ClientFrame.ask_user_answer ask_id value) s
  on_control OrchestratorControl.cancel s = record s { cancelled = true }
  on_control (OrchestratorControl.reverse_rpc_result session rpc_id result) s =
      deliver session (ClientFrame.reverse_rpc_result rpc_id result) s
  on_control (OrchestratorControl.select session) s = s
  on_control (OrchestratorControl.user_message session text) s =
      deliver session (ClientFrame.prompt (Content.text text ∷ [])) s
