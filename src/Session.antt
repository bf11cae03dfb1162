-- ===== src/Session.antt =====
-- crates/cap-rs-orchestrator/src/session.rs: the actor of one session as a state machine. A signal
-- is what one of its `select!` expressions takes; a phase is the expression that it waits in.
mod Outcome
mod OneTurn
mod Permissions
mod Provenance
mod Grants
mod Examples
use cap_protocol.Prelude.{
  ℕ, String, Bool, true, false, Option, none, some, List, [], ◌∷◌, ◌++◌, length, if◌then◌else◌,
}
use cap_protocol.Core.{
  Foreign, ClientFrame, CancelScope, SessionConfig, PermissionMode, PermissionDecision,
  ReverseRpcResult, AgentEvent, RiskLevel, new_session_config,
}
use cap_protocol.Config.{SessionId, PermissionPolicy}
use cap_protocol.Event.{OrchestratorEvent, Failure}
use cap_protocol.Registry.{SpawnConfig}

pub data Signal (x : Foreign) : Type 0 where
  cancelled inbox_closed exited : Signal x
  received : ClientFrame x → Signal x
  event : AgentEvent x → Signal x

-- `waiting` for the first frame, `booting` until the driver is ready, `pumping` events, `idle` between
-- the turns of a chat, waiting for the consumer's answer to a request, or `stopped`.
pub data Phase (x : Foreign) : Type 0 where
  waiting pumping idle stopped : Phase x
  booting : ClientFrame x → Phase x
  permission rpc asking : String → Phase x

-- What the actor is started with. `refuses` is the result of the driver's `send` after the frames sent
-- so far, and `cancelled` whether the token is cancelled at each call of `bus_send`.
pub record Options (x : Foreign) : Type 0 where
  pub id : SessionId
  pub policy : PermissionPolicy
  pub cwd : String
  pub keep_alive : Bool
  pub spawn_cfg : SpawnConfig x
  pub prompt_after_ready : Bool
  pub refuses : List (ClientFrame x) → ClientFrame x → Option String
  pub cancelled : ℕ → Bool

-- `sent` is what the driver was given, `offered` what `bus_send` was given, and `bus` what it sent.
-- `shut` says whether the driver's `shutdown` was called.
pub record Actor (x : Foreign) : Type 0 where
  pub phase : Phase x
  pub sent : List (ClientFrame x)
  pub offered : List (OrchestratorEvent x)
  pub bus : List (OrchestratorEvent x)
  pub shut : Bool

-- The `match policy` of a permission request; nothing where the consumer is asked.
unfoldable pub decide : PermissionPolicy → RiskLevel → Option PermissionDecision
decide PermissionPolicy.bypass risk = some PermissionDecision.allow_once
decide PermissionPolicy.allow RiskLevel.high = none
decide PermissionPolicy.allow _ = some PermissionDecision.allow_once
decide PermissionPolicy.deny risk = some PermissionDecision.deny
decide PermissionPolicy.ask risk = none

-- `permission_mode`
abbrev pub mode_of : PermissionPolicy → PermissionMode
mode_of PermissionPolicy.ask = PermissionMode.interactive
mode_of PermissionPolicy.allow = PermissionMode.confirm
mode_of PermissionPolicy.bypass = PermissionMode.confirm
mode_of PermissionPolicy.deny = PermissionMode.none

module _ {x : Foreign} where
  -- What the frame taken from the inbox answers to each kind of request.
  abbrev pub permission_of : ClientFrame x → PermissionDecision
  permission_of (ClientFrame.permission_response _ decision) = decision
  permission_of _ = PermissionDecision.deny

  abbrev pub result_of : ClientFrame x → ReverseRpcResult
  result_of (ClientFrame.reverse_rpc_result _ result) = result
  result_of _ = ReverseRpcResult.success false

  abbrev pub value_of : ClientFrame x → x.Value
  value_of (ClientFrame.ask_user_answer _ value) = value
  value_of _ = x.null

  abbrev pub cancel_frame : ClientFrame x
  cancel_frame = ClientFrame.cancel CancelScope.session (some "orchestrator_cancel")

  -- `driver.send(Cancel)`, `driver.shutdown()`, return
  unfoldable pub stop_cancelled : Actor x → Actor x
  stop_cancelled a = record a {
    phase = Phase.stopped;
    sent = a.sent ++ cancel_frame ∷ [];
    shut = true;
  }

  -- `driver.shutdown()`, return
  unfoldable pub hang_up : Actor x → Actor x
  hang_up a = record a { phase = Phase.stopped; shut = true }

  abbrev pub wait_in : Phase x → Actor x → Actor x
  wait_in phase a = record a { phase = phase }

module _ {x : Foreign} (o : Options x) where
  -- `bus_send`
  unfoldable pub bus_send : OrchestratorEvent x → Actor x → Actor x
  bus_send e a = record a {
    offered = a.offered ++ e ∷ [];
    bus = if o.cancelled (length a.offered) then a.bus else a.bus ++ e ∷ [];
  }

  -- `SessionFailed`, return
  unfoldable pub fail : String → Actor x → Actor x
  unfolding bus_send
  fail error a =
      wait_in Phase.stopped
        (bus_send (OrchestratorEvent.session_failed o.id (Failure.text error)) a)

  -- What follows `driver.send`, whose error ends the actor.
  unfoldable pub sent_then : Option String → Phase x → Actor x → Actor x
  unfolding fail
  sent_then none next a = wait_in next a
  sent_then (some error) next a = fail error a

  -- `driver.send(frame)`, and the phase that follows
  unfoldable pub give : Phase x → ClientFrame x → Actor x → Actor x
  unfolding sent_then
  give next frame a =
      sent_then (o.refuses a.sent frame) next (record a { sent = a.sent ++ frame ∷ [] })

  -- The synthesized `SessionConfig`
  unfoldable pub config_frame : ClientFrame x
  unfolding new_session_config
  config_frame = ClientFrame.session_config (record (new_session_config o.cwd) {
    permission_mode = mode_of o.policy;
    model = o.spawn_cfg.model;
    system_prompt = o.spawn_cfg.system_prompt;
    max_turns = o.spawn_cfg.max_turns;
    budget_usd = o.spawn_cfg.budget_usd;
  })

  -- After the config was sent: the first frame now, or when the driver is ready
  unfoldable pub configured : Option String → ClientFrame x → Actor x → Actor x
  unfolding fail give
  configured (some error) first a = fail error a
  configured none first a =
      if o.prompt_after_ready then wait_in (Phase.booting first) a else give Phase.pumping first a

  unfoldable pub first_frame : ClientFrame x → Actor x → Actor x
  unfolding config_frame configured
  first_frame first a =
      configured (o.refuses a.sent config_frame) first
        (record a { sent = a.sent ++ config_frame ∷ [] })

  -- `PumpInput::Inbox(Some(frame))`
  unfoldable pub on_frame : ClientFrame x → Actor x → Actor x
  unfolding give
  on_frame (ClientFrame.session_config _) a = a
  on_frame frame a = give Phase.pumping frame a

  -- The decision on a permission request, or the question to the consumer
  unfoldable pub settle_request :
      Option PermissionDecision → String → String → RiskLevel → Actor x → Actor x
  unfolding give bus_send
  settle_request (some decision) req_id tool risk a =
      give Phase.pumping (ClientFrame.permission_response req_id decision) a
  settle_request none req_id tool risk a =
      wait_in (Phase.permission req_id) (bus_send (OrchestratorEvent.ask o.id req_id tool risk) a)

  -- The `match ev` of `pump_turn`
  unfoldable pub on_event : AgentEvent x → Actor x → Actor x
  unfolding bus_send settle_request decide
  on_event (AgentEvent.done stop usage) a =
      wait_in (if o.keep_alive then Phase.idle else Phase.stopped)
        (bus_send (OrchestratorEvent.session_done o.id stop) a)
  on_event (AgentEvent.permission_request req_id tool intent scope risk) a =
      settle_request (decide o.policy risk) req_id tool risk (
        bus_send
          (OrchestratorEvent.agent o.id
            (AgentEvent.permission_request req_id tool intent scope risk))
          a)
  on_event (AgentEvent.reverse_rpc rpc_id call) a =
      wait_in (Phase.rpc rpc_id) (bus_send (OrchestratorEvent.reverse_rpc o.id rpc_id call) a)
  on_event (AgentEvent.ask_user ask_id prompt kind options timeout) a =
      wait_in (Phase.asking ask_id)
        (bus_send (OrchestratorEvent.ask_user o.id ask_id prompt kind options) a)
  on_event other a = bus_send (OrchestratorEvent.agent o.id other) a

  -- The loop that waits for `Ready`
  unfoldable pub on_boot : ClientFrame x → AgentEvent x → Actor x → Actor x
  unfolding give bus_send
  on_boot first (AgentEvent.ready _ _ _) a = give Phase.pumping first a
  on_boot first other a = bus_send (OrchestratorEvent.agent o.id other) a

  -- One signal in a phase. What the phase does not poll, it does not take.
  unfoldable pub step_in : Phase x → Signal x → Actor x → Actor x
  unfolding stop_cancelled hang_up first_frame on_boot on_frame on_event fail give
  step_in Phase.stopped s a = a
  step_in _ Signal.cancelled a = stop_cancelled a
  step_in Phase.waiting (Signal.received f) a = first_frame f a
  step_in Phase.waiting Signal.inbox_closed a = hang_up a
  step_in (Phase.booting first) (Signal.event e) a = on_boot first e a
  step_in (Phase.booting first) Signal.exited a = fail "driver exited before becoming ready" a
  step_in Phase.pumping (Signal.received f) a = on_frame f a
  step_in Phase.pumping Signal.inbox_closed a = hang_up a
  step_in Phase.pumping (Signal.event e) a = on_event e a
  step_in Phase.pumping Signal.exited a = fail "driver exited before completing the turn" a
  step_in Phase.idle (Signal.received f) a = on_frame f a
  step_in Phase.idle Signal.inbox_closed a = hang_up a
  step_in (Phase.permission id) (Signal.received f) a =
      give Phase.pumping (ClientFrame.permission_response id (permission_of f)) a
  step_in (Phase.permission id) Signal.inbox_closed a =
      give Phase.pumping (ClientFrame.permission_response id PermissionDecision.deny) a
  step_in (Phase.rpc id) (Signal.received f) a =
      give Phase.pumping (ClientFrame.reverse_rpc_result id (result_of f)) a
  step_in (Phase.rpc id) Signal.inbox_closed a =
      give Phase.pumping (ClientFrame.reverse_rpc_result id (ReverseRpcResult.success false)) a
  step_in (Phase.asking id) (Signal.received f) a =
      give Phase.pumping (ClientFrame.ask_user_answer id (value_of f)) a
  step_in (Phase.asking id) Signal.inbox_closed a =
      give Phase.pumping (ClientFrame.ask_user_answer id x.null) a
  step_in _ _ a = a

  -- The actor from its start on
  unfoldable pub begin : Actor x
  unfolding bus_send
  begin =
      bus_send (OrchestratorEvent.session_started o.id)
        (record { phase = Phase.waiting; sent = []; offered = []; bus = []; shut = false })

  unfoldable pub run_from : List (Signal x) → Actor x → Actor x
  unfolding step_in
  run_from [] a = a
  run_from (s ∷ ss) a = run_from ss (step_in a.phase s a)

  -- `spawn_session_with_options` on the signals that arrive
  unfoldable pub run : List (Signal x) → Actor x
  unfolding run_from begin
  run ss = run_from ss begin
