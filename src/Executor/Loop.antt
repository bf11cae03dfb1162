-- ===== src/Executor/Loop.antt =====
-- `Run::drive` of executor.rs. The inputs of its `select!` are a list, each with the world as it is
-- when the input arrives. The cancel token is looked at before each input, as `biased` has it.
use cap_protocol.Prelude.{
  String, Bool, true, false, not, ◌&&◌, Option, none, some, List, [], ◌∷◌, lookup, put, insert_key,
  if◌then◌else◌,
}
use Prim.Native.String.{◌++◌ as append}
use cap_protocol.Core.{Foreign, AgentEvent, TextChannel}
use cap_protocol.Config.{SessionId, start_sessions}
use cap_protocol.Event.{OrchestratorEvent, OrchestratorControl, Failure}
use cap_protocol.Audit.{empty_log}
use cap_protocol.Registry.{Platform, Registry, shutdown, cleanup_worktree}
use cap_protocol.Executor.{
  Setup, Run, send, deliver, task_prompt, fleet_complete, spawn, on_session_done, on_control,
}

pub data Input (x : Foreign) : Type 0 where
  cancel_requested bus_closed : Input x
  control : OrchestratorControl x → Input x
  bus : OrchestratorEvent x → Input x

-- Whether the loop goes on or was left by `break`.
pub data Progress (x : Foreign) (p : Platform) : Type 0 where
  going broke : Run x p → Progress x p

-- The state that a run has reached, ended or not.
abbrev pub state_of : {x : Foreign} {p : Platform} → Progress x p → Run x p
state_of (going s) = s
state_of (broke s) = s

-- `self.buffers.entry(session).or_default().push_str(text)`
unfoldable pub push_text :
    SessionId → String → List (SessionId × String) → List (SessionId × String)
push_text session text buffers =
    put session (append (elim (lookup session buffers) [ none ↦ "" | some old ↦ old ]) text) buffers

module _ {x : Foreign} {p : Platform} where
  -- The first `if let`: assistant text is kept.
  unfoldable pub accumulate : OrchestratorEvent x → Run x p → Run x p
  unfolding push_text
  accumulate (OrchestratorEvent.agent session (AgentEvent.text_chunk _ text TextChannel.assistant))
        s =
      record s { buffers = push_text session text s.buffers }
  accumulate _ s = s

  -- `self.failed.insert(session)` for a reported failure
  unfoldable pub note_failure : OrchestratorEvent x → Run x p → Run x p
  note_failure (OrchestratorEvent.session_failed session _) s = record s {
    failed = insert_key session s.failed;
  }
  note_failure _ s = s

  -- The fleet is cancelled for its cost.
  unfoldable pub stop_over_budget : SessionId → x.F64 → Run x p → Run x p
  stop_over_budget session limit s =
      send OrchestratorEvent.fleet_complete
        (record (send
          (OrchestratorEvent.session_failed session (Failure.over_budget s.usage_cost_usd limit))
          (record s { failed = insert_key session s.failed })) { cancelled = true })

  -- A total above the limit ends the run.
  unfoldable pub over_limit : SessionId → Option x.F64 → Run x p → Progress x p
  unfolding stop_over_budget
  over_limit session none s = going s
  over_limit session (some limit) s =
      if x.gt s.usage_cost_usd limit then broke (stop_over_budget session limit s) else going s

  unfoldable pub add_cost : SessionId → Option x.F64 → Option x.F64 → Run x p → Progress x p
  unfolding over_limit
  add_cost session limit none s = going s
  add_cost session limit (some cost) s =
      over_limit session limit (record s { usage_cost_usd = x.add s.usage_cost_usd cost })

module _ {x : Foreign} {p : Platform} (setup : Setup x p) where
  -- The second `if let`: a reported cost is added to the total.
  unfoldable pub charge : OrchestratorEvent x → Run x p → Progress x p
  unfolding add_cost
  charge (OrchestratorEvent.agent session (AgentEvent.usage u)) s =
      add_cost session setup.spec.budget_usd u.cost_usd_estimate s
  charge _ s = going s

  -- The end of the fleet: the loop is left, except in chat mode.
  unfoldable pub complete : Bool → Run x p → Progress x p
  complete settled s =
      if settled && not setup.chat_mode
      then broke (send OrchestratorEvent.fleet_complete s)
      else going s

  -- The `match ev`.
  unfoldable pub dispatch : OrchestratorEvent x → Run x p → Progress x p
  unfolding on_session_done complete
  dispatch (OrchestratorEvent.session_done session stop) s =
      let (settled, s') = on_session_done setup session stop s in complete settled s'
  dispatch (OrchestratorEvent.session_failed session error) s =
      let s' = send (OrchestratorEvent.session_failed session error) s in
      complete (fleet_complete s') s'
  dispatch other s = going (send other s)

  -- What follows the charge, unless the budget ended the run.
  unfoldable pub after_charge : OrchestratorEvent x → Progress x p → Progress x p
  unfolding note_failure dispatch
  after_charge e (broke s) = broke s
  after_charge e (going s) = dispatch e (note_failure e s)

  unfoldable pub on_bus : OrchestratorEvent x → Run x p → Progress x p
  unfolding accumulate charge after_charge
  on_bus e s = after_charge e (charge e (accumulate e s))

  -- One arm of the `select!`.
  unfoldable pub take_input : Input x → Run x p → Progress x p
  unfolding on_bus on_control
  take_input cancel_requested s = broke (record s { cancelled = true })
  take_input (control c) s = going (on_control setup c s)
  take_input (bus e) s = on_bus e s
  take_input bus_closed s = broke s

  -- The world at the time of the input.
  abbrev pub at_time : p.World → Run x p → Run x p
  at_time w s = record s { registry = record s.registry { world = w } }

  unfoldable pub run_loop : List (p.World × Input x) → Run x p → Progress x p
  unfolding take_input
  run_loop [] s = if s.cancelled then broke s else going s
  run_loop ((w, input) ∷ inputs) s =
      if s.cancelled then broke s else elim (take_input input (at_time w s)) [
        | broke s' ↦ broke s'
        | going s' ↦ run_loop inputs s'
      ]

  -- `self.worktree.cleanup(&id)` for each spawned session
  unfoldable pub cleanup_all : List SessionId → Registry x p → Registry x p
  unfolding cleanup_worktree
  cleanup_all [] r = r
  cleanup_all (id ∷ ids) r = cleanup_all ids (cleanup_worktree id r)

  -- What follows the loop.
  unfoldable pub wind_down : Run x p → Run x p
  unfolding cleanup_all shutdown
  wind_down s = record s {
    cancelled = true;
    registry = cleanup_all s.spawned (shutdown s.registry);
    spawned = [];
  }

  -- The loop over the start sessions: `spawn`, then `kick`.
  unfoldable pub start_all : List SessionId → Run x p → Run x p
  unfolding spawn deliver
  start_all [] s = s
  start_all (id ∷ ids) s =
      let (spawned, s') = spawn setup id s in
      start_all ids (if spawned then deliver id (task_prompt setup.task) s' else s')

  abbrev pub fresh : p.World → Run x p
  fresh w = record {
    registry = record { sessions = []; held = []; world = w };
    audit = empty_log;
    done = [];
    spawned = [];
    failed = [];
    usage_cost_usd = x.zero;
    buffers = [];
    out = [];
    cancelled = false;
  }

  -- `drive` after the start sessions were spawned.
  unfoldable pub drive_from : List (p.World × Input x) → Run x p → Progress x p
  unfolding run_loop wind_down
  drive_from inputs started =
      if not setup.chat_mode && fleet_complete started
      then broke (record (send OrchestratorEvent.fleet_complete started) {
        registry = shutdown started.registry;
      })
      else elim (run_loop inputs started) [ broke s ↦ broke (wind_down s) | going s ↦ going s ]

  -- `drive` from the state that `start_with_mode` builds. `going` is a run that waits for input.
  unfoldable pub drive : p.World → List (p.World × Input x) → Progress x p
  unfolding start_all drive_from
  drive w inputs = drive_from inputs (start_all (start_sessions setup.spec.start) (fresh w))
