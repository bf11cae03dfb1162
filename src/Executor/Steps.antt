-- ===== src/Executor/Steps.antt =====
-- Each operation of the executor keeps `spawned` and the registry's map in step.
use cap_protocol.Prelude.{
  Bool, true, false, not, ◌&&◌, Option, none, some, List, [], ◌∷◌, ◌≡◌, refl, insert_key,
  if◌then◌else◌,
}
use cap_protocol.Core.{Foreign, ClientFrame, StopReason, AgentEvent, TextChannel}
use cap_protocol.Config.{SessionId}
use cap_protocol.Event.{OrchestratorEvent, OrchestratorControl}
use cap_protocol.Registry.{Platform, is_live}
use cap_protocol.Executor.{
  Setup, Run, Fire, send, audit_route, do_spawn, spawn, forward, forward_live, fire_one, fire_all,
  announce, context_of, collect_fires, routing_failed, on_session_done, on_control,
}
use cap_protocol.Executor.Loop.{
  Input, Progress, going, broke, accumulate, note_failure, over_limit, stop_over_budget, add_cost,
  charge, after_charge, complete, dispatch, on_bus, take_input, at_time, run_loop, state_of,
}
use cap_protocol.Executor.Tracked.{
  IsTracked, Unmoved-refl, Unmoved-IsTracked, Spawns-IsTracked, do_spawn-Spawns, spawn-Spawns,
  deliver-IsTracked,
}

module _ {x : Foreign} {p : Platform} where
  -- A step that leaves the sessions alone.
  pub still :
      (s t : Run x p) → t.registry ≡ s.registry → t.spawned ≡ s.spawned → IsTracked s → IsTracked t
  still s t e f h = Unmoved-IsTracked s t (rw e (Unmoved-refl s.registry)) f h

  forward-IsTracked :
      (from to : SessionId) (frame : ClientFrame x) (s : Run x p)
      → IsTracked s
      → IsTracked (forward from to frame s)
  unfolding forward audit_route
  forward-IsTracked from to frame s h = deliver-IsTracked to frame _ (still s _ refl refl h)

  forward_if-IsTracked :
      (spawned : Bool) (from to : SessionId) (frame : ClientFrame x) (s : Run x p)
      → IsTracked s
      → IsTracked (if spawned then forward from to frame s else s)
  forward_if-IsTracked true from to frame s h = forward-IsTracked from to frame s h
  forward_if-IsTracked false from to frame s h = h

  forward_live-IsTracked :
      (live : Bool) (spawn_it : Run x p → Bool × Run x p) (from to : SessionId)
      (frame : ClientFrame x) (s : Run x p)
      → IsTracked s
      → IsTracked (spawn_it s).1
      → IsTracked (forward_live live spawn_it from to frame s)
  unfolding forward_live
  forward_live-IsTracked true spawn_it from to frame s h k = forward-IsTracked from to frame s h
  forward_live-IsTracked false spawn_it from to frame s h k =
      forward_if-IsTracked (spawn_it s).0 from to frame (spawn_it s).1 k

  note_failure-IsTracked :
      (e : OrchestratorEvent x) (s : Run x p) → IsTracked s → IsTracked (note_failure e s)
  unfolding note_failure
  note_failure-IsTracked (OrchestratorEvent.session_failed session f) s h = still s _ refl refl h
  note_failure-IsTracked _ s h = h

  accumulate-IsTracked :
      (e : OrchestratorEvent x) (s : Run x p) → IsTracked s → IsTracked (accumulate e s)
  unfolding accumulate
  accumulate-IsTracked
        (OrchestratorEvent.agent session (AgentEvent.text_chunk m text TextChannel.assistant)) s h =
      still s _ refl refl h
  accumulate-IsTracked _ s h = h

  over_limit-IsTracked :
      (session : SessionId) (limit : Option x.F64) (s : Run x p)
      → IsTracked s
      → IsTracked (state_of (over_limit session limit s))
  unfolding over_limit stop_over_budget
  over_limit-IsTracked session none s h = h
  over_limit-IsTracked session (some limit) s h =
      elim (x.gt s.usage_cost_usd limit)
        as (λ b.
          IsTracked (state_of (if b then broke (stop_over_budget session limit s) else going s))) [
            | true ↦ still s _ refl refl h
            | false ↦ h
          ]

  add_cost-IsTracked :
      (session : SessionId) (limit cost : Option x.F64) (s : Run x p)
      → IsTracked s
      → IsTracked (state_of (add_cost session limit cost s))
  unfolding add_cost
  add_cost-IsTracked session limit none s h = h
  add_cost-IsTracked session limit (some cost) s h =
      over_limit-IsTracked session limit _ (still s _ refl refl h)

  module _ (setup : Setup x p) where
    fire_one-IsTracked :
        (from : SessionId) (f : Fire x) (s : Run x p)
        → IsTracked s
        → IsTracked (fire_one setup from f s)
    unfolding fire_one
    fire_one-IsTracked from (Fire.route to frame) s h =
        forward_live-IsTracked (is_live to s.registry) (spawn setup to) from to frame s h
          (Spawns-IsTracked to _ s _ (spawn-Spawns setup to s) h)
    fire_one-IsTracked from (Fire.dynamic id frame kind policy) s h =
        forward_live-IsTracked (is_live id s.registry) (do_spawn setup id kind policy) from id frame
          s h (Spawns-IsTracked id _ s _ (do_spawn-Spawns setup id kind policy s) h)
    fire_one-IsTracked from (Fire.select ids) s h = still s _ refl refl h

    fire_all-IsTracked :
        (from : SessionId) (fs : List (Fire x)) (s : Run x p)
        → IsTracked s
        → IsTracked (fire_all setup from fs s)
    unfolding fire_all
    fire_all-IsTracked from [] s h = h
    fire_all-IsTracked from (f ∷ fs) s h =
        fire_all-IsTracked from fs (fire_one setup from f s) (fire_one-IsTracked from f s h)

    announce-IsTracked :
        (from : SessionId) (stop : StopReason) (bad : Bool) (s : Run x p)
        → IsTracked s
        → IsTracked (announce setup from stop bad s)
    unfolding announce
    announce-IsTracked from stop true s h = still s _ refl refl h
    announce-IsTracked from stop false s h = still s _ refl refl h

    on_session_done-IsTracked :
        (from : SessionId) (stop : StopReason) (s : Run x p)
        → IsTracked s
        → IsTracked (on_session_done setup from stop s).1
    unfolding on_session_done
    on_session_done-IsTracked from stop s h =
        let answer =
          setup.strategy (context_of setup (record s { done = insert_key from s.done })) from stop
            s.registry.world in
        let asked : Run x p = record s {
          done = insert_key from s.done;
          registry = record s.registry { world = answer.1 };
        } in
        fire_all-IsTracked from (collect_fires answer.0)
          (announce setup from stop (routing_failed answer.0) asked)
          (announce-IsTracked from stop (routing_failed answer.0) asked (
            Unmoved-IsTracked s asked
              (record { live = λ j. unfold is_live in refl; owned = λ j k. k }) refl h))

    on_control-IsTracked :
        (c : OrchestratorControl x) (s : Run x p) → IsTracked s → IsTracked (on_control setup c s)
    unfolding on_control
    on_control-IsTracked (OrchestratorControl.decision session req_id allow) s h =
        deliver-IsTracked session _ s h
    on_control-IsTracked (OrchestratorControl.ask_user_response session a v) s h =
        deliver-IsTracked session _ s h
    on_control-IsTracked OrchestratorControl.cancel s h = still s _ refl refl h
    on_control-IsTracked (OrchestratorControl.reverse_rpc_result session r v) s h =
        deliver-IsTracked session _ s h
    on_control-IsTracked (OrchestratorControl.select session) s h = h
    on_control-IsTracked (OrchestratorControl.user_message session text) s h =
        deliver-IsTracked session _ s h

    complete-IsTracked :
        (settled : Bool) (s : Run x p)
        → IsTracked s
        → IsTracked (state_of (complete setup settled s))
    unfolding complete
    complete-IsTracked settled s h =
        elim (settled && not setup.chat_mode)
          as (λ b.
            IsTracked
              (state_of (if b then broke (send OrchestratorEvent.fleet_complete s) else going s))) [
                | true ↦ still s _ refl refl h
                | false ↦ h
              ]

    dispatch-IsTracked :
        (e : OrchestratorEvent x) (s : Run x p)
        → IsTracked s
        → IsTracked (state_of (dispatch setup e s))
    unfolding dispatch
    dispatch-IsTracked (OrchestratorEvent.session_done session stop) s h =
        complete-IsTracked _ _ (on_session_done-IsTracked session stop s h)
    dispatch-IsTracked (OrchestratorEvent.session_failed session f) s h =
        complete-IsTracked _ _ (still s _ refl refl h)
    dispatch-IsTracked _ s h = still s _ refl refl h

    charge-IsTracked :
        (e : OrchestratorEvent x) (s : Run x p)
        → IsTracked s
        → IsTracked (state_of (charge setup e s))
    unfolding charge
    charge-IsTracked (OrchestratorEvent.agent session (AgentEvent.usage u)) s h =
        add_cost-IsTracked session setup.spec.budget_usd u.cost_usd_estimate s h
    charge-IsTracked _ s h = h

    after_charge-IsTracked :
        (e : OrchestratorEvent x) (r : Progress x p)
        → IsTracked (state_of r)
        → IsTracked (state_of (after_charge setup e r))
    unfolding after_charge
    after_charge-IsTracked e (broke s) h = h
    after_charge-IsTracked e (going s) h =
        dispatch-IsTracked e (note_failure e s) (note_failure-IsTracked e s h)

    take_input-IsTracked :
        (i : Input x) (s : Run x p) → IsTracked s → IsTracked (state_of (take_input setup i s))
    unfolding take_input on_bus
    take_input-IsTracked Input.cancel_requested s h = still s _ refl refl h
    take_input-IsTracked Input.bus_closed s h = h
    take_input-IsTracked (Input.control c) s h = on_control-IsTracked c s h
    take_input-IsTracked (Input.bus e) s h =
        after_charge-IsTracked e (charge setup e (accumulate e s))
          (charge-IsTracked e (accumulate e s) (accumulate-IsTracked e s h))

    resume-IsTracked :
        (inputs : List (p.World × Input x)) (step : Progress x p)
        → ((t : Run x p) → IsTracked t → IsTracked (state_of (run_loop setup inputs t)))
        → IsTracked (state_of step)
        → IsTracked (state_of (elim step [ broke t ↦ broke t | going t ↦ run_loop setup inputs t ]))
    resume-IsTracked inputs (broke t) next h = h
    resume-IsTracked inputs (going t) next h = next t h

    -- The loop keeps the live sessions and the set `spawned` the same, and keeps worktrees only for
    -- them.
    pub run_loop-IsTracked :
        (inputs : List (p.World × Input x)) (s : Run x p)
        → IsTracked s
        → IsTracked (state_of (run_loop setup inputs s))
    unfolding run_loop
    run_loop-IsTracked [] s h =
        elim (s.cancelled) as (λ b. IsTracked (state_of (if b then broke s else going s))) [
          | true ↦ h
          | false ↦ h
        ]
    run_loop-IsTracked ((w, input) ∷ inputs) s h =
        let later =
          resume-IsTracked inputs (take_input setup input (at_time setup w s))
            (run_loop-IsTracked inputs)
            (take_input-IsTracked input (at_time setup w s) (
              Unmoved-IsTracked s _
                (record { live = λ j. unfold is_live in refl; owned = λ j k. k }) refl h)) in
        elim (s.cancelled)
          as (λ b. IsTracked (
            state_of (
              if b then broke s else elim (take_input setup input (at_time setup w s)) [
                | broke t ↦ broke t
                | going t ↦ run_loop setup inputs t
              ]))) [ true ↦ h | false ↦ later ]
