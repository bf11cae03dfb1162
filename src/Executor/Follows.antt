-- ===== src/Executor/Follows.antt =====
-- What one input, and the inputs of a run, make the executor send and record.
use cap_protocol.Prelude.{
  Bool, true, false, not, ◌&&◌, Option, none, some, List, [], ◌∷◌, ◌++◌, ◌≡◌, refl, if◌then◌else◌,
  inl, inr, ◌⊎◌,
}
use cap_protocol.Core.{Foreign, AgentEvent, TextChannel}
use cap_protocol.Config.{SessionId}
use cap_protocol.Event.{OrchestratorEvent, OrchestratorControl, Failure}
use cap_protocol.Registry.{Platform}
use cap_protocol.Executor.{Setup, Run, send, deliver, on_control}
use cap_protocol.Executor.Loop.{
  Input, Progress, going, broke, accumulate, note_failure, over_limit, stop_over_budget, add_cost,
  charge, after_charge, complete, dispatch, on_bus, take_input, at_time, run_loop,
}
use cap_protocol.Executor.Extends.{
  routed_pairs, IsOpen, Extends, Extends-still, Extends-trans, Extends-send, Extends-fail,
}
use cap_protocol.Executor.Completion.{on_session_done-Extends}

abbrev pub Any : {x : Foreign} → OrchestratorEvent x → Type 0
Any e = Unit

-- What a session actor puts on the bus: neither routes nor the end of the fleet.
abbrev pub IsActorEvent : {x : Foreign} → OrchestratorEvent x → Type 0
IsActorEvent (OrchestratorEvent.routed from to) = ⊥
IsActorEvent OrchestratorEvent.fleet_complete = ⊥
IsActorEvent _ = Unit

abbrev pub IsActorInput : {x : Foreign} → Input x → Type 0
IsActorInput (Input.bus e) = IsActorEvent e
IsActorInput _ = Unit

abbrev pub ActorInputs : {x : Foreign} {W : Type 0} → List (W × Input x) → Type 0
ActorInputs [] = Unit
ActorInputs (i ∷ is) = IsActorInput i.1 × ActorInputs is

IsActorEvent-routed_pairs :
    {x : Foreign} (e : OrchestratorEvent x) → IsActorEvent e → routed_pairs (e ∷ []) ≡ []
IsActorEvent-routed_pairs (OrchestratorEvent.routed from to) h = elim h [ ]
IsActorEvent-routed_pairs OrchestratorEvent.fleet_complete h = elim h [ ]
IsActorEvent-routed_pairs _ h = refl

IsActorEvent-IsOpen : {x : Foreign} (e : OrchestratorEvent x) → IsActorEvent e → IsOpen e
IsActorEvent-IsOpen OrchestratorEvent.fleet_complete h = elim h [ ]
IsActorEvent-IsOpen _ h = tt

module _ {x : Foreign} {p : Platform} where
  -- One `FleetComplete` at the end.
  pub record Finished (s t : Run x p) : Type 0 where
    pub before : Run x p
    pub extends : Extends Any s before
    pub out : t.out ≡ before.out ++ OrchestratorEvent.fleet_complete ∷ []
    pub audit : t.audit ≡ before.audit

  abbrev pub Follows : Run x p → Progress x p → Type 0
  Follows s (going t) = Extends Any s t
  Follows s (broke t) = Extends Any s t ⊎ Finished s t

  pub Follows-trans :
      (s t : Run x p) (r : Progress x p) → Extends Any s t → Follows t r → Follows s r
  Follows-trans s t (going r) h k = Extends-trans Any s t r h k
  Follows-trans s t (broke r) h (inl k) = inl (Extends-trans Any s t r h k)
  Follows-trans s t (broke r) h (inr k) = inr (record {
    before = k.before;
    extends = Extends-trans Any s t k.before h k.extends;
    out = k.out;
    audit = k.audit;
  })

  accumulate-Extends : (e : OrchestratorEvent x) (s : Run x p) → Extends Any s (accumulate e s)
  unfolding accumulate
  accumulate-Extends
        (OrchestratorEvent.agent session (AgentEvent.text_chunk m text TextChannel.assistant)) s =
      Extends-still Any s _ refl refl
  accumulate-Extends _ s = Extends-still Any s s refl refl

  note_failure-Extends : (e : OrchestratorEvent x) (s : Run x p) → Extends Any s (note_failure e s)
  unfolding note_failure
  note_failure-Extends (OrchestratorEvent.session_failed session f) s =
      Extends-still Any s _ refl refl
  note_failure-Extends _ s = Extends-still Any s s refl refl

  over_limit-Follows :
      (session : SessionId) (limit : Option x.F64) (s : Run x p)
      → Follows s (over_limit session limit s)
  unfolding over_limit stop_over_budget
  over_limit-Follows session none s = Extends-still Any s s refl refl
  over_limit-Follows session (some limit) s =
      elim (x.gt s.usage_cost_usd limit)
        as (λ b. Follows s (if b then broke (stop_over_budget session limit s) else going s)) [
          | false ↦ Extends-still Any s s refl refl
          | true ↦ inr (record {
            before =
                send
                  (OrchestratorEvent.session_failed session
                    (Failure.over_budget s.usage_cost_usd limit))
                  s;
            extends = Extends-fail Any session (Failure.over_budget s.usage_cost_usd limit) s tt;
            out = refl;
            audit = refl;
          })
        ]

  add_cost-Follows :
      (session : SessionId) (limit cost : Option x.F64) (s : Run x p)
      → Follows s (add_cost session limit cost s)
  unfolding add_cost
  add_cost-Follows session limit none s = Extends-still Any s s refl refl
  add_cost-Follows session limit (some cost) s =
      let charged : Run x p = record s { usage_cost_usd = x.add s.usage_cost_usd cost } in
      Follows-trans s charged _ (Extends-still Any s charged refl refl)
        (over_limit-Follows session limit charged)

  module _ (setup : Setup x p) where
    on_control-Extends :
        (c : OrchestratorControl x) (s : Run x p) → Extends Any s (on_control setup c s)
    unfolding on_control deliver
    on_control-Extends (OrchestratorControl.decision a b c) s = Extends-still Any s _ refl refl
    on_control-Extends (OrchestratorControl.ask_user_response a b c) s =
        Extends-still Any s _ refl refl
    on_control-Extends OrchestratorControl.cancel s = Extends-still Any s _ refl refl
    on_control-Extends (OrchestratorControl.reverse_rpc_result a b c) s =
        Extends-still Any s _ refl refl
    on_control-Extends (OrchestratorControl.select a) s = Extends-still Any s _ refl refl
    on_control-Extends (OrchestratorControl.user_message a b) s = Extends-still Any s _ refl refl

    complete-Follows : (settled : Bool) (s : Run x p) → Follows s (complete setup settled s)
    unfolding complete
    complete-Follows settled s =
        elim (settled && not setup.chat_mode)
          as (λ b.
            Follows s (if b then broke (send OrchestratorEvent.fleet_complete s) else going s)) [
              | true ↦ inr (record {
                before = s;
                extends = Extends-still Any s s refl refl;
                out = refl;
                audit = refl;
              })
              | false ↦ Extends-still Any s s refl refl
            ]

    dispatch-Follows :
        (e : OrchestratorEvent x) (s : Run x p) → IsActorEvent e → Follows s (dispatch setup e s)
    unfolding dispatch
    dispatch-Follows (OrchestratorEvent.session_done session stop) s h =
        Follows-trans s _ _ (on_session_done-Extends setup session stop s) (complete-Follows _ _)
    dispatch-Follows (OrchestratorEvent.session_failed session error) s h =
        Follows-trans s _ _ (Extends-fail Any session error s tt) (complete-Follows _ _)
    dispatch-Follows other s h =
        Extends-send Any other s (IsActorEvent-routed_pairs other h) (IsActorEvent-IsOpen other h)
          tt

    charge-Follows : (e : OrchestratorEvent x) (s : Run x p) → Follows s (charge setup e s)
    unfolding charge
    charge-Follows (OrchestratorEvent.agent session (AgentEvent.usage u)) s =
        add_cost-Follows session setup.spec.budget_usd u.cost_usd_estimate s
    charge-Follows _ s = Extends-still Any s s refl refl

    after_charge-Follows :
        (e : OrchestratorEvent x) (s : Run x p) (charged : Progress x p)
        → IsActorEvent e
        → Follows s charged
        → Follows s (after_charge setup e charged)
    unfolding after_charge
    after_charge-Follows e s (broke t) h k = k
    after_charge-Follows e s (going t) h k =
        Follows-trans s t (dispatch setup e (note_failure e t)) k (
          Follows-trans t (note_failure e t) _ (note_failure-Extends e t)
            (dispatch-Follows e (note_failure e t) h))

    take_input-Follows :
        (input : Input x) (s : Run x p) → IsActorInput input → Follows s (take_input setup input s)
    unfolding take_input on_bus
    take_input-Follows Input.cancel_requested s h = inl (Extends-still Any s _ refl refl)
    take_input-Follows Input.bus_closed s h = inl (Extends-still Any s s refl refl)
    take_input-Follows (Input.control c) s h = on_control-Extends c s
    take_input-Follows (Input.bus e) s h =
        after_charge-Follows e s (charge setup e (accumulate e s)) h (
          Follows-trans s (accumulate e s) _ (accumulate-Extends e s)
            (charge-Follows e (accumulate e s)))

    resume-Follows :
        (s : Run x p) (inputs : List (p.World × Input x)) (step : Progress x p)
        → ((t : Run x p) → Follows t (run_loop setup inputs t))
        → Follows s step
        → Follows s (elim step [ broke t ↦ broke t | going t ↦ run_loop setup inputs t ])
    resume-Follows s inputs (broke t) next h = h
    resume-Follows s inputs (going t) next h = Follows-trans s t _ h (next t)

    pub run_loop-Follows :
        (inputs : List (p.World × Input x)) (s : Run x p)
        → ActorInputs inputs
        → Follows s (run_loop setup inputs s)
    unfolding run_loop
    run_loop-Follows [] s h =
        elim (s.cancelled) as (λ b. Follows s (if b then broke s else going s)) [
          | true ↦ inl (Extends-still Any s s refl refl)
          | false ↦ Extends-still Any s s refl refl
        ]
    run_loop-Follows ((w, input) ∷ inputs) s h =
        let stepped =
          resume-Follows s inputs (take_input setup input (at_time setup w s))
            (λ t. run_loop-Follows inputs t h.1)
            (Follows-trans s (at_time setup w s) _ (Extends-still Any s _ refl refl)
              (take_input-Follows input (at_time setup w s) h.0)) in
        elim (s.cancelled)
          as (λ b. Follows s (
            if b then broke s else elim (take_input setup input (at_time setup w s)) [
              | broke t ↦ broke t
              | going t ↦ run_loop setup inputs t
            ])) [ true ↦ inl (Extends-still Any s s refl refl) | false ↦ stepped ]
