-- ===== src/Session/OneTurn.antt =====
-- The whole life of a session that is not kept alive: how it ends, and what it reports of that.
use cap_protocol.Prelude.{false, List, [], ◌∷◌, ◌≡◌, inl, refl, sym, subst}
use cap_protocol.Core.{Foreign, ClientFrame, AgentEvent}
use cap_protocol.Event.{OrchestratorEvent}
use cap_protocol.Session.{
  Signal, Phase, Options, Actor, stop_cancelled, hang_up, bus_send, on_event, on_boot, step_in,
  begin, run_from, run, decide,
}
use cap_protocol.Session.Outcome.{
  IsSettled, IsOpen, bus_send-IsOpen, IsLive, fail-IsSettled, give-IsSettled, first_frame-IsSettled,
  on_frame-IsSettled, settle_request-IsSettled, bus_send-IsSettled, done-IsSettled,
}

module _ {x : Foreign} where
  module _ (o : Options x) where
    module _ (one_turn : o.keep_alive ≡ false) where
      on_event-IsSettled :
          (e : AgentEvent x) (a : Actor x)
          → IsOpen a
          → IsLive o a.phase
          → IsSettled (on_event o e a).phase (on_event o e a)
      unfolding on_event bus_send
      on_event-IsSettled (AgentEvent.done stop usage) a h l =
          done-IsSettled o o.keep_alive (OrchestratorEvent.session_done o.id stop) a one_turn tt h
      on_event-IsSettled (AgentEvent.permission_request req_id tool intent scope risk) a h l =
          settle_request-IsSettled o (decide o.policy risk) req_id tool risk _
            (bus_send-IsOpen o _ a tt h)
      on_event-IsSettled (AgentEvent.reverse_rpc rpc_id call) a h l = bus_send-IsOpen o _ a tt h
      on_event-IsSettled (AgentEvent.ask_user i p k os t) a h l = bus_send-IsOpen o _ a tt h
      on_event-IsSettled other a h l =
          bus_send-IsSettled o (OrchestratorEvent.agent o.id other) a tt l h

      on_boot-IsSettled :
          (first : ClientFrame x) (e : AgentEvent x) (a : Actor x)
          → IsOpen a
          → IsLive o a.phase
          → IsSettled (on_boot o first e a).phase (on_boot o first e a)
      unfolding on_boot bus_send
      on_boot-IsSettled first (AgentEvent.ready _ _ _) a h l =
          give-IsSettled o Phase.pumping first a tt h
      on_boot-IsSettled first other a h l =
          bus_send-IsSettled o (OrchestratorEvent.agent o.id other) a tt l h

      stop_cancelled-IsSettled :
          (a : Actor x) → IsOpen a → IsSettled (stop_cancelled a).phase (stop_cancelled a)
      unfolding stop_cancelled
      stop_cancelled-IsSettled a h = inl (refl, h.1)

      hang_up-IsSettled : (a : Actor x) → IsOpen a → IsSettled (hang_up a).phase (hang_up a)
      unfolding hang_up
      hang_up-IsSettled a h = inl (refl, h.1)

      step_in-IsSettled :
          (phase : Phase x) (s : Signal x) (a : Actor x)
          → a.phase ≡ phase
          → IsSettled phase a
          → IsSettled (step_in o phase s a).phase (step_in o phase s a)
      unfolding step_in
      step_in-IsSettled Phase.stopped s a e h = subst (λ phase. IsSettled phase a) (sym e) h
      step_in-IsSettled _ Signal.cancelled a e h = stop_cancelled-IsSettled a h
      step_in-IsSettled Phase.waiting (Signal.received f) a e h = first_frame-IsSettled o f a h
      step_in-IsSettled Phase.waiting Signal.inbox_closed a e h = hang_up-IsSettled a h
      step_in-IsSettled (Phase.booting first) (Signal.event v) a e h =
          on_boot-IsSettled first v a h (subst (IsLive o) (sym e) tt)
      step_in-IsSettled (Phase.booting first) Signal.exited a e h = fail-IsSettled o _ a h
      step_in-IsSettled Phase.pumping (Signal.received f) a e h =
          on_frame-IsSettled o f a h (subst (λ phase. IsSettled phase a) (sym e) h)
      step_in-IsSettled Phase.pumping Signal.inbox_closed a e h = hang_up-IsSettled a h
      step_in-IsSettled Phase.pumping (Signal.event v) a e h =
          on_event-IsSettled v a h (subst (IsLive o) (sym e) tt)
      step_in-IsSettled Phase.pumping Signal.exited a e h = fail-IsSettled o _ a h
      step_in-IsSettled Phase.idle (Signal.received f) a e h =
          on_frame-IsSettled o f a h (subst (λ phase. IsSettled phase a) (sym e) h)
      step_in-IsSettled Phase.idle Signal.inbox_closed a e h = hang_up-IsSettled a h
      step_in-IsSettled (Phase.permission id) (Signal.received f) a e h =
          give-IsSettled o Phase.pumping _ a tt h
      step_in-IsSettled (Phase.permission id) Signal.inbox_closed a e h =
          give-IsSettled o Phase.pumping _ a tt h
      step_in-IsSettled (Phase.rpc id) (Signal.received f) a e h =
          give-IsSettled o Phase.pumping _ a tt h
      step_in-IsSettled (Phase.rpc id) Signal.inbox_closed a e h =
          give-IsSettled o Phase.pumping _ a tt h
      step_in-IsSettled (Phase.asking id) (Signal.received f) a e h =
          give-IsSettled o Phase.pumping _ a tt h
      step_in-IsSettled (Phase.asking id) Signal.inbox_closed a e h =
          give-IsSettled o Phase.pumping _ a tt h
      step_in-IsSettled _ _ a e h = subst (λ phase. IsSettled phase a) (sym e) h

      run_from-IsSettled :
          (ss : List (Signal x)) (a : Actor x)
          → IsSettled a.phase a
          → IsSettled (run_from o ss a).phase (run_from o ss a)
      unfolding run_from
      run_from-IsSettled [] a h = h
      run_from-IsSettled (s ∷ ss) a h =
          run_from-IsSettled ss (step_in o a.phase s a) (step_in-IsSettled a.phase s a refl h)

      -- The actor of a session that is not kept alive offers no outcome while it runs. When it has
      -- stopped, either it shut its driver down and has offered no outcome, or it did not, and it
      -- has offered one, as its last event.
      pub run-IsSettled : (ss : List (Signal x)) → IsSettled (run o ss).phase (run o ss)
      unfolding run begin bus_send
      run-IsSettled ss = run_from-IsSettled ss (begin o) (refl, (tt, tt))
