-- ===== src/Session/Provenance.antt =====
-- Where the permissions of a whole run come from.
use cap_protocol.Prelude.{
  String, List, [], ◌∷◌, ◌≡◌, ◌⊎◌, inl, inr, refl, sym, subst, All, Member, Some, All-of,
}
use cap_protocol.Core.{Foreign, ClientFrame, AgentEvent, PermissionDecision}
use cap_protocol.Session.{
  Signal, Phase, Options, Actor, stop_cancelled, hang_up, bus_send, fail, on_boot, step_in, begin,
  run_from, run, result_of, value_of, cancel_frame,
}
use cap_protocol.Session.Permissions.{
  Grants, IsLicensed, Waits, IsLawful, All-sent, received-IsLicensed, permission_of_lem,
  give-IsLawful, first_frame-IsLawful, on_frame-IsLawful, on_event-IsLawful,
}

module _ {x : Foreign} (o : Options x) (signals : List (Signal x)) where
  on_boot-IsLawful :
      (first : ClientFrame x) (e : AgentEvent x) (a : Actor x)
      → IsLawful o signals a
      → Member (Signal.received first) signals
      → IsLawful o signals (on_boot o first e a)
  unfolding on_boot bus_send
  on_boot-IsLawful first (AgentEvent.ready _ _ _) a h m =
      give-IsLawful o signals Phase.pumping first a h.0 (received-IsLicensed o signals first m) tt
  on_boot-IsLawful first other a h m = h

  fail-IsLawful :
      (error : String) (a : Actor x)
      → All (IsLicensed o signals) a.sent
      → IsLawful o signals (fail o error a)
  unfolding fail bus_send
  fail-IsLawful error a h = (h, tt)

  stop_cancelled-IsLawful :
      (a : Actor x) → All (IsLicensed o signals) a.sent → IsLawful o signals (stop_cancelled a)
  unfolding stop_cancelled
  stop_cancelled-IsLawful a h = (All-sent o signals a.sent cancel_frame h tt, tt)

  hang_up-IsLawful :
      (a : Actor x) → All (IsLicensed o signals) a.sent → IsLawful o signals (hang_up a)
  unfolding hang_up
  hang_up-IsLawful a h = (h, tt)

  -- The answer to a pending request.
  answer-IsLicensed :
      (req_id : String) (d : PermissionDecision)
      → Waits o signals (Phase.permission req_id)
      → (d ≡ PermissionDecision.deny) ⊎ Some (Grants d) signals
      → IsLicensed o signals (ClientFrame.permission_response req_id d)
  answer-IsLicensed req_id d w h = inr (w.0, w.1, inr (w.2, h))

  step_in-IsLawful :
      (phase : Phase x) (s : Signal x) (a : Actor x)
      → a.phase ≡ phase
      → Member s signals
      → All (IsLicensed o signals) a.sent
      → Waits o signals phase
      → IsLawful o signals (step_in o phase s a)
  unfolding step_in
  step_in-IsLawful Phase.stopped s a e m h w = (h, subst (Waits o signals) (sym e) w)
  step_in-IsLawful _ Signal.cancelled a e m h w = stop_cancelled-IsLawful a h
  step_in-IsLawful Phase.waiting (Signal.received f) a e m h w =
      first_frame-IsLawful o signals f a h m
  step_in-IsLawful Phase.waiting Signal.inbox_closed a e m h w = hang_up-IsLawful a h
  step_in-IsLawful (Phase.booting first) (Signal.event v) a e m h w =
      on_boot-IsLawful first v a (h, subst (Waits o signals) (sym e) w) w
  step_in-IsLawful (Phase.booting first) Signal.exited a e m h w =
      fail-IsLawful "driver exited before becoming ready" a h
  step_in-IsLawful Phase.pumping (Signal.received f) a e m h w =
      on_frame-IsLawful o signals f a (h, subst (Waits o signals) (sym e) tt) m
  step_in-IsLawful Phase.pumping Signal.inbox_closed a e m h w = hang_up-IsLawful a h
  step_in-IsLawful Phase.pumping (Signal.event v) a e m h w =
      on_event-IsLawful o signals v a (h, subst (Waits o signals) (sym e) tt) m
  step_in-IsLawful Phase.pumping Signal.exited a e m h w =
      fail-IsLawful "driver exited before completing the turn" a h
  step_in-IsLawful Phase.idle (Signal.received f) a e m h w =
      on_frame-IsLawful o signals f a (h, subst (Waits o signals) (sym e) tt) m
  step_in-IsLawful Phase.idle Signal.inbox_closed a e m h w = hang_up-IsLawful a h
  step_in-IsLawful (Phase.permission id) (Signal.received f) a e m h w =
      give-IsLawful o signals Phase.pumping _ a h
        (answer-IsLicensed id _ w (permission_of_lem o signals f m)) tt
  step_in-IsLawful (Phase.permission id) Signal.inbox_closed a e m h w =
      give-IsLawful o signals Phase.pumping _ a h (answer-IsLicensed id _ w (inl refl)) tt
  step_in-IsLawful (Phase.rpc id) (Signal.received f) a e m h w =
      give-IsLawful o signals Phase.pumping (ClientFrame.reverse_rpc_result id (result_of f)) a h tt
        tt
  step_in-IsLawful (Phase.rpc id) Signal.inbox_closed a e m h w =
      give-IsLawful o signals Phase.pumping (ClientFrame.reverse_rpc_result id _) a h tt tt
  step_in-IsLawful (Phase.asking id) (Signal.received f) a e m h w =
      give-IsLawful o signals Phase.pumping (ClientFrame.ask_user_answer id (value_of f)) a h tt tt
  step_in-IsLawful (Phase.asking id) Signal.inbox_closed a e m h w =
      give-IsLawful o signals Phase.pumping (ClientFrame.ask_user_answer id x.null) a h tt tt
  step_in-IsLawful _ _ a e m h w = (h, subst (Waits o signals) (sym e) w)

  run_from-IsLawful :
      (ss : List (Signal x)) (a : Actor x)
      → All (λ s. Member s signals) ss
      → IsLawful o signals a
      → IsLawful o signals (run_from o ss a)
  unfolding run_from
  run_from-IsLawful [] a m h = h
  run_from-IsLawful (s ∷ ss) a m h =
      run_from-IsLawful ss (step_in o a.phase s a) m.1
        (step_in-IsLawful a.phase s a refl m.0 h.0 h.1)

-- Every permission that the driver of a session was given is a frame that the consumer sent, or the
-- answer to a request of the driver with that `req_id`: the decision that the policy takes at the
-- risk of the request, or, where the policy leaves it to the consumer, to deny or as in one of the
-- consumer's frames.
pub run-IsLicensed :
    {x : Foreign} (o : Options x) (signals : List (Signal x))
    → All (IsLicensed o signals) (run o signals).sent
unfolding run begin bus_send
run-IsLicensed o signals =
    (run_from-IsLawful o signals signals (begin o) (All-of _ signals (λ s m. m)) (tt, tt)).0
