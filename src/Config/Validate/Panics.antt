-- ===== src/Config/Validate/Panics.antt =====
-- Validation neither panics nor runs out of the fuel of its search, whatever the fleet.
use cap_protocol.Prelude.{
  String, Bool, List, [], ◌∷◌, ◌≡◌, ◌≢◌, refl, inl, inr, true, false, ok, err, Result, arith,
  fail_if, for_each, for_each-ok, ◌>>=◌, All-imp, All, keys, not, ◌&&◌, length, ltb,
}
use cap_protocol.Core.{Foreign}
use cap_protocol.Config.{
  SessionId, SessionSpec, Fleet, Action, Route, ConfigError, crashed, start_sessions,
  bad_session_id, too_many_sessions, bad_base_branch, empty_fan_out, subtask_join, empty_trigger,
}
use cap_protocol.Config.Names.{valid_git_ref, validate_agent_name, validate_manifest_path}
use cap_protocol.Config.Routes.{raw_tokens, trigger_sessions, action, first_action}
use cap_protocol.Config.Cycles.{detect_route_cycles}
use cap_protocol.Config.Cycles.Detect.{detect_route_cycles_correct}
use cap_protocol.Config.Validate.{
  check_id, check_session, check_known, check_token, check_action, check_route, validate, is_empty,
  is_by_subtask,
}
use cap_protocol.Config.Validate.WellFormed.{IsRoute}
use cap_protocol.Config.Validate.Sound.{IsRoute-IsClosed, check_route-IsRoute}

-- The result is a success or a message.
abbrev Spares : {A : Type 0} → Result ConfigError A → Type 0
Spares r = r ≢ err crashed

Spares->>= :
    {A B : Type 0} (m : Result ConfigError A) (f : A → Result ConfigError B)
    → Spares m
    → ((a : A) → m ≡ ok a → Spares (f a))
    → Spares (m >>= f)
Spares->>= (ok a) f s k = k a refl
Spares->>= (err e) f s k = λ h. s (cc h)

Spares-for_each :
    {A : Type 0} (body : A → Result ConfigError (Unit {0})) (xs : List A)
    → ((a : A) → Spares (body a))
    → Spares (for_each body xs)
unfolding for_each
Spares-for_each body [] s = λ h. cc h
Spares-for_each body (x ∷ xs) s =
    Spares->>= (body x) (λ _. for_each body xs) (s x) (λ _ _. Spares-for_each body xs s)

Spares-fail_if : (b : Bool) (e : ConfigError) → e ≢ crashed → Spares (fail_if b e)
Spares-fail_if true e d = λ h. d (cc h)
Spares-fail_if false e d = λ h. cc h

Spares-check_id : (id : SessionId) → Spares (check_id id)
unfolding check_id
Spares-check_id id = Spares-fail_if _ (bad_session_id id) (λ h. cc h)

Spares-check_session : (entry : SessionId × SessionSpec) → Spares (check_session entry)
unfolding check_session validate_agent_name validate_manifest_path
Spares-check_session entry h = ground arith

module _ {x : Foreign} (fleet : Fleet x) where
  Spares-check_known : (what : String) (id : SessionId) → Spares (check_known fleet what id)
  unfolding check_known
  Spares-check_known what id h = ground arith

  Spares-check_token : (token : String) → Spares (check_token fleet token)
  unfolding check_token check_known
  Spares-check_token token h = ground arith

  Spares-check_action : (r : Route) (a : Action) → Spares (check_action fleet r a)
  unfolding check_action check_known
  Spares-check_action r (Action.route_to to) = Spares-check_known "route_to" to
  Spares-check_action r (Action.fan_out f) =
      Spares->>= (fail_if (is_empty f.to) empty_fan_out) _
        (Spares-fail_if _ empty_fan_out (λ h. cc h))
        λ _ _.
          Spares->>= (for_each (check_known fleet "fan_out target") f.to) _
            (Spares-for_each _ f.to (Spares-check_known "fan_out target"))
            λ _ _.
              Spares-fail_if (is_by_subtask f.split && ltb 1 (length (trigger_sessions r)))
                subtask_join (λ h. cc h)
  Spares-check_action r (Action.collect c) = λ h. cc h

  Spares-action : (r : Route) → Spares (action r)
  unfolding action first_action
  Spares-action r h = ground arith

  Spares-check_route : (r : Route) → Spares (check_route fleet r)
  unfolding check_route
  Spares-check_route r =
      Spares->>= (fail_if (is_empty (raw_tokens r.trigger)) empty_trigger) _
        (Spares-fail_if _ empty_trigger (λ h. cc h))
        λ _ _.
          Spares->>= (for_each (check_token fleet) (raw_tokens r.trigger)) _
            (Spares-for_each _ (raw_tokens r.trigger) Spares-check_token)
            λ _ _. Spares->>= (action r) _ (Spares-action r) λ a _. Spares-check_action r a

  -- Once the routes have passed their checks, the search answers.
  Spares-detect :
      All (IsRoute (keys fleet.sessions)) fleet.routes → Spares (detect_route_cycles fleet)
  Spares-detect h e = elim (detect_route_cycles_correct fleet (IsRoute-IsClosed fleet h)) [
    | inl (passed, _) ↦ cc (passed, e)
    | inr (c, failed, _) ↦ cc (failed, e)
  ]

  -- Whatever the fleet, `validate` returns `Ok` or one of its messages: no index of the search is
  -- missing, its `expect` holds, and it ends.
  pub validate-ne-crashed : validate fleet ≢ err crashed
  unfolding validate
  validate-ne-crashed =
      Spares->>=
        (fail_if (ltb 256 (length fleet.sessions)) (too_many_sessions (length fleet.sessions))) _
        (Spares-fail_if _ (too_many_sessions (length fleet.sessions)) (λ h. cc h))
        λ _ _.
          Spares->>=
            (fail_if (not (valid_git_ref fleet.base_branch)) (bad_base_branch fleet.base_branch)) _
            (Spares-fail_if _ (bad_base_branch fleet.base_branch) (λ h. cc h))
            λ _ _.
              Spares->>= (for_each check_id (keys fleet.sessions)) _
                (Spares-for_each _ (keys fleet.sessions) Spares-check_id)
                λ _ _.
                  Spares->>= (for_each check_session fleet.sessions) _
                    (Spares-for_each _ fleet.sessions Spares-check_session)
                    λ _ _.
                      Spares->>= (for_each (check_known fleet "start") (start_sessions fleet.start))
                        _
                        (Spares-for_each _ (start_sessions fleet.start)
                          (Spares-check_known "start"))
                        λ _ _.
                          Spares->>= (for_each (check_route fleet) fleet.routes) _
                            (Spares-for_each _ fleet.routes Spares-check_route)
                            λ _ routed. Spares-detect (
                              All-imp (λ r. check_route fleet r ≡ ok tt)
                                (IsRoute (keys fleet.sessions)) fleet.routes
                                (check_route-IsRoute fleet) (for_each-ok _ fleet.routes routed))
