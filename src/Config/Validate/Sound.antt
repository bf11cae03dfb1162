-- ===== src/Config/Validate/Sound.antt =====
-- What `validate` accepts is well formed.
use cap_protocol.Prelude.{
  ◌≤◌, String, not, Option, none, some, List, [], ◌∷◌, length, ltb, ◌≡◌, ◌≢◌, inl, inr, true,
  Member, All, All-imp, All-at, keys, ok, arith, fail_if, fail_if-ok, >>-ok, for_each-ok,
  Member-contains_key, strip_suffix, strip_suffix-some, ◌>>=◌, ok_or, refl, ap, subst, length-map,
  >>=-ok,
}
use cap_protocol.Core.{Foreign}
use cap_protocol.Config.{
  SessionId, SessionSpec, DriverKind, Fleet, FanOut, by_subtask, Collect, Action, Route,
  start_sessions, empty_trigger, not_done_token, empty_fan_out, too_many_sessions, bad_base_branch,
}
use cap_protocol.Config.Names.{
  valid_git_ref, valid_session_id, validate_agent_name, validate_manifest_path,
}
use cap_protocol.Config.Routes.{raw_tokens, trigger_sessions, token_session, action, first_action}
use cap_protocol.Config.Cycles.{action_targets}
use cap_protocol.Config.Cycles.Detect.{IsClosed, detect_route_cycles_iff}
use cap_protocol.Config.Cycles.Graph.{Feeds}
use cap_protocol.Config.Validate.{
  check_id, check_session, check_known, check_token, check_action, check_route, validate, is_empty,
}
use cap_protocol.Config.Validate.WellFormed.{
  HasDriver, by_driver, by_agent, by_manifest, HasAction, to_one, to_many, to_human, IsToken,
  IsRoute, IsWellFormed,
}

-- The three options in turn.
driver_cases :
    (id : SessionId) (s : SessionSpec) (d : Option DriverKind) (a m : Option String)
    → s.driver ≡ d
    → s.agent ≡ a
    → s.manifest ≡ m
    → check_session (id, s) ≡ ok tt
    → HasDriver s
unfolding check_session validate_agent_name validate_manifest_path
driver_cases id s (some d) none none e f g h = by_driver d e f g
driver_cases id s none (some a) none e f g h = by_agent a e f g (ground arith)
driver_cases id s none none (some p) e f g h = by_manifest p e f g (ground arith)
driver_cases id s none none none e f g h = absurd (ground arith)
driver_cases id s _ _ _ e f g h = absurd (ground arith)

check_session-HasDriver :
    (id : SessionId) (s : SessionSpec) → check_session (id, s) ≡ ok tt → HasDriver s
check_session-HasDriver id s h = driver_cases id s s.driver s.agent s.manifest refl refl refl h

check_id-valid : (id : SessionId) → check_id id ≡ ok tt → valid_session_id id ≡ true
unfolding check_id
check_id-valid id h = ground arith

module _ {x : Foreign} (fleet : Fleet x) where
  abbrev pub ids : List SessionId
  ids = keys fleet.sessions

  check_known-Member :
      (what : String) (id : SessionId) → check_known fleet what id ≡ ok tt → Member id ids
  unfolding check_known
  check_known-Member what id h = Member-contains_key fleet.sessions id (ground arith)

  IsToken-known :
      (token : String) (o : Option SessionId)
      → strip_suffix token ".done" ≡ o
      → (ok_or o (not_done_token token) >>= check_known fleet "trigger") ≡ ok tt
      → IsToken ids token
  IsToken-known token none e h = cc
  IsToken-known token (some id) e h =
      (id, strip_suffix-some token ".done" e, check_known-Member "trigger" id h)

  check_token-IsToken : (token : String) → check_token fleet token ≡ ok tt → IsToken ids token
  unfolding check_token
  check_token-IsToken token h = IsToken-known token (strip_suffix token ".done") refl h

  fan_out_checks :
      (r : Route) (f : FanOut)
      → check_action fleet r (Action.fan_out f) ≡ ok tt
      → (f.to ≢ [])
        × All (λ to. Member to ids) f.to
        × (f.split ≡ by_subtask → length (raw_tokens r.trigger) ≤ 1)
  unfolding check_action trigger_sessions
  fan_out_checks r f k =
      let (some_target, rest) = >>-ok (fail_if (is_empty f.to) empty_fan_out) _ k in
      let (targets, joined) = >>-ok _ _ rest in
      (
        λ e. cc (ap is_empty e, fail_if-ok (is_empty f.to) empty_fan_out some_target),
        All-imp (λ to. check_known fleet "fan_out target" to ≡ ok tt) (λ to. Member to ids) f.to
            (check_known-Member "fan_out target") (for_each-ok _ f.to targets),
        λ e. ground (arith, length-map token_session (raw_tokens r.trigger)),
      )

  -- The three options of a route in turn.
  action_cases :
      (r : Route) (a : Action) (t : Option SessionId) (f : Option FanOut) (c : Option Collect)
      → r.route_to ≡ t
      → r.fan_out ≡ f
      → r.collect ≡ c
      → action r ≡ ok a
      → check_action fleet r a ≡ ok tt
      → HasAction ids r
  unfolding action first_action
  action_cases r (Action.route_to to) (some t) none none e f g h k =
      let e' : r.route_to ≡ some to = ground arith in
      to_one to e' f g (check_known-Member "route_to" to (unfold check_action in k))
  action_cases r (Action.fan_out o) none (some fo) none e f g h k =
      let f' : r.fan_out ≡ some o = ground arith in
      let (some_target, targets, single_trigger) = fan_out_checks r o k in
      to_many o e f' g some_target targets single_trigger
  action_cases r a none none (some c) e f g h k = to_human c e f g
  action_cases r a none none none e f g h k = absurd (ground arith)
  action_cases r a _ _ _ e f g h k = absurd (ground arith)

  pub check_route-IsRoute : (r : Route) → check_route fleet r ≡ ok tt → IsRoute ids r
  unfolding check_route
  check_route-IsRoute r h =
      let tokens_of = raw_tokens r.trigger in
      let (triggered, rest) = >>-ok (fail_if (is_empty tokens_of) empty_trigger) _ h in
      let (tokens, acts) = >>-ok _ _ rest in
      let (a, e, done) = >>=-ok _ _ acts in
      record {
        triggered =
            λ e. cc (ap is_empty e, fail_if-ok (is_empty tokens_of) empty_trigger triggered);
        tokens =
            All-imp (λ t. check_token fleet t ≡ ok tt) (IsToken ids) (raw_tokens r.trigger)
              check_token-IsToken (for_each-ok _ (raw_tokens r.trigger) tokens);
        acts = action_cases r a r.route_to r.fan_out r.collect refl refl refl e done;
      }

  -- A route that is well formed has its one action, and leads to sessions of the fleet.
  pub IsRoute-action :
      (r : Route)
      → IsRoute ids r
      → (a : Action) × (action r ≡ ok a) × All (λ v. Member v ids) (action_targets a)
  unfolding action first_action action_targets
  IsRoute-action r h = elim h.acts [
    | to_one to e f g m ↦ (Action.route_to to, ground arith, (m, tt))
    | to_many o e f g some_target targets joined ↦ (Action.fan_out o, ground arith, targets)
    | to_human c e f g ↦ (Action.collect c, ground arith, tt)
  ]

  pub IsRoute-IsClosed : All (IsRoute ids) fleet.routes → IsClosed fleet
  IsRoute-IsClosed h = record {
    actions =
        All-imp (IsRoute ids) (λ r. (a : Action) × (action r ≡ ok a)) fleet.routes
          (λ r i. let (a, e, _) = IsRoute-action r i in (a, e)) h;
    targets = λ u v. feeds_known fleet.routes h u v;
  }
    where
      feeds_known :
          (routes : List Route)
          → All (IsRoute ids) routes
          → (u v : String) → Feeds routes u v
          → Member v ids
      feeds_known [] i u v f = absurd f
      feeds_known (r ∷ rs) i u v (inl (t, (b, e, m))) =
          let (a, e', targets) = IsRoute-action r i.0 in
          All-at (λ w. Member w ids) (action_targets b) v
            (subst (λ o. All (λ w. Member w ids) (action_targets o)) (cc (e, e')) targets) m
      feeds_known (r ∷ rs) i u v (inr f) = feeds_known rs i.1 u v f

  -- A fleet that `validate` accepts satisfies every rule of the file format.
  pub validate-IsWellFormed : validate fleet ≡ ok tt → IsWellFormed fleet
  unfolding validate
  validate-IsWellFormed h =
      let size = length fleet.sessions in
      let (few, h₁) = >>-ok (fail_if (ltb 256 size) (too_many_sessions size)) _ h in
      let (branch, h₂) =
        >>-ok (fail_if (not (valid_git_ref fleet.base_branch)) (bad_base_branch fleet.base_branch))
          _ h₁ in
      let (named, h₃) = >>-ok _ _ h₂ in
      let (driven, h₄) = >>-ok _ _ h₃ in
      let (started, h₅) = >>-ok _ _ h₄ in
      let (routed, h₆) = >>-ok _ _ h₅ in
      let routes =
        All-imp (λ r. check_route fleet r ≡ ok tt) (IsRoute ids) fleet.routes check_route-IsRoute
          (for_each-ok _ fleet.routes routed) in
      record {
        few = ground (arith, fail_if-ok (ltb 256 size) (too_many_sessions size) few);
        branch = ground arith;
        ids =
            All-imp (λ id. check_id id ≡ ok tt) (λ id. valid_session_id id ≡ true) ids
              check_id-valid (for_each-ok _ ids named);
        drivers =
            All-imp (λ entry. check_session entry ≡ ok tt)
              (λ (entry : SessionId × SessionSpec). HasDriver entry.1) fleet.sessions
              (λ (id, s) e. check_session-HasDriver id s e) (for_each-ok _ fleet.sessions driven);
        starts =
            All-imp (λ id. check_known fleet "start" id ≡ ok tt) (λ id. Member id ids)
              (start_sessions fleet.start) (check_known-Member "start")
              (for_each-ok _ (start_sessions fleet.start) started);
        routes = routes;
        acyclic = (detect_route_cycles_iff fleet (IsRoute-IsClosed routes)).0 h₆;
      }
