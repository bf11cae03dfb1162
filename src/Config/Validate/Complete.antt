-- ===== src/Config/Validate/Complete.antt =====
-- What is well formed is accepted, so `validate` decides well-formedness.
use cap_protocol.Prelude.{
  String, not, List, length, ltb, ◌≡◌, true, Member, All-imp, keys, ok, arith, fail_if-pass,
  >>-pass, ok-for_each, contains_key-Member, strip_suffix-append, ◌>>=◌, ◌↔◌, length-map,
}
use cap_protocol.Core.{Foreign}
use cap_protocol.Config.{
  SessionId, SessionSpec, Fleet, Route, start_sessions, too_many_sessions, bad_base_branch,
}
use cap_protocol.Config.Names.{
  valid_git_ref, valid_session_id, validate_agent_name, validate_manifest_path,
}
use cap_protocol.Config.Routes.{raw_tokens, trigger_sessions, token_session, action, first_action}
use cap_protocol.Config.Cycles.Detect.{detect_route_cycles_iff}
use cap_protocol.Config.Validate.{
  check_id, check_session, check_known, check_token, check_action, check_route, validate,
}
use cap_protocol.Config.Validate.WellFormed.{
  HasDriver, by_driver, by_agent, by_manifest, to_one, to_many, to_human, IsToken, IsRoute,
  IsWellFormed,
}
use cap_protocol.Config.Validate.Sound.{IsRoute-IsClosed, validate-IsWellFormed}

HasDriver-check_session :
    (id : SessionId) (s : SessionSpec) → HasDriver s → check_session (id, s) ≡ ok tt
unfolding check_session validate_agent_name validate_manifest_path
HasDriver-check_session id s (by_driver d e f g) = rw (e, f, g)
HasDriver-check_session id s (by_agent a e f g v) = rw (e, f, g) (rw v)
HasDriver-check_session id s (by_manifest p e f g v) = rw (e, f, g) (rw v)

module _ {x : Foreign} (fleet : Fleet x) where
  abbrev ids : List SessionId
  ids = keys fleet.sessions

  Member-check_known :
      (what : String) (id : SessionId) → Member id ids → check_known fleet what id ≡ ok tt
  unfolding check_known
  Member-check_known what id m = rw (contains_key-Member fleet.sessions id m)

  IsToken-check_token : (token : String) → IsToken ids token → check_token fleet token ≡ ok tt
  unfolding check_token
  IsToken-check_token token (id, e, m) =
      rw e (rw (strip_suffix-append id ".done") (Member-check_known "trigger" id m))

  IsRoute-check_action : (r : Route) → IsRoute ids r → (action r >>= check_action fleet r) ≡ ok tt
  unfolding action first_action check_action trigger_sessions
  IsRoute-check_action r h = elim h.acts [
    | to_one to e f g m ↦ rw (e, f, g) (Member-check_known "route_to" to m)
    | to_many o e f g some_target targets joined ↦
        rw (e, f, g)
          (>>-pass _ _ (fail_if-pass _ _ (ground arith)) (
            >>-pass _ _
              (ok-for_each _ o.to (
                All-imp (λ to. Member to ids) (λ to. check_known fleet "fan_out target" to ≡ ok tt)
                  o.to (Member-check_known "fan_out target") targets))
              (fail_if-pass _ _ (ground (arith, length-map token_session (raw_tokens r.trigger))))))
    | to_human c e f g ↦ rw (e, f, g)
  ]

  IsRoute-check_route : (r : Route) → IsRoute ids r → check_route fleet r ≡ ok tt
  unfolding check_route
  IsRoute-check_route r h = >>-pass _ _ (fail_if-pass _ _ (ground (arith, h.triggered))) (
      >>-pass _ _
        (ok-for_each _ (raw_tokens r.trigger) (
          All-imp (IsToken ids) (λ t. check_token fleet t ≡ ok tt) (raw_tokens r.trigger)
            IsToken-check_token h.tokens))
        (IsRoute-check_action r h))

  IsWellFormed-validate : IsWellFormed fleet → validate fleet ≡ ok tt
  unfolding validate check_id
  IsWellFormed-validate h =
      >>-pass _ _
        (fail_if-pass (ltb 256 (length fleet.sessions)) (too_many_sessions (length fleet.sessions))
          (ground arith))
        (>>-pass _ _
          (fail_if-pass (not (valid_git_ref fleet.base_branch)) (bad_base_branch fleet.base_branch)
            (rw h.branch))
          (>>-pass _ _
            (ok-for_each _ ids (
              All-imp (λ id. valid_session_id id ≡ true) (λ id. check_id id ≡ ok tt) ids
                (λ id e. rw e) h.ids))
            (>>-pass _ _
              (ok-for_each _ fleet.sessions (
                All-imp (λ (entry : SessionId × SessionSpec). HasDriver entry.1)
                  (λ entry. check_session entry ≡ ok tt) fleet.sessions
                  (λ (id, s) d. HasDriver-check_session id s d) h.drivers))
              (>>-pass _ _
                (ok-for_each _ (start_sessions fleet.start) (
                  All-imp (λ id. Member id ids) (λ id. check_known fleet "start" id ≡ ok tt)
                    (start_sessions fleet.start) (Member-check_known "start") h.starts))
                (>>-pass _ _
                  (ok-for_each _ fleet.routes (
                    All-imp (IsRoute ids) (λ r. check_route fleet r ≡ ok tt) fleet.routes
                      IsRoute-check_route h.routes))
                  ((detect_route_cycles_iff fleet (IsRoute-IsClosed fleet h.routes)).1
                    h.acyclic))))))

  -- `validate` accepts exactly the well-formed fleets.
  pub validate_iff : (validate fleet ≡ ok tt) ↔ IsWellFormed fleet
  validate_iff = (validate-IsWellFormed fleet, IsWellFormed-validate)
