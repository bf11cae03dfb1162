-- ===== src/Config/Validate.antt =====
-- `FleetSpec::validate` of config.rs.
pub mod WellFormed
pub mod Sound
pub mod Complete
pub mod Panics
use cap_protocol.Prelude.{
  ℕ, ◌+◌, String, Bool, not, Option, none, some, List, [], ◌∷◌, length, ltb, ◌=ℕ◌, ◌==◌, Result, ok,
  err, ◌>>=◌, ◌>>◌, fail_if, ok_or, for_each, keys, contains_key, strip_suffix, lookup, ◌&&◌,
}
use cap_protocol.Core.{Foreign}
use cap_protocol.Config.{
  SessionId, SessionSpec, Fleet, FanOut, Split, by_subtask, broadcast, Action, Route,
  start_sessions, ConfigError, too_many_sessions, bad_base_branch, bad_session_id, not_one_driver,
  unknown_session, empty_trigger, empty_fan_out, subtask_join, not_done_token,
}
use cap_protocol.Config.Names.{
  valid_git_ref, valid_session_id, validate_agent_name, validate_manifest_path,
}
use cap_protocol.Config.Routes.{raw_tokens, trigger_sessions, count_some, action}
use cap_protocol.Config.Cycles.{detect_route_cycles}

abbrev pub max_sessions : ℕ
max_sessions = 256

-- `v.is_empty()`
abbrev pub is_empty {ℓ} : {A : Type ℓ} → List A → Bool
is_empty [] = Bool.true
is_empty (_ ∷ _) = Bool.false

abbrev pub is_by_subtask : Split → Bool
is_by_subtask by_subtask = Bool.true
is_by_subtask broadcast = Bool.false

-- `if let Some(v) = opt { check(v)?; }`
abbrev pub check_some :
    {A : Type 0} → Option A → (A → Result ConfigError (Unit {0})) → Result ConfigError (Unit {0})
check_some none check = ok tt
check_some (some a) check = check a

unfoldable pub check_id : SessionId → Result ConfigError (Unit {0})
check_id id = fail_if (not (valid_session_id id)) (bad_session_id id)

-- The body of the loop over the sessions.
unfoldable pub check_session : SessionId × SessionSpec → Result ConfigError (Unit {0})
check_session entry = do
  let s = entry.1
  let configured = count_some s.driver + count_some s.agent + count_some s.manifest
  fail_if (not (configured =ℕ 1)) (not_one_driver entry.0)
  check_some s.agent validate_agent_name
  check_some s.manifest validate_manifest_path

module _ {x : Foreign} (fleet : Fleet x) where
  -- The closures `known` and `bad`.
  unfoldable pub check_known : String → SessionId → Result ConfigError (Unit {0})
  check_known what id = fail_if (not (contains_key fleet.sessions id)) (unknown_session what id)

  unfoldable pub check_token : String → Result ConfigError (Unit {0})
  unfolding check_known
  check_token token = do
    id ← ok_or (strip_suffix token ".done") (not_done_token token)
    check_known "trigger" id

  -- The arms of `match route.action()?`.
  unfoldable pub check_action : Route → Action → Result ConfigError (Unit {0})
  unfolding check_known
  check_action r (Action.route_to to) = check_known "route_to" to
  check_action r (Action.fan_out f) = do
    fail_if (is_empty f.to) empty_fan_out
    for_each (check_known "fan_out target") f.to
    fail_if (is_by_subtask f.split && ltb 1 (length (trigger_sessions r))) subtask_join
  check_action r (Action.collect c) = ok tt

  -- The body of the loop over the routes.
  unfoldable pub check_route : Route → Result ConfigError (Unit {0})
  unfolding check_token check_action
  check_route r = do
    fail_if (is_empty (raw_tokens r.trigger)) empty_trigger
    for_each check_token (raw_tokens r.trigger)
    a ← action r
    check_action r a

  unfoldable pub validate : Result ConfigError (Unit {0})
  unfolding check_id check_session check_known check_route
  validate = do
    fail_if (ltb max_sessions (length fleet.sessions)) (too_many_sessions (length fleet.sessions))
    fail_if (not (valid_git_ref fleet.base_branch)) (bad_base_branch fleet.base_branch)
    for_each check_id (keys fleet.sessions)
    for_each check_session fleet.sessions
    for_each (check_known "start") (start_sessions fleet.start)
    for_each check_route fleet.routes
    detect_route_cycles fleet
