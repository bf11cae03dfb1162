-- ===== src/Config/Validate/WellFormed.antt =====
-- What a fleet file has to satisfy, said without the order of the checks or their errors.
use Prim.Native.String.{◌++◌}
use cap_protocol.Prelude.{
  ◌≤◌, String, none, some, List, [], length, ◌≡◌, ◌≢◌, true, false, Member, All, keys,
}
use cap_protocol.Core.{Foreign}
use cap_protocol.Config.{
  SessionId, SessionSpec, DriverKind, Fleet, FanOut, Collect, by_subtask, Route, start_sessions,
}
use cap_protocol.Config.Names.{valid_git_ref, valid_session_id, valid_binary_name, bad_path}
use cap_protocol.Config.Routes.{raw_tokens}
use cap_protocol.Config.Cycles.Walks.{IsAcyclic}
use cap_protocol.Config.Cycles.Graph.{Feeds}

-- Exactly one of `driver`, `agent` and `manifest` is set, and its name is a safe one.
pub data HasDriver (s : SessionSpec) : Type 0 where
  by_driver :
      (d : DriverKind) → s.driver ≡ some d → s.agent ≡ none → s.manifest ≡ none → HasDriver s
  by_agent :
      (a : String)
      → s.driver ≡ none
      → s.agent ≡ some a
      → s.manifest ≡ none
      → valid_binary_name a ≡ true
      → HasDriver s
  by_manifest :
      (p : String)
      → s.driver ≡ none
      → s.agent ≡ none
      → s.manifest ≡ some p
      → bad_path p ≡ false
      → HasDriver s

-- Exactly one of `route_to`, `fan_out` and `collect` is set, its targets are sessions of the fleet,
-- and a split by subtask has targets and a single trigger.
pub data HasAction (ids : List SessionId) (r : Route) : Type 0 where
  to_one :
      (to : SessionId)
      → r.route_to ≡ some to
      → r.fan_out ≡ none
      → r.collect ≡ none
      → Member to ids
      → HasAction ids r
  to_many :
      (f : FanOut)
      → r.route_to ≡ none
      → r.fan_out ≡ some f
      → r.collect ≡ none
      → f.to ≢ []
      → All (λ to. Member to ids) f.to
      → (f.split ≡ by_subtask → length (raw_tokens r.trigger) ≤ 1)
      → HasAction ids r
  to_human :
      (c : Collect) → r.route_to ≡ none → r.fan_out ≡ none → r.collect ≡ some c → HasAction ids r

-- A trigger token is a session of the fleet followed by `.done`.
abbrev pub IsToken : List SessionId → String → Type 0
IsToken ids token = (id : SessionId) × (token ≡ id ++ ".done") × Member id ids

pub record IsRoute (ids : List SessionId) (r : Route) : Type 0 where
  pub triggered : raw_tokens r.trigger ≢ []
  pub tokens : All (IsToken ids) (raw_tokens r.trigger)
  pub acts : HasAction ids r

pub record IsWellFormed {x : Foreign} (fleet : Fleet x) : Type 0 where
  pub few : length fleet.sessions ≤ 256
  pub branch : valid_git_ref fleet.base_branch ≡ true
  pub ids : All (λ id. valid_session_id id ≡ true) (keys fleet.sessions)
  pub drivers : All (λ (entry : SessionId × SessionSpec). HasDriver entry.1) fleet.sessions
  pub starts : All (λ id. Member id (keys fleet.sessions)) (start_sessions fleet.start)
  pub routes : All (IsRoute (keys fleet.sessions)) fleet.routes
  pub acyclic : IsAcyclic (Feeds fleet.routes)
