-- ===== src/Config/Examples.antt =====
-- Fleets in the shape of docs/examples, accepted and refused.
use cap_protocol.Prelude.{
  String, true, false, none, some, List, [], ◌∷◌, ◌≡◌, ◌≢◌, refl, ◌⊎◌, ◌↔◌, ok, err, strip_prefix,
  strip_suffix, for_each, lookup, put,
}
use cap_protocol.Samples.{plain}
use cap_protocol.Config.{
  SessionSpec, DriverKind, PermissionPolicy, RoutingMode, Start, Trigger, single, joined, Split,
  human, Route, Fleet, route_cycle, unknown_session, crashed, start_sessions,
}
use cap_protocol.Config.{grpc}
use cap_protocol.Config.Manifest.{AgentManifest, bool, url, driver_kind_from_agent_manifest}
use cap_protocol.Config.Chosen.{Found, ByGrpc, driver_kind_from_agent_manifest-ByGrpc}
use cap_protocol.Config.Names.{valid_git_ref, valid_session_id}
use cap_protocol.Config.Routes.{raw_tokens, trigger_sessions, token_session, action}
use cap_protocol.Config.Cycles.{detect_route_cycles}
use cap_protocol.Config.Cycles.Walks.{IsAcyclic, IsCycle}
use cap_protocol.Config.Cycles.Graph.{Feeds}
use cap_protocol.Config.Cycles.Detect.{IsClosed, detect_route_cycles_correct}
use cap_protocol.Config.Validate.{check_route, validate}
use cap_protocol.Config.Validate.WellFormed.{IsWellFormed}
use cap_protocol.Config.Validate.Sound.{check_route-IsRoute, IsRoute-IsClosed}
use cap_protocol.Config.Validate.Complete.{validate_iff}
use cap_protocol.Config.Validate.Panics.{validate-ne-crashed}

abbrev pub agent : DriverKind → SessionSpec
agent kind = record {
  driver = some kind;
  agent = none;
  manifest = none;
  permissions = none;
  role = none;
  model = none;
  system_prompt = none;
  max_turns = none;
}

abbrev pub hand_over : Trigger → String → Route
hand_over when to = record { trigger = when; route_to = some to; fan_out = none; collect = none }

abbrev pub fleet_of : List Route → Fleet plain
fleet_of routes = record {
  base_branch = "main";
  task = none;
  permissions = PermissionPolicy.ask;
  budget_usd = some 5;
  mode = RoutingMode.static;
  llm = none;
  sessions =
      ("a", agent DriverKind.claude)
      ∷ ("b", agent DriverKind.codex)
      ∷ ("c", agent DriverKind.claude)
      ∷ [];
  start = Start.one "a";
  routes = routes;
}

-- a feeds b and c, and both are joined for a human.
abbrev pub diamond : Fleet plain
diamond = fleet_of (
    record {
      trigger = single "a.done";
      route_to = none;
      fan_out = some (record { to = "b" ∷ "c" ∷ []; split = Split.broadcast });
      collect = none;
    }
    ∷ record {
      trigger = joined ("b.done" ∷ "c.done" ∷ []);
      route_to = none;
      fan_out = none;
      collect = some human;
    }
    ∷ [])

abbrev loop : Fleet plain
loop = fleet_of (
    hand_over (single "a.done") "b"
    ∷ hand_over (single "b.done") "c"
    ∷ hand_over (single "c.done") "b"
    ∷ [])

abbrev stray : Fleet plain
stray = fleet_of (hand_over (single "a.done") "d" ∷ [])

pub diamond_accepted : validate diamond ≡ ok tt
unfolding validate valid_git_ref valid_session_id strip_prefix for_each start_sessions lookup put
    raw_tokens strip_suffix action detect_route_cycles trigger_sessions token_session
diamond_accepted = refl

loop_refused : validate loop ≡ err (route_cycle ("b" ∷ "c" ∷ []))
unfolding validate valid_git_ref valid_session_id strip_prefix for_each start_sessions lookup put
    raw_tokens strip_suffix action detect_route_cycles trigger_sessions token_session
loop_refused = refl

stray_refused : validate stray ≡ err (unknown_session "route_to" "d")
unfolding validate valid_git_ref valid_session_id strip_prefix for_each start_sessions lookup put
    raw_tokens strip_suffix action detect_route_cycles trigger_sessions token_session
stray_refused = refl

validate_iff_example : (validate diamond ≡ ok tt) ↔ IsWellFormed diamond
validate_iff_example = validate_iff diamond

validate-ne-crashed_example : validate loop ≢ err crashed
validate-ne-crashed_example = validate-ne-crashed loop

loop-IsClosed : IsClosed loop
unfolding check_route strip_suffix lookup raw_tokens for_each action
loop-IsClosed = IsRoute-IsClosed loop (
  check_route-IsRoute loop (hand_over (single "a.done") "b") refl,
  (
    check_route-IsRoute loop (hand_over (single "b.done") "c") refl,
    (check_route-IsRoute loop (hand_over (single "c.done") "b") refl, tt),
  ),
)

detect_route_cycles_correct_example :
    ((detect_route_cycles loop ≡ ok tt) × IsAcyclic (Feeds loop.routes))
    ⊎ ((c : List String) × (detect_route_cycles loop ≡ err (route_cycle c))
        × IsCycle (Feeds loop.routes) c)
detect_route_cycles_correct_example = detect_route_cycles_correct loop loop-IsClosed

-- A manifest may name a host that the name of a driver may not: `grpc:localhost:1` is refused.
abbrev local : AgentManifest
local = record {
  name = "a";
  binary = "a";
  startup_command = "a" ∷ [];
  stream_json = bool false;
  grpc_path = url "http://localhost:1";
  acp_stdio = bool true;
  a2a_serve_at = bool false;
}

local_kind : driver_kind_from_agent_manifest local ≡ some (grpc "localhost:1")
unfolding driver_kind_from_agent_manifest
local_kind = refl

driver_kind_from_agent_manifest-ByGrpc_example :
    Found local "a"
      (ByGrpc local "a" (url "http://localhost:1"))
      (driver_kind_from_agent_manifest local)
driver_kind_from_agent_manifest-ByGrpc_example =
    driver_kind_from_agent_manifest-ByGrpc local "a" [] refl
