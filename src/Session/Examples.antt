-- ===== src/Session/Examples.antt =====
-- A session under the policy `allow`: a read is allowed at once, a risky command is the consumer's.
use cap_protocol.Prelude.{String, true, false, none, List, [], ◌∷◌, ◌≡◌, refl, All}
use cap_protocol.Core.{
  ClientFrame, Content, AgentEvent, PermissionDecision, PermissionScope, RiskLevel, StopReason,
  Usage,
}
use cap_protocol.Config.{PermissionPolicy}
use cap_protocol.Samples.{plain}
use cap_protocol.Registry.{default_spawn}
use cap_protocol.Session.{Signal, Options, run, config_frame}
use cap_protocol.Session.Outcome.{IsSettled}
use cap_protocol.Session.OneTurn.{run-IsSettled}
use cap_protocol.Session.Permissions.{IsLicensed}
use cap_protocol.Session.Provenance.{run-IsLicensed}
use cap_protocol.Session.Grants.{IsGranted, run-IsGranted}

abbrev worker : Options plain
worker = record {
  id = "coder";
  policy = PermissionPolicy.allow;
  cwd = "/work/coder";
  keep_alive = false;
  spawn_cfg = default_spawn;
  prompt_after_ready = true;
  refuses = λ sent f. none;
  cancelled = λ n. false;
}

abbrev no_usage : Usage plain
no_usage = record {
  input_tokens = 0;
  output_tokens = 0;
  cache_read_tokens = 0;
  cache_creation_tokens = 0;
  thinking_tokens = 0;
  cost_usd_estimate = none;
  duration = none;
  model_id = none;
  stop_reason = none;
}

abbrev request : String → RiskLevel → Signal plain
request id risk =
    Signal.event (AgentEvent.permission_request id "shell" plain.null PermissionScope.execute risk)

abbrev reply : PermissionDecision → ClientFrame plain
reply d = ClientFrame.permission_response "any" d

abbrev task : ClientFrame plain
task = ClientFrame.prompt (Content.text "fix it" ∷ [])

abbrev turn : List (Signal plain)
turn =
    Signal.received task
    ∷ Signal.event (AgentEvent.ready none "1" none)
    ∷ request "r1" RiskLevel.low
    ∷ request "r2" RiskLevel.high
    ∷ Signal.received (reply PermissionDecision.allow_once)
    ∷ request "r3" RiskLevel.high
    ∷ Signal.received task
    ∷ Signal.event (AgentEvent.done StopReason.end_turn no_usage)
    ∷ []

turn_sent :
    (run worker turn).sent
    ≡ config_frame worker
      ∷ task
      ∷ ClientFrame.permission_response "r1" PermissionDecision.allow_once
      ∷ ClientFrame.permission_response "r2" PermissionDecision.allow_once
      ∷ ClientFrame.permission_response "r3" PermissionDecision.deny
      ∷ []
unfolding run
turn_sent = refl

run-IsSettled_example : IsSettled (run worker turn).phase (run worker turn)
run-IsSettled_example = run-IsSettled worker refl turn

run-IsLicensed_example : All (IsLicensed worker turn) (run worker turn).sent
run-IsLicensed_example = run-IsLicensed worker turn

run-IsGranted_example : All (IsGranted worker turn) (run worker turn).sent
run-IsGranted_example = run-IsGranted worker turn
