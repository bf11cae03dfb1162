-- ===== src/Executor/Examples.antt =====
-- A run of three sessions: a's completion is routed to b and c, and the fleet ends with them.
use cap_protocol.Prelude.{
  ℕ, String, true, false, none, some, List, [], ◌∷◌, ◌≡◌, refl, ok, ◌+◌, ◌==◌, lookup, put,
  insert_key, if◌then◌else◌,
}
use cap_protocol.Core.{StopReason, AgentEvent, TextChannel, Usage}
use cap_protocol.Config.{start_sessions}
use cap_protocol.Samples.{plain}
use cap_protocol.Config.Examples.{diamond}
use cap_protocol.Config.Drivers.{driver_kind}
use cap_protocol.Event.{OrchestratorEvent}
use cap_protocol.Audit.{AuditEvent, push, empty_log}
use cap_protocol.Audit.Order.{IsNumbered, push-IsNumbered}
use cap_protocol.Registry.{Platform, is_live, spawn_with_mode}
use cap_protocol.Routing.{RouteDecision}
use cap_protocol.Executor.{Setup, on_session_done, fleet_complete, forward}
use cap_protocol.Executor.Loop.{Input, fresh, drive, state_of, push_text}
use cap_protocol.Executor.Completion.{IsReported, decisions_for, on_session_done_lem}
use cap_protocol.Executor.Reports.{IsClosed, AreAudited, drive-AreAudited, drive-IsClosed}
use cap_protocol.Executor.Budget.{total_cost, transcripts}
use cap_protocol.Executor.Leaks.{IsCleanEnd, drive-IsCleanEnd}

-- The world is a clock; every worktree and driver can be made.
abbrev clock : Platform
clock = record {
  World = ℕ;
  create = λ id base now. (ok id, now + 1);
  cleanup = λ id now. now + 1;
  build = λ id kind cwd policy now. (ok tt, now + 1);
  receives = λ id now. true;
  now = λ now. now;
}

abbrev scripted : Setup plain clock
scripted = record {
  spec = diamond;
  task = "build it";
  chat_mode = false;
  parse_url = λ s. none;
  from_manifest = λ s. none;
  strategy = λ ctx id stop now. (
    if id == "a"
        then RouteDecision.fan_out (("b", "left") ∷ ("c", "right") ∷ []) ∷ []
        else RouteDecision.none ∷ [],
    now + 1,
  );
}

abbrev ends : String → ℕ × Input plain
ends id = (10, Input.bus (OrchestratorEvent.session_done id StopReason.end_turn))

abbrev script : List (ℕ × Input plain)
script = ends "a" ∷ ends "b" ∷ ends "c" ∷ []

script_out :
    (state_of (drive scripted 0 script)).out
    ≡ OrchestratorEvent.session_done "a" StopReason.end_turn
      ∷ OrchestratorEvent.routed "a" "b"
      ∷ OrchestratorEvent.routed "a" "c"
      ∷ OrchestratorEvent.session_done "b" StopReason.end_turn
      ∷ OrchestratorEvent.session_done "c" StopReason.end_turn
      ∷ OrchestratorEvent.fleet_complete
      ∷ []
unfolding drive fleet_complete start_sessions lookup driver_kind spawn_with_mode insert_key is_live
    put forward
script_out = refl

-- The same fleet with a limit on its cost.
abbrev limited : Setup plain clock
limited = record scripted { spec = record diamond { budget_usd = some 10 } }

abbrev said : String → String → ℕ × Input plain
said id text = (
  3,
  Input.bus (OrchestratorEvent.agent id (AgentEvent.text_chunk "m" text TextChannel.assistant)),
)

abbrev used : ℕ → Usage plain
used cost = record {
  input_tokens = 1;
  output_tokens = 1;
  cache_read_tokens = 0;
  cache_creation_tokens = 0;
  thinking_tokens = 0;
  cost_usd_estimate = some cost;
  duration = none;
  model_id = none;
  stop_reason = none;
}

abbrev spent : String → ℕ → ℕ × Input plain
spent id cost = (4, Input.bus (OrchestratorEvent.agent id (AgentEvent.usage (used cost))))

abbrev report : List (ℕ × Input plain)
report = said "a" "pl" ∷ spent "a" 4 ∷ said "a" "an" ∷ spent "a" 3 ∷ []

report_sums : (total_cost report 0 ≡ 7) × (transcripts report [] ≡ ("a", "plan") ∷ [])
unfolding lookup put push_text
report_sums = (refl, refl)

drive-AreAudited_example : AreAudited (state_of (drive scripted 0 script))
drive-AreAudited_example = drive-AreAudited scripted 0 script (tt, (tt, (tt, tt)))

drive-IsClosed_example : IsClosed (drive scripted 0 script)
drive-IsClosed_example = drive-IsClosed scripted 0 script (tt, (tt, (tt, tt)))

drive-IsCleanEnd_example : IsCleanEnd (drive scripted 0 script)
drive-IsCleanEnd_example = drive-IsCleanEnd scripted 0 script

on_session_done_lem_example :
    IsReported
      (decisions_for scripted "a" StopReason.end_turn (fresh scripted 0))
      "a"
      StopReason.end_turn
      (fresh scripted 0)
      (on_session_done scripted "a" StopReason.end_turn (fresh scripted 0)).1
on_session_done_lem_example =
    on_session_done_lem scripted "a" StopReason.end_turn (fresh scripted 0)

push-IsNumbered_example :
    IsNumbered 0
      (push 8 (AuditEvent.route "b" "c") (push 7 (AuditEvent.route "a" "b") empty_log)).records
push-IsNumbered_example =
    push-IsNumbered 8 (AuditEvent.route "b" "c") (push 7 (AuditEvent.route "a" "b") empty_log)
      (push-IsNumbered 7 (AuditEvent.route "a" "b") empty_log tt)
