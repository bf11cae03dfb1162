-- ===== src/Launch.antt =====
-- Which programs are started for a session, with which arguments: the builder of
-- crates/cap-rs/src/driver/stream_json.rs and crates/cap-rs-orchestrator/src/real_factory.rs.
pub mod Factory
mod Restrained
mod Examples
use cap_protocol.Prelude.{
  String, Bool, true, false, Option, none, some, List, [], ◌∷◌, ◌++◌, ◌||◌, ◌==◌, if◌then◌else◌,
}
use cap_protocol.Json.{unwrap_or, or_else}

-- A program and its arguments
pub record Command : Type 0 where
  pub bin : String
  pub args : List String

-- How the start of a program goes, as the factory sees it after 200 milliseconds.
pub data Attempt : Type 0 where
  alive exited_early not_found : Attempt
  failed : String → Attempt

-- What the operating system answers: variables of the environment, `Path::file_stem`, whether the output
-- of `--help` after these arguments contains a text, and the start of a program.
pub record System : Type 0 where
  pub env_var : String → Option String
  pub file_stem : String → Option String
  pub help_has : String → List String → String → Bool
  pub attempt : Command → Attempt

pub record ClaudeCodeDriverBuilder : Type 0 where
  pub bin : Option String
  pub cwd : String
  pub model : Option String
  pub session_id : Option String
  pub resume : Option String
  pub replay_user_messages : Bool
  pub permission_mode : Option String
  pub codex_approval_policy : Option String
  pub codex_sandbox : String
  pub dangerously_skip_permissions : Bool
  pub is_opencode : Bool
  pub is_codex : Bool
  pub is_rscode : Bool
  pub continue_last : Bool
  pub prompt_after_ready : Bool
  pub extra_args : List String
  pub env : List (String × String)

abbrev pub builder : String → ClaudeCodeDriverBuilder
builder cwd = record {
  bin = none;
  cwd = cwd;
  model = none;
  session_id = none;
  resume = none;
  replay_user_messages = true;
  permission_mode = none;
  codex_approval_policy = none;
  codex_sandbox = "workspace-write";
  dangerously_skip_permissions = false;
  is_opencode = false;
  is_codex = false;
  is_rscode = false;
  continue_last = false;
  prompt_after_ready = false;
  extra_args = [];
  env = [];
}

abbrev pub opencode_builder : String → ClaudeCodeDriverBuilder
opencode_builder cwd = record (builder cwd) { replay_user_messages = false; is_opencode = true }

abbrev pub codex_builder : String → ClaudeCodeDriverBuilder
codex_builder cwd = record (builder cwd) { replay_user_messages = false; is_codex = true }

abbrev pub rscode_builder : String → ClaudeCodeDriverBuilder
rscode_builder cwd = record (builder cwd) { replay_user_messages = false; is_rscode = true }

-- `resume` and `continue_last` of the builder, which exclude each other
unfoldable pub resume_with : String → ClaudeCodeDriverBuilder → ClaudeCodeDriverBuilder
resume_with uuid b = record b { resume = some uuid; continue_last = false }

unfoldable pub continue_with : Bool → ClaudeCodeDriverBuilder → ClaudeCodeDriverBuilder
continue_with true b = record b { continue_last = true; resume = none }
continue_with false b = record b { continue_last = false }

abbrev pub select_bin : Option String → Option String → String → String
select_bin explicit env_override default = unwrap_or default (or_else explicit env_override)

-- `cmd.arg(flag)` where the test holds, and `cmd.arg(flag).arg(value)` where there is a value
abbrev pub flag : Bool → String → List String
flag true s = s ∷ []
flag false s = []

abbrev pub option : String → Option String → List String
option s none = []
option s (some value) = s ∷ value ∷ []

-- `if let Some(rid) = &resume { … } else if continue_last { … }`
abbrev pub resumed : String → List String → Option String → Bool → List String
resumed s last (some rid) continue_last = s ∷ rid ∷ []
resumed s last none true = last
resumed s last none false = []

unfoldable pub rscode_args : Bool → Option String → List String
rscode_args auto_approve session =
    ("run" ∷ "--input-stream-json" ∷ "--output-stream-json" ∷ [])
    ++ flag auto_approve "--yes"
    ++ option "--session" session

unfoldable pub codex_args : ClaudeCodeDriverBuilder → List String
codex_args b =
    ("exec" ∷ "--sandbox" ∷ b.codex_sandbox ∷ [])
    ++ option "--ask-for-approval" b.codex_approval_policy
    ++ flag b.dangerously_skip_permissions "--dangerously-bypass-approvals-and-sandbox"
    ++ option "-m" b.model
    ++ resumed "resume" ("resume" ∷ "--last" ∷ []) b.resume b.continue_last
    ++ ("--input-format" ∷ "stream-json" ∷ "--output-format" ∷ "stream-json"
        ∷ "--skip-git-repo-check" ∷ [])

unfoldable pub opencode_args : ClaudeCodeDriverBuilder → List String
opencode_args b =
    ("run" ∷ "--output-format" ∷ "stream-json" ∷ "--persist" ∷ [])
    ++ flag b.dangerously_skip_permissions "--dangerously-skip-permissions"
    ++ option "--model" b.model
    ++ resumed "--session" ("--continue" ∷ []) b.resume b.continue_last

-- `verbose`: whether the program is claude or openclaude
unfoldable pub claude_args : Bool → ClaudeCodeDriverBuilder → List String
claude_args verbose b =
    ("-p" ∷ "--input-format=stream-json" ∷ "--output-format=stream-json" ∷ [])
    ++ flag verbose "--verbose"
    ++ flag b.dangerously_skip_permissions "--dangerously-skip-permissions"
    ++ option "--permission-mode" b.permission_mode
    ++ flag b.replay_user_messages "--replay-user-messages"
    ++ option "--model" b.model
    ++ option "--session-id" b.session_id
    ++ resumed "--resume" ("--continue" ∷ []) b.resume b.continue_last

-- The program and the arguments of `spawn_inner`
unfoldable pub stream_command : System → ClaudeCodeDriverBuilder → Command
unfolding codex_args opencode_args rscode_args claude_args
stream_command sys b =
    let codex = select_bin b.bin (sys.env_var "CODEX_BIN") "codex" in
    let opencode = select_bin b.bin (sys.env_var "OPENCODE_BIN") "opencode" in
    let rscode = select_bin b.bin (sys.env_var "RSCODE_BIN") "rscode" in
    let claude = select_bin b.bin (sys.env_var "CLAUDE_BIN") "claude" in
    let stem = unwrap_or claude (sys.file_stem claude) in
    if b.is_codex
    then record {
      bin = if b.is_opencode then opencode else codex;
      args = codex_args b ++ b.extra_args;
    }
    else if b.is_opencode
    then record { bin = opencode; args = opencode_args b ++ b.extra_args }
    else if b.is_rscode
    then record {
      bin = rscode;
      args =
          rscode_args b.dangerously_skip_permissions (or_else b.session_id b.resume)
          ++ b.extra_args;
    }
    else record {
      bin = claude;
      args = claude_args (stem == "claude" || stem == "openclaude") b ++ b.extra_args;
    }
