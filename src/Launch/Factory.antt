-- ===== src/Launch/Factory.antt =====
-- `RealDriverFactory::build` of real_factory.rs: the agents that it starts or connects to, in order.
-- The driver or the error that comes of the last one is not modelled.
use cap_protocol.Prelude.{
  String, Bool, true, false, ◌||◌, Option, none, some, List, [], ◌∷◌, ◌==◌, if◌then◌else◌,
}
use cap_protocol.Json.{unwrap_or, or_else}
use cap_protocol.Config.{DriverKind, PermissionPolicy}
use cap_protocol.Launch.{
  Command, Attempt, System, ClaudeCodeDriverBuilder, builder, opencode_builder, codex_builder,
  rscode_builder, stream_command,
}

-- A driver that the factory makes. The drivers that this model has no code of are named with what they
-- are given: for codex-mcp the approval policy and the sandbox, for the others the address or the program.
pub data Launch : Type 0 where
  stream : Command → Launch
  codex_mcp : (bin approval sandbox : String) → Launch
  acp : Command → Launch
  pty : Command → Launch
  a2a grpc : String → Launch

-- `claude_settings`, `qoder_settings`, `codebuddy_settings`: a mode, or the flag that skips permissions
unfoldable pub claude_settings : PermissionPolicy → Option String × Bool
claude_settings PermissionPolicy.ask = (some "manual", false)
claude_settings PermissionPolicy.allow = (some "acceptEdits", false)
claude_settings PermissionPolicy.deny = (some "dontAsk", false)
claude_settings PermissionPolicy.bypass = (none, true)

unfoldable pub qoder_settings : PermissionPolicy → Option String × Bool
qoder_settings PermissionPolicy.ask = (some "default", false)
qoder_settings PermissionPolicy.allow = (some "accept_edits", false)
qoder_settings PermissionPolicy.deny = (some "dont_ask", false)
qoder_settings PermissionPolicy.bypass = (none, true)

unfoldable pub codebuddy_settings : PermissionPolicy → Option String × Bool
codebuddy_settings PermissionPolicy.ask = (some "default", false)
codebuddy_settings PermissionPolicy.allow = (some "acceptEdits", false)
codebuddy_settings PermissionPolicy.deny = (some "dontAsk", false)
codebuddy_settings PermissionPolicy.bypass = (none, true)

-- The approval policy, the sandbox, and the flag
unfoldable pub codex_settings : PermissionPolicy → String × String × Bool
codex_settings PermissionPolicy.ask = ("on-request", "workspace-write", false)
codex_settings PermissionPolicy.allow = ("never", "workspace-write", false)
codex_settings PermissionPolicy.deny = ("never", "read-only", false)
codex_settings PermissionPolicy.bypass = ("never", "danger-full-access", true)

unfoldable pub auto_approve : PermissionPolicy → Bool
auto_approve PermissionPolicy.allow = true
auto_approve PermissionPolicy.bypass = true
auto_approve _ = false

-- The `match` on settings
unfoldable pub mode_args : Option String × Bool → List String
mode_args (some mode, false) = "--permission-mode" ∷ mode ∷ []
mode_args (none, true) = "--dangerously-skip-permissions" ∷ []
mode_args _ = []

unfoldable pub codex_pty_args : PermissionPolicy → List String
codex_pty_args PermissionPolicy.ask =
    "--ask-for-approval" ∷ "on-request" ∷ "--sandbox" ∷ "workspace-write" ∷ []
codex_pty_args PermissionPolicy.allow =
    "--ask-for-approval" ∷ "never" ∷ "--sandbox" ∷ "workspace-write" ∷ []
codex_pty_args PermissionPolicy.deny =
    "--ask-for-approval" ∷ "never" ∷ "--sandbox" ∷ "read-only" ∷ []
codex_pty_args PermissionPolicy.bypass = "--dangerously-bypass-approvals-and-sandbox" ∷ []

-- `.then_some(vec![flag]).unwrap_or_default()`
abbrev pub when : Bool → String → List String
when true s = s ∷ []
when false s = []

-- The branches of the `match cmd`: claude, codex, opencode, qodercli, codebuddy, rscode, the rest
unfoldable pub permission_args :
    Bool → Bool → Bool → Bool → Bool → Bool → PermissionPolicy → List String
unfolding claude_settings qoder_settings codebuddy_settings mode_args codex_pty_args auto_approve
permission_args true b c d e f policy = mode_args (claude_settings policy)
permission_args false true c d e f policy = codex_pty_args policy
permission_args false false true d e f policy =
    when (auto_approve policy) "--dangerously-skip-permissions"
permission_args false false false true e f policy = mode_args (qoder_settings policy)
permission_args false false false false true f policy = mode_args (codebuddy_settings policy)
permission_args false false false false false true policy = when (auto_approve policy) "--yes"
permission_args false false false false false false policy = []

unfoldable pub pty_permission_args : String → PermissionPolicy → List String
unfolding permission_args
pty_permission_args cmd policy =
    permission_args (cmd == "claude" || cmd == "openclaude") (cmd == "codex") (cmd == "opencode")
      (cmd == "qodercli") (cmd == "codebuddy" || cmd == "cbc") (cmd == "rscode") policy

-- Settings put into a builder
unfoldable pub with_settings :
    Option String × Bool → ClaudeCodeDriverBuilder → ClaudeCodeDriverBuilder
with_settings (none, bypass) b = record b { dangerously_skip_permissions = bypass }
with_settings (some mode, bypass) b = record b {
  dangerously_skip_permissions = bypass;
  permission_mode = some mode;
}

module _ (sys : System) where
  -- After the attempt to start the stream-json driver: it stays, or the other driver follows it, unless
  -- the program is not there.
  unfoldable pub fall_back : Command → Launch → Attempt → List Launch
  fall_back cmd other Attempt.alive = stream cmd ∷ []
  fall_back cmd other Attempt.exited_early = stream cmd ∷ other ∷ []
  fall_back cmd other Attempt.not_found = stream cmd ∷ []
  fall_back cmd other (Attempt.failed e) = stream cmd ∷ other ∷ []

  -- Whether the `--help` of the program names stream-json
  unfoldable pub try_stream : Bool → Command → Launch → List Launch
  unfolding fall_back
  try_stream false cmd other = other ∷ []
  try_stream true cmd other = fall_back cmd other (sys.attempt cmd)

  unfoldable pub build_codex_driver : String → PermissionPolicy → String → String → List Launch
  unfolding codex_settings try_stream stream_command
  build_codex_driver cwd policy stream_bin mcp_bin =
      let (approval, sandbox, bypass) = codex_settings policy in
      try_stream (sys.help_has stream_bin ("exec" ∷ []) "stream-json")
        (stream_command sys (record (codex_builder cwd) {
          bin = some stream_bin;
          codex_approval_policy = some approval;
          codex_sandbox = sandbox;
          dangerously_skip_permissions = bypass;
        }))
        (codex_mcp mcp_bin approval sandbox)

  unfoldable pub build_opencode_driver : String → PermissionPolicy → String → List Launch
  unfolding auto_approve try_stream stream_command
  build_opencode_driver cwd policy bin =
      try_stream (sys.help_has bin ("run" ∷ []) "stream-json")
        (stream_command sys (record (opencode_builder cwd) {
          bin = some bin;
          dangerously_skip_permissions = auto_approve policy;
        }))
        (acp (record { bin = bin; args = "acp" ∷ [] }))

  abbrev pub only : Launch → List Launch
  only l = l ∷ []

  unfoldable pub build : DriverKind → String → PermissionPolicy → List Launch
  unfolding build_codex_driver build_opencode_driver stream_command with_settings claude_settings
      qoder_settings codebuddy_settings auto_approve pty_permission_args
  build DriverKind.claude cwd policy =
      only (stream (stream_command sys (with_settings (claude_settings policy) (builder cwd))))
  build DriverKind.open_claude cwd policy = only (
      stream (
        stream_command sys (
          with_settings (claude_settings policy)
            (record (builder cwd) { bin = some "openclaude" }))))
  build DriverKind.open_code cwd policy =
      build_opencode_driver cwd policy (unwrap_or "opencode" (sys.env_var "OPENCODE_BIN"))
  build DriverKind.codex cwd policy =
      build_codex_driver cwd policy
        (unwrap_or "codex" (or_else (sys.env_var "CODEX_STREAM_BIN") (sys.env_var "CODEX_BIN")))
        (unwrap_or "codex" (sys.env_var "CODEX_MCP_BIN"))
  build DriverKind.rscode cwd policy = only (
      stream (
        stream_command sys
          (record (rscode_builder cwd) { dangerously_skip_permissions = auto_approve policy })))
  build DriverKind.codebuddy cwd policy = only (
      stream (
        stream_command sys (
          with_settings (codebuddy_settings policy) (record (builder cwd) {
            bin = some (unwrap_or "codebuddy" (sys.env_var "CODEBUDDY_BIN"));
          }))))
  build DriverKind.qoder cwd policy = only (
      stream (
        stream_command sys
          (with_settings (qoder_settings policy) (record (builder cwd) { bin = some "qodercli" }))))
  build (DriverKind.a2a endpoint) cwd policy = only (a2a endpoint)
  build (DriverKind.grpc addr) cwd policy = only (grpc addr)
  build (DriverKind.acp cmd) cwd policy =
      only (acp (record { bin = cmd; args = if cmd == "opencode" then "acp" ∷ [] else [] }))
  build DriverKind.aider cwd policy = only (pty (record { bin = "aider"; args = [] }))
  build (DriverKind.pty cmd) cwd policy =
      only (pty (record { bin = cmd; args = pty_permission_args cmd policy }))
