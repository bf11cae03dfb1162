-- ===== src/Codex/Exec.antt =====
-- The builder of codex.rs with the arguments of `codex exec`, and the driver's `send` and `shutdown`.
use cap_protocol.Prelude.{
  ℕ, String, Bool, true, false, Option, none, some, List, [], ◌∷◌, ◌++◌, Result, ok, err,
}
use Prim.Native.String.{◌++◌ as append}
use cap_protocol.Core.{Foreign, ClientFrame}
use cap_protocol.Json.{unwrap_or, or_else}
use cap_protocol.Launch.{Command}
use cap_protocol.Pty.Driver.{DriverError, DriverExitStatus}

pub record CodexExecBuilder : Type 0 where
  pub bin : Option String
  pub cwd : String
  pub model : Option String
  pub prompt : Option String
  pub resume_thread : Option String
  pub skip_git_repo_check : Bool
  pub extra_args : List String
  pub configs : List (String × String)

abbrev pub builder : String → CodexExecBuilder
builder cwd = record {
  bin = none;
  cwd = cwd;
  model = none;
  prompt = none;
  resume_thread = none;
  skip_git_repo_check = true;
  extra_args = [];
  configs = [];
}

abbrev maybe_args : List String → Option String → List String
maybe_args flags none = []
maybe_args flags (some a) = flags ++ a ∷ []

abbrev flag : Bool → String → List String
flag true name = name ∷ []
flag false name = []

-- `-c key=value` for each override
unfoldable pub config_args : List (String × String) → List String
config_args [] = []
config_args ((k, v) ∷ cs) = "-c" ∷ append k (append "=" v) ∷ config_args cs

unfoldable pub exec_args : CodexExecBuilder → List String
unfolding config_args
exec_args b =
    "exec"
    ∷ (maybe_args ("resume" ∷ []) b.resume_thread
        ++ ("--json"
            ∷ (flag b.skip_git_repo_check "--skip-git-repo-check"
                ++ (config_args b.configs
                    ++ (maybe_args ("-m" ∷ []) b.model
                        ++ (b.extra_args ++ maybe_args [] b.prompt))))))

-- The program, given the value of CODEX_BIN
unfoldable pub exec_command : Option String → CodexExecBuilder → Command
unfolding exec_args
exec_command codex_bin b = record {
  bin = unwrap_or "codex" (or_else b.bin codex_bin);
  args = exec_args b;
}

module _ (x : Foreign) where
  abbrev one_shot : String
  one_shot = "codex exec is one-shot per process; use builder().resume(thread_id) for the next turn"

  unfoldable pub send : ClientFrame x → Result DriverError (Unit {0})
  send (ClientFrame.session_config config) = ok tt
  send (ClientFrame.cancel scope reason) =
      err (DriverError.agent_error "cap_cancel_unsupported" one_shot)
  send _ = err (DriverError.agent_error "cap_queued_input_unsupported" one_shot)

-- What `wait` says of the child: a code, no code, or an error
unfoldable pub waited_status : Option (Option ℕ) → DriverExitStatus
waited_status (some (some code)) = DriverExitStatus.exited (some code)
waited_status (some none) = DriverExitStatus.killed
waited_status none = DriverExitStatus.disconnected

-- The child, the exit status and the flag of a driver that owns a process.
pub record Owned : Type 0 where
  pub child : Bool
  pub exit_status : Option DriverExitStatus
  pub exited : Bool

abbrev pub first_status : Option DriverExitStatus → DriverExitStatus → Option DriverExitStatus
first_status none s = some s
first_status (some old) s = some old

-- `shutdown`, given what the wait for the child returns
unfoldable pub shutdown : Option (Option ℕ) → Owned → Owned
unfolding waited_status
shutdown waited d =
    let status : Option DriverExitStatus = elim d.child [
      | true ↦ first_status d.exit_status (waited_status waited)
      | false ↦ d.exit_status
    ] in
    record { child = false; exit_status = status; exited = true }
