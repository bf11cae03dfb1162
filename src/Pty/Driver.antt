-- ===== src/Pty/Driver.antt =====
-- What `PtyDriver` writes to the terminal, how its child's end is reported, and which variables of the
-- environment an agent does not see.
use cap_protocol.Prelude.{
  ℕ, String, Bool, true, false, ◌||◌, Option, none, some, List, [], ◌∷◌, ◌++◌, Result, ok, err,
  ◌==◌, any, strip_prefix, strip_suffix, if◌then◌else◌,
}
use Prim.Native.String.{◌++◌ as append}
use cap_protocol.Core.{Foreign, ClientFrame, CancelScope, Content, PermissionDecision, AgentEvent}
use cap_protocol.Pty.{PromptGate}
use cap_protocol.Pty.Texts.{as_bytes}
use cap_protocol.Json.{unwrap_or}

-- `DriverError`, with the messages of the errors of the system as texts
pub data DriverError : Type 0 where
  binary_not_found spawn_failed io parse : String → DriverError
  agent_exited : DriverError
  agent_error : (code message : String) → DriverError

-- `DriverExitStatus`
pub data DriverExitStatus : Type 0 where
  exited : Option ℕ → DriverExitStatus
  killed disconnected : DriverExitStatus

-- The driver: whether `input_tx` is there, what was written, the gate, and the exit status.
pub record PtyDriver : Type 0 where
  pub input_open : Bool
  pub written : List (List ℕ)
  pub prompt_gate : Option PromptGate
  pub exit_status : Option DriverExitStatus
  pub exited : Bool

-- What the system answers: whether the writer still takes what is sent after the chunks so far, and
-- `hard_cancel_session`.
pub record System : Type 0 where
  pub takes : List (List ℕ) → Bool
  pub hard_cancel : Result DriverError (Unit {0})

-- A result with the driver after it, in sequence while there is no error.
abbrev pub Outcome : Type 0
Outcome = Result DriverError (Unit {0}) × PtyDriver

abbrev pub after : Outcome → (PtyDriver → Outcome) → Outcome
after (ok _, d) next = next d
after (err e, d) next = (err e, d)

-- `bracketed_wrap`
unfoldable pub bracketed_wrap : String → List ℕ
unfolding as_bytes
bracketed_wrap text =
    (27 ∷ b'[' ∷ b'2' ∷ b'0' ∷ b'0' ∷ b'~' ∷ [])
    ++ as_bytes text
    ++ (27 ∷ b'[' ∷ b'2' ∷ b'0' ∷ b'1' ∷ b'~' ∷ [])

-- The text of a prompt: images are left out.
unfoldable pub prompt_text : List Content → String
prompt_text [] = ""
prompt_text (Content.text text ∷ rest) = append text (prompt_text rest)
prompt_text (Content.image mime bytes ∷ rest) = prompt_text rest

-- The bytes of a prompt: as one paste, if the agent has asked for that.
abbrev pub prompt_bytes : String → Option PromptGate → List ℕ
prompt_bytes text none = as_bytes text
prompt_bytes text (some gate) = if gate.bracketed_paste then bracketed_wrap text else as_bytes text

-- The write to the gate after a prompt was sent
unfoldable pub arm_gate : String → Option PromptGate → Option PromptGate
arm_gate text none = none
arm_gate text (some gate) = some (record gate { armed = true; pending_submit = some text })

abbrev pub allows : PermissionDecision → Bool
allows PermissionDecision.deny = false
allows _ = true

module _ (sys : System) where
  -- Given whether the channel is there, and whether the writer takes it
  unfoldable pub send_open : Bool → Bool → List ℕ → PtyDriver → Outcome
  send_open true true bytes d = (ok tt, record d { written = d.written ++ bytes ∷ [] })
  send_open true false bytes d = (err DriverError.agent_exited, d)
  send_open false taken bytes d = (err DriverError.agent_exited, d)

  unfoldable pub send_bytes : List ℕ → PtyDriver → Outcome
  unfolding send_open
  send_bytes bytes d = send_open d.input_open (sys.takes d.written) bytes d

  unfoldable pub send_prompt : List Content → PtyDriver → Outcome
  unfolding send_bytes bracketed_wrap prompt_text arm_gate as_bytes
  send_prompt content d =
      let text = prompt_text content in
      let bytes = prompt_bytes text d.prompt_gate in
      after (send_bytes bytes d) (λ d'.
        after (send_bytes (13 ∷ []) d')
          (λ d''. (ok tt, record d'' { prompt_gate = arm_gate text d''.prompt_gate })))

  module _ {x : Foreign} where
    -- `PtyDriver::send`
    unfoldable pub send : ClientFrame x → PtyDriver → Outcome
    unfolding send_prompt send_bytes as_bytes
    send (ClientFrame.prompt content) d = send_prompt content d
    send (ClientFrame.cancel CancelScope.current_turn reason) d = send_bytes (3 ∷ []) d
    send (ClientFrame.cancel CancelScope.session reason) d = (sys.hard_cancel, d)
    send (ClientFrame.session_config config) d = (ok tt, d)
    send (ClientFrame.ask_user_answer ask_id value) d =
        after (send_bytes (as_bytes (unwrap_or (x.to_string value) (x.as_str value))) d)
          (send_bytes (13 ∷ []))
    send (ClientFrame.permission_response req_id decision) d =
        send_bytes (if allows decision then b'y' ∷ 13 ∷ [] else b'n' ∷ 13 ∷ []) d
    send (ClientFrame.reverse_rpc_result rpc_id result) d = (
      err (
          DriverError.agent_error "cap_reverse_rpc_unsupported"
            "PTY driver does not emit reverse RPC"),
      d,
    )

-- `shutdown`: a child whose end is not known yet counts as killed.
unfoldable pub shutdown : PtyDriver → PtyDriver
shutdown d = elim (d.exit_status) [
  | none ↦ record d {
    input_open = false;
    exit_status = some DriverExitStatus.killed;
    exited = true;
  }
  | some status ↦ record d { input_open = false }
]

-- `spawn_child_waiter`, when the child has ended with this status: the error goes to the consumer, with
-- the message that the status is shown in.
unfoldable pub child_ended :
    {x : Foreign}
    → (DriverExitStatus → String)
    → DriverExitStatus
    → PtyDriver
    → List (AgentEvent x) × PtyDriver
child_ended show status d = elim (d.exit_status) [
  | none ↦ (
    AgentEvent.error "pty_died" (append "PTY child exited unexpectedly: " (show status)) false none
        ∷ [],
    record d { exit_status = some status; exited = true },
  )
  | some old ↦ ([], record d { exited = true })
]

abbrev exact : List String
exact =
    "ANTHROPIC_API_KEY" ∷ "OPENAI_API_KEY" ∷ "CODEX_API_KEY" ∷ "GITHUB_TOKEN" ∷ "GH_TOKEN"
    ∷ "NPM_TOKEN" ∷ "PYPI_TOKEN" ∷ "DOCKER_PASSWORD" ∷ "CODESPACES_TOKEN" ∷ []

abbrev suffixes : List String
suffixes = "_TOKEN" ∷ "_KEY" ∷ "_SECRET" ∷ "_PASSWORD" ∷ "_CREDENTIALS" ∷ []

abbrev prefixes : List String
prefixes = "AWS_" ∷ "GCP_" ∷ "AZURE_" ∷ "GOOGLE_" ∷ []

abbrev is_some : Option String → Bool
is_some none = false
is_some (some s) = true

unfoldable pub is_sensitive_env_var : String → Bool
unfolding strip_suffix strip_prefix
is_sensitive_env_var name =
    any (λ s. name == s) exact
    || any (λ s. is_some (strip_suffix name s)) suffixes
    || any (λ s. is_some (strip_prefix name s)) prefixes

-- The environment of an agent: the inherited variables but those removed or sensitive, then the
-- builder's own.
unfoldable pub agent_env :
    List String → List (String × String) → List (String × String) → List (String × String)
unfolding is_sensitive_env_var
agent_env env_remove [] env = env
agent_env env_remove ((k, v) ∷ inherited) env =
    let rest = agent_env env_remove inherited env in
    if any (λ r. r == k) env_remove || is_sensitive_env_var k then rest else (k, v) ∷ rest
