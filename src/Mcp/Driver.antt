-- ===== src/Mcp/Driver.antt =====
-- `CodexMcpDriver` of codex_mcp.rs: the frames of the session, the handshake and the end. The writer's
-- channel stays closed once it was found closed.
use cap_protocol.Prelude.{
  ℕ, pos, String, Bool, true, false, Option, none, some, List, [], ◌∷◌, ◌++◌, Result, ok, err,
  show_nat,
}
use Prim.Native.String.{◌++◌ as append}
use cap_protocol.Core.{Foreign, ClientFrame}
use cap_protocol.Pty.Driver.{DriverError, prompt_text, DriverExitStatus}
use cap_protocol.Codex.Exec.{waited_status, first_status}
use cap_protocol.Rpc.{Awaited, fetch_add, message, request, awaited_result}

-- A line for codex: a prompt, or the cancellation of a request, by its id; or another.
pub data Line (x : Foreign) : Type 0 where
  call : ℕ → x.Value → Line x
  cancelled : ℕ → x.Value → Line x
  other : x.Value → Line x

-- The driver: `writer_tx` is there or not; its receiver is there or gone; what was sent.
pub record CodexMcpDriver (x : Foreign) : Type 0 where
  pub writer_open : Bool
  pub writer_alive : Bool
  pub written : List (Line x)
  pub next_id : ℕ
  pub last_tool_call_id : ℕ
  pub sandbox : String
  pub approval_policy : String
  pub cwd : String
  pub model : Option String
  pub child : Bool
  pub exited : Bool
  pub exit_status : Option DriverExitStatus

module _ (x : Foreign) where
  abbrev pub Outcome : Type 0
  Outcome = Result DriverError (Unit {0}) × CodexMcpDriver x

  -- `tx.send(line)`, where the writer takes it or is gone
  unfoldable pub transmit : Bool → Line x → Bool → CodexMcpDriver x → Outcome
  transmit true line true d = (ok tt, record d { written = d.written ++ line ∷ [] })
  transmit true line false d = (err DriverError.agent_exited, record d { writer_alive = false })
  transmit false line takes d = (err DriverError.agent_exited, d)

  abbrev model_argument : Option String → List (String × x.Value)
  model_argument none = []
  model_argument (some m) = ("model", x.string m) ∷ []

  unfoldable pub call_value : ℕ → String → CodexMcpDriver x → x.Value
  call_value id prompt d = request x id "tools/call" (
      x.object (
        ("name", x.string "codex")
        ∷ (
          "arguments",
          x.object (
              ("prompt", x.string prompt)
              ∷ ("cwd", x.string d.cwd)
              ∷ ("approval-policy", x.string d.approval_policy)
              ∷ ("sandbox", x.string d.sandbox)
              ∷ model_argument d.model),
        )
        ∷ []))

  unfoldable pub cancel_value : ℕ → x.Value
  cancel_value id = message x (
      ("method", x.string "notifications/cancelled")
      ∷ ("params", x.object (("requestId", x.integer (pos id)) ∷ []))
      ∷ [])

  -- The `match frame`, with the writer there
  unfoldable pub send_open : ClientFrame x → Bool → CodexMcpDriver x → Outcome
  unfolding transmit call_value cancel_value prompt_text
  send_open (ClientFrame.session_config config) takes d = (ok tt, d)
  send_open (ClientFrame.prompt content) takes d =
      let id = d.next_id in
      transmit d.writer_alive (call id (call_value id (prompt_text content) d)) takes
        (record d { next_id = fetch_add id; last_tool_call_id = id })
  send_open (ClientFrame.cancel scope reason) takes d =
      transmit d.writer_alive (cancelled d.last_tool_call_id (cancel_value d.last_tool_call_id))
        takes d
  send_open _ takes d = (
    err (
        DriverError.agent_error "cap_codex_mcp_no_approval_callback"
          "codex mcp-server does not request approvals back to the client; configure approval-policy/sandbox at spawn instead"),
    d,
  )

  unfoldable pub send_if : Bool → ClientFrame x → Bool → CodexMcpDriver x → Outcome
  unfolding send_open
  send_if true frame takes d = send_open frame takes d
  send_if false frame takes d = (err DriverError.agent_exited, d)

  unfoldable pub send : ClientFrame x → Bool → CodexMcpDriver x → Outcome
  unfolding send_if
  send frame takes d = send_if d.writer_open frame takes d

  -- Frames of the session in order, each with whether the writer takes it
  unfoldable pub sends : List (ClientFrame x × Bool) → CodexMcpDriver x → CodexMcpDriver x
  unfolding send
  sends [] d = d
  sends ((frame, takes) ∷ rest) d = sends rest (send frame takes d).1

  -- `shutdown`, given what the wait for the child returns
  unfoldable pub shutdown : Option (Option ℕ) → CodexMcpDriver x → CodexMcpDriver x
  unfolding waited_status
  shutdown waited d =
      let status : Option DriverExitStatus = elim d.child [
        | true ↦ first_status d.exit_status (waited_status waited)
        | false ↦ d.exit_status
      ] in
      record d { writer_open = false; child = false; exited = true; exit_status = status }

  unfoldable pub initialize_value : ℕ → String → x.Value
  initialize_value id version = request x id "initialize" (
      x.object (
        ("protocolVersion", x.string "2024-11-05")
        ∷ (
          "clientInfo",
          x.object (("name", x.string "cap-rs") ∷ ("version", x.string version) ∷ []),
        )
        ∷ ("capabilities", x.object [])
        ∷ []))

  -- The message of a timeout
  unfoldable pub no_answer : ℕ → String
  unfolding show_nat
  no_answer id =
      append "codex mcp-server did not respond to request " (append (show_nat id) " in 10s")

  -- The note after the answer to `initialize`
  unfoldable pub after_initialize : Result DriverError x.Value → Bool → CodexMcpDriver x → Outcome
  unfolding transmit
  after_initialize (err e) takes d = (err e, d)
  after_initialize (ok v) takes d =
      transmit d.writer_alive
        (other (message x (("method", x.string "notifications/initialized") ∷ []))) takes d

  -- The handshake of `spawn`, given the version of the crate, how the wait ends, and whether the writer takes
  -- the two lines
  unfoldable pub handshake : String → Awaited x → Bool → Bool → CodexMcpDriver x → Outcome
  unfolding transmit initialize_value awaited_result after_initialize no_answer
  handshake version awaited takes takes_note d =
      let id = d.next_id in
      let (sent, e) =
        transmit d.writer_alive (other (initialize_value id version)) takes
          (record d { next_id = fetch_add id }) in
      elim sent [
        | err error ↦ (err error, e)
        | ok _ ↦
            after_initialize (awaited_result x "codex_mcp_jsonrpc_" (no_answer id) awaited)
              takes_note e
      ]

  abbrev pub spawned : String → String → String → Option String → CodexMcpDriver x
  spawned sandbox approval_policy cwd model = record {
    writer_open = true;
    writer_alive = true;
    written = [];
    next_id = 1;
    last_tool_call_id = 0;
    sandbox = sandbox;
    approval_policy = approval_policy;
    cwd = cwd;
    model = model;
    child = true;
    exited = false;
    exit_status = none;
  }
