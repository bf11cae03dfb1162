-- ===== src/Acp/Handshake.antt =====
-- The handshake of `AcpBuilder::spawn` in acp.rs.
use cap_protocol.Prelude.{
  ℕ, pos, String, Bool, true, false, Option, none, some, List, [], ◌∷◌, ◌++◌, Result, ok, err, ◌≡◌,
  ◌∙◌, refl, ap, ◌⊎◌, inl, inr, Option-cases, ◌==◌, show_nat, if◌then◌else◌,
}
use Prim.Native.String.{◌++◌ as append}
use cap_protocol.Core.{Foreign, AgentEvent, cap_protocol_version}
use cap_protocol.Json.{and_then, str_at, array_at}
use cap_protocol.Pty.Driver.{DriverError}
use cap_protocol.Rpc.{Awaited, fetch_add, request, awaited_result}
use cap_protocol.Acp.{AcpDriver, Entry, handshake_line, forwarded, wrote, forward}
use cap_protocol.Acp.Driver.{Outcome, transmit}

module _ (x : Foreign) (to_lowercase : String → String) where
  -- `find(|o| o.get("id") == Some("model"))`
  unfoldable pub find_model : List x.Value → Option x.Value
  find_model [] = none
  find_model (o ∷ os) =
      let rest = find_model os in
      elim (str_at x "id" o) [ none ↦ rest | some id ↦ if id == "model" then some o else rest ]

  unfoldable pub extract_model : x.Value → Option String
  unfolding find_model
  extract_model result =
      and_then (str_at x "currentValue") (and_then find_model (array_at x "configOptions" result))

  -- The message of a timeout
  unfoldable pub no_answer : ℕ → String
  unfolding show_nat
  no_answer id = append "ACP agent did not respond to request " (append (show_nat id) " in 15s")

  -- The answer, if the line was sent
  unfoldable pub wait_for :
      ℕ → Awaited x → Result DriverError (Unit {0}) → Result DriverError x.Value
  unfolding awaited_result no_answer
  wait_for id awaited (err e) = err e
  wait_for id awaited (ok _) = awaited_result x "acp_jsonrpc_" (no_answer id) awaited

  -- `send_and_await`: a request with the next id, whether the writer takes it, and how the wait ends
  unfoldable pub send_and_await :
      (ℕ → x.Value) → Bool → Awaited x → AcpDriver x → Result DriverError x.Value × AcpDriver x
  unfolding transmit wait_for
  send_and_await line takes awaited d =
      let id = d.next_id in
      let (sent, e) =
        transmit x to_lowercase d.writer_alive (handshake_line (line id)) takes
          (record d { next_id = fetch_add id }) in
      (wait_for id awaited sent, e)

  unfoldable pub initialize_value : ℕ → x.Value
  initialize_value id = request x id "initialize" (
      x.object (
        ("protocolVersion", x.integer (pos 1))
        ∷ (
          "clientCapabilities",
          x.object (
              (
                "fs",
                x.object
                    (("readTextFile", x.boolean false) ∷ ("writeTextFile", x.boolean false) ∷ []),
              )
              ∷ []),
        )
        ∷ []))

  unfoldable pub new_value : String → ℕ → x.Value
  new_value cwd id =
      request x id "session/new"
        (x.object (("cwd", x.string cwd) ∷ ("mcpServers", x.array []) ∷ []))

  -- The session of the answer to `session/new`, and `Ready`
  unfoldable pub establish : Result DriverError x.Value × AcpDriver x → Outcome x to_lowercase
  unfolding extract_model
  establish (err e, d) = (err e, d)
  establish (ok v, d) = elim (str_at x "sessionId" v) [
    | none ↦ (err (DriverError.parse "session/new response missing sessionId"), d)
    | some sid ↦ (
      ok tt,
      forward x (AgentEvent.ready (some sid) cap_protocol_version (extract_model v) ∷ [])
          (record d { session_id = some sid }),
    )
  ]

  unfoldable pub new_session :
      String → Bool → Awaited x → Result DriverError x.Value × AcpDriver x → Outcome x to_lowercase
  unfolding establish send_and_await new_value
  new_session cwd takes awaited (err e, d) = (err e, d)
  new_session cwd takes awaited (ok v, d) =
      establish (send_and_await (new_value cwd) takes awaited d)

  unfoldable pub handshake :
      String → Bool × Awaited x → Bool × Awaited x → AcpDriver x → Outcome x to_lowercase
  unfolding send_and_await initialize_value new_session
  handshake cwd (takes, awaited) (takes_new, awaited_new) d =
      new_session cwd takes_new awaited_new (send_and_await initialize_value takes awaited d)

  abbrev pub spawned : AcpDriver x
  spawned = record {
    writer_open = true;
    writer_alive = true;
    session_id = none;
    next_id = 1;
    pending = [];
    handed = [];
    pending_perms = [];
    child = true;
    exited = false;
    exit_status = none;
    trace = [];
  }

  -- The session ids that the session was told
  abbrev pub ready_ids : List (Entry x) → List (Option String)
  ready_ids [] = []
  ready_ids (forwarded (AgentEvent.ready session_id version model) ∷ es) = session_id ∷ ready_ids es
  ready_ids (_ ∷ es) = ready_ids es

  ready_ids-append : (es fs : List (Entry x)) → ready_ids (es ++ fs) ≡ ready_ids es ++ ready_ids fs
  ready_ids-append [] fs = refl
  ready_ids-append (forwarded (AgentEvent.ready session_id version model) ∷ es) fs =
      ap (λ ids. session_id ∷ ids) (ready_ids-append es fs)
  ready_ids-append (forwarded _ ∷ es) fs = ready_ids-append es fs
  ready_ids-append (wrote _ ∷ es) fs = ready_ids-append es fs

  -- No session is known, and none was told.
  abbrev IsNew : AcpDriver x → Type 0
  IsNew d = (d.session_id ≡ none) × (ready_ids d.trace ≡ [])

  -- The driver has a session and told it, or there is an error and no session.
  abbrev pub IsSettled : Outcome x to_lowercase → Type 0
  IsSettled (r, d) =
      ((sid : String) × (r ≡ ok tt)
        × (d.session_id ≡ some sid)
        × (ready_ids d.trace ≡ some sid ∷ []))
      ⊎ ((e : DriverError) × (r ≡ err e) × (d.session_id ≡ none) × (ready_ids d.trace ≡ []))

  transmit-IsNew :
      (alive takes : Bool) (v : x.Value) (d : AcpDriver x)
      → IsNew d
      → IsNew (transmit x to_lowercase alive (handshake_line v) takes d).1
  unfolding transmit
  transmit-IsNew true true v d (h, k) =
      (h, ready_ids-append d.trace (wrote (handshake_line v) ∷ []) ∙ (rw k refl))
  transmit-IsNew true false v d h = h
  transmit-IsNew false takes v d h = h

  send_and_await-IsNew :
      (l : ℕ → x.Value) (takes : Bool) (awaited : Awaited x) (d : AcpDriver x)
      → IsNew d
      → IsNew (send_and_await l takes awaited d).1
  unfolding send_and_await
  send_and_await-IsNew l takes awaited d h =
      transmit-IsNew d.writer_alive takes (l d.next_id) (record d { next_id = fetch_add d.next_id })
        h

  establish-IsSettled :
      (r : Result DriverError x.Value) (d : AcpDriver x) → IsNew d → IsSettled (establish (r, d))
  unfolding establish
  establish-IsSettled (err e) d (h, k) = inr (e, refl, h, k)
  establish-IsSettled (ok v) d (h, k) = elim (Option-cases (str_at x "sessionId" v)) [
    | inl e ↦
        rw (e, establish)
          (inr (DriverError.parse "session/new response missing sessionId", refl, h, k))
    | inr (sid, e) ↦
        rw (e, establish) (inl (sid, refl, refl, ready_ids-append d.trace _ ∙ (rw k refl)))
  ]

  new_session-IsSettled :
      (cwd : String) (takes : Bool) (awaited : Awaited x) (r : Result DriverError x.Value)
      (d : AcpDriver x)
      → IsNew d
      → IsSettled (new_session cwd takes awaited (r, d))
  unfolding new_session
  new_session-IsSettled cwd takes awaited (err e) d (h, k) = inr (e, refl, h, k)
  new_session-IsSettled cwd takes awaited (ok v) d h =
      let (r, e) = send_and_await (new_value cwd) takes awaited d in
      establish-IsSettled r e (send_and_await-IsNew (new_value cwd) takes awaited d h)

  -- However the writer and the agent answer: the handshake gives a driver with a session, which it told
  -- once by that session's id, or an error and a driver with no session, which told none.
  pub handshake-IsSettled :
      (cwd : String) (initialize new : Bool × Awaited x)
      → IsSettled (handshake cwd initialize new spawned)
  unfolding handshake
  handshake-IsSettled cwd (takes, awaited) (takes_new, awaited_new) =
      let (r, e) = send_and_await initialize_value takes awaited spawned in
      new_session-IsSettled cwd takes_new awaited_new r e
        (send_and_await-IsNew initialize_value takes awaited spawned (refl, refl))
