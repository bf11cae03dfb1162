-- ===== src/Acp/Driver.antt =====
-- `AcpDriver` of acp.rs: the choice of a permission option, the frames of the session, and the shutdown. The
-- channel of the writer stays closed once it was found closed.
use cap_protocol.Prelude.{
  ℕ, String, Bool, true, false, ◌||◌, Option, none, some, List, [], ◌∷◌, ◌++◌, Result, ok, err,
  ◌==◌, contains_text, lookup, if◌then◌else◌,
}
use Prim.Native.String.{◌++◌ as append}
use cap_protocol.Core.{Foreign, ClientFrame, Content, PermissionDecision}
use cap_protocol.Json.{and_then, str_at, text_at}
use cap_protocol.Pty.Driver.{DriverError, DriverExitStatus}
use cap_protocol.Codex.Exec.{waited_status, first_status}
use cap_protocol.Rpc.{fetch_add, message, request}
use cap_protocol.Acp.{AcpDriver, Line, prompt_request, cancel_note, permission_answer, wrote}

-- Which family of options answers a decision: those that allow, or those that reject
unfoldable pub want_allow : PermissionDecision → Bool
want_allow PermissionDecision.deny = false
want_allow _ = true

unfoldable pub prefer_always : PermissionDecision → Bool
prefer_always PermissionDecision.allow_always = true
prefer_always _ = false

-- The two tests on a kind
unfoldable pub family : Bool → String → Bool
family true k = contains_text k "allow"
family false k = contains_text k "reject" || contains_text k "deny"

-- `map.remove(k)`
unfoldable pub remove_perm {ℓ} : {A : Type ℓ} → String → List (String × A) → List (String × A)
remove_perm k [] = []
remove_perm k ((j, a) ∷ m) = let rest = remove_perm k m in if j == k then rest else (j, a) ∷ rest

-- `to_lowercase` has its tables from Unicode.
module _ (x : Foreign) (to_lowercase : String → String) where
  unfoldable pub kind_of : x.Value → String
  kind_of o = to_lowercase (text_at x "kind" o)

  unfoldable pub find_option : (String → Bool) → List x.Value → Option x.Value
  find_option test [] = none
  find_option test (o ∷ os) =
      let rest = find_option test os in if test (kind_of o) then some o else rest

  -- The second search, and its `optionId`
  unfoldable pub family_option : Bool → List x.Value → Option String
  unfolding find_option family
  family_option allow os = and_then (str_at x "optionId") (find_option (family allow) os)

  -- With the first one, for the kind `allow_always`
  unfoldable pub choose : Bool → Bool → List x.Value → Option String
  unfolding find_option family_option
  choose true allow os = elim (find_option (λ k. contains_text k "allow_always") os) [
    | some o ↦ str_at x "optionId" o
    | none ↦ family_option allow os
  ]
  choose false allow os = family_option allow os

  unfoldable pub select_option : x.Value → PermissionDecision → Option String
  unfolding choose want_allow prefer_always
  select_option options decision = elim (x.as_array options) [
    | none ↦ none
    | some os ↦ choose (prefer_always decision) (want_allow decision) os
  ]

  -- `arr.first()` and its `optionId`
  unfoldable pub first_option : x.Value → String
  first_option options = elim (x.as_array options) [
    | none ↦ ""
    | some os ↦ elim os [ [] ↦ "" | o ∷ _ ↦ text_at x "optionId" o ]
  ]

  unfoldable pub outcome_of : x.Value → PermissionDecision → x.Value
  unfolding select_option first_option
  outcome_of options decision = elim (select_option options decision) [
    | some id ↦ x.object (("outcome", x.string "selected") ∷ ("optionId", x.string id) ∷ [])
    | none ↦
        x.object
          (("outcome", x.string "cancelled") ∷ ("optionId", x.string (first_option options)) ∷ [])
  ]

  abbrev pub Outcome : Type 0
  Outcome = Result DriverError (Unit {0}) × AcpDriver x

  -- `tx.send(line)`, where the writer takes it or is gone
  unfoldable pub transmit : Bool → Line x → Bool → AcpDriver x → Outcome
  transmit true line true d = (ok tt, record d { trace = d.trace ++ wrote line ∷ [] })
  transmit true line false d = (err DriverError.agent_exited, record d { writer_alive = false })
  transmit false line takes d = (err DriverError.agent_exited, d)

  unfoldable pub content_to_prompt : List Content → List x.Value
  content_to_prompt [] = []
  content_to_prompt (Content.text text ∷ rest) =
      x.object (("type", x.string "text") ∷ ("text", x.string text) ∷ []) ∷ content_to_prompt rest
  content_to_prompt (Content.image mime bytes ∷ rest) = content_to_prompt rest

  unfoldable pub answer_value : x.Value → x.Value → PermissionDecision → x.Value
  unfolding outcome_of
  answer_value id options decision =
      message x
        (("id", id) ∷ ("result", x.object (("outcome", outcome_of options decision) ∷ [])) ∷ [])

  -- The answer to a permission request that is pending, or not
  unfoldable pub answer_permission :
      String → PermissionDecision → Option (x.Value × x.Value) → Bool → AcpDriver x → Outcome
  unfolding transmit answer_value remove_perm
  answer_permission req_id decision none takes d = (
    err (
        DriverError.agent_error "cap_unknown_permission"
          (append "no pending permission with req_id " req_id)),
    d,
  )
  answer_permission req_id decision (some (id, options)) takes d =
      transmit d.writer_alive (permission_answer req_id id (answer_value id options decision)) takes
        (record d { pending_perms = remove_perm req_id d.pending_perms })

  -- The `match frame`, with the writer and the session there
  unfoldable pub send_frame : String → ClientFrame x → Bool → AcpDriver x → Outcome
  unfolding transmit content_to_prompt answer_permission lookup
  send_frame sid (ClientFrame.session_config config) takes d = (ok tt, d)
  send_frame sid (ClientFrame.prompt content) takes d =
      transmit d.writer_alive
        (prompt_request (
          request x d.next_id "session/prompt" (
            x.object (
              ("sessionId", x.string sid) ∷ ("prompt", x.array (content_to_prompt content)) ∷ []))))
        takes (record d { next_id = fetch_add d.next_id })
  send_frame sid (ClientFrame.cancel scope reason) takes d =
      transmit d.writer_alive
        (cancel_note (
          message x (
            ("method", x.string "session/cancel")
            ∷ ("params", x.object (("sessionId", x.string sid) ∷ []))
            ∷ [])))
        takes d
  send_frame sid (ClientFrame.permission_response req_id decision) takes d =
      answer_permission req_id decision (lookup req_id d.pending_perms) takes d
  send_frame sid (ClientFrame.ask_user_answer ask_id value) takes d = (
    err (
        DriverError.agent_error "cap_acp_askuser_unsupported"
          "ACP surfaces decisions as permission requests, not free-form asks"),
    d,
  )
  send_frame sid (ClientFrame.reverse_rpc_result rpc_id result) takes d = (
    err (
        DriverError.agent_error "cap_reverse_rpc_unsupported"
          "ACP driver does not emit reverse RPC"),
    d,
  )

  unfoldable pub send_to : Option String → ClientFrame x → Bool → AcpDriver x → Outcome
  unfolding send_frame
  send_to none frame takes d =
      (err (DriverError.agent_error "cap_acp_no_session" "ACP session not established"), d)
  send_to (some sid) frame takes d = send_frame sid frame takes d

  unfoldable pub send_if : Bool → ClientFrame x → Bool → AcpDriver x → Outcome
  unfolding send_to
  send_if true frame takes d = send_to d.session_id frame takes d
  send_if false frame takes d = (err DriverError.agent_exited, d)

  unfoldable pub send : ClientFrame x → Bool → AcpDriver x → Outcome
  unfolding send_if
  send frame takes d = send_if d.writer_open frame takes d

  -- `shutdown`, given what the wait for the child returns. What the reader writes is not stopped: it has
  -- a sender of its own.
  unfoldable pub shutdown : Option (Option ℕ) → AcpDriver x → AcpDriver x
  unfolding waited_status
  shutdown waited d =
      let status : Option DriverExitStatus = elim d.child [
        | true ↦ first_status d.exit_status (waited_status waited)
        | false ↦ d.exit_status
      ] in
      record d { writer_open = false; child = false; exited = true; exit_status = status }
