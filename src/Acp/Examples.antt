-- ===== src/Acp/Examples.antt =====
-- A permission request that is answered once, and a session that is established.
use cap_protocol.Prelude.{
  some, none, true, String, List, [], ◌∷◌, ◌≡◌, ◌≤◌, ◌+◌, refl, lookup, put, ok, contains_text,
  strip_prefix, show_int,
}
use cap_protocol.Core.{
  Foreign, AgentEvent, ClientFrame, PermissionDecision, PermissionScope, RiskLevel,
}
use cap_protocol.Samples.{Doc, Docs, Fields, world_of, get_field}
use cap_protocol.Rpc.{Awaited}
use cap_protocol.Acp.{AcpDriver, forwarded, wrote, permission_answer}
use cap_protocol.Acp.Driver.{kind_of}
use cap_protocol.Acp.Asked.{asked, answered, waiting}
use cap_protocol.Acp.Answers.{agent_line, session_frame, shut, Step, steps, answered-le-asked}
use cap_protocol.Acp.Handshake.{spawned, handshake, IsSettled, handshake-IsSettled}

abbrev entry : String → String → Fields → Fields
entry k s rest = Fields.field k (Doc.str s) rest

abbrev option_doc : String → String → Doc
option_doc id kind = Doc.obj (entry "optionId" id (entry "kind" kind Fields.done))

abbrev options : Doc
options =
    Doc.arr
      (Docs.cons (option_doc "y" "allow_once") (Docs.cons (option_doc "n" "reject_once") Docs.nil))

abbrev ask : Doc
ask = Doc.obj (
    Fields.field "id" (Doc.number 7) (
      entry "method" "session/request_permission"
        (Fields.field "params" (Doc.obj (Fields.field "options" options Fields.done)) Fields.done)))

abbrev agent : Foreign
agent = world_of (("ask", ask) ∷ [])

abbrev same : String → String
same s = s

abbrev ready : AcpDriver agent
ready = record (spawned agent same) { session_id = some "s" }

abbrev deny : Step agent
deny = session_frame (ClientFrame.permission_response "7" PermissionDecision.deny) true

abbrev denial : Doc
denial = Doc.obj (
    entry "jsonrpc" "2.0" (
      Fields.field "id" (Doc.number 7) (
        Fields.field "result"
          (Doc.obj (
            Fields.field "outcome"
              (Doc.obj (entry "outcome" "selected" (entry "optionId" "n" Fields.done)))
              Fields.done))
          Fields.done)))

steps_test :
    (steps agent same (agent_line "ask" true ∷ deny ∷ deny ∷ []) ready).trace
    ≡ forwarded
        (AgentEvent.permission_request "7" "tool" Doc.null PermissionScope.execute RiskLevel.medium)
      ∷ wrote (permission_answer "7" (Doc.number 7) denial)
      ∷ []
unfolding steps kind_of strip_prefix lookup put get_field contains_text show_int
steps_test = refl

abbrev course : List (Step agent)
course = agent_line "ask" true ∷ deny ∷ shut none ∷ agent_line "ask" true ∷ deny ∷ []

answered-le-asked_example :
    answered agent "7" (steps agent same course ready).trace
      + waiting agent "7" (steps agent same course ready).pending_perms
    ≤ asked agent "7" (steps agent same course ready).trace
answered-le-asked_example = answered-le-asked agent same "7" course ready refl refl

handshake-IsSettled_example : IsSettled agent same (
    handshake agent same "/w"
      (true, Awaited.answered (ok Doc.null))
      (true, Awaited.answered (ok (Doc.obj (entry "sessionId" "s" Fields.done))))
      (spawned agent same))
handshake-IsSettled_example =
    handshake-IsSettled agent same "/w" (true, Awaited.answered (ok Doc.null))
      (true, Awaited.answered (ok (Doc.obj (entry "sessionId" "s" Fields.done))))
