-- ===== src/Mcp/Examples.antt =====
-- A turn whose text is streamed, and the answers of two turns.
use cap_protocol.Prelude.{
  some, none, true, false, String, [], ◌∷◌, ◌++◌, ◌≡◌, refl, lookup, ok, arith, if◌then◌else◌,
}
use cap_protocol.Core.{
  Foreign, AgentEvent, StopReason, TextChannel, ClientFrame, Content, CancelScope, no_usage,
  cap_protocol_version,
}
use cap_protocol.Samples.{Doc, Fields, world_of, get_field, plain}
use cap_protocol.Rpc.{Awaited}
use cap_protocol.Mcp.{new_ctx, on_lines, process_frame}
use cap_protocol.Mcp.Ready.{IsReady, named, ready_ids, on_lines-IsReady}
use cap_protocol.Mcp.Streamed.{streaming, answer_text, process_frame-answer}
use cap_protocol.Mcp.Driver.{sends, handshake, spawned}
use cap_protocol.Mcp.Calls.{IsOrdered, sends-IsOrdered}

abbrev entry : String → String → Fields → Fields
entry k s rest = Fields.field k (Doc.str s) rest

abbrev note : Fields → Doc
note msg = Doc.obj (
    entry "method" "codex/event"
      (Fields.field "params" (Doc.obj (Fields.field "msg" (Doc.obj msg) Fields.done)) Fields.done))

abbrev configured : Doc
configured = note (entry "type" "session_configured" (entry "thread_id" "t" Fields.done))

abbrev piece : Doc
piece = note (entry "type" "agent_message_content_delta" (entry "delta" "hi" Fields.done))

abbrev answer : Doc
answer = Doc.obj (
    Fields.field "id" (Doc.number 2) (
      Fields.field "result"
        (Doc.obj (
          Fields.field "structuredContent" (Doc.obj (entry "content" "hi" Fields.done))
            Fields.done))
        Fields.done))

-- {"id":2,"error":{"code":-32000,"message":"lost"}}
abbrev refusal : Doc
refusal = Doc.obj (
    Fields.field "id" (Doc.number 2) (
      Fields.field "error"
        (Doc.obj (Fields.field "code" (Doc.negative 31999) (entry "message" "lost" Fields.done)))
        Fields.done))

abbrev codex : Foreign
codex = world_of (("c", configured) ∷ ("p", piece) ∷ ("a", answer) ∷ ("e", refusal) ∷ [])

abbrev hi : AgentEvent codex
hi = AgentEvent.text_chunk "" "hi" TextChannel.assistant

abbrev end : AgentEvent codex
end =
    AgentEvent.done StopReason.end_turn
      (record (no_usage codex) { stop_reason = some StopReason.end_turn })

on_lines_test :
    (on_lines codex ("c" ∷ "c" ∷ "p" ∷ "a" ∷ "a" ∷ []) (new_ctx codex none)).log
    ≡ AgentEvent.ready (some "t") cap_protocol_version none ∷ hi ∷ end ∷ hi ∷ end ∷ []
unfolding on_lines lookup get_field
on_lines_test = refl

-- After a turn that streamed and failed, the text of an answer that was not streamed is lost.
lost_answer :
    (on_lines codex ("p" ∷ "e" ∷ "a" ∷ []) (new_ctx codex none)).log
    ≡ hi ∷ AgentEvent.error "codex_mcp_jsonrpc_-32000" "lost" false none ∷ end ∷ []
unfolding on_lines lookup get_field
lost_answer = refl

on_lines-IsReady_example :
    IsReady codex
      (named codex ("p" ∷ "c" ∷ "c" ∷ []))
      (ready_ids codex (on_lines codex ("p" ∷ "c" ∷ "c" ∷ []) (new_ctx codex none)).log)
      (on_lines codex ("p" ∷ "c" ∷ "c" ∷ []) (new_ctx codex none))
on_lines-IsReady_example = on_lines-IsReady codex ("p" ∷ "c" ∷ "c" ∷ []) none

process_frame-answer_example :
    (process_frame codex answer (on_lines codex ("p" ∷ []) (new_ctx codex none))).0
    ≡ (if streaming codex false (on_lines codex ("p" ∷ []) (new_ctx codex none)).log
        then []
        else answer_text codex answer)
      ++ end ∷ []
unfolding get_field lookup
process_frame-answer_example = process_frame-answer codex ("p" ∷ []) none answer refl refl refl

sends-IsOrdered_example :
    IsOrdered plain 0
      (sends plain
        ((ClientFrame.prompt (Content.text "go" ∷ []), true)
          ∷ (ClientFrame.cancel CancelScope.current_turn none, true)
          ∷ [])
        (handshake plain "0.1"
          (Awaited.answered (ok Doc.null))
          true
          true
          (spawned plain "workspace-write" "never" "/w" none)).1).written
sends-IsOrdered_example =
    sends-IsOrdered plain "0.1" "workspace-write" "never" "/w" none (Awaited.answered (ok Doc.null))
      true true
      ((ClientFrame.prompt (Content.text "go" ∷ []), true)
        ∷ (ClientFrame.cancel CancelScope.current_turn none, true)
        ∷ [])
      (omega arith)
