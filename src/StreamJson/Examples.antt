-- ===== src/StreamJson/Examples.antt =====
-- A turn whose answer is streamed and then repeated, and one that the end of the output cuts off.
use cap_protocol.Prelude.{some, String, true, false, List, [], ◌∷◌, ◌≡◌, refl, lookup}
use cap_protocol.Core.{Foreign, ClientFrame, Content, AgentEvent, TextChannel, StopReason, no_usage}
use cap_protocol.Samples.{Doc, Docs, Fields, world_of, get_field}
use cap_protocol.StreamJson.Reader.{
  Entry, started, forwarded, Mode, new_reader, Step, line, frame, steps, closed, on_end,
}
use cap_protocol.StreamJson.{parse_stream_frame}
use cap_protocol.Json.{text_at}
use cap_protocol.StreamJson.Turns.{EndsAsNamed, parse_stream_frame-turns}
use cap_protocol.StreamJson.View.{quiet, after, HasNoEcho, run-HasNoEcho, run-text, run-settled}

abbrev entry : String → String → Fields → Fields
entry k s rest = Fields.field k (Doc.str s) rest

-- {"type":"stream_event","event":{"type":"content_block_delta","delta":{"type":"text_delta","text":"hi"}}}
abbrev piece : Doc
piece = Doc.obj (
    entry "type" "stream_event" (
      Fields.field "event"
        (Doc.obj (
          entry "type" "content_block_delta" (
            Fields.field "delta"
              (Doc.obj (entry "type" "text_delta" (entry "text" "hi" Fields.done))) Fields.done)))
        Fields.done))

-- {"type":"assistant","message":{"id":"m","content":[{"type":"text","text":"hi"}]}}
abbrev whole : Doc
whole = Doc.obj (
    entry "type" "assistant" (
      Fields.field "message"
        (Doc.obj (
          entry "id" "m" (
            Fields.field "content"
              (Doc.arr (
                Docs.cons (Doc.obj (entry "type" "text" (entry "text" "hi" Fields.done))) Docs.nil))
              Fields.done)))
        Fields.done))

-- {"type":"result","subtype":"success","result":"hi"}
abbrev result : Doc
result =
    Doc.obj (entry "type" "result" (entry "subtype" "success" (entry "result" "hi" Fields.done)))

abbrev agent : Foreign
agent = world_of (("piece", piece) ∷ ("whole", whole) ∷ ("result", result) ∷ [])

abbrev claude : Mode
claude = record { eof_is_success = false; is_rscode = false }

abbrev hello : Step agent
hello = frame (ClientFrame.prompt (Content.text "hello" ∷ [])) true

abbrev talk : List (Step agent)
talk = hello ∷ line "piece" ∷ line "whole" ∷ line "result" ∷ hello ∷ line "piece" ∷ []

abbrev hi : Entry agent
hi = forwarded (AgentEvent.text_chunk "" "hi" TextChannel.assistant)

talk_log :
    (steps agent claude talk (new_reader agent)).log
    ≡ started
      ∷ hi
      ∷ forwarded (
          AgentEvent.done StopReason.end_turn
            (record (no_usage agent) { stop_reason = some StopReason.end_turn }))
      ∷ started
      ∷ hi
      ∷ []
unfolding steps lookup get_field
talk_log = refl

run-HasNoEcho_example : HasNoEcho quiet (steps agent claude talk (new_reader agent)).log
run-HasNoEcho_example = run-HasNoEcho claude talk

run-text_example :
    (after quiet (steps agent claude talk (new_reader agent)).log).text
    ≡ (steps agent claude talk (new_reader agent)).assistant_text
run-text_example = run-text claude talk

run-settled_example :
    (after quiet
      (on_end agent claude closed (steps agent claude talk (new_reader agent))).log).pending
    ≡ false
run-settled_example = run-settled claude talk closed

parse_stream_frame-turns_example :
    EndsAsNamed agent (text_at agent "type" result) (parse_stream_frame agent result)
parse_stream_frame-turns_example = parse_stream_frame-turns agent result
