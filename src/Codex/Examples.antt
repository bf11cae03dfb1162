-- ===== src/Codex/Examples.antt =====
-- A message that grows, and is then completed with the same text.
use cap_protocol.Prelude.{EndsWith, some, none, String, [], ◌∷◌, ◌≡◌, refl, inl, inr, lookup}
use cap_protocol.Core.{Foreign, AgentEvent, TextChannel}
use cap_protocol.Samples.{Doc, Fields, world_of, get_field}
use cap_protocol.Codex.{Memory, parse_codex_frame}
use cap_protocol.Codex.Reader.{new_reader, on_lines, on_frame}
use cap_protocol.Codex.Views.{view}
use cap_protocol.Codex.Pieces.{on_lines-EndsWith}
use cap_protocol.Codex.Release.{IsReleased, parse_codex_frame-IsReleased}
use cap_protocol.Codex.Exec.{builder, exec_args}

abbrev entry : String → String → Fields → Fields
entry k s rest = Fields.field k (Doc.str s) rest

abbrev message : String → Doc
message text =
    Doc.obj (entry "id" "i1" (entry "type" "agent_message" (entry "text" text Fields.done)))

abbrev item_doc : String → String → Doc
item_doc kind text = Doc.obj (entry "type" kind (Fields.field "item" (message text) Fields.done))

abbrev codex : Foreign
codex = world_of (
    ("a", item_doc "item.updated" "hello")
    ∷ ("b", item_doc "item.updated" "hello world")
    ∷ ("c", item_doc "item.completed" "hello world")
    ∷ [])

abbrev chunk : String → AgentEvent codex
chunk text = AgentEvent.text_chunk "i1" text TextChannel.assistant

on_lines_test :
    (on_lines codex ("a" ∷ "b" ∷ "no JSON" ∷ "c" ∷ []) (new_reader codex)).log
    ≡ chunk "hello" ∷ chunk " world" ∷ []
unfolding on_lines lookup get_field
on_lines_test = refl

exec_args_test :
    exec_args
      (record (builder "/w") { model = some "m"; prompt = some "go"; configs = ("k", "v") ∷ [] })
    ≡ "exec" ∷ "--json" ∷ "--skip-git-repo-check" ∷ "-c" ∷ "k=v" ∷ "-m" ∷ "m" ∷ "go" ∷ []
unfolding exec_args
exec_args_test = refl

on_lines-EndsWith_example :
    EndsWith
      (view codex "i1"
        (on_frame codex
          (some (item_doc "item.updated" "hello world"))
          (on_lines codex ("a" ∷ []) (new_reader codex))).log)
      "hello world"
unfolding get_field lookup
on_lines-EndsWith_example =
    on_lines-EndsWith codex ("a" ∷ []) (item_doc "item.updated" "hello world")
      (message "hello world") (inr (inl refl)) refl (inl refl)

abbrev seen : Memory codex
seen = record { last_text_for = ("i1", "hello") ∷ []; thread_id = none }

parse_codex_frame-IsReleased_example :
    IsReleased codex "hello" "hello world"
      (parse_codex_frame codex (item_doc "item.completed" "hello world") seen).0
      (lookup "i1"
        (parse_codex_frame codex (item_doc "item.completed" "hello world") seen).1.last_text_for)
unfolding get_field lookup
parse_codex_frame-IsReleased_example =
    parse_codex_frame-IsReleased codex (item_doc "item.completed" "hello world")
      (message "hello world") seen refl refl (inl refl)
