-- ===== src/Codex/Reader.antt =====
-- `reader_task` of codex.rs, while the consumer takes its events.
use cap_protocol.Prelude.{String, Bool, true, false, Option, none, some, List, [], ◌∷◌, ◌++◌}
use cap_protocol.Core.{Foreign, AgentEvent}
use cap_protocol.Codex.{Memory, parse_codex_frame}

pub record Reader (x : Foreign) : Type 0 where
  pub memory : Memory x
  pub log : List (AgentEvent x)
  pub exited : Bool

module _ (x : Foreign) where
  abbrev pub new_reader : Reader x
  new_reader = record {
    memory = record { last_text_for = []; thread_id = none };
    log = [];
    exited = false;
  }

  -- A line that is no JSON is passed over.
  unfoldable pub on_frame : Option x.Value → Reader x → Reader x
  unfolding parse_codex_frame
  on_frame none r = r
  on_frame (some frame) r =
      let (es, memory) = parse_codex_frame x frame r.memory in
      record r { memory = memory; log = r.log ++ es }

  unfoldable pub on_lines : List String → Reader x → Reader x
  unfolding on_frame
  on_lines [] r = r
  on_lines (line ∷ lines) r = on_lines lines (on_frame (x.from_str line) r)

  -- The pipe was closed or could not be read, after these lines.
  unfoldable pub reader_task : List String → Reader x → Reader x
  unfolding on_lines
  reader_task lines r = record (on_lines lines r) { exited = true }
