-- ===== src/Pty/Plain.antt =====
-- The parsers `RawParser` and `VtPlainParser`, for agents that no other parser reads.
use Prim.Native.String.{◌++◌ as append}
use cap_protocol.Prelude.{
  ℕ, String, Bool, true, false, Option, none, some, List, [], ◌∷◌, ◌==◌, strip_prefix,
}
use cap_protocol.Core.{Foreign, AgentEvent, TextChannel}
use cap_protocol.Pty.{Terminal, turn_done}
use cap_protocol.Pty.Thread.{AgentParser}

module _ (x : Foreign) where
  abbrev chunk_event : String → AgentEvent x
  chunk_event text = AgentEvent.text_chunk "" text TextChannel.assistant

  module _ (from_utf8_lossy : List ℕ → String) where
    unfoldable pub raw_events : List ℕ → List (AgentEvent x)
    raw_events [] = []
    raw_events (b ∷ bytes) = chunk_event (from_utf8_lossy (b ∷ bytes)) ∷ []

    -- `RawParser` has no state. What the trait gives by default does nothing.
    abbrev pub raw_parser : AgentParser x
    raw_parser = record {
      State = Unit {0};
      on_bytes = λ bytes s. (raw_events bytes, s);
      on_idle = λ s. ([], s);
      on_eof = λ s. turn_done x ∷ [];
      drain_input = λ s. ([], s);
      on_prompt = λ text s. s;
    }

  module _ (t : Terminal) where
    pub record VtPlainParser : Type 0 where
      pub vt : t.Vt
      pub last_screen : String

    abbrev pub new_plain : VtPlainParser
    new_plain = record { vt = t.blank; last_screen = "" }

    -- What is left of the screen behind the last one, if it starts with that
    unfoldable pub delta : Option String → String → String
    delta (some rest) screen = rest
    delta none screen = append "\n--- screen repaint ---\n" screen

    -- The event, given whether the text is empty
    unfoldable pub tell : Bool → String → List (AgentEvent x)
    tell true text = []
    tell false text = chunk_event text ∷ []

    -- A screen, given whether it is the last one
    unfoldable pub on_screen : Bool → t.Vt → VtPlainParser → List (AgentEvent x) × VtPlainParser
    unfolding tell delta strip_prefix
    on_screen true vt p = ([], record p { vt = vt })
    on_screen false vt p =
        let screen = t.contents vt in
        let text = delta (strip_prefix screen p.last_screen) screen in
        (tell (text == "") text, record { vt = vt; last_screen = screen })

    unfoldable pub on_bytes : List ℕ → VtPlainParser → List (AgentEvent x) × VtPlainParser
    unfolding on_screen
    on_bytes bytes p =
        let vt = t.process bytes p.vt in on_screen (t.contents vt == p.last_screen) vt p

    abbrev pub plain_parser : AgentParser x
    plain_parser = record {
      State = VtPlainParser;
      on_bytes = on_bytes;
      on_idle = λ s. ([], s);
      on_eof = λ s. turn_done x ∷ [];
      drain_input = λ s. ([], s);
      on_prompt = λ text s. s;
    }
