-- ===== src/Pty/Tui.antt =====
-- `TuiParser`: a turn ends when the bytes stop and the prompt is on the screen.
use Prim.Native.String.{◌++◌ as append}
use cap_protocol.Prelude.{
  ℕ, suc, String, Bool, true, false, not, ◌&&◌, ◌||◌, Option, none, some, List, [], ◌∷◌, ◌++◌,
  length, take, any, ltb, ◌=ℕ◌, ◌==◌, join, contains_text, if◌then◌else◌,
}
use cap_protocol.Core.{Foreign, AgentEvent, TextChannel}
use cap_protocol.Pty.{Terminal, Regex, PromptGate, open_gate, turn_done}
use cap_protocol.Pty.Thread.{AgentParser}
use cap_protocol.Pty.Texts.{
  trim, trim_newline, lines, take_chars, rposition, decimal, rev, keep, find, skip_while,
}

-- `idle` is a number of nanoseconds.
pub record TuiParser (t : Terminal) : Type 0 where
  pub name : String
  pub vt : t.Vt
  pub last_screen : String
  pub ready_markers : List Regex
  pub idle : ℕ
  pub seen_first_ready : Bool
  pub dirty_since_boundary : Bool
  pub gate : PromptGate
  pub to_send : List (List ℕ)
  pub resubmit_attempts : ℕ
  pub turn : ℕ

-- `MAX_RESUBMITS`
abbrev pub max_resubmits : ℕ
max_resubmits = 4

-- DECSET 2004, set and reset
abbrev pub enable : List ℕ
enable = 27 ∷ b'[' ∷ b'?' ∷ b'2' ∷ b'0' ∷ b'0' ∷ b'4' ∷ b'h' ∷ []

abbrev pub disable : List ℕ
disable = 27 ∷ b'[' ∷ b'?' ∷ b'2' ∷ b'0' ∷ b'0' ∷ b'4' ∷ b'l' ∷ []

-- The `match (last_enable, last_disable)`, where nothing leaves the flag alone
unfoldable pub paste_state : Option ℕ → Option ℕ → Option Bool
paste_state (some e) (some d) = some (ltb d e)
paste_state (some e) none = some true
paste_state none (some d) = some false
paste_state none none = none

module _ {t : Terminal} where
  -- `TuiParser::custom`, with the markers compiled
  abbrev pub custom : String → List Regex → ℕ → TuiParser t
  custom name markers idle = record {
    name = name;
    vt = t.blank;
    last_screen = "";
    ready_markers = markers;
    idle = idle;
    seen_first_ready = false;
    dirty_since_boundary = false;
    gate = open_gate;
    to_send = [];
    resubmit_attempts = 0;
    turn = 0;
  }

  -- The write to the gate, unless the chunk has neither
  unfoldable pub set_paste : Option Bool → TuiParser t → TuiParser t
  set_paste none p = p
  set_paste (some state) p = record p { gate = record p.gate { bracketed_paste = state } }

  unfoldable pub detect_bracketed_paste : List ℕ → TuiParser t → TuiParser t
  unfolding paste_state rposition set_paste
  detect_bracketed_paste bytes p =
      set_paste (paste_state (rposition enable bytes) (rposition disable bytes)) p

  -- `self.ready_markers.iter().any(|re| re.is_match(trimmed))`
  abbrev pub is_marked : TuiParser t → String → Bool
  unfolding trim_newline
  is_marked p line = any (λ re. re (trim_newline line)) p.ready_markers

  unfoldable pub input_box_line : TuiParser t → String → Option String
  unfolding lines trim_newline
  input_box_line p screen = find (is_marked p) (rev (lines screen))

  unfoldable pub strip_chrome : TuiParser t → String → String
  unfolding lines trim_newline join
  strip_chrome p screen =
      let all_lines = lines screen in
      let kept =
        rev (skip_while (λ line. trim_newline line == "" || is_marked p line) (rev all_lines)) in
      if length kept =ℕ 0
      then screen
      else if length kept =ℕ length all_lines
      then screen
      else append (join "\n" kept) "\n"

  unfoldable pub at_prompt : TuiParser t → String → Bool
  unfolding lines trim trim_newline
  at_prompt p screen =
      any (is_marked p) (take 4 (keep (λ line. not (trim line == "")) (rev (lines screen))))

  -- After the terminal has taken the bytes: a new screen is noted.
  unfoldable pub note_screen : String → TuiParser t → TuiParser t
  note_screen screen p =
      if screen == p.last_screen
      then p
      else record p { last_screen = screen; dirty_since_boundary = true }

  unfoldable pub on_bytes : List ℕ → TuiParser t → TuiParser t
  unfolding detect_bracketed_paste note_screen
  on_bytes bytes p =
      let q = detect_bracketed_paste bytes p in
      let vt = t.process bytes q.vt in note_screen (t.contents vt) (record q { vt = vt })

  -- Whether the prompt's text is still in the input box
  unfoldable pub still_in_box : String → TuiParser t → Bool
  unfolding trim take_chars input_box_line contains_text
  still_in_box text p =
      let needle = take_chars 40 (trim text) in
      not (needle == "") && elim (input_box_line p p.last_screen) [
        | none ↦ false
        | some line ↦ contains_text line needle
      ]

  -- What is sent back and what is left to send.
  unfoldable pub drain_input : TuiParser t → List (List ℕ) × TuiParser t
  drain_input p = (p.to_send, record p { to_send = [] })

module _ (x : Foreign) {t : Terminal} where
  -- The boundary at the end of `on_idle`
  unfoldable pub boundary : TuiParser t → List (AgentEvent x) × TuiParser t
  unfolding strip_chrome
  boundary p =
      let q = record p { dirty_since_boundary = false; turn = suc p.turn } in
      (
        AgentEvent.text_chunk (append "turn_" (decimal q.turn)) (strip_chrome q q.last_screen)
              TextChannel.assistant
            ∷ turn_done x
            ∷ [],
        q,
      )

  -- A settle before the first prompt
  unfoldable pub settle_unarmed : Bool → TuiParser t → List (AgentEvent x) × TuiParser t
  settle_unarmed true p = ([], record p { dirty_since_boundary = false })
  settle_unarmed false p = (
    AgentEvent.ready (some (append p.name (append "-pid" t.pid))) "cap-protocol/v1" none ∷ [],
    record p { dirty_since_boundary = false; seen_first_ready = true },
  )

  -- A prompt that is still in the box while tries are left: Enter is sent again. Else it is resolved.
  unfoldable pub retry : Bool → TuiParser t → List (AgentEvent x) × TuiParser t
  unfolding boundary
  retry true p = (
    [],
    record p { resubmit_attempts = suc p.resubmit_attempts; to_send = p.to_send ++ (13 ∷ []) ∷ [] },
  )
  retry false p =
      boundary (record p { gate = record p.gate { pending_submit = none }; resubmit_attempts = 0 })

  -- A settle after it
  unfoldable pub settle_armed : Option String → TuiParser t → List (AgentEvent x) × TuiParser t
  unfolding boundary retry still_in_box
  settle_armed none p = boundary p
  settle_armed (some text) p =
      retry (still_in_box text p && ltb p.resubmit_attempts max_resubmits) p

  -- A settle at the prompt, with the screen changed since the last boundary
  unfoldable pub settle : Bool → TuiParser t → List (AgentEvent x) × TuiParser t
  unfolding settle_unarmed settle_armed
  settle false p = settle_unarmed p.seen_first_ready p
  settle true p = settle_armed p.gate.pending_submit p

  unfoldable pub on_idle : TuiParser t → List (AgentEvent x) × TuiParser t
  unfolding settle at_prompt
  on_idle p =
      if p.dirty_since_boundary && at_prompt p p.last_screen then settle p.gate.armed p else ([], p)

  unfoldable pub on_eof : TuiParser t → List (AgentEvent x)
  unfolding strip_chrome
  on_eof p =
      if p.dirty_since_boundary && not (p.last_screen == "")
      then AgentEvent.text_chunk (append "turn_" (decimal p.turn)) (strip_chrome p p.last_screen)
          TextChannel.assistant
        ∷ turn_done x
        ∷ []
      else turn_done x ∷ []

-- `send` of a prompt writes to the gate that it shares with the parser.
unfoldable pub arm : {t : Terminal} → String → TuiParser t → TuiParser t
arm text p = record p { gate = record p.gate { armed = true; pending_submit = some text } }

abbrev pub tui : (x : Foreign) (t : Terminal) → AgentParser x
tui x t = record {
  State = TuiParser t;
  on_bytes = λ bytes p. ([], on_bytes bytes p);
  on_idle = on_idle x;
  on_eof = on_eof x;
  drain_input = drain_input;
  on_prompt = arm;
}
