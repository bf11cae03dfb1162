-- ===== src/Pty/Repl.antt =====
-- `ReplParser`. A slice that would panic gives nothing.
use Prim.Native.Char.{code}
use Prim.Native.String.{◌++◌ as append, ◌∷◌ as char_then, [] as nothing}
use cap_protocol.Prelude.{
  ℕ, suc, ◌+◌, String, Bool, true, false, not, ◌||◌, Option, none, some, List, [], ◌∷◌, ◌++◌, take,
  any, ltb, ◌=ℕ◌, ◌==◌, strip_prefix, split_at_first, if◌then◌else◌,
}
use cap_protocol.Core.{Foreign, AgentEvent, TextChannel, AskKind, AskOption}
use cap_protocol.Pty.{Terminal, Regex, turn_done}
use cap_protocol.Pty.Texts.{
  is_whitespace, trim, trim_start, trim_end, trim_newline, lines, split_inclusive, begin_with,
  byte_length, slice_from, decimal, rev, keep,
}

-- `s.starts_with(p)`
unfoldable pub starts_with : String → String → Bool
unfolding strip_prefix
starts_with s p = elim (strip_prefix s p) [ none ↦ false | some rest ↦ true ]

-- `s.split(test)`
unfoldable pub split_any : (ℕ → Bool) → String → List String
unfolding begin_with
split_any test nothing = "" ∷ []
split_any test (char_then c s) =
    let rest = split_any test s in if test (code c) then "" ∷ rest else begin_with c rest

-- `s.split_whitespace().next()`
unfoldable pub first_word : String → String
unfolding trim split_any is_whitespace
first_word s = elim (split_any is_whitespace (trim s)) [ [] ↦ "" | word ∷ _ ↦ word ]

-- The id of an option: its first word without brackets, or its number
unfoldable pub option_id : ℕ → String → String
unfolding first_word trim_start trim_end
option_id idx label =
    let bracket : ℕ → Bool = λ c. any (λ k. c =ℕ k) (b'[' ∷ b']' ∷ b'(' ∷ b')' ∷ []) in
    let id = trim_end bracket (trim_start bracket (first_word label)) in
    if id == "" then append "option_" (decimal (suc idx)) else id

unfoldable pub number_options : ℕ → List String → List AskOption
unfolding option_id
number_options idx [] = []
number_options idx (label ∷ labels) =
    record { id = option_id idx label; label = label } ∷ number_options (suc idx) labels

unfoldable pub trim_all : List String → List String
unfolding trim
trim_all [] = []
trim_all (s ∷ ss) = trim s ∷ trim_all ss

unfoldable pub parse_inline_options : String → List AskOption
unfolding number_options trim_all split_any split_at_first
parse_inline_options line =
    let candidate = trim (elim (split_at_first ":" line) [ none ↦ line | some pair ↦ pair.1 ]) in
    number_options 0 (
      keep (λ s. not (s == ""))
        (trim_all (split_any (λ c. any (λ k. c =ℕ k) (b'|' ∷ b'/' ∷ b',' ∷ [])) candidate)))

pub record ReplParser (t : Terminal) : Type 0 where
  pub name : String
  pub vt : t.Vt
  pub buffer : String
  pub emit_cursor : ℕ
  pub prompts : List Regex
  pub ask_yes_no : Option Regex
  pub ask_options : Option Regex
  pub seen_first_prompt : Bool
  pub turn : ℕ

-- `ReplParser::new`
abbrev pub new_repl : {t : Terminal} → String → List Regex → Option Regex → ReplParser t
new_repl {t} name prompts ask_yes_no = record {
  name = name;
  vt = t.blank;
  buffer = "";
  emit_cursor = 0;
  prompts = prompts;
  ask_yes_no = ask_yes_no;
  ask_options = none;
  seen_first_prompt = false;
  turn = 0;
}

abbrev pub matches : Option Regex → String → Bool
matches none line = false
matches (some re) line = re line

module _ (x : Foreign) {t : Terminal} where
  abbrev is_prompt : ReplParser t → String → Bool
  is_prompt p line = any (λ re. re line) p.prompts

  -- A prompt: the agent is ready, or the turn is done.
  unfoldable pub at_boundary : Bool → ReplParser t → AgentEvent x × ReplParser t
  at_boundary true p = (turn_done x, record p { turn = suc p.turn })
  at_boundary false p = (
    AgentEvent.ready (some (append p.name (append "-pid" t.pid))) "cap-protocol/v1" none,
    record p { seen_first_prompt = true },
  )

  abbrev ask : ReplParser t → String → AskKind x → List AskOption → AgentEvent x
  ask p line kind options =
      AgentEvent.ask_user (append "ask_" (decimal p.turn)) line kind options none

  -- The first of the last lines that is a prompt or a question
  unfoldable pub scan_lines : List String → ReplParser t → List (AgentEvent x) × ReplParser t
  unfolding at_boundary parse_inline_options trim_newline
  scan_lines [] p = ([], p)
  scan_lines (l ∷ ls) p =
      let line = trim_newline l in
      let later = scan_lines ls p in
      let boundary_event = at_boundary p.seen_first_prompt p in
      if is_prompt p line
      then (boundary_event.0 ∷ [], boundary_event.1)
      else if matches p.ask_yes_no line
      then (ask p line AskKind.yes_no [] ∷ [], p)
      else if matches p.ask_options line
      then (ask p line AskKind.options (parse_inline_options line) ∷ [], p)
      else later

  unfoldable pub scan_for_boundary : String → ReplParser t → List (AgentEvent x) × ReplParser t
  unfolding scan_lines lines trim
  scan_for_boundary screen p =
      scan_lines (take 4 (keep (λ l. not (trim l == "")) (rev (lines screen)))) p

  -- The events of a line between the boundaries
  unfoldable pub say : Bool → String → ReplParser t → List (AgentEvent x)
  say false piece p = []
  say true piece p =
      AgentEvent.text_chunk (append "turn_" (decimal p.turn)) piece TextChannel.assistant ∷ []

  -- A line, given whether it is a prompt and whether it asks: the events, `last_line_was_prompt`, and
  -- the parser
  unfoldable pub read_line :
      Bool
      → Bool
      → String
      → String
      → Bool
      → ReplParser t
      → List (AgentEvent x) × Bool × ReplParser t
  unfolding at_boundary say
  read_line true is_yesno piece line last p =
      let (e, q) = at_boundary p.seen_first_prompt p in (e ∷ [], true, q)
  read_line false true piece line last p = (ask p line AskKind.yes_no [] ∷ [], last, p)
  read_line false false piece line last p = (say (not (line == "") || not last) piece p, false, p)

  -- One round of the loop over the pieces
  unfoldable pub read_piece :
      String → Bool → ReplParser t → List (AgentEvent x) × Bool × ReplParser t
  unfolding read_line trim_newline
  read_piece piece last p =
      let line = trim_newline piece in
      read_line (is_prompt p line) (matches p.ask_yes_no line) piece line last p

  -- The loop: the events, the bytes consumed, and the parser
  unfoldable pub read_pieces :
      List String → Bool → ReplParser t → List (AgentEvent x) × ℕ × ReplParser t
  unfolding read_piece byte_length
  read_pieces [] last p = ([], 0, p)
  read_pieces (piece ∷ pieces) last p =
      let (events, last', q) = read_piece piece last p in
      let (later, n, r) = read_pieces pieces last' q in (events ++ later, byte_length piece + n, r)

  -- The new text of a screen that begins with the old one
  unfoldable pub read_region :
      Option String → ReplParser t → Option (List (AgentEvent x) × ReplParser t)
  unfolding read_pieces split_inclusive
  read_region none p = none
  read_region (some region) p =
      let (events, consumed, q) = read_pieces (split_inclusive region) false p in
      some (events, record q { emit_cursor = q.emit_cursor + consumed })

  unfoldable pub clamp : ReplParser t → ReplParser t
  unfolding byte_length
  clamp p =
      if ltb (byte_length p.buffer) p.emit_cursor
      then record p { emit_cursor = byte_length p.buffer }
      else p

  unfoldable pub read_delta :
      String → Option String → ReplParser t → Option (List (AgentEvent x) × ReplParser t)
  unfolding read_region slice_from clamp
  read_delta screen none p = none
  read_delta screen (some delta) p =
      let q = clamp (record p { buffer = screen }) in
      let read = read_region (slice_from q.emit_cursor screen) q in
      if delta == "" then some ([], p) else read

  unfoldable pub read_screen : String → ReplParser t → Option (List (AgentEvent x) × ReplParser t)
  unfolding read_delta scan_for_boundary starts_with byte_length slice_from
  read_screen screen p =
      let (events, q) = scan_for_boundary screen p in
      let read = read_delta screen (slice_from (byte_length p.buffer) screen) p in
      if not (starts_with screen p.buffer)
      then some (events, record q { buffer = screen; emit_cursor = byte_length screen })
      else read

  unfoldable pub on_bytes : List ℕ → ReplParser t → Option (List (AgentEvent x) × ReplParser t)
  unfolding read_screen
  on_bytes bytes p =
      let vt = t.process bytes p.vt in read_screen (t.contents vt) (record p { vt = vt })

  unfoldable pub flush_tail : Option String → ReplParser t → Option (List (AgentEvent x))
  unfolding say
  flush_tail none p = none
  flush_tail (some tail) p = some (say (not (tail == "")) tail p ++ turn_done x ∷ [])

  unfoldable pub on_eof : ReplParser t → Option (List (AgentEvent x))
  unfolding flush_tail slice_from
  on_eof p = flush_tail (slice_from p.emit_cursor p.buffer) p
