-- ===== src/Pty/Examples.antt =====
-- An agent that comes up, drops the Enter of its first prompt, and answers.
use Prim.Native.String.{◌++◌ as append}
use cap_protocol.Prelude.{
  EndsWith, strip_prefix, if◌then◌else◌, ◌=ℕ◌, ltb, ok, ℕ, zero, length, ◌*◌, String, true, false,
  none, some, List, [], ◌∷◌, ◌≡◌, ◌⊎◌, ◌≤◌, refl, arith, suc,
}
use cap_protocol.Core.{Content, AgentEvent, TextChannel}
use cap_protocol.Samples.{plain}
use cap_protocol.Pty.{Terminal, Regex, open_gate}
use cap_protocol.Pty.Texts.{lines, trim_newline}
use cap_protocol.Pty.Thread.{Received, chunk, timeout, prompted, Watch, start, rounds}
use cap_protocol.Pty.Tui.{at_prompt, custom, drain_input, on_bytes, on_idle, arm, tui}
use cap_protocol.Pty.Pace.{dones, readies, prompts, tui-paced}
use cap_protocol.Pty.Answers.{silence, IsSettling, tui-answers}
use cap_protocol.Pty.Repl.{new_repl, starts_with}
use cap_protocol.Pty.Unbroken.{feed, IsFlushed, repl-unbroken}
use cap_protocol.Pty.Driver.{PtyDriver, System}
use cap_protocol.Pty.Plain.{raw_events, raw_parser, on_bytes as plain_bytes}
use cap_protocol.Pty.Screen.{told, after_chunk, plain-shown}

-- A terminal with four screens: a chunk is the number of the one that it shows.
abbrev nth_screen : ℕ → List String → String
nth_screen n [] = "gone"
nth_screen zero (s ∷ ss) = s
nth_screen (suc n) (s ∷ ss) = nth_screen n ss

abbrev screen : ℕ → String
screen n = nth_screen n ("" ∷ "welcome\n> " ∷ "welcome\n> hello" ∷ "welcome\n> hello\nhi\n> " ∷ [])

abbrev shows : List ℕ → ℕ → ℕ
shows [] n = n
shows (k ∷ _) n = k

abbrev slides : Terminal
slides = record { Vt = ℕ; blank = 0; process = shows; contents = screen; pid = "7" }

abbrev prompt : Regex
prompt line = starts_with line ">"

abbrev session : List Received
session =
    chunk (1 ∷ [])
    ∷ timeout
    ∷ prompted "hello"
    ∷ chunk (2 ∷ [])
    ∷ timeout
    ∷ timeout
    ∷ chunk (3 ∷ [])
    ∷ timeout
    ∷ []

abbrev watched : Watch (tui plain slides)
watched =
    rounds (tui plain slides) false session
      (start (tui plain slides) (custom "agent" (prompt ∷ []) 800))

-- Enter was sent twice more.
session_resent :
    (watched.injected ≡ (13 ∷ []) ∷ (13 ∷ []) ∷ [])
    × (dones watched.events ≡ 1)
    × (readies watched.events ≡ 1)
unfolding rounds starts_with trim_newline lines drain_input on_bytes on_idle arm
session_resent = (refl, refl, refl)

tui-paced_example :
    (readies watched.events ≤ 1)
    × (dones watched.events ≤ 3)
    × ((dones watched.events ≡ 0) ⊎ (1 ≤ prompts session))
    × (length watched.injected ≤ 4 * suc (dones watched.events))
tui-paced_example = tui-paced plain slides false "agent" (prompt ∷ []) 800 session

-- The agent waits at its prompt, and the text is still in the box.
abbrev waiting : Watch (tui plain slides)
waiting = start (tui plain slides) (record (custom "agent" (prompt ∷ []) 800) {
  last_screen = screen 2;
  dirty_since_boundary = true;
  gate = record { armed = true; pending_submit = some "hello"; bracketed_paste = false };
  resubmit_attempts = 2;
})

waiting-IsSettling : IsSettling plain slides waiting.parser
unfolding at_prompt starts_with
waiting-IsSettling = record { dirty = refl; ready = refl; armed = refl }

tui-answers_example : 1 ≤ dones (rounds (tui plain slides) false (silence 3) waiting).events
tui-answers_example =
    tui-answers plain slides false 3 waiting waiting-IsSettling (omega arith) (omega arith)

-- Where the screen does not change after the first prompt, silence ends no turn.
unchanged_screen :
    dones
      (rounds
        (tui plain slides)
        false
        (chunk (1 ∷ [])
          ∷ timeout
          ∷ prompted "hello"
          ∷ timeout
          ∷ timeout
          ∷ timeout
          ∷ timeout
          ∷ timeout
          ∷ [])
        (start (tui plain slides) (custom "agent" (prompt ∷ []) 800))).events
    ≡ 0
unfolding rounds on_bytes on_idle at_prompt starts_with arm drain_input
unchanged_screen = refl

repl-unbroken_example :
    IsFlushed plain slides (
      feed plain slides ((1 ∷ []) ∷ (2 ∷ []) ∷ (3 ∷ []) ∷ []) (new_repl "agent" (prompt ∷ []) none))
repl-unbroken_example =
    repl-unbroken plain slides "agent" (prompt ∷ []) none ((1 ∷ []) ∷ (2 ∷ []) ∷ (3 ∷ []) ∷ [])

-- A driver whose agent wants pastes marked, and a writer that takes two chunks.
abbrev pasting : PtyDriver
pasting = record {
  input_open = true;
  written = [];
  prompt_gate = some (record open_gate { bracketed_paste = true });
  exit_status = none;
  exited = false;
}

abbrev writer : System
writer = record { takes = λ sent. ltb (length sent) 2; hard_cancel = ok tt }

abbrev hello : List Content
hello = Content.text "hel" ∷ Content.image "image/png" [] ∷ Content.text "lo" ∷ []

abbrev inherited : List (String × String)
inherited = ("HOME", "/root") ∷ ("MY_TOKEN", "s") ∷ ("LANG", "C") ∷ []

-- Two screens that grow, and one that was painted anew
plain_test :
    told plain
      (after_chunk plain slides false (chunk (1 ∷ []) ∷ chunk (2 ∷ []) ∷ []) (9 ∷ [])).events
    ≡ "welcome\n> hello\n--- screen repaint ---\ngone"
unfolding rounds plain_bytes strip_prefix
plain_test = refl

plain-shown_example :
    EndsWith
      (told plain
        (after_chunk plain slides true
          (chunk (1 ∷ []) ∷ timeout ∷ chunk (2 ∷ []) ∷ [])
          (9 ∷ [])).events)
      (slides.contents
        (after_chunk plain slides true
          (chunk (1 ∷ []) ∷ timeout ∷ chunk (2 ∷ []) ∷ [])
          (9 ∷ [])).parser.vt)
plain-shown_example =
    plain-shown plain slides true (chunk (1 ∷ []) ∷ timeout ∷ chunk (2 ∷ []) ∷ []) (9 ∷ [])

abbrev ascii : List ℕ → String
ascii [] = ""
ascii (b ∷ bytes) = append (if b =ℕ 104 then "h" else "i") (ascii bytes)

raw_test :
    (rounds
      (raw_parser plain ascii)
      false
      (chunk (104 ∷ 105 ∷ []) ∷ chunk [] ∷ [])
      (start (raw_parser plain ascii) tt)).events
    ≡ AgentEvent.text_chunk "" "hi" TextChannel.assistant ∷ []
unfolding rounds raw_events
raw_test = refl
