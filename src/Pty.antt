-- ===== src/Pty.antt =====
-- crates/cap-rs/src/driver/pty.rs: the parsers that turn the bytes of a terminal into events, and what
-- the driver writes to it.
pub mod Texts
pub mod Thread
pub mod Tui
pub mod Repl
pub mod Driver
pub mod Plain
mod Screen
mod Sent
pub mod Cursor
mod Unbroken
pub mod Pace
mod Answers
mod Examples
use cap_protocol.Prelude.{ℕ, String, Bool, false, Option, none, some, List, [], ◌∷◌}
use cap_protocol.Core.{Foreign, StopReason, AgentEvent, no_usage}

-- What the parsers take from elsewhere: the `vt100` crate's terminal with the text of its screen, and
-- the number of the process.
pub record Terminal : Type 1 where
  pub Vt : Type 0
  pub blank : Vt
  pub process : List ℕ → Vt → Vt
  pub contents : Vt → String
  pub pid : String

-- A `Regex` is what the sources ask it: whether it matches a line.
abbrev pub Regex : Type 0
Regex = String → Bool

pub record PromptGate : Type 0 where
  pub armed : Bool
  pub pending_submit : Option String
  pub bracketed_paste : Bool

-- `PromptGate::default()`
abbrev pub open_gate : PromptGate
open_gate = record { armed = false; pending_submit = none; bracketed_paste = false }

-- The end of a turn, as the parsers report it.
abbrev pub turn_done : (x : Foreign) → AgentEvent x
turn_done x = AgentEvent.done StopReason.end_turn (no_usage x)
