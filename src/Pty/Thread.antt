-- ===== src/Pty/Thread.antt =====
-- The trait `AgentParser`, and the thread of `spawn_parser_thread` while its channels are open.
use cap_protocol.Prelude.{ℕ, String, Bool, true, false, List, [], ◌∷◌, ◌++◌}
use cap_protocol.Core.{Foreign, AgentEvent}

-- `on_prompt` is what the driver's `send` of a prompt does to the gate that a parser shares with it.
pub record AgentParser (x : Foreign) : Type 1 where
  pub State : Type 0
  pub on_bytes : List ℕ → State → List (AgentEvent x) × State
  pub on_idle : State → List (AgentEvent x) × State
  pub on_eof : State → List (AgentEvent x)
  pub drain_input : State → List (List ℕ) × State
  pub on_prompt : String → State → State

-- What the thread receives, and a prompt that the driver sends meanwhile.
pub data Received : Type 0 where
  chunk : List ℕ → Received
  timeout : Received
  prompted : String → Received

-- `events` are those sent to the consumer, and `injected` what was written to the agent.
pub record Watch {x : Foreign} (a : AgentParser x) : Type 0 where
  pub parser : a.State
  pub events : List (AgentEvent x)
  pub injected : List (List ℕ)

module _ {x : Foreign} (a : AgentParser x) where
  abbrev pub start : a.State → Watch a
  start s = record { parser = s; events = []; injected = [] }

  -- The events are sent, then `flush_injected!` writes what the parser wants written.
  unfoldable pub forward : List (AgentEvent x) × a.State → Watch a → Watch a
  forward (events, s) w =
      let (bytes, s') = a.drain_input s in
      record { parser = s'; events = w.events ++ events; injected = w.injected ++ bytes }

  unfoldable pub raw : Bool → List ℕ → List (AgentEvent x)
  raw true bytes = AgentEvent.pty_raw_bytes bytes ∷ []
  raw false bytes = []

  unfoldable pub round : Bool → Received → Watch a → Watch a
  unfolding forward raw
  round include_raw_bytes (chunk bytes) w =
      forward (a.on_bytes bytes w.parser)
        (record w { events = w.events ++ raw include_raw_bytes bytes })
  round include_raw_bytes timeout w = forward (a.on_idle w.parser) w
  round include_raw_bytes (prompted text) w = record w { parser = a.on_prompt text w.parser }

  unfoldable pub rounds : Bool → List Received → Watch a → Watch a
  unfolding round
  rounds include_raw_bytes [] w = w
  rounds include_raw_bytes (r ∷ rs) w = rounds include_raw_bytes rs (round include_raw_bytes r w)

  -- The reader has gone: the events of the end of the input
  unfoldable pub finish : Watch a → List (AgentEvent x)
  finish w = w.events ++ a.on_eof w.parser
