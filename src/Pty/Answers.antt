-- ===== src/Pty/Answers.antt =====
-- The parser of a full-screen agent does not wait for ever for a prompt that was not taken.
use cap_protocol.Prelude.{
  ℕ, zero, suc, ◌+◌, ◌≤◌, Bool, true, false, ◌&&◌, Option, none, some, List, [], ◌∷◌, ◌≡◌, ◌⊎◌, inl,
  inr, String, refl, ltb, arith, if◌then◌else◌,
}
use cap_protocol.Core.{Foreign, AgentEvent}
use cap_protocol.Pty.{Terminal}
use cap_protocol.Pty.Thread.{Received, timeout, Watch, forward, round, rounds}
use cap_protocol.Pty.Tui.{
  TuiParser, max_resubmits, drain_input, boundary, retry, settle_armed, settle, still_in_box,
  at_prompt, on_idle, tui,
}
use cap_protocol.Pty.Pace.{dones, dones-append}

-- The bytes stay away for so many times the idle time.
abbrev pub silence : ℕ → List Received
silence zero = []
silence (suc n) = timeout ∷ silence n

module _ (x : Foreign) (t : Terminal) where
  -- The screen has changed since the last boundary or settle, it shows the agent's prompt, and a prompt was sent.
  pub record IsSettling (p : TuiParser t) : Type 0 where
    pub dirty : p.dirty_since_boundary ≡ true
    pub ready : at_prompt p p.last_screen ≡ true
    pub armed : p.gate.armed ≡ true

  -- A settle ends the turn, or uses up a try and leaves the rest as it is.
  abbrev Retried : TuiParser t → List (AgentEvent x) × TuiParser t → Type 0
  Retried p (es, q) =
      (dones es ≡ 1)
      ⊎ ((suc p.resubmit_attempts ≤ 4)
          × (q.resubmit_attempts ≡ suc p.resubmit_attempts)
          × IsSettling (drain_input q).1)

  retry-Retried :
      (again : Bool) (p : TuiParser t)
      → (again ≡ true → suc p.resubmit_attempts ≤ 4)
      → IsSettling p
      → Retried p (retry x again p)
  unfolding retry boundary drain_input at_prompt
  retry-Retried true p few h =
      inr (few refl, refl, record { dirty = h.dirty; ready = h.ready; armed = h.armed })
  retry-Retried false p few h = inl refl

  settle_armed-Retried :
      (pending : Option String) (p : TuiParser t)
      → IsSettling p
      → Retried p (settle_armed x pending p)
  unfolding settle_armed boundary
  settle_armed-Retried none p h = inl refl
  settle_armed-Retried (some text) p h =
      retry-Retried (still_in_box text p && ltb p.resubmit_attempts max_resubmits) p
        (λ e. ground arith) h

  on_idle-Retried : (p : TuiParser t) → IsSettling p → Retried p (on_idle x p)
  unfolding on_idle settle
  on_idle-Retried p h =
      tested (p.dirty_since_boundary && at_prompt p p.last_screen) p.gate.armed
        (ground (arith, h.dirty, h.ready)) h.armed
    where
      tested :
          (b armed : Bool)
          → b ≡ true
          → armed ≡ true
          → Retried p (if b then settle x armed p else ([], p))
      tested true true e f = settle_armed-Retried p.gate.pending_submit p h
      tested true false e f = absurd (ground arith)
      tested false armed e f = absurd (ground arith)

  round-dones :
      (b : Bool) (w : Watch (tui x t))
      → dones (round (tui x t) b timeout w).events ≡ dones w.events + dones (on_idle x w.parser).0
  unfolding round forward
  round-dones b w = dones-append w.events (on_idle x w.parser).0

  silence-dones :
      (b : Bool) (n : ℕ) (w : Watch (tui x t))
      → dones w.events ≤ dones (rounds (tui x t) b (silence n) w).events
  unfolding rounds
  silence-dones b zero w = omega arith
  silence-dones b (suc n) w =
      omega (arith, round-dones b w, silence-dones b n (round (tui x t) b timeout w))

  -- Once a prompt was sent, the screen shows the agent's prompt, and it has changed since the last end of a turn
  -- or, before the first prompt, since the last settle (the flag `dirty_since_boundary`), silence ends the
  -- turn: with `a` tries used up, at most four, a silence of `5 - a` times the idle time or longer gives a
  -- `Done`.
  pub tui-answers :
      (b : Bool) (n : ℕ) (w : Watch (tui x t))
      → IsSettling w.parser
      → 5 ≤ n + w.parser.resubmit_attempts
      → w.parser.resubmit_attempts ≤ 4
      → suc (dones w.events) ≤ dones (rounds (tui x t) b (silence n) w).events
  unfolding rounds round forward drain_input
  tui-answers b zero w h e m = absurd (omega arith)
  tui-answers b (suc n) w h e m = elim (on_idle-Retried w.parser h) [
    | inl d ↦ omega (arith, d, round-dones b w, silence-dones b n (round (tui x t) b timeout w))
    | inr (m', e', h') ↦ omega (
      arith,
      round-dones b w,
      tui-answers b n (round (tui x t) b timeout w) h' (omega (arith, e')) (omega (arith, e')),
    )
  ]
