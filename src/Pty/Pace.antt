-- ===== src/Pty/Pace.antt =====
-- How often the parser of a full-screen agent reports the end of a turn, and sends Enter again.
use cap_protocol.Prelude.{
  ℕ, suc, ◌+◌, ◌*◌, ◌≤◌, String, Bool, true, false, ◌&&◌, Option, none, some, List, [], ◌∷◌, ◌++◌,
  ◌≡◌, ◌⊎◌, inl, inr, refl, length, length-append, ltb, ◌==◌, arith, if◌then◌else◌,
}
use cap_protocol.Core.{Foreign, AgentEvent}
use cap_protocol.Pty.{Terminal, Regex}
use cap_protocol.Pty.Texts.{rposition}
use cap_protocol.Pty.Thread.{
  Received, chunk, timeout, prompted, Watch, start, forward, raw, round, rounds,
}
use cap_protocol.Pty.Tui.{
  enable, disable, TuiParser, max_resubmits, custom, set_paste, detect_bracketed_paste, paste_state,
  note_screen, on_bytes, drain_input, boundary, settle_unarmed, retry, settle_armed, settle,
  still_in_box, at_prompt, on_idle, arm, tui,
}

module _ {x : Foreign} where
  -- The ends of turns, and the reports of readiness, among the events
  abbrev pub dones : List (AgentEvent x) → ℕ
  dones [] = 0
  dones (AgentEvent.done stop usage ∷ es) = suc (dones es)
  dones (_ ∷ es) = dones es

  abbrev pub readies : List (AgentEvent x) → ℕ
  readies [] = 0
  readies (AgentEvent.ready session version model ∷ es) = suc (readies es)
  readies (_ ∷ es) = readies es

  pub dones-append : (es fs : List (AgentEvent x)) → dones (es ++ fs) ≡ dones es + dones fs
  dones-append [] fs = omega arith
  dones-append (AgentEvent.done stop usage ∷ es) fs = omega (arith, dones-append es fs)
  dones-append (_ ∷ es) fs = dones-append es fs

  readies-append : (es fs : List (AgentEvent x)) → readies (es ++ fs) ≡ readies es + readies fs
  readies-append [] fs = omega arith
  readies-append (AgentEvent.ready session version model ∷ es) fs =
      omega (arith, readies-append es fs)
  readies-append (_ ∷ es) fs = readies-append es fs

-- The chunks of bytes, and the prompts, among what was received
abbrev pub chunks : List Received → ℕ
chunks [] = 0
chunks (chunk bytes ∷ rs) = suc (chunks rs)
chunks (_ ∷ rs) = chunks rs

abbrev pub prompts : List Received → ℕ
prompts [] = 0
prompts (prompted text ∷ rs) = suc (prompts rs)
prompts (_ ∷ rs) = prompts rs

abbrev num : Bool → ℕ
num true = 1
num false = 0

module _ (x : Foreign) (t : Terminal) where
  -- What a settle may change.
  abbrev Settled : TuiParser t → List (AgentEvent x) × TuiParser t → Type 0
  Settled p (es, q) =
      (q.gate.armed ≡ p.gate.armed)
      × (dones es + num q.dirty_since_boundary ≤ num p.dirty_since_boundary)
      × ((dones es ≡ 0) ⊎ (p.gate.armed ≡ true))
      × (readies es + num p.seen_first_ready ≤ num q.seen_first_ready)
      × (length q.to_send + p.resubmit_attempts
          ≤ length p.to_send + q.resubmit_attempts + 4 * dones es)
      × (q.resubmit_attempts ≤ 4)

  settle_unarmed-Settled :
      (seen : Bool) (p : TuiParser t)
      → p.seen_first_ready ≡ seen
      → p.dirty_since_boundary ≡ true
      → p.resubmit_attempts ≤ 4
      → Settled p (settle_unarmed x seen p)
  unfolding settle_unarmed
  settle_unarmed-Settled true p s d h = (refl, omega arith, inl refl, omega arith, omega arith, h)
  settle_unarmed-Settled false p s d h =
      (refl, omega arith, inl refl, rw s (omega arith), omega arith, h)

  retry-Settled :
      (again : Bool) (p : TuiParser t)
      → (again ≡ true → p.resubmit_attempts ≤ 3)
      → p.gate.armed ≡ true
      → p.dirty_since_boundary ≡ true
      → p.resubmit_attempts ≤ 4
      → Settled p (retry x again p)
  unfolding retry boundary
  retry-Settled true p few a d h = (
    refl,
    omega arith,
    inl refl,
    omega arith,
    omega (arith, few refl, length-append p.to_send ((13 ∷ []) ∷ [])),
    omega (arith, few refl),
  )
  retry-Settled false p few a d h =
      (refl, rw d (omega arith), inr a, omega arith, omega arith, omega arith)

  settle_armed-Settled :
      (pending : Option String) (p : TuiParser t)
      → p.gate.armed ≡ true
      → p.dirty_since_boundary ≡ true
      → p.resubmit_attempts ≤ 4
      → Settled p (settle_armed x pending p)
  unfolding settle_armed boundary
  settle_armed-Settled none p a d h = (refl, rw d (omega arith), inr a, omega arith, omega arith, h)
  settle_armed-Settled (some text) p a d h =
      retry-Settled (still_in_box text p && ltb p.resubmit_attempts max_resubmits) p
        (λ e. ground arith) a d h

  settle-Settled :
      (armed : Bool) (p : TuiParser t)
      → p.gate.armed ≡ armed
      → p.dirty_since_boundary ≡ true
      → p.resubmit_attempts ≤ 4
      → Settled p (settle x armed p)
  unfolding settle
  settle-Settled true p a d h = settle_armed-Settled p.gate.pending_submit p a d h
  settle-Settled false p a d h = settle_unarmed-Settled p.seen_first_ready p refl d h

  on_idle-Settled : (p : TuiParser t) → p.resubmit_attempts ≤ 4 → Settled p (on_idle x p)
  unfolding on_idle
  on_idle-Settled p h = by_test (p.dirty_since_boundary && at_prompt p p.last_screen) refl
    where
      by_test :
          (b : Bool)
          → (p.dirty_since_boundary && at_prompt p p.last_screen) ≡ b
          → Settled p (if b then settle x p.gate.armed p else ([], p))
      by_test true e = settle-Settled p.gate.armed p refl (ground arith) h
      by_test false e = (refl, omega arith, inl refl, omega arith, omega arith, h)

  -- What holds of the thread after `c` chunks and `k` prompts.
  abbrev Paced : ℕ → ℕ → Watch (tui x t) → Type 0
  Paced c k w =
      (num w.parser.gate.armed ≤ k)
      × (dones w.events + num w.parser.dirty_since_boundary ≤ c)
      × ((dones w.events ≡ 0) ⊎ (w.parser.gate.armed ≡ true))
      × (readies w.events ≤ num w.parser.seen_first_ready)
      × (length w.parser.to_send ≡ 0)
      × (length w.injected ≤ w.parser.resubmit_attempts + 4 * dones w.events)
      × (w.parser.resubmit_attempts ≤ 4)

  Paced-idle :
      (c k : ℕ) (w : Watch (tui x t))
      → Paced c k w
      → Paced c k (forward (tui x t) (on_idle x w.parser) w)
  unfolding forward drain_input
  Paced-idle c k w (a, d, n, r, z, i, m) =
      let (a', d', n', r', z', m') = on_idle-Settled w.parser m in
      let e = dones-append w.events (on_idle x w.parser).0 in
      let f = readies-append w.events (on_idle x w.parser).0 in
      let l = length-append w.injected (on_idle x w.parser).1.to_send in
      (rw a' a, omega arith, ground arith, omega arith, refl, omega arith, m')

  -- What a chunk of bytes leaves alone.
  abbrev Unmoved : TuiParser t → TuiParser t → Type 0
  Unmoved p q =
      (q.gate.armed ≡ p.gate.armed)
      × (q.seen_first_ready ≡ p.seen_first_ready)
      × (q.resubmit_attempts ≡ p.resubmit_attempts)
      × (q.to_send ≡ p.to_send)

  set_paste-Unmoved : (state : Option Bool) (p : TuiParser t) → Unmoved p (set_paste state p)
  unfolding set_paste
  set_paste-Unmoved none p = (refl, refl, refl, refl)
  set_paste-Unmoved (some state) p = (refl, refl, refl, refl)

  abbrev seen_state : List ℕ → Option Bool
  seen_state bytes = paste_state (rposition enable bytes) (rposition disable bytes)

  note_screen-Unmoved :
      (screen : String) (p q : TuiParser t) → Unmoved p q → Unmoved p (note_screen screen q)
  unfolding note_screen
  note_screen-Unmoved screen p q h =
      elim (screen == q.last_screen)
        as (λ b.
          Unmoved p
            (if b then q else record q { last_screen = screen; dirty_since_boundary = true })) [
              | true ↦ h
              | false ↦ h
            ]

  on_bytes-Unmoved : (bytes : List ℕ) (p : TuiParser t) → Unmoved p (on_bytes bytes p)
  unfolding on_bytes detect_bracketed_paste
  on_bytes-Unmoved bytes p = note_screen-Unmoved _ p _ (set_paste-Unmoved (seen_state bytes) p)

  num-le : (b : Bool) → num b ≤ 1
  num-le true = omega arith
  num-le false = omega arith

  raw_counts :
      (b : Bool) (bytes : List ℕ) (es : List (AgentEvent x))
      → (dones ((es ++ raw (tui x t) b bytes) ++ []) ≡ dones es)
        × (readies ((es ++ raw (tui x t) b bytes) ++ []) ≡ readies es)
  unfolding raw
  raw_counts b bytes es =
      let (e, f) = raw_silent b in
      (
        omega (
          arith,
          dones-append (es ++ raw (tui x t) b bytes) [],
          dones-append es (raw (tui x t) b bytes),
          e,
        ),
        omega (
          arith,
          readies-append (es ++ raw (tui x t) b bytes) [],
          readies-append es (raw (tui x t) b bytes),
          f,
        ),
      )
    where
      raw_silent :
          (b : Bool) → (dones (raw (tui x t) b bytes) ≡ 0) × (readies (raw (tui x t) b bytes) ≡ 0)
      raw_silent true = (refl, refl)
      raw_silent false = (refl, refl)

  Paced-more : (c k c' k' : ℕ) (w : Watch (tui x t)) → c ≡ c' → k ≡ k' → Paced c k w → Paced c' k' w
  Paced-more c k c' k' w e f (a, d, n, r, z, i, m) = (omega arith, omega arith, n, r, z, i, m)

  Paced-chunk :
      (include_raw_bytes : Bool) (bytes : List ℕ) (c k : ℕ) (w : Watch (tui x t))
      → Paced c k w
      → Paced (suc c) k (round (tui x t) include_raw_bytes (chunk bytes) w)
  unfolding round forward drain_input
  Paced-chunk include_raw_bytes bytes c k w (a, d, n, r, z, i, m) =
      let (a', r', m', s') = on_bytes-Unmoved bytes w.parser in
      let (e, f) = raw_counts include_raw_bytes bytes w.events in
      let l = length-append w.injected (on_bytes bytes w.parser).to_send in
      let b = num-le (on_bytes bytes w.parser).dirty_since_boundary in
      (
        rw a' a,
        omega arith,
        ground arith,
        rw r' (omega arith),
        refl,
        rw s' (omega (arith, length-append w.injected w.parser.to_send)),
        omega arith,
      )

  Paced-prompted :
      (text : String) (c k : ℕ) (w : Watch (tui x t))
      → Paced c k w
      → Paced c (suc k) (record w { parser = arm text w.parser })
  unfolding arm
  Paced-prompted text c k w (a, d, n, r, z, i, m) = (omega arith, d, inr refl, r, z, i, m)

  Paced-rounds :
      (include_raw_bytes : Bool) (rs : List Received) (c k : ℕ) (w : Watch (tui x t))
      → Paced c k w
      → Paced (chunks rs + c) (prompts rs + k) (rounds (tui x t) include_raw_bytes rs w)
  unfolding rounds round
  Paced-rounds b [] c k w h = Paced-more _ _ _ _ w (omega arith) (omega arith) h
  Paced-rounds b (chunk bytes ∷ rs) c k w h =
      Paced-more _ _ _ _ (rounds (tui x t) b (chunk bytes ∷ rs) w) (omega arith) (omega arith)
        (Paced-rounds b rs (suc c) k _ (Paced-chunk b bytes c k w h))
  Paced-rounds b (timeout ∷ rs) c k w h = Paced-rounds b rs c k _ (Paced-idle c k w h)
  Paced-rounds b (prompted text ∷ rs) c k w h =
      Paced-more _ _ _ _ (rounds (tui x t) b (prompted text ∷ rs) w) (omega arith) (omega arith)
        (Paced-rounds b rs c (suc k) _ (Paced-prompted text c k w h))

  -- Whatever the agent writes and the driver sends: the parser of a full-screen agent reports
  -- readiness at most once, and the end of a turn at most once for each chunk of bytes and not before a
  -- prompt was sent; and it sends Enter again at most four times for each turn that it reported, and for
  -- the one that it waits for.
  pub tui-paced :
      (include_raw_bytes : Bool) (name : String) (markers : List Regex) (idle : ℕ)
      (rs : List Received)
      → let w =
          rounds (tui x t) include_raw_bytes rs (start (tui x t) (custom name markers idle)) in
        (readies w.events ≤ 1)
        × (dones w.events ≤ chunks rs)
        × ((dones w.events ≡ 0) ⊎ (1 ≤ prompts rs))
        × (length w.injected ≤ 4 * suc (dones w.events))
  tui-paced b name markers idle rs =
      let w = rounds (tui x t) b rs (start (tui x t) (custom name markers idle)) in
      let (a, d, n, r, z, i, m) =
        Paced-rounds b rs 0 0 (start (tui x t) (custom name markers idle))
          (omega arith, omega arith, inl refl, omega arith, refl, omega arith, omega arith) in
      (
        omega (arith, num-le w.parser.seen_first_ready),
        omega arith,
        told w.parser.gate.armed n a,
        omega arith,
      )
    where
      told :
          (armed : Bool) {d : ℕ}
          → (d ≡ 0) ⊎ (armed ≡ true)
          → num armed ≤ prompts rs + 0
          → (d ≡ 0) ⊎ (1 ≤ prompts rs)
      told true n a = inr (omega arith)
      told false n a = ground arith
