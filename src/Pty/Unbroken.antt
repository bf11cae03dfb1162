-- ===== src/Pty/Unbroken.antt =====
-- The cursor of the parser of a prompt-delimited agent, over the chunks of a session.
use cap_protocol.Prelude.{
  ℕ, ◌+◌, ◌≤◌, String, Bool, true, false, not, Option, none, some, List, [], ◌∷◌, ◌++◌, ◌≡◌, ◌∙◌,
  ap, refl, ltb, ◌==◌, strip_prefix, arith, if◌then◌else◌,
}
use cap_protocol.Core.{Foreign, AgentEvent}
use cap_protocol.Pty.{Terminal, Regex, turn_done}
use cap_protocol.Pty.Texts.{as_bytes, byte_length, slice_from, split_inclusive}
use cap_protocol.Pty.Cursor.{strip_prefix-IsCut, sum_bytes, split_inclusive-bytes, slice_from-end}
use cap_protocol.Pty.Repl.{
  ReplParser, new_repl, starts_with, at_boundary, say, scan_for_boundary, read_line, read_piece,
  read_pieces, read_region, clamp, read_delta, read_screen, on_bytes, flush_tail, on_eof,
}

module _ (x : Foreign) (t : Terminal) where
  -- The chunks of a session, one after the other: the events, or nothing where a slice panics
  abbrev pub feed : List (List ℕ) → ReplParser t → Option (List (AgentEvent x) × ReplParser t)
  feed [] p = some ([], p)
  feed (bytes ∷ chunks) p = elim (on_bytes x bytes p) [
    | none ↦ none
    | some (events, q) ↦ elim (feed chunks q) [
      | none ↦ none
      | some (later, r) ↦ some (events ++ later, r)
    ]
  ]

  -- The end of the input adds the end of a turn and no text.
  abbrev pub IsFlushed : Option (List (AgentEvent x) × ReplParser t) → Type 0
  IsFlushed none = ⊥
  IsFlushed (some (events, p)) = on_eof x p ≡ some (turn_done x ∷ [])

  -- The whole screen was read.
  abbrev IsRead : ReplParser t → Type 0
  IsRead p = p.emit_cursor ≡ byte_length p.buffer

  abbrev IsReadOption : Option (List (AgentEvent x) × ReplParser t) → Type 0
  IsReadOption none = ⊥
  IsReadOption (some (events, p)) = IsRead p

  -- A step of the parser over a text that it does not change.
  abbrev Same : ReplParser t → ReplParser t → Type 0
  Same p q = (q.buffer ≡ p.buffer) × (q.emit_cursor ≡ p.emit_cursor)

  at_boundary-Same : (seen : Bool) (p : ReplParser t) → Same p (at_boundary x seen p).1
  unfolding at_boundary
  at_boundary-Same true p = (refl, refl)
  at_boundary-Same false p = (refl, refl)

  read_line-Same :
      (is_prompt is_yesno : Bool) (piece line : String) (last : Bool) (p : ReplParser t)
      → Same p (read_line x is_prompt is_yesno piece line last p).2
  unfolding read_line
  read_line-Same true is_yesno piece line last p = at_boundary-Same p.seen_first_prompt p
  read_line-Same false true piece line last p = (refl, refl)
  read_line-Same false false piece line last p = (refl, refl)

  read_piece-Same :
      (piece : String) (last : Bool) (p : ReplParser t) → Same p (read_piece x piece last p).2
  unfolding read_piece
  read_piece-Same piece last p = read_line-Same _ _ piece _ last p

  read_pieces-Same :
      (pieces : List String) (last : Bool) (p : ReplParser t)
      → Same p (read_pieces x pieces last p).2
        × ((read_pieces x pieces last p).1 ≡ sum_bytes pieces)
  unfolding read_pieces
  read_pieces-Same [] last p = ((refl, refl), refl)
  read_pieces-Same (piece ∷ pieces) last p =
      let (events, last', q) = read_piece x piece last p in
      let (b, c) = read_piece-Same piece last p in
      let ((b', c'), n) = read_pieces-Same pieces last' q in
      ((b' ∙ b, c' ∙ c), ap (λ k. byte_length piece + k) n)

  read_region-IsRead :
      (region : String) (p : ReplParser t)
      → p.emit_cursor + byte_length region ≡ byte_length p.buffer
      → IsReadOption (read_region x (some region) p)
  unfolding read_region
  read_region-IsRead region p e =
      let (h, n) = read_pieces-Same (split_inclusive region) false p in
      omega (arith, h.1, n, split_inclusive-bytes region, e, ap byte_length h.0)

  clamp-same : (p : ReplParser t) → p.emit_cursor ≤ byte_length p.buffer → clamp x p ≡ p
  unfolding clamp
  clamp-same p h =
      let f : ltb (byte_length p.buffer) p.emit_cursor ≡ false = ground arith in rw f refl

  read_delta-IsRead :
      (screen delta : String) (p : ReplParser t)
      → IsRead p
      → strip_prefix screen p.buffer ≡ some delta
      → IsReadOption (read_delta x screen (some delta) p)
  unfolding read_delta
  read_delta-IsRead screen delta p h e =
      let (cut, size) = strip_prefix-IsCut screen p.buffer delta e in
      let q : ReplParser t = record p { buffer = screen } in
      elim (delta == "")
        as (λ b. IsReadOption (
          if b
          then some ([], p)
          else read_region x (slice_from (clamp x q).emit_cursor screen) (clamp x q))) [
            | true ↦ h
            | false ↦
                rw (clamp-same q (omega arith), h, cut)
                  (read_region-IsRead delta (record q { emit_cursor = byte_length p.buffer })
                    (omega arith))
          ]

  read_screen-IsRead :
      (screen : String) (p : ReplParser t) → IsRead p → IsReadOption (read_screen x screen p)
  unfolding read_screen starts_with
  read_screen-IsRead screen p h = begun (strip_prefix screen p.buffer) refl
    where
      begun :
          (rest : Option String)
          → strip_prefix screen p.buffer ≡ rest
          → IsReadOption (
              if not (elim rest [ none ↦ false | some r ↦ true ])
              then some (
                (scan_for_boundary x screen p).0,
                record (scan_for_boundary x screen p).1 {
                  buffer = screen;
                  emit_cursor = byte_length screen;
                },
              )
              else read_delta x screen (slice_from (byte_length p.buffer) screen) p)
      begun none e = refl
      begun (some delta) e =
          rw ((strip_prefix-IsCut screen p.buffer delta e).0) (read_delta-IsRead screen delta p h e)

  on_eof-flushed : (p : ReplParser t) → IsRead p → on_eof x p ≡ some (turn_done x ∷ [])
  unfolding on_eof flush_tail say
  on_eof-flushed p h = rw (h, slice_from-end p.buffer) refl

  later-IsFlushed :
      (events : List (AgentEvent x)) (r : Option (List (AgentEvent x) × ReplParser t))
      → IsFlushed r
      → IsFlushed (elim r [ none ↦ none | some (later, q) ↦ some (events ++ later, q) ])
  later-IsFlushed events none h = absurd h
  later-IsFlushed events (some (later, q)) h = h

  fed-IsFlushed :
      (chunks : List (List ℕ)) (r : Option (List (AgentEvent x) × ReplParser t))
      → IsReadOption r
      → ((q : ReplParser t) → IsRead q → IsFlushed (feed chunks q))
      → IsFlushed (elim r [
        | none ↦ none
        | some (events, q) ↦ elim (feed chunks q) [
          | none ↦ none
          | some (later, s) ↦ some (events ++ later, s)
        ]
      ])
  fed-IsFlushed chunks none h next = absurd h
  fed-IsFlushed chunks (some (events, q)) h next = later-IsFlushed events (feed chunks q) (next q h)

  feed-IsFlushed :
      (chunks : List (List ℕ)) (p : ReplParser t) → IsRead p → IsFlushed (feed chunks p)
  unfolding on_bytes
  feed-IsFlushed [] p h = on_eof-flushed p h
  feed-IsFlushed (bytes ∷ chunks) p h =
      fed-IsFlushed chunks (on_bytes x bytes p)
        (read_screen-IsRead (t.contents (t.process bytes p.vt))
          (record p { vt = t.process bytes p.vt }) h)
        (feed-IsFlushed chunks)

  -- Whatever the terminal shows: no chunk makes the parser of a prompt-delimited agent cut a text inside
  -- of a character or past its end, and when the agent has gone it reports the end of the turn and no
  -- further text, since each chunk is read to its end.
  pub repl-unbroken :
      (name : String) (prompts : List Regex) (ask_yes_no : Option Regex) (chunks : List (List ℕ))
      → IsFlushed (feed chunks (new_repl name prompts ask_yes_no))
  unfolding byte_length as_bytes
  repl-unbroken name prompts ask_yes_no chunks =
      feed-IsFlushed chunks (new_repl name prompts ask_yes_no) refl
