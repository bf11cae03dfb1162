-- ===== src/StreamJson/Turns.antt =====
-- The `AgentEvent::Done` among the events that `parse_stream_frame` and `parse_rscode_event` make.
use cap_protocol.Prelude.{
  String, Bool, true, false, Option, none, some, List, [], ◌∷◌, ◌≡◌, ◌∙◌, ap, ◌⊎◌, inl, inr, refl,
  ◌==◌, arith, if◌then◌else◌,
}
use text.Mathlib.TextEquality.{eq_iff}
use cap_protocol.Core.{Foreign, AgentEvent, TextChannel}
use cap_protocol.Pty.Pace.{dones, dones-append}
use cap_protocol.Json.{array_at, unwrap_or, value_at, and_then, str_at, text_at}
use cap_protocol.StreamJson.Rscode.{
  shown, block_text, with_text, final_blocks, rscode_kind, first_event, parse_rscode_event,
}
use cap_protocol.StreamJson.{
  starts_with, unless_empty, read_block, read_blocks, read_result_block, read_results,
  read_assistant, read_user, read_result, read_delta, read_stream_event, read_system, read_kind,
  parse_stream_frame,
}

module _ (x : Foreign) where
  -- Whether the last event is the end of a turn
  abbrev pub last_is_done : List (AgentEvent x) → Bool
  last_is_done [] = false
  last_is_done (AgentEvent.done stop usage ∷ []) = true
  last_is_done (_ ∷ es) = last_is_done es

  unless_empty-dones :
      (text : String) (e : AgentEvent x) → dones (e ∷ []) ≡ 0 → dones (unless_empty x text e) ≡ 0
  unless_empty-dones text e h = ground (arith, h)

  read_block-dones :
      (msg_id : String) (block : x.Value) (btype : String)
      → dones (read_block x msg_id block btype) ≡ 0
  unfolding read_block
  read_block-dones msg_id block btype = ground arith

  read_blocks-dones :
      (msg_id : String) (blocks : List x.Value) → dones (read_blocks x msg_id blocks) ≡ 0
  unfolding read_blocks
  read_blocks-dones msg_id [] = refl
  read_blocks-dones msg_id (block ∷ blocks) = ground (
    arith,
    dones-append (read_block x msg_id block (text_at x "type" block)) (read_blocks x msg_id blocks),
    read_block-dones msg_id block (text_at x "type" block),
    read_blocks-dones msg_id blocks,
  )

  read_results-dones : (blocks : List x.Value) → dones (read_results x blocks) ≡ 0
  unfolding read_results read_result_block
  read_results-dones [] = refl
  read_results-dones (block ∷ blocks) = ground (arith, read_results-dones blocks)

  read_stream_event-dones : (frame : x.Value) → dones (read_stream_event x frame) ≡ 0
  unfolding read_stream_event read_delta
  read_stream_event-dones frame = ground arith

  read_system-dones : (frame : x.Value) → dones (read_system x frame) ≡ 0
  unfolding read_system
  read_system-dones frame = ground arith

  -- The turn ends once, with the last event.
  abbrev pub IsLastDone : List (AgentEvent x) → Type 0
  IsLastDone es = (dones es ≡ 1) × (last_is_done es ≡ true)

  with_text-dones :
      (text : Option String) (e : String → AgentEvent x)
      → ((s : String) → dones (e s ∷ []) ≡ 0)
      → dones (with_text x text e) ≡ 0
  with_text-dones none e h = refl
  with_text-dones (some s) e h = ground (arith, h s)

  final_blocks-dones :
      (turn_id : String) (blocks : List x.Value) → dones (final_blocks x turn_id blocks) ≡ 0
  unfolding final_blocks
  final_blocks-dones turn_id [] = refl
  final_blocks-dones turn_id (block ∷ blocks) =
      let text = block_text x (x.as_object block) block in
      let e : String → AgentEvent x = λ s. AgentEvent.text_chunk turn_id s TextChannel.assistant in
      omega (
        arith,
        dones-append (with_text x text e) (final_blocks x turn_id blocks),
        with_text-dones text e (λ s. refl),
        final_blocks-dones turn_id blocks,
      )

  read_result-IsLastDone : (b : Bool) (frame : x.Value) → IsLastDone (read_result x b frame)
  unfolding read_result
  read_result-IsLastDone true frame = (refl, refl)
  read_result-IsLastDone false frame = (refl, refl)

  rscode_kind-turns :
      (kind : String) (payload : x.Value)
      → (dones (rscode_kind x kind payload) ≡ 0) ⊎ IsLastDone (rscode_kind x kind payload)
  unfolding rscode_kind
  rscode_kind-turns kind payload =
      let turn_id = shown x (x.get "turn" payload) in
      ground (
        arith,
        with_text-dones (str_at x "text" payload) (AgentEvent.thought turn_id) (λ s. refl),
        with_text-dones (str_at x "text" payload)
            (λ text. AgentEvent.text_chunk "" text TextChannel.assistant) (λ s. refl),
        final_blocks-dones turn_id (unwrap_or [] (array_at x "blocks" payload)),
      )

  first_event-turns :
      (entries : Option (List (String × x.Value)))
      → (dones (first_event x entries) ≡ 0) ⊎ IsLastDone (first_event x entries)
  unfolding first_event
  first_event-turns none = inl refl
  first_event-turns (some []) = inl refl
  first_event-turns (some ((kind, payload) ∷ _)) = rscode_kind-turns kind payload

  parse_rscode_event-turns :
      (frame : x.Value)
      → (dones (parse_rscode_event x frame) ≡ 0) ⊎ IsLastDone (parse_rscode_event x frame)
  unfolding parse_rscode_event first_event
  parse_rscode_event-turns frame = first_event-turns (and_then x.as_object (x.get "event" frame))

  -- What a frame of type `kind` makes of its turn
  abbrev pub EndsAsNamed : String → List (AgentEvent x) → Type 0
  EndsAsNamed kind es =
      ((dones es ≡ 0) × ((kind == "result") ≡ false))
      ⊎ (IsLastDone es × (((kind == "result") ≡ true) ⊎ ((kind == "event") ≡ true)))

  if-EndsAsNamed :
      (kind : String) (b : Bool) (es fs : List (AgentEvent x))
      → (b ≡ true → EndsAsNamed kind es)
      → (b ≡ false → EndsAsNamed kind fs)
      → EndsAsNamed kind (if b then es else fs)
  if-EndsAsNamed kind true es fs h k = h refl
  if-EndsAsNamed kind false es fs h k = k refl

  goes_on :
      (kind word : String) (es : List (AgentEvent x))
      → (word == "result") ≡ false
      → dones es ≡ 0
      → (kind == word) ≡ true
      → EndsAsNamed kind es
  goes_on kind word es h d e = inl (d, ap (λ s. s == "result") ((eq_iff kind word).0 e) ∙ h)

  event-EndsAsNamed :
      (kind : String) (es : List (AgentEvent x))
      → (dones es ≡ 0) ⊎ IsLastDone es
      → (kind == "event") ≡ true
      → EndsAsNamed kind es
  event-EndsAsNamed kind es (inl d) e = goes_on kind "event" es refl d e
  event-EndsAsNamed kind es (inr l) e = inr (l, inr e)

  read_kind-turns : (kind : String) (frame : x.Value) → EndsAsNamed kind (read_kind x kind frame)
  unfolding read_kind read_assistant read_user
  read_kind-turns kind frame =
      let msg = value_at x "message" frame in
      let contents = unwrap_or [] (and_then (array_at x "content") (x.get "message" frame)) in
      if-EndsAsNamed kind (kind == "system") _ _
        (goes_on kind "system" (read_system x frame) refl (read_system-dones frame))
        (λ _.
          if-EndsAsNamed kind (kind == "assistant") _ _
            (goes_on kind "assistant" (read_assistant x frame) refl
              (read_blocks-dones (text_at x "id" msg) (unwrap_or [] (array_at x "content" msg))))
            (λ _.
              if-EndsAsNamed kind (kind == "user") _ _
                (goes_on kind "user" (read_user x frame) refl (read_results-dones contents))
                (λ _.
                  if-EndsAsNamed kind (kind == "event") _ _
                    (event-EndsAsNamed kind (parse_rscode_event x frame)
                      (parse_rscode_event-turns frame))
                    (λ _.
                      if-EndsAsNamed kind (kind == "error") _ _
                        (goes_on kind "error"
                          (AgentEvent.error "agent_error"
                              (unwrap_or "agent error" (str_at x "message" frame)) false
                              (some frame)
                            ∷ [])
                          refl refl)
                        (λ _.
                          if-EndsAsNamed kind (kind == "result") _ _
                            (λ e. inr (
                              read_result-IsLastDone
                                  (starts_with (unwrap_or "success" (str_at x "subtype" frame))
                                    "error")
                                  frame,
                              inl e,
                            ))
                            (λ n.
                              if-EndsAsNamed kind (kind == "stream_event") _ _
                                (goes_on kind "stream_event" (read_stream_event x frame) refl
                                  (read_stream_event-dones frame))
                                (λ _. inl (refl, n))))))))

  -- A frame of a stream-json agent ends a turn at most once, and only with the last of its
  -- events. A frame of type "result" always ends it; of the other frames only one of type
  -- "event" may.
  pub parse_stream_frame-turns :
      (frame : x.Value) → EndsAsNamed (text_at x "type" frame) (parse_stream_frame x frame)
  unfolding parse_stream_frame
  parse_stream_frame-turns frame = read_kind-turns (text_at x "type" frame) frame
