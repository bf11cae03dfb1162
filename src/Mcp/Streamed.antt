-- ===== src/Mcp/Streamed.antt =====
-- The flag `streamed_this_turn` of codex_mcp.rs, and the answer of a turn.
use cap_protocol.Prelude.{
  ℕ, String, Bool, true, false, not, ◌&&◌, ◌||◌, Option, none, some, List, [], ◌∷◌, ◌++◌, ◌≡◌, ◌∙◌,
  refl, inl, inr, ◌==◌, arith, if_both, Option-cases, if◌then◌else◌,
}
use cap_protocol.Core.{Foreign, AgentEvent, StopReason, TextChannel, no_usage}
use cap_protocol.Json.{is_some, str_at, u64_at, value_at, text_at}
use cap_protocol.Rpc.{has_id}
use cap_protocol.Mcp.{
  ReaderCtx, turn_response, handle_response, content_event, session_configured, reasoning_delta,
  message_delta, item_started, item_completed, token_count, codex_event_kind, handle_codex_event,
  process_frame, on_line, on_lines, new_ctx,
}

module _ (x : Foreign) where
  -- Whether a text was forwarded since the last `Done`, given whether one was before
  abbrev pub streaming : Bool → List (AgentEvent x) → Bool
  streaming b [] = b
  streaming b (AgentEvent.text_chunk msg_id text channel ∷ es) = streaming true es
  streaming b (AgentEvent.done stop usage ∷ es) = streaming false es
  streaming b (_ ∷ es) = streaming b es

  streaming-append :
      (b : Bool) (es fs : List (AgentEvent x))
      → streaming b (es ++ fs) ≡ streaming (streaming b es) fs
  streaming-append b [] fs = refl
  streaming-append b (AgentEvent.text_chunk msg_id text channel ∷ es) fs =
      streaming-append true es fs
  streaming-append b (AgentEvent.done stop usage ∷ es) fs = streaming-append false es fs
  streaming-append b (_ ∷ es) fs = streaming-append b es fs

  -- The flag is what was forwarded, and no handshake waits.
  abbrev pub IsTold : Bool → ReaderCtx x → Type 0
  IsTold b c = (b ≡ c.streamed_this_turn) × (c.pending ≡ [])

  Goes : Bool → List (AgentEvent x) × ReaderCtx x → Type 0
  Goes b (es, c) = IsTold (streaming b es) c

  content_event-Goes :
      (b streamed : Bool) (res : x.Value)
      → streaming b (
          content_event x streamed res
          ++ AgentEvent.done StopReason.end_turn
              (record (no_usage x) { stop_reason = some StopReason.end_turn })
            ∷ [])
        ≡ false
  unfolding content_event
  content_event-Goes b true res = refl
  content_event-Goes b false res = ground arith

  turn_response-Goes :
      (frame : x.Value) (b : Bool) (c : ReaderCtx x) → IsTold b c → Goes b (turn_response x frame c)
  unfolding Goes turn_response
  turn_response-Goes frame b c h =
      ground (arith, content_event-Goes b c.streamed_this_turn (value_at x "result" frame))

  no_id : (id : ℕ) (ids : List ℕ) → ids ≡ [] → has_id id ids ≡ false
  unfolding has_id
  no_id id ids e = rw e

  -- With no handshake waiting, a response is that of a turn.
  handle_response-turn :
      (frame : x.Value) (c : ReaderCtx x)
      → c.pending ≡ []
      → handle_response x frame c ≡ turn_response x frame c
  unfolding handle_response has_id
  handle_response-turn frame c e = elim (Option-cases (u64_at x "id" frame)) [
    | inl f ↦ rw (f, handle_response) refl
    | inr (id, f) ↦ rw (f, handle_response) (ground (arith, no_id id c.pending e))
  ]

  session_configured-Goes :
      (tid : Option String) (b : Bool) (c : ReaderCtx x)
      → IsTold b c
      → Goes b (session_configured x tid c)
  unfolding Goes session_configured
  session_configured-Goes none b c h = h
  session_configured-Goes (some tid) b c h = ground arith

  reasoning_delta-Goes : (msg : x.Value) (b : Bool) → streaming b (reasoning_delta x msg) ≡ b
  unfolding reasoning_delta
  reasoning_delta-Goes msg b = ground arith

  item_started-Goes : (item : x.Value) (b : Bool) → streaming b (item_started x item) ≡ b
  unfolding item_started
  item_started-Goes item b = ground arith

  item_completed-Goes : (item : x.Value) (b : Bool) → streaming b (item_completed x item) ≡ b
  unfolding item_completed
  item_completed-Goes item b = ground arith

  token_count-Goes : (msg : x.Value) (b : Bool) → streaming b (token_count x msg) ≡ b
  unfolding token_count
  token_count-Goes msg b = ground arith

  message_delta-Goes :
      (msg : x.Value) (b : Bool) (c : ReaderCtx x) → IsTold b c → Goes b (message_delta x msg c)
  unfolding Goes message_delta
  message_delta-Goes msg b c h = ground arith

  events-Goes :
      (b : Bool) (c : ReaderCtx x) (es : List (AgentEvent x))
      → streaming b es ≡ b
      → IsTold b c
      → Goes b (es, c)
  unfolding Goes
  events-Goes b c es e (h, k) = (e ∙ h, k)

  codex_event_kind-Goes :
      (kind : String) (msg : x.Value) (b : Bool) (c : ReaderCtx x)
      → IsTold b c
      → Goes b (codex_event_kind x kind msg c)
  unfolding codex_event_kind
  codex_event_kind-Goes kind msg b c h =
      let item = value_at x "item" msg in
      if_both (Goes b) (kind == "session_configured") _ _
        (session_configured-Goes (str_at x "thread_id" msg) b c h)
        (if_both (Goes b)
          (kind == "agent_reasoning_delta" || kind == "agent_reasoning_content_delta") _ _
          (events-Goes b c (reasoning_delta x msg) (reasoning_delta-Goes msg b) h)
          (if_both (Goes b) (kind == "agent_message_content_delta") _ _
            (message_delta-Goes msg b c h)
            (if_both (Goes b) (kind == "item_started") _ _
              (events-Goes b c (item_started x item) (item_started-Goes item b) h)
              (if_both (Goes b) (kind == "item_completed") _ _
                (events-Goes b c (item_completed x item) (item_completed-Goes item b) h)
                (if_both (Goes b) (kind == "token_count") _ _
                  (events-Goes b c (token_count x msg) (token_count-Goes msg b) h)
                  (events-Goes b c [] refl h))))))

  process_frame-Goes :
      (frame : x.Value) (b : Bool) (c : ReaderCtx x) → IsTold b c → Goes b (process_frame x frame c)
  unfolding process_frame handle_codex_event
  process_frame-Goes frame b c h =
      let msg = value_at x "msg" (value_at x "params" frame) in
      if_both (Goes b) (is_some (x.get "id" frame) && not (is_some (x.get "method" frame))) _ _
        (rw (handle_response-turn frame c h.1) (turn_response-Goes frame b c h))
        (if_both (Goes b) (is_some (x.get "id" frame)) _ _ (events-Goes b c [] refl h) (
          if_both (Goes b) (text_at x "method" frame == "codex/event") _ _
            (codex_event_kind-Goes (text_at x "type" msg) msg b c h) (events-Goes b c [] refl h)))

  on_line-IsTold :
      (frame : Option x.Value) (c : ReaderCtx x)
      → IsTold (streaming false c.log) c
      → IsTold (streaming false (on_line x frame c).log) (on_line x frame c)
  unfolding on_line Goes
  on_line-IsTold none c h = h
  on_line-IsTold (some frame) c h =
      rw (streaming-append false c.log (process_frame x frame c).0)
        (process_frame-Goes frame (streaming false c.log) c h)

  on_lines-IsTold :
      (lines : List String) (c : ReaderCtx x)
      → IsTold (streaming false c.log) c
      → IsTold (streaming false (on_lines x lines c).log) (on_lines x lines c)
  unfolding on_lines
  on_lines-IsTold [] c h = h
  on_lines-IsTold (line ∷ lines) c h =
      on_lines-IsTold lines (on_line x (x.from_str line) c) (on_line-IsTold (x.from_str line) c h)

  -- The text that an answer carries, as an event, if it carries one
  abbrev pub answer_text : x.Value → List (AgentEvent x)
  answer_text frame =
      let content = value_at x "structuredContent" (value_at x "result" frame) in
      elim (str_at x "content" content) [
        | none ↦ []
        | some text ↦
            AgentEvent.text_chunk (text_at x "threadId" content) text TextChannel.assistant ∷ []
      ]

  content_event-answer_text :
      (streamed : Bool) (frame : x.Value)
      → content_event x streamed (value_at x "result" frame)
        ≡ (if streamed then [] else answer_text frame)
  unfolding content_event
  content_event-answer_text true frame = refl
  content_event-answer_text false frame = refl

  -- Whatever codex wrote since the handshake: its answer to a prompt, a response without an error, makes a
  -- `Done`, and before it the text that the answer carries, if any, exactly when no text was forwarded since the
  -- last `Done`.
  pub process_frame-answer :
      (lines : List String) (model : Option String) (frame : x.Value)
      → is_some (x.get "id" frame) ≡ true
      → x.get "method" frame ≡ none
      → x.get "error" frame ≡ none
      → (process_frame x frame (on_lines x lines (new_ctx x model))).0
        ≡ (if streaming false (on_lines x lines (new_ctx x model)).log
            then []
            else answer_text frame)
          ++ AgentEvent.done StopReason.end_turn
              (record (no_usage x) { stop_reason = some StopReason.end_turn })
            ∷ []
  unfolding process_frame turn_response
  process_frame-answer lines model frame i m e =
      let c = on_lines x lines (new_ctx x model) in
      let h = on_lines-IsTold lines (new_ctx x model) (refl, refl) in
      rw (i, m)
        (rw (handle_response-turn frame c h.1) (
          rw (e, turn_response)
            (rw (h.0, content_event-answer_text c.streamed_this_turn frame) refl)))
