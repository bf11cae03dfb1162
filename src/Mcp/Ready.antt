-- ===== src/Mcp/Ready.antt =====
-- `AgentEvent::Ready` of codex_mcp.rs.
use cap_protocol.Prelude.{
  String, Bool, true, false, not, ◌&&◌, ◌||◌, Option, none, some, List, [], ◌∷◌, ◌++◌, ◌≡◌, ◌∙◌,
  refl, ap, ◌==◌, arith, if_both, if◌then◌else◌, subst, sym,
}
use mathlib.Core.List.{append_assoc, append-nil}
use cap_protocol.Core.{Foreign, AgentEvent}
use cap_protocol.Json.{is_some, str_at, value_at, text_at}
use cap_protocol.Mcp.{
  ReaderCtx, turn_response, handle_response, content_event, session_configured, reasoning_delta,
  message_delta, item_started, item_completed, token_count, codex_event_kind, handle_codex_event,
  process_frame, forward, on_line, on_lines, new_ctx,
}

module _ (x : Foreign) where
  -- The session ids that the consumer was told
  abbrev pub ready_ids : List (AgentEvent x) → List (Option String)
  ready_ids [] = []
  ready_ids (AgentEvent.ready session_id version model ∷ es) = session_id ∷ ready_ids es
  ready_ids (_ ∷ es) = ready_ids es

  ready_ids-append :
      (es fs : List (AgentEvent x)) → ready_ids (es ++ fs) ≡ ready_ids es ++ ready_ids fs
  ready_ids-append [] fs = refl
  ready_ids-append (AgentEvent.ready session_id version model ∷ es) fs =
      ap (λ ids. session_id ∷ ids) (ready_ids-append es fs)
  ready_ids-append (_ ∷ es) fs = ready_ids-append es fs

  -- The thread id that a line of codex names: that of a notification `session_configured`
  abbrev pub listed : Option String → List String
  listed none = []
  listed (some tid) = tid ∷ []

  abbrev pub named_by : x.Value → List String
  named_by frame =
      let msg = value_at x "msg" (value_at x "params" frame) in
      if is_some (x.get "id" frame)
      then []
      else if text_at x "method" frame == "codex/event"
      then (if text_at x "type" msg == "session_configured"
          then listed (str_at x "thread_id" msg)
          else [])
      else []

  abbrev pub named_if : Option x.Value → List String
  named_if none = []
  named_if (some frame) = named_by frame

  abbrev pub named : List String → List String
  named [] = []
  named (line ∷ lines) = named_if (x.from_str line) ++ named lines

  -- Without a name nothing was told and nothing is known; else the first name was told once.
  abbrev pub IsReady : List String → List (Option String) → ReaderCtx x → Type 0
  IsReady [] ids c = (ids ≡ []) × (c.thread_id ≡ none) × (c.ready_emitted ≡ false)
  IsReady (tid ∷ later) ids c =
      (ids ≡ some tid ∷ []) × (c.thread_id ≡ some tid) × (c.ready_emitted ≡ true)

  -- The state after an answer, given the names until then
  Goes : List String → List (Option String) → List (AgentEvent x) × ReaderCtx x → Type 0
  Goes names ids (es, c) = IsReady names (ids ++ ready_ids es) c

  -- An answer that tells no id and keeps what is known
  Keeps : ReaderCtx x → List (AgentEvent x) × ReaderCtx x → Type 0
  Keeps c (es, d) =
      (ready_ids es ≡ []) × (d.thread_id ≡ c.thread_id) × (d.ready_emitted ≡ c.ready_emitted)

  Keeps-Goes :
      (names : List String) (ids : List (Option String)) (c : ReaderCtx x)
      (r : List (AgentEvent x) × ReaderCtx x)
      → Keeps c r
      → IsReady names ids c
      → Goes names ids r
  unfolding Keeps Goes
  Keeps-Goes [] ids c (es, d) (e, f, g) (h, i, j) = (rw (h, e) refl, f ∙ i, g ∙ j)
  Keeps-Goes (tid ∷ later) ids c (es, d) (e, f, g) (h, i, j) = (rw (h, e) refl, f ∙ i, g ∙ j)

  turn_response-Keeps : (frame : x.Value) (c : ReaderCtx x) → Keeps c (turn_response x frame c)
  unfolding Keeps turn_response content_event
  turn_response-Keeps frame c = ground arith

  handle_response-Keeps : (frame : x.Value) (c : ReaderCtx x) → Keeps c (handle_response x frame c)
  unfolding Keeps handle_response
  handle_response-Keeps frame c = ground (arith, turn_response-Keeps frame c)

  nothing-Goes :
      (names : List String) (ids : List (Option String)) (r : List (AgentEvent x) × ReaderCtx x)
      → Goes names ids r
      → Goes (names ++ []) ids r
  nothing-Goes names ids r h = subst (λ ns. Goes ns ids r) (sym (append-nil names)) h

  session_configured-Goes :
      (tid : Option String) (names : List String) (ids : List (Option String)) (c : ReaderCtx x)
      → IsReady names ids c
      → Goes (names ++ listed tid) ids (session_configured x tid c)
  unfolding Goes Keeps session_configured
  session_configured-Goes none names ids c h =
      nothing-Goes names ids ([], c) (Keeps-Goes names ids c ([], c) (refl, refl, refl) h)
  session_configured-Goes (some tid) [] ids c (h, i, j) = (ground arith, ground arith, ground arith)
  session_configured-Goes (some tid) (old ∷ later) ids c (h, i, j) =
      (ground arith, ground arith, ground arith)

  reasoning_delta-no_ids : (msg : x.Value) → ready_ids (reasoning_delta x msg) ≡ []
  unfolding reasoning_delta
  reasoning_delta-no_ids msg = ground arith

  item_started-no_ids : (item : x.Value) → ready_ids (item_started x item) ≡ []
  unfolding item_started
  item_started-no_ids item = ground arith

  item_completed-no_ids : (item : x.Value) → ready_ids (item_completed x item) ≡ []
  unfolding item_completed
  item_completed-no_ids item = ground arith

  token_count-no_ids : (msg : x.Value) → ready_ids (token_count x msg) ≡ []
  unfolding token_count
  token_count-no_ids msg = ground arith

  message_delta-Keeps : (msg : x.Value) (c : ReaderCtx x) → Keeps c (message_delta x msg c)
  unfolding Keeps message_delta
  message_delta-Keeps msg c = ground arith

  events-Goes :
      (names : List String) (ids : List (Option String)) (c : ReaderCtx x)
      (es : List (AgentEvent x))
      → ready_ids es ≡ []
      → IsReady names ids c
      → Goes names ids (es, c)
  unfolding Keeps
  events-Goes names ids c es e h = Keeps-Goes names ids c (es, c) (e, refl, refl) h

  -- A test that decides between an answer that names something and another
  if-Goes :
      (b : Bool) (names new : List String) (ids : List (Option String))
      (r s : List (AgentEvent x) × ReaderCtx x)
      → Goes (names ++ new) ids r
      → Goes names ids s
      → Goes (names ++ (if b then new else [])) ids (if b then r else s)
  if-Goes true names new ids r s h k = h
  if-Goes false names new ids r s h k = nothing-Goes names ids s k

  codex_event_kind-Goes :
      (kind : String) (msg : x.Value) (names : List String) (ids : List (Option String))
      (c : ReaderCtx x)
      → IsReady names ids c
      → Goes
          (names
            ++ (if kind == "session_configured" then listed (str_at x "thread_id" msg) else []))
          ids
          (codex_event_kind x kind msg c)
  unfolding codex_event_kind
  codex_event_kind-Goes kind msg names ids c h =
      let item = value_at x "item" msg in
      if-Goes (kind == "session_configured") names (listed (str_at x "thread_id" msg)) ids _ _
        (session_configured-Goes (str_at x "thread_id" msg) names ids c h)
        (if_both (Goes names ids)
          (kind == "agent_reasoning_delta" || kind == "agent_reasoning_content_delta") _ _
          (events-Goes names ids c (reasoning_delta x msg) (reasoning_delta-no_ids msg) h)
          (if_both (Goes names ids) (kind == "agent_message_content_delta") _ _
            (Keeps-Goes names ids c (message_delta x msg c) (message_delta-Keeps msg c) h)
            (if_both (Goes names ids) (kind == "item_started") _ _
              (events-Goes names ids c (item_started x item) (item_started-no_ids item) h)
              (if_both (Goes names ids) (kind == "item_completed") _ _
                (events-Goes names ids c (item_completed x item) (item_completed-no_ids item) h)
                (if_both (Goes names ids) (kind == "token_count") _ _
                  (events-Goes names ids c (token_count x msg) (token_count-no_ids msg) h)
                  (events-Goes names ids c [] refl h))))))

  -- The kinds of a frame: a response, a request of codex, a notification of an event, another
  frame-Goes :
      (has_id response event : Bool) (names new : List String) (ids : List (Option String))
      (r s n : List (AgentEvent x) × ReaderCtx x)
      → Goes names ids r
      → Goes (names ++ new) ids s
      → Goes names ids n
      → Goes
          (names ++ (if has_id then [] else if event then new else []))
          ids
          (if has_id && response then r else if has_id then n else if event then s else n)
  frame-Goes true true event names new ids r s n h k l = nothing-Goes names ids r h
  frame-Goes true false event names new ids r s n h k l = nothing-Goes names ids n l
  frame-Goes false response true names new ids r s n h k l = k
  frame-Goes false response false names new ids r s n h k l = nothing-Goes names ids n l

  process_frame-Goes :
      (frame : x.Value) (names : List String) (ids : List (Option String)) (c : ReaderCtx x)
      → IsReady names ids c
      → Goes (names ++ named_by frame) ids (process_frame x frame c)
  unfolding process_frame handle_codex_event
  process_frame-Goes frame names ids c h =
      let msg = value_at x "msg" (value_at x "params" frame) in
      frame-Goes (is_some (x.get "id" frame)) (not (is_some (x.get "method" frame)))
        (text_at x "method" frame == "codex/event") names _ ids (handle_response x frame c)
        (codex_event_kind x (text_at x "type" msg) msg c) ([], c)
        (Keeps-Goes names ids c (handle_response x frame c) (handle_response-Keeps frame c) h)
        (codex_event_kind-Goes (text_at x "type" msg) msg names ids c h)
        (events-Goes names ids c [] refl h)

  -- Forwarding the events changes nothing but the log.
  log-IsReady :
      (names : List String) (ids : List (Option String)) (log : List (AgentEvent x))
      (r : List (AgentEvent x) × ReaderCtx x)
      → Goes names ids r
      → IsReady names (ids ++ ready_ids r.0) (forward x log r)
  unfolding Goes
  log-IsReady [] ids log r h = h
  log-IsReady (tid ∷ later) ids log r h = h

  on_line-IsReady :
      (frame : Option x.Value) (names : List String) (c : ReaderCtx x)
      → IsReady names (ready_ids c.log) c
      → IsReady (names ++ named_if frame) (ready_ids (on_line x frame c).log) (on_line x frame c)
  unfolding on_line Goes
  on_line-IsReady none names c h =
      subst (λ ns. IsReady ns (ready_ids c.log) c) (sym (append-nil names)) h
  on_line-IsReady (some frame) names c h = rw (ready_ids-append c.log (process_frame x frame c).0) (
      log-IsReady (names ++ named_by frame) (ready_ids c.log) c.log (process_frame x frame c)
        (process_frame-Goes frame names (ready_ids c.log) c h))

  on_lines-append :
      (lines names : List String) (c : ReaderCtx x)
      → IsReady names (ready_ids c.log) c
      → IsReady (names ++ named lines) (ready_ids (on_lines x lines c).log) (on_lines x lines c)
  unfolding on_lines
  on_lines-append [] names c h =
      subst (λ ns. IsReady ns (ready_ids c.log) c) (sym (append-nil names)) h
  on_lines-append (line ∷ lines) names c h =
      let next = on_line x (x.from_str line) c in
      let rest = on_lines x lines next in
      subst (λ ns. IsReady ns (ready_ids rest.log) rest)
        (append_assoc names (named_if (x.from_str line)) (named lines))
        (on_lines-append lines (names ++ named_if (x.from_str line)) next
          (on_line-IsReady (x.from_str line) names c h))

  -- Whatever codex writes: before it names a thread id in a notification `session_configured`, the consumer is
  -- told no session id and the driver has no thread id; from then on the consumer was told a session id
  -- exactly once, that of the first thread id that codex named, and this is the driver's thread id.
  pub on_lines-IsReady :
      (lines : List String) (model : Option String)
      → IsReady
          (named lines)
          (ready_ids (on_lines x lines (new_ctx x model)).log)
          (on_lines x lines (new_ctx x model))
  on_lines-IsReady lines model = on_lines-append lines [] (new_ctx x model) (refl, refl, refl)
