-- ===== src/Codex/Pieces.antt =====
-- The pieces of text that a consumer of `codex exec` is sent for an item: `last_text_for` is what they
-- end with.
use text.Mathlib.TextLemmas.{append-nil}
use cap_protocol.Prelude.{
  subst, String, Bool, true, false, ◌||◌, Option, none, some, List, [], ◌∷◌, ◌++◌, ◌≡◌, refl, sym,
  inl, inr, ◌⊎◌, ◌==◌, arith, if◌then◌else◌, lookup, EndsWith,
}
use cap_protocol.Core.{
  Foreign, AgentEvent, StopReason, TextChannel, PlanEntry, no_usage, cap_protocol_version,
}
use cap_protocol.Json.{unwrap_or, and_then, str_at, array_at, text_at}
use cap_protocol.Codex.{
  text_item, on_item, item_frame, on_kind, parse_codex_frame, Memory, command_item, tool_item,
  todo_entries, plan_event, cleanup_of, parse_codex_usage,
}
use cap_protocol.Codex.Reader.{Reader, new_reader, on_frame, on_lines}
use cap_protocol.Codex.Views.{view, view-append, Kept, text_item-Kept}

-- A frame with an item whose text grows
abbrev pub IsTextType : String → Type 0
IsTextType t = (t ≡ "agent_message") ⊎ (t ≡ "reasoning")

abbrev pub IsItemKind : String → Type 0
IsItemKind kind = (kind ≡ "item.started") ⊎ ((kind ≡ "item.updated") ⊎ (kind ≡ "item.completed"))

module _ (x : Foreign) where
  -- Events that send no text or thought
  abbrev IsSilent : List (AgentEvent x) → Type 0
  IsSilent es = (id : String) → view x id es ≡ ""

  silent-Kept :
      (log es : List (AgentEvent x)) (m : List (String × String))
      → IsSilent es
      → Kept x log m
      → Kept x (log ++ es) m
  silent-Kept log es m s h id p e =
      rw (view-append x id log es) (rw (s id) (rw append-nil (h id p e)))

  command_item-IsSilent :
      (kind item_id : String) (item : x.Value) → IsSilent (command_item x kind item_id item)
  unfolding command_item
  command_item-IsSilent kind item_id item id = ground arith

  tool_item-IsSilent :
      (kind item_type item_id : String) (item : x.Value)
      → IsSilent (tool_item x kind item_type item_id item)
  unfolding tool_item
  tool_item-IsSilent kind item_type item_id item id = ground arith

  -- The log and the texts after a frame
  Goes : List (AgentEvent x) → List (AgentEvent x) × List (String × String) → Type 0
  Goes log r = Kept x (log ++ r.0) r.1

  if-Goes :
      (b : Bool) (log : List (AgentEvent x)) (r s : List (AgentEvent x) × List (String × String))
      → Goes log r
      → Goes log s
      → Goes log (if b then r else s)
  if-Goes true log r s h k = h
  if-Goes false log r s h k = k

  silent-Goes :
      (log es : List (AgentEvent x)) (m : List (String × String))
      → IsSilent es
      → Kept x log m
      → Goes log (es, m)
  unfolding Goes
  silent-Goes log es m s h = silent-Kept log es m s h

  text_item-Goes :
      (cleanup_id : Option String) (k t : String) (event : String → AgentEvent x)
      (log : List (AgentEvent x)) (m : List (String × String))
      → ((id d : String) → view x id (event d ∷ []) ≡ (if k == id then d else ""))
      → Kept x log m
      → Goes log (text_item x cleanup_id k t event m)
  unfolding Goes
  text_item-Goes cleanup_id k t event log m sends h =
      (text_item-Kept x cleanup_id k t event log m sends h).0

  plan_event-IsSilent : (es : List (PlanEntry x)) → IsSilent (plan_event x es)
  plan_event-IsSilent [] id = refl
  plan_event-IsSilent (e ∷ es) id = refl

  on_item-Goes :
      (kind item_type k : String) (item : x.Value) (log : List (AgentEvent x))
      (m : List (String × String))
      → Kept x log m
      → Goes log (on_item x kind item_type k item m)
  unfolding on_item
  on_item-Goes kind item_type k item log m h =
      let cleanup = cleanup_of x kind item_type k in
      let entries = todo_entries x 0 (unwrap_or [] (array_at x "items" item)) in
      if-Goes (item_type == "agent_message") log _ _
        (text_item-Goes cleanup k (text_at x "text" item)
          (λ d. AgentEvent.text_chunk k d TextChannel.assistant) log m
          (λ id d. append-nil (if k == id then d else "")) h)
        (if-Goes (item_type == "reasoning") log _ _
          (text_item-Goes cleanup k (text_at x "text" item) (AgentEvent.thought k) log m
            (λ id d. append-nil (if k == id then d else "")) h)
          (if-Goes (item_type == "command_execution") log _ _
            (silent-Goes log (command_item x kind k item) m (command_item-IsSilent kind k item) h)
            (if-Goes (item_type == "mcp_tool_call" || item_type == "collab_tool_call") log _ _
              (silent-Goes log (tool_item x kind item_type k item) m
                (tool_item-IsSilent kind item_type k item) h)
              (if-Goes (item_type == "todo_list") log _ _
                (silent-Goes log (plan_event x entries) m (plan_event-IsSilent entries) h)
                (if-Goes (item_type == "error") log _ _
                  (silent-Goes log
                    (AgentEvent.error "codex_item_error" (text_at x "message" item) false none ∷ [])
                    m (λ id. refl) h)
                  (silent-Goes log [] m (λ id. refl) h))))))

  item_frame-Goes :
      (kind : String) (item : Option x.Value) (log : List (AgentEvent x))
      (m : List (String × String))
      → Kept x log m
      → Goes log (item_frame x kind item m)
  unfolding item_frame
  item_frame-Goes kind none log m h = silent-Goes log [] m (λ id. refl) h
  item_frame-Goes kind (some item) log m h =
      on_item-Goes kind (text_at x "type" item) (text_at x "id" item) item log m h

  -- The same for a frame and what is read and written beside it
  FrameGoes : List (AgentEvent x) → List (AgentEvent x) × Memory x → Type 0
  FrameGoes log r = Kept x (log ++ r.0) r.1.last_text_for

  if-FrameGoes :
      (b : Bool) (log : List (AgentEvent x)) (r s : List (AgentEvent x) × Memory x)
      → FrameGoes log r
      → FrameGoes log s
      → FrameGoes log (if b then r else s)
  if-FrameGoes true log r s h k = h
  if-FrameGoes false log r s h k = k

  silent-FrameGoes :
      (log es : List (AgentEvent x)) (s : Memory x)
      → IsSilent es
      → Kept x log s.last_text_for
      → FrameGoes log (es, s)
  unfolding FrameGoes
  silent-FrameGoes log es s i h = silent-Kept log es s.last_text_for i h

  on_kind-FrameGoes :
      (kind : String) (frame : x.Value) (log : List (AgentEvent x)) (s : Memory x)
      → Kept x log s.last_text_for
      → FrameGoes log (on_kind x kind frame s)
  unfolding on_kind FrameGoes Goes
  on_kind-FrameGoes kind frame log s h =
      let m = s.last_text_for in
      let tid = text_at x "thread_id" frame in
      let usage = parse_codex_usage x (x.get "usage" frame) in
      let message = unwrap_or "unknown" (and_then (str_at x "message") (x.get "error" frame)) in
      if-FrameGoes (kind == "thread.started") log _ _
        (silent-Kept log (AgentEvent.ready (some tid) cap_protocol_version none ∷ []) m (λ id. refl)
          h)
        (if-FrameGoes (kind == "turn.started") log _ _ (silent-Kept log [] m (λ id. refl) h) (
          if-FrameGoes (kind == "turn.completed") log _ _
            (silent-Kept log (AgentEvent.done StopReason.end_turn usage ∷ []) m (λ id. refl) h)
            (if-FrameGoes (kind == "turn.failed") log _ _
              (silent-Kept log
                (AgentEvent.error "codex_turn_failed" message false none
                  ∷ AgentEvent.done StopReason.error (no_usage x)
                  ∷ [])
                m (λ id. refl) h)
              (if-FrameGoes (kind == "error") log _ _
                (silent-Kept log
                  (AgentEvent.error "codex_error" (text_at x "message" frame) false none ∷ []) m
                  (λ id. refl) h)
                (if-FrameGoes
                  (kind == "item.started" || kind == "item.updated" || kind == "item.completed") log
                  _ _ (item_frame-Goes kind (x.get "item" frame) log m h)
                  (silent-Kept log [] m (λ id. refl) h))))))

  -- What the reader remembers agrees with what it sent.
  Holds : Reader x → Type 0
  Holds r = Kept x r.log r.memory.last_text_for

  on_frame-Holds : (frame : Option x.Value) (r : Reader x) → Holds r → Holds (on_frame x frame r)
  unfolding on_frame parse_codex_frame Holds FrameGoes
  on_frame-Holds none r h = h
  on_frame-Holds (some frame) r h =
      on_kind-FrameGoes (text_at x "type" frame) frame r.log r.memory h

  on_lines-Holds : (lines : List String) (r : Reader x) → Holds r → Holds (on_lines x lines r)
  unfolding on_lines
  on_lines-Holds [] r h = h
  on_lines-Holds (line ∷ lines) r h =
      on_lines-Holds lines (on_frame x (x.from_str line) r) (on_frame-Holds (x.from_str line) r h)

  new_reader-Holds : Holds (new_reader x)
  unfolding Holds lookup
  new_reader-Holds id p e = absurd (ground (arith, e))

  on_item-EndsWith :
      (kind item_type k : String) (item : x.Value) (log : List (AgentEvent x))
      (m : List (String × String))
      → IsTextType item_type
      → Kept x log m
      → EndsWith (view x k (log ++ (on_item x kind item_type k item m).0)) (text_at x "text" item)
  unfolding on_item
  on_item-EndsWith kind item_type k item log m (inl e) h =
      subst
        (λ t. EndsWith (view x k (log ++ (on_item x kind t k item m).0)) (text_at x "text" item))
        (sym e)
        (text_item-Kept x (cleanup_of x kind "agent_message" k) k (text_at x "text" item)
          (λ d. AgentEvent.text_chunk k d TextChannel.assistant) log m
          (λ id d. append-nil (if k == id then d else "")) h).1
  on_item-EndsWith kind item_type k item log m (inr e) h =
      subst
        (λ t. EndsWith (view x k (log ++ (on_item x kind t k item m).0)) (text_at x "text" item))
        (sym e)
        (text_item-Kept x (cleanup_of x kind "reasoning" k) k (text_at x "text" item)
          (AgentEvent.thought k) log m (λ id d. append-nil (if k == id then d else "")) h).1

  -- The frames of items are those that `item_frame` handles.
  on_kind-item :
      (kind : String) (frame : x.Value) (s : Memory x)
      → IsItemKind kind
      → (on_kind x kind frame s).0 ≡ (item_frame x kind (x.get "item" frame) s.last_text_for).0
  unfolding on_kind
  on_kind-item kind frame s (inl e) = rw e
  on_kind-item kind frame s (inr (inl e)) = rw e
  on_kind-item kind frame s (inr (inr e)) = rw e

  -- Whatever lines the agent wrote before: after a frame that starts, updates or completes a message or a
  -- reasoning item, what the consumer was sent for this item, joined, ends with the item's text.
  pub on_lines-EndsWith :
      (lines : List String) (frame item : x.Value)
      → IsItemKind (text_at x "type" frame)
      → x.get "item" frame ≡ some item
      → IsTextType (text_at x "type" item)
      → EndsWith
          (view x
            (text_at x "id" item)
            (on_frame x (some frame) (on_lines x lines (new_reader x))).log)
          (text_at x "text" item)
  unfolding on_frame parse_codex_frame item_frame Holds
  on_lines-EndsWith lines frame item k e t =
      let r = on_lines x lines (new_reader x) in
      rw (on_kind-item (text_at x "type" frame) frame r.memory k) (
        rw e (
          on_item-EndsWith (text_at x "type" frame) (text_at x "type" item) (text_at x "id" item)
            item r.log r.memory.last_text_for t
            (on_lines-Holds lines (new_reader x) new_reader-Holds)))
