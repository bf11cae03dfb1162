-- ===== src/Codex/Release.antt =====
-- When `parse_codex_frame` forgets the text of an item.
use Prim.Native.String.{◌++◌ as append, ◌∷◌ as char_then, [] as nothing}
use text.Mathlib.TextLemmas.{append-nil}
use cap_protocol.Prelude.{
  String, Option, some, none, List, [], ◌∷◌, ◌≡◌, ◌≢◌, ◌⊎◌, ◌∙◌, ap, refl, ◌==◌, arith, inl, inr,
  eq_iff, eq_refl, lookup, put, lookup-put, Bool-cases, Option-cases, strip_prefix,
  strip_prefix-some,
}
use cap_protocol.Core.{Foreign, AgentEvent, TextChannel}
use cap_protocol.Json.{unwrap_or, text_at}
use cap_protocol.Codex.{
  delta_of, text_item, on_item, item_frame, on_kind, parse_codex_frame, Memory,
}
use cap_protocol.Codex.Views.{lookup-remove}
use cap_protocol.Codex.Pieces.{IsTextType}

strip_prefix-same : (s : String) → strip_prefix s s ≡ some ""
unfolding strip_prefix
strip_prefix-same nothing = refl
strip_prefix-same (char_then c s) = ground (arith, strip_prefix-same s)

delta_of-nothing : (prev : String) → delta_of prev "" ≡ ""
unfolding delta_of strip_prefix
delta_of-nothing nothing = refl
delta_of-nothing (char_then c s) = refl

-- An item brings nothing new when its text is the remembered one, or is empty.
IsOld : String → String → Type 0
IsOld prev t = (t ≡ prev) ⊎ (t ≡ "")

delta_of-IsOld : (prev t : String) → delta_of prev t ≡ "" → IsOld prev t
unfolding IsOld delta_of
delta_of-IsOld prev t e = elim (Option-cases (strip_prefix t prev)) [
  | inl f ↦ inr (rw f at e)
  | inr (d, f) ↦
      let g : d ≡ "" = rw f at e in
      inl (strip_prefix-some t prev d f ∙ ap (append prev) g ∙ append-nil prev)
]

IsOld-delta_of : (prev t : String) → IsOld prev t → delta_of prev t ≡ ""
unfolding IsOld delta_of
IsOld-delta_of prev t (inl e) = rw (e, strip_prefix-same prev) refl
IsOld-delta_of prev t (inr e) = rw e (delta_of-nothing prev)

module _ (x : Foreign) where
  -- What a completed item does, given its text, the text remembered for it, the events sent, and what is
  -- remembered for it afterwards.
  abbrev pub IsReleased :
      (prev t : String) (es : List (AgentEvent x)) (left : Option String) → Type 0
  IsReleased prev t es left =
      (((t ≡ prev) ⊎ (t ≡ "")) × (es ≡ []) × (left ≡ some t))
      ⊎ ((t ≢ prev) × (t ≢ "") × ((e : AgentEvent x) × (es ≡ e ∷ [])) × (left ≡ none))

  text_item-IsReleased :
      (k t : String) (event : String → AgentEvent x) (m : List (String × String))
      → IsReleased
          (unwrap_or "" (lookup k m))
          t
          (text_item x (some k) k t event m).0
          (lookup k (text_item x (some k) k t event m).1)
  unfolding text_item IsOld
  text_item-IsReleased k t event m =
      let prev = unwrap_or "" (lookup k m) in
      let delta = delta_of prev t in
      elim (Bool-cases (delta == "")) [
        | inl same ↦ inl (
          delta_of-IsOld prev t ((eq_iff delta "").0 same),
          rw same refl,
          rw same (ground (arith, lookup-put k k t m, eq_refl k)),
        )
        | inr new ↦
            let fresh : delta ≢ "" = λ e. absurd (ground (arith, rw e at new)) in
            inr (
              λ e. fresh (IsOld-delta_of prev t (inl e)),
              λ e. fresh (IsOld-delta_of prev t (inr e)),
              (event delta, rw new refl),
              rw new (ground (arith, lookup-remove k k (put k t m), eq_refl k)),
            )
      ]

  on_item-IsReleased :
      (item_type k : String) (item : x.Value) (m : List (String × String))
      → IsTextType item_type
      → IsReleased
          (unwrap_or "" (lookup k m))
          (text_at x "text" item)
          (on_item x "item.completed" item_type k item m).0
          (lookup k (on_item x "item.completed" item_type k item m).1)
  unfolding on_item
  on_item-IsReleased item_type k item m (inl e) = rw e (
      text_item-IsReleased k (text_at x "text" item)
        (λ d. AgentEvent.text_chunk k d TextChannel.assistant) m)
  on_item-IsReleased item_type k item m (inr e) =
      rw e (text_item-IsReleased k (text_at x "text" item) (AgentEvent.thought k) m)

  -- A frame that completes a message or a reasoning item: if the item's text is the text that was remembered
  -- for it, or is empty, nothing is sent and the text stays remembered; otherwise one event is sent and
  -- the text is forgotten.
  pub parse_codex_frame-IsReleased :
      (frame item : x.Value) (s : Memory x)
      → text_at x "type" frame ≡ "item.completed"
      → x.get "item" frame ≡ some item
      → IsTextType (text_at x "type" item)
      → IsReleased
          (unwrap_or "" (lookup (text_at x "id" item) s.last_text_for))
          (text_at x "text" item)
          (parse_codex_frame x frame s).0
          (lookup (text_at x "id" item) (parse_codex_frame x frame s).1.last_text_for)
  unfolding parse_codex_frame on_kind item_frame
  parse_codex_frame-IsReleased frame item s k e t = rw k (
      rw e
        (on_item-IsReleased (text_at x "type" item) (text_at x "id" item) item s.last_text_for t))
