-- ===== src/Codex/Views.antt =====
-- What a consumer of `codex exec` was sent for an item, next to the text that is remembered for it.
use Prim.Native.String.{◌++◌ as append}
use text.Mathlib.TextLemmas.{append_assoc, append-nil, nil-append}
use cap_protocol.Prelude.{
  subst, String, Bool, true, false, Option, none, some, List, [], ◌∷◌, ◌++◌, ◌≡◌, ◌∙◌, refl, sym,
  ap, inl, inr, ◌==◌, arith, eq_iff, eq_refl, if◌then◌else◌, Bool-cases, strip_prefix,
  strip_prefix-some, Option-cases, lookup, put, lookup-put, EndsWith,
}
use cap_protocol.Core.{Foreign, AgentEvent}
use cap_protocol.Json.{unwrap_or}
use cap_protocol.Codex.{delta_of, remove, text_item}

EndsWith-delta_of :
    (v prev text : String) → EndsWith v prev → EndsWith (append v (delta_of prev text)) text
unfolding delta_of
EndsWith-delta_of v prev text (b, e) = elim (Option-cases (strip_prefix text prev)) [
  | inl none_left ↦ rw none_left (v, refl)
  | inr (d, f) ↦ rw f (
    b,
    ap (λ t. append t d) e
        ∙ append_assoc b prev d
        ∙ ap (append b) (sym (strip_prefix-some text prev d f)),
  )
]

if-nothing : (b : Bool) (t : String) → t ≡ "" → "" ≡ (if b then t else "")
if-nothing true t e = sym e
if-nothing false t e = refl

pub lookup-remove :
    (k j : String) (m : List (String × String))
    → lookup j (remove k m) ≡ (if k == j then none else lookup j m)
unfolding lookup remove
lookup-remove k j [] = ground arith
lookup-remove k j ((i, w) ∷ m) =
    ground (arith, lookup-remove k j m, eq_iff i k, eq_iff i j, eq_iff k j)

module _ (x : Foreign) where
  -- What was sent for an item: its texts or thoughts, joined
  abbrev pub view : String → List (AgentEvent x) → String
  view id [] = ""
  view id (AgentEvent.text_chunk msg_id text channel ∷ es) =
      append (if msg_id == id then text else "") (view id es)
  view id (AgentEvent.thought msg_id text ∷ es) =
      append (if msg_id == id then text else "") (view id es)
  view id (_ ∷ es) = view id es

  pub view-append :
      (id : String) (es fs : List (AgentEvent x))
      → view id (es ++ fs) ≡ append (view id es) (view id fs)
  view-append id [] fs = sym (nil-append (view id fs))
  view-append id (AgentEvent.text_chunk msg_id text channel ∷ es) fs =
      ap (append (if msg_id == id then text else "")) (view-append id es fs)
      ∙ sym (append_assoc (if msg_id == id then text else "") (view id es) (view id fs))
  view-append id (AgentEvent.thought msg_id text ∷ es) fs =
      ap (append (if msg_id == id then text else "")) (view-append id es fs)
      ∙ sym (append_assoc (if msg_id == id then text else "") (view id es) (view id fs))
  view-append id (_ ∷ es) fs = view-append id es fs

  -- For each item whose text is remembered, what was sent ends with that text.
  abbrev pub Kept : List (AgentEvent x) → List (String × String) → Type 0
  Kept log m = (id p : String) → lookup id m ≡ some p → EndsWith (view id log) p

  remove-Kept :
      (k : String) (log : List (AgentEvent x)) (m : List (String × String))
      → Kept log m
      → Kept log (remove k m)
  remove-Kept k log m h id p e = h id p (ground (arith, lookup-remove k id m))

  -- A piece of the item `k`, which makes its text `t`
  Extended : (k delta : String) (log log' : List (AgentEvent x)) → Type 0
  Extended k delta log log' =
      (id : String) → view id log' ≡ append (view id log) (if k == id then delta else "")

  put-Kept :
      (k t delta : String) (log log' : List (AgentEvent x)) (m : List (String × String))
      → Extended k delta log log'
      → EndsWith (append (view k log) delta) t
      → Kept log m
      → Kept log' (put k t m)
  unfolding Extended
  put-Kept k t delta log log' m g ends h id p e = elim (Bool-cases (k == id)) [
    | inl same ↦
        let f : k ≡ id = (eq_iff k id).0 same in
        let q : t ≡ p = ground (arith, lookup-put k id t m) in
        rw (g id) (
          rw same (
            subst (λ i. EndsWith (append (view i log) delta) p) f
              (subst (EndsWith (append (view k log) delta)) q ends)))
    | inr other ↦
        let q : lookup id m ≡ some p = ground (arith, lookup-put k id t m) in
        rw (g id) (rw other (rw append-nil (h id p q)))
  ]

  -- What was sent before for an item
  prior :
      (k : String) (log : List (AgentEvent x)) (m : List (String × String))
      → Kept log m
      → EndsWith (view k log) (unwrap_or "" (lookup k m))
  prior k log m h = elim (Option-cases (lookup k m)) [
    | inl e ↦ rw e (view k log, sym (append-nil (view k log)))
    | inr (p, e) ↦ rw e (h k p e)
  ]

  Extended-EndsWith :
      (k t delta : String) (log log' : List (AgentEvent x))
      → Extended k delta log log'
      → EndsWith (append (view k log) delta) t
      → EndsWith (view k log') t
  unfolding Extended
  Extended-EndsWith k t delta log log' g ends = rw (g k) (rw (eq_refl k) ends)

  release-Kept :
      (cleanup_id : Option String) (log : List (AgentEvent x)) (m : List (String × String))
      → Kept log m
      → Kept log (elim cleanup_id [ none ↦ m | some id ↦ remove id m ])
  release-Kept none log m h = h
  release-Kept (some k) log m h = remove-Kept k log m h

  pub text_item-Kept :
      (cleanup_id : Option String) (k t : String) (event : String → AgentEvent x)
      (log : List (AgentEvent x)) (m : List (String × String))
      → ((id d : String) → view id (event d ∷ []) ≡ (if k == id then d else ""))
      → Kept log m
      → Kept (log ++ (text_item x cleanup_id k t event m).0) (text_item x cleanup_id k t event m).1
        × EndsWith (view k (log ++ (text_item x cleanup_id k t event m).0)) t
  unfolding text_item Extended
  text_item-Kept cleanup_id k t event log m sends h =
      let delta = delta_of (unwrap_or "" (lookup k m)) t in
      let ends = EndsWith-delta_of (view k log) (unwrap_or "" (lookup k m)) t (prior k log m h) in
      elim (Bool-cases (delta == "")) [
        | inl same ↦
            let nothing : delta ≡ "" = (eq_iff delta "").0 same in
            let g : Extended k delta log (log ++ []) = λ id.
              view-append id log []
              ∙ ap (append (view id log)) (if-nothing (k == id) delta nothing) in
            rw same (
              put-Kept k t delta log (log ++ []) m g ends h,
              Extended-EndsWith k t delta log (log ++ []) g ends,
            )
        | inr new ↦
            let g : Extended k delta log (log ++ event delta ∷ []) = λ id.
              view-append id log (event delta ∷ []) ∙ ap (append (view id log)) (sends id delta) in
            rw new (
              release-Kept cleanup_id (log ++ event delta ∷ []) (put k t m)
                  (put-Kept k t delta log (log ++ event delta ∷ []) m g ends h),
              Extended-EndsWith k t delta log (log ++ event delta ∷ []) g ends,
            )
      ]
