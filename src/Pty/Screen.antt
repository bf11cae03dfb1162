-- ===== src/Pty/Screen.antt =====
-- What the consumer of `VtPlainParser` can see of the screen.
use Prim.Native.String.{◌++◌ as append}
use text.Mathlib.TextLemmas.{append_assoc, append-nil, nil-append}
use cap_protocol.Prelude.{
  ℕ, String, Bool, true, false, List, [], ◌∷◌, ◌++◌, ◌≡◌, ◌∙◌, refl, sym, ap, subst, inl, inr, ◌==◌,
  eq_iff, Option-cases, strip_prefix, strip_prefix-some, EndsWith,
}
use cap_protocol.Core.{Foreign, AgentEvent}
use cap_protocol.Pty.{Terminal}
use cap_protocol.Pty.Thread.{
  Received, chunk, timeout, prompted, start, round, rounds, forward, raw, Watch,
}
use cap_protocol.Pty.Plain.{
  VtPlainParser, new_plain, delta, tell, on_screen, on_bytes, plain_parser,
}

module _ (x : Foreign) where
  -- The texts, joined
  abbrev pub told : List (AgentEvent x) → String
  told [] = ""
  told (AgentEvent.text_chunk msg_id text channel ∷ es) = append text (told es)
  told (_ ∷ es) = told es

  told-append : (es fs : List (AgentEvent x)) → told (es ++ fs) ≡ append (told es) (told fs)
  told-append [] fs = sym (nil-append (told fs))
  told-append (AgentEvent.text_chunk msg_id text channel ∷ es) fs =
      ap (append text) (told-append es fs) ∙ sym (append_assoc text (told es) (told fs))
  told-append (_ ∷ es) fs = told-append es fs

  module _ (t : Terminal) where
    told-tell : (b : Bool) (text : String) → (text == "") ≡ b → told (tell x t b text) ≡ text
    unfolding tell
    told-tell true text e = sym ((eq_iff text "").0 e)
    told-tell false text e = append-nil text

    -- The text after a screen that ended with the last one
    EndsWith-delta :
        (v last screen : String)
        → EndsWith v last
        → EndsWith (append v (delta x t (strip_prefix screen last) screen)) screen
    unfolding delta
    EndsWith-delta v last screen (b, e) = elim (Option-cases (strip_prefix screen last)) [
      | inl f ↦ rw f (
        append v "\n--- screen repaint ---\n",
        sym (append_assoc v "\n--- screen repaint ---\n" screen),
      )
      | inr (d, f) ↦ rw f (
        b,
        ap (λ u. append u d) e
            ∙ append_assoc b last d
            ∙ ap (append b) (sym (strip_prefix-some screen last d f)),
      )
    ]

    -- What was sent ends with the screen that the parser remembers, and that is what the terminal shows.
    abbrev IsShown : List (AgentEvent x) → VtPlainParser x t → Type 0
    IsShown log p = EndsWith (told log) p.last_screen × (p.last_screen ≡ t.contents p.vt)

    on_screen-IsShown :
        (b : Bool) (vt : t.Vt) (log : List (AgentEvent x)) (p : VtPlainParser x t)
        → (t.contents vt == p.last_screen) ≡ b
        → EndsWith (told log) p.last_screen
        → IsShown (log ++ (on_screen x t b vt p).0) (on_screen x t b vt p).1
    unfolding on_screen
    on_screen-IsShown true vt log p e h = (
      subst (λ v. EndsWith v p.last_screen) (sym (told-append log [] ∙ append-nil (told log))) h,
      sym ((eq_iff (t.contents vt) p.last_screen).0 e),
    )
    on_screen-IsShown false vt log p e h =
        let screen = t.contents vt in
        let text = delta x t (strip_prefix screen p.last_screen) screen in
        (
          subst (λ v. EndsWith v screen)
              (sym (
                told-append log (tell x t (text == "") text)
                ∙ ap (append (told log)) (told-tell (text == "") text refl)))
              (EndsWith-delta (told log) p.last_screen screen h),
          refl,
        )

    told-raw : (b : Bool) (bytes : List ℕ) → told (raw (plain_parser x t) b bytes) ≡ ""
    unfolding raw
    told-raw true bytes = refl
    told-raw false bytes = refl

    round-chunk-IsShown :
        (b : Bool) (bytes : List ℕ) (w : Watch (plain_parser x t))
        → EndsWith (told w.events) w.parser.last_screen
        → IsShown
            (round (plain_parser x t) b (chunk bytes) w).events
            (round (plain_parser x t) b (chunk bytes) w).parser
    unfolding round forward on_bytes
    round-chunk-IsShown b bytes w h =
        let vt = t.process bytes w.parser.vt in
        on_screen-IsShown (t.contents vt == w.parser.last_screen) vt
          (w.events ++ raw (plain_parser x t) b bytes) w.parser refl
          (subst (λ v. EndsWith v w.parser.last_screen)
            (sym (
              told-append w.events (raw (plain_parser x t) b bytes)
              ∙ ap (append (told w.events)) (told-raw b bytes)
              ∙ append-nil (told w.events)))
            h)

    round-EndsWith :
        (b : Bool) (r : Received) (w : Watch (plain_parser x t))
        → EndsWith (told w.events) w.parser.last_screen
        → EndsWith
            (told (round (plain_parser x t) b r w).events)
            (round (plain_parser x t) b r w).parser.last_screen
    unfolding round forward
    round-EndsWith b (chunk bytes) w h = (round-chunk-IsShown b bytes w h).0
    round-EndsWith b timeout w h =
        subst (λ v. EndsWith v w.parser.last_screen)
          (sym (told-append w.events [] ∙ append-nil (told w.events))) h
    round-EndsWith b (prompted text) w h = h

    rounds-EndsWith :
        (b : Bool) (rs : List Received) (w : Watch (plain_parser x t))
        → EndsWith (told w.events) w.parser.last_screen
        → EndsWith
            (told (rounds (plain_parser x t) b rs w).events)
            (rounds (plain_parser x t) b rs w).parser.last_screen
    unfolding rounds
    rounds-EndsWith b [] w h = h
    rounds-EndsWith b (r ∷ rs) w h =
        rounds-EndsWith b rs (round (plain_parser x t) b r w) (round-EndsWith b r w h)

    -- The parser after what was received, and one chunk more
    abbrev pub after_chunk : Bool → List Received → List ℕ → Watch (plain_parser x t)
    after_chunk b rs bytes =
        round (plain_parser x t) b (chunk bytes)
          (rounds (plain_parser x t) b rs (start (plain_parser x t) (new_plain x t)))

    -- Whatever the terminal shows and whatever was received before: after a chunk of bytes, the text that the
    -- consumer of the plain parser was sent, joined, ends with the text on the terminal's screen.
    pub plain-shown :
        (b : Bool) (rs : List Received) (bytes : List ℕ)
        → EndsWith
            (told (after_chunk b rs bytes).events)
            (t.contents (after_chunk b rs bytes).parser.vt)
    plain-shown b rs bytes =
        let h = rounds-EndsWith b rs (start (plain_parser x t) (new_plain x t)) ("", refl) in
        let shown =
          round-chunk-IsShown b bytes
            (rounds (plain_parser x t) b rs (start (plain_parser x t) (new_plain x t))) h in
        subst (EndsWith (told (after_chunk b rs bytes).events)) shown.1 shown.0
