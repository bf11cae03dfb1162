-- ===== src/Routing/Summaries.antt =====
-- The lengths of the summaries that a language model is shown.
use cap_protocol.Prelude.{
  ℕ, ◌≤◌, String, true, Option, some, List, [], ◌∷◌, ◌++◌, ◌≡◌, refl, All, if_both, all_chars,
  lookup, ◌==◌,
}
use cap_protocol.Core.{Foreign}
use cap_protocol.Json.{unwrap_or}
use cap_protocol.Config.{SessionId}
use cap_protocol.Pty.Texts.{byte_length}
use cap_protocol.Routing.{RoutingContext}
use cap_protocol.Routing.Cuts.{is_ascii, Within, preview-Within, preview-ascii}
use cap_protocol.Routing.Prompt.{
  preview, before, SessionSummary, set_of, put_in_order, in_order, status_of, output_of,
  add_summary, summaries, build_all,
}

-- The previews are within the limit.
abbrev pub IsShort : ℕ → List SessionSummary → Type 0
IsShort max_chars ss = All (λ s. byte_length s.output_preview ≤ max_chars) ss

put_in_order-IsShort :
    (max_chars : ℕ) (s : SessionSummary) (ss : List SessionSummary)
    → byte_length s.output_preview ≤ max_chars
    → IsShort max_chars ss
    → IsShort max_chars (put_in_order s ss)
unfolding put_in_order
put_in_order-IsShort max_chars s [] h k = (h, k)
put_in_order-IsShort max_chars s (t ∷ ts) h k =
    if_both (IsShort max_chars) (before s.id t.id) _ _ (h, k)
      (k.0, put_in_order-IsShort max_chars s ts h k.1)

in_order-IsShort :
    (max_chars : ℕ) (ss : List SessionSummary)
    → IsShort max_chars ss
    → IsShort max_chars (in_order ss)
unfolding in_order
in_order-IsShort max_chars [] h = h
in_order-IsShort max_chars (s ∷ ss) h =
    put_in_order-IsShort max_chars s (in_order ss) h.0 (in_order-IsShort max_chars ss h.1)

lookup-ascii :
    (m : List (SessionId × String)) (id : SessionId)
    → All (λ b. is_ascii b.1 ≡ true) m
    → is_ascii (unwrap_or "" (lookup id m)) ≡ true
unfolding lookup is_ascii all_chars
lookup-ascii [] id h = refl
lookup-ascii ((k, v) ∷ m) id h =
    if_both (λ o. is_ascii (unwrap_or "" o) ≡ true) (k == id) (some v) (lookup id m) h.0
      (lookup-ascii m id h.1)

module _ {x : Foreign} (ctx : RoutingContext x) (max_chars : ℕ) where
  -- The summaries are there, and short.
  AreShort : Option (List SessionSummary) → Type 0
  AreShort o = (ss : List SessionSummary) × (o ≡ some ss) × IsShort max_chars ss

  add_summary-AreShort :
      (id : SessionId) (o : Option String) (others : Option (List SessionSummary)) (p : String)
      → o ≡ some p
      → byte_length p ≤ max_chars
      → AreShort others
      → AreShort (add_summary ctx max_chars id o others)
  unfolding AreShort add_summary
  add_summary-AreShort id o others p e h (ss, f, k) = (
    record { id = id; status = status_of ctx max_chars id; output_preview = p } ∷ ss,
    rw (e, f) refl,
    (h, k),
  )

  summaries-AreShort :
      (ids : List SessionId)
      → 50 ≤ max_chars
      → ((id : SessionId) → is_ascii (output_of ctx max_chars id) ≡ true)
      → AreShort (summaries ctx max_chars ids)
  unfolding AreShort summaries Within
  summaries-AreShort [] h a = ([], refl, tt)
  summaries-AreShort (id ∷ ids) h a =
      let (p, e) = preview-ascii max_chars (output_of ctx max_chars id) (a id) in
      add_summary-AreShort id (preview max_chars (output_of ctx max_chars id))
        (summaries ctx max_chars ids) p e
        (preview-Within max_chars (output_of ctx max_chars id) h p e) (summaries-AreShort ids h a)

  -- If the limit is at least 50 and the outputs are ASCII texts: the summaries are built, and no preview
  -- has more bytes than the limit, the note about what is left out included.
  pub build_all-IsShort :
      50 ≤ max_chars
      → All (λ b. is_ascii b.1 ≡ true) ctx.buffers
      → (ss : List SessionSummary) × (build_all ctx max_chars ≡ some ss) × IsShort max_chars ss
  unfolding AreShort build_all
  build_all-IsShort h a =
      let (ss, e, k) =
        summaries-AreShort (set_of (ctx.done ++ ctx.failed ++ ctx.spawned)) h
          (λ id. lookup-ascii ctx.buffers id a) in
      (in_order ss, rw e refl, in_order-IsShort max_chars ss k)
