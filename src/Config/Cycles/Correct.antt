-- ===== src/Config/Cycles/Correct.antt =====
-- The whole search, from all nodes white: it decides whether the graph has a cycle.
use cap_protocol.Prelude.{
  ℕ, suc, ◌<◌, String, none, some, List, [], ◌∷◌, ◌≡◌, ◌≢◌, refl, ◌⊎◌, inl, inr, sym, ap, subst,
  arith, eq_iff, eq_refl, lookup, Member, All, All-of, All-at, All-imp, length, ◌∙◌,
}
use cap_protocol.Config.{SessionId}
use cap_protocol.Config.Cycles.{
  white, black, Adjacency, Dfs, Visit, visited, cycle, panicked, out_of_fuel, visit, visit_roots,
  all_white, search_cycles,
}
use cap_protocol.Config.Cycles.Walks.{Walk, step, onward, Chain, IsCycle, IsAcyclic}
use cap_protocol.Config.Cycles.Search.{whites, Edge, Inv, Kept-refl, Ends, Ends-and_then, Ends-map}
use cap_protocol.Config.Cycles.Calls.{visit-Ends, look_cases}

lookup-all_white :
    (ids : List SessionId) (u : String)
    → (lookup u (all_white ids) ≡ none) ⊎ (lookup u (all_white ids) ≡ some white)
unfolding lookup all_white
lookup-all_white [] u = inl refl
lookup-all_white (id ∷ ids) u = ground (arith, lookup-all_white ids u)

lookup-all_white_known :
    (ids : List SessionId) (u : String) → Member u ids → lookup u (all_white ids) ≢ none
unfolding lookup all_white
lookup-all_white_known [] u m = absurd m
lookup-all_white_known (id ∷ ids) u m =
    ground (arith, lookup-all_white_known ids u, eq_iff id u, eq_refl u)

whites-all_white : (ids : List SessionId) → whites (all_white ids) ≡ length ids
unfolding all_white
whites-all_white [] = refl
whites-all_white (id ∷ ids) = ap suc (whites-all_white ids)

module _ (adj : Adjacency) where
  roots-Ends :
      (fuel : ℕ) (ids : List SessionId) (s : Dfs)
      → Inv adj s
      → s.path ≡ []
      → All (λ id. lookup id s.color ≢ none) ids
      → whites s.color < fuel
      → Ends adj s
          (λ t. All (λ id. lookup id t.color ≡ some black) ids)
          (visit_roots fuel adj ids s)
  unfolding visit_roots
  roots-Ends fuel [] s h p known w = (Kept-refl adj s h, tt)
  roots-Ends fuel (id ∷ ids) s h p known w = elim (look_cases (lookup id s.color)) [
    | inl e ↦ absurd (known.0 e)
    | inr (inl e) ↦
        rw (e, visit_roots, Ends)
          (Ends-and_then adj s (λ t. lookup id t.color ≡ some black) done (visit fuel adj id s)
            (visit_roots fuel adj ids)
            (visit-Ends adj fuel id s h (subst (λ path. Chain (Edge adj) path id) (sym p) tt)
              known.0 w)
            λ t k b.
              Ends-map adj t rest done (visit_roots fuel adj ids t)
                (λ r kept all_black. (kept.blacks id b, all_black))
                (roots-Ends fuel ids t k.inv (k.path ∙ p)
                  (All-imp (λ n. lookup n s.color ≢ none) (λ n. lookup n t.color ≢ none) ids
                    k.colored known.1)
                  (omega arith)))
    | inr (inr (inl e)) ↦ absurd (subst (Member id) p (h.on_path id e))
    | inr (inr (inr e)) ↦
        rw (e, visit_roots, Ends)
          (Ends-map adj s rest done (visit_roots fuel adj ids s)
            (λ r kept all_black. (kept.blacks id e, all_black))
            (roots-Ends fuel ids s h p known.1 w))
  ]
    where
      rest : Dfs → Type 0
      rest t = All (λ n. lookup n t.color ≡ some black) ids

      done : Dfs → Type 0
      done t = All (λ n. lookup n t.color ≡ some black) (id ∷ ids)

  abbrev start : List SessionId → Dfs
  start ids = record { color = all_white ids; path = [] }

  start-Inv :
      (ids : List SessionId) → ((u v : String) → Edge adj u v → Member v ids) → Inv adj (start ids)
  start-Inv ids closed = record {
    closed = λ u v b e. ground (arith, lookup-all_white ids u);
    acyclic = λ u b. ground (arith, lookup-all_white ids u);
    on_path = λ u b. ground (arith, lookup-all_white ids u);
    known = λ u v e. lookup-all_white_known ids v (closed u v e);
  }

  -- The last node of a walk is the target of an edge.
  Walk-target : {u v : String} → Walk (Edge adj) u v → (w : String) × Edge adj w v
  Walk-target {u} (step e) = (u, e)
  Walk-target (onward {v} p e) = (v, e)

  -- What the search answers: the graph has no cycle, or the list is one.
  pub data Answer (v : Visit) : Type 0 where
    acyclic : (t : Dfs) → v ≡ visited t → IsAcyclic (Edge adj) → Answer v
    cyclic : (c : List SessionId) → v ≡ cycle c → IsCycle (Edge adj) c → Answer v

  Answer-of :
      (ids : List SessionId) (v : Visit)
      → ((u w : String) → Edge adj u w → Member w ids)
      → Ends adj (start ids) (λ t. All (λ id. lookup id t.color ≡ some black) ids) v
      → Answer v
  Answer-of ids (visited t) closed e = acyclic t refl λ u walk.
      let (w, edge) = Walk-target walk in
      e.0.inv.acyclic u (All-at (λ id. lookup id t.color ≡ some black) ids u e.1 (closed w u edge))
        walk
  Answer-of ids (cycle c) closed e = cyclic c refl e
  Answer-of ids panicked closed e = absurd e
  Answer-of ids out_of_fuel closed e = absurd e

  -- Where every edge leads to a listed node, the search answers, and answers right.
  pub search_cycles-Answer :
      (ids : List SessionId)
      → ((u v : String) → Edge adj u v → Member v ids)
      → Answer (search_cycles ids adj)
  unfolding search_cycles
  search_cycles-Answer ids closed =
      Answer-of ids (visit_roots (suc (length ids)) adj ids (start ids)) closed (
        roots-Ends (suc (length ids)) ids (start ids) (start-Inv ids closed) refl
          (All-of (λ id. lookup id (all_white ids) ≢ none) ids (lookup-all_white_known ids))
          (omega (arith, whites-all_white ids)))
