-- ===== src/Config/Cycles/Calls.antt =====
-- One call of `visit`: it ends, does not panic, and what it returns is right.
use cap_protocol.Prelude.{
  ℕ, zero, suc, ◌≤◌, ◌<◌, String, Option, none, some, List, [], ◌∷◌, ◌++◌, drop, ◌≡◌, ◌≢◌, refl,
  ◌⊎◌, inl, inr, sym, ap, subst, arith, eq_iff, lookup, put, lookup-put, Member, All, All-of,
  All-at, All-imp, Member-append_left, Member-append_right, Bool-cases, ◌==◌, eq_refl,
  if◌then◌else◌,
}
use cap_protocol.Config.{SessionId}
use cap_protocol.Config.Cycles.{
  Color, white, gray, black, Adjacency, Dfs, Visit, visited, cycle, panicked, out_of_fuel, and_then,
  position, neighbors, visit_each, pop, report, finish, enter, visit,
}
use cap_protocol.Config.Cycles.Search.{
  whites, Edge, Inv, Kept, Kept-refl, Ends, Ends-and_then, Ends-map, Walk-black,
}
use cap_protocol.Config.Cycles.Walks.{Chain, IsCycle, Chain-append, Chain-tail}

put_gray-whites :
    (k : String) (m : List (SessionId × Color))
    → lookup k m ≡ some white
    → suc (whites (put k gray m)) ≡ whites m
unfolding lookup put
put_gray-whites k [] h = cc
put_gray-whites k ((j, c) ∷ m) h = ground (arith, put_gray-whites k m)

put_black-whites : (k : String) (m : List (SessionId × Color)) → whites (put k black m) ≤ whites m
unfolding put
put_black-whites k [] = omega arith
put_black-whites k ((j, c) ∷ m) = ground (arith, put_black-whites k m)

pop-concat : (path : List String) (node : String) → pop (path ++ node ∷ []) ≡ path
unfolding pop
pop-concat [] node = refl
pop-concat (n ∷ []) node = refl
pop-concat (n ∷ m ∷ path) node = ap (λ (r : List String). n ∷ r) (pop-concat (m ∷ path) node)

pub look_cases :
    (o : Option Color) → (o ≡ none) ⊎ ((o ≡ some white) ⊎ ((o ≡ some gray) ⊎ (o ≡ some black)))
look_cases none = inl refl
look_cases (some white) = inr (inl refl)
look_cases (some gray) = inr (inr (inl refl))
look_cases (some black) = inr (inr (inr refl))

module _ (adj : Adjacency) where
  -- A node on the path closes the cycle that is reported.
  position-IsCycle :
      (node : String) (path : List String)
      → Chain (Edge adj) path node
      → Member node path
      → (i : ℕ) × (position node path ≡ some i) × IsCycle (Edge adj) (drop i path)
  unfolding position
  position-IsCycle node [] c m = absurd m
  position-IsCycle node (x ∷ path) c m = elim (Bool-cases (x == node)) [
    | inl here ↦
        (0, rw here, subst (λ n. Chain (Edge adj) (x ∷ path) n) (sym ((eq_iff x node).0 here)) c)
    | inr other ↦
        let (i, e, found) =
          position-IsCycle node path (Chain-tail (Edge adj) x path node c)
            (ground (arith, eq_iff x node)) in
        (suc i, rw (other, e), found)
  ]

  -- The `Gray` arm never panics.
  report-Ends :
      (node : String) (s : Dfs) (Q : Dfs → Type 0)
      → Chain (Edge adj) s.path node
      → Member node s.path
      → Ends adj s Q (report node s.path)
  unfolding report
  report-Ends node s Q c m =
      let (i, e, found) = position-IsCycle node s.path c m in rw (e, Ends) found

  enter-Inv :
      (node : String) (s : Dfs)
      → Inv adj s
      → lookup node s.color ≡ some white
      → Inv adj (enter node s)
  unfolding enter
  enter-Inv node s h w = record {
    closed = λ u v b e. ground (
      arith,
      h.closed u v,
      lookup-put node u gray s.color,
      lookup-put node v gray s.color,
      eq_iff node u,
      eq_iff node v,
    );
    acyclic = λ u b. ground (arith, h.acyclic u, lookup-put node u gray s.color, eq_iff node u);
    on_path = λ u b. enter_path u b;
    known = λ u v e. ground (arith, h.known u v e, lookup-put node v gray s.color);
  }
    where
      enter_path :
          (u : String)
          → lookup u (put node gray s.color) ≡ some gray
          → Member u (s.path ++ node ∷ [])
      enter_path u b = elim (Bool-cases (node == u)) [
        | inl e ↦ Member-append_right u s.path (node ∷ []) (inl (sym ((eq_iff node u).0 e)))
        | inr e ↦
            Member-append_left u s.path (node ∷ [])
              (h.on_path u (ground (arith, lookup-put node u gray s.color)))
      ]

  -- `visit` from any state with the fuel for its white nodes ends, leaves the node black, and
  -- reports only cycles.
  abbrev pub IsGood : ℕ → Type 0
  IsGood fuel =
      (node : String) (s : Dfs)
      → Inv adj s
      → Chain (Edge adj) s.path node
      → lookup node s.color ≢ none
      → whites s.color < fuel
      → Ends adj s (λ t. lookup node t.color ≡ some black) (visit fuel adj node s)

  visit_each-Ends :
      (fuel : ℕ) (ns : List String) (s : Dfs)
      → IsGood fuel
      → Inv adj s
      → All (λ n. Chain (Edge adj) s.path n × (lookup n s.color ≢ none)) ns
      → whites s.color < fuel
      → Ends adj s
          (λ t. All (λ n. lookup n t.color ≡ some black) ns)
          (visit_each (visit fuel adj) ns s)
  unfolding visit_each
  visit_each-Ends fuel [] s good h ready w = (Kept-refl adj s h, tt)
  visit_each-Ends fuel (n ∷ ns) s good h ready w =
      Ends-and_then adj s (λ t. lookup n t.color ≡ some black)
        (λ t. All (λ m. lookup m t.color ≡ some black) (n ∷ ns)) (visit fuel adj n s)
        (visit_each (visit fuel adj) ns) (good n s h ready.0.0 ready.0.1 w)
        λ t k b.
          Ends-map adj t (λ r. All (λ m. lookup m r.color ≡ some black) ns)
            (λ r. All (λ m. lookup m r.color ≡ some black) (n ∷ ns))
            (visit_each (visit fuel adj) ns t) (λ r kept all_black. (kept.blacks n b, all_black))
            (visit_each-Ends fuel ns t good k.inv
              (All-imp (λ m. Chain (Edge adj) s.path m × (lookup m s.color ≢ none))
                (λ m. Chain (Edge adj) t.path m × (lookup m t.color ≢ none)) ns
                (λ m (c, known).
                  (subst (λ path. Chain (Edge adj) path m) (sym k.path) c, k.colored m known))
                ready.1)
              (omega arith))

  -- The two ends of the body of `visit`: a white node is entered, and left black.
  finish-Kept :
      (node : String) (s t : Dfs)
      → Inv adj s
      → lookup node s.color ≡ some white
      → Kept adj (enter node s) t
      → ((v : String) → Edge adj node v → lookup v t.color ≡ some black)
      → Kept adj s (record { color = put node black t.color; path = pop t.path })
  unfolding enter
  finish-Kept node s t h w k all_black = record {
    inv = record {
      closed = λ u v b e.
          ground
            (arith, k.inv.closed u v, paint u, paint v, eq_iff node u, eq_iff node v, all_black v);
      acyclic = λ u b walk. elim (Bool-cases (node == u)) [
        | inl e ↦ cc (
          Walk-black adj t u k.inv
              (subst (λ a. (v : String) → Edge adj a v → lookup v t.color ≡ some black)
                ((eq_iff node u).0 e) all_black)
              walk,
          k.gray_to u (rw (first u, e)),
        )
        | inr e ↦ k.inv.acyclic u (ground (arith, paint u)) walk
      ];
      on_path = λ u b. rw back (h.on_path u (ground (arith, k.gray_from u, paint u, first u)));
      known = λ u v e. ground (arith, k.inv.known u v e, paint v);
    };
    path = back;
    gray_from = λ u e. ground (arith, k.gray_from u, paint u, first u);
    gray_to = λ u e. ground (arith, k.gray_to u, paint u, first u, eq_iff node u);
    blacks = λ u e. ground (arith, k.blacks u, paint u, first u, eq_iff node u);
    colored = λ u e. ground (arith, k.colored u, paint u, first u);
    fewer = omega (arith, put_black-whites node t.color, put_gray-whites node s.color w);
  }
    where
      back : pop t.path ≡ s.path
      back = rw k.path (pop-concat s.path node)

      paint :
          (u : String)
          → lookup u (put node black t.color) ≡ (if node == u then some black else lookup u t.color)
      paint u = lookup-put node u black t.color

      first :
          (u : String)
          → lookup u (put node gray s.color) ≡ (if node == u then some gray else lookup u s.color)
      first u = lookup-put node u gray s.color

  close-Ends :
      (node : String) (s : Dfs) (m : Visit)
      → Inv adj s
      → lookup node s.color ≡ some white
      → Ends adj
          (enter node s)
          (λ t. All (λ n. lookup n t.color ≡ some black) (neighbors adj node))
          m
      → Ends adj s (λ t. lookup node t.color ≡ some black) (and_then m (finish node))
  unfolding finish
  close-Ends node s (visited t) h w e = (
    finish-Kept node s t h w e.0
        (λ v edge. All-at (λ n. lookup n t.color ≡ some black) (neighbors adj node) v e.1 edge),
    rw (lookup-put, eq_refl),
  )
  close-Ends node s (cycle c) h w e = e
  close-Ends node s panicked h w e = absurd e
  close-Ends node s out_of_fuel h w e = absurd e

  enter-ready :
      (node : String) (s : Dfs)
      → Inv adj s
      → Chain (Edge adj) s.path node
      → All
          (λ n. Chain (Edge adj) (enter node s).path n × (lookup n (enter node s).color ≢ none))
          (neighbors adj node)
  unfolding enter
  enter-ready node s h c =
      All-of (λ n. Chain (Edge adj) (enter node s).path n × (lookup n (enter node s).color ≢ none))
        (neighbors adj node)
        λ n edge. (
          Chain-append (Edge adj) s.path node n c edge,
          ground (arith, lookup-put node n gray s.color, h.known node n edge),
        )

  enter-whites :
      (node : String) (s : Dfs) {fuel : ℕ}
      → lookup node s.color ≡ some white
      → whites s.color < suc fuel
      → whites (enter node s).color < fuel
  unfolding enter
  enter-whites node s e w = omega (arith, put_gray-whites node s.color e)

  pub visit-Ends : (fuel : ℕ) → IsGood fuel
  unfolding visit
  visit-Ends zero node s h c known w = absurd (omega arith)
  visit-Ends (suc fuel) node s h c known w = elim (look_cases (lookup node s.color)) [
    | inl e ↦ absurd (known e)
    | inr (inl e) ↦
        rw (e, visit, Ends)
          (close-Ends node s (visit_each (visit fuel adj) (neighbors adj node) (enter node s)) h e (
            visit_each-Ends fuel (neighbors adj node) (enter node s) (visit-Ends fuel)
              (enter-Inv node s h e) (enter-ready node s h c) (enter-whites node s e w)))
    | inr (inr (inl e)) ↦
        rw (e, visit, Ends)
          (report-Ends node s (λ t. lookup node t.color ≡ some black) c (h.on_path node e))
    | inr (inr (inr e)) ↦ rw (e, visit, Ends) (Kept-refl adj s h, e)
  ]
