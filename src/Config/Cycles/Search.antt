-- ===== src/Config/Cycles/Search.antt =====
-- What holds between two calls of `visit`, and what a call leaves as it was.
use cap_protocol.Prelude.{
  ℕ, suc, ◌≤◌, String, none, some, List, [], ◌∷◌, ◌≡◌, ◌≢◌, refl, arith, lookup, Member,
}
use cap_protocol.Config.{SessionId}
use cap_protocol.Config.Cycles.{
  Color, white, gray, black, Adjacency, Dfs, Visit, visited, cycle, panicked, out_of_fuel, and_then,
  neighbors,
}
use cap_protocol.Config.Cycles.Walks.{Walk, step, onward, IsCycle}

-- The nodes that are still white.
abbrev pub whites : List (SessionId × Color) → ℕ
whites [] = 0
whites ((_, white) ∷ m) = suc (whites m)
whites ((_, _) ∷ m) = whites m

module _ (adj : Adjacency) where
  abbrev pub Edge : String → String → Type 0
  Edge u v = Member v (neighbors adj u)

  -- Between two visits: what is black is closed and free of cycles, what is gray lies on the path,
  -- and every node that an edge leads to has a colour.
  pub record Inv (s : Dfs) : Type 0 where
    pub closed :
        (u v : String) → lookup u s.color ≡ some black → Edge u v → lookup v s.color ≡ some black
    pub acyclic : (u : String) → lookup u s.color ≡ some black → ¬ Walk Edge u u
    pub on_path : (u : String) → lookup u s.color ≡ some gray → Member u s.path
    pub known : (u v : String) → Edge u v → lookup v s.color ≢ none

  -- What a visit leaves as it was.
  pub record Kept (s t : Dfs) : Type 0 where
    pub inv : Inv t
    pub path : t.path ≡ s.path
    pub gray_from : (u : String) → lookup u t.color ≡ some gray → lookup u s.color ≡ some gray
    pub gray_to : (u : String) → lookup u s.color ≡ some gray → lookup u t.color ≡ some gray
    pub blacks : (u : String) → lookup u s.color ≡ some black → lookup u t.color ≡ some black
    pub colored : (u : String) → lookup u s.color ≢ none → lookup u t.color ≢ none
    pub fewer : whites t.color ≤ whites s.color

  -- Every end but a return or a reported cycle is excluded.
  abbrev pub Ends : Dfs → (Dfs → Type 0) → Visit → Type 0
  Ends s Q (visited t) = Kept s t × Q t
  Ends s Q (cycle c) = IsCycle Edge c
  Ends s Q panicked = ⊥
  Ends s Q out_of_fuel = ⊥

  pub Kept-refl : (s : Dfs) → Inv s → Kept s s
  Kept-refl s h = record {
    inv = h;
    path = refl;
    gray_from = λ u e. e;
    gray_to = λ u e. e;
    blacks = λ u e. e;
    colored = λ u e. e;
    fewer = omega arith;
  }

  pub Kept-trans : (s t r : Dfs) → Kept s t → Kept t r → Kept s r
  Kept-trans s t r h k = record {
    inv = k.inv;
    path = cc (h.path, k.path);
    gray_from = λ u e. h.gray_from u (k.gray_from u e);
    gray_to = λ u e. k.gray_to u (h.gray_to u e);
    blacks = λ u e. k.blacks u (h.blacks u e);
    colored = λ u e. k.colored u (h.colored u e);
    fewer = omega (arith, h.fewer, k.fewer);
  }

  -- The rule for two calls in a row.
  pub Ends-and_then :
      (s : Dfs) (Q R : Dfs → Type 0) (m : Visit) (f : Dfs → Visit)
      → Ends s Q m
      → ((t : Dfs) → Kept s t → Q t → Ends t R (f t))
      → Ends s R (and_then m f)
  Ends-and_then s Q R (visited t) f h k = after (f t) (k t h.0 h.1)
    where
      after : (v : Visit) → Ends t R v → Ends s R v
      after (visited r) e = (Kept-trans s t r h.0 e.0, e.1)
      after (cycle c) e = e
      after panicked e = absurd e
      after out_of_fuel e = absurd e
  Ends-and_then s Q R (cycle c) f h k = h
  Ends-and_then s Q R panicked f h k = absurd h
  Ends-and_then s Q R out_of_fuel f h k = absurd h

  pub Ends-map :
      (s : Dfs) (Q R : Dfs → Type 0) (m : Visit)
      → ((t : Dfs) → Kept s t → Q t → R t)
      → Ends s Q m
      → Ends s R m
  Ends-map s Q R (visited t) f h = (h.0, f t h.0 h.1)
  Ends-map s Q R (cycle c) f h = h
  Ends-map s Q R panicked f h = h
  Ends-map s Q R out_of_fuel f h = h

  -- Where every edge from `u` leads to a black node, so does every walk.
  pub Walk-black :
      (s : Dfs) (u : String) {v : String}
      → Inv s
      → ((w : String) → Edge u w → lookup w s.color ≡ some black)
      → Walk Edge u v
      → lookup v s.color ≡ some black
  Walk-black s u h next (step {v} e) = next v e
  Walk-black s u h next (onward {v} {w} p e) = h.closed v w (Walk-black s u h next p) e
