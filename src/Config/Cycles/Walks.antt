-- ===== src/Config/Cycles/Walks.antt =====
-- Walks in a graph of sessions, which say what `detect_route_cycles` looks for.
use cap_protocol.Prelude.{String, List, [], ◌∷◌, ◌++◌}

-- A walk of one edge or more.
pub data Walk (Edge : String → String → Type 0) (u : String) : String → Type 0 where
  step : {v : String} → Edge u v → Walk Edge u v
  onward : {v w : String} → Walk Edge u v → Edge v w → Walk Edge u w

module _ (Edge : String → String → Type 0) where
  -- Consecutive edges through the list, and one from its last node to `v`.
  abbrev pub Chain : List String → String → Type 0
  Chain [] v = Unit
  Chain (x ∷ []) v = Edge x v
  Chain (x ∷ y ∷ r) v = Edge x y × Chain (y ∷ r) v

  -- The list is a cycle: it is not empty, and its last node leads back to its first.
  abbrev pub IsCycle : List String → Type 0
  IsCycle [] = ⊥
  IsCycle (x ∷ r) = Chain (x ∷ r) x

  -- No session is reached from itself.
  abbrev pub IsAcyclic : Type 0
  IsAcyclic = (u : String) → ¬ Walk Edge u u

  pub Walk-cons : (u v w : String) → Edge u v → Walk Edge v w → Walk Edge u w
  Walk-cons u v w e (step f) = onward (step e) f
  Walk-cons u v w e (onward {v = m} p f) = onward (Walk-cons u v m e p) f

  pub Chain-Walk : (x : String) (r : List String) (v : String) → Chain (x ∷ r) v → Walk Edge x v
  Chain-Walk x [] v c = step c
  Chain-Walk x (y ∷ r) v c = Walk-cons x y v c.0 (Chain-Walk y r v c.1)

  pub IsCycle-Walk : (c : List String) → IsCycle c → (u : String) × Walk Edge u u
  IsCycle-Walk [] h = absurd h
  IsCycle-Walk (x ∷ r) h = (x, Chain-Walk x r x h)

  pub Chain-append :
      (path : List String) (node v : String)
      → Chain path node
      → Edge node v
      → Chain (path ++ node ∷ []) v
  Chain-append [] node v c e = e
  Chain-append (x ∷ []) node v c e = (c, e)
  Chain-append (x ∷ y ∷ r) node v c e = (c.0, Chain-append (y ∷ r) node v c.1 e)

  pub Chain-tail : (x : String) (r : List String) (v : String) → Chain (x ∷ r) v → Chain r v
  Chain-tail x [] v c = tt
  Chain-tail x (y ∷ r) v c = c.1

-- A walk along one relation is a walk along any that holds wherever it does.
pub Walk-map :
    {E F : String → String → Type 0}
    → ((u v : String) → E u v → F u v)
    → {u v : String} → Walk E u v
    → Walk F u v
Walk-map f {u} (step {v} e) = step (f u v e)
Walk-map f (onward {v} {w} p e) = onward (Walk-map f p) (f v w e)

pub Chain-map :
    {E F : String → String → Type 0}
    → ((u v : String) → E u v → F u v)
    → (xs : List String) (v : String) → Chain E xs v
    → Chain F xs v
Chain-map f [] v c = tt
Chain-map f (x ∷ []) v c = f x v c
Chain-map f (x ∷ y ∷ r) v c = (f x y c.0, Chain-map f (y ∷ r) v c.1)

pub IsCycle-map :
    {E F : String → String → Type 0}
    → ((u v : String) → E u v → F u v)
    → (c : List String) → IsCycle E c
    → IsCycle F c
IsCycle-map f [] h = h
IsCycle-map f (x ∷ r) h = Chain-map f (x ∷ r) x h
