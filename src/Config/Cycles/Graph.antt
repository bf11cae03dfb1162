-- ===== src/Config/Cycles/Graph.antt =====
-- The graph that the routes describe, and the adjacency map that is built from them.
use cap_protocol.Prelude.{
  String, List, [], ◌∷◌, ◌++◌, ◌≡◌, refl, ◌⊎◌, inl, inr, ◌↔◌, ok, arith, eq_iff, lookup, put,
  lookup-put, Member, Member-concat, Some, All, Bool-cases, ◌==◌, if◌then◌else◌, subst,
}
use cap_protocol.Config.{SessionId, Route, Action}
use cap_protocol.Config.Routes.{trigger_sessions, action}
use cap_protocol.Config.Cycles.{
  Adjacency, neighbors, push_edge, push_targets, push_triggers, push_edges, empty_adjacency,
  route_edges, action_targets,
}
use cap_protocol.Config.Cycles.Search.{Edge}

-- The route leads to `v`: its action is one, and `v` is among its targets.
abbrev pub LeadsTo : Route → SessionId → Type 0
LeadsTo r v = (a : Action) × (action r ≡ ok a) × Member v (action_targets a)

-- Some route is triggered by `u` and leads to `v`.
abbrev pub Feeds : List Route → SessionId → SessionId → Type 0
Feeds routes u v = Some (λ r. Member u (trigger_sessions r) × LeadsTo r v) routes

-- The lists that `route_edges` makes describe the same edges.
abbrev Joins : List (List SessionId × List SessionId) → SessionId → SessionId → Type 0
Joins edges u v = Some (λ (e : List SessionId × List SessionId). Member u e.0 × Member v e.1) edges

neighbors-put :
    (adj : Adjacency) (t : String) (targets : List String) (u : String)
    → neighbors (put t targets adj) u ≡ (if t == u then targets else neighbors adj u)
unfolding neighbors
neighbors-put adj t targets u = ground (arith, lookup-put t u targets adj)

neighbors-push_edge :
    (adj : Adjacency) (t target u : String)
    → neighbors (push_edge adj t target) u
      ≡ (if t == u then neighbors adj t ++ target ∷ [] else neighbors adj u)
unfolding push_edge
neighbors-push_edge adj t target u = neighbors-put adj t (neighbors adj t ++ target ∷ []) u

Edge-push_edge :
    (adj : Adjacency) (t target u v : String)
    → Edge (push_edge adj t target) u v ↔ (Edge adj u v ⊎ ((u ≡ t) × (v ≡ target)))
Edge-push_edge adj t target u v = elim (Bool-cases (t == u)) [
  | inl e ↦
      rw (neighbors-push_edge, e)
        (rw ((eq_iff t u).0 e) (ground (arith, Member-concat v target (neighbors adj u))))
  | inr e ↦ rw (neighbors-push_edge, e) (ground (arith, eq_iff t u))
]

Edge-push_targets :
    (adj : Adjacency) (t : String) (targets : List String) (u v : String)
    → Edge (push_targets adj t targets) u v ↔ (Edge adj u v ⊎ ((u ≡ t) × Member v targets))
unfolding push_targets
Edge-push_targets adj t [] u v = ground arith
Edge-push_targets adj t (target ∷ targets) u v = ground (
  arith,
  Edge-push_targets (push_edge adj t target) t targets u v,
  Edge-push_edge adj t target u v,
)

Edge-push_triggers :
    (adj : Adjacency) (triggers targets : List String) (u v : String)
    → Edge (push_triggers adj triggers targets) u v
      ↔ (Edge adj u v ⊎ (Member u triggers × Member v targets))
unfolding push_triggers
Edge-push_triggers adj [] targets u v = ground arith
Edge-push_triggers adj (t ∷ triggers) targets u v = ground (
  arith,
  Edge-push_triggers (push_targets adj t targets) triggers targets u v,
  Edge-push_targets adj t targets u v,
)

Edge-push_edges :
    (adj : Adjacency) (edges : List (List SessionId × List SessionId)) (u v : String)
    → Edge (push_edges adj edges) u v ↔ (Edge adj u v ⊎ Joins edges u v)
unfolding push_edges
Edge-push_edges adj [] u v = ground arith
Edge-push_edges adj ((triggers, targets) ∷ edges) u v = ground (
  arith,
  Edge-push_edges (push_triggers adj triggers targets) edges u v,
  Edge-push_triggers adj triggers targets u v,
)

Edge-empty_adjacency : (ids : List SessionId) (u v : String) → ¬ Edge (empty_adjacency ids) u v
unfolding empty_adjacency neighbors lookup
Edge-empty_adjacency [] u v e = absurd e
Edge-empty_adjacency (id ∷ ids) u v e = ground (arith, Edge-empty_adjacency ids u v)

-- A route with the action `a` leads to the targets of `a`, and nowhere else.
LeadsTo-targets :
    (r : Route) (a : Action) (v : String)
    → action r ≡ ok a
    → LeadsTo r v ↔ Member v (action_targets a)
LeadsTo-targets r a v e =
    (λ (b, f, m). subst (λ c. Member v (action_targets c)) (cc (e, f)) m, λ m. (a, e, m))

-- Where each route has its one action, `edges` describes the graph of the routes.
route_edges_lem :
    (routes : List Route)
    → All (λ r. (a : Action) × (action r ≡ ok a)) routes
    → (edges : List (List SessionId × List SessionId)) × (route_edges routes ≡ ok edges)
      × ((u v : String) → Joins edges u v ↔ Feeds routes u v)
unfolding route_edges
route_edges_lem [] h = ([], refl, λ u v. (λ m. m, λ m. m))
route_edges_lem (r ∷ rs) h =
    let (a, e) = h.0 in
    let (edges, f, same) = route_edges_lem rs h.1 in
    (
      (trigger_sessions r, action_targets a) ∷ edges,
      rw (e, f),
      λ u v. ground (arith, same u v, LeadsTo-targets r a v e),
    )

-- The adjacency map of the routes has the edges of `Feeds`.
pub adjacency_lem :
    (ids : List SessionId) (routes : List Route)
    → All (λ r. (a : Action) × (action r ≡ ok a)) routes
    → (edges : List (List SessionId × List SessionId)) × (route_edges routes ≡ ok edges)
      × ((u v : String) → Edge (push_edges (empty_adjacency ids) edges) u v ↔ Feeds routes u v)
adjacency_lem ids routes h =
    let (edges, e, same) = route_edges_lem routes h in
    (
      edges,
      e,
      λ u v. ground (
        arith,
        same u v,
        Edge-push_edges (empty_adjacency ids) edges u v,
        Edge-empty_adjacency ids u v,
      ),
    )
