-- ===== src/Config/Cycles/Detect.antt =====
-- `detect_route_cycles` accepts exactly the fleets whose routes have no cycle.
use cap_protocol.Prelude.{String, List, ◌≡◌, ◌⊎◌, inl, inr, ◌↔◌, ok, err, Member, All, keys}
use cap_protocol.Core.{Foreign}
use cap_protocol.Config.{SessionId, Fleet, Action, route_cycle}
use cap_protocol.Config.Routes.{action}
use cap_protocol.Config.Cycles.{push_edges, empty_adjacency, detect_route_cycles}
use cap_protocol.Config.Cycles.Walks.{IsCycle, IsAcyclic, Walk-map, IsCycle-map, IsCycle-Walk}
use cap_protocol.Config.Cycles.Correct.{acyclic, cyclic, search_cycles-Answer}
use cap_protocol.Config.Cycles.Graph.{Feeds, adjacency_lem}

-- What `validate` has established when it calls `detect_route_cycles`: each route has one action,
-- and leads to sessions of the fleet only.
pub record IsClosed {x : Foreign} (fleet : Fleet x) : Type 0 where
  pub actions : All (λ r. (a : Action) × (action r ≡ ok a)) fleet.routes
  pub targets : (u v : String) → Feeds fleet.routes u v → Member v (keys fleet.sessions)

-- On a fleet whose routes have one action each and lead to its sessions, the search returns `Ok` and
-- the graph has no cycle, or it returns the error with a list of sessions each of which feeds the
-- next, and the last the first.
pub detect_route_cycles_correct :
    {x : Foreign} (fleet : Fleet x)
    → IsClosed fleet
    → ((detect_route_cycles fleet ≡ ok tt) × IsAcyclic (Feeds fleet.routes))
      ⊎ ((c : List SessionId) × (detect_route_cycles fleet ≡ err (route_cycle c))
          × IsCycle (Feeds fleet.routes) c)
unfolding detect_route_cycles
detect_route_cycles_correct fleet h =
    let ids = keys fleet.sessions in
    let (edges, e, same) = adjacency_lem ids fleet.routes h.actions in
    let adj = push_edges (empty_adjacency ids) edges in
    elim (search_cycles-Answer adj ids (λ u v edge. h.targets u v ((same u v).0 edge))) [
      | acyclic t f free ↦ inl (rw (e, f), λ u walk. free u (Walk-map (λ a b. (same a b).1) walk))
      | cyclic c f found ↦ inr (c, rw (e, f), IsCycle-map (λ a b. (same a b).0) c found)
    ]

-- `Ok` means no cycle, and no cycle means `Ok`.
pub detect_route_cycles_iff :
    {x : Foreign} (fleet : Fleet x)
    → IsClosed fleet
    → (detect_route_cycles fleet ≡ ok tt) ↔ IsAcyclic (Feeds fleet.routes)
detect_route_cycles_iff fleet h = elim (detect_route_cycles_correct fleet h) [
  | inl (passed, free) ↦ (λ _. free, λ _. passed)
  | inr (c, failed, found) ↦
      let (u, walk) = IsCycle-Walk (Feeds fleet.routes) c found in
      (λ passed. cc (passed, failed), λ free. absurd (free u walk))
]
