-- ===== src/Config/Cycles.antt =====
-- `FleetSpec::detect_route_cycles` of config.rs: the depth-first search over the route graph.
pub mod Walks
pub mod Graph
pub mod Search
pub mod Calls
pub mod Correct
pub mod Detect
use mathlib.Core.Option
use cap_protocol.Prelude.{
  ℕ, zero, suc, String, Option, none, some, List, [], ◌∷◌, ◌++◌, map, drop, length, ◌==◌, Result,
  ok, err, ◌>>=◌, lookup, put, keys, if◌then◌else◌,
}
use cap_protocol.Core.{Foreign}
use cap_protocol.Config.{SessionId, FanOut, Action, Route, Fleet, ConfigError, route_cycle, crashed}
use cap_protocol.Config.Routes.{trigger_sessions, action}

-- The local `enum Color`.
pub data Color : Type 0 where
  white gray black : Color

-- `adj`, `color` and `path` of the search.
abbrev pub Adjacency : Type 0
Adjacency = List (SessionId × List SessionId)

pub record Dfs : Type 0 where
  pub color : List (SessionId × Color)
  pub path : List SessionId

-- How a call of `visit` ends: with the two mutable maps, with the reported cycle, with a panic of
-- `color[node]` or of `expect`, or with no fuel left.
pub data Visit : Type 0 where
  visited : Dfs → Visit
  cycle : List SessionId → Visit
  panicked out_of_fuel : Visit

abbrev pub and_then : Visit → (Dfs → Visit) → Visit
and_then (visited s) f = f s
and_then (cycle c) f = cycle c
and_then panicked f = panicked
and_then out_of_fuel f = out_of_fuel

-- `path.iter().position(|n| *n == node)`
unfoldable pub position : SessionId → List SessionId → Option ℕ
position node [] = none
position node (n ∷ path) =
    let later = Option.map suc (position node path) in if n == node then some 0 else later

-- `adj.get(node)`: no entry means no neighbour to visit.
unfoldable pub neighbors : Adjacency → SessionId → List SessionId
neighbors adj node = elim (lookup node adj) [ none ↦ [] | some targets ↦ targets ]

-- `for neighbor in neighbors { visit(neighbor, …)?; }`, over the call of `visit`
unfoldable pub visit_each : (SessionId → Dfs → Visit) → List SessionId → Dfs → Visit
visit_each call [] s = visited s
visit_each call (n ∷ ns) s = and_then (call n s) (visit_each call ns)

-- `path.pop()`
unfoldable pub pop : List SessionId → List SessionId
pop [] = []
pop (n ∷ []) = []
pop (n ∷ m ∷ path) = n ∷ pop (m ∷ path)

-- The `Gray` arm: the cycle is the path from the node on.
report : SessionId → List SessionId → Visit
unfolding position
report node path = elim (position node path) [ none ↦ panicked | some i ↦ cycle (drop i path) ]

-- What follows the loop over the neighbours.
finish : SessionId → Dfs → Visit
unfolding pop
finish node s = visited (record { color = put node black s.color; path = pop s.path })

-- `color.insert(node, Gray); path.push(node)`
enter : SessionId → Dfs → Dfs
enter node s = record { color = put node gray s.color; path = s.path ++ node ∷ [] }

-- The recursive `fn visit`. The fuel bounds the depth of the calls.
unfoldable pub visit : ℕ → Adjacency → SessionId → Dfs → Visit
unfolding visit_each report finish enter neighbors
visit zero adj node s = out_of_fuel
visit (suc fuel) adj node s = elim (lookup node s.color) [
  | none ↦ panicked
  | some black ↦ visited s
  | some gray ↦ report node s.path
  | some white ↦
      and_then (visit_each (visit fuel adj) (neighbors adj node) (enter node s)) (finish node)
]

-- The loop over `ids`, which starts a search at each node that is still white.
unfoldable pub visit_roots : ℕ → Adjacency → List SessionId → Dfs → Visit
unfolding visit
visit_roots fuel adj [] s = visited s
visit_roots fuel adj (id ∷ ids) s =
    let search = and_then (visit fuel adj id s) (visit_roots fuel adj ids) in
    let skip = visit_roots fuel adj ids s in
    elim (lookup id s.color) [ none ↦ panicked | some white ↦ search | some _ ↦ skip ]

-- The targets of one route: `collect` makes no edge.
unfoldable pub action_targets : Action → List SessionId
action_targets (Action.route_to to) = to ∷ []
action_targets (Action.fan_out f) = f.to
action_targets (Action.collect c) = []

-- `edges`: for each route its triggers and targets, or the error of its `action()`.
unfoldable pub route_edges :
    List Route → Result ConfigError (List (List SessionId × List SessionId))
unfolding action action_targets
route_edges [] = ok []
route_edges (r ∷ rs) = do
  a ← action r
  rest ← route_edges rs
  ok ((trigger_sessions r, action_targets a) ∷ rest)

-- `adj.entry(t).or_default().push(target)`
unfoldable pub push_edge : Adjacency → SessionId → SessionId → Adjacency
unfolding neighbors
push_edge adj t target = put t (neighbors adj t ++ target ∷ []) adj

-- The two inner loops over one element of `edges`.
unfoldable pub push_targets : Adjacency → SessionId → List SessionId → Adjacency
unfolding push_edge
push_targets adj t [] = adj
push_targets adj t (target ∷ targets) = push_targets (push_edge adj t target) t targets

unfoldable pub push_triggers : Adjacency → List SessionId → List SessionId → Adjacency
unfolding push_targets
push_triggers adj [] targets = adj
push_triggers adj (t ∷ triggers) targets =
    push_triggers (push_targets adj t targets) triggers targets

unfoldable pub push_edges : Adjacency → List (List SessionId × List SessionId) → Adjacency
unfolding push_triggers
push_edges adj [] = adj
push_edges adj ((triggers, targets) ∷ edges) = push_edges (push_triggers adj triggers targets) edges

-- `ids` with an empty entry each, and `ids` all white
unfoldable pub empty_adjacency : List SessionId → Adjacency
empty_adjacency ids = map (λ id. (id, [])) ids

unfoldable pub all_white : List SessionId → List (SessionId × Color)
all_white ids = map (λ id. (id, white)) ids

-- The search over the whole graph. A node is entered only while it is white, so one more than the
-- number of nodes is fuel enough.
unfoldable pub search_cycles : List SessionId → Adjacency → Visit
unfolding visit_roots all_white
search_cycles ids adj =
    visit_roots (suc (length ids)) adj ids (record { color = all_white ids; path = [] })

abbrev pub verdict : Visit → Result ConfigError (Unit {0})
verdict (visited s) = ok tt
verdict (cycle c) = err (route_cycle c)
verdict panicked = err crashed
verdict out_of_fuel = err crashed

unfoldable pub detect_route_cycles : {x : Foreign} → Fleet x → Result ConfigError (Unit {0})
unfolding route_edges push_edges empty_adjacency search_cycles
detect_route_cycles fleet = do
  edges ← route_edges fleet.routes
  let ids = keys fleet.sessions
  verdict (search_cycles ids (push_edges (empty_adjacency ids) edges))
