-- ===== src/Routing/Targets.antt =====
-- Where `StaticRouting` sends the work of a finished session.
use cap_protocol.Prelude.{
  String, Bool, true, false, ◌≡◌, ◌≢◌, inl, inr, List, [], ◌∷◌, ◌++◌, Option, none, some, map, any,
  all, refl, sym, subst, ap, arith, All, Member, Some, Member-append_cases, contains, keys, Result,
  ok, err, ◌==◌, eq_iff, if◌then◌else◌,
}
use mathlib.Core.List.{append_assoc}
use cap_protocol.Core.{Foreign}
use cap_protocol.Config.{SessionId, Split, broadcast, by_subtask, Action, Route, Fleet, ConfigError}
use cap_protocol.Config.Routes.{trigger_sessions, action}
use cap_protocol.Config.Cycles.{action_targets}
use cap_protocol.Config.Cycles.Walks.{Walk, step, Walk-cons}
use cap_protocol.Config.Cycles.Graph.{Feeds, LeadsTo}
use cap_protocol.Config.Validate.{validate}
use cap_protocol.Config.Validate.Sound.{IsRoute-IsClosed}
use cap_protocol.Config.Validate.Complete.{validate_iff}
use cap_protocol.Routing.{RoutingContext, RouteDecision}
use cap_protocol.Routing.Static.{
  assign_items, sufficient, partial_fan_out, subtask_decisions, parse_subtasks, build_payload,
  transcript, fan_out_decisions, act, applies, route_decisions, static_decisions,
}
use cap_protocol.Routing.Subtasks.{firsts}

-- The sessions that a list of decisions sends work to.
abbrev pub targets_of : List RouteDecision → List SessionId
targets_of [] = []
targets_of (RouteDecision.route to payload ∷ ds) = to ∷ targets_of ds
targets_of (RouteDecision.dynamic_route to payload driver policy ∷ ds) = to ∷ targets_of ds
targets_of (RouteDecision.fan_out pairs ∷ ds) = firsts pairs ++ targets_of ds
targets_of (_ ∷ ds) = targets_of ds

-- Some route is triggered by `u`, has all its triggers done, and leads to `v`.
abbrev pub Fires : List SessionId → List Route → SessionId → SessionId → Type 0
Fires done routes u v =
    Some
      (λ r.
        Member u (trigger_sessions r)
        × All (λ t. contains done t ≡ true) (trigger_sessions r)
        × LeadsTo r v)
      routes

targets_of-append :
    (ds es : List RouteDecision) → targets_of (ds ++ es) ≡ targets_of ds ++ targets_of es
targets_of-append [] es = refl
targets_of-append (RouteDecision.route to payload ∷ ds) es =
    ap (λ rest. to ∷ rest) (targets_of-append ds es)
targets_of-append (RouteDecision.dynamic_route to p d q ∷ ds) es =
    ap (λ rest. to ∷ rest) (targets_of-append ds es)
targets_of-append (RouteDecision.fan_out pairs ∷ ds) es =
    rw (targets_of-append ds es) (sym (append_assoc (firsts pairs) (targets_of ds) (targets_of es)))
targets_of-append (_ ∷ ds) es = targets_of-append ds es

assign_items-Member :
    (v : SessionId) (tos : List SessionId) (items : List String)
    → Member v (firsts (assign_items tos items))
    → Member v tos
unfolding assign_items
assign_items-Member v [] items m = m
assign_items-Member v (to ∷ tos) [] m = absurd m
assign_items-Member v (to ∷ tos) (item ∷ items) (inl e) = inl e
assign_items-Member v (to ∷ tos) (item ∷ items) (inr m) = inr (assign_items-Member v tos items m)

Member-firsts_once :
    (v : SessionId) (pairs : List (SessionId × String))
    → Member v (firsts pairs ++ [])
    → Member v (firsts pairs)
Member-firsts_once v pairs m = elim (Member-append_cases v (firsts pairs) [] m) [
  | inl n ↦ n
  | inr n ↦ absurd n
]

partial_fan_out-Member :
    (v : SessionId) (pairs : List (SessionId × String))
    → Member v (targets_of (partial_fan_out pairs))
    → Member v (firsts pairs)
unfolding partial_fan_out
partial_fan_out-Member v [] m = m
partial_fan_out-Member v (p ∷ ps) m = Member-firsts_once v (p ∷ ps) m

subtask_decisions-Member :
    (v : SessionId) (tos : List SessionId) (items : Option (List String))
    → Member v (targets_of (subtask_decisions tos items))
    → Member v tos
unfolding subtask_decisions
subtask_decisions-Member v tos none m = absurd m
subtask_decisions-Member v tos (some items) m =
    (elim (sufficient tos items)
        as (λ b.
          Member v (
            targets_of (
              if b
              then RouteDecision.fan_out (assign_items tos items) ∷ []
              else partial_fan_out (assign_items tos items)))
          → Member v tos) [
            | true ↦ λ m.
                assign_items-Member v tos items (Member-firsts_once v (assign_items tos items) m)
            | false ↦ λ m.
                assign_items-Member v tos items
                  (partial_fan_out-Member v (assign_items tos items) m)
          ])
      m

firsts-broadcast :
    (v : SessionId) (payload : String) (tos : List SessionId)
    → Member v (firsts (map (λ t. (t, payload)) tos))
    → Member v tos
firsts-broadcast v payload [] m = m
firsts-broadcast v payload (to ∷ tos) (inl e) = inl e
firsts-broadcast v payload (to ∷ tos) (inr m) = inr (firsts-broadcast v payload tos m)

any-Member :
    (session : SessionId) (triggers : List SessionId)
    → any (λ t. t == session) triggers ≡ true
    → Member session triggers
any-Member session [] h = ground arith
any-Member session (t ∷ ts) h = ground (arith, eq_iff t session, any-Member session ts)

all-All :
    (done triggers : List SessionId)
    → all (λ t. contains done t) triggers ≡ true
    → All (λ t. contains done t ≡ true) triggers
all-All done [] h = tt
all-All done (t ∷ ts) h = ground (arith, all-All done ts)

module _ {x : Foreign} (ctx : RoutingContext x) where
  applies_lem :
      (session : SessionId) (triggers : List SessionId)
      → applies ctx session triggers ≡ true
      → Member session triggers × All (λ t. contains ctx.done t ≡ true) triggers
  unfolding applies
  applies_lem session triggers h =
      ground (arith, any-Member session triggers, all-All ctx.done triggers)

  module _ (items_of : String → Option (List String)) where
    fan_out_decisions-Member :
        (session : SessionId) (triggers tos : List SessionId) (split : Split) (v : SessionId)
        → Member v (targets_of (fan_out_decisions items_of ctx session triggers tos split))
        → Member v tos
    unfolding fan_out_decisions
    fan_out_decisions-Member session triggers tos broadcast v m =
        firsts-broadcast v (build_payload ctx triggers) tos
          (Member-firsts_once v (map (λ t. (t, build_payload ctx triggers)) tos) m)
    fan_out_decisions-Member session triggers tos by_subtask v m =
        subtask_decisions-Member v tos (parse_subtasks items_of (transcript ctx session)) m

    act-Member :
        (session : SessionId) (triggers : List SessionId) (result : Result ConfigError Action)
        (v : SessionId)
        → Member v (targets_of (act items_of ctx session triggers result))
        → (a : Action) × (result ≡ ok a) × Member v (action_targets a)
    unfolding act action_targets
    act-Member session triggers (ok (Action.route_to to)) v m = (Action.route_to to, refl, m)
    act-Member session triggers (ok (Action.fan_out f)) v m =
        (Action.fan_out f, refl, fan_out_decisions-Member session triggers f.to f.split v m)
    act-Member session triggers (ok (Action.collect c)) v m = absurd m
    act-Member session triggers (err e) v m = absurd m

    route_if-Member :
        (applied : Bool) (session : SessionId) (r : Route) (v : SessionId)
        → applies ctx session (trigger_sessions r) ≡ applied
        → Member v (
            targets_of
              (if applied then act items_of ctx session (trigger_sessions r) (action r) else []))
        → Member session (trigger_sessions r)
          × All (λ t. contains ctx.done t ≡ true) (trigger_sessions r)
          × LeadsTo r v
    route_if-Member true session r v e m =
        let h = applies_lem session (trigger_sessions r) e in
        (h.0, h.1, act-Member session (trigger_sessions r) (action r) v m)
    route_if-Member false session r v e m = absurd m

    -- A finished session sends work only along routes that it triggers, whose triggers are all done,
    -- and only to the targets of such a route.
    pub static_decisions-Fires :
        (session : SessionId) (routes : List Route) (v : SessionId)
        → Member v (targets_of (static_decisions items_of ctx session routes))
        → Fires ctx.done routes session v
    unfolding static_decisions route_decisions
    static_decisions-Fires session [] v m = absurd m
    static_decisions-Fires session (r ∷ rs) v m =
        elim (Member-append_cases v (targets_of (route_decisions items_of ctx session r))
          (targets_of (static_decisions items_of ctx session rs))
          (rw
            (targets_of-append (route_decisions items_of ctx session r)
              (static_decisions items_of ctx session rs))
            at m)) [
              | inl n ↦
                  inl
                    (route_if-Member (applies ctx session (trigger_sessions r)) session r v refl n)
              | inr n ↦ inr (static_decisions-Fires session rs v n)
            ]

Fires-Feeds :
    (done : List SessionId) (routes : List Route) (u v : SessionId)
    → Fires done routes u v
    → Feeds routes u v
Fires-Feeds done (r ∷ rs) u v (inl h) = inl (h.0, h.2)
Fires-Feeds done (r ∷ rs) u v (inr h) = inr (Fires-Feeds done rs u v h)
Fires-Feeds done [] u v h = absurd h

-- In a fleet that `validate` accepts, a finished session sends work only to sessions of the fleet,
-- and never to one from which the routes lead back to it, itself included.
pub static_decisions_forward :
    {x : Foreign} (items_of : String → Option (List String)) (ctx : RoutingContext x)
    (fleet : Fleet x) (session v : SessionId)
    → validate fleet ≡ ok tt
    → Member v (targets_of (static_decisions items_of ctx session fleet.routes))
    → Member v (keys fleet.sessions) × (v ≢ session) × ¬ Walk (Feeds fleet.routes) v session
static_decisions_forward items_of ctx fleet session v h m =
    let sound = (validate_iff fleet).0 h in
    let feeds =
      Fires-Feeds ctx.done fleet.routes session v
        (static_decisions-Fires ctx items_of session fleet.routes v m) in
    (
      (IsRoute-IsClosed fleet sound.routes).targets session v feeds,
      λ e. sound.acyclic session (step (subst (λ w. Feeds fleet.routes session w) e feeds)),
      λ w. sound.acyclic session (Walk-cons (Feeds fleet.routes) session v session feeds w),
    )
