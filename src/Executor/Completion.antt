-- ===== src/Executor/Completion.antt =====
-- What `on_session_done` reports of one finished session.
use cap_protocol.Prelude.{
  Bool, true, false, List, [], ◌∷◌, ◌++◌, ◌≡◌, refl, ◌∙◌, sym, All, Some, ◌⊎◌, inl, inr, insert_key,
}
use mathlib.Core.List.{append_assoc, append-nil}
use cap_protocol.Core.{Foreign, StopReason}
use cap_protocol.Config.{SessionId}
use cap_protocol.Event.{OrchestratorEvent, Failure}
use cap_protocol.Audit.{route_pairs}
use cap_protocol.Registry.{Platform}
use cap_protocol.Routing.{RouteDecision}
use cap_protocol.Executor.{
  Setup, Run, announce, context_of, collect_fires, routing_failed, on_session_done,
}
use cap_protocol.Executor.Extends.{
  routed_pairs, IsOpen, IsSpawnFailure, Extends, Extends-still, Extends-trans, fire_all-Extends,
}

-- What may come after the outcome of the session `from`: routes from it, requests for a choice, and
-- sessions that could not be started.
abbrev pub IsAftermath : {x : Foreign} → SessionId → OrchestratorEvent x → Type 0
IsAftermath from (OrchestratorEvent.routed source to) = source ≡ from
IsAftermath from (OrchestratorEvent.await_selection ids) = Unit
IsAftermath from (OrchestratorEvent.session_failed id f) = IsSpawnFailure id f
IsAftermath from _ = ⊥

-- The decisions that are errors, and those that are none
abbrev pub IsError : RouteDecision → Type 0
IsError (RouteDecision.error message) = Unit
IsError _ = ⊥

abbrev pub IsNoError : RouteDecision → Type 0
IsNoError (RouteDecision.error message) = ⊥
IsNoError _ = Unit

-- `routing_failed` tells whether one of the decisions is an error.
Tells : Bool → List RouteDecision → Type 0
Tells true ds = Some IsError ds
Tells false ds = All IsNoError ds

Tells-then :
    (b : Bool) (d : RouteDecision) (ds : List RouteDecision)
    → IsNoError d
    → Tells b ds
    → Tells b (d ∷ ds)
unfolding Tells
Tells-then true d ds n h = inr h
Tells-then false d ds n h = (n, h)

routing_failed-Tells : (ds : List RouteDecision) → Tells (routing_failed ds) ds
unfolding routing_failed Tells
routing_failed-Tells [] = tt
routing_failed-Tells (RouteDecision.error message ∷ ds) = inl tt
routing_failed-Tells (RouteDecision.route target payload ∷ ds) =
    Tells-then (routing_failed ds) (RouteDecision.route target payload) ds tt
      (routing_failed-Tells ds)
routing_failed-Tells (RouteDecision.dynamic_route target payload driver permissions ∷ ds) =
    Tells-then (routing_failed ds) (RouteDecision.dynamic_route target payload driver permissions)
      ds tt (routing_failed-Tells ds)
routing_failed-Tells (RouteDecision.fan_out targets ∷ ds) =
    Tells-then (routing_failed ds) (RouteDecision.fan_out targets) ds tt (routing_failed-Tells ds)
routing_failed-Tells (RouteDecision.select candidates ∷ ds) =
    Tells-then (routing_failed ds) (RouteDecision.select candidates) ds tt (routing_failed-Tells ds)
routing_failed-Tells (RouteDecision.none ∷ ds) =
    Tells-then (routing_failed ds) RouteDecision.none ds tt (routing_failed-Tells ds)

-- The outcome that is sent first.
abbrev verdict : {x : Foreign} → SessionId → StopReason → Bool → OrchestratorEvent x
verdict from stop true = OrchestratorEvent.session_failed from Failure.bad_subtasks
verdict from stop false = OrchestratorEvent.session_done from stop

verdict-unrouted :
    (x : Foreign) (from : SessionId) (stop : StopReason) (bad : Bool)
    (pairs : List (SessionId × SessionId))
    → pairs ≡ pairs ++ routed_pairs {x = x} (verdict from stop bad ∷ [])
verdict-unrouted x from stop true pairs = sym (append-nil pairs)
verdict-unrouted x from stop false pairs = sym (append-nil pairs)

verdict-IsOpen :
    (x : Foreign) (from : SessionId) (stop : StopReason) (bad : Bool)
    → IsOpen {x = x} (verdict from stop bad)
verdict-IsOpen x from stop true = tt
verdict-IsOpen x from stop false = tt

module _ {x : Foreign} {p : Platform} where
  pub record Completed (from : SessionId) (outcome : OrchestratorEvent x) (s t : Run x p)
      : Type 0 where
    pub added : List (OrchestratorEvent x)
    pub out : t.out ≡ s.out ++ outcome ∷ added
    pub aftermath : All (IsAftermath from) added
    pub audited : route_pairs t.audit.records ≡ route_pairs s.audit.records ++ routed_pairs added

  announce-out :
      (setup : Setup x p) (from : SessionId) (stop : StopReason) (bad : Bool) (s : Run x p)
      → (announce setup from stop bad s).out ≡ s.out ++ verdict from stop bad ∷ []
  unfolding announce
  announce-out setup from stop true s = refl
  announce-out setup from stop false s = refl

  announce-audit :
      (setup : Setup x p) (from : SessionId) (stop : StopReason) (bad : Bool) (s : Run x p)
      → (announce setup from stop bad s).audit ≡ s.audit
  unfolding announce
  announce-audit setup from stop true s = refl
  announce-audit setup from stop false s = refl

  announce-Extends :
      (setup : Setup x p) (from : SessionId) (stop : StopReason) (bad : Bool) (s : Run x p)
      → Extends (λ e. Unit) s (announce setup from stop bad s)
  announce-Extends setup from stop bad s = record {
    added = verdict from stop bad ∷ [];
    out = announce-out setup from stop bad s;
    audited = rw (announce-audit setup from stop bad s) (verdict-unrouted x from stop bad _);
    opens = (verdict-IsOpen x from stop bad, tt);
    each = (tt, tt);
  }

  -- The decisions that the strategy takes on the finished session.
  abbrev pub decisions_for : Setup x p → SessionId → StopReason → Run x p → List RouteDecision
  decisions_for setup from stop s =
      (setup.strategy (context_of setup (record s { done = insert_key from s.done })) from stop
        s.registry.world).0

  on_session_done-Completed :
      (setup : Setup x p) (from : SessionId) (stop : StopReason) (s : Run x p)
      → Completed from
          (verdict from stop (routing_failed (decisions_for setup from stop s)))
          s
          (on_session_done setup from stop s).1
  unfolding on_session_done
  on_session_done-Completed setup from stop s =
      let marked : Run x p = record s { done = insert_key from s.done } in
      let answer = setup.strategy (context_of setup marked) from stop s.registry.world in
      let asked : Run x p = record marked { registry = record s.registry { world = answer.1 } } in
      let bad = routing_failed answer.0 in
      let told = announce setup from stop bad asked in
      let h =
        fire_all-Extends (IsAftermath from) (λ id f h. h) setup from (λ to. refl) (λ ids. tt)
          (collect_fires answer.0) told in
      record {
        added = h.added;
        out =
            h.out
            ∙ rw (announce-out setup from stop bad asked)
                (append_assoc s.out (verdict from stop bad ∷ []) h.added);
        aftermath = h.each;
        audited = rw (announce-audit setup from stop bad asked) at h.audited;
      }

  -- How the session `from` ended, given the strategy's decisions: it failed if one of them is an error, and it
  -- is done if none is.
  abbrev pub IsReported : List RouteDecision → SessionId → StopReason → Run x p → Run x p → Type 0
  IsReported ds from stop s t =
      (Some IsError ds
        × Completed from (OrchestratorEvent.session_failed from Failure.bad_subtasks) s t)
      ⊎ (All IsNoError ds × Completed from (OrchestratorEvent.session_done from stop) s t)

  reported :
      (bad : Bool) (ds : List RouteDecision) (from : SessionId) (stop : StopReason) (s t : Run x p)
      → Tells bad ds
      → Completed from (verdict from stop bad) s t
      → IsReported ds from stop s t
  unfolding Tells
  reported true ds from stop s t h c = inl (h, c)
  reported false ds from stop s t h c = inr (h, c)

  -- The consumer is first told how the session ended: that it failed if one of the strategy's
  -- decisions is an error, that it is done if none is. What else it is told is routes from this
  -- session, requests for a choice and failures to start a session. The audit log gains exactly the
  -- routes told, in that order.
  pub on_session_done_lem :
      (setup : Setup x p) (from : SessionId) (stop : StopReason) (s : Run x p)
      → IsReported
          (decisions_for setup from stop s)
          from
          stop
          s
          (on_session_done setup from stop s).1
  on_session_done_lem setup from stop s =
      let ds = decisions_for setup from stop s in
      reported (routing_failed ds) ds from stop s (on_session_done setup from stop s).1
        (routing_failed-Tells ds) (on_session_done-Completed setup from stop s)

  -- The weaker statement that a run is built from.
  pub on_session_done-Extends :
      (setup : Setup x p) (from : SessionId) (stop : StopReason) (s : Run x p)
      → Extends (λ e. Unit) s (on_session_done setup from stop s).1
  unfolding on_session_done
  on_session_done-Extends setup from stop s =
      let marked : Run x p = record s { done = insert_key from s.done } in
      let answer = setup.strategy (context_of setup marked) from stop s.registry.world in
      let asked : Run x p = record marked { registry = record s.registry { world = answer.1 } } in
      let told = announce setup from stop (routing_failed answer.0) asked in
      Extends-trans (λ e. Unit) s told _
        (Extends-trans (λ e. Unit) s asked told (Extends-still (λ e. Unit) s asked refl refl)
          (announce-Extends setup from stop (routing_failed answer.0) asked))
        (fire_all-Extends (λ e. Unit) (λ id f h. tt) setup from (λ to. tt) (λ ids. tt)
          (collect_fires answer.0) told)
