-- ===== src/Executor/Extends.antt =====
-- What the operations add to the events sent and to the audit log.
use cap_protocol.Prelude.{
  Bool, true, false, Option, none, some, List, [], ◌∷◌, ◌++◌, ◌≡◌, refl, ap, ◌∙◌, sym, All, Result,
  ok, err, lookup, if◌then◌else◌,
}
use mathlib.Core.List.{append_assoc, append-nil}
use cap_protocol.Core.{Foreign, ClientFrame}
use cap_protocol.Config.{SessionId, SessionSpec, DriverKind, PermissionPolicy, OrchestratorError}
use cap_protocol.Event.{OrchestratorEvent, Failure}
use cap_protocol.Audit.{AuditLog, push, record_route, route_pairs}
use cap_protocol.Audit.Order.{route_pairs-append}
use cap_protocol.Registry.{is_live, Platform, spawn_with_mode}
use cap_protocol.Executor.{
  Setup, Run, Fire, send, deliver, audit_route, settle_spawn, do_spawn, spawn, spawn_configured,
  spawn_found, forward, forward_live, fire_one, fire_all, spawn_config,
}

-- The routes that the consumer is told of, in order.
abbrev pub routed_pairs : {x : Foreign} → List (OrchestratorEvent x) → List (SessionId × SessionId)
routed_pairs [] = []
routed_pairs (OrchestratorEvent.routed from to ∷ es) = (from, to) ∷ routed_pairs es
routed_pairs (_ ∷ es) = routed_pairs es

-- Every event but `FleetComplete`.
abbrev pub IsOpen : {x : Foreign} → OrchestratorEvent x → Type 0
IsOpen OrchestratorEvent.fleet_complete = ⊥
IsOpen _ = Unit

-- A failure to start the session: it could not be spawned, or has no driver.
abbrev pub IsSpawnFailure : {x : Foreign} → SessionId → Failure x → Type 0
IsSpawnFailure id (Failure.unconfigured j) = j ≡ id
IsSpawnFailure id (Failure.spawning e) = Unit
IsSpawnFailure id _ = ⊥

pub routed_pairs-append :
    {x : Foreign} (es fs : List (OrchestratorEvent x))
    → routed_pairs (es ++ fs) ≡ routed_pairs es ++ routed_pairs fs
routed_pairs-append [] fs = refl
routed_pairs-append (OrchestratorEvent.routed from to ∷ es) fs =
    ap (λ rest. (from, to) ∷ rest) (routed_pairs-append es fs)
routed_pairs-append (_ ∷ es) fs = routed_pairs-append es fs

All-append :
    {x : Foreign} (P : OrchestratorEvent x → Type 0) (es fs : List (OrchestratorEvent x))
    → All P es
    → All P fs
    → All P (es ++ fs)
All-append P [] fs h k = k
All-append P (e ∷ es) fs h k = (h.0, All-append P es fs h.1 k)

module _ {x : Foreign} {p : Platform} where
  -- `t` comes after `s`: events were added that satisfy `P`, none of them the end of the fleet, and
  -- a route was recorded for each `Routed` among them, in the same order.
  pub record Extends (P : OrchestratorEvent x → Type 0) (s t : Run x p) : Type 0 where
    pub added : List (OrchestratorEvent x)
    pub out : t.out ≡ s.out ++ added
    pub audited : route_pairs t.audit.records ≡ route_pairs s.audit.records ++ routed_pairs added
    pub opens : All IsOpen added
    pub each : All P added

  module _ (P : OrchestratorEvent x → Type 0) where
    -- A step that sends and records nothing.
    pub Extends-still : (s t : Run x p) → t.out ≡ s.out → t.audit ≡ s.audit → Extends P s t
    Extends-still s t e f = record {
      added = [];
      out = e ∙ sym (append-nil s.out);
      audited = ap (λ (a : AuditLog). route_pairs a.records) f ∙ sym (append-nil _);
      opens = tt;
      each = tt;
    }

    pub Extends-trans : (s t r : Run x p) → Extends P s t → Extends P t r → Extends P s r
    Extends-trans s t r h k = record {
      added = h.added ++ k.added;
      out = rw (k.out, h.out) (append_assoc s.out h.added k.added);
      audited =
          rw (k.audited, h.audited)
            (rw (routed_pairs-append h.added k.added) (
              append_assoc (route_pairs s.audit.records) (routed_pairs h.added)
                (routed_pairs k.added)));
      opens = All-append IsOpen h.added k.added h.opens k.opens;
      each = All-append P h.added k.added h.each k.each;
    }

    -- One event that is no route.
    pub Extends-send :
        (e : OrchestratorEvent x) (s : Run x p)
        → routed_pairs (e ∷ []) ≡ []
        → IsOpen e
        → P e
        → Extends P s (send e s)
    Extends-send e s none_routed open_ holds = record {
      added = e ∷ [];
      out = refl;
      audited = rw none_routed (sym (append-nil _));
      opens = (open_, tt);
      each = (holds, tt);
    }

    -- `Routed` with its record.
    Extends-forward :
        (from to : SessionId) (frame : ClientFrame x) (s : Run x p)
        → P (OrchestratorEvent.routed from to)
        → Extends P s (forward from to frame s)
    unfolding forward deliver audit_route record_route push
    Extends-forward from to frame s holds = record {
      added = OrchestratorEvent.routed from to ∷ [];
      out = refl;
      audited = rw route_pairs-append (unfold route_pairs in refl);
      opens = (tt, tt);
      each = (holds, tt);
    }

    pub Extends-fail :
        (id : SessionId) (f : Failure x) (s : Run x p)
        → P (OrchestratorEvent.session_failed id f)
        → Extends P s (send (OrchestratorEvent.session_failed id f) s)
    Extends-fail id f s h = Extends-send (OrchestratorEvent.session_failed id f) s refl tt h

    -- A spawn sends at most a failure.
    module _
        (fails : (id : SessionId) (f : Failure x)
          → IsSpawnFailure id f
          → P (OrchestratorEvent.session_failed id f)) where
      module _ (setup : Setup x p) where
        settle_spawn-Extends :
            (id : SessionId) (result : Result OrchestratorError (Unit {0})) (s t : Run x p)
            → t.out ≡ s.out
            → t.audit ≡ s.audit
            → Extends P s (settle_spawn setup id result t).1
        unfolding settle_spawn
        settle_spawn-Extends id (ok _) s t e f = Extends-still s _ e f
        settle_spawn-Extends id (err error) s t e f =
            Extends-trans s t _ (Extends-still s t e f)
              (Extends-fail id (Failure.spawning error) t (fails id _ tt))

        do_spawn-Extends :
            (id : SessionId) (kind : DriverKind) (policy : PermissionPolicy) (s : Run x p)
            → Extends P s (do_spawn setup id kind policy s).1
        unfolding do_spawn
        do_spawn-Extends id kind policy s =
            let spawned =
              spawn_with_mode id kind policy setup.spec.base_branch setup.chat_mode
                (spawn_config setup id) s.registry in
            settle_spawn-Extends id spawned.0 s (record s { registry = spawned.1 }) refl refl

        spawn_configured-Extends :
            (id : SessionId) (kind : Option DriverKind)
            (policy : Result OrchestratorError PermissionPolicy) (s : Run x p)
            → Extends P s (spawn_configured setup id kind policy s).1
        unfolding spawn_configured
        spawn_configured-Extends id none policy s =
            Extends-fail id (Failure.unconfigured id) s (fails id _ refl)
        spawn_configured-Extends id (some kind) (err e) s =
            Extends-fail id (Failure.spawning e) s (fails id _ tt)
        spawn_configured-Extends id (some kind) (ok policy) s = do_spawn-Extends id kind policy s

        spawn_found-Extends :
            (id : SessionId) (spec : Option SessionSpec) (s : Run x p)
            → Extends P s (spawn_found setup id spec s).1
        unfolding spawn_found
        spawn_found-Extends id none s = Extends-still s s refl refl
        spawn_found-Extends id (some spec) s = spawn_configured-Extends id _ _ s

        pub spawn-Extends : (id : SessionId) (s : Run x p) → Extends P s (spawn setup id s).1
        unfolding spawn
        spawn-Extends id s = spawn_found-Extends id (lookup id setup.spec.sessions) s

        -- What one completed session makes the executor send, after the announcement.
        module _ (from : SessionId)
            (routes : (to : SessionId) → P (OrchestratorEvent.routed from to))
            (selects : (ids : List SessionId) → P (OrchestratorEvent.await_selection ids)) where
          forward_if-Extends :
              (spawned : Bool) (to : SessionId) (frame : ClientFrame x) (s t : Run x p)
              → Extends P s t
              → Extends P s (if spawned then forward from to frame t else t)
          forward_if-Extends true to frame s t h =
              Extends-trans s t _ h (Extends-forward from to frame t (routes to))
          forward_if-Extends false to frame s t h = h

          forward_live-Extends :
              (live : Bool) (spawn_it : Run x p → Bool × Run x p) (to : SessionId)
              (frame : ClientFrame x) (s : Run x p)
              → Extends P s (spawn_it s).1
              → Extends P s (forward_live live spawn_it from to frame s)
          unfolding forward_live
          forward_live-Extends true spawn_it to frame s h =
              Extends-forward from to frame s (routes to)
          forward_live-Extends false spawn_it to frame s h =
              forward_if-Extends (spawn_it s).0 to frame s (spawn_it s).1 h

          fire_one-Extends : (f : Fire x) (s : Run x p) → Extends P s (fire_one setup from f s)
          unfolding fire_one
          fire_one-Extends (Fire.route to frame) s =
              forward_live-Extends (is_live to s.registry) (spawn setup to) to frame s
                (spawn-Extends to s)
          fire_one-Extends (Fire.dynamic id frame kind permissions) s =
              forward_live-Extends (is_live id s.registry) (do_spawn setup id kind permissions) id
                frame s (do_spawn-Extends id kind permissions s)
          fire_one-Extends (Fire.select ids) s =
              Extends-send (OrchestratorEvent.await_selection ids) s refl tt (selects ids)

          pub fire_all-Extends :
              (fs : List (Fire x)) (s : Run x p) → Extends P s (fire_all setup from fs s)
          unfolding fire_all
          fire_all-Extends [] s = Extends-still s s refl refl
          fire_all-Extends (f ∷ fs) s =
              Extends-trans s (fire_one setup from f s) _ (fire_one-Extends f s)
                (fire_all-Extends fs (fire_one setup from f s))
