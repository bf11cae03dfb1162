-- ===== src/Executor/Kept.antt =====
-- Routing, spawning and controls leave the cost and the transcripts alone.
use cap_protocol.Prelude.{
  Bool, true, false, Option, none, some, List, [], ◌∷◌, ◌≡◌, refl, ◌∙◌, Result, ok, err, lookup,
  insert_key, if◌then◌else◌,
}
use cap_protocol.Core.{Foreign, ClientFrame, StopReason}
use cap_protocol.Config.{SessionId, SessionSpec, DriverKind, PermissionPolicy, OrchestratorError}
use cap_protocol.Config.Drivers.{driver_kind}
use cap_protocol.Event.{OrchestratorControl}
use cap_protocol.Registry.{Platform, is_live, spawn_with_mode}
use cap_protocol.Executor.{
  Setup, Run, Fire, deliver, audit_route, policy_for, spawn_config, settle_spawn, do_spawn,
  spawn_configured, spawn_found, spawn, forward, forward_live, fire_one, fire_all, announce,
  context_of, collect_fires, routing_failed, on_session_done, on_control,
}

module _ {x : Foreign} {p : Platform} where
  pub record Keeps (s t : Run x p) : Type 0 where
    pub usage : t.usage_cost_usd ≡ s.usage_cost_usd
    pub buffers : t.buffers ≡ s.buffers

  pub same :
      (s t : Run x p) → t.usage_cost_usd ≡ s.usage_cost_usd → t.buffers ≡ s.buffers → Keeps s t
  same s t e f = record { usage = e; buffers = f }

  pub Keeps-trans : (s t r : Run x p) → Keeps s t → Keeps t r → Keeps s r
  Keeps-trans s t r h k = record { usage = k.usage ∙ h.usage; buffers = k.buffers ∙ h.buffers }

  forward-Keeps :
      (from to : SessionId) (frame : ClientFrame x) (s : Run x p)
      → Keeps s (forward from to frame s)
  unfolding forward audit_route deliver
  forward-Keeps from to frame s = same s _ refl refl

  forward_if-Keeps :
      (spawned : Bool) (from to : SessionId) (frame : ClientFrame x) (s t : Run x p)
      → Keeps s t
      → Keeps s (if spawned then forward from to frame t else t)
  forward_if-Keeps true from to frame s t h = Keeps-trans s t _ h (forward-Keeps from to frame t)
  forward_if-Keeps false from to frame s t h = h

  forward_live-Keeps :
      (live : Bool) (spawn_it : Run x p → Bool × Run x p) (from to : SessionId)
      (frame : ClientFrame x) (s : Run x p)
      → Keeps s (spawn_it s).1
      → Keeps s (forward_live live spawn_it from to frame s)
  unfolding forward_live
  forward_live-Keeps true spawn_it from to frame s h = forward-Keeps from to frame s
  forward_live-Keeps false spawn_it from to frame s h =
      forward_if-Keeps (spawn_it s).0 from to frame s (spawn_it s).1 h

  module _ (setup : Setup x p) where
    settle_spawn-Keeps :
        (id : SessionId) (result : Result OrchestratorError (Unit {0})) (s t : Run x p)
        → Keeps s t
        → Keeps s (settle_spawn setup id result t).1
    unfolding settle_spawn
    settle_spawn-Keeps id (ok _) s t h = same s _ h.usage h.buffers
    settle_spawn-Keeps id (err e) s t h = same s _ h.usage h.buffers

    do_spawn-Keeps :
        (id : SessionId) (kind : DriverKind) (policy : PermissionPolicy) (s : Run x p)
        → Keeps s (do_spawn setup id kind policy s).1
    unfolding do_spawn
    do_spawn-Keeps id kind policy s =
        let made =
          spawn_with_mode id kind policy setup.spec.base_branch setup.chat_mode
            (spawn_config setup id) s.registry in
        let t : Run x p = record s { registry = made.1 } in
        settle_spawn-Keeps id made.0 s t (same s t refl refl)

    spawn_configured-Keeps :
        (id : SessionId) (kind : Option DriverKind)
        (policy : Result OrchestratorError PermissionPolicy) (s : Run x p)
        → Keeps s (spawn_configured setup id kind policy s).1
    unfolding spawn_configured
    spawn_configured-Keeps id none policy s = same s _ refl refl
    spawn_configured-Keeps id (some kind) (err e) s = same s _ refl refl
    spawn_configured-Keeps id (some kind) (ok policy) s = do_spawn-Keeps id kind policy s

    spawn_found-Keeps :
        (id : SessionId) (spec : Option SessionSpec) (s : Run x p)
        → Keeps s (spawn_found setup id spec s).1
    unfolding spawn_found
    spawn_found-Keeps id none s = same s s refl refl
    spawn_found-Keeps id (some spec) s =
        spawn_configured-Keeps id (driver_kind setup.parse_url setup.from_manifest spec)
          (policy_for setup id) s

    pub spawn-Keeps : (id : SessionId) (s : Run x p) → Keeps s (spawn setup id s).1
    unfolding spawn
    spawn-Keeps id s = spawn_found-Keeps id (lookup id setup.spec.sessions) s

    fire_one-Keeps :
        (from : SessionId) (f : Fire x) (s : Run x p) → Keeps s (fire_one setup from f s)
    unfolding fire_one
    fire_one-Keeps from (Fire.route to frame) s =
        forward_live-Keeps (is_live to s.registry) (spawn setup to) from to frame s
          (spawn-Keeps to s)
    fire_one-Keeps from (Fire.dynamic id frame kind policy) s =
        forward_live-Keeps (is_live id s.registry) (do_spawn setup id kind policy) from id frame s
          (do_spawn-Keeps id kind policy s)
    fire_one-Keeps from (Fire.select ids) s = same s _ refl refl

    fire_all-Keeps :
        (from : SessionId) (fs : List (Fire x)) (s : Run x p) → Keeps s (fire_all setup from fs s)
    unfolding fire_all
    fire_all-Keeps from [] s = same s s refl refl
    fire_all-Keeps from (f ∷ fs) s =
        Keeps-trans s (fire_one setup from f s) _ (fire_one-Keeps from f s)
          (fire_all-Keeps from fs (fire_one setup from f s))

    announce-Keeps :
        (from : SessionId) (stop : StopReason) (bad : Bool) (s t : Run x p)
        → Keeps s t
        → Keeps s (announce setup from stop bad t)
    unfolding announce
    announce-Keeps from stop true s t h = same s _ h.usage h.buffers
    announce-Keeps from stop false s t h = same s _ h.usage h.buffers

    pub on_session_done-Keeps :
        (from : SessionId) (stop : StopReason) (s : Run x p)
        → Keeps s (on_session_done setup from stop s).1
    unfolding on_session_done
    on_session_done-Keeps from stop s =
        let marked : Run x p = record s { done = insert_key from s.done } in
        let answer = setup.strategy (context_of setup marked) from stop s.registry.world in
        let asked : Run x p = record marked { registry = record s.registry { world = answer.1 } } in
        let told = announce setup from stop (routing_failed answer.0) asked in
        Keeps-trans s told _
          (announce-Keeps from stop (routing_failed answer.0) s asked (same s asked refl refl))
          (fire_all-Keeps from (collect_fires answer.0) told)

    pub on_control-Keeps :
        (c : OrchestratorControl x) (s : Run x p) → Keeps s (on_control setup c s)
    unfolding on_control deliver
    on_control-Keeps (OrchestratorControl.decision a b c) s = same s _ refl refl
    on_control-Keeps (OrchestratorControl.ask_user_response a b c) s = same s _ refl refl
    on_control-Keeps OrchestratorControl.cancel s = same s _ refl refl
    on_control-Keeps (OrchestratorControl.reverse_rpc_result a b c) s = same s _ refl refl
    on_control-Keeps (OrchestratorControl.select a) s = same s s refl refl
    on_control-Keeps (OrchestratorControl.user_message a b) s = same s _ refl refl
