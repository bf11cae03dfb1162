-- ===== src/Executor/Tracked.antt =====
-- The `spawned` set and the registry's map are kept in step.
use cap_protocol.Prelude.{
  Bool, true, false, Option, none, some, ◌≡◌, refl, ap, ◌∙◌, sym, Result, ok, err, lookup, contains,
  insert_key, contains-insert_key, if◌then◌else◌, arith,
}
use cap_protocol.Core.{Foreign, ClientFrame}
use cap_protocol.Config.{SessionId, SessionSpec, DriverKind, PermissionPolicy, OrchestratorError}
use cap_protocol.Config.Drivers.{driver_kind}
use cap_protocol.Registry.{Platform, Registry, is_live, spawn_with_mode}
use cap_protocol.Registry.Held.{Unmoved, Joined, Spawned, spawn_with_mode-Spawned, route-Unmoved}
use cap_protocol.Executor.{
  Setup, Run, deliver, policy_for, spawn_config, settle_spawn, do_spawn, spawn_configured,
  spawn_found, spawn,
}

module _ {x : Foreign} {p : Platform} where
  -- The live sessions are those in `spawned`, and only they hold worktrees.
  pub record IsTracked (s : Run x p) : Type 0 where
    pub live : (j : SessionId) → is_live j s.registry ≡ contains s.spawned j
    pub owned : (j : SessionId) → contains s.registry.held j ≡ true → contains s.spawned j ≡ true

  abbrev pub Moved : Bool → SessionId → Registry x p → Registry x p → Type 0
  Moved true id r t = Joined id r t
  Moved false id r t = Unmoved r t

  -- What a spawn of `id` does, which succeeds or not.
  pub record Spawns (id : SessionId) (success : Bool) (s t : Run x p) : Type 0 where
    pub moved : Moved success id s.registry t.registry
    pub spawned : t.spawned ≡ (if success then insert_key id s.spawned else s.spawned)
    pub done : t.done ≡ s.done
    pub failed : t.failed ≡ s.failed

  pub Unmoved-refl : (r : Registry x p) → Unmoved r r
  Unmoved-refl r = record { live = λ j. refl; owned = λ j h. h }

  pub Unmoved-IsTracked :
      (s t : Run x p)
      → Unmoved s.registry t.registry
      → t.spawned ≡ s.spawned
      → IsTracked s
      → IsTracked t
  Unmoved-IsTracked s t m e h = record {
    live = λ j. m.live j ∙ h.live j ∙ ap (λ ids. contains ids j) (sym e);
    owned = λ j k. rw e (h.owned j (m.owned j k));
  }

  Joined-IsTracked :
      (id : SessionId) (s t : Run x p)
      → Joined id s.registry t.registry
      → t.spawned ≡ insert_key id s.spawned
      → IsTracked s
      → IsTracked t
  Joined-IsTracked id s t m e h = record {
    live = λ j. rw (e, m.live j, contains-insert_key, h.live j) refl;
    owned = λ j k. rw (e, contains-insert_key) (ground (arith, m.owned j, h.owned j));
  }

  pub Spawns-IsTracked :
      (id : SessionId) (success : Bool) (s t : Run x p)
      → Spawns id success s t
      → IsTracked s
      → IsTracked t
  Spawns-IsTracked id true s t m = Joined-IsTracked id s t m.moved m.spawned
  Spawns-IsTracked id false s t m = Unmoved-IsTracked s t m.moved m.spawned

  pub deliver-IsTracked :
      (to : SessionId) (frame : ClientFrame x) (s : Run x p)
      → IsTracked s
      → IsTracked (deliver to frame s)
  unfolding deliver
  deliver-IsTracked to frame s h = Unmoved-IsTracked s _ (route-Unmoved to frame s.registry) refl h

  module _ (setup : Setup x p) where
    settle_spawn-Spawns :
        (id : SessionId) (result : Result OrchestratorError (Unit {0})) (s : Run x p)
        (r : Registry x p)
        → Spawned id result s.registry r
        → let t = settle_spawn setup id result (record s { registry = r }) in Spawns id t.0 s t.1
    unfolding settle_spawn
    settle_spawn-Spawns id (ok _) s r h = record {
      moved = h;
      spawned = refl;
      done = refl;
      failed = refl;
    }
    settle_spawn-Spawns id (err e) s r h = record {
      moved = h;
      spawned = refl;
      done = refl;
      failed = refl;
    }

    pub do_spawn-Spawns :
        (id : SessionId) (kind : DriverKind) (policy : PermissionPolicy) (s : Run x p)
        → let t = do_spawn setup id kind policy s in Spawns id t.0 s t.1
    unfolding do_spawn
    do_spawn-Spawns id kind policy s =
        let made =
          spawn_with_mode id kind policy setup.spec.base_branch setup.chat_mode
            (spawn_config setup id) s.registry in
        settle_spawn-Spawns id made.0 s made.1 (
          spawn_with_mode-Spawned id kind policy setup.spec.base_branch setup.chat_mode
            (spawn_config setup id) s.registry)

    Spawns-none :
        (id : SessionId) (s t : Run x p)
        → t.registry ≡ s.registry
        → t.spawned ≡ s.spawned
        → t.done ≡ s.done
        → t.failed ≡ s.failed
        → Spawns id false s t
    Spawns-none id s t e f g h = record {
      moved = rw e (Unmoved-refl s.registry);
      spawned = f;
      done = g;
      failed = h;
    }

    spawn_configured-Spawns :
        (id : SessionId) (kind : Option DriverKind)
        (policy : Result OrchestratorError PermissionPolicy) (s : Run x p)
        → let t = spawn_configured setup id kind policy s in Spawns id t.0 s t.1
    unfolding spawn_configured
    spawn_configured-Spawns id none policy s = Spawns-none id s _ refl refl refl refl
    spawn_configured-Spawns id (some kind) (err e) s = Spawns-none id s _ refl refl refl refl
    spawn_configured-Spawns id (some kind) (ok policy) s = do_spawn-Spawns id kind policy s

    spawn_found-Spawns :
        (id : SessionId) (spec : Option SessionSpec) (s : Run x p)
        → let t = spawn_found setup id spec s in Spawns id t.0 s t.1
    unfolding spawn_found
    spawn_found-Spawns id none s = Spawns-none id s _ refl refl refl refl
    spawn_found-Spawns id (some spec) s =
        spawn_configured-Spawns id (driver_kind setup.parse_url setup.from_manifest spec)
          (policy_for setup id) s

    pub spawn-Spawns :
        (id : SessionId) (s : Run x p) → let t = spawn setup id s in Spawns id t.0 s t.1
    unfolding spawn
    spawn-Spawns id s = spawn_found-Spawns id (lookup id setup.spec.sessions) s
