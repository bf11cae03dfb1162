-- ===== src/Executor/Leaks.antt =====
-- No worktree is left behind by a run.
use cap_protocol.Prelude.{
  Bool, true, false, not, ◌&&◌, ◌||◌, List, [], ◌∷◌, ◌≡◌, refl, ◌∙◌, contains, contains-remove_key,
  all, lookup, arith, if◌then◌else◌,
}
use cap_protocol.Core.{Foreign}
use cap_protocol.Config.{SessionId, start_sessions}
use cap_protocol.Event.{OrchestratorEvent}
use cap_protocol.Registry.{Platform, Registry, is_live, cleanup_worktree, shutdown}
use cap_protocol.Executor.{Setup, Run, send, deliver, task_prompt, fleet_complete, spawn}
use cap_protocol.Executor.Loop.{
  Input, Progress, going, broke, run_loop, cleanup_all, wind_down, start_all, fresh, drive_from,
  drive, state_of,
}
use cap_protocol.Executor.Tracked.{IsTracked, Spawns-IsTracked, spawn-Spawns, deliver-IsTracked}
use cap_protocol.Executor.Steps.{run_loop-IsTracked}

module _ {x : Foreign} {p : Platform} where
  -- `cleanup` was called for every worktree that was created, and no session is live.
  abbrev pub IsReleased : Run x p → Type 0
  IsReleased s = ((j : SessionId) → contains s.registry.held j ≡ false) × (s.registry.sessions ≡ [])

  -- What the end of `drive` owes; a run that waits for input owes nothing yet.
  abbrev pub IsCleanEnd : Progress x p → Type 0
  IsCleanEnd (going s) = IsTracked s
  IsCleanEnd (broke s) = IsReleased s

  module _ (setup : Setup x p) where
    cleanup_all-held :
        (ids : List SessionId) (r : Registry x p) (j : SessionId)
        → contains (cleanup_all setup ids r).held j
          ≡ (if contains ids j then false else contains r.held j)
    unfolding cleanup_all cleanup_worktree contains
    cleanup_all-held [] r j = refl
    cleanup_all-held (id ∷ ids) r j =
        cleanup_all-held ids (cleanup_worktree id r) j
        ∙ ground (arith, contains-remove_key id j r.held)

    cleanup_all-sessions :
        (ids : List SessionId) (r : Registry x p) → (cleanup_all setup ids r).sessions ≡ r.sessions
    unfolding cleanup_all cleanup_worktree
    cleanup_all-sessions [] r = refl
    cleanup_all-sessions (id ∷ ids) r = cleanup_all-sessions ids (cleanup_worktree id r)

    wind_down-IsReleased : (s : Run x p) → IsTracked s → IsReleased (wind_down setup s)
    unfolding wind_down shutdown
    wind_down-IsReleased s h = (
      λ j. cleanup_all-held s.spawned (shutdown s.registry) j ∙ ground (arith, h.owned j),
      cleanup_all-sessions s.spawned (shutdown s.registry),
    )

    -- No session has ended yet.
    HasNoEnd : Run x p → Type 0
    HasNoEnd s = (s.done ≡ []) × (s.failed ≡ [])

    kick-IsStarting :
        (spawned : Bool) (id : SessionId) (s : Run x p)
        → IsTracked s × HasNoEnd s
        → let t = if spawned then deliver id (task_prompt setup.task) s else s in
          IsTracked t × HasNoEnd t
    unfolding HasNoEnd deliver
    kick-IsStarting true id s h = (deliver-IsTracked id _ s h.0, h.1)
    kick-IsStarting false id s h = h

    spawn-IsStarting :
        (id : SessionId) (s : Run x p)
        → IsTracked s × HasNoEnd s
        → IsTracked (spawn setup id s).1 × HasNoEnd (spawn setup id s).1
    unfolding HasNoEnd
    spawn-IsStarting id s h =
        let m = spawn-Spawns setup id s in
        (Spawns-IsTracked id _ s _ m h.0, (m.done ∙ h.1.0, m.failed ∙ h.1.1))

    start_all-IsStarting :
        (ids : List SessionId) (s : Run x p)
        → IsTracked s × HasNoEnd s
        → IsTracked (start_all setup ids s) × HasNoEnd (start_all setup ids s)
    unfolding start_all
    start_all-IsStarting [] s h = h
    start_all-IsStarting (id ∷ ids) s h =
        start_all-IsStarting ids _
          (kick-IsStarting (spawn setup id s).0 id _ (spawn-IsStarting id s h))

    all-none :
        (ids : List SessionId)
        → all (λ id. contains [] id || contains [] id) ids ≡ true
        → (j : SessionId) → contains ids j ≡ false
    unfolding contains
    all-none [] h j = refl
    all-none (id ∷ ids) h j = ground arith

    fleet_complete-none :
        (s : Run x p)
        → HasNoEnd s
        → fleet_complete s ≡ true
        → (j : SessionId) → contains s.spawned j ≡ false
    unfolding HasNoEnd fleet_complete
    fleet_complete-none s h e = all-none s.spawned (rw (h.0, h.1) at e)

    early-IsReleased :
        (s : Run x p)
        → IsTracked s × HasNoEnd s
        → fleet_complete s ≡ true
        → IsReleased
            (record (send OrchestratorEvent.fleet_complete s) { registry = shutdown s.registry })
    unfolding shutdown
    early-IsReleased s h e = (λ j. ground (arith, h.0.owned j, fleet_complete-none s h.1 e j), refl)

    wind_down-IsCleanEnd :
        (r : Progress x p)
        → IsTracked (state_of r)
        → IsCleanEnd (elim r [ broke t ↦ broke (wind_down setup t) | going t ↦ going t ])
    wind_down-IsCleanEnd (going t) h = h
    wind_down-IsCleanEnd (broke t) h = wind_down-IsReleased t h

    drive_from-IsCleanEnd :
        (inputs : List (p.World × Input x)) (s : Run x p) (early : Bool)
        → IsTracked s × HasNoEnd s
        → (not setup.chat_mode && fleet_complete s) ≡ early
        → IsCleanEnd (
            if early
            then broke (record (send OrchestratorEvent.fleet_complete s) {
              registry = shutdown s.registry;
            })
            else elim (run_loop setup inputs s) [
              | broke t ↦ broke (wind_down setup t)
              | going t ↦ going t
            ])
    drive_from-IsCleanEnd inputs s true h e = early-IsReleased s h (ground arith)
    drive_from-IsCleanEnd inputs s false h e =
        wind_down-IsCleanEnd (run_loop setup inputs s) (run_loop-IsTracked setup inputs s h.0)

    fresh-IsStarting : (w : p.World) → IsTracked (fresh setup w) × HasNoEnd (fresh setup w)
    unfolding HasNoEnd is_live contains lookup
    fresh-IsStarting w = (record { live = λ j. refl; owned = λ j h. h }, (refl, refl))

    -- Whatever the strategy, the platform and the inputs are, when a run has ended `cleanup` was
    -- called for every worktree that was created, and no session is live. While it waits for input,
    -- the live sessions are those in `spawned`, and only they hold worktrees.
    pub drive-IsCleanEnd :
        (w : p.World) (inputs : List (p.World × Input x)) → IsCleanEnd (drive setup w inputs)
    unfolding drive drive_from
    drive-IsCleanEnd w inputs =
        let started = start_all setup (start_sessions setup.spec.start) (fresh setup w) in
        drive_from-IsCleanEnd inputs started _
          (start_all-IsStarting (start_sessions setup.spec.start) (fresh setup w)
            (fresh-IsStarting w))
          refl
