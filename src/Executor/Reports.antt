-- ===== src/Executor/Reports.antt =====
-- What a whole run sends and records, from `start_with_mode` to the end of `Run::drive`.
use cap_protocol.Prelude.{
  Bool, true, false, not, ◌&&◌, List, [], ◌∷◌, ◌++◌, ◌≡◌, refl, ap, ◌∙◌, sym, All, if◌then◌else◌,
  inl, inr, ◌⊎◌,
}
use mathlib.Core.List.{append-nil}
use cap_protocol.Core.{Foreign}
use cap_protocol.Config.{SessionId, start_sessions}
use cap_protocol.Event.{OrchestratorEvent}
use cap_protocol.Audit.{route_pairs}
use cap_protocol.Registry.{Platform, shutdown}
use cap_protocol.Executor.{Setup, Run, send, deliver, task_prompt, fleet_complete, spawn}
use cap_protocol.Executor.Loop.{
  Input, Progress, going, broke, run_loop, wind_down, start_all, drive_from, fresh, drive, state_of,
}
use cap_protocol.Executor.Extends.{
  routed_pairs, routed_pairs-append, IsOpen, Extends, Extends-still, Extends-trans, spawn-Extends,
}
use cap_protocol.Executor.Follows.{Any, Follows, Follows-trans, ActorInputs, run_loop-Follows}

module _ {x : Foreign} {p : Platform} where
  -- `FleetComplete` is nowhere, or once and last in a run that has ended.
  abbrev pub IsClosed : Progress x p → Type 0
  IsClosed (going s) = All IsOpen s.out
  IsClosed (broke s) =
      All IsOpen s.out
      ⊎ ((es : List (OrchestratorEvent x)) × All IsOpen es
          × (s.out ≡ es ++ OrchestratorEvent.fleet_complete ∷ []))

  -- The routes that the audit log holds are those that the consumer was told of, in their order.
  abbrev pub AreAudited : Run x p → Type 0
  AreAudited s = route_pairs s.audit.records ≡ routed_pairs s.out

  module _ (setup : Setup x p) where
    kick-Extends :
        (spawned : Bool) (id : SessionId) (s : Run x p)
        → Extends Any s (if spawned then deliver id (task_prompt setup.task) s else s)
    unfolding deliver
    kick-Extends true id s = Extends-still Any s _ refl refl
    kick-Extends false id s = Extends-still Any s s refl refl

    start_all-Extends : (ids : List SessionId) (s : Run x p) → Extends Any s (start_all setup ids s)
    unfolding start_all
    start_all-Extends [] s = Extends-still Any s s refl refl
    start_all-Extends (id ∷ ids) s =
        let s' = (spawn setup id s).1 in
        let kicked : Run x p =
          if (spawn setup id s).0 then deliver id (task_prompt setup.task) s' else s' in
        Extends-trans Any s s' _ (spawn-Extends Any (λ i f h. tt) setup id s) (
          Extends-trans Any s' kicked _ (kick-Extends (spawn setup id s).0 id s')
            (start_all-Extends ids kicked))

    wind_down-Follows :
        (s : Run x p) (r : Progress x p)
        → Follows s r
        → Follows s (elim r [ broke t ↦ broke (wind_down setup t) | going t ↦ going t ])
    unfolding wind_down
    wind_down-Follows s (going t) h = h
    wind_down-Follows s (broke t) (inl h) =
        inl (Extends-trans Any s t _ h (Extends-still Any t _ refl refl))
    wind_down-Follows s (broke t) (inr h) =
        inr (record { before = h.before; extends = h.extends; out = h.out; audit = h.audit })

    drive_from-Follows :
        (inputs : List (p.World × Input x)) (s : Run x p)
        → ActorInputs inputs
        → Follows s (drive_from setup inputs s)
    unfolding drive_from
    drive_from-Follows inputs s h =
        elim (not setup.chat_mode && fleet_complete s)
          as (λ b. Follows s (
            if b
            then broke (record (send OrchestratorEvent.fleet_complete s) {
              registry = shutdown s.registry;
            })
            else elim (run_loop setup inputs s) [
              | broke t ↦ broke (wind_down setup t)
              | going t ↦ going t
            ])) [
              | true ↦ inr (record {
                before = s;
                extends = Extends-still Any s s refl refl;
                out = refl;
                audit = refl;
              })
              | false ↦
                  wind_down-Follows s (run_loop setup inputs s) (run_loop-Follows setup inputs s h)
            ]

    drive-Follows :
        (w : p.World) (inputs : List (p.World × Input x))
        → ActorInputs inputs
        → Follows (fresh setup w) (drive setup w inputs)
    unfolding drive
    drive-Follows w inputs h =
        let started = start_all setup (start_sessions setup.spec.start) (fresh setup w) in
        Follows-trans (fresh setup w) started _
          (start_all-Extends (start_sessions setup.spec.start) (fresh setup w))
          (drive_from-Follows inputs started h)

    Extends-AreAudited : (w : p.World) (t : Run x p) → Extends Any (fresh setup w) t → AreAudited t
    unfolding route_pairs
    Extends-AreAudited w t h = h.audited ∙ ap routed_pairs (sym h.out)

    Follows-AreAudited :
        (w : p.World) (r : Progress x p) → Follows (fresh setup w) r → AreAudited (state_of r)
    Follows-AreAudited w (going t) h = Extends-AreAudited w t h
    Follows-AreAudited w (broke t) (inl h) = Extends-AreAudited w t h
    Follows-AreAudited w (broke t) (inr h) =
        rw (h.audit, h.out)
          (Extends-AreAudited w h.before h.extends
            ∙ sym (routed_pairs-append h.before.out _ ∙ append-nil _))

    Extends-IsOpen : (w : p.World) (t : Run x p) → Extends Any (fresh setup w) t → All IsOpen t.out
    Extends-IsOpen w t h = rw h.out h.opens

    Follows-IsClosed : (w : p.World) (r : Progress x p) → Follows (fresh setup w) r → IsClosed r
    Follows-IsClosed w (going t) h = Extends-IsOpen w t h
    Follows-IsClosed w (broke t) (inl h) = inl (Extends-IsOpen w t h)
    Follows-IsClosed w (broke t) (inr h) =
        inr (h.before.out, Extends-IsOpen w h.before h.extends, h.out)

    -- Whatever the strategy, the platform and the inputs are, when the session actors send neither
    -- `Routed` nor `FleetComplete`, the audited routes of a run, ended or not, are the routes that
    -- the consumer was told of, in their order.
    pub drive-AreAudited :
        (w : p.World) (inputs : List (p.World × Input x))
        → ActorInputs inputs
        → AreAudited (state_of (drive setup w inputs))
    drive-AreAudited w inputs h =
        Follows-AreAudited w (drive setup w inputs) (drive-Follows w inputs h)

    -- Under the same condition the consumer sees `FleetComplete` at most once, and nothing after it;
    -- a run that still waits for input has not sent it.
    pub drive-IsClosed :
        (w : p.World) (inputs : List (p.World × Input x))
        → ActorInputs inputs
        → IsClosed (drive setup w inputs)
    drive-IsClosed w inputs h = Follows-IsClosed w (drive setup w inputs) (drive-Follows w inputs h)
