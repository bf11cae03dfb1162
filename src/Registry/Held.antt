-- ===== src/Registry/Held.antt =====
-- What each operation does to the set of live sessions and to the worktrees held.
use cap_protocol.Prelude.{
  String, Bool, true, false, Option, none, some, List, ◌≡◌, refl, ap, ◌∙◌, arith, Result, ok, err,
  lookup, put, contains, contains_key, contains-insert_key, contains-remove_key, lookup-put, ◌==◌,
  eq_iff, if◌then◌else◌,
}
use cap_protocol.Core.{Foreign, ClientFrame}
use cap_protocol.Config.{SessionId, DriverKind, PermissionPolicy, OrchestratorError}
use cap_protocol.Registry.{
  Platform, SpawnConfig, Registry, SessionHandle, is_live, create_worktree, cleanup_worktree,
  with_worktree, spawn_with_mode, route, settle_create, settle_build, send_to, push_inbox,
}

contains_key-put :
    {V : Type 0} (id j : SessionId) (v : V) (m : List (SessionId × V))
    → contains_key (put id v m) j ≡ (if id == j then true else contains_key m j)
contains_key-put id j v m = ground (arith, lookup-put id j v m)

contains_key-put_known :
    {V : Type 0} (id j : SessionId) (v w : V) (m : List (SessionId × V))
    → lookup id m ≡ some w
    → contains_key (put id v m) j ≡ contains_key m j
contains_key-put_known id j v w m e = ground (arith, lookup-put id j v m, eq_iff id j)

owned_still :
    (id j : SessionId) (new old : List SessionId)
    → (if id == j then false else contains new j) ≡ true
    → (contains new j ≡ true → (if id == j then true else contains old j) ≡ true)
    → contains old j ≡ true
owned_still id j new old h k = ground arith

module _ {x : Foreign} {p : Platform} where
  -- The same sessions are live, and no worktree is new.
  pub record Unmoved (r t : Registry x p) : Type 0 where
    pub live : (j : SessionId) → is_live j t ≡ is_live j r
    pub owned : (j : SessionId) → contains t.held j ≡ true → contains r.held j ≡ true

  -- The session `id` is live now, and may hold a worktree.
  pub record Joined (id : SessionId) (r t : Registry x p) : Type 0 where
    pub live : (j : SessionId) → is_live j t ≡ (if id == j then true else is_live j r)
    pub owned :
        (j : SessionId)
        → contains t.held j ≡ true
        → (if id == j then true else contains r.held j) ≡ true

  -- As `Joined`, before the session itself is there.
  record Claimed (id : SessionId) (r t : Registry x p) : Type 0 where
    same : t.sessions ≡ r.sessions
    owned :
        (j : SessionId)
        → contains t.held j ≡ true
        → (if id == j then true else contains r.held j) ≡ true

  abbrev pub Spawned :
      SessionId → Result OrchestratorError (Unit {0}) → Registry x p → Registry x p → Type 0
  Spawned id (ok _) r t = Joined id r t
  Spawned id (err _) r t = Unmoved r t

  abbrev Created :
      SessionId → Result OrchestratorError String → Registry x p → Registry x p → Type 0
  Created id (ok _) r t = Claimed id r t
  Created id (err _) r t = Unmoved r t

  settle_create-Created :
      (id : SessionId) (result : Result OrchestratorError String) (r : Registry x p) (w : p.World)
      → let t = settle_create id result (record r { world = w }) in Created id t.0 r t.1
  unfolding settle_create is_live
  settle_create-Created id (ok cwd) r w = record {
    same = refl;
    owned = λ j h. rw contains-insert_key at h;
  }
  settle_create-Created id (err e) r w = record { live = λ j. refl; owned = λ j h. h }

  settle_build-Spawned :
      (id : SessionId) (handle : SessionHandle x) (result : Result OrchestratorError (Unit {0}))
      (r s : Registry x p) (w : p.World)
      → Claimed id r s
      → let t = settle_build id handle result (record s { world = w }) in Spawned id t.0 r t.1
  unfolding settle_build cleanup_worktree is_live
  settle_build-Spawned id handle (ok _) r s w h = record {
    live = λ j.
        contains_key-put id j handle s.sessions
        ∙ ap (λ m. if id == j then true else contains_key m j) h.same;
    owned = h.owned;
  }
  settle_build-Spawned id handle (err e) r s w h = record {
    live = λ j. ap (λ m. contains_key m j) h.same;
    owned = λ j k. owned_still id j s.held r.held (rw contains-remove_key at k) (h.owned j);
  }

  with_worktree-Spawned :
      (id : SessionId) (kind : DriverKind) (policy : PermissionPolicy) (chat : Bool)
      (cfg : SpawnConfig x) (result : Result OrchestratorError String) (r s : Registry x p)
      → Created id result r s
      → let t = with_worktree id kind policy chat cfg result s in Spawned id t.0 r t.1
  unfolding with_worktree
  with_worktree-Spawned id kind policy chat cfg (err e) r s h = h
  with_worktree-Spawned id kind policy chat cfg (ok cwd) r s h =
      let built = p.build id kind cwd policy s.world in
      settle_build-Spawned id _ built.0 r s built.1 h

  pub spawn_with_mode-Spawned :
      (id : SessionId) (kind : DriverKind) (policy : PermissionPolicy) (base : String) (chat : Bool)
      (cfg : SpawnConfig x) (r : Registry x p)
      → let t = spawn_with_mode id kind policy base chat cfg r in Spawned id t.0 r t.1
  unfolding spawn_with_mode create_worktree
  spawn_with_mode-Spawned id kind policy base chat cfg r =
      let made = p.create id base r.world in
      let t = create_worktree id base r in
      with_worktree-Spawned id kind policy chat cfg t.0 r t.1
        (settle_create-Created id made.0 r made.1)

  push_inbox-Unmoved :
      (to : SessionId) (frame : ClientFrame x) (h : SessionHandle x) (receives : Bool)
      (r : Registry x p)
      → lookup to r.sessions ≡ some h
      → Unmoved r (push_inbox to frame h receives r).1
  unfolding push_inbox is_live
  push_inbox-Unmoved to frame h true r e = record {
    live = λ j. contains_key-put_known to j _ h r.sessions e;
    owned = λ j k. k;
  }
  push_inbox-Unmoved to frame h false r e = record { live = λ j. refl; owned = λ j k. k }

  send_to-Unmoved :
      (to : SessionId) (frame : ClientFrame x) (h : Option (SessionHandle x)) (r : Registry x p)
      → lookup to r.sessions ≡ h
      → Unmoved r (send_to to frame h r).1
  unfolding send_to
  send_to-Unmoved to frame none r e = record { live = λ j. refl; owned = λ j k. k }
  send_to-Unmoved to frame (some h) r e = push_inbox-Unmoved to frame h (p.receives to r.world) r e

  pub route-Unmoved :
      (to : SessionId) (frame : ClientFrame x) (r : Registry x p) → Unmoved r (route to frame r).1
  unfolding route
  route-Unmoved to frame r = send_to-Unmoved to frame (lookup to r.sessions) r refl
