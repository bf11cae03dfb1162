-- ===== src/Registry.antt =====
-- crates/cap-rs-orchestrator/src/registry.rs: the live sessions, with the inbox of each. The traits
-- `WorktreeManager` and `DriverFactory` and the receiving ends of the inboxes act on a world of
-- their own. What an actor does with its inbox is in `Session`.
pub mod Held
use cap_protocol.Prelude.{
  ℕ, String, Bool, true, false, Option, none, some, List, [], ◌∷◌, ◌++◌, Result, ok, err, lookup,
  put, contains_key, insert_key, remove_key, if◌then◌else◌,
}
use cap_protocol.Core.{Foreign, ClientFrame}
use cap_protocol.Config.{
  SessionId, DriverKind, PermissionPolicy, OrchestratorError, config, no_such_session, inbox_closed,
}

-- `WorktreeManager`, `DriverFactory`, whether the receiver of a session's inbox still exists, the
-- clock, and what `driver_kind` reads: manifests and parsed URLs.
pub record Platform : Type 1 where
  pub World : Type 0
  pub create : SessionId → String → World → Result OrchestratorError String × World
  pub cleanup : SessionId → World → World
  pub build :
      SessionId
      → DriverKind
      → String
      → PermissionPolicy
      → World
      → Result OrchestratorError (Unit {0}) × World
  pub receives : SessionId → World → Bool
  pub now : World → ℕ

-- `SessionSpawnConfig` of session.rs
pub record SpawnConfig (x : Foreign) : Type 0 where
  pub model : Option String
  pub system_prompt : Option String
  pub max_turns : Option ℕ
  pub budget_usd : Option x.F64

abbrev pub default_spawn : {x : Foreign} → SpawnConfig x
default_spawn = record { model = none; system_prompt = none; max_turns = none; budget_usd = none }

-- A session actor as `spawn_session` and `spawn_chat_session` start it, with what was sent to it.
pub record SessionHandle (x : Foreign) : Type 0 where
  pub policy : PermissionPolicy
  pub cwd : String
  pub keep_alive : Bool
  pub spawn_cfg : SpawnConfig x
  pub inbox : List (ClientFrame x)

-- The registry and the world. `held` is no field of the source: it lists the worktrees that were
-- created and for which `cleanup` was not called since.
pub record Registry (x : Foreign) (p : Platform) : Type 0 where
  pub sessions : List (SessionId × SessionHandle x)
  pub held : List SessionId
  pub world : p.World

module _ {x : Foreign} {p : Platform} where
  unfoldable pub is_live : SessionId → Registry x p → Bool
  is_live id r = contains_key r.sessions id

  unfoldable pub settle_create :
      SessionId
      → Result OrchestratorError String
      → Registry x p
      → Result OrchestratorError String × Registry x p
  settle_create id (ok cwd) r = (ok cwd, record r { held = insert_key id r.held })
  settle_create id (err e) r = (err e, r)

  -- `worktree.create(&id, base_branch)`
  unfoldable pub create_worktree :
      SessionId → String → Registry x p → Result OrchestratorError String × Registry x p
  unfolding settle_create
  create_worktree id base r =
      let (result, w) = p.create id base r.world in settle_create id result (record r { world = w })

  -- `worktree.cleanup(&id)`
  unfoldable pub cleanup_worktree : SessionId → Registry x p → Registry x p
  cleanup_worktree id r = record r { held = remove_key id r.held; world = p.cleanup id r.world }

  -- After `factory.build`: the actor joins the map; a failure gives the worktree back.
  unfoldable pub settle_build :
      SessionId
      → SessionHandle x
      → Result OrchestratorError (Unit {0})
      → Registry x p
      → Result OrchestratorError (Unit {0}) × Registry x p
  unfolding cleanup_worktree
  settle_build id handle (err e) r = (err e, cleanup_worktree id r)
  settle_build id handle (ok _) r = (ok tt, record r { sessions = put id handle r.sessions })

  -- After `worktree.create`
  unfoldable pub with_worktree :
      SessionId
      → DriverKind
      → PermissionPolicy
      → Bool
      → SpawnConfig x
      → Result OrchestratorError String
      → Registry x p
      → Result OrchestratorError (Unit {0}) × Registry x p
  unfolding settle_build
  with_worktree id kind policy chat cfg (err e) r = (err e, r)
  with_worktree id kind policy chat cfg (ok cwd) r =
      let (result, w) = p.build id kind cwd policy r.world in
      settle_build id
        (record { policy = policy; cwd = cwd; keep_alive = chat; spawn_cfg = cfg; inbox = [] })
        result (record r { world = w })

  -- `spawn_with_mode`, which `spawn` and `spawn_chat` call with the flag false and true
  unfoldable pub spawn_with_mode :
      SessionId
      → DriverKind
      → PermissionPolicy
      → String
      → Bool
      → SpawnConfig x
      → Registry x p
      → Result OrchestratorError (Unit {0}) × Registry x p
  unfolding create_worktree with_worktree
  spawn_with_mode id kind policy base chat cfg r =
      let (result, r') = create_worktree id base r in
      with_worktree id kind policy chat cfg result r'

  -- The inbox of a known session, whose receiver exists or not
  unfoldable pub push_inbox :
      SessionId
      → ClientFrame x
      → SessionHandle x
      → Bool
      → Registry x p
      → Result OrchestratorError (Unit {0}) × Registry x p
  push_inbox to frame h true r = (
    ok tt,
    record r { sessions = put to (record h { inbox = h.inbox ++ frame ∷ [] }) r.sessions },
  )
  push_inbox to frame h false r = (err (config (inbox_closed to)), r)

  -- The session that `sessions.get(to)` gives, if any
  unfoldable pub send_to :
      SessionId
      → ClientFrame x
      → Option (SessionHandle x)
      → Registry x p
      → Result OrchestratorError (Unit {0}) × Registry x p
  unfolding push_inbox
  send_to to frame none r = (err (config (no_such_session to)), r)
  send_to to frame (some h) r = push_inbox to frame h (p.receives to r.world) r

  -- `route`: the frame reaches the inbox unless the session is unknown, or its receiver is gone.
  unfoldable pub route :
      SessionId → ClientFrame x → Registry x p → Result OrchestratorError (Unit {0}) × Registry x p
  unfolding send_to
  route to frame r = send_to to frame (lookup to r.sessions) r

  -- `shutdown`: every inbox is dropped, and the tasks are awaited.
  unfoldable pub shutdown : Registry x p → Registry x p
  shutdown r = record r { sessions = [] }
