-- ===== src/Executor/Pending.antt =====
-- A run outside chat mode that still waits for input waits for a session.
use cap_protocol.Prelude.{false, ◌≡◌}
use cap_protocol.Core.{Foreign}
use cap_protocol.Registry.{Platform}
use cap_protocol.Executor.{fleet_complete}
use cap_protocol.Executor.Loop.{Progress, going, broke}

module _ {x : Foreign} {p : Platform} where
  -- While a run goes on, some session that was spawned has neither ended nor failed.
  abbrev pub IsPending : Progress x p → Type 0
  IsPending (going s) = fleet_complete s ≡ false
  IsPending (broke s) = Unit
