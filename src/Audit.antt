-- ===== src/Audit.antt =====
-- crates/cap-rs-orchestrator/src/audit.rs: the ordered record of routes. The clock is an argument:
-- `at` is what `now_millis` read. `seq` is a `u64` and counts the records, so it does not overflow.
pub mod Order
use cap_protocol.Prelude.{ℕ, String, List, [], ◌∷◌, ◌++◌, length}
use cap_protocol.Config.{SessionId}

pub data AuditEvent : Type 0 where
  route : (from to : SessionId) → AuditEvent
  session_started session_done : SessionId → AuditEvent
  session_failed : (session : SessionId) (error : String) → AuditEvent
  fleet_cancelled : AuditEvent

pub record AuditRecord : Type 0 where
  pub seq : ℕ
  pub at : ℕ
  pub event : AuditEvent

pub record AuditLog : Type 0 where
  pub records : List AuditRecord

abbrev pub empty_log : AuditLog
empty_log = record { records = [] }

-- `push`
unfoldable pub push : ℕ → AuditEvent → AuditLog → AuditLog
push now event log = record {
  records = log.records ++ record { seq = length log.records; at = now; event = event } ∷ [];
}

unfoldable pub record_route : ℕ → SessionId → SessionId → AuditLog → AuditLog
unfolding push
record_route now from to log = push now (route from to) log

unfoldable pub record_session_started : ℕ → SessionId → AuditLog → AuditLog
unfolding push
record_session_started now session log = push now (session_started session) log

unfoldable pub record_session_done : ℕ → SessionId → AuditLog → AuditLog
unfolding push
record_session_done now session log = push now (session_done session) log

unfoldable pub record_session_failed : ℕ → SessionId → String → AuditLog → AuditLog
unfolding push
record_session_failed now session error log = push now (session_failed session error) log

unfoldable pub record_cancelled : ℕ → AuditLog → AuditLog
unfolding push
record_cancelled now log = push now fleet_cancelled log

-- The `filter_map` of `audit_pairs`, at one event
abbrev pub pair_of : AuditEvent → List (SessionId × SessionId) → List (SessionId × SessionId)
pair_of (route from to) rest = (from, to) ∷ rest
pair_of _ rest = rest

-- `ExecutorHandle::audit_pairs` of executor.rs: the routes, in order.
unfoldable pub route_pairs : List AuditRecord → List (SessionId × SessionId)
route_pairs [] = []
route_pairs (r ∷ rs) = pair_of r.event (route_pairs rs)
