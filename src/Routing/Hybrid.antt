-- ===== src/Routing/Hybrid.antt =====
-- `HybridRouting` of crates/cap-rs-orchestrator/src/routing.rs.
use cap_protocol.Prelude.{Bool, true, false, List, any, if◌then◌else◌}
use cap_protocol.Routing.{RouteDecision}

-- The `matches!` on a decision of the static strategy
abbrev pub is_concrete : RouteDecision → Bool
is_concrete (RouteDecision.route target payload) = true
is_concrete (RouteDecision.dynamic_route target payload driver permissions) = true
is_concrete (RouteDecision.fan_out targets) = true
is_concrete (RouteDecision.select candidates) = true
is_concrete _ = false

-- `HybridRouting::on_session_done`: the model is asked only when no static route acts.
unfoldable pub hybrid_decisions :
    {W : Type 0} → List RouteDecision → (W → List RouteDecision × W) → W → List RouteDecision × W
hybrid_decisions static ask w = if any is_concrete static then (static, w) else ask w
