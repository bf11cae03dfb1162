-- ===== src/Routing/Subtasks.antt =====
-- How the items of a lead are dealt out.
use cap_protocol.Prelude.{String, Bool, true, false, List, [], ◌∷◌, map}
use cap_protocol.Config.{SessionId}
use cap_protocol.Routing.{RouteDecision}

abbrev pub firsts : List (SessionId × String) → List SessionId
firsts pairs = map (λ (p : SessionId × String). p.0) pairs

abbrev pub seconds : List (SessionId × String) → List String
seconds pairs = map (λ (p : SessionId × String). p.1) pairs

-- The pairs of a list of decisions.
abbrev pub dealt : List RouteDecision → List (SessionId × String)
dealt [] = []
dealt (RouteDecision.fan_out pairs ∷ ds) = pairs
dealt (_ ∷ ds) = dealt ds

abbrev pub complains : List RouteDecision → Bool
complains [] = false
complains (RouteDecision.error _ ∷ ds) = true
complains (_ ∷ ds) = complains ds
