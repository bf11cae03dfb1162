-- ===== src/Executor/Budget.antt =====
-- The cost and the transcripts of a run that waits for input are those of the events it was given.
use cap_protocol.Prelude.{String, false, Option, none, some, List, [], ◌∷◌, ◌≡◌}
use cap_protocol.Core.{Foreign, AgentEvent, TextChannel}
use cap_protocol.Config.{SessionId}
use cap_protocol.Event.{OrchestratorEvent}
use cap_protocol.Registry.{Platform}
use cap_protocol.Executor.{Setup}
use cap_protocol.Executor.Loop.{Input, Progress, going, broke, push_text}

abbrev pub Within : (x : Foreign) → Option x.F64 → x.F64 → Type 0
Within x none cost = Unit
Within x (some limit) cost = x.gt cost limit ≡ false

-- A total and what is added to it, if anything.
abbrev pub plus : (x : Foreign) → x.F64 → Option x.F64 → x.F64
plus x total none = total
plus x total (some cost) = x.add total cost

module _ {x : Foreign} where
  -- What one input adds to the transcripts: assistant text, under its session.
  abbrev pub add_text : Input x → List (SessionId × String) → List (SessionId × String)
  add_text
        (Input.bus
          (OrchestratorEvent.agent session (AgentEvent.text_chunk _ text TextChannel.assistant)))
        b =
      push_text session text b
  add_text _ b = b

  -- What one input adds to the cost: the estimate of a usage report, if it has one.
  abbrev pub add_usage : Input x → x.F64 → x.F64
  add_usage (Input.bus (OrchestratorEvent.agent session (AgentEvent.usage u))) total =
      plus x total u.cost_usd_estimate
  add_usage _ total = total

  abbrev pub transcripts :
      {W : Type 0} → List (W × Input x) → List (SessionId × String) → List (SessionId × String)
  transcripts [] b = b
  transcripts ((w, i) ∷ is) b = transcripts is (add_text i b)

  abbrev pub total_cost : {W : Type 0} → List (W × Input x) → x.F64 → x.F64
  total_cost [] total = total
  total_cost ((w, i) ∷ is) total = total_cost is (add_usage i total)

  module _ {p : Platform} (setup : Setup x p) where
    -- The cost does not exceed the limit, if there is one.
    abbrev pub IsWithin : x.F64 → Type 0
    IsWithin cost = Within x setup.spec.budget_usd cost

    -- What a run that goes on has of the cost and the transcripts.
    abbrev pub Books : x.F64 → List (SessionId × String) → Progress x p → Type 0
    Books cost texts (going t) = (t.usage_cost_usd ≡ cost) × (t.buffers ≡ texts) × IsWithin cost
    Books cost texts (broke t) = Unit
