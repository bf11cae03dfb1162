-- ===== src/Routing/Static.antt =====
-- `StaticRouting` of crates/cap-rs-orchestrator/src/routing.rs, with `build_payload` and
-- `parse_subtasks`. `items_of` is `serde_json::from_str::<Vec<String>>(text.trim()).ok()`.
use cap_protocol.Prelude.{
  String, Bool, true, false, not, Option, none, some, List, [], ◌∷◌, ◌++◌, map, any, all, take,
  ◌==◌, lookup, contains, split_at_first, join, Result, ok, err, if◌then◌else◌,
}
use Prim.Native.String.{◌++◌ as append}
use cap_protocol.Core.{Foreign}
use cap_protocol.Config.{SessionId, Split, broadcast, by_subtask, Action, Route, ConfigError}
use cap_protocol.Config.Routes.{trigger_sessions, action}
use cap_protocol.Routing.{RoutingContext, RouteDecision}

-- `RouteDecision::Error`, which the executor does not read further
abbrev pub few_items : String
few_items = "fan_out by_subtask: lead emitted fewer subtask items than targets"

abbrev pub no_items : String
no_items = "fan_out by_subtask: lead emitted no parseable cap-subtasks JSON-array block"

-- The text after, and the text before, the first occurrence
unfoldable pub text_after : String → String → Option String
unfolding split_at_first
text_after p s = elim (split_at_first p s) [ none ↦ none | some parts ↦ some parts.1 ]

unfoldable pub text_before : String → String → Option String
unfolding split_at_first
text_before p s = elim (split_at_first p s) [ none ↦ none | some parts ↦ some parts.0 ]

-- At least one item and at most `MAX_SUBTASKS`
unfoldable pub limit_items : List String → Option (List String)
limit_items [] = none
limit_items (item ∷ items) = some (take 256 (item ∷ items))

unfoldable pub parse_subtasks : (String → Option (List String)) → String → Option (List String)
unfolding text_after text_before limit_items
parse_subtasks items_of text = elim (text_after "```cap-subtasks" text) [
  | none ↦ none
  | some rest ↦ elim (text_before "```" rest) [
    | none ↦ none
    | some block ↦ elim (items_of block) [ none ↦ none | some items ↦ limit_items items ]
  ]
]

-- The loop over the targets: what it has collected when it ends or breaks
unfoldable pub assign_items : List SessionId → List String → List (SessionId × String)
assign_items [] items = []
assign_items (to ∷ tos) [] = []
assign_items (to ∷ tos) (item ∷ items) = (to, item) ∷ assign_items tos items

-- `sufficient` after the loop
unfoldable pub sufficient : List SessionId → List String → Bool
sufficient [] items = true
sufficient (to ∷ tos) [] = false
sufficient (to ∷ tos) (item ∷ items) = sufficient tos items

-- What is pushed when there are too few items
unfoldable pub partial_fan_out : List (SessionId × String) → List RouteDecision
partial_fan_out [] = RouteDecision.error few_items ∷ []
partial_fan_out (t ∷ ts) = RouteDecision.fan_out (t ∷ ts) ∷ RouteDecision.error few_items ∷ []

unfoldable pub subtask_decisions : List SessionId → Option (List String) → List RouteDecision
unfolding assign_items sufficient partial_fan_out
subtask_decisions tos none = RouteDecision.error no_items ∷ []
subtask_decisions tos (some items) =
    if sufficient tos items
    then RouteDecision.fan_out (assign_items tos items) ∷ []
    else partial_fan_out (assign_items tos items)

module _ {x : Foreign} (ctx : RoutingContext x) where
  -- The `if let` of `build_payload`
  unfoldable pub output_part : SessionId → Option String → List String
  output_part t none = []
  output_part t (some buf) =
      if buf == "" then [] else append "--- output from " (append t (append " ---\n" buf)) ∷ []

  unfoldable pub output_parts : List SessionId → List String
  unfolding output_part
  output_parts [] = []
  output_parts (t ∷ ts) = output_part t (lookup t ctx.buffers) ++ output_parts ts

  unfoldable pub payload_of : List String → String
  payload_of [] = ctx.task
  payload_of (part ∷ parts) = append ctx.task (append "\n\n" (join "\n\n" (part ∷ parts)))

  unfoldable pub build_payload : List SessionId → String
  unfolding output_parts payload_of
  build_payload triggers = payload_of (output_parts triggers)

  -- `ctx.buffers.get(session).cloned().unwrap_or_default()`
  unfoldable pub transcript : SessionId → String
  transcript session = elim (lookup session ctx.buffers) [ none ↦ "" | some buf ↦ buf ]

  -- The two `continue` tests
  unfoldable pub applies : SessionId → List SessionId → Bool
  applies session triggers =
      if not (any (λ t. t == session) triggers)
      then false
      else all (λ t. contains ctx.done t) triggers

module _ {x : Foreign} (items_of : String → Option (List String)) (ctx : RoutingContext x) where
  unfoldable pub fan_out_decisions :
      SessionId → List SessionId → List SessionId → Split → List RouteDecision
  unfolding build_payload transcript parse_subtasks subtask_decisions
  fan_out_decisions session triggers tos broadcast =
      let payload = build_payload ctx triggers in
      RouteDecision.fan_out (map (λ t. (t, payload)) tos) ∷ []
  fan_out_decisions session triggers tos by_subtask =
      subtask_decisions tos (parse_subtasks items_of (transcript ctx session))

  -- The `match route.action()`
  unfoldable pub act : SessionId → List SessionId → Result ConfigError Action → List RouteDecision
  unfolding fan_out_decisions build_payload
  act session triggers (ok (Action.route_to to)) =
      RouteDecision.route to (build_payload ctx triggers) ∷ []
  act session triggers (ok (Action.fan_out f)) = fan_out_decisions session triggers f.to f.split
  act session triggers (ok (Action.collect c)) = RouteDecision.select triggers ∷ []
  act session triggers (err e) = []

  unfoldable pub route_decisions : SessionId → Route → List RouteDecision
  unfolding act applies
  route_decisions session r =
      if applies ctx session (trigger_sessions r)
      then act session (trigger_sessions r) (action r)
      else []

  -- `StaticRouting::on_session_done`
  unfoldable pub static_decisions : SessionId → List Route → List RouteDecision
  unfolding route_decisions
  static_decisions session [] = []
  static_decisions session (r ∷ rs) = route_decisions session r ++ static_decisions session rs
