-- ===== src/Config/Routes.antt =====
-- Triggers and actions of a route in config.rs.
use cap_protocol.Prelude.{
  ℕ, ◌+◌, String, Option, none, some, List, [], ◌∷◌, map, not, ◌=ℕ◌, Result, ok, err, strip_suffix,
  if◌then◌else◌,
}
use cap_protocol.Config.{
  SessionId, Trigger, single, joined, Route, Action, ConfigError, not_one_action, no_action,
}

-- `Trigger::raw_tokens`
unfoldable pub raw_tokens : Trigger → List String
raw_tokens (single s) = s ∷ []
raw_tokens (joined v) = v

-- `t.strip_suffix(".done").unwrap_or(t)`; the `debug_assert!` before it is the precondition that
-- `validate` establishes
unfoldable pub token_session : String → SessionId
token_session t = elim (strip_suffix t ".done") [ none ↦ t | some id ↦ id ]

-- `Route::trigger_sessions`
unfoldable pub trigger_sessions : Route → List SessionId
unfolding raw_tokens
trigger_sessions r = map token_session (raw_tokens r.trigger)

-- `opt.is_some() as u8`
abbrev pub count_some {ℓ} : {A : Type ℓ} → Option A → ℕ
count_some none = 0
count_some (some _) = 1

-- The `if let` chain after the count. Its last branch is not reached: the count is 1.
unfoldable pub first_action : Route → Result ConfigError Action
first_action r = elim r.route_to [
  | some to ↦ ok (Action.route_to to)
  | none ↦ elim r.fan_out [
    | some f ↦ ok (Action.fan_out f)
    | none ↦ elim r.collect [ some c ↦ ok (Action.collect c) | none ↦ err no_action ]
  ]
]

-- `Route::action`
unfoldable pub action : Route → Result ConfigError Action
unfolding first_action
action r =
    let count = count_some r.route_to + count_some r.fan_out + count_some r.collect in
    if not (count =ℕ 1) then err (not_one_action (trigger_sessions r) count) else first_action r
