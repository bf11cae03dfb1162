-- ===== src/Routing/Llm.antt =====
-- `LlmRouting` of crates/cap-rs-orchestrator/src/routing.rs: the decisions that a language model's
-- answer is read as. The client and the prompt are parameters of the strategy.
use Prim.Native.Char.{code}
use Prim.Native.String.{◌++◌ as append, ◌∷◌ as char_then, [] as nothing}
use cap_protocol.Prelude.{
  ℕ, String, Bool, true, false, not, Option, none, some, List, [], ◌∷◌, take, ◌==◌, ◌=ℕ◌, contains,
  if◌then◌else◌,
}
use cap_protocol.Core.{Foreign}
use cap_protocol.Json.{unwrap_or, str_at, array_at, strings}
use cap_protocol.Config.{SessionId, DriverKind, pty, acp, PermissionPolicy}
use cap_protocol.Config.Names.{valid_session_id}
use cap_protocol.Config.Drivers.{parse_kind}
use cap_protocol.Config.Drivers.Hosts.{Url}
use cap_protocol.Routing.{RouteDecision}

-- The text from the first `k` on, as `&text[text.find(k)?..]`
unfoldable pub from_first : ℕ → String → Option String
from_first k nothing = none
from_first k (char_then c s) = if code c =ℕ k then some (char_then c s) else from_first k s

-- The text up to the last `k`, it included, as `&text[..=text.rfind(k)?]`
unfoldable pub upto_last : ℕ → String → Option String
upto_last k nothing = none
upto_last k (char_then c s) = elim (upto_last k s) [
  | some r ↦ some (char_then c r)
  | none ↦ if code c =ℕ k then some (char_then c nothing) else none
]

-- `extract_json`: a last brace before the first is no last brace of the text from the first on.
unfoldable pub extract_json : String → Option String
unfolding from_first upto_last
extract_json text = elim (from_first b'{' text) [ none ↦ none | some rest ↦ upto_last b'}' rest ]

-- `DriverKind::Pty(_) | DriverKind::Acp(_)`
abbrev pub is_local : DriverKind → Bool
is_local (pty cmd) = true
is_local (acp cmd) = true
is_local _ = false

module _ (sessions : List SessionId) (default_permissions : PermissionPolicy) where
  -- The permissions of a dynamic session
  unfoldable pub dynamic_permissions : SessionId → PermissionPolicy
  dynamic_permissions target =
      if contains sessions target then PermissionPolicy.allow else default_permissions

  -- After `DriverKind::parse(ds)`
  unfoldable pub dynamic_action : SessionId → String → String → Option DriverKind → RouteDecision
  unfolding dynamic_permissions
  dynamic_action target context ds none =
      RouteDecision.error (append "LLM used unknown driver '" (append ds "'"))
  dynamic_action target context ds (some kind) =
      if is_local kind
      then RouteDecision.error
          (append "LLM cannot spawn local-process drivers (pty/acp), got '" (append ds "'"))
      else RouteDecision.dynamic_route target context kind (dynamic_permissions target)

  -- After the target and the `driver` field were read
  unfoldable pub target_action :
      (String → Option Url) → SessionId → String → Option String → RouteDecision
  unfolding dynamic_action parse_kind valid_session_id
  target_action parse_url target context none =
      if contains sessions target
      then RouteDecision.route target context
      else RouteDecision.error (
          append "LLM referenced unknown session '"
            (append target "' (use 'driver' field for dynamic sessions)"))
  target_action parse_url target context (some ds) =
      if not (valid_session_id target)
      then RouteDecision.error (append "LLM used invalid session id '" (append target "'"))
      else dynamic_action target context ds (parse_kind parse_url ds)

module _ (x : Foreign) (parse_url : String → Option Url) (sessions : List SessionId) (task : String)
    (default_permissions : PermissionPolicy) where
  unfoldable pub candidates_of : Option (List x.Value) → List SessionId
  unfolding strings
  candidates_of none = []
  candidates_of (some vs) = strings x vs

  unfoldable pub route_action : x.Value → Option String → RouteDecision
  unfolding target_action
  route_action action none = RouteDecision.error "route action missing 'target'"
  route_action action (some target) =
      target_action sessions default_permissions parse_url target
        (unwrap_or task (str_at x "context" action)) (str_at x "driver" action)

  -- The `match typ`
  unfoldable pub typed_action : x.Value → String → RouteDecision
  unfolding route_action candidates_of
  typed_action action typ =
      if typ == "route"
      then route_action action (str_at x "target" action)
      else if typ == "collect"
      then RouteDecision.select (candidates_of (array_at x "candidates" action))
      else if typ == "complete"
      then RouteDecision.none
      else RouteDecision.error (append "LLM used unknown action type '" (append typ "'"))

  -- One round of the loop: an action with no type is passed over.
  unfoldable pub add_action : x.Value → Option String → List RouteDecision → List RouteDecision
  unfolding typed_action
  add_action action none rest = rest
  add_action action (some typ) rest = typed_action action typ ∷ rest

  unfoldable pub read_actions : List x.Value → List RouteDecision
  unfolding add_action
  read_actions [] = []
  read_actions (action ∷ actions) =
      add_action action (str_at x "type" action) (read_actions actions)

  -- `json.get("actions")`: nothing to do where it is missing, no array, or empty
  unfoldable pub read_field : ℕ → Option (List x.Value) → List RouteDecision
  unfolding read_actions
  read_field max none = RouteDecision.none ∷ []
  read_field max (some []) = RouteDecision.none ∷ []
  read_field max (some (action ∷ actions)) = read_actions (take max (action ∷ actions))

  unfoldable pub read_json : ℕ → Option x.Value → List RouteDecision
  unfolding read_field
  read_json max none = RouteDecision.error "LLM response is not valid JSON" ∷ []
  read_json max (some json) = read_field max (array_at x "actions" json)

  unfoldable pub read_text : ℕ → Option String → List RouteDecision
  unfolding read_json
  read_text max none = RouteDecision.error "LLM response contains no JSON object" ∷ []
  read_text max (some text) = read_json max (x.from_str text)

  unfoldable pub parse_llm_response : ℕ → String → List RouteDecision
  unfolding read_text extract_json
  parse_llm_response max text = read_text max (extract_json text)

  -- `LlmRouting::on_session_done` on the client's answer; the error is the query's or the timeout's
  unfoldable pub llm_decisions : ℕ → Option String → List RouteDecision
  unfolding parse_llm_response
  llm_decisions max none = RouteDecision.error "LLM routing query failed" ∷ []
  llm_decisions max (some response) = parse_llm_response max response
