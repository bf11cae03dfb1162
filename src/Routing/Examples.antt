-- ===== src/Routing/Examples.antt =====
-- The lead of a fleet is done: its output goes to two sessions, or is dealt out to them.
use Prim.Native.String.{◌++◌ as append}
use cap_protocol.Prelude.{
  String, true, arith, ◌≡◌, ◌≢◌, List, [], ◌∷◌, Option, none, some, refl, inl, Member, keys,
  strip_suffix, strip_prefix, lookup, contains, join,
}
use cap_protocol.Config.{SessionId}
use cap_protocol.Config.Routes.{trigger_sessions, token_session, action}
use cap_protocol.Config.Cycles.Walks.{Walk}
use cap_protocol.Config.Cycles.Graph.{Feeds}
use cap_protocol.Samples.{plain, world_of, Doc, Docs, Fields}
use cap_protocol.Config.Examples.{diamond, diamond_accepted}
use cap_protocol.Routing.{RoutingContext, RouteDecision}
use cap_protocol.Routing.Static.{parse_subtasks, static_decisions}
use cap_protocol.Config.{DriverKind, PermissionPolicy}
use cap_protocol.Config.Drivers.Hosts.{Url}
use cap_protocol.Core.{Foreign}
use cap_protocol.Routing.Llm.{parse_llm_response}
use cap_protocol.Routing.Vetted.{IsBounded, parse_llm_response-IsBounded}
use cap_protocol.Routing.Targets.{
  targets_of, Fires, static_decisions-Fires, static_decisions_forward,
}
use cap_protocol.Pty.Texts.{decimal, trim}
use cap_protocol.Routing.Prompt.{SessionSummary, preview, build_all, build_llm_prompt}
use cap_protocol.Routing.Cuts.{is_ascii}
use cap_protocol.Routing.Summaries.{IsShort, build_all-IsShort}

-- A parser that knows two texts.
abbrev two_items : String → Option (List String)
two_items s = some ("left" ∷ "right" ∷ [])

abbrev lead_done : RoutingContext plain
lead_done = record {
  spec = diamond;
  done = "a" ∷ [];
  failed = [];
  spawned = "a" ∷ [];
  buffers = ("a", "plan") ∷ [];
  task = "build";
}

lead_routes :
    static_decisions two_items lead_done "a" diamond.routes
    ≡ RouteDecision.fan_out (
        ("b", "build\n\n--- output from a ---\nplan")
        ∷ ("c", "build\n\n--- output from a ---\nplan")
        ∷ [])
      ∷ []
unfolding static_decisions trigger_sessions token_session strip_suffix contains action lookup join
lead_routes = refl

lead_items : parse_subtasks two_items "so: ```cap-subtasks [..] ```" ≡ some ("left" ∷ "right" ∷ [])
unfolding parse_subtasks strip_prefix
lead_items = refl

-- The target b is among those of a.
feeds_b : Member "b" (targets_of (static_decisions two_items lead_done "a" diamond.routes))
unfolding static_decisions trigger_sessions token_session strip_suffix contains action
feeds_b = inl refl

static_decisions-Fires_example : Fires lead_done.done diamond.routes "a" "b"
static_decisions-Fires_example =
    static_decisions-Fires lead_done two_items "a" diamond.routes "b" feeds_b

static_decisions_forward_example :
    Member "b" (keys diamond.sessions)
    × (◌≢◌ {A = SessionId} "b" "a")
    × ¬ Walk (Feeds diamond.routes) "b" "a"
static_decisions_forward_example =
    static_decisions_forward two_items lead_done diamond "a" "b" diamond_accepted feeds_b

-- An answer that names a new session, a known one, and a local command.
abbrev answer : Doc
answer = Doc.obj (
    Fields.field "actions"
      (Doc.arr (
        Docs.cons (act "new" (some "claude"))
          (Docs.cons (act "b" none) (Docs.cons (act "sh" (some "pty:bash")) Docs.nil))))
      Fields.done)
  where
    act : String → Option String → Doc
    act target none =
        Doc.obj (
          Fields.field "type" (Doc.str "route")
            (Fields.field "target" (Doc.str target) Fields.done))
    act target (some driver) = Doc.obj (
        Fields.field "type" (Doc.str "route") (
          Fields.field "target" (Doc.str target)
            (Fields.field "driver" (Doc.str driver) Fields.done)))

abbrev asked : Foreign
asked = world_of (("{answer}", answer) ∷ [])

abbrev no_url : String → Option Url
no_url s = none

answer_decisions :
    parse_llm_response asked no_url ("b" ∷ []) "build" PermissionPolicy.ask 3 "so: {answer} then"
    ≡ RouteDecision.dynamic_route "new" "build" DriverKind.claude PermissionPolicy.ask
      ∷ RouteDecision.route "b" "build"
      ∷ RouteDecision.error "LLM cannot spawn local-process drivers (pty/acp), got 'pty:bash'"
      ∷ []
unfolding parse_llm_response lookup cap_protocol.Samples.get_field contains
answer_decisions = refl

parse_llm_response-IsBounded_example :
    IsBounded no_url ("b" ∷ []) "build" PermissionPolicy.ask asked 3 (
      parse_llm_response asked no_url ("b" ∷ []) "build" PermissionPolicy.ask 3 "so: {answer} then")
parse_llm_response-IsBounded_example =
    parse_llm_response-IsBounded no_url ("b" ∷ []) "build" PermissionPolicy.ask asked 3
      "so: {answer} then"

-- A session that is done with a short output, and one that runs with none
abbrev busy : RoutingContext plain
busy = record lead_done { spawned = "b" ∷ "a" ∷ [] }

build_llm_prompt_test :
    build_llm_prompt busy (record { id = "b"; role = none } ∷ []) 4000
    ≡ some
        "TASK:\nbuild\n\nAVAILABLE AGENTS:\n- b: general agent\n\nAGENT OUTPUTS:\n--- a (✓ completed) ---\nplan\n\nWhat should happen next? Respond with a JSON object."
unfolding build_llm_prompt lookup contains join trim
build_llm_prompt_test = refl

-- 60 characters of one byte, where 51 are the limit
abbrev long : String
long = "aaaaaaaaaaaaaaaaaaaaaaaaaaaaaaaaaaaaaaaaaaaaaaaaaaaaaaaaaaaa"

preview_test :
    preview 51 long ≡ some (append "a" (append "...\n[truncated " (append (decimal 59) " chars]")))
unfolding preview
preview_test = refl

-- 26 characters of two bytes: the first is cut in two.
preview_panics : preview 51 "éééééééééééééééééééééééééé" ≡ none
unfolding preview
preview_panics = refl

abbrev chatty : RoutingContext plain
chatty = record busy { buffers = ("a", long) ∷ ("b", "done") ∷ [] }

long-IsAscii : is_ascii long ≡ true
unfolding is_ascii
long-IsAscii = refl

done-IsAscii : is_ascii "done" ≡ true
unfolding is_ascii
done-IsAscii = refl

build_all-IsShort_example :
    (ss : List SessionSummary) × (build_all chatty 51 ≡ some ss) × IsShort 51 ss
build_all-IsShort_example =
    build_all-IsShort chatty 51 (omega arith) (long-IsAscii, (done-IsAscii, tt))
