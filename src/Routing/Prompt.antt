-- ===== src/Routing/Prompt.antt =====
-- What `LlmRouting` of routing.rs shows a language model: the outputs of the sessions, shortened. A slice
-- that panics gives nothing. `usize` has 64 bits.
use Prim.Native.Char.{code}
use mathlib.Core.Option
use Prim.Native.String.{◌++◌ as append, ◌∷◌ as char_then, [] as nothing}
use cap_protocol.Prelude.{
  ℕ, zero, suc, ◌-◌, String, Bool, true, false, Option, none, some, List, [], ◌∷◌, ◌++◌, map, ltb,
  leb, ◌=ℕ◌, ◌==◌, contains, insert_key, lookup, join, length, if◌then◌else◌,
}
use cap_protocol.Core.{Foreign}
use cap_protocol.Json.{unwrap_or}
use cap_protocol.Config.{SessionId}
use cap_protocol.Config.Drivers.Hosts.{Url}
use cap_protocol.Pty.Texts.{encode_char, byte_length, decimal, trim}
use cap_protocol.Routing.{RoutingContext, RouteDecision}
use cap_protocol.Routing.Llm.{llm_decisions}

-- `&s[..n]`, or nothing where it panics: past the end, or inside of a character
unfoldable pub slice_to : ℕ → String → Option String
unfolding encode_char
slice_to zero s = some ""
slice_to (suc n) nothing = none
slice_to (suc n) (char_then c s) =
    let rest = slice_to (suc n - length (encode_char (code c))) s in
    if leb (length (encode_char (code c))) (suc n) then Option.map (char_then c) rest else none

-- The `format!` of a preview, given the bytes that it leaves out
unfoldable pub shortened : ℕ → Option String → Option String
shortened dropped none = none
shortened dropped (some head) =
    some (append head (append "...\n[truncated " (append (decimal dropped) " chars]")))

-- Given whether the output is longer than the limit
unfoldable pub cut : Bool → ℕ → String → Option String
unfolding shortened slice_to byte_length
cut true max_chars output =
    let cutoff = max_chars - 50 in shortened (byte_length output - cutoff) (slice_to cutoff output)
cut false max_chars output = some output

unfoldable pub preview : ℕ → String → Option String
unfolding cut byte_length
preview max_chars output = cut (ltb max_chars (byte_length output)) max_chars output

pub data SessionStatus : Type 0 where
  completed failed running : SessionStatus

pub record SessionSummary : Type 0 where
  pub id : SessionId
  pub status : SessionStatus
  pub output_preview : String

-- `collect::<HashSet<_>>()`
unfoldable pub set_of : List SessionId → List SessionId
unfolding insert_key
set_of [] = []
set_of (id ∷ ids) = insert_key id (set_of ids)

-- The order of texts: that of their bytes, which is that of the numbers of their characters
unfoldable pub before : String → String → Bool
before nothing t = true
before (char_then c s) nothing = false
before (char_then c s) (char_then d t) =
    let rest = before s t in
    if ltb (code c) (code d) then true else if code c =ℕ code d then rest else false

-- `sort_by` on the ids
unfoldable pub put_in_order : SessionSummary → List SessionSummary → List SessionSummary
unfolding before
put_in_order s [] = s ∷ []
put_in_order s (t ∷ ts) =
    let rest = t ∷ put_in_order s ts in if before s.id t.id then s ∷ t ∷ ts else rest

unfoldable pub in_order : List SessionSummary → List SessionSummary
unfolding put_in_order
in_order [] = []
in_order (s ∷ ss) = put_in_order s (in_order ss)

module _ {x : Foreign} (ctx : RoutingContext x) (max_chars : ℕ) where
  unfoldable pub status_of : SessionId → SessionStatus
  unfolding contains
  status_of id =
      if contains ctx.failed id
      then SessionStatus.failed
      else if contains ctx.done id
      then SessionStatus.completed
      else SessionStatus.running

  abbrev pub output_of : SessionId → String
  output_of id = unwrap_or "" (lookup id ctx.buffers)

  -- A summary in front of the others
  unfoldable pub add_summary :
      SessionId → Option String → Option (List SessionSummary) → Option (List SessionSummary)
  unfolding status_of
  add_summary id none others = none
  add_summary id (some text) none = none
  add_summary id (some text) (some others) =
      some (record { id = id; status = status_of id; output_preview = text } ∷ others)

  unfoldable pub summaries : List SessionId → Option (List SessionSummary)
  unfolding add_summary preview lookup
  summaries [] = some []
  summaries (id ∷ ids) = add_summary id (preview max_chars (output_of id)) (summaries ids)

  -- `SessionSummary::build_all`
  unfoldable pub build_all : Option (List SessionSummary)
  unfolding summaries set_of in_order
  build_all = Option.map in_order (summaries (set_of (ctx.done ++ ctx.failed ++ ctx.spawned)))

pub record LlmSessionSpec : Type 0 where
  pub id : SessionId
  pub role : Option String

pub record LlmRoutingConfig : Type 0 where
  pub system_prompt : String
  pub max_decisions : ℕ
  pub max_context_chars : ℕ

abbrev pub role_line : LlmSessionSpec → String
role_line s = append "- " (append s.id (append ": " (unwrap_or "general agent" s.role)))

abbrev pub status_tag : SessionStatus → String
status_tag SessionStatus.completed = "✓ completed"
status_tag SessionStatus.failed = "✗ failed"
status_tag SessionStatus.running = "▶ running"

abbrev pub section : SessionSummary → String
section s =
    append "--- "
      (append s.id (append " (" (append (status_tag s.status) (append ") ---\n" s.output_preview))))

-- The outputs that are not blank
unfoldable pub sections : List SessionSummary → List String
unfolding trim
sections [] = []
sections (s ∷ ss) =
    let rest = sections ss in if trim s.output_preview == "" then rest else section s ∷ rest

abbrev pub or_none_yet : List String → String
or_none_yet [] = "(none yet)"
or_none_yet (s ∷ ss) = join "\n\n" (s ∷ ss)

-- `build_llm_prompt`
unfoldable pub build_llm_prompt :
    {x : Foreign} → RoutingContext x → List LlmSessionSpec → ℕ → Option String
unfolding build_all sections join
build_llm_prompt ctx sessions max_chars =
    Option.map
      (λ built. append "TASK:\n" (
        append ctx.task (
          append "\n\nAVAILABLE AGENTS:\n" (
            append (join "\n" (map role_line sessions)) (
              append "\n\nAGENT OUTPUTS:\n" (
                append (or_none_yet (sections built))
                  "\n\nWhat should happen next? Respond with a JSON object."))))))
      (build_all ctx max_chars)

-- `LlmRouting::on_session_done`, given what the client answers to the system prompt and the prompt: none
-- is an error or the timeout
unfoldable pub llm_on_session_done :
    (x : Foreign)
    → (String → Option Url)
    → LlmRoutingConfig
    → List LlmSessionSpec
    → (String → String → Option String)
    → RoutingContext x
    → Option (List RouteDecision)
unfolding build_llm_prompt llm_decisions
llm_on_session_done x parse_url config sessions query ctx =
    Option.map
      (λ prompt.
        llm_decisions x parse_url (map (λ s. s.id) sessions) ctx.task ctx.spec.permissions
          config.max_decisions (query config.system_prompt prompt))
      (build_llm_prompt ctx sessions config.max_context_chars)
