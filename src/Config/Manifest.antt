-- ===== src/Config/Manifest.antt =====
-- The driver that an agent manifest names: `binding_preferences` of crates/cap-rs/src/manifest.rs,
-- and `driver_kind_from_agent_manifest` of config.rs.
use Prim.Native.String.{◌∷◌ as char_then, [] as nothing}
use cap_protocol.Prelude.{
  ℕ, zero, suc, String, Bool, not, ◌&&◌, ◌||◌, true, false, Option, none, some, List, [], ◌∷◌, ◌==◌,
  if◌then◌else◌, strip_prefix,
}
use cap_protocol.Config.{
  DriverKind, claude, open_claude, open_code, rscode, codebuddy, acp, a2a, grpc, pty,
}

pub data FastPathValue : Type 0 where
  bool : Bool → FastPathValue
  command : List String → FastPathValue
  url : String → FastPathValue

unfoldable pub enabled : FastPathValue → Bool
enabled (bool v) = v
enabled (command []) = false
enabled (command (_ ∷ _)) = true
enabled (url v) = not (v == "") && not (v == "false")

unfoldable pub url_of : FastPathValue → Option String
url_of (bool v) = none
url_of (command v) = none
url_of (url v) = if v == "false" then none else some v

-- The fields of `AgentManifest` that the choice reads, without its sections: `name` and `binary`
-- of `[agent]`, `startup_command` of `[startup]`, the others of `[fast_path]`
pub record AgentManifest : Type 0 where
  pub name : String
  pub binary : String
  pub startup_command : List String
  pub stream_json : FastPathValue
  pub grpc_path : FastPathValue
  pub acp_stdio : FastPathValue
  pub a2a_serve_at : FastPathValue

pub data BindingKind : Type 0 where
  grpc_binding stream_json_binding acp_stdio_binding a2a_https_sse_binding pty_binding : BindingKind

-- `if value.enabled() { out.push(kind); }`
unfoldable pub push_enabled : FastPathValue → BindingKind → List BindingKind → List BindingKind
unfolding enabled
push_enabled value kind rest = if enabled value then kind ∷ rest else rest

unfoldable pub binding_preferences : AgentManifest → List BindingKind
unfolding push_enabled enabled
binding_preferences m = push_enabled m.grpc_path grpc_binding (
    push_enabled m.stream_json stream_json_binding (
      push_enabled m.acp_stdio acp_stdio_binding
        (push_enabled m.a2a_serve_at a2a_https_sse_binding (pty_binding ∷ []))))

-- `s.trim_start_matches("http://")`, with `skipped` characters of a match still to pass over
unfoldable pub trim_http : ℕ → String → String
unfolding strip_prefix
trim_http skipped nothing = nothing
trim_http (suc k) (char_then c s) = trim_http k s
trim_http zero (char_then c s) =
    let rest = trim_http 6 s in
    elim (strip_prefix (char_then c s) "http://") [ none ↦ char_then c s | some _ ↦ rest ]

-- The `StreamJson` arm
unfoldable pub stream_json_kind : AgentManifest → DriverKind
stream_json_kind m =
    if m.name == "claude-code"
    then claude
    else if m.name == "openclaude"
    then open_claude
    else if m.name == "opencode"
    then open_code
    else if m.name == "rscode"
    then rscode
    else if m.name == "codebuddy"
    then codebuddy
    else pty m.binary

-- The `Grpc` arm, given its URL and what the rest of the preferences give
unfoldable pub grpc_kind_of : AgentManifest → Option String → Option DriverKind → Option DriverKind
unfolding trim_http
grpc_kind_of m (some addr) rest = some (grpc (trim_http 0 addr))
grpc_kind_of m none rest =
    if m.name == "openclaude" || m.binary == "openclaude" then some open_claude else rest

-- The `A2aHttpsSse` arm
unfoldable pub a2a_kind_of : Option String → Option DriverKind → Option DriverKind
a2a_kind_of (some addr) rest = some (a2a addr)
a2a_kind_of none rest = rest

-- The `Pty` arm
unfoldable pub pty_kind_of : List String → Option DriverKind
pty_kind_of [] = none
pty_kind_of (c ∷ _) = some (pty c)

-- The loop over the preferences
unfoldable pub first_kind : AgentManifest → List BindingKind → Option DriverKind
unfolding grpc_kind_of stream_json_kind a2a_kind_of pty_kind_of url_of
first_kind m [] = none
first_kind m (grpc_binding ∷ bs) = grpc_kind_of m (url_of m.grpc_path) (first_kind m bs)
first_kind m (stream_json_binding ∷ bs) = some (stream_json_kind m)
first_kind m (acp_stdio_binding ∷ bs) = some (acp m.binary)
first_kind m (a2a_https_sse_binding ∷ bs) = a2a_kind_of (url_of m.a2a_serve_at) (first_kind m bs)
first_kind m (pty_binding ∷ bs) = pty_kind_of m.startup_command

unfoldable pub driver_kind_from_agent_manifest : AgentManifest → Option DriverKind
unfolding first_kind binding_preferences
driver_kind_from_agent_manifest m = first_kind m (binding_preferences m)
