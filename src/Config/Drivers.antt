-- ===== src/Config/Drivers.antt =====
-- Driver kinds in config.rs: their text form, and the tests on addresses that guard it.
pub mod Hosts
pub mod Laws
mod Examples
use cap_protocol.Prelude.{
  ℕ, String, Bool, not, ◌&&◌, ◌||◌, true, false, Option, none, some, ◌==◌, ◌=ℕ◌, if◌then◌else◌,
  Result, ok, err, strip_prefix,
}
use cap_protocol.Config.{
  DriverKind, claude, open_claude, codex, open_code, qoder, rscode, codebuddy, aider, acp, a2a,
  grpc, pty, SessionSpec,
}
use cap_protocol.Config.Names.{valid_binary_name}
use cap_protocol.Config.Drivers.Hosts.{Url, valid_grpc_address, valid_a2a_url}

-- The messages of `parse_driver_kind`.
pub data DriverError : Type 0 where
  bad_grpc bad_a2a bad_acp bad_pty unknown_driver : String → DriverError

-- `cmd.is_empty() || !valid_binary_name(cmd)`
abbrev pub command_kind :
    (String → DriverKind) → (String → DriverError) → String → Result DriverError DriverKind
command_kind kind refused cmd =
    if cmd == "" || not (valid_binary_name cmd) then err (refused cmd) else ok (kind cmd)

-- `if let Some(rest) = s.strip_prefix(p) { return …; }`
abbrev pub by_prefix :
    Option String
    → (String → Result DriverError DriverKind)
    → Result DriverError DriverKind
    → Result DriverError DriverKind
by_prefix none parse rest = rest
by_prefix (some text) parse rest = parse text

unfoldable pub grpc_kind : String → Result DriverError DriverKind
unfolding valid_grpc_address
grpc_kind addr = if not (valid_grpc_address addr) then err (bad_grpc addr) else ok (grpc addr)

-- `Url::parse` comes from the url crate.
module _ (parse_url : String → Option Url) where
  unfoldable pub a2a_kind : String → Result DriverError DriverKind
  unfolding valid_a2a_url
  a2a_kind url = if not (valid_a2a_url parse_url url) then err (bad_a2a url) else ok (a2a url)

  -- The `other` arm: the first prefix that fits decides.
  unfoldable pub prefixed_kind : String → Result DriverError DriverKind
  unfolding grpc_kind a2a_kind valid_binary_name strip_prefix
  prefixed_kind s = by_prefix (strip_prefix s "grpc:") grpc_kind (
      by_prefix (strip_prefix s "a2a:") a2a_kind (
        by_prefix (strip_prefix s "acp:") (command_kind acp bad_acp)
          (by_prefix (strip_prefix s "pty:") (command_kind pty bad_pty) (err (unknown_driver s)))))

  unfoldable pub parse_driver_kind : String → Result DriverError DriverKind
  unfolding prefixed_kind
  parse_driver_kind s =
      if s == "claude"
      then ok claude
      else if s == "openclaude"
      then ok open_claude
      else if s == "codex"
      then ok codex
      else if s == "opencode"
      then ok open_code
      else if s == "qoder"
      then ok qoder
      else if s == "rscode"
      then ok rscode
      else if s == "codebuddy"
      then ok codebuddy
      else if s == "aider"
      then ok aider
      else prefixed_kind s

  -- `DriverKind::parse`
  unfoldable pub parse_kind : String → Option DriverKind
  unfolding parse_driver_kind
  parse_kind s = elim (parse_driver_kind s) [ ok kind ↦ some kind | err _ ↦ none ]

  -- `SessionSpec::driver_kind`, over what `driver_kind_from_manifest` reads at a path
  unfoldable pub driver_kind :
      (from_manifest : String → Option DriverKind) → SessionSpec → Option DriverKind
  unfolding parse_kind
  driver_kind from_manifest s = elim s.driver [
    | some kind ↦ some kind
    | none ↦
        let by_agent : Option DriverKind = elim s.agent [ none ↦ none | some a ↦ parse_kind a ] in
        let by_manifest : Option DriverKind = elim s.manifest [
          | none ↦ none
          | some path ↦ from_manifest path
        ] in
        elim by_agent [ some kind ↦ some kind | none ↦ by_manifest ]
  ]
