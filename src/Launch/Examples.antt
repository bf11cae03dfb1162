-- ===== src/Launch/Examples.antt =====
-- A machine where codex has no stream-json mode that lasts.
use cap_protocol.Prelude.{true, none, [], ◌∷◌, ◌≡◌, refl}
use cap_protocol.Config.{DriverKind, PermissionPolicy}
use cap_protocol.Launch.{Attempt, System}
use cap_protocol.Launch.Factory.{stream, codex_mcp, build}

abbrev machine : System
machine = record {
  env_var = λ name. none;
  file_stem = λ path. none;
  help_has = λ bin subcommand text. true;
  attempt = λ cmd. Attempt.exited_early;
}

codex_denied :
    build machine DriverKind.codex "/work" PermissionPolicy.deny
    ≡ stream (record {
      bin = "codex";
      args =
          "exec" ∷ "--sandbox" ∷ "read-only" ∷ "--ask-for-approval" ∷ "never" ∷ "--input-format"
          ∷ "stream-json" ∷ "--output-format" ∷ "stream-json" ∷ "--skip-git-repo-check" ∷ [];
    })
      ∷ codex_mcp "codex" "never" "read-only"
      ∷ []
unfolding build
codex_denied = refl
