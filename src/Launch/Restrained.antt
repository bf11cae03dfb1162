-- ===== src/Launch/Restrained.antt =====
-- What the policies `ask` and `deny` keep from the command lines.
use cap_protocol.Prelude.{String, Bool, false, [], ◌∷◌, ◌≡◌, any, ◌==◌}
use cap_protocol.Launch.Factory.{Launch, stream, codex_mcp, acp, pty, a2a, grpc}

-- The arguments by which an agent stops to ask, or leaves its sandbox
abbrev pub is_dangerous : String → Bool
is_dangerous arg =
    any (λ s. arg == s)
      ("--dangerously-skip-permissions" ∷ "--dangerously-bypass-approvals-and-sandbox"
        ∷ "danger-full-access" ∷ "--yes" ∷ [])

abbrev pub IsRestrained : Launch → Type 0
IsRestrained (stream cmd) = any is_dangerous cmd.args ≡ false
IsRestrained (codex_mcp bin approval sandbox) = is_dangerous sandbox ≡ false
IsRestrained (acp cmd) = any is_dangerous cmd.args ≡ false
IsRestrained (pty cmd) = any is_dangerous cmd.args ≡ false
IsRestrained (a2a endpoint) = Unit
IsRestrained (grpc addr) = Unit
