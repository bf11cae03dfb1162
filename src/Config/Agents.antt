-- ===== src/Config/Agents.antt =====
-- The agents that have a driver of their own, by their names.
use cap_protocol.Prelude.{
  String, true, false, List, [], ◌∷◌, ◌≡◌, ◌≢◌, ◌⊎◌, inl, inr, refl, ap, ◌==◌, eq_iff, Bool-cases,
  arith, Member,
}
use cap_protocol.Config.{DriverKind, claude, open_claude, open_code, rscode, codebuddy, pty}
use cap_protocol.Config.Manifest.{AgentManifest, stream_json_kind}

-- The names that have a driver of their own
abbrev pub known_agents : List (String × DriverKind)
known_agents =
    ("claude-code", claude)
    ∷ ("openclaude", open_claude)
    ∷ ("opencode", open_code)
    ∷ ("rscode", rscode)
    ∷ ("codebuddy", codebuddy)
    ∷ []

pub differs : (a b : String) → (a == b) ≡ false → a ≢ b
differs a b e f = absurd (ground (arith, (eq_iff a b).1 f, e))

module _ (m : AgentManifest) where
  -- The driver of a known name, or the binary under a terminal
  abbrev pub IsNamed : DriverKind → Type 0
  IsNamed kind =
      Member (m.name, kind) known_agents
      ⊎ (((k : DriverKind) → ¬ Member (m.name, k) known_agents) × (kind ≡ pty m.binary))

  unknown :
      (m.name == "claude-code") ≡ false
      → (m.name == "openclaude") ≡ false
      → (m.name == "opencode") ≡ false
      → (m.name == "rscode") ≡ false
      → (m.name == "codebuddy") ≡ false
      → (k : DriverKind) → ¬ Member (m.name, k) known_agents
  unknown e f g h i k (inl p) = differs m.name _ e (ap (λ q. q.0) p)
  unknown e f g h i k (inr (inl p)) = differs m.name _ f (ap (λ q. q.0) p)
  unknown e f g h i k (inr (inr (inl p))) = differs m.name _ g (ap (λ q. q.0) p)
  unknown e f g h i k (inr (inr (inr (inl p)))) = differs m.name _ h (ap (λ q. q.0) p)
  unknown e f g h i k (inr (inr (inr (inr (inl p))))) = differs m.name _ i (ap (λ q. q.0) p)
  unknown e f g h i k (inr (inr (inr (inr (inr n))))) = n

  named :
      (name : String) (k : DriverKind)
      → (m.name == name) ≡ true
      → ◌≡◌ {A = String × DriverKind} (m.name, k) (name, k)
  named name k e = ap (λ n. (n, k)) ((eq_iff m.name name).0 e)

  pub stream_json_kind-IsNamed : IsNamed (stream_json_kind m)
  unfolding stream_json_kind
  stream_json_kind-IsNamed = elim (Bool-cases (m.name == "claude-code")) [
    | inl y ↦ rw y (inl (inl (named "claude-code" claude y)))
    | inr e ↦ elim (Bool-cases (m.name == "openclaude")) [
      | inl y ↦ rw (e, y) (inl (inr (inl (named "openclaude" open_claude y))))
      | inr f ↦ elim (Bool-cases (m.name == "opencode")) [
        | inl y ↦ rw (e, f, y) (inl (inr (inr (inl (named "opencode" open_code y)))))
        | inr g ↦ elim (Bool-cases (m.name == "rscode")) [
          | inl y ↦ rw (e, f, g, y) (inl (inr (inr (inr (inl (named "rscode" rscode y))))))
          | inr h ↦ elim (Bool-cases (m.name == "codebuddy")) [
            | inl y ↦
                rw (e, f, g, h, y)
                  (inl (inr (inr (inr (inr (inl (named "codebuddy" codebuddy y)))))))
            | inr i ↦ rw (e, f, g, h, i) (inr (unknown e f g h i, refl))
          ]
        ]
      ]
    ]
  ]
