-- ===== src/Config/Chosen.antt =====
-- The driver that an agent manifest names, by its fast paths in the order of preference.
use cap_protocol.Prelude.{
  subst, String, Bool, true, false, ◌||◌, Option, some, List, [], ◌∷◌, ◌≡◌, ◌≢◌, ◌⊎◌, inl, inr,
  refl, ap, sym, ◌==◌, eq_iff, Bool-cases, arith, if◌then◌else◌,
}
use cap_protocol.Config.{DriverKind, open_claude, acp, a2a, grpc, pty}
use cap_protocol.Config.Agents.{differs, IsNamed, stream_json_kind-IsNamed}
use cap_protocol.Config.Trimmed.{IsTrimmed, trim_http-IsTrimmed}
use cap_protocol.Config.Manifest.{
  FastPathValue, bool, command, url, enabled, url_of, AgentManifest, BindingKind, grpc_binding,
  stream_json_binding, acp_stdio_binding, a2a_https_sse_binding, pty_binding, push_enabled,
  binding_preferences, trim_http, stream_json_kind, grpc_kind_of, a2a_kind_of, pty_kind_of,
  first_kind, driver_kind_from_agent_manifest,
}

-- A fast path that is there: `true`, a command that is not empty, or a URL that is no empty text and not "false"
abbrev pub IsOn : FastPathValue → Type 0
IsOn (bool v) = v ≡ true
IsOn (command []) = ⊥
IsOn (command (c ∷ cs)) = Unit
IsOn (url v) = (v ≢ "") × (v ≢ "false")

module _ (m : AgentManifest) (c : String) where
  -- The last choice but the command: an A2A address
  abbrev pub ByA2a : FastPathValue → DriverKind → Type 0
  ByA2a (url u) kind = (IsOn (url u) × (kind ≡ a2a u)) ⊎ ((¬ IsOn (url u)) × (kind ≡ pty c))
  ByA2a _ kind = kind ≡ pty c

  abbrev pub ByAcp : DriverKind → Type 0
  ByAcp kind =
      (IsOn m.acp_stdio × (kind ≡ acp m.binary))
      ⊎ ((¬ IsOn m.acp_stdio) × ByA2a m.a2a_serve_at kind)

  abbrev pub ByStreamJson : DriverKind → Type 0
  ByStreamJson kind = (IsOn m.stream_json × IsNamed m kind) ⊎ ((¬ IsOn m.stream_json) × ByAcp kind)

  abbrev pub IsOpenClaude : Type 0
  IsOpenClaude = (m.name ≡ "openclaude") ⊎ (m.binary ≡ "openclaude")

  -- First a gRPC address, or OpenClaude where gRPC is on without an address
  abbrev pub ByGrpc : FastPathValue → DriverKind → Type 0
  ByGrpc (url u) kind =
      (IsOn (url u) × ((addr : String) × IsTrimmed u addr × (kind ≡ grpc addr)))
      ⊎ ((¬ IsOn (url u)) × ByStreamJson kind)
  ByGrpc v kind =
      (IsOn v × IsOpenClaude × (kind ≡ open_claude))
      ⊎ ((¬ (IsOn v × IsOpenClaude)) × ByStreamJson kind)

  abbrev pub Found : (DriverKind → Type 0) → Option DriverKind → Type 0
  Found P o = (kind : DriverKind) × (o ≡ some kind) × P kind

  enabled-cases :
      (v : FastPathValue) → ((enabled v ≡ true) × IsOn v) ⊎ ((enabled v ≡ false) × (¬ IsOn v))
  unfolding enabled
  enabled-cases (bool true) = inl (refl, refl)
  enabled-cases (bool false) = inr (refl, λ e. absurd (ground (arith, e)))
  enabled-cases (command []) = inr (refl, λ e. e)
  enabled-cases (command (d ∷ ds)) = inl (refl, tt)
  enabled-cases (url v) = elim (Bool-cases (v == "")) [
    | inl empty ↦ inr (rw empty refl, λ h. h.0 ((eq_iff v "").0 empty))
    | inr full ↦ elim (Bool-cases (v == "false")) [
      | inl off ↦ inr (rw (full, off) refl, λ h. h.1 ((eq_iff v "false").0 off))
      | inr on ↦ inl (
        rw (full, on) refl,
        (
          λ e. absurd (ground (arith, (eq_iff v "").1 e, full)),
          λ e. absurd (ground (arith, (eq_iff v "false").1 e, on)),
        ),
      )
    ]
  ]

  url_of-IsOn : (u : String) → IsOn (url u) → url_of (url u) ≡ some u
  unfolding url_of
  url_of-IsOn u h = elim (Bool-cases (u == "false")) [
    | inl off ↦ absurd (h.1 ((eq_iff u "false").0 off))
    | inr on ↦ rw on refl
  ]

  a2a_kind_of-ByA2a :
      (v : FastPathValue) → IsOn v → Found (ByA2a v) (a2a_kind_of (url_of v) (some (pty c)))
  unfolding a2a_kind_of url_of
  a2a_kind_of-ByA2a (bool b) h = (pty c, refl, refl)
  a2a_kind_of-ByA2a (command cmd) h = (pty c, refl, refl)
  a2a_kind_of-ByA2a (url u) h = (a2a u, rw (url_of-IsOn u h) refl, inl (h, refl))

  ByA2a-off : (v : FastPathValue) → ¬ IsOn v → ByA2a v (pty c)
  ByA2a-off (bool b) n = refl
  ByA2a-off (command cmd) n = refl
  ByA2a-off (url u) n = inr (n, refl)

  -- Whether a fast path is on, as the code tests it
  Tested : FastPathValue → Bool → Type 0
  Tested v b = ((b ≡ true) × IsOn v) ⊎ ((b ≡ false) × (¬ IsOn v))

  command-Found :
      (cs : List String)
      → m.startup_command ≡ c ∷ cs
      → first_kind m (pty_binding ∷ []) ≡ some (pty c)
  unfolding first_kind pty_kind_of
  command-Found cs e = ap pty_kind_of e

  a2a-Found :
      (b : Bool) (bs : List BindingKind)
      → Tested m.a2a_serve_at b
      → first_kind m bs ≡ some (pty c)
      → Found (ByA2a m.a2a_serve_at) (first_kind m (if b then a2a_https_sse_binding ∷ bs else bs))
  unfolding Tested first_kind
  a2a-Found true bs (inl (_, h)) e =
      subst (λ o. Found (ByA2a m.a2a_serve_at) (a2a_kind_of (url_of m.a2a_serve_at) o)) (sym e)
        (a2a_kind_of-ByA2a m.a2a_serve_at h)
  a2a-Found true bs (inr (f, n)) e = absurd (ground arith)
  a2a-Found false bs (inl (f, h)) e = absurd (ground arith)
  a2a-Found false bs (inr (_, n)) e = (pty c, e, ByA2a-off m.a2a_serve_at n)

  acp-Found :
      (b : Bool) (bs : List BindingKind)
      → Tested m.acp_stdio b
      → Found (ByA2a m.a2a_serve_at) (first_kind m bs)
      → Found ByAcp (first_kind m (if b then acp_stdio_binding ∷ bs else bs))
  unfolding Tested first_kind
  acp-Found true bs (inl (_, h)) k = (acp m.binary, refl, inl (h, refl))
  acp-Found true bs (inr (f, n)) k = absurd (ground arith)
  acp-Found false bs (inl (f, h)) k = absurd (ground arith)
  acp-Found false bs (inr (_, n)) (kind, e, h) = (kind, e, inr (n, h))

  stream_json-Found :
      (b : Bool) (bs : List BindingKind)
      → Tested m.stream_json b
      → Found ByAcp (first_kind m bs)
      → Found ByStreamJson (first_kind m (if b then stream_json_binding ∷ bs else bs))
  unfolding Tested first_kind
  stream_json-Found true bs (inl (_, h)) k =
      (stream_json_kind m, refl, inl (h, stream_json_kind-IsNamed m))
  stream_json-Found true bs (inr (f, n)) k = absurd (ground arith)
  stream_json-Found false bs (inl (f, h)) k = absurd (ground arith)
  stream_json-Found false bs (inr (_, n)) (kind, e, h) = (kind, e, inr (n, h))

  neither : (m.name == "openclaude") ≡ false → (m.binary == "openclaude") ≡ false → ¬ IsOpenClaude
  neither f g (inl p) = differs m.name "openclaude" f p
  neither f g (inr p) = differs m.binary "openclaude" g p

  -- gRPC is on without an address.
  no_address :
      (v : FastPathValue) (o : Option DriverKind)
      → IsOn v
      → Found ByStreamJson o
      → Found
          (λ kind.
            (IsOn v × IsOpenClaude × (kind ≡ open_claude))
            ⊎ ((¬ (IsOn v × IsOpenClaude)) × ByStreamJson kind))
          (if m.name == "openclaude" || m.binary == "openclaude" then some open_claude else o)
  no_address v o on (kind, e, h) = elim (Bool-cases (m.name == "openclaude")) [
    | inl y ↦ rw y (open_claude, refl, inl (on, inl ((eq_iff m.name "openclaude").0 y), refl))
    | inr f ↦ elim (Bool-cases (m.binary == "openclaude")) [
      | inl y ↦
          rw (f, y) (open_claude, refl, inl (on, inr ((eq_iff m.binary "openclaude").0 y), refl))
      | inr g ↦ rw (f, g) (kind, e, inr (λ p. neither f g p.1, h))
    ]
  ]

  grpc_kind_of-ByGrpc :
      (v : FastPathValue) (o : Option DriverKind)
      → IsOn v
      → Found ByStreamJson o
      → Found (ByGrpc v) (grpc_kind_of m (url_of v) o)
  unfolding grpc_kind_of url_of
  grpc_kind_of-ByGrpc (bool b) o h k = no_address (bool b) o h k
  grpc_kind_of-ByGrpc (command cmd) o h k = no_address (command cmd) o h k
  grpc_kind_of-ByGrpc (url u) o h k = (
    grpc (trim_http 0 u),
    rw (url_of-IsOn u h) refl,
    inl (h, (trim_http 0 u, trim_http-IsTrimmed u, refl)),
  )

  ByGrpc-off :
      (v : FastPathValue) (kind : DriverKind) → ¬ IsOn v → ByStreamJson kind → ByGrpc v kind
  ByGrpc-off (bool b) kind n h = inr (λ p. n p.0, h)
  ByGrpc-off (command cmd) kind n h = inr (λ p. n p.0, h)
  ByGrpc-off (url u) kind n h = inr (n, h)

  grpc-Found :
      (b : Bool) (bs : List BindingKind)
      → Tested m.grpc_path b
      → Found ByStreamJson (first_kind m bs)
      → Found (ByGrpc m.grpc_path) (first_kind m (if b then grpc_binding ∷ bs else bs))
  unfolding Tested first_kind
  grpc-Found true bs (inl (_, h)) k = grpc_kind_of-ByGrpc m.grpc_path (first_kind m bs) h k
  grpc-Found true bs (inr (f, n)) k = absurd (ground arith)
  grpc-Found false bs (inl (f, h)) k = absurd (ground arith)
  grpc-Found false bs (inr (_, n)) (kind, e, h) = (kind, e, ByGrpc-off m.grpc_path kind n h)

  -- A manifest that has a start command names a driver. It is the first of these: the gRPC address without
  -- its `http://`; OpenClaude, if gRPC is on without an address for an agent of this name or binary; with
  -- stream-json on, the driver of the agent's name, or its binary under a terminal; with ACP on, its
  -- binary; the A2A address; and at last the command itself, under a terminal.
  pub driver_kind_from_agent_manifest-ByGrpc :
      (cs : List String)
      → m.startup_command ≡ c ∷ cs
      → Found (ByGrpc m.grpc_path) (driver_kind_from_agent_manifest m)
  unfolding driver_kind_from_agent_manifest binding_preferences push_enabled Tested
  driver_kind_from_agent_manifest-ByGrpc cs e =
      grpc-Found (enabled m.grpc_path) _ (enabled-cases m.grpc_path) (
        stream_json-Found (enabled m.stream_json) _ (enabled-cases m.stream_json) (
          acp-Found (enabled m.acp_stdio) _ (enabled-cases m.acp_stdio) (
            a2a-Found (enabled m.a2a_serve_at) _ (enabled-cases m.a2a_serve_at)
              (command-Found cs e))))
