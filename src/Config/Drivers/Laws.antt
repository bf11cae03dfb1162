-- ===== src/Config/Drivers/Laws.antt =====
-- What the driver names that are accepted can name.
use cap_protocol.Prelude.{
  String, Bool, true, false, not, ◌||◌, ◌≡◌, ◌≢◌, Option, none, some, refl, arith, ◌==◌, eq_iff,
  Result, ok, err, contains_char, strip_prefix, if◌then◌else◌,
}
use cap_protocol.Config.{
  DriverKind, claude, open_claude, codex, open_code, qoder, rscode, codebuddy, aider, acp, a2a,
  grpc, pty,
}
use cap_protocol.Config.Names.{valid_binary_name}
use cap_protocol.Config.Drivers.{
  DriverError, command_kind, by_prefix, grpc_kind, a2a_kind, prefixed_kind, parse_driver_kind,
  unknown_driver, bad_grpc, bad_a2a, bad_acp, bad_pty,
}
use cap_protocol.Config.Drivers.Hosts.{
  Url, rsplit_once, is_private_host, valid_host_port, valid_grpc_address, valid_url, valid_a2a_url,
}

-- The command is no path: it is a bare name of a program.
abbrev pub IsBare : String → Type 0
IsBare cmd = (cmd ≢ "") × (contains_char b'/' cmd ≡ false)

module _ (parse_url : String → Option Url) where
  -- An address has a host that is not private; a command is a bare name.
  abbrev pub IsSafe : DriverKind → Type 0
  IsSafe (grpc addr) =
      (host : String) × (port : String) × (rsplit_once b':' addr ≡ some (host, port))
      × (is_private_host host ≡ false)
  IsSafe (a2a text) =
      (url : Url) × (host : String) × (parse_url text ≡ some url)
      × (url.host_str ≡ some host)
      × (is_private_host host ≡ false)
  IsSafe (acp cmd) = IsBare cmd
  IsSafe (pty cmd) = IsBare cmd
  IsSafe _ = Unit

  abbrev SafeResult : Result DriverError DriverKind → Type 0
  SafeResult (ok kind) = IsSafe kind
  SafeResult (err e) = Unit

valid_host_port-public :
    (host port : String) → valid_host_port host port ≡ true → is_private_host host ≡ false
unfolding valid_host_port
valid_host_port-public host port h = ground arith

valid_binary_name-IsBare : (cmd : String) → valid_binary_name cmd ≡ true → IsBare cmd
unfolding valid_binary_name
valid_binary_name-IsBare cmd h = (λ e. ground (arith, eq_iff cmd ""), ground arith)

valid_url-public :
    (url : Url) (found : Option String)
    → url.host_str ≡ found
    → valid_url url ≡ true
    → (host : String) × (url.host_str ≡ some host) × (is_private_host host ≡ false)
unfolding valid_url
valid_url-public url none e h = absurd (ground arith)
valid_url-public url (some host) e h = (host, e, ground arith)

valid_grpc_address-public :
    (addr : String) (parts : Option (String × String))
    → rsplit_once b':' addr ≡ parts
    → valid_grpc_address addr ≡ true
    → (host : String) × (port : String) × (rsplit_once b':' addr ≡ some (host, port))
      × (is_private_host host ≡ false)
unfolding valid_grpc_address
valid_grpc_address-public addr none e h = absurd (ground arith)
valid_grpc_address-public addr (some (host, port)) e h =
    (host, port, e, valid_host_port-public host port (ground arith))

module _ (parse_url : String → Option Url) where
  valid_a2a_url-IsSafe :
      (text : String) (parsed : Option Url)
      → parse_url text ≡ parsed
      → valid_a2a_url parse_url text ≡ true
      → IsSafe parse_url (a2a text)
  unfolding valid_a2a_url
  valid_a2a_url-IsSafe text none e h = absurd (ground arith)
  valid_a2a_url-IsSafe text (some url) e h =
      let found = valid_url-public url url.host_str refl (ground arith) in
      (url, found.0, e, found.1, found.2)

  if-SafeResult :
      (b : Bool) (r t : Result DriverError DriverKind)
      → (b ≡ true → SafeResult parse_url r)
      → (b ≡ false → SafeResult parse_url t)
      → SafeResult parse_url (if b then r else t)
  if-SafeResult true r t h k = h refl
  if-SafeResult false r t h k = k refl

  by_prefix-SafeResult :
      (o : Option String) (parse : String → Result DriverError DriverKind)
      (rest : Result DriverError DriverKind)
      → ((text : String) → SafeResult parse_url (parse text))
      → SafeResult parse_url rest
      → SafeResult parse_url (by_prefix o parse rest)
  by_prefix-SafeResult none parse rest h k = k
  by_prefix-SafeResult (some text) parse rest h k = h text

  grpc_kind-SafeResult : (addr : String) → SafeResult parse_url (grpc_kind addr)
  unfolding grpc_kind
  grpc_kind-SafeResult addr =
      if-SafeResult (not (valid_grpc_address addr)) (err (bad_grpc addr)) (ok (grpc addr)) (λ h. tt)
        (λ h. valid_grpc_address-public addr (rsplit_once b':' addr) refl (ground arith))

  a2a_kind-SafeResult : (text : String) → SafeResult parse_url (a2a_kind parse_url text)
  unfolding a2a_kind
  a2a_kind-SafeResult text =
      if-SafeResult (not (valid_a2a_url parse_url text)) (err (bad_a2a text)) (ok (a2a text))
        (λ h. tt) (λ h. valid_a2a_url-IsSafe text (parse_url text) refl (ground arith))

  command_kind-SafeResult :
      (kind : String → DriverKind) (refused : String → DriverError) (cmd : String)
      → (IsBare cmd → IsSafe parse_url (kind cmd))
      → SafeResult parse_url (command_kind kind refused cmd)
  command_kind-SafeResult kind refused cmd h =
      if-SafeResult (cmd == "" || not (valid_binary_name cmd)) (err (refused cmd)) (ok (kind cmd))
        (λ k. tt) (λ k. h (valid_binary_name-IsBare cmd (ground arith)))

  prefixed_kind-SafeResult : (s : String) → SafeResult parse_url (prefixed_kind parse_url s)
  unfolding prefixed_kind
  prefixed_kind-SafeResult s =
      by_prefix-SafeResult (strip_prefix s "grpc:") grpc_kind _ grpc_kind-SafeResult (
        by_prefix-SafeResult (strip_prefix s "a2a:") (a2a_kind parse_url) _ a2a_kind-SafeResult (
          by_prefix-SafeResult (strip_prefix s "acp:") (command_kind acp bad_acp) _
            (λ cmd. command_kind-SafeResult acp bad_acp cmd (λ b. b))
            (by_prefix-SafeResult (strip_prefix s "pty:") (command_kind pty bad_pty)
              (err (unknown_driver s)) (λ cmd. command_kind-SafeResult pty bad_pty cmd (λ b. b))
              tt)))

  named-SafeResult :
      (b : Bool) (kind : DriverKind) (t : Result DriverError DriverKind)
      → IsSafe parse_url kind
      → SafeResult parse_url t
      → SafeResult parse_url (if b then ok kind else t)
  named-SafeResult b kind t h k = if-SafeResult b (ok kind) t (λ e. h) (λ e. k)

  parse_driver_kind-SafeResult : (s : String) → SafeResult parse_url (parse_driver_kind parse_url s)
  unfolding parse_driver_kind
  parse_driver_kind-SafeResult s = named-SafeResult (s == "claude") claude _ tt (
      named-SafeResult (s == "openclaude") open_claude _ tt (
        named-SafeResult (s == "codex") codex _ tt (
          named-SafeResult (s == "opencode") open_code _ tt (
            named-SafeResult (s == "qoder") qoder _ tt (
              named-SafeResult (s == "rscode") rscode _ tt (
                named-SafeResult (s == "codebuddy") codebuddy _ tt
                  (named-SafeResult (s == "aider") aider _ tt (prefixed_kind-SafeResult s))))))))

  -- Whatever text names a driver, a driver that connects to an address has a host there that
  -- `is_private_host` does not call private, and one that starts a command starts a program by a
  -- name that is not empty and has no slash.
  pub parse_driver_kind-IsSafe :
      (s : String) (kind : DriverKind)
      → parse_driver_kind parse_url s ≡ ok kind
      → IsSafe parse_url kind
  parse_driver_kind-IsSafe s kind e = rw e at (parse_driver_kind-SafeResult s)
