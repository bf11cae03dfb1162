-- ===== src/Pty/Sent.antt =====
-- What the driver of a terminal writes for a prompt, and what environment it gives an agent.
use Prim.Native.String.{◌++◌ as append, ◌∷◌ as char_then, [] as nothing}
use cap_protocol.Prelude.{
  String, true, false, Option, none, some, List, [], ◌∷◌, ◌++◌, ◌≡◌, ◌⊎◌, ok, err, any, ◌==◌,
  Member, ℕ,
}
use cap_protocol.Core.{Content}
use cap_protocol.Pty.{PromptGate}
use cap_protocol.Pty.Texts.{as_bytes}
use cap_protocol.Pty.Driver.{DriverError, PtyDriver, System, Outcome, is_sensitive_env_var}

-- The bytes of the texts of a prompt, one after the other; images have none.
abbrev pub typed_bytes : List Content → List ℕ
typed_bytes [] = []
typed_bytes (Content.text text ∷ rest) = as_bytes text ++ typed_bytes rest
typed_bytes (Content.image mime bytes ∷ rest) = typed_bytes rest

-- Marked as a paste between ESC [200~ and ESC [201~ exactly if the agent asked for that
abbrev pub IsTyped : List Content → Option PromptGate → List ℕ → Type 0
IsTyped content none bytes = bytes ≡ typed_bytes content
IsTyped content (some gate) bytes =
    ((gate.bracketed_paste ≡ false) × (bytes ≡ typed_bytes content))
    ⊎ ((gate.bracketed_paste ≡ true)
        × (bytes
            ≡ (27 ∷ b'[' ∷ b'2' ∷ b'0' ∷ b'0' ∷ b'~' ∷ [])
              ++ typed_bytes content
              ++ (27 ∷ b'[' ∷ b'2' ∷ b'0' ∷ b'1' ∷ b'~' ∷ [])))

-- The gate, if there is one, is armed and waits for the prompt's text to leave the box.
abbrev pub IsNoted : List Content → Option PromptGate → Option PromptGate → Type 0
IsNoted content none gate = gate ≡ none
IsNoted content (some before) none = ⊥
IsNoted content (some before) (some gate) =
    (gate.armed ≡ true)
    × (gate.bracketed_paste ≡ before.bracketed_paste)
    × ((text : String) × (gate.pending_submit ≡ some text) × (as_bytes text ≡ typed_bytes content))

-- How a prompt was sent: in full and noted in the gate, or not, with the gate left alone.
abbrev pub Prompted : List Content → PtyDriver → Outcome → Type 0
Prompted content d (ok _, d') =
    ((bytes : List ℕ) × IsTyped content d.prompt_gate bytes
      × (d'.written ≡ (d.written ++ bytes ∷ []) ++ (13 ∷ []) ∷ []))
    × IsNoted content d.prompt_gate d'.prompt_gate
Prompted content d (err e, d') = (e ≡ DriverError.agent_exited) × (d'.prompt_gate ≡ d.prompt_gate)

module _ (sys : System) where
  -- A chunk is taken, or the driver is as it was.
  abbrev Wrote : List ℕ → PtyDriver → Outcome → Type 0
  Wrote bytes d (ok _, d') =
      (d'.written ≡ d.written ++ bytes ∷ []) × (d'.prompt_gate ≡ d.prompt_gate)
  Wrote bytes d (err e, d') = (e ≡ DriverError.agent_exited) × (d'.prompt_gate ≡ d.prompt_gate)

-- Where a variable of an agent's environment comes from.
abbrev pub IsShown :
    List String → List (String × String) → List (String × String) → String × String → Type 0
IsShown env_remove inherited env (k, v) =
    Member (k, v) env
    ⊎ (Member (k, v) inherited
        × (any (λ r. r == k) env_remove ≡ false)
        × (is_sensitive_env_var k ≡ false))
