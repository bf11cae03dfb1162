-- ===== src/Prelude/Prefixes.antt =====
-- `strip_prefix` inverts putting the prefix in front; texts that end with another.
use Prim.Native.Char.{code}
use Prim.Native.String.{String, [], ◌∷◌, ◌++◌}
use mathlib.Core.Path.{◌≡◌, sym, ◌∙◌}
use mathlib.Core.Logic.{inl, inr}
use mathlib.Core.Option.{some}
use native.Mathlib.Omega.{arith}
use text.Mathlib.TextEquality.{Char-path}
use text.Mathlib.TextLemmas.{nil-append, cons-append}
use cap_protocol.Prelude.Tests.{◌=ℕ◌, Bool-cases}
use cap_protocol.Prelude.Texts.{strip_prefix}

-- What is returned stands behind the prefix.
pub strip_prefix-some : (s p rest : String) → strip_prefix s p ≡ some rest → s ≡ p ++ rest
unfolding strip_prefix
strip_prefix-some s [] rest e = let f : s ≡ rest = ground (arith, e) in f ∙ sym (nil-append rest)
strip_prefix-some [] (d ∷ p) rest e = absurd (ground arith)
strip_prefix-some (c ∷ s) (d ∷ p) rest e = elim (Bool-cases (code c =ℕ code d)) [
  | inl same ↦
      let here : c ≡ d = Char-path c d (ground arith) in
      let later : s ≡ p ++ rest = strip_prefix-some s p rest (rw same at e) in
      (λ i. here i ∷ later i) ∙ sym (cons-append d p rest)
  | inr other ↦ cc (rw other at e)
]

-- A text that ends with another
abbrev pub EndsWith : String → String → Type 0
EndsWith v t = (before : String) × (v ≡ before ++ t)
