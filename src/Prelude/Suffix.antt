-- ===== src/Prelude/Suffix.antt =====
-- `strip_suffix` inverts appending the suffix.
use Prim.Native.Char.{Char}
use Prim.Native.String.{String, [], ◌∷◌, ◌++◌, count}
use mathlib.Core.Path.{◌≡◌, refl, ap}
use mathlib.Core.Logic.{inl, inr}
use mathlib.Core.Bool.{false}
use mathlib.Core.Option
use mathlib.Core.Option.{Option, none, some}
use native.Mathlib.Omega.{arith}
use text.Mathlib.TextEquality.{eq_iff}
use text.Mathlib.TextPositions.{eq_refl}
use text.Mathlib.TextLemmas.{nil-append, cons-append, length-append, length-cons}
use cap_protocol.Prelude.Tests.{◌==◌, Bool-cases}
use cap_protocol.Prelude.Texts.{strip_suffix}

map-some_inv :
    (o : Option String) (f : String → String) {r : String}
    → Option.map f o ≡ some r
    → (t : String) × (o ≡ some t) × (f t ≡ r)
map-some_inv none f h = cc
map-some_inv (some t) f h = (t, refl, cc)

strip_suffix_self : (p : String) → strip_suffix p p ≡ some []
unfolding strip_suffix
strip_suffix_self [] = refl
strip_suffix_self (c ∷ p) = rw eq_refl

-- A longer text is not the suffix itself.
longer : (c : Char) (r p : String) → (c ∷ (r ++ p) == p) ≡ false
longer c r p = elim (Bool-cases (c ∷ (r ++ p) == p)) [
  | inl e ↦ absurd (
      omega (
        arith,
        ap count ((eq_iff (c ∷ (r ++ p)) p).0 e),
        length-cons c (r ++ p),
        length-append r p,
      ))
  | inr e ↦ e
]

-- What is returned stands before the suffix.
pub strip_suffix-some : (s p : String) {r : String} → strip_suffix s p ≡ some r → s ≡ r ++ p
unfolding strip_suffix
strip_suffix-some [] p {r} h = elim (Bool-cases ([] == p)) [
  | inl e ↦ cc (rw e at h, (eq_iff [] p).0 e, nil-append p)
  | inr e ↦ cc (rw e at h)
]
strip_suffix-some (c ∷ s) p {r} h = elim (Bool-cases (c ∷ s == p)) [
  | inl e ↦ cc (rw e at h, (eq_iff (c ∷ s) p).0 e, nil-append p)
  | inr e ↦
      let (q, f, g) = map-some_inv (strip_suffix s p) (λ t. c ∷ t) (rw e at h) in
      cc (strip_suffix-some s p f, g, cons-append c q p)
]

-- The suffix is found wherever it ends the text.
pub strip_suffix-append : (r p : String) → strip_suffix (r ++ p) p ≡ some r
unfolding strip_suffix
strip_suffix-append [] p = rw nil-append (strip_suffix_self p)
strip_suffix-append (c ∷ r) p =
    rw (cons-append, longer c r p, strip_suffix) (rw (strip_suffix-append r p))
