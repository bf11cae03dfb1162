-- ===== src/Prelude/Results.antt =====
-- `Result<A, E>`, its bind, and loops over a collection that stop at the first error.
use mathlib.Core.Path.{◌≡◌, refl}
use mathlib.Core.Logic.{◌⊎◌, inl, inr}
use mathlib.Core.Bool.{Bool, true, false}
use mathlib.Core.Option.{Option, none, some}
use mathlib.Core.List.{List, [], ◌∷◌}
use cap_protocol.Prelude.Lists.{All}

pub data Result {ℓ κ} (E : Type ℓ) (A : Type κ) : Type (ℓ ⊔ κ) where
  ok : A → Result E A
  err : E → Result E A

infixl 5 ◌>>=◌ ◌>>◌
abbrev pub ◌>>=◌ {ℓ κ ι} :
    {E : Type ℓ} {A : Type κ} {B : Type ι} → Result E A → (A → Result E B) → Result E B
ok a >>= f = f a
err e >>= f = err e

abbrev pub ◌>>◌ {ℓ κ} : {E : Type ℓ} {B : Type κ} → Result E (Unit {0}) → Result E B → Result E B
m >> k = m >>= λ _. k

-- `if bad { return Err(e) }`
abbrev pub fail_if {ℓ} : {E : Type ℓ} → Bool → E → Result E (Unit {0})
fail_if true e = err e
fail_if false e = ok tt

-- `opt.ok_or_else(|| e)`
abbrev pub ok_or {ℓ κ} : {E : Type ℓ} {A : Type κ} → Option A → E → Result E A
ok_or none e = err e
ok_or (some a) e = ok a

pub Result-cases : {E : Type 0} (r : Result E (Unit {0})) → (r ≡ ok tt) ⊎ ((e : E) × (r ≡ err e))
Result-cases (ok _) = inl refl
Result-cases (err e) = inr (e, refl)

-- A sequence of two checks succeeds exactly when both do.
pub >>-ok : {E : Type 0} (m k : Result E (Unit {0})) → (m >> k) ≡ ok tt → (m ≡ ok tt) × (k ≡ ok tt)
>>-ok (ok _) k h = (refl, h)
>>-ok (err e) k h = cc

pub >>-pass : {E : Type 0} (m k : Result E (Unit {0})) → m ≡ ok tt → k ≡ ok tt → (m >> k) ≡ ok tt
>>-pass m k h e = rw h e

pub fail_if-pass : {E : Type 0} (b : Bool) (e : E) → b ≡ false → fail_if b e ≡ ok tt
fail_if-pass b e h = rw h

-- A successful bind had a value to hand on.
pub >>=-ok :
    {E A : Type 0} (m : Result E A) (f : A → Result E (Unit {0}))
    → (m >>= f) ≡ ok tt
    → (a : A) × (m ≡ ok a) × (f a ≡ ok tt)
>>=-ok (ok a) f h = (a, refl, h)
>>=-ok (err e) f h = cc

pub fail_if-ok : {E : Type 0} (b : Bool) (e : E) → fail_if b e ≡ ok tt → b ≡ false
fail_if-ok true e h = cc
fail_if-ok false e h = refl

module _ {E : Type 0} {A : Type 0} where
  -- `for x in xs { body(x)?; }`
  unfoldable pub for_each : (A → Result E (Unit {0})) → List A → Result E (Unit {0})
  for_each body [] = ok tt
  for_each body (x ∷ xs) = body x >> for_each body xs

  -- The loop succeeds exactly when its body succeeds at every element.
  pub for_each-ok :
      (body : A → Result E (Unit {0})) (xs : List A)
      → for_each body xs ≡ ok tt
      → All (λ x. body x ≡ ok tt) xs
  unfolding for_each
  for_each-ok body [] h = tt
  for_each-ok body (x ∷ xs) h = elim (Result-cases (body x)) [
    | inl e ↦ (e, for_each-ok body xs (rw e at h))
    | inr (e, p) ↦ cc
  ]

  pub ok-for_each :
      (body : A → Result E (Unit {0})) (xs : List A)
      → All (λ x. body x ≡ ok tt) xs
      → for_each body xs ≡ ok tt
  unfolding for_each
  ok-for_each body [] h = refl
  ok-for_each body (x ∷ xs) h = rw h.0 (ok-for_each body xs h.1)
