-- ===== src/Prelude/Lists.antt =====
-- Lists under native numbers, and predicates by recursion.
use Prim.Native.Nat.{ℕ, zero, suc, ◌+◌, ◌≤◌}
use mathlib.Core.Path.{◌≡◌, refl, sym, subst, ap}
use mathlib.Core.Logic.{◌⊎◌, inl, inr, ◌↔◌}
use mathlib.Core.Bool.{Bool, true, false, ◌&&◌, ◌||◌}
use mathlib.Core.List.{List, [], ◌∷◌, ◌++◌, map}
use native.Mathlib.Omega.{arith}

module _ {ℓ} {A : Type ℓ} where
  abbrev pub length : List A → ℕ
  length [] = 0
  length (_ ∷ xs) = suc (length xs)

  abbrev pub take : ℕ → List A → List A
  take zero xs = []
  take (suc n) [] = []
  take (suc n) (x ∷ xs) = x ∷ take n xs

  abbrev pub drop : ℕ → List A → List A
  drop zero xs = xs
  drop (suc n) [] = []
  drop (suc n) (x ∷ xs) = drop n xs

  -- `iter().any(test)` and `iter().all(test)`
  abbrev pub any : (A → Bool) → List A → Bool
  any p [] = false
  any p (x ∷ xs) = p x || any p xs

  abbrev pub all : (A → Bool) → List A → Bool
  all p [] = true
  all p (x ∷ xs) = p x && all p xs

  pub length-append : (xs ys : List A) → length (xs ++ ys) ≡ length xs + length ys
  length-append [] ys = omega arith
  length-append (x ∷ xs) ys = omega (arith, length-append xs ys)

  pub length-take : (n : ℕ) (xs : List A) → length (take n xs) ≤ n
  length-take zero xs = omega arith
  length-take (suc n) [] = omega arith
  length-take (suc n) (x ∷ xs) = omega (arith, length-take n xs)

pub length-map {ℓ κ} :
    {A : Type ℓ} {B : Type κ} (f : A → B) (xs : List A) → length (map f xs) ≡ length xs
length-map f [] = refl
length-map f (x ∷ xs) = ap suc (length-map f xs)

-- A predicate on every element, which computes to tuples.
abbrev pub All {ℓ κ} : {A : Type ℓ} → (A → Type κ) → List A → Type κ
All P [] = Unit
All P (x ∷ xs) = P x × All P xs

-- Membership with its place kept, which computes to sums of equations.
abbrev pub Member : {A : Type 0} → A → List A → Type 0
Member a [] = ⊥
Member a (x ∷ xs) = (a ≡ x) ⊎ Member a xs

-- Some element satisfies the predicate.
abbrev pub Some : {A : Type 0} → (A → Type 0) → List A → Type 0
Some P [] = ⊥
Some P (x ∷ xs) = P x ⊎ Some P xs

module _ {A : Type 0} where
  pub Member-append_right : (a : A) (xs ys : List A) → Member a ys → Member a (xs ++ ys)
  Member-append_right a [] ys m = m
  Member-append_right a (x ∷ xs) ys m = inr (Member-append_right a xs ys m)

  pub Member-append_left : (a : A) (xs ys : List A) → Member a xs → Member a (xs ++ ys)
  Member-append_left a (x ∷ xs) ys (inl e) = inl e
  Member-append_left a (x ∷ xs) ys (inr m) = inr (Member-append_left a xs ys m)
  Member-append_left a [] ys m = absurd m

  pub Member-append_cases :
      (a : A) (xs ys : List A) → Member a (xs ++ ys) → Member a xs ⊎ Member a ys
  Member-append_cases a [] ys m = inr m
  Member-append_cases a (x ∷ xs) ys (inl e) = inl (inl e)
  Member-append_cases a (x ∷ xs) ys (inr m) = elim (Member-append_cases a xs ys m) [
    | inl l ↦ inl (inr l)
    | inr r ↦ inr r
  ]

  pub Member-concat : (a x : A) (xs : List A) → Member a (xs ++ x ∷ []) ↔ (Member a xs ⊎ (a ≡ x))
  Member-concat a x [] = (
    λ m. elim m [ inl e ↦ inr e | inr n ↦ absurd n ],
    λ m. elim m [ inl n ↦ absurd n | inr e ↦ inl e ],
  )
  Member-concat a x (y ∷ ys) = ground (arith, Member-concat a x ys)

  -- A predicate that holds everywhere holds at each member, and the other way round.
  pub All-at : (P : A → Type 0) (xs : List A) (a : A) → All P xs → Member a xs → P a
  All-at P [] a h m = absurd m
  All-at P (x ∷ xs) a h (inl e) = subst P (sym e) h.0
  All-at P (x ∷ xs) a h (inr m) = All-at P xs a h.1 m

  pub All-of : (P : A → Type 0) (xs : List A) → ((a : A) → Member a xs → P a) → All P xs
  All-of P [] h = tt
  All-of P (x ∷ xs) h = (h x (inl refl), All-of P xs (λ a m. h a (inr m)))

  pub All-imp : (P Q : A → Type 0) (xs : List A) → ((a : A) → P a → Q a) → All P xs → All Q xs
  All-imp P Q [] f h = tt
  All-imp P Q (x ∷ xs) f h = (f x h.0, All-imp P Q xs f h.1)
