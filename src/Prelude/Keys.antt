-- ===== src/Prelude/Keys.antt =====
-- `HashSet<String>` and `HashMap<String, V>`, as a list of keys and an association list. What
-- depends on the order in which a hash table is walked is said where it is used.
use Prim.Native.String.{String}
use mathlib.Core.Path.{◌≡◌, refl}
use mathlib.Core.Bool.{Bool, true, false, ◌||◌}
use mathlib.Core.Option.{Option, none, some}
use mathlib.Core.List.{List, [], ◌∷◌}
use native.Mathlib.Omega.{arith}
use text.Mathlib.TextEquality.{eq_iff}
use cap_protocol.Prelude.Tests.{◌==◌, if◌then◌else◌}
use cap_protocol.Prelude.Lists.{Member}

-- `set.contains(k)`
unfoldable pub contains : List String → String → Bool
contains [] k = false
contains (x ∷ xs) k = x == k || contains xs k

-- `set.insert(k)`
unfoldable pub insert_key : String → List String → List String
unfolding contains
insert_key k s = if contains s k then s else k ∷ s

-- `set.remove(k)`
unfoldable pub remove_key : String → List String → List String
remove_key k [] = []
remove_key k (x ∷ xs) = let rest = remove_key k xs in if x == k then rest else x ∷ rest

pub contains-insert_key :
    (k j : String) (s : List String)
    → contains (insert_key k s) j ≡ (if k == j then true else contains s j)
unfolding contains insert_key
contains-insert_key k j s = ground (arith, eq_iff k j, eq_iff j k)

pub contains-remove_key :
    (k j : String) (s : List String)
    → contains (remove_key k s) j ≡ (if k == j then false else contains s j)
unfolding contains remove_key
contains-remove_key k j [] = ground arith
contains-remove_key k j (x ∷ xs) =
    ground (arith, contains-remove_key k j xs, eq_iff x k, eq_iff x j, eq_iff k j)

pub Member-contains : (s : List String) (k : String) → contains s k ≡ true → Member k s
unfolding contains
Member-contains [] k h = ground arith
Member-contains (x ∷ xs) k h = ground (arith, eq_iff x k, eq_iff k x, Member-contains xs k)

pub contains-Member : (s : List String) (k : String) → Member k s → contains s k ≡ true
unfolding contains
contains-Member [] k m = absurd m
contains-Member (x ∷ xs) k m = ground (arith, eq_iff x k, eq_iff k x, contains-Member xs k)

module _ {ℓ} {V : Type ℓ} where
  -- `map.get(k)`
  unfoldable pub lookup : String → List (String × V) → Option V
  lookup k [] = none
  lookup k ((j, v) ∷ m) = if j == k then some v else lookup k m

  -- `map.insert(k, v)`
  unfoldable pub put : String → V → List (String × V) → List (String × V)
  put k v [] = (k, v) ∷ []
  put k v ((j, w) ∷ m) = if j == k then (k, v) ∷ m else (j, w) ∷ put k v m

  -- `map.keys()`
  abbrev pub keys : List (String × V) → List String
  keys [] = []
  keys ((k, _) ∷ m) = k ∷ keys m

  -- `map.contains_key(k)`
  abbrev pub contains_key : List (String × V) → String → Bool
  contains_key m k = elim (lookup k m) [ none ↦ false | some _ ↦ true ]

  pub lookup-put :
      (k j : String) (v : V) (m : List (String × V))
      → lookup j (put k v m) ≡ (if k == j then some v else lookup j m)
  unfolding lookup put
  lookup-put k j v [] = refl
  lookup-put k j v ((i, w) ∷ m) =
      ground (arith, eq_iff k j, eq_iff i k, eq_iff i j, lookup-put k j v m)

module _ {V : Type 0} where
  pub Member-contains_key :
      (m : List (String × V)) (k : String) → contains_key m k ≡ true → Member k (keys m)
  unfolding lookup
  Member-contains_key [] k h = cc
  Member-contains_key ((j, v) ∷ m) k h = ground (arith, Member-contains_key m k, eq_iff j k)

  pub contains_key-Member :
      (m : List (String × V)) (k : String) → Member k (keys m) → contains_key m k ≡ true
  unfolding lookup
  contains_key-Member [] k h = absurd h
  contains_key-Member ((j, v) ∷ m) k h = ground (arith, contains_key-Member m k, eq_iff j k)

pub ruleset key_laws = (contains-insert_key, contains-remove_key, lookup-put)
