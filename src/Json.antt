-- ===== src/Json.antt =====
-- The chains of `Value` accessors that the sources write out at each place.
use cap_protocol.Prelude.{ℕ, String, Bool, true, false, Option, none, some, List, [], ◌∷◌}
use cap_protocol.Core.{Foreign}

-- `opt.unwrap_or(default)`
abbrev pub unwrap_or {ℓ} : {A : Type ℓ} → A → Option A → A
unwrap_or default none = default
unwrap_or default (some a) = a

-- `opt.is_some()`
abbrev pub is_some {ℓ} : {A : Type ℓ} → Option A → Bool
is_some none = false
is_some (some _) = true

-- `opt.or_else(|| other)`
abbrev pub or_else {ℓ} : {A : Type ℓ} → Option A → Option A → Option A
or_else none other = other
or_else (some a) other = some a

-- `opt.and_then(f)`
abbrev pub and_then {ℓ κ} : {A : Type ℓ} {B : Type κ} → (A → Option B) → Option A → Option B
and_then f none = none
and_then f (some a) = f a

module _ (x : Foreign) where
  -- `v.get(key).and_then(Value::as_str)`, and likewise for the other accessors
  abbrev pub str_at : String → x.Value → Option String
  str_at key v = and_then x.as_str (x.get key v)

  abbrev pub array_at : String → x.Value → Option (List x.Value)
  array_at key v = and_then x.as_array (x.get key v)

  abbrev pub bool_at : String → x.Value → Option Bool
  bool_at key v = and_then x.as_bool (x.get key v)

  abbrev pub u64_at : String → x.Value → Option ℕ
  u64_at key v = and_then x.as_u64 (x.get key v)

  -- `v.get(key).cloned().unwrap_or(Value::Null)`
  abbrev pub value_at : String → x.Value → x.Value
  value_at key v = unwrap_or x.null (x.get key v)

  -- `v.get(key).and_then(Value::as_str).unwrap_or_default().to_string()`
  abbrev pub text_at : String → x.Value → String
  text_at key v = unwrap_or "" (str_at key v)

  -- `filter_map(|v| v.as_str().map(String::from))`
  unfoldable pub strings : List x.Value → List String
  strings [] = []
  strings (v ∷ vs) = let rest = strings vs in elim (x.as_str v) [ none ↦ rest | some s ↦ s ∷ rest ]
