-- ===== src/Prelude/Texts.antt =====
-- The `str` methods that the sources call, on the native texts, character by character.
use Prim.Native.Nat.{ℕ}
use Prim.Native.Char.{code}
use Prim.Native.String.{String, [], ◌∷◌, ◌++◌}
use mathlib.Core.Bool.{Bool, true, false, ◌&&◌, ◌||◌}
use mathlib.Core.Option
use mathlib.Core.Option.{Option, none, some}
use mathlib.Core.List.{List}
use cap_protocol.Prelude.Tests.{leb, ◌=ℕ◌, ◌==◌, if◌then◌else◌}

-- `s.chars().all(test)`
unfoldable pub all_chars : (ℕ → Bool) → String → Bool
all_chars test [] = true
all_chars test (c ∷ s) = test (code c) && all_chars test s

-- `s.contains(c)` for one character
unfoldable pub contains_char : ℕ → String → Bool
contains_char k [] = false
contains_char k (c ∷ s) = code c =ℕ k || contains_char k s

-- `s.starts_with(c)` for one character
unfoldable pub starts_with_char : ℕ → String → Bool
starts_with_char k [] = false
starts_with_char k (c ∷ s) = code c =ℕ k

-- `s.strip_prefix(p)`
unfoldable pub strip_prefix : String → String → Option String
strip_prefix s [] = some s
strip_prefix [] (d ∷ p) = none
strip_prefix (c ∷ s) (d ∷ p) =
    let rest = strip_prefix s p in if code c =ℕ code d then rest else none

-- `s.strip_suffix(p)`: the text before the first place from which exactly `p` is left
unfoldable pub strip_suffix : String → String → Option String
strip_suffix [] p = if [] == p then some [] else none
strip_suffix (c ∷ s) p =
    let rest = Option.map (λ r. c ∷ r) (strip_suffix s p) in if c ∷ s == p then some [] else rest

-- `s.contains(p)` for a text, and `s.find(p)` with the text before and after the first match
unfoldable pub split_at_first : String → String → Option (String × String)
split_at_first p [] = Option.map (λ rest. ([], rest)) (strip_prefix [] p)
split_at_first p (c ∷ s) =
    let later =
      Option.map (λ (pair : String × String). (c ∷ pair.0, pair.1)) (split_at_first p s) in
    elim (strip_prefix (c ∷ s) p) [ some rest ↦ some ([], rest) | none ↦ later ]

unfoldable pub contains_text : String → String → Bool
unfolding split_at_first
contains_text s p = elim (split_at_first p s) [ some _ ↦ true | none ↦ false ]

-- `c.is_ascii_digit()` and `c.is_ascii_alphanumeric()`
unfoldable pub is_ascii_digit : ℕ → Bool
is_ascii_digit c = leb 48 c && leb c 57

unfoldable pub is_ascii_alphanumeric : ℕ → Bool
unfolding is_ascii_digit
is_ascii_alphanumeric c = is_ascii_digit c || (leb 65 c && leb c 90) || (leb 97 c && leb c 122)

-- `parts.join(separator)`
unfoldable pub join : String → List String → String
join sep List.[] = ""
join sep (List.◌∷◌ s List.[]) = s
join sep (List.◌∷◌ s (List.◌∷◌ t rest)) = s ++ (sep ++ join sep (List.◌∷◌ t rest))
