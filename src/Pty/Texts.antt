-- ===== src/Pty/Texts.antt =====
-- The methods of `str` and of slices that the parsers of a terminal call.
use Prim.Native.Char.{Char, code}
use Prim.Native.String.{◌++◌ as append, ◌∷◌ as char_then, [] as nothing}
use cap_protocol.Prelude.{
  ℕ, zero, suc, ◌+◌, ◌-◌, ◌/◌, ◌%◌, String, Bool, true, false, ◌&&◌, ◌||◌, Option, none, some, List,
  [], ◌∷◌, ◌++◌, length, drop, leb, ltb, ◌=ℕ◌, ◌==◌, any, starts_with_char, if◌then◌else◌,
}

-- `char::is_whitespace`: the property White_Space of Unicode
unfoldable pub is_whitespace : ℕ → Bool
is_whitespace c =
    (leb 9 c && leb c 13)
    || any (λ k. c =ℕ k) (32 ∷ 133 ∷ 160 ∷ 5760 ∷ 8232 ∷ 8233 ∷ 8239 ∷ 8287 ∷ 12288 ∷ [])
    || (leb 8192 c && leb c 8202)

-- `s.trim_start_matches(test)` and `s.trim_end_matches(test)`
unfoldable pub trim_start : (ℕ → Bool) → String → String
trim_start test nothing = nothing
trim_start test (char_then c s) =
    let rest = trim_start test s in if test (code c) then rest else char_then c s

unfoldable pub trim_end : (ℕ → Bool) → String → String
trim_end test nothing = nothing
trim_end test (char_then c s) =
    let rest = trim_end test s in
    if rest == nothing && test (code c) then nothing else char_then c rest

-- `s.trim()`
unfoldable pub trim : String → String
unfolding trim_start trim_end is_whitespace
trim s = trim_end is_whitespace (trim_start is_whitespace s)

-- `line.trim_end_matches(['\n', '\r'])`
unfoldable pub trim_newline : String → String
unfolding trim_end
trim_newline line = trim_end (λ c. c =ℕ b'\n' || c =ℕ b'\r') line

-- The first piece gains a character.
unfoldable pub begin_with : Char → List String → List String
begin_with c [] = char_then c nothing ∷ []
begin_with c (s ∷ rest) = char_then c s ∷ rest

-- `s.lines()`: no line for what follows the last newline, and no carriage return before a newline
unfoldable pub lines : String → List String
unfolding begin_with starts_with_char
lines nothing = []
lines (char_then c s) =
    let rest = lines s in
    if code c =ℕ b'\n'
    then nothing ∷ rest
    else if code c =ℕ b'\r' && starts_with_char b'\n' s
    then rest
    else begin_with c rest

-- `s.split_inclusive('\n')`
unfoldable pub split_inclusive : String → List String
unfolding begin_with
split_inclusive nothing = []
split_inclusive (char_then c s) =
    let rest = split_inclusive s in
    if code c =ℕ b'\n' then char_then c nothing ∷ rest else begin_with c rest

-- `s.chars().take(n)`
unfoldable pub take_chars : ℕ → String → String
take_chars zero s = nothing
take_chars (suc n) nothing = nothing
take_chars (suc n) (char_then c s) = char_then c (take_chars n s)

-- The UTF-8 encoding of a character and of a text, `s.as_bytes()`
unfoldable pub encode_char : ℕ → List ℕ
encode_char c =
    if ltb c 128
    then c ∷ []
    else if ltb c 2048
    then (192 + c / 64) ∷ (128 + c % 64) ∷ []
    else if ltb c 65536
    then (224 + c / 4096) ∷ (128 + (c / 64) % 64) ∷ (128 + c % 64) ∷ []
    else (240 + c / 262144) ∷ (128 + (c / 4096) % 64) ∷ (128 + (c / 64) % 64) ∷ (128 + c % 64) ∷ []

unfoldable pub as_bytes : String → List ℕ
unfolding encode_char
as_bytes nothing = []
as_bytes (char_then c s) = encode_char (code c) ++ as_bytes s

-- `s.len()`
unfoldable pub byte_length : String → ℕ
unfolding as_bytes
byte_length s = length (as_bytes s)

-- `&s[n..]`, or nothing where it panics: past the end, or inside of a character
unfoldable pub slice_from : ℕ → String → Option String
unfolding encode_char
slice_from zero s = some s
slice_from (suc n) nothing = none
slice_from (suc n) (char_then c s) =
    let rest = slice_from (suc n - length (encode_char (code c))) s in
    if leb (length (encode_char (code c))) (suc n) then rest else none

-- The `Display` of a `u64`, which has at most 20 digits
abbrev first_or : String → List String → String
first_or default [] = default
first_or default (s ∷ rest) = s

abbrev pub digit : ℕ → String
digit d = first_or "" (drop d ("0" ∷ "1" ∷ "2" ∷ "3" ∷ "4" ∷ "5" ∷ "6" ∷ "7" ∷ "8" ∷ "9" ∷ []))

unfoldable pub decimal_on : ℕ → ℕ → String
decimal_on zero n = ""
decimal_on (suc k) n =
    let front = decimal_on k (n / 10) in append (if ltb n 10 then "" else front) (digit (n % 10))

abbrev pub decimal : ℕ → String
unfolding decimal_on
decimal n = decimal_on 20 n

-- `bytes.windows(pattern.len()).rposition(|w| w == pattern)`
unfoldable pub begins : List ℕ → List ℕ → Bool
begins [] bytes = true
begins (b ∷ pattern) [] = false
begins (b ∷ pattern) (c ∷ bytes) = b =ℕ c && begins pattern bytes

unfoldable pub rposition : List ℕ → List ℕ → Option ℕ
unfolding begins
rposition pattern [] = none
rposition pattern (b ∷ bytes) = elim (rposition pattern bytes) [
  | some i ↦ some (suc i)
  | none ↦ if begins pattern (b ∷ bytes) then some 0 else none
]

module _ {A : Type 0} where
  -- The iterator's `rev`, `filter`, `find`, and `skip_while`
  abbrev pub rev : List A → List A
  rev [] = []
  rev (a ∷ as_) = rev as_ ++ a ∷ []

  abbrev pub keep : (A → Bool) → List A → List A
  keep test [] = []
  keep test (a ∷ rest) = if test a then a ∷ keep test rest else keep test rest

  abbrev pub find : (A → Bool) → List A → Option A
  find test [] = none
  find test (a ∷ rest) = if test a then some a else find test rest

  abbrev pub skip_while : (A → Bool) → List A → List A
  skip_while test [] = []
  skip_while test (a ∷ rest) = if test a then skip_while test rest else a ∷ rest
