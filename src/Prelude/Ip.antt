-- ===== src/Prelude/Ip.antt =====
-- `str::parse::<IpAddr>()` of the standard library: its parser reads a text from the left, and a
-- step that fails leaves the text as it was.
use Prim.Native.Char.{code}
use Prim.Native.String.{String}
use Prim.Native.Nat.{ℕ, zero, suc, ◌+◌, ◌-◌, ◌*◌}
use mathlib.Core.Path.{◌≡◌, refl}
use mathlib.Core.Bool.{Bool, true, false, ◌&&◌, ◌||◌, not}
use mathlib.Core.Option.{Option, none, some}
use mathlib.Core.List.{List, [], ◌∷◌, ◌++◌}
use cap_protocol.Prelude.Tests.{leb, ltb, ◌=ℕ◌, if◌then◌else◌}
use cap_protocol.Prelude.Lists.{length}

-- `V4` has four octets, `V6` eight segments.
pub data IpAddr : Type 0 where
  v4 : (a b c d : ℕ) → IpAddr
  v6 : List ℕ → IpAddr

-- A step of the parser: the value and what is left.
abbrev pub Step : Type 0 → Type 0
Step A = List ℕ → Option (A × List ℕ)

infixl 5 ◌>>=◌ ◌>>◌
abbrev ◌>>=◌ : {A B : Type 0} → Step A → (A → Step B) → Step B
◌>>=◌ m f s = elim (m s) [ none ↦ none | some (a, rest) ↦ f a rest ]

abbrev ◌>>◌ : {A B : Type 0} → Step A → Step B → Step B
m >> k = m >>= λ _. k

abbrev pure : {A : Type 0} → A → Step A
pure a s = some (a, s)

abbrev pub codes : String → List ℕ
codes String.[] = []
codes (String.◌∷◌ c s) = code c ∷ codes s

-- `read_given_char`
given_char : ℕ → Step ℕ
given_char k [] = none
given_char k (c ∷ s) = if c =ℕ k then some (c, s) else none

-- `char::to_digit`
digit : ℕ → ℕ → Option ℕ
digit radix c =
    let value =
      if leb 48 c && leb c 57
      then c - 48
      else if leb 97 c && leb c 122
      then c - 87
      else if leb 65 c && leb c 90
      then c - 55
      else 99 in
    if ltb value radix then some value else none

-- The digits at the front, with their number and value; the value is bounded by `limit`, and at
-- most `most` digits may stand there.
digits_from : (radix limit most : ℕ) → (seen value : ℕ) → List ℕ → Option (ℕ × ℕ × List ℕ)
unfolding digit
digits_from radix limit most seen value [] = some (seen, value, [])
digits_from radix limit most seen value (c ∷ s) = elim (digit radix c) [
  | none ↦ some (seen, value, c ∷ s)
  | some d ↦
      let rest = digits_from radix limit most (suc seen) (value * radix + d) s in
      if ltb limit (value * radix + d) || ltb most (suc seen) then none else rest
]

abbrev starts_zero : List ℕ → Bool
starts_zero [] = false
starts_zero (c ∷ _) = c =ℕ 48

-- `read_number`
number : (radix limit most : ℕ) → (zero_prefix : Bool) → Step ℕ
unfolding digits_from
number radix limit most zero_prefix s = elim (digits_from radix limit most 0 0 s) [
  | none ↦ none
  | some (seen, value, rest) ↦
      if seen =ℕ 0 || (not zero_prefix && starts_zero s && ltb 1 seen)
      then none
      else some (value, rest)
]

-- `read_ipv4_addr`
ipv4 : Step (ℕ × ℕ × ℕ × ℕ)
unfolding number given_char
ipv4 = do
  a ← number 10 255 3 false
  given_char 46
  b ← number 10 255 3 false
  given_char 46
  c ← number 10 255 3 false
  given_char 46
  d ← number 10 255 3 false
  pure (a, b, c, d)

-- `read_separator(':', index, …)`
after_colon : {A : Type 0} → ℕ → Step A → Step A
unfolding given_char
after_colon zero step = step
after_colon (suc i) step = do given_char 58; step

abbrev prepend : ℕ → List ℕ × Bool × List ℕ → List ℕ × Bool × List ℕ
prepend g (gs, ended, rest) = (g ∷ gs, ended, rest)

-- `read_groups` with `left` slots left, `i` groups read: the groups, and whether an IPv4 address
-- ended them. It does not fail.
groups : (left i : ℕ) → List ℕ → List ℕ × Bool × List ℕ
unfolding ipv4 after_colon number
groups zero i s = ([], false, s)
groups (suc left) i s =
    let group : List ℕ × Bool × List ℕ = elim (after_colon i (number 16 65535 4 true) s) [
      | none ↦ ([], false, s)
      | some (g, rest) ↦ prepend g (groups left (suc i) rest)
    ] in
    if ltb 0 left
    then elim (after_colon i ipv4 s) [
      | some ((a, b, c, d), rest) ↦ ((a * 256 + b) ∷ (c * 256 + d) ∷ [], true, rest)
      | none ↦ group
    ]
    else group

zeros : ℕ → List ℕ
zeros zero = []
zeros (suc n) = 0 ∷ zeros n

-- `read_ipv6_addr`
ipv6 : Step (List ℕ)
unfolding groups given_char zeros
ipv6 s =
    let (head, ended, rest) = groups 8 0 s in
    if length head =ℕ 8
    then some (head, rest)
    else if ended
    then none
    else (do
      given_char 58
      given_char 58
      λ tail_text.
          let (tail, _, end) = groups (7 - length head) 0 tail_text in
          some (head ++ (zeros (8 - length head - length tail) ++ tail), end))
        rest

-- `IpAddr::from_str`: the whole text, as IPv4 if it begins so, else as IPv6.
unfoldable pub parse_ip : String → Option IpAddr
unfolding ipv4 ipv6
parse_ip s = elim (ipv4 (codes s)) [
  | some ((a, b, c, d), rest) ↦ elim rest [ [] ↦ some (v4 a b c d) | _ ∷ _ ↦ none ]
  | none ↦ elim (ipv6 (codes s)) [
    | some (segments, rest) ↦ elim rest [ [] ↦ some (v6 segments) | _ ∷ _ ↦ none ]
    | none ↦ none
  ]
]

parse_ip_examples :
    (parse_ip "127.0.0.1" ≡ some (v4 127 0 0 1))
    × (parse_ip "010.0.0.1" ≡ none)
    × (parse_ip "::1" ≡ some (v6 (0 ∷ 0 ∷ 0 ∷ 0 ∷ 0 ∷ 0 ∷ 0 ∷ 1 ∷ [])))
    × (parse_ip "fe80::a:1.2.3.4" ≡ some (v6 (65152 ∷ 0 ∷ 0 ∷ 0 ∷ 0 ∷ 10 ∷ 258 ∷ 772 ∷ [])))
    × (parse_ip "1:2:3:4:5:6:7:8" ≡ some (v6 (1 ∷ 2 ∷ 3 ∷ 4 ∷ 5 ∷ 6 ∷ 7 ∷ 8 ∷ [])))
    × (parse_ip "localhost" ≡ none)
unfolding parse_ip
parse_ip_examples = (refl, refl, refl, refl, refl, refl)
