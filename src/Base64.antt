-- ===== src/Base64.antt =====
-- The module `base64` of crates/cap-rs/src/core.rs, by which images travel as text. A text is the list
-- of its bytes. In 32 bits nothing overflows: a group of four characters has 24 bits. `|` of numbers
-- that share no bit is their sum.
mod Groups
mod Examples
use cap_protocol.Prelude.{
  ℕ, zero, suc, ◌+◌, ◌-◌, ◌*◌, ◌/◌, ◌%◌, String, Bool, true, false, not, ◌&&◌, ◌||◌, List, [], ◌∷◌,
  ◌++◌, length, leb, ltb, ◌=ℕ◌, Result, ok, err, ◌>>=◌, if◌then◌else◌,
}

-- `T`: the upper case letters, the lower case letters, the digits, `+` and `/`
unfoldable pub alphabet : ℕ → ℕ
alphabet n =
    if ltb n 26
    then n + 65
    else if ltb n 52
    then n + 71
    else if ltb n 62
    then n - 4
    else if n =ℕ 62
    then b'+'
    else b'/'

-- `T[((b >> k) & 63) as usize]`, with the shift as a division
abbrev pub sextet : ℕ → ℕ → ℕ
sextet b k = alphabet ((b / k) % 64)

unfoldable pub encode : List ℕ → List ℕ
unfolding alphabet
encode (d0 ∷ d1 ∷ d2 ∷ more) =
    let b = d0 * 65536 + d1 * 256 + d2 in
    sextet b 262144 ∷ sextet b 4096 ∷ sextet b 64 ∷ sextet b 1 ∷ encode more
encode (d0 ∷ d1 ∷ []) =
    let b = d0 * 65536 + d1 * 256 in sextet b 262144 ∷ sextet b 4096 ∷ sextet b 64 ∷ b'=' ∷ []
encode (d0 ∷ []) = let b = d0 * 65536 in sextet b 262144 ∷ sextet b 4096 ∷ b'=' ∷ b'=' ∷ []
encode [] = []

pub data DecodeError : Type 0 where
  invalid_character invalid_length invalid_padding : DecodeError

unfoldable pub decode_char : ℕ → Result DecodeError ℕ
decode_char c =
    if leb 65 c && leb c 90
    then ok (c - 65)
    else if leb 97 c && leb c 122
    then ok (c - 97 + 26)
    else if leb 48 c && leb c 57
    then ok (c - 48 + 52)
    else if c =ℕ b'+'
    then ok 62
    else if c =ℕ b'/'
    then ok 63
    else err DecodeError.invalid_character

-- `c.is_ascii_whitespace()`
abbrev pub is_ascii_whitespace : ℕ → Bool
is_ascii_whitespace c = c =ℕ 32 || c =ℕ 9 || c =ℕ 10 || c =ℕ 12 || c =ℕ 13

unfoldable pub strip_whitespace : List ℕ → List ℕ
strip_whitespace [] = []
strip_whitespace (c ∷ s) =
    let rest = strip_whitespace s in if is_ascii_whitespace c then rest else c ∷ rest

-- One round of the loop over a group
unfoldable pub shift_in : ℕ → ℕ → ℕ → Result DecodeError ℕ
unfolding decode_char
shift_in slot c v =
    if not (c =ℕ b'=')
    then decode_char c >>= (λ d. ok (v * 64 + d))
    else if ltb slot 2
    then err DecodeError.invalid_padding
    else ok (v * 64)

-- `q.iter().rev().take_while(|&&c| c == b'=').count()`, on the reversed group
abbrev pub count_pad : List ℕ → ℕ
count_pad [] = 0
count_pad (c ∷ s) = if c =ℕ b'=' then suc (count_pad s) else 0

-- The bytes that are pushed for a group
unfoldable pub group_bytes : ℕ → ℕ → List ℕ
group_bytes pad v =
    (v / 65536) % 256 ∷ (if ltb pad 2 then (v / 256) % 256 ∷ [] else [])
    ++ (if ltb pad 1 then v % 256 ∷ [] else [])

unfoldable pub decode_group : ℕ → ℕ → ℕ → ℕ → Result DecodeError (List ℕ)
unfolding shift_in group_bytes
decode_group c0 c1 c2 c3 = shift_in 0 c0 0 >>= (λ v0. shift_in 1 c1 v0 >>= (λ v1.
    shift_in 2 c2 v1 >>= (λ v2.
      shift_in 3 c3 v2 >>= (λ v. ok (group_bytes (count_pad (c3 ∷ c2 ∷ c1 ∷ c0 ∷ [])) v)))))

unfoldable pub decode_groups : List ℕ → Result DecodeError (List ℕ)
unfolding decode_group
decode_groups (c0 ∷ c1 ∷ c2 ∷ c3 ∷ s) =
    let rest = decode_groups s in
    decode_group c0 c1 c2 c3 >>= (λ g. rest >>= (λ out. ok (g ++ out)))
decode_groups _ = ok []

unfoldable pub decode : List ℕ → Result DecodeError (List ℕ)
unfolding decode_groups strip_whitespace
decode s =
    let bytes = strip_whitespace s in
    if not (length bytes % 4 =ℕ 0) then err DecodeError.invalid_length else decode_groups bytes
