-- ===== src/Pty/Cursor.antt =====
-- The places at which the parser of a prompt-delimited agent cuts its texts.
use Prim.Native.Char.{Char, code}
use Prim.Native.String.{◌∷◌ as char_then, [] as nothing}
use cap_protocol.Prelude.{
  ℕ, zero, suc, ◌+◌, ◌-◌, ◌≤◌, String, Bool, true, false, none, some, List, [], ◌∷◌, ◌≡◌, ◌∙◌, ap,
  sym, refl, length, length-append, leb, ◌=ℕ◌, strip_prefix, arith, if◌then◌else◌, subst,
}
use cap_protocol.Pty.Texts.{
  encode_char, as_bytes, byte_length, slice_from, begin_with, split_inclusive,
}

encode_char-length : (c : ℕ) → 1 ≤ length (encode_char c)
unfolding encode_char
encode_char-length c = ground arith

pub byte_length-then :
    (c : Char) (s : String)
    → byte_length (char_then c s) ≡ length (encode_char (code c)) + byte_length s
unfolding byte_length as_bytes
byte_length-then c s = length-append (encode_char (code c)) (as_bytes s)

pub byte_length-nothing : byte_length nothing ≡ 0
unfolding byte_length as_bytes
byte_length-nothing = refl

slice_from-then :
    (c : Char) (s : String) (k n : ℕ)
    → k ≡ length (encode_char (code c)) + n
    → slice_from k (char_then c s) ≡ slice_from n s
unfolding slice_from
slice_from-then c s zero n e = absurd (omega (arith, encode_char-length (code c)))
slice_from-then c s (suc k) n e =
    let width = length (encode_char (code c)) in
    let fits : leb width (suc k) ≡ true = ground arith in
    let left : suc k - width ≡ n = omega arith in rw (fits, left) refl

-- A text that begins with another can be cut where that one ends.
abbrev IsCut : String → String → String → Type 0
IsCut s p rest =
    (slice_from (byte_length p) s ≡ some rest) × (byte_length s ≡ byte_length p + byte_length rest)

IsCut-none : (s : String) → IsCut s nothing s
unfolding slice_from byte_length as_bytes
IsCut-none s = (refl, omega arith)

IsCut-then :
    (c d : Char) (s p rest : String)
    → code c ≡ code d
    → IsCut s p rest
    → IsCut (char_then c s) (char_then d p) rest
IsCut-then c d s p rest e (h, k) =
    let f = byte_length-then c s in
    let g = byte_length-then d p in
    let width : length (encode_char (code c)) ≡ length (encode_char (code d)) =
      ap (λ n. length (encode_char n)) e in
    (
      slice_from-then c s (byte_length (char_then d p)) (byte_length p) (omega arith) ∙ h,
      omega arith,
    )

pub strip_prefix-IsCut : (s p rest : String) → strip_prefix s p ≡ some rest → IsCut s p rest
unfolding strip_prefix
strip_prefix-IsCut s nothing rest e = subst (IsCut s nothing) (ground arith) (IsCut-none s)
strip_prefix-IsCut nothing (char_then d p) rest e = absurd (ground arith)
strip_prefix-IsCut (char_then c s) (char_then d p) rest e =
    tested (code c =ℕ code d) refl e (strip_prefix-IsCut s p rest)
  where
    tested :
        (b : Bool)
        → (code c =ℕ code d) ≡ b
        → (if b then strip_prefix s p else none) ≡ some rest
        → (strip_prefix s p ≡ some rest → IsCut s p rest)
        → IsCut (char_then c s) (char_then d p) rest
    tested true f e ih = IsCut-then c d s p rest (ground arith) (ih e)
    tested false f e ih = absurd (ground arith)

-- The bytes of the pieces of a text
abbrev pub sum_bytes : List String → ℕ
sum_bytes [] = 0
sum_bytes (s ∷ ss) = byte_length s + sum_bytes ss

begin_with-bytes :
    (c : Char) (ss : List String)
    → sum_bytes (begin_with c ss) ≡ length (encode_char (code c)) + sum_bytes ss
unfolding begin_with
begin_with-bytes c [] = omega (arith, byte_length-then c nothing, byte_length-nothing)
begin_with-bytes c (s ∷ ss) = omega (arith, byte_length-then c nothing, byte_length-then c s)

pub split_inclusive-bytes : (s : String) → sum_bytes (split_inclusive s) ≡ byte_length s
unfolding split_inclusive
split_inclusive-bytes nothing = sym byte_length-nothing
split_inclusive-bytes (char_then c s) =
    elim (code c =ℕ b'\n')
      as (λ b.
        sum_bytes
          (if b then char_then c nothing ∷ split_inclusive s else begin_with c (split_inclusive s))
        ≡ byte_length (char_then c s)) [
          | true ↦ omega (
            arith,
            byte_length-then c nothing,
            byte_length-nothing,
            byte_length-then c s,
            split_inclusive-bytes s,
          )
          | false ↦ omega (
            arith,
            begin_with-bytes c (split_inclusive s),
            byte_length-then c s,
            split_inclusive-bytes s,
          )
        ]

-- Nothing is left after the end.
pub slice_from-end : (s : String) → slice_from (byte_length s) s ≡ some nothing
unfolding slice_from
slice_from-end nothing = rw byte_length-nothing refl
slice_from-end (char_then c s) =
    slice_from-then c s (byte_length (char_then c s)) (byte_length s) (byte_length-then c s)
    ∙ slice_from-end s
