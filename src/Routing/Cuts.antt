-- ===== src/Routing/Cuts.antt =====
-- What is left of an output that is shortened for a language model.
use Prim.Native.Char.{Char, code}
use Prim.Native.String.{◌++◌ as append, ◌∷◌ as char_then, [] as nothing}
use mathlib.Core.Option
use text.Mathlib.TextLemmas.{nil-append, cons-append}
use cap_protocol.Prelude.{
  ℕ, zero, suc, ◌+◌, ◌-◌, ◌/◌, ◌%◌, leb→le, ltb→lt, ◌≤◌, String, Bool, true, false, Option, some,
  ◌≡◌, ◌∙◌, ap, refl, subst, inl, inr, Option-cases, Bool-cases, length, ltb, leb, arith, all_chars,
  if◌then◌else◌,
}
use cap_protocol.Pty.Texts.{encode_char, byte_length, decimal_on, decimal, digit}
use cap_protocol.Pty.Cursor.{byte_length-then, byte_length-nothing}
use cap_protocol.Routing.Prompt.{slice_to, shortened, cut, preview}

byte_length-append : (s t : String) → byte_length (append s t) ≡ byte_length s + byte_length t
byte_length-append nothing t = ap byte_length (nil-append t) ∙ omega (arith, byte_length-nothing)
byte_length-append (char_then c s) t =
    ap byte_length (cons-append c s t)
    ∙ omega (arith, byte_length-then c (append s t), byte_length-then c s, byte_length-append s t)

digit-bytes : (d : ℕ) → byte_length (digit d) ≤ 1
unfolding byte_length
digit-bytes zero = omega arith
digit-bytes (suc zero) = omega arith
digit-bytes (suc (suc zero)) = omega arith
digit-bytes (suc (suc (suc zero))) = omega arith
digit-bytes (suc (suc (suc (suc zero)))) = omega arith
digit-bytes (suc (suc (suc (suc (suc zero))))) = omega arith
digit-bytes (suc (suc (suc (suc (suc (suc zero)))))) = omega arith
digit-bytes (suc (suc (suc (suc (suc (suc (suc zero))))))) = omega arith
digit-bytes (suc (suc (suc (suc (suc (suc (suc (suc zero)))))))) = omega arith
digit-bytes (suc (suc (suc (suc (suc (suc (suc (suc (suc zero))))))))) = omega arith
digit-bytes (suc (suc (suc (suc (suc (suc (suc (suc (suc (suc zero)))))))))) = omega arith
digit-bytes (suc (suc (suc (suc (suc (suc (suc (suc (suc (suc (suc d))))))))))) = omega arith

front-bytes :
    (b : Bool) (front : String) (k : ℕ)
    → byte_length front ≤ k
    → byte_length (if b then "" else front) ≤ k
unfolding byte_length
front-bytes true front k h = omega arith
front-bytes false front k h = h

decimal_on-bytes : (k n : ℕ) → byte_length (decimal_on k n) ≤ k
unfolding decimal_on
decimal_on-bytes zero n = omega (arith, byte_length-nothing)
decimal_on-bytes (suc k) n =
    let front = decimal_on k (n / 10) in
    omega (
      arith,
      byte_length-append (if ltb n 10 then "" else front) (digit (n % 10)),
      front-bytes (ltb n 10) front k (decimal_on-bytes k (n / 10)),
      digit-bytes (n % 10),
    )

-- What is cut off has as many bytes as were asked for.
slice_to-bytes : (n : ℕ) (s p : String) → slice_to n s ≡ some p → byte_length p ≡ n
unfolding slice_to
slice_to-bytes zero s p e = subst (λ q. byte_length q ≡ 0) (ground (arith, e)) byte_length-nothing
slice_to-bytes (suc n) nothing p e = absurd (ground arith)
slice_to-bytes (suc n) (char_then c s) p e =
    let width = length (encode_char (code c)) in
    elim (Bool-cases (leb width (suc n))) [
      | inr other ↦ absurd (cc (rw other at e))
      | inl fits ↦ elim (Option-cases (slice_to (suc n - width) s)) [
        | inl f ↦ absurd (cc (rw (fits, f) at e))
        | inr (q, f) ↦
            let g : some (char_then c q) ≡ some p = rw (fits, f) at e in
            let h : char_then c q ≡ p = ground (arith, g) in
            subst (λ r. byte_length r ≡ suc n) h
              (omega (
                arith,
                byte_length-then c q,
                slice_to-bytes (suc n - width) s q f,
                leb→le width (suc n) fits,
              ))
      ]
    ]

decimal-bytes : (n : ℕ) → byte_length (decimal n) ≤ 20
unfolding decimal_on
decimal-bytes n = decimal_on-bytes 20 n

head_bytes : byte_length "...\n[truncated " ≡ 15
unfolding byte_length
head_bytes = refl

tail_bytes : byte_length " chars]" ≡ 7
unfolding byte_length
tail_bytes = refl

suffix-bytes : (n : ℕ) → byte_length (append "...\n[truncated " (append (decimal n) " chars]")) ≤ 42
suffix-bytes n = omega (
  arith,
  byte_length-append "...\n[truncated " (append (decimal n) " chars]"),
  byte_length-append (decimal n) " chars]",
  decimal-bytes n,
  head_bytes,
  tail_bytes,
)

-- A preview is within the limit.
unfoldable pub Within : ℕ → Option String → Type 0
Within max_chars o = (p : String) → o ≡ some p → byte_length p ≤ max_chars

shortened-Within :
    (max_chars n dropped : ℕ) (s : String)
    → n + 42 ≤ max_chars
    → Within max_chars (shortened dropped (slice_to n s))
unfolding Within shortened
shortened-Within max_chars n dropped s h p e = elim (Option-cases (slice_to n s)) [
  | inl f ↦ absurd (cc (rw f at e))
  | inr (q, f) ↦
      let suffix = append "...\n[truncated " (append (decimal dropped) " chars]") in
      let g : some (append q suffix) ≡ some p = rw f at e in
      let k : append q suffix ≡ p = ground (arith, g) in
      subst (λ r. byte_length r ≤ max_chars) k
        (omega
          (arith, h, byte_length-append q suffix, suffix-bytes dropped, slice_to-bytes n s q f))
]

cut-Within :
    (b : Bool) (max_chars : ℕ) (output : String)
    → ltb max_chars (byte_length output) ≡ b
    → 50 ≤ max_chars
    → Within max_chars (cut b max_chars output)
unfolding Within cut
cut-Within true max_chars output e h p f =
    shortened-Within max_chars (max_chars - 50) (byte_length output - (max_chars - 50)) output
      (omega arith) p f
cut-Within false max_chars output e h p f =
    let same : output ≡ p = ground (arith, f) in
    subst (λ r. byte_length r ≤ max_chars) same (ground (arith, e))

slice_to-then :
    (c : Char) (s : String) (n k : ℕ)
    → suc n ≡ length (encode_char (code c)) + k
    → slice_to (suc n) (char_then c s) ≡ Option.map (char_then c) (slice_to k s)
unfolding slice_to
slice_to-then c s n k e =
    let width = length (encode_char (code c)) in
    let fits : leb width (suc n) ≡ true = ground arith in
    let left : suc n - width ≡ k = omega arith in rw (fits, left) refl

ascii_width : (c : ℕ) → ltb c 128 ≡ true → length (encode_char c) ≡ 1
unfolding encode_char
ascii_width c e = rw e refl

unfoldable pub is_ascii : String → Bool
unfolding all_chars
is_ascii s = all_chars (λ c. ltb c 128) s

-- A text of ASCII characters can be cut everywhere.
slice_to-ascii :
    (n : ℕ) (s : String)
    → is_ascii s ≡ true
    → n ≤ byte_length s
    → (p : String) × (slice_to n s ≡ some p)
unfolding slice_to is_ascii all_chars
slice_to-ascii zero s a h = ("", refl)
slice_to-ascii (suc n) nothing a h = absurd (omega (arith, h, byte_length-nothing))
slice_to-ascii (suc n) (char_then c s) a h =
    let small : ltb (code c) 128 ≡ true = ground (arith, a) in
    let others : is_ascii s ≡ true = ground (arith, a) in
    let width = ascii_width (code c) small in
    let (q, f) = slice_to-ascii n s others (omega (arith, h, width, byte_length-then c s)) in
    (char_then c q, slice_to-then c s n n (omega (arith, width)) ∙ ap (Option.map (char_then c)) f)

shortened-some :
    (dropped : ℕ) (o : Option String) (q : String)
    → o ≡ some q
    → (p : String) × (shortened dropped o ≡ some p)
unfolding shortened
shortened-some dropped o q e =
    (append q (append "...\n[truncated " (append (decimal dropped) " chars]")), rw e refl)

cut-ascii :
    (b : Bool) (max_chars : ℕ) (output : String)
    → ltb max_chars (byte_length output) ≡ b
    → is_ascii output ≡ true
    → (p : String) × (cut b max_chars output ≡ some p)
unfolding cut
cut-ascii true max_chars output e a =
    let (q, f) =
      slice_to-ascii (max_chars - 50) output a
        (omega (arith, ltb→lt max_chars (byte_length output) e)) in
    shortened-some (byte_length output - (max_chars - 50)) (slice_to (max_chars - 50) output) q f
cut-ascii false max_chars output e a = (output, refl)

pub preview-Within :
    (max_chars : ℕ) (output : String) → 50 ≤ max_chars → Within max_chars (preview max_chars output)
unfolding preview
preview-Within max_chars output h =
    cut-Within (ltb max_chars (byte_length output)) max_chars output refl h

pub preview-ascii :
    (max_chars : ℕ) (output : String)
    → is_ascii output ≡ true
    → (p : String) × (preview max_chars output ≡ some p)
unfolding preview
preview-ascii max_chars output a =
    cut-ascii (ltb max_chars (byte_length output)) max_chars output refl a
