-- ===== src/Base64/Groups.antt =====
-- Decoding gives back what was encoded.
use cap_protocol.Prelude.{
  ℕ, ◌+◌, ◌*◌, ◌/◌, ◌%◌, ◌<◌, false, List, [], ◌∷◌, length, ◌=ℕ◌, ok, ◌≡◌, ◌∙◌, refl, ap, All,
  arith,
}
use cap_protocol.Base64.{
  alphabet, sextet, encode, decode_char, strip_whitespace, is_ascii_whitespace, shift_in,
  group_bytes, decode_group, decode_groups, decode,
}

decode_char-alphabet : (n : ℕ) → n < 64 → decode_char (alphabet n) ≡ ok n
unfolding alphabet decode_char
decode_char-alphabet n h = ground arith

alphabet-plain :
    (n : ℕ) → n < 64 → ((alphabet n =ℕ b'=') ≡ false) × (is_ascii_whitespace (alphabet n) ≡ false)
unfolding alphabet
alphabet-plain n h = ground arith

shift_in-alphabet : (slot n v : ℕ) → n < 64 → shift_in slot (alphabet n) v ≡ ok (v * 64 + n)
unfolding shift_in
shift_in-alphabet slot n v h = rw ((alphabet-plain n h).0, decode_char-alphabet n h) refl

-- A group of four characters, of three and one pad, of two and two pads
group_four :
    (a b c d : ℕ)
    → a < 64
    → b < 64
    → c < 64
    → d < 64
    → decode_group (alphabet a) (alphabet b) (alphabet c) (alphabet d)
      ≡ ok (group_bytes 0 ((((0 * 64 + a) * 64 + b) * 64 + c) * 64 + d))
unfolding decode_group
group_four a b c d ha hb hc hd =
    rw
      (
        shift_in-alphabet 0 a 0 ha,
        shift_in-alphabet 1 b (0 * 64 + a) hb,
        shift_in-alphabet 2 c ((0 * 64 + a) * 64 + b) hc,
        shift_in-alphabet 3 d (((0 * 64 + a) * 64 + b) * 64 + c) hd,
        (alphabet-plain d hd).0,
      )
      refl

group_three :
    (a b c : ℕ)
    → a < 64
    → b < 64
    → c < 64
    → decode_group (alphabet a) (alphabet b) (alphabet c) b'='
      ≡ ok (group_bytes 1 ((((0 * 64 + a) * 64 + b) * 64 + c) * 64))
unfolding decode_group shift_in
group_three a b c ha hb hc =
    rw
      (
        shift_in-alphabet 0 a 0 ha,
        shift_in-alphabet 1 b (0 * 64 + a) hb,
        shift_in-alphabet 2 c ((0 * 64 + a) * 64 + b) hc,
        (alphabet-plain c hc).0,
      )
      refl

group_two :
    (a b : ℕ)
    → a < 64
    → b < 64
    → decode_group (alphabet a) (alphabet b) b'=' b'='
      ≡ ok (group_bytes 2 (((0 * 64 + a) * 64 + b) * 64 * 64))
unfolding decode_group shift_in
group_two a b ha hb =
    rw (shift_in-alphabet 0 a 0 ha, shift_in-alphabet 1 b (0 * 64 + a) hb, (alphabet-plain b hb).0)
      refl

-- The numbers of a group of three bytes
sextets :
    (a b c : ℕ)
    → a < 256
    → b < 256
    → c < 256
    → let v = a * 65536 + b * 256 + c in
      ((((0 * 64 + (v / 262144) % 64) * 64 + (v / 4096) % 64) * 64 + (v / 64) % 64) * 64
          + (v / 1) % 64
        ≡ v)
sextets a b c ha hb hc = omega arith

bytes_of :
    (a b c : ℕ)
    → a < 256
    → b < 256
    → c < 256
    → let v = a * 65536 + b * 256 + c in
      ((v / 65536) % 256 ≡ a) × ((v / 256) % 256 ≡ b) × (v % 256 ≡ c)
bytes_of a b c ha hb hc = (omega arith, omega arith, omega arith)

sextet-bound : (v k : ℕ) → (v / k) % 64 < 64
sextet-bound v k = omega arith

triple :
    (a b c : ℕ)
    → a < 256
    → b < 256
    → c < 256
    → let v = a * 65536 + b * 256 + c in
      decode_group (sextet v 262144) (sextet v 4096) (sextet v 64) (sextet v 1)
      ≡ ok (a ∷ b ∷ c ∷ [])
unfolding group_bytes
triple a b c ha hb hc =
    let v = a * 65536 + b * 256 + c in
    let (f, g, h) = bytes_of a b c ha hb hc in
    group_four ((v / 262144) % 64) ((v / 4096) % 64) ((v / 64) % 64) ((v / 1) % 64) (omega arith)
      (omega arith) (omega arith) (omega arith)
    ∙ ap (λ w. ok (group_bytes 0 w)) (sextets a b c ha hb hc)
    ∙ rw (f, g, h) refl

double :
    (a b : ℕ)
    → a < 256
    → b < 256
    → let v = a * 65536 + b * 256 in
      decode_group (sextet v 262144) (sextet v 4096) (sextet v 64) b'=' ≡ ok (a ∷ b ∷ [])
unfolding group_bytes
double a b ha hb =
    let v = a * 65536 + b * 256 in
    let whole : (((0 * 64 + (v / 262144) % 64) * 64 + (v / 4096) % 64) * 64 + (v / 64) % 64) * 64
        ≡ v =
      omega arith in
    let f : (v / 65536) % 256 ≡ a = omega arith in
    let g : (v / 256) % 256 ≡ b = omega arith in
    group_three ((v / 262144) % 64) ((v / 4096) % 64) ((v / 64) % 64) (omega arith) (omega arith)
      (omega arith)
    ∙ ap (λ w. ok (group_bytes 1 w)) whole
    ∙ rw (f, g) refl

single :
    (a : ℕ)
    → a < 256
    → let v = a * 65536 in decode_group (sextet v 262144) (sextet v 4096) b'=' b'=' ≡ ok (a ∷ [])
unfolding group_bytes
single a ha =
    let v = a * 65536 in
    let whole : ((0 * 64 + (v / 262144) % 64) * 64 + (v / 4096) % 64) * 64 * 64 ≡ v = omega arith in
    let f : (v / 65536) % 256 ≡ a = omega arith in
    group_two ((v / 262144) % 64) ((v / 4096) % 64) (omega arith) (omega arith)
    ∙ ap (λ w. ok (group_bytes 2 w)) whole
    ∙ rw f refl

-- Each element is a byte.
abbrev pub AreBytes : List ℕ → Type 0
AreBytes bytes = All (λ b. b < 256) bytes

encode-groups : (bytes : List ℕ) → AreBytes bytes → decode_groups (encode bytes) ≡ ok bytes
unfolding decode_groups encode
encode-groups [] h = refl
encode-groups (a ∷ []) (ha, _) = rw (single a ha) refl
encode-groups (a ∷ b ∷ []) (ha, (hb, _)) = rw (double a b ha hb) refl
encode-groups (a ∷ b ∷ c ∷ rest) (ha, (hb, (hc, h))) =
    rw (triple a b c ha hb hc, encode-groups rest h) refl

strip_whitespace-sextet :
    (v k : ℕ) (s : List ℕ) → strip_whitespace (sextet v k ∷ s) ≡ sextet v k ∷ strip_whitespace s
unfolding strip_whitespace
strip_whitespace-sextet v k s = rw ((alphabet-plain ((v / k) % 64) (omega arith)).1) refl

strip_whitespace-pads :
    (strip_whitespace [] ≡ [])
    × (strip_whitespace (61 ∷ []) ≡ 61 ∷ [])
    × (strip_whitespace (61 ∷ 61 ∷ []) ≡ 61 ∷ 61 ∷ [])
unfolding strip_whitespace
strip_whitespace-pads = (refl, refl, refl)

strip_whitespace-encode : (bytes : List ℕ) → strip_whitespace (encode bytes) ≡ encode bytes
unfolding encode
strip_whitespace-encode [] = strip_whitespace-pads.0
strip_whitespace-encode (a ∷ []) = simp (strip_whitespace-sextet, strip_whitespace-pads.2) refl
strip_whitespace-encode (a ∷ b ∷ []) = simp (strip_whitespace-sextet, strip_whitespace-pads.1) refl
strip_whitespace-encode (a ∷ b ∷ c ∷ rest) =
    simp (strip_whitespace-sextet, strip_whitespace-encode rest) refl

encode-whole : (bytes : List ℕ) → length (encode bytes) % 4 ≡ 0
unfolding encode
encode-whole [] = refl
encode-whole (a ∷ []) = refl
encode-whole (a ∷ b ∷ []) = refl
encode-whole (a ∷ b ∷ c ∷ rest) = omega (arith, encode-whole rest)

-- Whatever bytes an image has, decoding the text that `encode` gives for them returns these bytes.
pub decode-encode : (bytes : List ℕ) → AreBytes bytes → decode (encode bytes) ≡ ok bytes
unfolding decode
decode-encode bytes h =
    rw (strip_whitespace-encode bytes, encode-whole bytes, encode-groups bytes h) refl
