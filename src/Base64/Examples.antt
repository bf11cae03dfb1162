-- ===== src/Base64/Examples.antt =====
-- Some bytes, and the texts that stand for them.
use cap_protocol.Prelude.{arith, [], ◌∷◌, ◌≡◌, refl, ok}
use cap_protocol.Base64.{encode, decode, strip_whitespace}
use cap_protocol.Base64.Groups.{decode-encode}

hi_encoded :
    encode (b'h' ∷ b'i' ∷ b'!' ∷ b'?' ∷ [])
    ≡ b'a' ∷ b'G' ∷ b'k' ∷ b'h' ∷ b'P' ∷ b'w' ∷ b'=' ∷ b'=' ∷ []
unfolding encode
hi_encoded = refl

-- A pad may stand before a character: the code does not refuse it.
inner_pad : decode (b'a' ∷ b'G' ∷ b'=' ∷ b'h' ∷ []) ≡ ok (104 ∷ 96 ∷ 33 ∷ [])
unfolding decode strip_whitespace
inner_pad = refl

decode-encode_example :
    decode (encode (255 ∷ 0 ∷ 17 ∷ 254 ∷ 9 ∷ [])) ≡ ok (255 ∷ 0 ∷ 17 ∷ 254 ∷ 9 ∷ [])
decode-encode_example =
    decode-encode (255 ∷ 0 ∷ 17 ∷ 254 ∷ 9 ∷ [])
      (omega arith, (omega arith, (omega arith, (omega arith, (omega arith, tt)))))
