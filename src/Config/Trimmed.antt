-- ===== src/Config/Trimmed.antt =====
-- What `trim_start_matches("http://")` leaves of a text.
use Prim.Native.Char.{code}
use Prim.Native.String.{◌++◌ as append, ◌∷◌ as char_then, [] as nothing}
use text.Mathlib.TextLemmas.{append_assoc, nil-append}
use cap_protocol.Prelude.{
  ℕ, zero, suc, String, none, some, ◌≡◌, ◌∙◌, refl, sym, ap, inl, inr, Option-cases, Bool-cases,
  ◌=ℕ◌, strip_prefix, strip_prefix-some, arith,
}
use cap_protocol.Config.Manifest.{trim_http}

-- So many times the prefix
abbrev pub http_prefixes : ℕ → String
http_prefixes zero = ""
http_prefixes (suc n) = append "http://" (http_prefixes n)

-- The text without its prefixes: a number of them stand before what is left, and none begins it.
abbrev pub IsTrimmed : String → String → Type 0
IsTrimmed u addr =
    (n : ℕ) × (u ≡ append (http_prefixes n) addr) × (strip_prefix addr "http://" ≡ none)

drop_chars : ℕ → String → String
drop_chars zero s = s
drop_chars (suc n) nothing = nothing
drop_chars (suc n) (char_then c s) = drop_chars n s

count_chars : String → ℕ
count_chars nothing = zero
count_chars (char_then c s) = suc (count_chars s)

strip_prefix-drop_chars :
    (s p rest : String) → strip_prefix s p ≡ some rest → drop_chars (count_chars p) s ≡ rest
unfolding strip_prefix drop_chars count_chars
strip_prefix-drop_chars s nothing rest e = ground (arith, e)
strip_prefix-drop_chars nothing (char_then d p) rest e = absurd (ground arith)
strip_prefix-drop_chars (char_then c s) (char_then d p) rest e =
    elim (Bool-cases (code c =ℕ code d)) [
      | inl same ↦ strip_prefix-drop_chars s p rest (rw same at e)
      | inr other ↦ absurd (cc (rw other at e))
    ]

none_left : strip_prefix "" "http://" ≡ none
unfolding strip_prefix
none_left = refl

trim_http-drop_chars : (k : ℕ) (s : String) → IsTrimmed (drop_chars k s) (trim_http k s)
unfolding trim_http drop_chars
trim_http-drop_chars zero nothing = (0, sym (nil-append nothing), none_left)
trim_http-drop_chars (suc k) nothing = (0, sym (nil-append nothing), none_left)
trim_http-drop_chars (suc k) (char_then c s) = trim_http-drop_chars k s
trim_http-drop_chars zero (char_then c s) =
    elim (Option-cases (strip_prefix (char_then c s) "http://")) [
      | inl e ↦ rw (e, trim_http) (0, sym (nil-append (char_then c s)), e)
      | inr (rest, e) ↦
          let (n, f, g) = trim_http-drop_chars 6 s in
          let left : drop_chars 6 s ≡ rest =
            unfold count_chars in strip_prefix-drop_chars (char_then c s) "http://" rest e in
          rw (e, trim_http)
            (
              suc n,
              strip_prefix-some (char_then c s) "http://" rest e
                  ∙ ap (append "http://") (sym left ∙ f)
                  ∙ sym (append_assoc "http://" (http_prefixes n) (trim_http 6 s)),
              g,
            )
    ]

pub trim_http-IsTrimmed : (u : String) → IsTrimmed u (trim_http 0 u)
unfolding drop_chars
trim_http-IsTrimmed u = trim_http-drop_chars 0 u
