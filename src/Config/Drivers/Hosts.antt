-- ===== src/Config/Drivers/Hosts.antt =====
-- `valid_grpc_address`, `is_private_host` and `valid_a2a_url` of config.rs.
use Prim.Native.String.{◌∷◌, [] as empty}
use Prim.Native.Char.{code}
use Prim.Native.Nat.{bit_and}
use cap_protocol.Prelude.{
  ℕ, String, Bool, not, ◌&&◌, ◌||◌, true, false, Option, none, some, List, ◌==◌, ◌=ℕ◌, leb,
  if◌then◌else◌, contains_text, strip_prefix, starts_with_char, all_chars, is_ascii_digit,
  is_ascii_alphanumeric, IpAddr, v4, v6, parse_ip,
}

-- What `valid_a2a_url` reads of a `url::Url`.
pub record Url : Type 0 where
  pub scheme : String
  pub host_str : Option String
  pub username : String
  pub password : Option String

-- `addr.rsplit_once(':')`: the texts around the last occurrence of the character
unfoldable pub rsplit_once : ℕ → String → Option (String × String)
rsplit_once k empty = none
rsplit_once k (c ∷ s) = elim (rsplit_once k s) [
  | some (before, after) ↦ some (c ∷ before, after)
  | none ↦ if code c =ℕ k then some (empty, s) else none
]

-- `trim_start_matches('[')`
trim_start : ℕ → String → String
trim_start k empty = empty
trim_start k (c ∷ s) = let rest = trim_start k s in if code c =ℕ k then rest else c ∷ s

-- `trim_end_matches(']')`
trim_end : ℕ → String → String
trim_end k empty = empty
trim_end k (c ∷ s) =
    let rest = trim_end k s in if rest == empty && code c =ℕ k then empty else c ∷ rest

-- The octets of the blocked IPv4 ranges.
private_v4 : ℕ → ℕ → ℕ → ℕ → Bool
private_v4 a b c d =
    a =ℕ 127
    || a =ℕ 10
    || (a =ℕ 172 && (leb 16 b && leb b 31))
    || (a =ℕ 192 && b =ℕ 168)
    || (a =ℕ 169 && b =ℕ 254)
    || (a =ℕ 0 && b =ℕ 0 && c =ℕ 0 && d =ℕ 0)

-- Segments equal to those given.
same_segments : List ℕ → List ℕ → Bool
same_segments List.[] List.[] = true
same_segments (List.◌∷◌ m ms) (List.◌∷◌ n ns) = m =ℕ n && same_segments ms ns
same_segments _ _ = false

abbrev first_segment : List ℕ → ℕ
first_segment List.[] = 0
first_segment (List.◌∷◌ m _) = m

abbrev loopback : List ℕ
loopback = List.◌∷◌ 0 (
    List.◌∷◌ 0
      (List.◌∷◌ 0 (List.◌∷◌ 0 (List.◌∷◌ 0 (List.◌∷◌ 0 (List.◌∷◌ 0 (List.◌∷◌ 1 List.[])))))))

abbrev unspecified : List ℕ
unspecified = List.◌∷◌ 0 (
    List.◌∷◌ 0
      (List.◌∷◌ 0 (List.◌∷◌ 0 (List.◌∷◌ 0 (List.◌∷◌ 0 (List.◌∷◌ 0 (List.◌∷◌ 0 List.[])))))))

private_v6 : List ℕ → Bool
unfolding same_segments
private_v6 segs =
    same_segments segs loopback
    || same_segments segs unspecified
    || bit_and (first_segment segs) 0xfe00 =ℕ 0xfc00
    || bit_and (first_segment segs) 0xffc0 =ℕ 0xfe80

-- The `match ip`.
private_ip : IpAddr → Bool
unfolding private_v4 private_v6
private_ip (v4 a b c d) = private_v4 a b c d
private_ip (v6 segs) = private_v6 segs

unfoldable pub is_private_host : String → Bool
unfolding trim_start trim_end private_ip parse_ip
is_private_host host =
    let bare = trim_end b']' (trim_start b'[' host) in
    if bare == "localhost" || bare == ""
    then true
    else elim (parse_ip bare) [ some ip ↦ private_ip ip | none ↦ false ]

host_char : ℕ → Bool
unfolding is_ascii_alphanumeric
host_char c =
    is_ascii_alphanumeric c
    || c =ℕ b'.'
    || c =ℕ b'-'
    || c =ℕ b'_'
    || c =ℕ b'['
    || c =ℕ b']'
    || c =ℕ b':'

-- The tests on the two parts, in the order of the early returns.
unfoldable pub valid_host_port : String → String → Bool
unfolding host_char is_private_host all_chars is_ascii_digit
valid_host_port host port =
    if host == "" || port == ""
    then false
    else if not (all_chars is_ascii_digit port)
    then false
    else if not (all_chars host_char host)
    then false
    else not (is_private_host host)

-- `s.starts_with(p)`
abbrev starts_with_text : String → String → Bool
starts_with_text s p = elim (strip_prefix s p) [ some _ ↦ true | none ↦ false ]

unfoldable pub valid_grpc_address : String → Bool
unfolding valid_host_port rsplit_once contains_text strip_prefix
valid_grpc_address addr =
    if addr == ""
    then false
    else if contains_text addr "://" || starts_with_text addr "unix:"
    then false
    else elim (rsplit_once b':' addr) [
      | some (host, port) ↦ valid_host_port host port
      | none ↦ false
    ]

abbrev is_set : {A : Type 0} → Option A → Bool
is_set none = false
is_set (some _) = true

-- What is asked of a parsed URL.
unfoldable pub valid_url : Url → Bool
unfolding is_private_host starts_with_char contains_text
valid_url url =
    if not (url.scheme == "http" || url.scheme == "https") then false else elim url.host_str [
      | none ↦ false
      | some host ↦
          if host == "" || starts_with_char b'-' host || contains_text host ".."
          then false
          else if is_set url.password || not (url.username == "")
          then false
          else not (is_private_host host)
    ]

unfoldable pub valid_a2a_url : (String → Option Url) → String → Bool
unfolding valid_url
valid_a2a_url parse_url url = elim (parse_url url) [ none ↦ false | some u ↦ valid_url u ]
