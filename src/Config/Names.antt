-- ===== src/Config/Names.antt =====
-- The tests on names in config.rs: session ids, binaries, git refs, manifest paths.
use cap_protocol.Prelude.{
  ℕ, String, Bool, not, ◌&&◌, ◌||◌, ◌==◌, ◌=ℕ◌, contains_char, contains_text, starts_with_char,
  all_chars, is_ascii_alphanumeric, fail_if, Result,
}
use cap_protocol.Config.{ConfigError, bad_agent_name, bad_manifest_path}

-- `matches!(c, '_' | '-' | '.')` with the alphanumeric test before it
binary_char : ℕ → Bool
unfolding is_ascii_alphanumeric
binary_char c = is_ascii_alphanumeric c || c =ℕ b'_' || c =ℕ b'-' || c =ℕ b'.'

id_char : ℕ → Bool
unfolding is_ascii_alphanumeric
id_char c = is_ascii_alphanumeric c || c =ℕ b'_' || c =ℕ b'-'

ref_char : ℕ → Bool
unfolding is_ascii_alphanumeric
ref_char c = is_ascii_alphanumeric c || c =ℕ b'_' || c =ℕ b'-' || c =ℕ b'.' || c =ℕ b'/'

unfoldable pub valid_session_id : String → Bool
unfolding id_char all_chars starts_with_char
valid_session_id id = not (id == "") && not (starts_with_char b'-' id) && all_chars id_char id

unfoldable pub valid_binary_name : String → Bool
unfolding binary_char all_chars contains_char
valid_binary_name name =
    not (name == "")
    && not (contains_char b'/' name)
    && not (contains_char 92 name)
    && not (contains_char b' ' name)
    && all_chars binary_char name

unfoldable pub valid_git_ref : String → Bool
unfolding ref_char all_chars starts_with_char contains_text
valid_git_ref r =
    not (r == "")
    && not (starts_with_char b'-' r)
    && not (contains_text r "..")
    && all_chars ref_char r

unfoldable pub validate_agent_name : String → Result ConfigError (Unit {0})
unfolding valid_binary_name
validate_agent_name name = fail_if (not (valid_binary_name name)) (bad_agent_name name)

-- The condition of `validate_manifest_path`'s `if`
unfoldable pub bad_path : String → Bool
unfolding starts_with_char contains_char contains_text
bad_path path =
    path == ""
    || starts_with_char b'-' path
    || contains_char 0 path
    || contains_text path ".."
    || contains_char 92 path

unfoldable pub validate_manifest_path : String → Result ConfigError (Unit {0})
unfolding bad_path
validate_manifest_path path = fail_if (bad_path path) (bad_manifest_path path)
