-- ===== src/StreamJson/Encode.antt =====
-- `encode_client_frame`, `encode_rscode_client_frame` and `send` of stream_json.rs.
use Prim.Native.Char.{code}
use Prim.Native.String.{◌++◌ as append, ◌∷◌ as char_then, [] as nothing}
use cap_protocol.Prelude.{
  ℕ, String, Bool, true, false, List, [], ◌∷◌, ◌=ℕ◌, Result, ok, err, ◌>>=◌, if◌then◌else◌,
}
use cap_protocol.Core.{Foreign, ClientFrame, Content, PermissionDecision}
use cap_protocol.Base64.{encode}
use cap_protocol.Pty.Driver.{DriverError}

-- The character of an ASCII code of the Base64 alphabet, and the text of a list of codes
unfoldable pub char_of : ℕ → String → String
char_of k nothing = ""
char_of k (char_then c s) = if code c =ℕ k then char_then c nothing else char_of k s

unfoldable pub ascii : List ℕ → String
unfolding char_of
ascii [] = ""
ascii (c ∷ s) =
    append (char_of c "ABCDEFGHIJKLMNOPQRSTUVWXYZabcdefghijklmnopqrstuvwxyz0123456789+/=") (ascii s)

-- The `Debug` of a decision
abbrev pub decision_name : PermissionDecision → String
decision_name PermissionDecision.allow_once = "AllowOnce"
decision_name PermissionDecision.allow_always = "AllowAlways"
decision_name PermissionDecision.deny = "Deny"

abbrev pub no_cancel : DriverError
no_cancel =
    DriverError.agent_error "cap_cancel_unsupported"
      "stream-json binding has no in-band cancel; call Driver::shutdown"

abbrev pub no_reverse_rpc : DriverError
no_reverse_rpc =
    DriverError.agent_error "cap_reverse_rpc_unsupported"
      "stream-json driver does not emit reverse RPC"

module _ (x : Foreign) where
  abbrev text_part : String → x.Value
  text_part text = x.object (("type", x.string "text") ∷ ("text", x.string text) ∷ [])

  unfoldable pub encode_part : Content → x.Value
  unfolding ascii encode
  encode_part (Content.text text) = text_part text
  encode_part (Content.image mime bytes) = x.object (
      ("type", x.string "image")
      ∷ (
        "source",
        x.object (
            ("type", x.string "base64")
            ∷ ("media_type", x.string mime)
            ∷ ("data", x.string (ascii (encode bytes)))
            ∷ []),
      )
      ∷ [])

  unfoldable pub encode_parts : List Content → List x.Value
  unfolding encode_part
  encode_parts [] = []
  encode_parts (c ∷ content) = encode_part c ∷ encode_parts content

  -- The `json!` of a user's message
  abbrev user_message : List x.Value → String
  user_message parts = x.to_string (
      x.object (
        ("type", x.string "user")
        ∷ ("message", x.object (("role", x.string "user") ∷ ("content", x.array parts) ∷ []))
        ∷ []))

  abbrev answer_text : String → x.Value → String
  answer_text ask_id value = append "[answer to " (append ask_id (append "]: " (x.to_string value)))

  abbrev permission_text : String → PermissionDecision → String
  permission_text req_id decision =
      append "[permission " (append req_id (append "]: " (decision_name decision)))

  unfoldable pub encode_client_frame : ClientFrame x → Result DriverError String
  unfolding encode_parts
  encode_client_frame (ClientFrame.prompt content) = ok (user_message (encode_parts content))
  encode_client_frame (ClientFrame.cancel scope reason) = err no_cancel
  encode_client_frame (ClientFrame.session_config config) = ok ""
  encode_client_frame (ClientFrame.ask_user_answer ask_id value) =
      ok (user_message (text_part (answer_text ask_id value) ∷ []))
  encode_client_frame (ClientFrame.permission_response req_id decision) =
      ok (user_message (text_part (permission_text req_id decision) ∷ []))
  encode_client_frame (ClientFrame.reverse_rpc_result rpc_id result) = err no_reverse_rpc

  -- The text of a prompt, where an image is an error
  unfoldable pub plain_text : List Content → Result DriverError String
  plain_text [] = ok ""
  plain_text (Content.text text ∷ content) = plain_text content >>= (λ rest. ok (append text rest))
  plain_text (Content.image mime bytes ∷ content) = err (
      DriverError.agent_error "cap_rscode_image_unsupported"
        "RSCode stream-json input accepts text prompts only")

  abbrev user_text : String → String
  user_text text = x.to_string (x.object (("type", x.string "user") ∷ ("text", x.string text) ∷ []))

  unfoldable pub encode_rscode_client_frame : ClientFrame x → Result DriverError String
  unfolding plain_text
  encode_rscode_client_frame (ClientFrame.prompt content) =
      plain_text content >>= (λ text. ok (user_text text))
  encode_rscode_client_frame (ClientFrame.ask_user_answer ask_id value) =
      ok (user_text (answer_text ask_id value))
  encode_rscode_client_frame (ClientFrame.permission_response req_id decision) =
      ok (user_text (permission_text req_id decision))
  encode_rscode_client_frame (ClientFrame.session_config config) = ok ""
  encode_rscode_client_frame (ClientFrame.cancel scope reason) = err no_cancel
  encode_rscode_client_frame (ClientFrame.reverse_rpc_result rpc_id result) = err no_reverse_rpc

  -- The `matches!` of `send`
  abbrev pub starts_turn : ClientFrame x → Bool
  starts_turn (ClientFrame.prompt content) = true
  starts_turn (ClientFrame.ask_user_answer ask_id value) = true
  starts_turn (ClientFrame.permission_response req_id decision) = true
  starts_turn _ = false
