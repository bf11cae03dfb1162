-- ===== src/Rpc.antt =====
-- JSON-RPC as crates/cap-rs/src/driver/acp.rs and codex_mcp.rs speak it: both have this code. A line that
-- is sent is the JSON value that it is the text of.
use cap_protocol.Prelude.{
  ℕ, ℤ, pos, ◌+◌, ◌%◌, ◌^◌, String, Bool, true, false, none, some, List, [], ◌∷◌, Result, ok, err,
  ◌=ℕ◌, show_int, if◌then◌else◌,
}
use Prim.Native.String.{◌++◌ as append}
use cap_protocol.Core.{Foreign, AgentEvent}
use cap_protocol.Json.{unwrap_or, and_then, value_at, text_at}
use cap_protocol.Pty.Driver.{DriverError}

-- The result of a request: a value, or a code and a message
abbrev pub JsonRpcResult : Foreign → Type 0
JsonRpcResult x = Result (ℤ × String) x.Value

-- How the wait for a reply ends: with a reply, since the reader is gone, or after the timeout.
pub data Awaited (x : Foreign) : Type 0 where
  answered : JsonRpcResult x → Awaited x
  dropped timed_out : Awaited x

-- `fetch_add(1)` on an `AtomicU64`: the next number
abbrev pub fetch_add : ℕ → ℕ
fetch_add n = (n + 1) % 2 ^ 64

-- `set.remove(&id)`, and whether it was there
unfoldable pub has_id : ℕ → List ℕ → Bool
has_id id [] = false
has_id id (j ∷ js) = if j =ℕ id then true else has_id id js

unfoldable pub drop_id : ℕ → List ℕ → List ℕ
drop_id id [] = []
drop_id id (j ∷ js) = let rest = drop_id id js in if j =ℕ id then rest else j ∷ rest

module _ (x : Foreign) where
  -- `json!({ "jsonrpc": "2.0", … })`
  abbrev pub message : List (String × x.Value) → x.Value
  message fields = x.object (("jsonrpc", x.string "2.0") ∷ fields)

  abbrev pub request : ℕ → String → x.Value → x.Value
  request id method params =
      message (("id", x.integer (pos id)) ∷ ("method", x.string method) ∷ ("params", params) ∷ [])

  -- `result` of `handle_response`
  unfoldable pub result_of : x.Value → JsonRpcResult x
  result_of frame = elim (x.get "error" frame) [
    | some e ↦ err (unwrap_or (pos 0) (and_then x.as_i64 (x.get "code" e)), text_at x "message" e)
    | none ↦ ok (value_at x "result" frame)
  ]

  -- The event of an error of the turn
  unfoldable pub error_event : String → String → x.Value → AgentEvent x
  unfolding show_int
  error_event prefix default e =
      AgentEvent.error
        (elim (and_then x.as_i64 (x.get "code" e)) [
          | some c ↦ append prefix (show_int c)
          | none ↦ default
        ])
        (text_at x "message" e) false none

  -- The end of `send_and_await`, given the prefix of the codes: what it returns
  unfoldable pub awaited_result : String → String → Awaited x → Result DriverError x.Value
  unfolding show_int
  awaited_result prefix timeout (answered (ok v)) = ok v
  awaited_result prefix timeout (answered (err (code, text))) =
      err (DriverError.agent_error (append prefix (show_int code)) text)
  awaited_result prefix timeout dropped = err DriverError.agent_exited
  awaited_result prefix timeout timed_out =
      err (DriverError.agent_error "cap_handshake_timeout" timeout)
