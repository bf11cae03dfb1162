-- ===== src/Mcp/Calls.antt =====
-- The ids of the requests that the driver of codex_mcp.rs sends.
use cap_protocol.Prelude.{
  ℕ, suc, ◌+◌, ◌<◌, ◌^◌, String, Bool, true, false, Option, Result, ok, err, List, [], ◌∷◌, ◌++◌,
  length, pos, ◌≡◌, ◌⊎◌, inl, inr, refl, sym, arith,
}
use cap_protocol.Core.{Foreign, ClientFrame}
use cap_protocol.Pty.Driver.{DriverError, prompt_text}
use cap_protocol.Rpc.{fetch_add, Awaited, awaited_result, message}
use cap_protocol.Mcp.Driver.{
  Line, call, cancelled, other, CodexMcpDriver, transmit, call_value, cancel_value, send_open,
  send_if, send, sends, spawned, after_initialize, handshake, initialize_value,
}

module _ (x : Foreign) where
  -- The id of the last prompt
  abbrev pub last_call : ℕ → List (Line x) → ℕ
  last_call n [] = n
  last_call n (call id v ∷ ls) = last_call id ls
  last_call n (cancelled id v ∷ ls) = last_call n ls
  last_call n (other v ∷ ls) = last_call n ls

  -- The JSON of a request for a prompt, of a cancellation, and of the lines of the handshake
  abbrev pub IsPrompt : ℕ → x.Value → Type 0
  IsPrompt id v =
      (params : x.Value) × (v
        ≡ x.object (
            ("jsonrpc", x.string "2.0")
            ∷ ("id", x.integer (pos id))
            ∷ ("method", x.string "tools/call")
            ∷ ("params", params)
            ∷ []))

  abbrev pub IsCancellation : ℕ → x.Value → Type 0
  IsCancellation id v =
      v
      ≡ x.object (
          ("jsonrpc", x.string "2.0")
          ∷ ("method", x.string "notifications/cancelled")
          ∷ ("params", x.object (("requestId", x.integer (pos id)) ∷ []))
          ∷ [])

  abbrev pub IsHandshake : x.Value → Type 0
  IsHandshake v =
      ((id : ℕ) × (params : x.Value) × (v
          ≡ x.object (
              ("jsonrpc", x.string "2.0")
              ∷ ("id", x.integer (pos id))
              ∷ ("method", x.string "initialize")
              ∷ ("params", params)
              ∷ [])))
      ⊎ (v
          ≡ x.object
              (("jsonrpc", x.string "2.0") ∷ ("method", x.string "notifications/initialized") ∷ []))

  -- Each line is what its label says. Each prompt has a greater id than the one before, and a cancellation
  -- names the last one.
  abbrev pub IsOrdered : ℕ → List (Line x) → Type 0
  IsOrdered n [] = Unit
  IsOrdered n (call id v ∷ ls) = (n < id) × IsPrompt id v × IsOrdered id ls
  IsOrdered n (cancelled id v ∷ ls) = (id ≡ n) × IsCancellation id v × IsOrdered n ls
  IsOrdered n (other v ∷ ls) = IsHandshake v × IsOrdered n ls

  last_call-append :
      (n : ℕ) (ls ms : List (Line x)) → last_call n (ls ++ ms) ≡ last_call (last_call n ls) ms
  last_call-append n [] ms = refl
  last_call-append n (call id v ∷ ls) ms = last_call-append id ls ms
  last_call-append n (cancelled id v ∷ ls) ms = last_call-append n ls ms
  last_call-append n (other v ∷ ls) ms = last_call-append n ls ms

  IsOrdered-append :
      (n : ℕ) (ls ms : List (Line x))
      → IsOrdered n ls
      → IsOrdered (last_call n ls) ms
      → IsOrdered n (ls ++ ms)
  IsOrdered-append n [] ms h k = k
  IsOrdered-append n (call id v ∷ ls) ms (h, j, i) k = (h, j, IsOrdered-append id ls ms i k)
  IsOrdered-append n (cancelled id v ∷ ls) ms (h, j, i) k = (h, j, IsOrdered-append n ls ms i k)
  IsOrdered-append n (other v ∷ ls) ms (h, i) k = (h, IsOrdered-append n ls ms i k)

  -- What holds of the driver after `n` of the numbers are left
  record IsNumbered (left : ℕ) (d : CodexMcpDriver x) : Type 0 where
    ordered : IsOrdered 0 d.written
    last : d.writer_alive ≡ true → last_call 0 d.written ≡ d.last_tool_call_id
    fresh : d.last_tool_call_id < d.next_id
    room : d.next_id + left < 2 ^ 64

  transmit-IsNumbered :
      (alive takes : Bool) (line : Line x) (left : ℕ) (d : CodexMcpDriver x)
      → d.writer_alive ≡ alive
      → (alive ≡ true → IsOrdered (last_call 0 d.written) (line ∷ []))
      → (alive ≡ true → last_call (last_call 0 d.written) (line ∷ []) ≡ d.last_tool_call_id)
      → IsOrdered 0 d.written
      → d.last_tool_call_id < d.next_id
      → d.next_id + left < 2 ^ 64
      → IsNumbered left (transmit x alive line takes d).1
  unfolding transmit
  transmit-IsNumbered true true line left d a o l h f r = record {
    ordered = IsOrdered-append 0 d.written (line ∷ []) h (o refl);
    last = λ _. rw (last_call-append 0 d.written (line ∷ [])) (l refl);
    fresh = f;
    room = r;
  }
  transmit-IsNumbered true false line left d a o l h f r = record {
    ordered = h;
    last = λ e. absurd (ground arith);
    fresh = f;
    room = r;
  }
  transmit-IsNumbered false takes line left d a o l h f r = record {
    ordered = h;
    last = λ e. absurd (ground arith);
    fresh = f;
    room = r;
  }

  send_open-IsNumbered :
      (frame : ClientFrame x) (takes : Bool) (left : ℕ) (d : CodexMcpDriver x)
      → IsNumbered (suc left) d
      → IsNumbered left (send_open x frame takes d).1
  unfolding send_open call_value cancel_value
  send_open-IsNumbered (ClientFrame.prompt content) takes left d h =
      let id = d.next_id in
      let e = record d { next_id = fetch_add id; last_tool_call_id = id } in
      transmit-IsNumbered d.writer_alive takes (call id (call_value x id (prompt_text content) e))
        left e refl (λ a. (rw (h.last a) h.fresh, (_, refl), tt)) (λ a. refl) h.ordered
        (omega (arith, h.room)) (omega (arith, h.room))
  send_open-IsNumbered (ClientFrame.cancel scope reason) takes left d h =
      transmit-IsNumbered d.writer_alive takes
        (cancelled d.last_tool_call_id (cancel_value x d.last_tool_call_id)) left d refl
        (λ a. (sym (h.last a), refl, tt)) (λ a. h.last a) h.ordered h.fresh (omega (arith, h.room))
  send_open-IsNumbered (ClientFrame.session_config config) takes left d h = ground arith
  send_open-IsNumbered _ takes left d h = ground arith

  send_if-IsNumbered :
      (b : Bool) (frame : ClientFrame x) (takes : Bool) (left : ℕ) (d : CodexMcpDriver x)
      → IsNumbered (suc left) d
      → IsNumbered left (send_if x b frame takes d).1
  unfolding send_if
  send_if-IsNumbered true frame takes left d h = send_open-IsNumbered frame takes left d h
  send_if-IsNumbered false frame takes left d h = record {
    ordered = h.ordered;
    last = h.last;
    fresh = h.fresh;
    room = omega (arith, h.room);
  }

  send-IsNumbered :
      (frame : ClientFrame x) (takes : Bool) (left : ℕ) (d : CodexMcpDriver x)
      → IsNumbered (suc left) d
      → IsNumbered left (send x frame takes d).1
  unfolding send
  send-IsNumbered frame takes left d h = send_if-IsNumbered d.writer_open frame takes left d h

  sends-IsNumbered :
      (frames : List (ClientFrame x × Bool)) (d : CodexMcpDriver x)
      → IsNumbered (length frames) d
      → IsNumbered 0 (sends x frames d)
  unfolding sends
  sends-IsNumbered [] d h = h
  sends-IsNumbered ((frame, takes) ∷ rest) d h =
      sends-IsNumbered rest (send x frame takes d).1 (send-IsNumbered frame takes (length rest) d h)

  after_initialize-IsNumbered :
      (answer : Result DriverError x.Value) (takes : Bool) (left : ℕ) (d : CodexMcpDriver x)
      → IsNumbered left d
      → IsNumbered left (after_initialize x answer takes d).1
  unfolding after_initialize
  after_initialize-IsNumbered (err e) takes left d h = h
  after_initialize-IsNumbered (ok v) takes left d h =
      transmit-IsNumbered d.writer_alive takes
        (other (message x (("method", x.string "notifications/initialized") ∷ []))) left d refl
        (λ a. (inr refl, tt)) (λ a. h.last a) h.ordered h.fresh h.room

  handshake-IsNumbered :
      (version sandbox approval_policy cwd : String) (model : Option String) (awaited : Awaited x)
      (takes takes_note : Bool) (left : ℕ)
      → left + 2 < 2 ^ 64
      → IsNumbered left
          (handshake x version awaited takes takes_note
            (spawned x sandbox approval_policy cwd model)).1
  unfolding handshake transmit initialize_value
  handshake-IsNumbered version sandbox approval_policy cwd model awaited true takes_note left h =
      after_initialize-IsNumbered (awaited_result x "codex_mcp_jsonrpc_" _ awaited) takes_note left
        _
        (record {
          ordered = (inl (_, _, refl), tt);
          last = λ a. refl;
          fresh = omega arith;
          room = omega arith;
        })
  handshake-IsNumbered version sandbox approval_policy cwd model awaited false takes_note left h =
      record { ordered = tt; last = λ a. refl; fresh = omega arith; room = omega arith }

  -- Whatever the handshake gives and whichever frames the session sends, as long as they are fewer than 2 ^ 64
  -- with the two numbers of the handshake: each prompt that is written has a greater id than all before it,
  -- and a cancellation names the id of the last prompt that was written, or 0 if there was none; the ids are
  -- those in the JSON that codex is sent.
  pub sends-IsOrdered :
      (version sandbox approval_policy cwd : String) (model : Option String) (awaited : Awaited x)
      (takes takes_note : Bool) (frames : List (ClientFrame x × Bool))
      → length frames + 2 < 2 ^ 64
      → IsOrdered 0
          (sends x frames
            (handshake x version awaited takes takes_note
              (spawned x sandbox approval_policy cwd model)).1).written
  sends-IsOrdered version sandbox approval_policy cwd model awaited takes takes_note frames h =
      (sends-IsNumbered frames
        (handshake x version awaited takes takes_note
          (spawned x sandbox approval_policy cwd model)).1
        (handshake-IsNumbered version sandbox approval_policy cwd model awaited takes takes_note
          (length frames) h)).ordered
