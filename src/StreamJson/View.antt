-- ===== src/StreamJson/View.antt =====
-- What the consumer of an agent's events can tell from them: the reader's flags are functions of the log.
use Prim.Native.String.{◌++◌ as append}
use cap_protocol.Prelude.{
  String, Bool, true, false, not, ◌&&◌, ◌||◌, List, [], ◌∷◌, ◌++◌, ◌≡◌, ◌∙◌, sym, subst, ap, refl,
  Result, ok, err, ◌==◌, if◌then◌else◌,
}
use cap_protocol.Core.{Foreign, AgentEvent, TextChannel}
use cap_protocol.Pty.Driver.{DriverError}
use cap_protocol.StreamJson.Encode.{starts_turn}
use cap_protocol.StreamJson.Reader.{
  Entry, started, refused, forwarded, Reader, Mode, new_reader, dedupe_text, dedupe, settle,
  keep_text, forward, on_event, on_events, line_events, on_line, eof_event, read_error, log_events,
  End, closed, failed, on_end, line_of, transmit, send_line, send, Step, line, frame, step, steps,
}

-- Whether a turn waits for its end, whether text was streamed, and the text of the turn.
pub record View : Type 0 where
  pub pending : Bool
  pub streamed : Bool
  pub text : String

abbrev pub quiet : View
quiet = record { pending = false; streamed = false; text = "" }

module _ {x : Foreign} where
  abbrev pub next : View → Entry x → View
  next v started = record v { pending = true }
  next v refused = record v { pending = false }
  next v (forwarded (AgentEvent.done stop usage)) = quiet
  next v (forwarded (AgentEvent.error code message retryable details)) = record v {
    pending = false;
  }
  next v (forwarded (AgentEvent.text_chunk msg_id text TextChannel.assistant)) = record v {
    streamed = msg_id == "" || v.streamed;
    text = append v.text text;
  }
  next v (forwarded (AgentEvent.tool_call_start call_id name input)) = record v { streamed = false }
  next v _ = v

  abbrev pub after : View → List (Entry x) → View
  after v [] = v
  after v (e ∷ es) = after (next v e) es

  -- A whole text under a message's id, after the same text came in pieces
  abbrev pub is_echo : View → Entry x → Bool
  is_echo v (forwarded (AgentEvent.text_chunk msg_id text TextChannel.assistant)) =
      not (msg_id == "") && v.streamed
  is_echo v _ = false

  abbrev pub HasNoEcho : View → List (Entry x) → Type 0
  HasNoEcho v [] = Unit
  HasNoEcho v (e ∷ es) = (is_echo v e ≡ false) × HasNoEcho (next v e) es

  after-snoc :
      (v : View) (es : List (Entry x)) (e : Entry x) → after v (es ++ e ∷ []) ≡ next (after v es) e
  after-snoc v [] e = refl
  after-snoc v (f ∷ es) e = after-snoc (next v f) es e

  after-nil : (v : View) (es : List (Entry x)) → after v (es ++ []) ≡ after v es
  after-nil v [] = refl
  after-nil v (f ∷ es) = after-nil (next v f) es

  HasNoEcho-snoc :
      (v : View) (es : List (Entry x)) (e : Entry x)
      → HasNoEcho v es
      → is_echo (after v es) e ≡ false
      → HasNoEcho v (es ++ e ∷ [])
  HasNoEcho-snoc v [] e h k = (k, tt)
  HasNoEcho-snoc v (f ∷ es) e h k = (h.0, HasNoEcho-snoc (next v f) es e h.1 k)

  abbrev view : Reader x → View
  view r = record { pending = r.turn_pending; streamed = r.streamed_text; text = r.assistant_text }

  -- The flags are what the log says, and the log has no echo.
  pub record IsFaithful (r : Reader x) : Type 0 where
    pub follows : after quiet r.log ≡ view r
    pub no_echo : HasNoEcho quiet r.log

  -- One more entry
  extended :
      (r s : Reader x) (e : Entry x)
      → IsFaithful r
      → s.log ≡ r.log ++ e ∷ []
      → next (view r) e ≡ view s
      → is_echo (view r) e ≡ false
      → IsFaithful s
  extended r s e h k l m = record {
    follows = ap (after quiet) k ∙ after-snoc quiet r.log e ∙ ap (λ v. next v e) h.follows ∙ l;
    no_echo =
        subst (HasNoEcho quiet) (sym k)
          (HasNoEcho-snoc quiet r.log e h.no_echo (ap (λ v. is_echo v e) h.follows ∙ m));
  }

  chunk-IsFaithful :
      (msg_id text : String) (pieces seen : Bool) (r : Reader x)
      → (msg_id == "") ≡ pieces
      → r.streamed_text ≡ seen
      → IsFaithful r
      → IsFaithful (
          forward x
            (dedupe_text pieces seen).0
            (AgentEvent.text_chunk msg_id text TextChannel.assistant)
            (record r { streamed_text = (dedupe_text pieces seen).1 }))
  unfolding dedupe_text forward keep_text
  chunk-IsFaithful msg_id text true seen r e f h =
      extended r _ (forwarded (AgentEvent.text_chunk msg_id text TextChannel.assistant)) h refl
        (rw e refl) (rw e refl)
  chunk-IsFaithful msg_id text false true r e f h = record {
    follows = h.follows ∙ ap (λ b. record (view r) { streamed = b }) f;
    no_echo = h.no_echo;
  }
  chunk-IsFaithful msg_id text false false r e f h =
      extended r _ (forwarded (AgentEvent.text_chunk msg_id text TextChannel.assistant)) h refl
        (rw (e, f) refl) (rw (e, f) refl)

  on_event-IsFaithful :
      (e : AgentEvent x) (r : Reader x) → IsFaithful r → IsFaithful (on_event x e r)
  unfolding on_event dedupe settle forward keep_text
  on_event-IsFaithful (AgentEvent.text_chunk msg_id text TextChannel.assistant) r h =
      chunk-IsFaithful msg_id text (msg_id == "") r.streamed_text r refl refl h
  on_event-IsFaithful e r h = extended r (on_event x e r) (forwarded e) h refl refl refl

  on_events-IsFaithful :
      (es : List (AgentEvent x)) (r : Reader x) → IsFaithful r → IsFaithful (on_events x es r)
  unfolding on_events
  on_events-IsFaithful [] r h = h
  on_events-IsFaithful (e ∷ es) r h =
      on_events-IsFaithful es (on_event x e r) (on_event-IsFaithful e r h)

  transmit-IsFaithful :
      (starts taken : Bool) (r : Reader x) → IsFaithful r → IsFaithful (transmit x starts taken r).1
  unfolding transmit
  transmit-IsFaithful true true r h = extended r _ started h refl refl refl
  transmit-IsFaithful false true r h = h
  transmit-IsFaithful starts false r h = extended r _ refused h refl refl refl

  unless_blank :
      (b : Bool) (r : Reader x) (sent : Result DriverError (Unit {0}) × Reader x)
      → IsFaithful r
      → IsFaithful sent.1
      → IsFaithful (if b then (ok tt, r) else sent).1
  unless_blank true r sent h k = h
  unless_blank false r sent h k = k

  send_line-IsFaithful :
      (starts taken : Bool) (made : Result DriverError String) (r : Reader x)
      → IsFaithful r
      → IsFaithful (send_line x starts taken made r).1
  unfolding send_line
  send_line-IsFaithful starts taken (err e) r h = h
  send_line-IsFaithful starts taken (ok text) r h =
      unless_blank (text == "") r (transmit x starts taken r) h
        (transmit-IsFaithful starts taken r h)

  step-IsFaithful :
      (mode : Mode) (s : Step x) (r : Reader x) → IsFaithful r → IsFaithful (step x mode s r)
  unfolding step on_line send
  step-IsFaithful mode (line text) r h =
      on_events-IsFaithful (line_events x text r.assistant_text) r h
  step-IsFaithful mode (frame f taken) r h =
      send_line-IsFaithful (starts_turn x f) taken (line_of x mode f) r h

  steps-IsFaithful :
      (mode : Mode) (ss : List (Step x)) (r : Reader x)
      → IsFaithful r
      → IsFaithful (steps x mode ss r)
  unfolding steps
  steps-IsFaithful mode [] r h = h
  steps-IsFaithful mode (s ∷ ss) r h =
      steps-IsFaithful mode ss (step x mode s r) (step-IsFaithful mode s r h)

  new_reader-IsFaithful : IsFaithful (new_reader x)
  new_reader-IsFaithful = record { follows = refl; no_echo = tt }

  run-IsFaithful : (mode : Mode) (ss : List (Step x)) → IsFaithful (steps x mode ss (new_reader x))
  run-IsFaithful mode ss = steps-IsFaithful mode ss (new_reader x) new_reader-IsFaithful

  -- Whatever the agent writes and the session sends: of an assistant text that came in pieces, the whole
  -- text under a message's id is not forwarded as well, until a tool call or the end of the turn.
  pub run-HasNoEcho :
      (mode : Mode) (ss : List (Step x)) → HasNoEcho quiet (steps x mode ss (new_reader x)).log
  run-HasNoEcho mode ss = (run-IsFaithful mode ss).no_echo

  -- The text with which the result of a turn is compared is the assistant text that the consumer was
  -- sent since the end of the last turn.
  pub run-text :
      (mode : Mode) (ss : List (Step x))
      → (after quiet (steps x mode ss (new_reader x)).log).text
        ≡ (steps x mode ss (new_reader x)).assistant_text
  run-text mode ss = ap (λ v. v.text) (run-IsFaithful mode ss).follows

  eof-settles :
      (pending eof_is_success : Bool) (r : Reader x)
      → after quiet r.log ≡ view r
      → r.turn_pending ≡ pending
      → (after quiet (r.log ++ log_events x (eof_event x pending eof_is_success))).pending ≡ false
  unfolding eof_event
  eof-settles false s r h e = ap (λ v. v.pending) (after-nil quiet r.log ∙ h) ∙ e
  eof-settles true true r h e = ap (λ v. v.pending) (after-snoc quiet r.log _)
  eof-settles true false r h e = ap (λ v. v.pending) (after-snoc quiet r.log _)

  error-settles :
      (pending : Bool) (message : String) (r : Reader x)
      → after quiet r.log ≡ view r
      → r.turn_pending ≡ pending
      → (after quiet (r.log ++ log_events x (read_error x pending message))).pending ≡ false
  unfolding read_error
  error-settles false m r h e = ap (λ v. v.pending) (after-nil quiet r.log ∙ h) ∙ e
  error-settles true m r h e = ap (λ v. v.pending) (after-snoc quiet r.log _)

  -- However the frames of the session and the lines of the agent interleave, and whether the agent's
  -- output ends or cannot be read: when the reader has ended, each frame that started a turn was followed
  -- by a `Done` or an `Error` to the consumer, or by an error of a later `send`.
  pub run-settled :
      (mode : Mode) (ss : List (Step x)) (end : End x)
      → (after quiet (on_end x mode end (steps x mode ss (new_reader x))).log).pending ≡ false
  unfolding on_end
  run-settled mode ss closed =
      eof-settles _ mode.eof_is_success (steps x mode ss (new_reader x))
        (run-IsFaithful mode ss).follows refl
  run-settled mode ss (failed message) =
      error-settles _ message (steps x mode ss (new_reader x)) (run-IsFaithful mode ss).follows refl
