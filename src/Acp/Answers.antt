-- ===== src/Acp/Answers.antt =====
-- The permission requests of an ACP agent and their answers.
use cap_protocol.Prelude.{
  ℕ, ◌+◌, ◌≤◌, String, Bool, true, false, Option, none, some, List, [], ◌∷◌, ◌≡◌, refl, sym, inl,
  inr, arith, Option-cases, subst, lookup,
}
use cap_protocol.Core.{Foreign, ClientFrame, PermissionDecision}
use cap_protocol.Rpc.{fetch_add}
use cap_protocol.Acp.{AcpDriver, wrote, Line, permission_answer, on_line}
use cap_protocol.Acp.Driver.{
  remove_perm, transmit, answer_permission, send_frame, send_to, send_if, send, answer_value,
  shutdown,
}
use cap_protocol.Acp.Asked.{
  asked, answered, waiting, IsAsked, asked-append, answered-append, waiting-remove_perm,
  on_line-IsAsked,
}

-- A line of the agent, with whether the channel takes a refusal; the end of its output; a frame of the
-- session, with whether the writer takes it; the shutdown, with what the wait for the child returns
pub data Step (x : Foreign) : Type 0 where
  agent_line : String → Bool → Step x
  agent_ended : Step x
  session_frame : ClientFrame x → Bool → Step x
  shut : Option (Option ℕ) → Step x

module _ (x : Foreign) (to_lowercase : String → String) where
  unfoldable pub step : Step x → AcpDriver x → AcpDriver x
  unfolding on_line send shutdown
  step (agent_line text takes) d = on_line x takes (x.from_str text) d
  step agent_ended d = record d { exited = true }
  step (session_frame f takes) d = (send x to_lowercase f takes d).1
  step (shut waited) d = shutdown x to_lowercase waited d

  unfoldable pub steps : List (Step x) → AcpDriver x → AcpDriver x
  unfolding step
  steps [] d = d
  steps (s ∷ ss) d = steps ss (step s d)

  -- A line that answers nothing, or cannot be written
  transmit-IsAsked :
      (k : String) (alive takes : Bool) (l : Line x) (d : AcpDriver x)
      → answered x k (wrote l ∷ []) ≡ 0
      → IsAsked x k d
      → IsAsked x k (transmit x to_lowercase alive l takes d).1
  unfolding IsAsked transmit
  transmit-IsAsked k true true l d e h = omega (
    arith,
    h,
    e,
    asked-append x k d.trace (wrote l ∷ []),
    answered-append x k d.trace (wrote l ∷ []),
  )
  transmit-IsAsked k true false l d e h = h
  transmit-IsAsked k false takes l d e h = h

  -- The answer to a request that is taken out of the pending ones
  answer-IsAsked :
      (k req_id : String) (alive takes : Bool) (p : x.Value × x.Value) (l : x.Value)
      (d : AcpDriver x)
      → lookup req_id d.pending_perms ≡ some p
      → IsAsked x k d
      → IsAsked x k
          (transmit x to_lowercase alive
            (permission_answer req_id p.0 l)
            takes
            (record d { pending_perms = remove_perm req_id d.pending_perms })).1
  unfolding IsAsked transmit
  answer-IsAsked k req_id true true p l d e h = omega (
    arith,
    h,
    waiting-remove_perm x req_id k d.pending_perms e,
    asked-append x k d.trace (wrote (permission_answer req_id p.0 l) ∷ []),
    answered-append x k d.trace (wrote (permission_answer req_id p.0 l) ∷ []),
  )
  answer-IsAsked k req_id true false p l d e h =
      omega (arith, h, waiting-remove_perm x req_id k d.pending_perms e)
  answer-IsAsked k req_id false takes p l d e h =
      omega (arith, h, waiting-remove_perm x req_id k d.pending_perms e)

  answer_permission-IsAsked :
      (k req_id : String) (decision : PermissionDecision) (takes : Bool) (d : AcpDriver x)
      → IsAsked x k d
      → IsAsked x k
          (answer_permission x to_lowercase req_id decision
            (lookup req_id d.pending_perms)
            takes
            d).1
  unfolding answer_permission
  answer_permission-IsAsked k req_id decision takes d h =
      elim (Option-cases (lookup req_id d.pending_perms)) [
        | inl e ↦
            subst (λ o. IsAsked x k (answer_permission x to_lowercase req_id decision o takes d).1)
              (sym e) h
        | inr (p, e) ↦
            subst (λ o. IsAsked x k (answer_permission x to_lowercase req_id decision o takes d).1)
              (sym e)
              (answer-IsAsked k req_id d.writer_alive takes p
                (answer_value x to_lowercase p.0 p.1 decision) d e h)
      ]

  send_frame-IsAsked :
      (k sid : String) (f : ClientFrame x) (takes : Bool) (d : AcpDriver x)
      → IsAsked x k d
      → IsAsked x k (send_frame x to_lowercase sid f takes d).1
  unfolding IsAsked send_frame
  send_frame-IsAsked k sid (ClientFrame.session_config config) takes d h = h
  send_frame-IsAsked k sid (ClientFrame.prompt content) takes d h =
      transmit-IsAsked k d.writer_alive takes _ (record d { next_id = fetch_add d.next_id }) refl h
  send_frame-IsAsked k sid (ClientFrame.cancel scope reason) takes d h =
      transmit-IsAsked k d.writer_alive takes _ d refl h
  send_frame-IsAsked k sid (ClientFrame.permission_response req_id decision) takes d h =
      answer_permission-IsAsked k req_id decision takes d h
  send_frame-IsAsked k sid (ClientFrame.ask_user_answer ask_id value) takes d h = h
  send_frame-IsAsked k sid (ClientFrame.reverse_rpc_result rpc_id result) takes d h = h

  send_to-IsAsked :
      (sid : Option String) (k : String) (f : ClientFrame x) (takes : Bool) (d : AcpDriver x)
      → IsAsked x k d
      → IsAsked x k (send_to x to_lowercase sid f takes d).1
  unfolding send_to
  send_to-IsAsked none k f takes d h = h
  send_to-IsAsked (some sid) k f takes d h = send_frame-IsAsked k sid f takes d h

  send_if-IsAsked :
      (b : Bool) (k : String) (f : ClientFrame x) (takes : Bool) (d : AcpDriver x)
      → IsAsked x k d
      → IsAsked x k (send_if x to_lowercase b f takes d).1
  unfolding send_if
  send_if-IsAsked true k f takes d h = send_to-IsAsked d.session_id k f takes d h
  send_if-IsAsked false k f takes d h = h

  send-IsAsked :
      (k : String) (f : ClientFrame x) (takes : Bool) (d : AcpDriver x)
      → IsAsked x k d
      → IsAsked x k (send x to_lowercase f takes d).1
  unfolding send
  send-IsAsked k f takes d h = send_if-IsAsked d.writer_open k f takes d h

  step-IsAsked :
      (k : String) (s : Step x) (d : AcpDriver x) → IsAsked x k d → IsAsked x k (step s d)
  unfolding step IsAsked shutdown
  step-IsAsked k (agent_line text takes) d h = on_line-IsAsked x k takes (x.from_str text) d h
  step-IsAsked k agent_ended d h = h
  step-IsAsked k (session_frame f takes) d h = send-IsAsked k f takes d h
  step-IsAsked k (shut waited) d h = h

  steps-IsAsked :
      (k : String) (ss : List (Step x)) (d : AcpDriver x) → IsAsked x k d → IsAsked x k (steps ss d)
  unfolding steps
  steps-IsAsked k [] d h = h
  steps-IsAsked k (s ∷ ss) d h = steps-IsAsked k ss (step s d) (step-IsAsked k s d h)

  -- However the lines of the agent and their end, the frames of the session and shutdowns interleave, from a
  -- driver that has written and told nothing: under each id the agent is sent at most as many answers as the session was told requests for
  -- permission, and while one is pending, fewer.
  pub answered-le-asked :
      (k : String) (ss : List (Step x)) (d : AcpDriver x)
      → d.trace ≡ []
      → d.pending_perms ≡ []
      → answered x k (steps ss d).trace + waiting x k (steps ss d).pending_perms
        ≤ asked x k (steps ss d).trace
  unfolding IsAsked lookup
  answered-le-asked k ss d e f = steps-IsAsked k ss d (rw (e, f) (omega arith))
