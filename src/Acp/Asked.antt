-- ===== src/Acp/Asked.antt =====
-- What the lines of an ACP agent ask: the requests for permission that the session is told.
use cap_protocol.Prelude.{
  ℕ, ◌+◌, ◌≤◌, String, Bool, true, false, not, ◌&&◌, Option, none, some, List, [], ◌∷◌, ◌++◌, ◌≡◌,
  refl, inl, inr, ◌==◌, arith, eq_iff, if◌then◌else◌, if_both, Bool-cases, Option-cases, subst,
  lookup, put, lookup-put,
}
use cap_protocol.Core.{Foreign, AgentEvent, PermissionScope, RiskLevel}
use cap_protocol.Json.{is_some, u64_at, value_at, text_at, unwrap_or, and_then, or_else}
use cap_protocol.Rpc.{has_id}
use cap_protocol.Acp.{
  AcpDriver, Entry, forwarded, wrote, permission_answer, refusal, forward_all, update_kind,
  turn_response, parse_notification, handle_response, request_key, ask_permission, elicit_event,
  request_method, handle_server_request, process_frame, on_line, try_send, refusal_value,
}
use cap_protocol.Acp.Driver.{remove_perm}

-- One for the same id
abbrev pub count_one : String → String → ℕ
count_one j k = if j == k then 1 else 0

module _ (x : Foreign) where
  -- The permission requests under an id that the session was told, and the answers to it that were written
  abbrev pub asked : String → List (Entry x) → ℕ
  asked k [] = 0
  asked k (forwarded (AgentEvent.permission_request req_id tool intent scope risk) ∷ es) =
      count_one req_id k + asked k es
  asked k (_ ∷ es) = asked k es

  abbrev pub answered : String → List (Entry x) → ℕ
  answered k [] = 0
  answered k (wrote (permission_answer req_id id l) ∷ es) = count_one req_id k + answered k es
  answered k (_ ∷ es) = answered k es

  pub asked-append :
      (k : String) (es fs : List (Entry x)) → asked k (es ++ fs) ≡ asked k es + asked k fs
  asked-append k [] fs = omega arith
  asked-append k (forwarded (AgentEvent.permission_request req_id tool intent scope risk) ∷ es) fs =
      omega (arith, asked-append k es fs)
  asked-append k (forwarded _ ∷ es) fs = asked-append k es fs
  asked-append k (wrote _ ∷ es) fs = asked-append k es fs

  pub answered-append :
      (k : String) (es fs : List (Entry x)) → answered k (es ++ fs) ≡ answered k es + answered k fs
  answered-append k [] fs = omega arith
  answered-append k (wrote (permission_answer req_id id l) ∷ es) fs =
      omega (arith, answered-append k es fs)
  answered-append k (wrote _ ∷ es) fs = answered-append k es fs
  answered-append k (forwarded _ ∷ es) fs = answered-append k es fs

  abbrev pub one_if : {A : Type 0} → Option A → ℕ
  one_if none = 0
  one_if (some _) = 1

  -- Each answer was asked for, and what is pending was asked for once more.
  abbrev pub waiting : String → List (String × (x.Value × x.Value)) → ℕ
  waiting k m = one_if (lookup k m)

  unfoldable pub IsAsked : String → AcpDriver x → Type 0
  IsAsked k d = answered k d.trace + waiting k d.pending_perms ≤ asked k d.trace

  lookup-remove_perm :
      (k j : String) (m : List (String × (x.Value × x.Value)))
      → lookup j (remove_perm k m) ≡ (if k == j then none else lookup j m)
  unfolding lookup remove_perm
  lookup-remove_perm k j [] = ground arith
  lookup-remove_perm k j ((i, w) ∷ m) =
      ground (arith, lookup-remove_perm k j m, eq_iff i k, eq_iff i j, eq_iff k j)

  -- Events that ask for no permission
  IsCalm : String → List (AgentEvent x) → Type 0
  IsCalm k es = (asked k (forward_all x es) ≡ 0) × (answered k (forward_all x es) ≡ 0)

  forward-IsAsked :
      (k : String) (es : List (AgentEvent x)) (d : AcpDriver x)
      → IsCalm k es
      → IsAsked k d
      → IsAsked k (record d { trace = d.trace ++ forward_all x es })
  unfolding IsAsked IsCalm
  forward-IsAsked k es d c h = omega (
    arith,
    c.0,
    c.1,
    h,
    asked-append k d.trace (forward_all x es),
    answered-append k d.trace (forward_all x es),
  )

  turn_response-IsCalm : (k : String) (frame : x.Value) → IsCalm k (turn_response x frame)
  unfolding IsCalm turn_response
  turn_response-IsCalm k frame = ground arith

  parse_notification-IsCalm :
      (k : String) (method : String) (params : x.Value)
      → IsCalm k (parse_notification x method params)
  unfolding IsCalm parse_notification update_kind
  parse_notification-IsCalm k method params = ground arith

  elicit-IsCalm :
      (k req_id : String) (params : x.Value) → IsCalm k (elicit_event x req_id params ∷ [])
  unfolding IsCalm elicit_event
  elicit-IsCalm k req_id params = (refl, refl)

  no_events-IsCalm : (k : String) → IsCalm k []
  unfolding IsCalm
  no_events-IsCalm k = (refl, refl)

  handle_response-IsAsked :
      (k : String) (response : x.Value) (d : AcpDriver x)
      → IsAsked k d
      → IsAsked k (handle_response x response d)
  unfolding IsAsked handle_response
  handle_response-IsAsked k response d h = elim (Option-cases (u64_at x "id" response)) [
    | inl e ↦
        rw (e, handle_response)
          (forward-IsAsked k (turn_response x response) d (turn_response-IsCalm k response) h)
    | inr (id, e) ↦
        rw (e, handle_response)
          (if_both (IsAsked k) (has_id id d.pending) _ _ h
            (forward-IsAsked k (turn_response x response) d (turn_response-IsCalm k response) h))
  ]

  own : (j k : String) → (j == k) ≡ true → count_one j k ≡ 1
  own j k e = rw e refl

  others : (j k : String) → (j == k) ≡ false → count_one j k ≡ 0
  others j k e = rw e refl

  waiting-put-le :
      (j k : String) (v : x.Value × x.Value) (m : List (String × (x.Value × x.Value)))
      → waiting k (put j v m) ≤ 1
  waiting-put-le j k v m = elim (Option-cases (lookup k (put j v m))) [
    | inl e ↦ rw e (omega arith)
    | inr (w, e) ↦ rw e (omega arith)
  ]

  waiting-put_other :
      (j k : String) (v : x.Value × x.Value) (m : List (String × (x.Value × x.Value)))
      → (j == k) ≡ false
      → waiting k (put j v m) ≡ waiting k m
  waiting-put_other j k v m e = rw (lookup-put j k v m) (rw e refl)

  pub waiting-remove_perm :
      (j k : String) (m : List (String × (x.Value × x.Value))) {p : x.Value × x.Value}
      → lookup j m ≡ some p
      → count_one j k + waiting k (remove_perm j m) ≤ waiting k m
  waiting-remove_perm j k m {p} e = elim (Bool-cases (j == k)) [
    | inl same ↦
        let f : lookup k m ≡ some p = subst (λ i. lookup i m ≡ some p) ((eq_iff j k).0 same) e in
        rw (lookup-remove_perm j k m) (rw (same, f) (omega arith))
    | inr other ↦ rw (lookup-remove_perm j k m) (rw other (omega arith))
  ]

  try_send-IsAsked :
      (k : String) (b : Bool) (id l : x.Value) (d : AcpDriver x)
      → IsAsked k d
      → IsAsked k (try_send x b (refusal id l) d)
  unfolding IsAsked
  try_send-IsAsked k true id l d h = omega (
    arith,
    h,
    asked-append k d.trace (wrote (refusal id l) ∷ []),
    answered-append k d.trace (wrote (refusal id l) ∷ []),
  )
  try_send-IsAsked k false id l d h = h

  ask_permission-IsAsked :
      (k req_id : String) (id params : x.Value) (d : AcpDriver x)
      → IsAsked k d
      → IsAsked k (ask_permission x req_id id params d)
  unfolding IsAsked ask_permission
  ask_permission-IsAsked k req_id id params d h =
      let tool_call = value_at x "toolCall" params in
      let tool =
        unwrap_or "tool"
          (and_then x.as_str (or_else (x.get "title" tool_call) (x.get "kind" tool_call))) in
      let e : Entry x = forwarded (
        AgentEvent.permission_request req_id tool tool_call PermissionScope.execute
          RiskLevel.medium) in
      elim (Bool-cases (req_id == k)) [
        | inl same ↦ omega (
          arith,
          h,
          asked-append k d.trace (e ∷ []),
          answered-append k d.trace (e ∷ []),
          own req_id k same,
          waiting-put-le req_id k (id, unwrap_or (x.array []) (x.get "options" params))
              d.pending_perms,
        )
        | inr other ↦ omega (
          arith,
          h,
          asked-append k d.trace (e ∷ []),
          answered-append k d.trace (e ∷ []),
          waiting-put_other req_id k (id, unwrap_or (x.array []) (x.get "options" params))
              d.pending_perms other,
          others req_id k other,
        )
      ]

  request_method-IsAsked :
      (k : String) (takes : Bool) (method req_id : String) (id params : x.Value) (d : AcpDriver x)
      → IsAsked k d
      → IsAsked k (request_method x takes method req_id id params d)
  unfolding request_method
  request_method-IsAsked k takes method req_id id params d h =
      if_both (IsAsked k) (method == "session/request_permission") _ _
        (ask_permission-IsAsked k req_id id params d h)
        (if_both (IsAsked k) (method == "session/elicit") _ _
          (forward-IsAsked k (elicit_event x req_id params ∷ []) d (elicit-IsCalm k req_id params)
            h)
          (try_send-IsAsked k (takes && d.writer_alive) id (refusal_value x method id) d h))

  handle_server_request-IsAsked :
      (k : String) (takes : Bool) (method : String) (id params : x.Value) (d : AcpDriver x)
      → IsAsked k d
      → IsAsked k (handle_server_request x takes method id params d)
  unfolding handle_server_request
  handle_server_request-IsAsked k takes method id params d h =
      elim (Option-cases (request_key x id)) [
        | inl e ↦ rw (e, handle_server_request) h
        | inr (req_id, e) ↦
            rw (e, handle_server_request)
              (request_method-IsAsked k takes method req_id id params d h)
      ]

  pub on_line-IsAsked :
      (k : String) (takes : Bool) (text : Option x.Value) (d : AcpDriver x)
      → IsAsked k d
      → IsAsked k (on_line x takes text d)
  unfolding on_line process_frame
  on_line-IsAsked k takes none d h = h
  on_line-IsAsked k takes (some v) d h =
      let method = text_at x "method" v in
      let params = value_at x "params" v in
      if_both (IsAsked k) (is_some (x.get "id" v) && not (is_some (x.get "method" v))) _ _
        (handle_response-IsAsked k v d h)
        (if_both (IsAsked k) (is_some (x.get "id" v)) _ _
          (handle_server_request-IsAsked k takes method (value_at x "id" v) params d h)
          (forward-IsAsked k (parse_notification x method params) d
            (parse_notification-IsCalm k method params) h))
