-- ===== src/Session/Outcome.antt =====
-- How a session that ends reports it.
use cap_protocol.Prelude.{
  String, Bool, true, false, Option, none, some, List, [], ◌∷◌, ◌++◌, ◌≡◌, ◌⊎◌, inr, refl, All,
  if◌then◌else◌,
}
use cap_protocol.Core.{Foreign, ClientFrame, PermissionDecision, RiskLevel}
use cap_protocol.Event.{OrchestratorEvent}
use cap_protocol.Session.{
  Phase, Options, Actor, wait_in, bus_send, fail, sent_then, give, config_frame, configured,
  first_frame, on_frame, settle_request,
}

-- `SessionDone` or `SessionFailed`
abbrev pub IsOutcome : {x : Foreign} → OrchestratorEvent x → Type 0
IsOutcome (OrchestratorEvent.session_done _ _) = Unit
IsOutcome (OrchestratorEvent.session_failed _ _) = Unit
IsOutcome _ = ⊥

abbrev pub IsNews : {x : Foreign} → OrchestratorEvent x → Type 0
IsNews (OrchestratorEvent.session_done _ _) = ⊥
IsNews (OrchestratorEvent.session_failed _ _) = ⊥
IsNews _ = Unit

module _ {x : Foreign} where
  -- One outcome, and it comes last.
  pub record HasOutcome (es : List (OrchestratorEvent x)) : Type 0 where
    pub news : List (OrchestratorEvent x)
    pub outcome : OrchestratorEvent x
    pub events : es ≡ news ++ outcome ∷ []
    pub is_news : All IsNews news
    pub is_outcome : IsOutcome outcome

  -- No outcome before the end. A stopped actor has shut its driver down and offered no outcome, or
  -- it has not, and one outcome is the last event that it offered.
  abbrev pub IsSettled : Phase x → Actor x → Type 0
  IsSettled Phase.stopped a =
      ((a.shut ≡ true) × All IsNews a.offered) ⊎ ((a.shut ≡ false) × HasOutcome a.offered)
  IsSettled _ a = (a.shut ≡ false) × All IsNews a.offered

  -- Alive, with no outcome offered.
  abbrev pub IsOpen : Actor x → Type 0
  IsOpen a = (a.shut ≡ false) × All IsNews a.offered

  pub All-IsNews :
      (es : List (OrchestratorEvent x)) (e : OrchestratorEvent x)
      → All IsNews es
      → IsNews e
      → All IsNews (es ++ e ∷ [])
  All-IsNews [] e h k = (k, tt)
  All-IsNews (d ∷ es) e h k = (h.0, All-IsNews es e h.1 k)

  module _ (o : Options x) where
    pub bus_send-IsOpen :
        (e : OrchestratorEvent x) (a : Actor x) → IsNews e → IsOpen a → IsOpen (bus_send o e a)
    unfolding bus_send
    bus_send-IsOpen e a k h = (h.0, All-IsNews a.offered e h.1 k)

    -- A phase of an actor that has not stopped.
    abbrev pub IsLive : Phase x → Type 0
    IsLive Phase.stopped = ⊥
    IsLive _ = Unit

    pub live-IsSettled :
        (phase : Phase x) (a : Actor x) → IsLive phase → IsOpen a → IsSettled phase a
    live-IsSettled Phase.stopped a l h = absurd l
    live-IsSettled _ a l h = h

    pub fail-IsSettled :
        (error : String) (a : Actor x)
        → IsOpen a
        → IsSettled (fail o error a).phase (fail o error a)
    unfolding fail bus_send
    fail-IsSettled error a h = inr (
      h.0,
      record { news = a.offered; outcome = _; events = refl; is_news = h.1; is_outcome = tt },
    )

    sent_then-IsSettled :
        (result : Option String) (next : Phase x) (a : Actor x)
        → IsLive next
        → IsOpen a
        → IsSettled (sent_then o result next a).phase (sent_then o result next a)
    unfolding sent_then
    sent_then-IsSettled none next a l h = live-IsSettled next (wait_in next a) l h
    sent_then-IsSettled (some error) next a l h = fail-IsSettled error a h

    pub give-IsSettled :
        (next : Phase x) (frame : ClientFrame x) (a : Actor x)
        → IsLive next
        → IsOpen a
        → IsSettled (give o next frame a).phase (give o next frame a)
    unfolding give
    give-IsSettled next frame a l h =
        sent_then-IsSettled (o.refuses a.sent frame) next (record a { sent = a.sent ++ frame ∷ [] })
          l h

    configured-IsSettled :
        (result : Option String) (first : ClientFrame x) (a : Actor x)
        → IsOpen a
        → IsSettled (configured o result first a).phase (configured o result first a)
    unfolding configured
    configured-IsSettled (some error) first a h = fail-IsSettled error a h
    configured-IsSettled none first a h =
        elim (o.prompt_after_ready)
          as (λ b.
            let t = if b then wait_in (Phase.booting first) a else give o Phase.pumping first a in
            IsSettled t.phase t) [ true ↦ h | false ↦ give-IsSettled Phase.pumping first a tt h ]

    pub first_frame-IsSettled :
        (first : ClientFrame x) (a : Actor x)
        → IsOpen a
        → IsSettled (first_frame o first a).phase (first_frame o first a)
    unfolding first_frame
    first_frame-IsSettled first a h =
        configured-IsSettled (o.refuses a.sent (config_frame o)) first
          (record a { sent = a.sent ++ config_frame o ∷ [] }) h

    pub on_frame-IsSettled :
        (f : ClientFrame x) (a : Actor x)
        → IsOpen a
        → IsSettled a.phase a
        → IsSettled (on_frame o f a).phase (on_frame o f a)
    unfolding on_frame
    on_frame-IsSettled (ClientFrame.session_config _) a h k = k
    on_frame-IsSettled f a h k = give-IsSettled Phase.pumping f a tt h

    pub settle_request-IsSettled :
        (answer : Option PermissionDecision) (req_id tool : String) (risk : RiskLevel) (a : Actor x)
        → IsOpen a
        → IsSettled
            (settle_request o answer req_id tool risk a).phase
            (settle_request o answer req_id tool risk a)
    unfolding settle_request
    settle_request-IsSettled (some d) req_id tool risk a h =
        give-IsSettled Phase.pumping (ClientFrame.permission_response req_id d) a tt h
    settle_request-IsSettled none req_id tool risk a h =
        bus_send-IsOpen (OrchestratorEvent.ask o.id req_id tool risk) a tt h

    pub bus_send-IsSettled :
        (e : OrchestratorEvent x) (a : Actor x)
        → IsNews e
        → IsLive a.phase
        → IsOpen a
        → IsSettled a.phase (bus_send o e a)
    bus_send-IsSettled e a k l h =
        live-IsSettled a.phase (bus_send o e a) l (bus_send-IsOpen e a k h)

    pub done-IsSettled :
        (keep_alive : Bool) (e : OrchestratorEvent x) (a : Actor x)
        → keep_alive ≡ false
        → IsOutcome e
        → IsOpen a
        → let phase : Phase x = if keep_alive then Phase.idle else Phase.stopped in
          IsSettled phase (wait_in phase (bus_send o e a))
    unfolding bus_send
    done-IsSettled true e a k l h = absurd (cc)
    done-IsSettled false e a k l h = inr (
      h.0,
      record { news = a.offered; outcome = e; events = refl; is_news = h.1; is_outcome = l },
    )
