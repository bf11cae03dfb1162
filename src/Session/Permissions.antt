-- ===== src/Session/Permissions.antt =====
-- Where the permissions that a driver is given come from.
use cap_protocol.Prelude.{
  String, Bool, true, false, Option, none, some, List, [], ◌∷◌, ◌++◌, ◌≡◌, ◌⊎◌, inl, inr, refl,
  subst, All, Member, Some, if◌then◌else◌,
}
use cap_protocol.Core.{Foreign, ClientFrame, AgentEvent, PermissionDecision, RiskLevel}
use cap_protocol.Session.{
  Signal, Phase, Options, Actor, wait_in, bus_send, fail, sent_then, give, config_frame, configured,
  first_frame, on_frame, settle_request, on_event, decide, permission_of,
}

-- A request of the driver for `req_id`, with its risk.
abbrev pub Asks : {x : Foreign} → String → RiskLevel → Signal x → Type 0
Asks req_id risk (Signal.event (AgentEvent.permission_request r _ _ _ k)) =
    (r ≡ req_id) × (k ≡ risk)
Asks _ _ _ = ⊥

-- A frame from the consumer that carries the decision.
abbrev pub Grants : {x : Foreign} → PermissionDecision → Signal x → Type 0
Grants d (Signal.received (ClientFrame.permission_response _ e)) = e ≡ d
Grants _ _ = ⊥

pub Member-Some :
    {A : Type 0} (P : A → Type 0) (a : A) (bs : List A) → P a → Member a bs → Some P bs
Member-Some P a (b ∷ bs) h (inl e) = inl (subst P e h)
Member-Some P a (b ∷ bs) h (inr m) = inr (Member-Some P a bs h m)
Member-Some P a [] h m = absurd m

module _ {x : Foreign} (o : Options x) (signals : List (Signal x)) where
  -- The decision on a request is the policy's, or, where the policy has none, it is to deny or it
  -- came from the consumer.
  abbrev pub IsDecided : String → PermissionDecision → Type 0
  IsDecided req_id d =
      (risk : RiskLevel) × Some (Asks req_id risk) signals
      × ((decide o.policy risk ≡ some d)
          ⊎ ((decide o.policy risk ≡ none)
              × ((d ≡ PermissionDecision.deny) ⊎ Some (Grants d) signals)))

  -- A permission is sent as the consumer sent it, or as the decision on a request of the driver.
  abbrev pub IsLicensed : ClientFrame x → Type 0
  IsLicensed (ClientFrame.permission_response req_id d) =
      Member (Signal.received (ClientFrame.permission_response req_id d)) signals
      ⊎ IsDecided req_id d
  IsLicensed _ = Unit

  abbrev pub Waits : Phase x → Type 0
  Waits (Phase.booting first) = Member (Signal.received first) signals
  Waits (Phase.permission req_id) =
      (risk : RiskLevel) × Some (Asks req_id risk) signals × (decide o.policy risk ≡ none)
  Waits _ = Unit

  abbrev pub IsLawful : Actor x → Type 0
  IsLawful a = All IsLicensed a.sent × Waits a.phase

  pub All-sent :
      (fs : List (ClientFrame x)) (f : ClientFrame x)
      → All IsLicensed fs
      → IsLicensed f
      → All IsLicensed (fs ++ f ∷ [])
  All-sent [] f h k = (k, tt)
  All-sent (g ∷ fs) f h k = (h.0, All-sent fs f h.1 k)

  pub received-IsLicensed : (f : ClientFrame x) → Member (Signal.received f) signals → IsLicensed f
  received-IsLicensed (ClientFrame.permission_response req_id d) m = inl m
  received-IsLicensed _ m = tt

  pub permission_of_lem :
      (f : ClientFrame x)
      → Member (Signal.received f) signals
      → (permission_of f ≡ PermissionDecision.deny) ⊎ Some (Grants (permission_of f)) signals
  permission_of_lem (ClientFrame.permission_response req_id d) m =
      inr (Member-Some (Grants d) _ signals refl m)
  permission_of_lem _ m = inl refl

  sent_then-IsLawful :
      (result : Option String) (next : Phase x) (a : Actor x)
      → All IsLicensed a.sent
      → Waits next
      → IsLawful (sent_then o result next a)
  unfolding sent_then fail bus_send
  sent_then-IsLawful none next a h k = (h, k)
  sent_then-IsLawful (some error) next a h k = (h, tt)

  pub give-IsLawful :
      (next : Phase x) (f : ClientFrame x) (a : Actor x)
      → All IsLicensed a.sent
      → IsLicensed f
      → Waits next
      → IsLawful (give o next f a)
  unfolding give
  give-IsLawful next f a h l k =
      sent_then-IsLawful (o.refuses a.sent f) next (record a { sent = a.sent ++ f ∷ [] })
        (All-sent a.sent f h l) k

  configured-IsLawful :
      (result : Option String) (first : ClientFrame x) (a : Actor x)
      → All IsLicensed a.sent
      → Member (Signal.received first) signals
      → IsLawful (configured o result first a)
  unfolding configured fail bus_send
  configured-IsLawful (some error) first a h m = (h, tt)
  configured-IsLawful none first a h m =
      elim (o.prompt_after_ready)
        as (λ b.
          IsLawful (if b then wait_in (Phase.booting first) a else give o Phase.pumping first a)) [
            | true ↦ (h, m)
            | false ↦ give-IsLawful Phase.pumping first a h (received-IsLicensed first m) tt
          ]

  pub first_frame-IsLawful :
      (first : ClientFrame x) (a : Actor x)
      → All IsLicensed a.sent
      → Member (Signal.received first) signals
      → IsLawful (first_frame o first a)
  unfolding first_frame config_frame
  first_frame-IsLawful first a h m =
      configured-IsLawful _ first (record a { sent = a.sent ++ config_frame o ∷ [] })
        (All-sent a.sent (config_frame o) h tt) m

  pub on_frame-IsLawful :
      (f : ClientFrame x) (a : Actor x)
      → IsLawful a
      → Member (Signal.received f) signals
      → IsLawful (on_frame o f a)
  unfolding on_frame
  on_frame-IsLawful (ClientFrame.session_config c) a h m = h
  on_frame-IsLawful f a h m = give-IsLawful Phase.pumping f a h.0 (received-IsLicensed f m) tt

  settle_request-IsLawful :
      (answer : Option PermissionDecision) (req_id tool : String) (risk : RiskLevel) (a : Actor x)
      → decide o.policy risk ≡ answer
      → Some (Asks req_id risk) signals
      → All IsLicensed a.sent
      → IsLawful (settle_request o answer req_id tool risk a)
  unfolding settle_request bus_send
  settle_request-IsLawful (some d) req_id tool risk a e m h =
      give-IsLawful Phase.pumping (ClientFrame.permission_response req_id d) a h
        (inr (risk, m, inl e)) tt
  settle_request-IsLawful none req_id tool risk a e m h = (h, (risk, m, e))

  idle_or_stopped : (keep_alive : Bool) → Waits (if keep_alive then Phase.idle else Phase.stopped)
  idle_or_stopped true = tt
  idle_or_stopped false = tt

  pub on_event-IsLawful :
      (e : AgentEvent x) (a : Actor x)
      → IsLawful a
      → Member (Signal.event e) signals
      → IsLawful (on_event o e a)
  unfolding on_event bus_send
  on_event-IsLawful (AgentEvent.done stop usage) a h m = (h.0, idle_or_stopped o.keep_alive)
  on_event-IsLawful (AgentEvent.permission_request req_id tool intent scope risk) a h m =
      settle_request-IsLawful (decide o.policy risk) req_id tool risk _ refl
        (Member-Some (Asks req_id risk) _ signals (refl, refl) m) h.0
  on_event-IsLawful (AgentEvent.reverse_rpc rpc_id call) a h m = (h.0, tt)
  on_event-IsLawful (AgentEvent.ask_user i p k os t) a h m = (h.0, tt)
  on_event-IsLawful other a h m = h
