-- ===== src/Session/Grants.antt =====
-- What a session's policy allows by itself.
use cap_protocol.Prelude.{String, some, List, ◌≡◌, ◌≢◌, ◌⊎◌, inl, inr, refl, All, All-imp, Some}
use cap_protocol.Core.{Foreign, ClientFrame, PermissionDecision, RiskLevel}
use cap_protocol.Config.{PermissionPolicy}
use cap_protocol.Session.{Signal, Options, run, decide}
use cap_protocol.Session.Permissions.{Asks, Grants, Member-Some, IsDecided, IsLicensed}
use cap_protocol.Session.Provenance.{run-IsLicensed}

-- The policy allows by itself: every request, or those of a lower risk than high.
abbrev Allows : PermissionPolicy → RiskLevel → Type 0
Allows policy risk =
    (policy ≡ PermissionPolicy.bypass)
    ⊎ ((policy ≡ PermissionPolicy.allow) × (risk ≢ RiskLevel.high))

decide-Allows :
    (policy : PermissionPolicy) (risk : RiskLevel) (d : PermissionDecision)
    → decide policy risk ≡ some d
    → (d ≡ PermissionDecision.deny) ⊎ Allows policy risk
unfolding decide
decide-Allows PermissionPolicy.bypass risk d h = inr (inl refl)
decide-Allows PermissionPolicy.allow RiskLevel.low d h = inr (inr (refl, λ e. cc))
decide-Allows PermissionPolicy.allow RiskLevel.medium d h = inr (inr (refl, λ e. cc))
decide-Allows PermissionPolicy.allow RiskLevel.high d h = absurd cc
decide-Allows PermissionPolicy.deny risk d h = inl cc
decide-Allows PermissionPolicy.ask risk d h = absurd cc

module _ {x : Foreign} (o : Options x) (signals : List (Signal x)) where
  abbrev pub IsGranted : ClientFrame x → Type 0
  IsGranted (ClientFrame.permission_response req_id d) =
      (d ≡ PermissionDecision.deny)
      ⊎ Some (Grants d) signals
      ⊎ ((risk : RiskLevel) × Some (Asks req_id risk) signals × Allows o.policy risk)
  IsGranted _ = Unit

  IsDecided-IsGranted :
      (req_id : String) (d : PermissionDecision)
      → IsDecided o signals req_id d
      → IsGranted (ClientFrame.permission_response req_id d)
  IsDecided-IsGranted req_id d h = elim (h.2) [
    | inl e ↦ elim (decide-Allows o.policy h.0 d e) [
      | inl n ↦ inl n
      | inr a ↦ inr (inr (h.0, h.1, a))
    ]
    | inr w ↦ elim (w.1) [ inl n ↦ inl n | inr g ↦ inr (inl g) ]
  ]

  IsLicensed-IsGranted : (f : ClientFrame x) → IsLicensed o signals f → IsGranted f
  IsLicensed-IsGranted (ClientFrame.permission_response req_id d) (inl m) =
      inr (inl (Member-Some (Grants d) _ signals refl m))
  IsLicensed-IsGranted (ClientFrame.permission_response req_id d) (inr h) =
      IsDecided-IsGranted req_id d h
  IsLicensed-IsGranted _ h = tt

  -- Every permission that the driver of a session was given denies, or one of the consumer's frames
  -- carries the same decision, or the driver asked for it under that `req_id` and the policy is
  -- `bypass`, or it is `allow` and the risk of the request is not high.
  pub run-IsGranted : All IsGranted (run o signals).sent
  run-IsGranted =
      All-imp (IsLicensed o signals) IsGranted (run o signals).sent IsLicensed-IsGranted
        (run-IsLicensed o signals)
