-- ===== src/Routing/Vetted.antt =====
-- What a language model's answer can make the executor do.
use cap_protocol.Prelude.{
  ℕ, suc, String, Bool, true, false, not, ◌≡◌, ◌⊎◌, inl, inr, ◌≤◌, Option, none, some, List, [],
  ◌∷◌, take, length, length-take, All, contains, refl, arith, Result, ok, err, if◌then◌else◌, ◌==◌,
}
use cap_protocol.Core.{Foreign}
use cap_protocol.Json.{str_at, array_at}
use cap_protocol.Config.{SessionId, DriverKind, PermissionPolicy}
use cap_protocol.Config.Names.{valid_session_id}
use cap_protocol.Config.Drivers.{DriverError, parse_driver_kind, parse_kind}
use cap_protocol.Config.Drivers.Hosts.{Url}
use cap_protocol.Config.Drivers.Laws.{IsSafe, parse_driver_kind-IsSafe}
use cap_protocol.Routing.{RouteDecision}
use cap_protocol.Routing.Llm.{
  is_local, dynamic_permissions, dynamic_action, target_action, route_action, typed_action,
  add_action, read_actions, read_field, read_json, read_text, parse_llm_response, extract_json,
}

-- The driver takes no command: it is neither `pty` nor `acp`.
abbrev pub TakesNoCommand : DriverKind → Type 0
TakesNoCommand (DriverKind.pty cmd) = ⊥
TakesNoCommand (DriverKind.acp cmd) = ⊥
TakesNoCommand _ = Unit

is_local-TakesNoCommand : (kind : DriverKind) → is_local kind ≡ false → TakesNoCommand kind
is_local-TakesNoCommand (DriverKind.pty cmd) e = absurd (ground arith)
is_local-TakesNoCommand (DriverKind.acp cmd) e = absurd (ground arith)
is_local-TakesNoCommand _ e = tt

module _ (parse_url : String → Option Url) (sessions : List SessionId) (task : String)
    (default_permissions : PermissionPolicy) where
  -- A dynamic session gets the fleet's permissions, or `allow` under the name of a known session.
  abbrev pub IsPermitted : SessionId → PermissionPolicy → Type 0
  IsPermitted target policy =
      (policy ≡ default_permissions)
      ⊎ ((contains sessions target ≡ true) × (policy ≡ PermissionPolicy.allow))

  abbrev pub IsVetted : RouteDecision → Type 0
  IsVetted (RouteDecision.route target payload) = contains sessions target ≡ true
  IsVetted (RouteDecision.dynamic_route target payload kind policy) =
      (valid_session_id target ≡ true)
      × TakesNoCommand kind
      × IsSafe parse_url kind
      × IsPermitted target policy
  IsVetted (RouteDecision.fan_out pairs) = ⊥
  IsVetted _ = Unit

  parse_kind-IsSafe :
      (ds : String) (result : Result DriverError DriverKind)
      → parse_driver_kind parse_url ds ≡ result
      → (kind : DriverKind) → parse_kind parse_url ds ≡ some kind
      → IsSafe parse_url kind
  unfolding parse_kind
  parse_kind-IsSafe ds (ok k) e kind h = parse_driver_kind-IsSafe parse_url ds kind (ground arith)
  parse_kind-IsSafe ds (err d) e kind h = absurd (ground arith)

  dynamic_permissions-IsPermitted :
      (target : SessionId) (known : Bool)
      → contains sessions target ≡ known
      → IsPermitted target (dynamic_permissions sessions default_permissions target)
  unfolding dynamic_permissions
  dynamic_permissions-IsPermitted target true e = inr (e, rw e)
  dynamic_permissions-IsPermitted target false e = inl (rw e)

  if-IsVetted :
      (b : Bool) (d f : RouteDecision)
      → (b ≡ true → IsVetted d)
      → (b ≡ false → IsVetted f)
      → IsVetted (if b then d else f)
  if-IsVetted true d f h k = h refl
  if-IsVetted false d f h k = k refl

  dynamic_action-IsVetted :
      (target : SessionId) (context ds : String) (kind : Option DriverKind)
      → valid_session_id target ≡ true
      → parse_kind parse_url ds ≡ kind
      → IsVetted (dynamic_action sessions default_permissions target context ds kind)
  unfolding dynamic_action
  dynamic_action-IsVetted target context ds none v e = tt
  dynamic_action-IsVetted target context ds (some kind) v e =
      if-IsVetted (is_local kind) _ _ (λ h. tt)
        (λ h. (
          v,
          is_local-TakesNoCommand kind h,
          parse_kind-IsSafe ds (parse_driver_kind parse_url ds) refl kind e,
          dynamic_permissions-IsPermitted target (contains sessions target) refl,
        ))

  target_action-IsVetted :
      (target : SessionId) (context : String) (driver : Option String)
      → IsVetted (target_action sessions default_permissions parse_url target context driver)
  unfolding target_action
  target_action-IsVetted target context none =
      if-IsVetted (contains sessions target) _ _ (λ h. h) (λ h. tt)
  target_action-IsVetted target context (some ds) =
      if-IsVetted (not (valid_session_id target)) _ _ (λ h. tt)
        (λ h.
          dynamic_action-IsVetted target context ds (parse_kind parse_url ds) (ground arith) refl)

  module _ (x : Foreign) where
    route_action-IsVetted :
        (action : x.Value) (target : Option String)
        → IsVetted (route_action x parse_url sessions task default_permissions action target)
    unfolding route_action
    route_action-IsVetted action none = tt
    route_action-IsVetted action (some target) = target_action-IsVetted target _ _

    typed_action-IsVetted :
        (action : x.Value) (typ : String)
        → IsVetted (typed_action x parse_url sessions task default_permissions action typ)
    unfolding typed_action
    typed_action-IsVetted action typ =
        if-IsVetted (typ == "route") _ _ (λ h. route_action-IsVetted action _)
          (λ h.
            if-IsVetted (typ == "collect") _ _ (λ k. tt)
              (λ k. if-IsVetted (typ == "complete") _ _ (λ l. tt) (λ l. tt)))

    add_action-IsVetted :
        (action : x.Value) (typ : Option String) (rest : List RouteDecision)
        → All IsVetted rest
        → All IsVetted (add_action x parse_url sessions task default_permissions action typ rest)
    unfolding add_action
    add_action-IsVetted action none rest h = h
    add_action-IsVetted action (some typ) rest h = (typed_action-IsVetted action typ, h)

    read_actions-IsVetted :
        (actions : List x.Value)
        → All IsVetted (read_actions x parse_url sessions task default_permissions actions)
    unfolding read_actions
    read_actions-IsVetted [] = tt
    read_actions-IsVetted (a ∷ actions) = add_action-IsVetted a _ _ (read_actions-IsVetted actions)

    add_action-length :
        (action : x.Value) (typ : Option String) (rest : List RouteDecision)
        → length (add_action x parse_url sessions task default_permissions action typ rest)
          ≤ suc (length rest)
    unfolding add_action
    add_action-length action none rest = omega arith
    add_action-length action (some typ) rest = omega arith

    read_actions-length :
        (actions : List x.Value)
        → length (read_actions x parse_url sessions task default_permissions actions)
          ≤ length actions
    unfolding read_actions
    read_actions-length [] = omega arith
    read_actions-length (a ∷ actions) = omega (
      arith,
      add_action-length a (str_at x "type" a)
          (read_actions x parse_url sessions task default_permissions actions),
      read_actions-length actions,
    )

    -- At most `max` decisions, or a single one that starts nothing.
    abbrev pub IsBounded : ℕ → List RouteDecision → Type 0
    IsBounded max ds = All IsVetted ds × ((length ds ≤ max) ⊎ (length ds ≡ 1))

    read_field-IsBounded :
        (max : ℕ) (actions : Option (List x.Value))
        → IsBounded max (read_field x parse_url sessions task default_permissions max actions)
    unfolding read_field
    read_field-IsBounded max none = ((tt, tt), inr refl)
    read_field-IsBounded max (some []) = ((tt, tt), inr refl)
    read_field-IsBounded max (some (a ∷ actions)) = (
      read_actions-IsVetted (take max (a ∷ actions)),
      inl (
          omega
            (arith, read_actions-length (take max (a ∷ actions)), length-take max (a ∷ actions))),
    )

    read_json-IsBounded :
        (max : ℕ) (json : Option x.Value)
        → IsBounded max (read_json x parse_url sessions task default_permissions max json)
    unfolding read_json
    read_json-IsBounded max none = ((tt, tt), inr refl)
    read_json-IsBounded max (some json) = read_field-IsBounded max (array_at x "actions" json)

    read_text-IsBounded :
        (max : ℕ) (text : Option String)
        → IsBounded max (read_text x parse_url sessions task default_permissions max text)
    unfolding read_text
    read_text-IsBounded max none = ((tt, tt), inr refl)
    read_text-IsBounded max (some text) = read_json-IsBounded max (x.from_str text)

    -- Whatever the model answers, it makes at most `max_decisions` decisions, or a single one. It
    -- routes to known sessions only, fans nothing out, and a session that it starts has a valid name,
    -- a driver that is neither `pty` nor `acp`, so that it takes no command of the model, and that has,
    -- if it is `grpc` or `a2a`, a host that `is_private_host` does not call private, and the fleet's
    -- permissions, or `allow` where its name is that of a known session.
    pub parse_llm_response-IsBounded :
        (max : ℕ) (response : String)
        → IsBounded max
            (parse_llm_response x parse_url sessions task default_permissions max response)
    unfolding parse_llm_response
    parse_llm_response-IsBounded max response = read_text-IsBounded max (extract_json response)
