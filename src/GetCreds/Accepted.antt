-- ===== src/GetCreds/Accepted.antt =====
-- The requests of the command against the control API.
use oes_birger.Prelude.{
  String, ◌==◌, ◌≡◌, refl, subst, Bool, true, false, ◌⊎◌, none, some, arith, Result, ok, >>=-eq-ok,
  Bool-cases, inl, inr,
}
use oes_birger.Text.{is_empty_text}
use oes_birger.Fwdapi.{
  invalid_type, name_present, type_valid, validate_service_credential_request,
  validate_kube_config_request, validate_manifest_request, validate_control_credentials_request,
}
use oes_birger.Cnc.Paths.{
  Handler, Route, kubectl_components, agent_manifest, service_credentials, control_credentials,
  statistics, control_route,
}
use oes_birger.GetCreds.{
  Flags, Body, kube_config, manifest, service_credential, control_credential, no_body,
  ControlRequest, Error, insist, demand, get_kubeconfig_creds, get_agent_manifest, get_service,
  get_control, get_statistics_request, request_of,
}

-- The body is the one that the handler reads, and it passes its validation, but for the type of a
-- service, which the command does not look into.
abbrev pub IsAccepted : Handler → Body → Type 0
IsAccepted kubectl_components (kube_config r) = validate_kube_config_request r ≡ none
IsAccepted agent_manifest (manifest r) = validate_manifest_request r ≡ none
IsAccepted service_credentials (service_credential r) =
    (validate_service_credential_request r ≡ none)
    ⊎ (validate_service_credential_request r ≡ some invalid_type)
IsAccepted control_credentials (control_credential r) =
    validate_control_credentials_request r ≡ none
IsAccepted statistics no_body = Unit
IsAccepted _ _ = ⊥

abbrev pub IsServed : ControlRequest → Type 0
IsServed request =
    (route : Route) × (control_route request.path ≡ some route)
    × (route.method ≡ request.method)
    × IsAccepted route.handler request.body

ok-inj : {A : Type 0} {a b : A} → ◌≡◌ {A = Result Error A} (ok a) (ok b) → a ≡ b
ok-inj e = cc e

-- A flag that was demanded is there.
insist-ok :
    (s name : String) (done : Unit {0}) → insist s name true ≡ ok done → is_empty_text s ≡ false
unfolding insist
insist-ok s name done e = ground arith

module _ (f : Flags) (request request' : ControlRequest) where
  demand-inv :
      (agent name type : Bool)
      → demand f agent name type request ≡ ok request'
      → (request ≡ request')
        × (agent ≡ true → is_empty_text f.agent_identity ≡ false)
        × (name ≡ true → is_empty_text f.endpoint_name ≡ false)
  demand-inv agent name type e =
      let (a, is_a, e₁) = >>=-eq-ok (insist f.agent_identity "agent" agent) _ e in
      let (n, is_n, e₂) = >>=-eq-ok (insist f.endpoint_name "name" name) _ e₁ in
      let (t, is_t, e₃) = >>=-eq-ok (insist f.endpoint_type "type" type) _ e₂ in
      (
        ok-inj e₃,
        λ h.
            insist-ok f.agent_identity "agent" a
              (subst (λ b. insist f.agent_identity "agent" b ≡ ok a) h is_a),
        λ h.
            insist-ok f.endpoint_name "name" n
              (subst (λ b. insist f.endpoint_name "name" b ≡ ok n) h is_n),
      )

kubeconfig-IsServed :
    (f : Flags)
    → is_empty_text f.agent_identity ≡ false
    → is_empty_text f.endpoint_name ≡ false
    → IsServed (get_kubeconfig_creds f)
unfolding get_kubeconfig_creds control_route validate_kube_config_request name_present
kubeconfig-IsServed f a n =
    (record { method = "POST"; handler = kubectl_components }, refl, refl, rw (a, n) refl)

manifest-IsServed :
    (f : Flags) → is_empty_text f.agent_identity ≡ false → IsServed (get_agent_manifest f)
unfolding get_agent_manifest control_route validate_manifest_request name_present
manifest-IsServed f a =
    (record { method = "POST"; handler = agent_manifest }, refl, refl, rw a refl)

service-IsServed :
    (f : Flags)
    → is_empty_text f.agent_identity ≡ false
    → is_empty_text f.endpoint_name ≡ false
    → IsServed (get_service f)
unfolding get_service control_route validate_service_credential_request name_present
service-IsServed f a n = (
  record { method = "POST"; handler = service_credentials },
  refl,
  refl,
  elim (Bool-cases (type_valid f.endpoint_type)) [
    | inl t ↦ inl (rw (a, n, t) refl)
    | inr t ↦ inr (rw (a, n, t) refl)
  ],
)

control-IsServed : (f : Flags) → is_empty_text f.endpoint_name ≡ false → IsServed (get_control f)
unfolding get_control control_route validate_control_credentials_request name_present
control-IsServed f n =
    (record { method = "POST"; handler = control_credentials }, refl, refl, rw n refl)

statistics-IsServed : (f : Flags) → IsServed (get_statistics_request f)
unfolding get_statistics_request control_route
statistics-IsServed f = (record { method = "GET"; handler = statistics }, refl, refl, tt)

-- Whatever the flags are, a request that forwarder-get-creds makes of them goes to a path of the
-- control API, by the method that the path has, with the body that its handler reads; and the body passes the handler's
-- validation, but for the type of a service, which the command does not look into.
pub request_of-IsServed :
    (f : Flags) (request : ControlRequest) → request_of f ≡ ok request → IsServed request
unfolding request_of
request_of-IsServed f request e = elim (Bool-cases (f.action == "kubectl")) [
  | inl k ↦
      let (same, a, n) =
        demand-inv f (get_kubeconfig_creds f) request true true false (rw (k, request_of) at e) in
      subst IsServed same (kubeconfig-IsServed f (a refl) (n refl))
  | inr not_k ↦ elim (Bool-cases (f.action == "agent-manifest")) [
    | inl m ↦
        let (same, a, n) =
          demand-inv f (get_agent_manifest f) request true false false
            (rw (not_k, m, request_of) at e) in
        subst IsServed same (manifest-IsServed f (a refl))
    | inr not_m ↦ elim (Bool-cases (f.action == "service")) [
      | inl s ↦
          let (same, a, n) =
            demand-inv f (get_service f) request true true true
              (rw (not_k, not_m, s, request_of) at e) in
          subst IsServed same (service-IsServed f (a refl) (n refl))
      | inr not_s ↦ elim (Bool-cases (f.action == "control")) [
        | inl c ↦
            let (same, a, n) =
              demand-inv f (get_control f) request false true false
                (rw (not_k, not_m, not_s, c, request_of) at e) in
            subst IsServed same (control-IsServed f (n refl))
        | inr not_c ↦ elim (Bool-cases (f.action == "statistics")) [
          | inl t ↦
              let (n, is_n, e₁) =
                >>=-eq-ok (insist f.endpoint_name "name" false) _
                  (rw (not_k, not_m, not_s, not_c, t, request_of) at e) in
              let (u, is_u, e₂) = >>=-eq-ok (insist f.endpoint_type "type" false) _ e₁ in
              subst IsServed (ok-inj e₂) (statistics-IsServed f)
          | inr not_t ↦ cc (rw (not_k, not_m, not_s, not_c, not_t, request_of) at e)
        ]
      ]
    ]
  ]
]
