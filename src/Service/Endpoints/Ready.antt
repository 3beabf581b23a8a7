-- ===== src/Service/Endpoints/Ready.antt =====
-- What stands behind an endpoint that is configured.
use oes_birger.Prelude.{
  String, ◌==◌, eq_iff, ◌≡◌, refl, ap, ◌∙◌, sym, subst, Bool, true, List, Option, none, some, arith,
  Result, ok, err, panic, >>=-eq-ok, map_err->>=-eq-ok, Bool-cases, inl, inr,
}
use oes_birger.Authority.{Bytes}
use oes_birger.Service.Generic.{GenericEndpoint, Credentials, load_secrets}
use oes_birger.Service.Generic
use oes_birger.Service.Generic.Make.{GenericConfig, with_credentials, make_generic_endpoint}
use oes_birger.Service.Aws.Make.{make_aws_endpoint}
use oes_birger.Service.Aws.Make
use oes_birger.Service.Kubernetes.{make_kubernetes_endpoint}
use oes_birger.Service.Endpoints.Configure.{
  OutgoingServiceConfig, Instance, kubernetes, aws, generic, nil_instance, Error, Libraries,
  SecretsLoader, generic_instance, make_instance, make_generic_instance, make_aws_instance,
  make_kubernetes_instance, with_error, bad_generic, bad_aws, bad_kubernetes,
}

-- There is an instance, of the kind that the type of the endpoint asks for.
abbrev pub IsReady : String → Instance → Type 0
IsReady type (kubernetes k) = type ≡ "kubernetes"
IsReady type (aws k) = type ≡ "aws"
IsReady type (generic ep) = ep.endpoint_type ≡ type
IsReady type nil_instance = ⊥

pub ok-inj : {A : Type 0} {a b : A} → ◌≡◌ {A = Result Error A} (ok a) (ok b) → a ≡ b
ok-inj e = cc e

with_credentials-type :
    (type name : String) (config : GenericConfig) (c : Credentials) (ep : GenericEndpoint)
    → with_credentials type name config c ≡ some ep
    → ep.endpoint_type ≡ type
unfolding with_credentials
with_credentials-type type name config c ep e = ground arith

with_loaded-type :
    (type name : String) (config : GenericConfig) (loaded : Result Generic.Error Credentials)
    (ep : GenericEndpoint)
    → ◌≡◌ {A = Result Generic.Error (Option GenericEndpoint)}
        (elim loaded [
          | err e ↦ ok none
          | panic ↦ panic
          | ok credentials ↦ ok (with_credentials type name config credentials)
        ])
        (ok (some ep))
    → ep.endpoint_type ≡ type
with_loaded-type type name config panic ep e = cc e
with_loaded-type type name config (err x) ep e = cc e
with_loaded-type type name config (ok c) ep e = with_credentials-type type name config c ep (cc e)

module _ {C : Type 0} (lib : Libraries C) (secrets_loader : SecretsLoader) where
  generic_instance-IsReady :
      (type : String) (bytes : Bytes)
      (get_secret : Option (String → Result Generic.Error (List (String × String)))) (name : String)
      (made : Option GenericEndpoint)
      → make_generic_endpoint lib.unmarshal_generic lib.decode get_secret type name bytes ≡ ok made
      → (generic_instance made).1 ≡ true
      → IsReady type (generic_instance made).0
  unfolding make_generic_endpoint
  generic_instance-IsReady type bytes get_secret name none e configured = cc configured
  generic_instance-IsReady type bytes get_secret name (some ep) e configured =
      let (config, _, e₁) = >>=-eq-ok (lib.unmarshal_generic bytes) _ e in
      with_loaded-type type name config (load_secrets lib.decode get_secret config.credentials) ep
        e₁

  module _ (service : OutgoingServiceConfig C) (config : Bytes) (made : Instance × Bool) where
    make_generic_instance-IsReady :
        make_generic_instance lib secrets_loader service config ≡ ok made
        → made.1 ≡ true
        → IsReady service.type made.0
    unfolding make_generic_instance
    make_generic_instance-IsReady e configured =
        let get_secret = with_error Generic.library secrets_loader in
        let (ep, made_ep, e₁) =
          map_err->>=-eq-ok bad_generic
            (make_generic_endpoint lib.unmarshal_generic lib.decode get_secret service.type
              service.name config)
            _ e in
        let same = ok-inj e₁ in
        subst (λ x. IsReady service.type x.0) same
          (generic_instance-IsReady service.type config get_secret service.name ep made_ep
            (ap (λ x. x.1) same ∙ configured))

    make_aws_instance-IsReady :
        make_aws_instance lib secrets_loader config ≡ ok made → IsReady "aws" made.0
    unfolding make_aws_instance
    make_aws_instance-IsReady e =
        let (k, _, e₁) =
          map_err->>=-eq-ok bad_aws
            (make_aws_endpoint lib.unmarshal_aws (with_error Make.library secrets_loader)
              lib.new_session config)
            _ e in
        subst (λ x. IsReady "aws" x.0) (ok-inj e₁) refl

    make_kubernetes_instance-IsReady :
        (loader : SecretsLoader)
        → make_kubernetes_instance lib secrets_loader loader config ≡ ok made
        → IsReady "kubernetes" made.0
    unfolding make_kubernetes_instance
    make_kubernetes_instance-IsReady none e = cc e
    make_kubernetes_instance-IsReady (some get_secret) e =
        let (k, _, e₁) =
          map_err->>=-eq-ok bad_kubernetes (make_kubernetes_endpoint lib.platform config) _ e in
        subst (λ x. IsReady "kubernetes" x.0) (ok-inj e₁) refl

    pub make_instance-IsReady :
        make_instance lib secrets_loader service config ≡ ok made
        → made.1 ≡ true
        → IsReady service.type made.0
    unfolding make_instance
    make_instance-IsReady e configured = elim (Bool-cases (service.type == "kubernetes")) [
      | inl k ↦
          subst (λ t. IsReady t made.0) (sym ((eq_iff service.type "kubernetes").0 k))
            (make_kubernetes_instance-IsReady secrets_loader (rw (k, make_instance) at e))
      | inr not_k ↦ elim (Bool-cases (service.type == "aws")) [
        | inl a ↦
            subst (λ t. IsReady t made.0) (sym ((eq_iff service.type "aws").0 a))
              (make_aws_instance-IsReady (rw (not_k, a, make_instance) at e))
        | inr not_a ↦
            make_generic_instance-IsReady (rw (not_k, not_a, make_instance) at e) configured
      ]
    ]
