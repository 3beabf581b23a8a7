-- ===== src/Service/Endpoints/Backed.antt =====
-- The endpoints that are configured, the instances behind them, and the requests that reach these.
use oes_birger.Prelude.{
  ℕ, suc, ◌+◌, ◌≡◌, refl, ap, ◌∙◌, sym, subst, Bool, true, false, List, [], ◌∷◌, map, some, All,
  All-append, get_elem?, if◌then◌else◌, arith, Result, ok, >>=-eq-ok, Bool-cases, inl, inr,
}
use oes_birger.Service.Endpoints.{ConfiguredEndpoint}
use oes_birger.Service.Endpoints.Configure.{
  OutgoingServiceConfig, ServiceNamespace, Instance, Error, Libraries, SecretsLoader, make_instance,
  add_service, own_endpoint, namespace_endpoint, endpoints_of, configure_from, configure_endpoints,
}
use oes_birger.Service.Endpoints.Ready.{IsReady, make_instance-IsReady, ok-inj}

-- The instance that the endpoint refers to, where the first of the list has the index `next`.
pub record RefersFrom (next : ℕ) (instances : List Instance) (ep : ConfiguredEndpoint)
    : Type 0 where
  pub index : ℕ
  pub at : ep.executor ≡ next + index
  pub instance : Instance
  pub found : get_elem? instances index ≡ some instance
  pub ready : ep.configured ≡ true → IsReady ep.type instance

RefersFrom-later :
    (next : ℕ) (instance : Instance) (instances : List Instance) (eps : List ConfiguredEndpoint)
    → All (RefersFrom (next + 1) instances) eps
    → All (RefersFrom next (instance ∷ instances)) eps
RefersFrom-later next instance instances [] h = tt
RefersFrom-later next instance instances (ep ∷ eps) (r, h) = (
  record {
    index = suc r.index;
    at = r.at ∙ omega arith;
    instance = r.instance;
    found = r.found;
    ready = r.ready;
  },
  RefersFrom-later next instance instances eps h,
)

if-true : {A : Type 0} {b : Bool} (x y : A) {z : A} → b ≡ true → (if b then x else y) ≡ z → x ≡ z
if-true x y t e = ap (λ c. if c then x else y) (sym t) ∙ e

if-false : {A : Type 0} {b : Bool} (x y : A) {z : A} → b ≡ false → (if b then x else y) ≡ z → y ≡ z
if-false x y t e = ap (λ c. if c then x else y) (sym t) ∙ e

module _ {C : Type 0} (lib : Libraries C) (secrets_loader : SecretsLoader) where
  module _ (service : OutgoingServiceConfig C) (next : ℕ) (made : Instance × Bool)
      (ready : made.1 ≡ true → IsReady service.type made.0) (instances : List Instance) where
    namespace_endpoints-RefersFrom :
        (namespaces : List ServiceNamespace)
        → All
            (RefersFrom next (made.0 ∷ instances))
            (map (namespace_endpoint lib secrets_loader service next made.1) namespaces)
    unfolding namespace_endpoint
    namespace_endpoints-RefersFrom [] = tt
    namespace_endpoints-RefersFrom (ns ∷ namespaces) = (
      record { index = 0; at = omega arith; instance = made.0; found = refl; ready = ready },
      namespace_endpoints-RefersFrom namespaces,
    )

    endpoints_of-RefersFrom :
        (namespaces : List ServiceNamespace)
        → All
            (RefersFrom next (made.0 ∷ instances))
            (endpoints_of lib secrets_loader service next made.1 namespaces)
    unfolding endpoints_of own_endpoint
    endpoints_of-RefersFrom [] =
        (record { index = 0; at = omega arith; instance = made.0; found = refl; ready = ready }, tt)
    endpoints_of-RefersFrom (ns ∷ namespaces) = namespace_endpoints-RefersFrom (ns ∷ namespaces)

  add_service-RefersFrom :
      (service : OutgoingServiceConfig C) (next : ℕ)
      (later : Result Error (List ConfiguredEndpoint × List Instance))
      (eps : List ConfiguredEndpoint) (instances : List Instance)
      → ((eps' : List ConfiguredEndpoint) (instances' : List Instance)
          → later ≡ ok (eps', instances')
          → All (RefersFrom (next + 1) instances') eps')
      → add_service lib secrets_loader service next later ≡ ok (eps, instances)
      → All (RefersFrom next instances) eps
  unfolding add_service
  add_service-RefersFrom service next later eps instances below e =
      let (config, _, e₁) = >>=-eq-ok (lib.marshal service.config) _ e in
      let (made, is_made, e₂) = >>=-eq-ok (make_instance lib secrets_loader service config) _ e₁ in
      let (rest, is_rest, e₃) = >>=-eq-ok later _ e₂ in
      let ready = make_instance-IsReady lib secrets_loader service config made is_made in
      subst (λ x. All (RefersFrom next x.1) x.0) (ok-inj e₃)
        (All-append (RefersFrom next (made.0 ∷ rest.1))
          (endpoints_of lib secrets_loader service next made.1 service.namespaces) rest.0
          (endpoints_of-RefersFrom service next made ready rest.1 service.namespaces)
          (RefersFrom-later next made.0 rest.1 rest.0 (below rest.0 rest.1 is_rest)))

  configure_from-RefersFrom :
      (services : List (OutgoingServiceConfig C)) (next : ℕ) (eps : List ConfiguredEndpoint)
      (instances : List Instance)
      → configure_from lib secrets_loader services next ≡ ok (eps, instances)
      → All (RefersFrom next instances) eps
  unfolding configure_from
  configure_from-RefersFrom [] next eps instances e =
      subst (λ x. All (RefersFrom next x.1) x.0) (ok-inj e) tt
  configure_from-RefersFrom (service ∷ services) next eps instances e =
      elim (Bool-cases service.enabled) [
        | inl on ↦
            add_service-RefersFrom service next
              (configure_from lib secrets_loader services (next + 1)) eps instances
              (configure_from-RefersFrom services (next + 1)) (if-true _ _ on e)
        | inr off ↦ configure_from-RefersFrom services next eps instances (if-false _ _ off e)
      ]

  -- The endpoints that a program offers each refer to one of the instances that were made with them, and
  -- one that is configured refers to an instance of the kind that its type asks for, never to nil.
  pub configure_endpoints-RefersFrom :
      (services : List (OutgoingServiceConfig C)) (eps : List ConfiguredEndpoint)
      (instances : List Instance)
      → configure_endpoints lib secrets_loader services ≡ ok (eps, instances)
      → All (RefersFrom 0 instances) eps
  unfolding configure_endpoints
  configure_endpoints-RefersFrom services = configure_from-RefersFrom services 0
