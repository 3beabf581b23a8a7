-- ===== src/Service/Endpoints/Configure.antt =====
-- endpoints.go, `ConfigureEndpoints`: each enabled service gets an instance that executes requests, and
-- is offered under its own name or under one name for each of its groups of namespaces. The instances
-- are a list here, and an endpoint refers to one by its index. The YAML libraries and the platform are
-- the record `Libraries`; a `Fatal`, which ends the process, is an `err`.
use oes_birger.Prelude.{
  ℕ, ◌+◌, String, ◌==◌, Bool, true, false, List, [], ◌∷◌, ◌++◌, map, Option, none, some,
  if◌then◌else◌, Result, ok, err, ◌>>=◌, map_err,
}
use oes_birger.Authority.{Bytes}
use oes_birger.Service.Endpoints.{ConfiguredEndpoint}
use oes_birger.Service.Generic.{GenericEndpoint}
use oes_birger.Service.Generic
use oes_birger.Service.Generic.Make.{GenericConfig, make_generic_endpoint}
use oes_birger.Service.Aws.Make.{AwsEndpoint, AwsCredentials, make_aws_endpoint}
use oes_birger.Service.Aws.Make
use oes_birger.Service.Kubernetes.{KubernetesEndpoint, Platform, make_kubernetes_endpoint}
use oes_birger.Service.Kubernetes

pub record ServiceNamespace : Type 0 where
  pub name : String
  pub namespaces : List String

-- `C` is the type of the part of the YAML file that the service's own code reads.
pub record OutgoingServiceConfig (C : Type 0) : Type 0 where
  pub enabled : Bool
  pub name : String
  pub type : String
  pub config : C
  pub annotations : List (String × String)
  pub namespaces : List ServiceNamespace
  pub account_id : String
  pub assume_role : String

-- What is behind `Instance`; `nil_instance` is a nil pointer in it.
pub data Instance : Type 0 where
  kubernetes : KubernetesEndpoint → Instance
  aws : AwsEndpoint → Instance
  generic : GenericEndpoint → Instance
  nil_instance : Instance

pub data Error : Type 0 where
  kubernetes_disabled : Error
  bad_kubernetes : Kubernetes.Error → Error
  bad_aws : Make.Error → Error
  bad_generic : Generic.Error → Error
  library : String → Error

pub record Libraries (C : Type 0) : Type 0 where
  pub marshal : C → Result Error Bytes
  pub platform : Platform
  pub unmarshal_aws : Bytes → Result Make.Error AwsCredentials
  pub new_session : Result Make.Error String
  pub unmarshal_generic : Bytes → Result Generic.Error GenericConfig
  pub decode : String → Result Generic.Error String

-- A nil loader is `none`.
abbrev pub SecretsLoader : Type 0
SecretsLoader = Option (String → Result String (List (String × String)))

abbrev pub with_error :
    {E : Type 0}
    → (String → E)
    → SecretsLoader
    → Option (String → Result E (List (String × String)))
with_error wrap none = none
with_error wrap (some get_secret) = some (λ name. map_err wrap (get_secret name))

abbrev pub generic_instance : Option GenericEndpoint → Instance × Bool
generic_instance none = (nil_instance, false)
generic_instance (some ep) = (generic ep, true)

module _ {C : Type 0} (lib : Libraries C) (secrets_loader : SecretsLoader) where
  unfoldable pub make_kubernetes_instance : SecretsLoader → Bytes → Result Error (Instance × Bool)
  unfolding make_kubernetes_endpoint
  make_kubernetes_instance none config = err kubernetes_disabled
  make_kubernetes_instance (some get_secret) config = do
    k ← map_err bad_kubernetes (make_kubernetes_endpoint lib.platform config)
    ok (kubernetes k.0, k.1)

  unfoldable pub make_aws_instance : Bytes → Result Error (Instance × Bool)
  unfolding make_aws_endpoint
  make_aws_instance config = do
    k ← map_err bad_aws (
        make_aws_endpoint lib.unmarshal_aws (with_error Make.library secrets_loader) lib.new_session
          config)
    ok (aws k, true)

  unfoldable pub make_generic_instance :
      OutgoingServiceConfig C → Bytes → Result Error (Instance × Bool)
  unfolding make_generic_endpoint
  make_generic_instance service config = do
    ep ← map_err bad_generic (
        make_generic_endpoint lib.unmarshal_generic lib.decode
          (with_error Generic.library secrets_loader) service.type service.name config)
    ok (generic_instance ep)

  -- The switch on the type of the service.
  unfoldable pub make_instance : OutgoingServiceConfig C → Bytes → Result Error (Instance × Bool)
  unfolding make_kubernetes_instance make_aws_instance make_generic_instance
  make_instance service config =
      if service.type == "kubernetes"
      then make_kubernetes_instance secrets_loader config
      else if service.type == "aws"
      then make_aws_instance config
      else make_generic_instance service config

  unfoldable pub own_endpoint : OutgoingServiceConfig C → ℕ → Bool → ConfiguredEndpoint
  own_endpoint service executor configured = record {
    name = service.name;
    type = service.type;
    configured = configured;
    annotations = service.annotations;
    namespace = [];
    account_id = service.account_id;
    assume_role = service.assume_role;
    executor = executor;
  }

  -- A group of namespaces has neither annotations nor an account or a role.
  unfoldable pub namespace_endpoint :
      OutgoingServiceConfig C → ℕ → Bool → ServiceNamespace → ConfiguredEndpoint
  namespace_endpoint service executor configured ns = record {
    name = ns.name;
    type = service.type;
    configured = configured;
    annotations = [];
    namespace = ns.namespaces;
    account_id = "";
    assume_role = "";
    executor = executor;
  }

  unfoldable pub endpoints_of :
      OutgoingServiceConfig C → ℕ → Bool → List ServiceNamespace → List ConfiguredEndpoint
  unfolding own_endpoint namespace_endpoint
  endpoints_of service executor configured [] = own_endpoint service executor configured ∷ []
  endpoints_of service executor configured (ns ∷ namespaces) =
      map (namespace_endpoint service executor configured) (ns ∷ namespaces)

  -- An enabled service, with what the rest of the loop comes to.
  unfoldable pub add_service :
      OutgoingServiceConfig C
      → ℕ
      → Result Error (List ConfiguredEndpoint × List Instance)
      → Result Error (List ConfiguredEndpoint × List Instance)
  unfolding make_instance endpoints_of
  add_service service next later = do
    config ← lib.marshal service.config
    made ← make_instance service config
    rest ← later
    ok (endpoints_of service next made.1 service.namespaces ++ rest.0, made.0 ∷ rest.1)

  -- The loop over the services; `next` is the index of the next instance.
  unfoldable pub configure_from :
      List (OutgoingServiceConfig C) → ℕ → Result Error (List ConfiguredEndpoint × List Instance)
  unfolding add_service
  configure_from [] next = ok ([], [])
  configure_from (service ∷ services) next =
      let rest = configure_from services in
      if service.enabled then add_service service next (rest (next + 1)) else rest next

  unfoldable pub configure_endpoints :
      List (OutgoingServiceConfig C) → Result Error (List ConfiguredEndpoint × List Instance)
  unfolding configure_from
  configure_endpoints outgoing_services = configure_from outgoing_services 0
