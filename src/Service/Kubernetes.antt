-- ===== src/Service/Kubernetes.antt =====
-- internal/serviceconfig/kubernetes.go: an endpoint that is the API server of a Kubernetes cluster; here
-- where its security context comes from and when it is taken up. Files, the environment, base64, PEM,
-- YAML and the parsing of certificates are the record `Platform`. A `Fatalf`, which ends the process, is
-- an `err`. The children hold the request, and the proofs.
pub mod Execute
pub mod Context
pub mod Refresh
pub mod Sent
use oes_birger.Prelude.{
  String, ◌==◌, Bool, true, false, not, ◌&&◌, ◌||◌, List, [], ◌∷◌, Option, none, some,
  if◌then◌else◌, eqb, Result, ok, err, panic, ◌>>=◌, map_err,
}
use oes_birger.Text.{is_empty_text, concat}
use oes_birger.Authority.{Bytes, Certificate, KeyPair}
use oes_birger.Kubeconfig.{
  KubeConfig, User, Cluster, find_context, get_context_names, read_kube_config,
}
use oes_birger.Kubeconfig

pub record KubeContext : Type 0 where
  pub username : String
  pub server_url : String
  pub server_ca : Option Certificate
  pub client_cert : Option KeyPair
  pub token : String
  pub insecure : Bool

-- `config` is the path of the kubeconfig file.
pub record KubernetesEndpoint : Type 0 where
  pub f : KubeContext
  pub config : String

pub data Error : Type 0 where
  bad_context : Kubeconfig.Error → Error
  bad_kubeconfig : Kubeconfig.Error → Error
  no_current_context : Error
  no_service_port : Error
  no_service_host : Error
  library : String → Error

-- `open_file` is `os.Open`; what it gives is what reading the file comes to.
pub record Platform : Type 0 where
  pub open_file : String → Option (Result Kubeconfig.Error Bytes)
  pub read_file : String → Result Error Bytes
  pub getenv : String → String
  pub unmarshal_kubeconfig : Bytes → Result Kubeconfig.Error KubeConfig
  pub unmarshal_config : Bytes → Result Error String
  pub decode_base64 : String → Result Error Bytes
  pub x509_key_pair : Bytes → Bytes → Result Error KeyPair
  pub pem_decode : Bytes → Option Bytes
  pub parse_certificate : Bytes → Result Error Certificate
  pub to_text : Bytes → String

module _ (p : Platform) where
  -- `pemBlock.Bytes` of a block that is nil panics.
  unfoldable pub parse_pem : Bytes → Result Error Certificate
  parse_pem bytes = elim (p.pem_decode bytes) [
    | none ↦ panic
    | some block ↦ p.parse_certificate block
  ]

  unfoldable pub load_server_ca : String → Result Error (Option Certificate)
  unfolding parse_pem
  load_server_ca text =
      if is_empty_text text
      then ok none
      else (do bytes ← p.decode_base64 text; cert ← parse_pem bytes; ok (some cert))

  unfoldable pub make_context : User × Cluster → Result Error KubeContext
  unfolding load_server_ca
  make_context (user, cluster) = do
    cert_data ← p.decode_base64 user.user.client_certificate_data
    key_data ← p.decode_base64 user.user.client_key_data
    client_keypair ← p.x509_key_pair cert_data key_data
    server_ca ← load_server_ca cluster.cluster.certificate_authority_data
    ok (record {
      username = user.name;
      server_url = cluster.cluster.server;
      server_ca = server_ca;
      client_cert = some client_keypair;
      token = "";
      insecure = cluster.cluster.insecure_skip_tls_verify;
    })

  -- The loop over the names: only the current context is read, and the loop ends there.
  unfoldable pub context_of : KubeConfig → List String → Result Error KubeContext
  unfolding make_context
  context_of kconfig [] = err no_current_context
  context_of kconfig (name ∷ names) =
      let rest = context_of kconfig names in
      if not (name == kconfig.current_context)
      then rest
      else (map_err bad_context (find_context name kconfig) >>= make_context)

  unfoldable pub server_context_from_kubeconfig : KubeConfig → Result Error KubeContext
  unfolding context_of
  server_context_from_kubeconfig kconfig = context_of kconfig (get_context_names kconfig)

  -- `loadServiceAccount`: the account that the cluster gives to the pod.
  unfoldable pub load_service_account : Result Error KubeContext
  unfolding parse_pem concat
  load_service_account = do
    token ← p.read_file "/var/run/secrets/kubernetes.io/serviceaccount/token"
    server_ca ← p.read_file "/var/run/secrets/kubernetes.io/serviceaccount/ca.crt"
    server_cert ← parse_pem server_ca
    if is_empty_text (p.getenv "KUBERNETES_SERVICE_PORT")
        then err no_service_port
        else if is_empty_text (p.getenv "KUBERNETES_SERVICE_HOST")
        then err no_service_host
        else ok (record {
          username = "ServiceAccount";
          server_url = concat (
              "https://"
              ∷ p.getenv "KUBERNETES_SERVICE_HOST"
              ∷ ":"
              ∷ p.getenv "KUBERNETES_SERVICE_PORT"
              ∷ []);
          server_ca = some server_cert;
          client_cert = none;
          token = p.to_text token;
          insecure = true;
        })

  -- The service account is read only where the kubeconfig file cannot be opened.
  unfoldable pub load_kubernetes_security : String → Result Error KubeContext
  unfolding server_context_from_kubeconfig load_service_account
  load_kubernetes_security config = elim (p.open_file config) [
    | none ↦ load_service_account
    | some contents ↦
        map_err bad_kubeconfig (read_kube_config p.unmarshal_kubeconfig contents)
        >>= server_context_from_kubeconfig
  ]

  abbrev pub default_kubeconfig : String
  default_kubeconfig = "/app/config/kubeconfig.yaml"

  -- `MakeKubernetesEndpoint`, whose second result is true wherever there is an endpoint.
  unfoldable pub make_kubernetes_endpoint : Bytes → Result Error (KubernetesEndpoint × Bool)
  unfolding load_kubernetes_security
  make_kubernetes_endpoint config_bytes = do
    written ← p.unmarshal_config config_bytes
    let config = if written == "" then default_kubeconfig else written
    f ← load_kubernetes_security config
    ok (record { f = f; config = config }, true)
