-- ===== src/Tests/Kubernetes.antt =====
-- A kubeconfig, the security context that is read from it, and a request to the API server.
use oes_birger.Prelude.{
  ◌≡◌, ◌↔◌, refl, ap, true, false, Bool, [], ◌∷◌, none, some, lookup, insert, delete, ok, err,
}
use oes_birger.Text.{concat, canonical_key, is_empty_text}
use oes_birger.Authority.{KeyPair, Certificate}
use oes_birger.Jwt
use oes_birger.Kubeconfig.{
  KubeConfig, User, Cluster, find_context, get_context_names, read_kube_config,
}
use oes_birger.Kubeconfig.Found.{Refers}
use oes_birger.Service.Kubernetes.{
  KubeContext, KubernetesEndpoint, Error, Platform, make_context, server_context_from_kubeconfig,
  load_kubernetes_security,
}
use oes_birger.Service.Kubernetes.Context.{FindsLeaf, server_context_from_kubeconfig-eq-ok_iff}
use oes_birger.Service.Kubernetes.Refresh.{
  SameContext, is_same_as, is_same_as-eq-true_iff, update_server_context_ticker,
  update_server_context_ticker-SameContext,
}
use oes_birger.Tunnel.Messages.{OpenHttpTunnelRequest, make_bad_gateway_response}
use oes_birger.Tunnel.Headers.{
  copy_headers, copy_header, header_add_all, header_add, header_set, is_mutated, contains_folded,
}
use oes_birger.Tunnel.Cancel.{register_cancel_function, unregister_cancel_function}
use oes_birger.Tunnel.Request.{run_http_request}
use oes_birger.Service.Outgoing.{OutgoingRequest, Execution}
use oes_birger.Service.Kubernetes.Execute.{execute_http_request}
use oes_birger.Service.Kubernetes.Sent.{kubernetes_request-authorization}
use oes_birger.Tests.Tokens.{tokens}

abbrev kubeconfig : KubeConfig
kubeconfig = record {
  api_version = "v1";
  kind = "Config";
  current_context = "prod";
  clusters =
      record {
        name = "c1";
        cluster = record {
          insecure_skip_tls_verify = false;
          certificate_authority_data = "";
          server = "https://k8s";
        };
      }
      ∷ [];
  contexts =
      record { name = "dev"; context = record { cluster = ""; user = "" } }
      ∷ record { name = "prod"; context = record { cluster = "c1"; user = "u1" } }
      ∷ [];
  users =
      record { name = "u1"; user = record { client_certificate_data = "Y"; client_key_data = "a" } }
      ∷ [];
}

abbrev pub platform : Platform
platform = record {
  open_file = λ path. some (ok (1 ∷ []));
  read_file = λ path. err (Error.library "no file");
  getenv = λ name. "";
  unmarshal_kubeconfig = λ bytes. ok kubeconfig;
  unmarshal_config = λ bytes. ok "";
  decode_base64 = λ text. ok (7 ∷ []);
  x509_key_pair = λ cert key. ok (record { certificate = cert ∷ []; private_key = 1 });
  pem_decode = λ bytes. none;
  parse_certificate = λ bytes. err (Error.library "no certificate");
  to_text = λ bytes. "";
}

abbrev pub context : KubeContext
context = record {
  username = "u1";
  server_url = "https://k8s";
  server_ca = none;
  client_cert = some (record { certificate = (7 ∷ []) ∷ []; private_key = 1 });
  token = "";
  insecure = false;
}

server_context_test : server_context_from_kubeconfig platform kubeconfig ≡ ok context
unfolding server_context_from_kubeconfig find_context make_context is_empty_text get_context_names
server_context_test = refl

server_context_from_kubeconfig-eq-ok_iff_example :
    (server_context_from_kubeconfig platform kubeconfig ≡ ok context) ↔ (
      (user : User) × (cluster : Cluster) × Refers kubeconfig "prod" user cluster
      × (make_context platform (user, cluster) ≡ ok context))
server_context_from_kubeconfig-eq-ok_iff_example =
    server_context_from_kubeconfig-eq-ok_iff platform kubeconfig context

-- A context whose chain has another certificate behind the same leaf.
abbrev rotated : KubeContext
rotated = record context {
  client_cert = some (record { certificate = (7 ∷ []) ∷ (8 ∷ []) ∷ []; private_key = 2 });
}

abbrev never : Certificate → Certificate → Bool
never a b = false

abbrev always : Certificate → Certificate → Bool
always a b = true

is_same_as-eq-true_iff_example :
    (is_same_as never context rotated ≡ ok true) ↔ SameContext never context rotated
is_same_as-eq-true_iff_example =
    is_same_as-eq-true_iff never context rotated (λ e. cc e) (λ e. cc e)

platform-FindsLeaf : FindsLeaf platform
platform-FindsLeaf cert key pair e empty =
    let same : ◌≡◌ {A = KeyPair} (record { certificate = cert ∷ []; private_key = 1 }) pair =
      cc e in
    cc (ap (λ p. p.certificate) same, empty)

loaded : load_kubernetes_security platform "/app/config/kubeconfig.yaml" ≡ ok context
unfolding load_kubernetes_security read_kube_config
loaded = server_context_test

-- An endpoint that has been running with the user of before.
abbrev endpoint : KubernetesEndpoint
endpoint = record { f = record context { username = "u0" }; config = "/app/config/kubeconfig.yaml" }

update_server_context_ticker-SameContext_example :
    (ke : KubernetesEndpoint) × (update_server_context_ticker always
        (platform ∷ platform ∷ [])
        endpoint
      ≡ ok ke)
    × SameContext always ke.f context
update_server_context_ticker-SameContext_example =
    update_server_context_ticker-SameContext always (λ c. refl) (platform ∷ []) platform endpoint
      context ((platform-FindsLeaf, (context, loaded)), tt) platform-FindsLeaf (λ e. cc e) loaded

-- The service account, with a token.
abbrev in_cluster : KubernetesEndpoint
in_cluster = record endpoint { f = record context { token = "t0k" } }

abbrev plain : Jwt.Mutation
plain = record { registered = false }

abbrev pub request : OpenHttpTunnelRequest
request = record {
  id = "r1";
  type = "kubernetes";
  name = "prod";
  method = "GET";
  uri = "/api";
  headers = record { name = "authorization"; values = "Bearer own" ∷ [] } ∷ [];
  body = [];
}

abbrev full : OutgoingRequest
full = record {
  method = "GET";
  url = "https://k8s/api";
  header = ("Authorization", "Bearer t0k" ∷ []) ∷ [];
  body = [];
}

abbrev executed : Execution
executed = record {
  request = some full;
  sent = make_bad_gateway_response "r1" ∷ [];
  cancels = record { m = []; cancelled = [] };
}

run_test :
    execute_http_request tokens plain 10
      (λ r. true)
      (λ tls r. none)
      in_cluster
      request
      7
      (record { m = []; cancelled = [] })
    ≡ ok executed
unfolding execute_http_request run_http_request copy_headers copy_header is_mutated contains_folded
    header_add_all header_add header_set insert delete unregister_cancel_function
    register_cancel_function is_empty_text canonical_key
run_test = refl

kubernetes_request-authorization_example :
    (full.url ≡ concat ("https://k8s" ∷ "/api" ∷ []))
    × (full.method ≡ "GET")
    × (full.body ≡ [])
    × (lookup "Authorization" full.header ≡ some ("Bearer t0k" ∷ []))
unfolding concat
kubernetes_request-authorization_example =
    kubernetes_request-authorization tokens plain 10 (λ r. true) (λ tls r. none) in_cluster request
      7 (record { m = []; cancelled = [] }) executed run_test full refl (λ e. cc e)
