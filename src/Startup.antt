-- ===== src/Startup.antt =====
-- app/forwarder-controller/main.go, `main`, with the servers that it starts: those of the control API
-- (cncserver), of the agents (grpc-server.go), of the service API (internal/serviceconfig) and of the
-- metrics. A listener is described by its port, its TLS configuration and what it serves; a `Fatal`, also
-- one of a goroutine that was started, ends the process and is an `err`.
pub mod Secured
pub mod Started
pub mod Agent
use oes_birger.Prelude.{
  ℕ, String, ◌==◌, Bool, true, false, not, List, [], ◌∷◌, ◌++◌, Option, none, some, if◌then◌else◌,
  Result, ok, err, panic, ◌>>=◌, map_err,
}
use oes_birger.Text.{is_empty_text}
use oes_birger.Authority.{Bytes, Certificate, Crypto, KeyPair, Ca, load_ca_from_file}
use oes_birger.Authority
use oes_birger.Authority.Server.{make_server_cert, make_cert_pool}
use oes_birger.Jwt.{Mutation, register_mutation_keyset}
use oes_birger.Jwt
use oes_birger.Service.Credentials.{IncomingServiceConfig}
use oes_birger.Service.Endpoints.{ConfiguredEndpoint}
use oes_birger.Service.Endpoints.Configure.{Libraries, SecretsLoader, Instance, configure_endpoints}
use oes_birger.Service.Endpoints.Configure
use oes_birger.Config.Controller.{ControllerConfig, parse_config, get_control_listen_port}
use oes_birger.Config.Controller
use oes_birger.Config.Keys.{Visit, load_keyset}
use oes_birger.Config.Keys
use oes_birger.Webhook.{Runner, new_runner}
use oes_birger.Connection.{BaseStatistics}

pub data ClientAuth : Type 0 where
  verify_client_cert_if_given require_and_verify_client_cert : ClientAuth

pub data TlsVersion : Type 0 where
  version_tls12 version_tls13 : TlsVersion

pub record ServerTls : Type 0 where
  pub client_cas : List Certificate
  pub client_auth : ClientAuth
  pub certificate : KeyPair
  pub min_version : TlsVersion

-- The handler of a server: the control API, the agents' tunnels, the service API by the credentials of the
-- client or for one fixed destination, the metrics.
pub data Serves : Type 0 where
  control_api : Serves
  agent_tunnels : Bool → List ConfiguredEndpoint → Serves
  identified : IncomingServiceConfig → Serves
  fixed : IncomingServiceConfig → Serves
  metrics : Serves

pub record Listener : Type 0 where
  pub port : ℕ
  pub tls : Option ServerTls
  pub serves : Serves

pub data Error : Type 0 where
  bad_config : Controller.Error → Error
  bad_keys : Keys.Error → Error
  bad_authority : Authority.Error → Error
  bad_endpoints : Configure.Error → Error
  bad_registry : Jwt.Error → Error
  library : String → Error

-- What the program is given by its libraries and its surroundings. A `secrets` of `none` is a namespace that
-- is not set; `K` is the type of key sets, `C` that of a service's own part of the configuration.
pub record World (K C : Type 0) : Type 0 where
  pub jaeger_flag : String
  pub jaeger_trace_url : Option String
  pub new_tracer_provider : String → Result Error (Unit {0})
  pub crypto : Crypto
  pub x509_key_pair : Bytes → Bytes → Result Authority.Error KeyPair
  pub load_key_pair : String → String → Result Authority.Error KeyPair
  pub append_from_pem : Bytes → List Certificate → List Certificate
  pub libraries : Libraries C
  pub secrets : Option (Result Error SecretsLoader)
  pub visits : List Visit
  pub add_key : String → Bytes → K → Result Keys.Error K
  pub has_key : String → K → Bool
  pub no_keys : K
  pub register_serviceauth : K → String → Result Jwt.Error (Unit {0})
  pub register_mutation : K → String → Result Jwt.Error (Unit {0})
  pub now : ℕ
  pub random : ℕ

pub record Running (K C : Type 0) : Type 0 where
  pub config : ControllerConfig C
  pub keyset : K
  pub current_key : String
  pub mutation : Mutation
  pub hook : Option (Runner BaseStatistics)
  pub authority : Ca
  pub server_cert : KeyPair
  pub endpoints : List ConfiguredEndpoint
  pub instances : List Instance
  pub listeners : List Listener

-- The flag is replaced by the variable where it is set, and kept where it is not.
unfoldable pub jaeger_endpoint : String → Option String → String
jaeger_endpoint flag variable =
    if not (flag == "") then elim variable [ none ↦ "" | some url ↦ url ] else flag

unfoldable pub make_loader : Option (Result Error SecretsLoader) → Result Error SecretsLoader
make_loader none = ok none
make_loader (some made) = made

unfoldable pub make_hook : String → Option (Runner BaseStatistics)
unfolding new_runner
make_hook url = if is_empty_text url then none else some (new_runner url)

unfoldable pub run_http_server : IncomingServiceConfig → Listener
run_http_server service = record { port = service.port; tls = none; serves = fixed service }

unfoldable pub run_prometheus_http_server : ℕ → Listener
run_prometheus_http_server port = record { port = port; tls = none; serves = metrics }

-- The service API on the port that is always there.
abbrev pub own_service : ℕ → IncomingServiceConfig
own_service port = record {
  name = "_services";
  port = port;
  use_http = false;
  service_type = "";
  destination = "";
  destination_service = "";
}

module _ (lib : Crypto) (append_from_pem : Bytes → List Certificate → List Certificate) (ca : Ca)
    (server_cert : KeyPair) where
  cert_pool : Result Error (List Certificate)
  cert_pool = map_err bad_authority (make_cert_pool lib append_from_pem ca)

  unfoldable pub run_https_server : IncomingServiceConfig → Result Error Listener
  unfolding cert_pool
  run_https_server service = do
    pool ← cert_pool
    ok (record {
      port = service.port;
      tls = some (record {
        client_cas = pool;
        client_auth = verify_client_cert_if_given;
        certificate = server_cert;
        min_version = version_tls12;
      });
      serves = identified service;
    })

  unfoldable pub run_control_server : ℕ → Result Error Listener
  unfolding cert_pool
  run_control_server port = do
    pool ← cert_pool
    ok (record {
      port = port;
      tls = some (record {
        client_cas = pool;
        client_auth = require_and_verify_client_cert;
        certificate = server_cert;
        min_version = version_tls12;
      });
      serves = control_api;
    })

  unfoldable pub run_agent_grpc_server : Bool → ℕ → List ConfiguredEndpoint → Result Error Listener
  unfolding cert_pool
  run_agent_grpc_server insecure port endpoints =
      if insecure
      then ok (record { port = port; tls = none; serves = agent_tunnels true endpoints })
      else (do
        pool ← cert_pool
        ok (record {
          port = port;
          tls = some (record {
            client_cas = pool;
            client_auth = require_and_verify_client_cert;
            certificate = server_cert;
            min_version = version_tls13;
          });
          serves = agent_tunnels false endpoints;
        }))

  -- The loop over the incoming services.
  unfoldable pub run_services : List IncomingServiceConfig → Result Error (List Listener)
  unfolding run_https_server run_http_server
  run_services [] = ok []
  run_services (service ∷ services) = do
    listener ← if service.use_http then ok (run_http_server service) else run_https_server service
    rest ← run_services services
    ok (listener ∷ rest)

  -- The goroutines that `main` starts, in the order of its lines.
  unfoldable pub run_servers :
      {C : Type 0} → ControllerConfig C → List ConfiguredEndpoint → Result Error (List Listener)
  unfolding run_control_server run_agent_grpc_server run_services run_https_server
      run_prometheus_http_server get_control_listen_port
  run_servers c endpoints = do
    control ← run_control_server (get_control_listen_port c)
    agents ← run_agent_grpc_server c.insecure_agent_connections c.agent_listen_port endpoints
    own ← run_https_server (own_service c.service_listen_port)
    services ← run_services c.incoming_services
    ok (
        control ∷ agents ∷ own ∷ services
        ++ run_prometheus_http_server c.prometheus_listen_port ∷ [])

-- `loaded` is what `parseConfig` comes to.
unfoldable pub start_controller :
    {K C : Type 0}
    → World K C
    → Result Controller.Error (ControllerConfig C)
    → Result Error (Running K C)
unfolding jaeger_endpoint make_loader make_hook load_keyset register_mutation_keyset
    load_ca_from_file make_server_cert configure_endpoints run_servers
start_controller w loaded = do
  tracer ← w.new_tracer_provider (jaeger_endpoint w.jaeger_flag w.jaeger_trace_url)
  c ← map_err bad_config loaded
  loader ← make_loader w.secrets
  (keyset, current) ←
      map_err bad_keys (load_keyset w.add_key w.has_key c.service_auth w.visits w.no_keys)
  registered ← map_err bad_registry (w.register_serviceauth keyset c.service_auth.current_key_name)
  let mutation =
      register_mutation_keyset (w.register_mutation keyset c.service_auth.header_mutation_key_name)
        (record { registered = false })
  mutated ← map_err bad_registry mutation.1
  authority ← map_err bad_authority (load_ca_from_file w.crypto w.load_key_pair c.ca_config w.now)
  server_cert ←
      map_err bad_authority
        (make_server_cert w.crypto w.x509_key_pair authority c.server_names w.now w.random)
  configured ← map_err bad_endpoints (configure_endpoints w.libraries loader c.outgoing_services)
  listeners ← run_servers w.crypto w.append_from_pem authority server_cert c configured.0
  ok (record {
    config = c;
    keyset = keyset;
    current_key = current;
    mutation = mutation.0;
    hook = make_hook c.webhook;
    authority = authority;
    server_cert = server_cert;
    endpoints = configured.0;
    instances = configured.1;
    listeners = listeners;
  })
