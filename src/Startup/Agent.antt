-- ===== src/Startup/Agent.antt =====
-- app/forwarder-agent/main.go, `main`, up to the start of `runTunnel` and of the listeners. A `Fatal` is an
-- `err`.
pub mod Trusted
use oes_birger.Prelude.{
  ℕ, ℤ, String, Bool, List, [], ◌∷◌, map, Option, none, some, if◌then◌else◌, Result, ok, err, panic,
  ◌>>=◌, map_err,
}
use oes_birger.Authority.{Bytes, Certificate, Crypto, KeyPair}
use oes_birger.Authority
use oes_birger.Tunnel.AgentInfo.{AgentInfo}
use oes_birger.Tunnel.Messages.{MessageWrapper}
use oes_birger.Service.Config.{ServiceConfig}
use oes_birger.Service.Endpoints.{ConfiguredEndpoint}
use oes_birger.Service.Endpoints.Configure.{Libraries, SecretsLoader, Instance, configure_endpoints}
use oes_birger.Service.Endpoints.Configure
use oes_birger.Config.Agent.{AgentConfig, load_ca_cert}
use oes_birger.Config.Agent
use oes_birger.Config.Agent.Dial
use oes_birger.Connection.Agent.{agent_hello}
use oes_birger.Startup.{Listener, jaeger_endpoint, run_http_server}

pub data Error : Type 0 where
  bad_config : Agent.Error → Error
  bad_authority : Authority.Error → Error
  bad_endpoints : Configure.Error → Error
  no_certificate_in_pool : Error
  library : String → Error

-- How the controller is dialled: in the clear, or with a key pair and the certificates that are trusted.
pub data Transport : Type 0 where
  insecure : Transport
  secured : KeyPair → List Certificate → Transport

-- `append_from_pem` says what is in a pool behind the PEM, if anything was added; `dial` what an attempt to
-- reach a host comes to, the attempts counted from 1.
pub record AgentWorld (C : Type 0) : Type 0 where
  pub jaeger_flag : String
  pub jaeger_trace_url : Option String
  pub new_tracer_provider : String → Result Error (Unit {0})
  pub crypto : Crypto
  pub load_key_pair : String → String → Result Authority.Error KeyPair
  pub pem_decode : Bytes → Option Bytes
  pub decode64 : String → Result Agent.Error Bytes
  pub ca_cert_file : Result Agent.Error Bytes
  pub append_from_pem : Bytes → List Certificate → Option (List Certificate)
  pub libraries : Libraries C
  pub secrets : Option (Result Error SecretsLoader)
  pub services : String → Result Error (ServiceConfig C)
  pub agent_info : String → Result Agent.Error AgentInfo
  pub dial : Transport → String → ℕ → Option ℕ
  pub hostname : Option String
  pub version : String
  pub now : ℕ

pub record RunningAgent : Type 0 where
  pub config : AgentConfig
  pub endpoints : List ConfiguredEndpoint
  pub instances : List Instance
  pub transport : Transport
  pub conn : Option ℕ
  pub hello : MessageWrapper
  pub listeners : List Listener

unfoldable pub get_hostname : Option String → String
get_hostname none = "unknown"
get_hostname (some hn) = hn

-- As in the controller.
unfoldable pub agent_jaeger_endpoint : String → Option String → String
unfolding jaeger_endpoint
agent_jaeger_endpoint = jaeger_endpoint

unfoldable pub make_agent_loader : Option (Result Error SecretsLoader) → Result Error SecretsLoader
make_agent_loader none = ok none
make_agent_loader (some made) = made

unfoldable pub make_transport : Bool → KeyPair → List Certificate → Transport
make_transport insecure_allowed clcert roots =
    if insecure_allowed then insecure else secured clcert roots

abbrev pub appended : Option (List Certificate) → Result Error (List Certificate)
appended none = err no_certificate_in_pool
appended (some pool) = ok pool

-- `loaded` is what `loadConfig` comes to. The greeting is made by `runTunnel`, which starts behind the dialling.
unfoldable pub start_agent :
    {C : Type 0} → AgentWorld C → Result Agent.Error AgentConfig → Result Error RunningAgent
unfolding agent_jaeger_endpoint make_agent_loader make_transport get_hostname configure_endpoints
    load_ca_cert Dial.connect agent_hello run_http_server
start_agent w loaded = do
  loader ← make_agent_loader w.secrets
  tracer ← w.new_tracer_provider (agent_jaeger_endpoint w.jaeger_flag w.jaeger_trace_url)
  c ← map_err bad_config loaded
  services ← w.services c.services_config_path
  configured ←
      map_err bad_endpoints (configure_endpoints w.libraries loader services.outgoing_services)
  agent_info ← map_err bad_config (w.agent_info c.services_config_path)
  clcert ← map_err bad_authority (w.load_key_pair c.cert_file c.key_file)
  pem ← map_err bad_config (load_ca_cert w.crypto w.pem_decode w.now w.ca_cert_file w.decode64 c)
  roots ← appended (w.append_from_pem pem [])
  conn ← map_err bad_config (
      Dial.connect
        (w.dial (make_transport c.insecure_controller_allowed clcert roots) c.controller_hostname)
        c.dial_max_retries)
  hello ←
      map_err bad_authority
        (agent_hello w.version (get_hostname w.hostname) agent_info configured.0 clcert)
  ok (record {
    config = c;
    endpoints = configured.0;
    instances = configured.1;
    transport = make_transport c.insecure_controller_allowed clcert roots;
    conn = conn;
    hello = hello;
    listeners = map run_http_server services.incoming_services;
  })
