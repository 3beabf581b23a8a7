-- ===== src/Config/Controller.antt =====
-- app/forwarder-controller/config.go: the controller's configuration, its defaults, and the names that
-- its certificate is made for. Reading and decoding the file are arguments.
pub mod Loaded
use oes_birger.Prelude.{
  ℕ, String, ◌==◌, Bool, true, false, not, List, [], ◌∷◌, ◌++◌, Option, none, some, if◌then◌else◌,
  eqb, Result, ok, err, panic, ◌>>=◌,
}
use oes_birger.Text.{is_empty_text}
use oes_birger.Authority
use oes_birger.Service.Credentials.{IncomingServiceConfig}
use oes_birger.Service.Endpoints.Configure.{OutgoingServiceConfig}

pub record ServiceAuthConfig : Type 0 where
  pub current_key_name : String
  pub header_mutation_key_name : String
  pub secrets_path : String

-- `C` is the type of a service's own part of the file. A host name may be missing.
pub record ControllerConfig (C : Type 0) : Type 0 where
  pub agents : List (String × String)
  pub service_auth : ServiceAuthConfig
  pub webhook : String
  pub server_names : List String
  pub ca_config : Authority.Config
  pub prometheus_listen_port : ℕ
  pub service_hostname : Option String
  pub service_listen_port : ℕ
  pub control_hostname : Option String
  pub control_listen_port : ℕ
  pub agent_hostname : Option String
  pub agent_listen_port : ℕ
  pub agent_advertise_port : ℕ
  pub outgoing_services : List (OutgoingServiceConfig C)
  pub incoming_services : List IncomingServiceConfig
  pub insecure_agent_connections : Bool

pub data Error : Type 0 where
  not_set : String → Error
  library : String → Error

abbrev pub or_default : ℕ → ℕ → ℕ
or_default default port = if eqb port 0 then default else port

-- A host name that has to be there.
abbrev pub insist : String → Option String → Result Error String
insist what none = err (not_set what)
insist what (some name) = ok name

unfoldable pub is_server_name : String → List String → Bool
is_server_name target [] = false
is_server_name target (a ∷ names) =
    let rest = is_server_name target names in if a == target then true else rest

-- `parseConfig` of main.go: `opened` is what `os.Open` comes to, `load` is `LoadConfig`.
unfoldable pub parse_config {ℓ} :
    {F : Type ℓ} {C : Type 0}
    → (F → Result Error (ControllerConfig C))
    → Result Error F
    → Result Error (ControllerConfig C)
parse_config load opened = do f ← opened; load f

-- `*c.ServiceHostname`, which panics where it is nil.
abbrev deref : Option String → Result Error String
deref none = panic
deref (some name) = ok name

module _ {C : Type 0} where
  unfoldable pub has_server_name : String → ControllerConfig C → Bool
  unfolding is_server_name
  has_server_name target c = is_server_name target c.server_names

  unfoldable pub add_if_missing : Option String → ControllerConfig C → ControllerConfig C
  unfolding has_server_name
  add_if_missing none c = c
  add_if_missing (some target) c =
      if not (has_server_name target c)
      then record c { server_names = c.server_names ++ target ∷ [] }
      else c

  unfoldable pub add_all_hostnames : ControllerConfig C → ControllerConfig C
  unfolding add_if_missing
  add_all_hostnames c =
      let c₁ = add_if_missing c.agent_hostname c in
      let c₂ = add_if_missing c₁.control_hostname c₁ in add_if_missing c₂.service_hostname c₂

  -- The ports and the path; the advertised port of agents is their listening port by default.
  unfoldable pub with_defaults : ControllerConfig C → ControllerConfig C
  with_defaults c =
      let listen = or_default 9001 c.agent_listen_port in
      record c {
        agent_listen_port = listen;
        agent_advertise_port = or_default listen c.agent_advertise_port;
        service_listen_port = or_default 9002 c.service_listen_port;
        control_listen_port = or_default 9003 c.control_listen_port;
        prometheus_listen_port = or_default 9102 c.prometheus_listen_port;
        service_auth = record (c.service_auth) {
          secrets_path =
              if is_empty_text c.service_auth.secrets_path
              then "/app/secrets/serviceAuth"
              else c.service_auth.secrets_path;
        };
      }

  -- `contents` is what `io.ReadAll` comes to, `unmarshal` is `yaml.Unmarshal`.
  unfoldable pub load_config {ℓ} :
      {B : Type ℓ}
      → (B → Result Error (ControllerConfig C))
      → Result Error B
      → Result Error (ControllerConfig C)
  unfolding with_defaults add_all_hostnames
  load_config unmarshal contents = do
    buf ← contents
    c ← unmarshal buf
    agent_name ← insist "agentHostname" c.agent_hostname
    service_name ← insist "serviceHostname" c.service_hostname
    control_name ← insist "controlHostname" c.control_hostname
    ok (add_all_hostnames (with_defaults c))

  unfoldable pub get_agent_advertise_port : ControllerConfig C → ℕ
  get_agent_advertise_port c = c.agent_advertise_port

  unfoldable pub get_control_listen_port : ControllerConfig C → ℕ
  get_control_listen_port c = c.control_listen_port

  unfoldable pub get_agent_hostname : ControllerConfig C → Result Error String
  get_agent_hostname c = deref c.agent_hostname

  -- The text of a URL is put together by the parameter `url_of`, `fmt.Sprintf`.
  unfoldable pub get_service_url : (String → ℕ → String) → ControllerConfig C → Result Error String
  get_service_url url_of c = do
    name ← deref c.service_hostname
    ok (url_of name c.service_listen_port)

  unfoldable pub get_control_url : (String → ℕ → String) → ControllerConfig C → Result Error String
  get_control_url url_of c = do
    name ← deref c.control_hostname
    ok (url_of name c.control_listen_port)
