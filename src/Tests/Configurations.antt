-- ===== src/Tests/Configurations.antt =====
-- The configuration of the controller.
use oes_birger.Prelude.{String, ◌≡◌, refl, false, [], ◌∷◌, some, Result, ok, arith, subst}
use oes_birger.Text.{is_empty_text}
use oes_birger.Config.Controller.{ControllerConfig, Error, load_config}
use oes_birger.Config.Controller.Loaded.{HasPorts, IsServable, load_config-IsServable}

abbrev pub written : ControllerConfig String
written = record {
  agents = [];
  service_auth = record {
    current_key_name = "key1";
    header_mutation_key_name = "key1";
    secrets_path = "";
  };
  webhook = "";
  server_names = "forwarder" ∷ [];
  ca_config = record { ca_cert_file = ""; ca_key_file = "" };
  prometheus_listen_port = 0;
  service_hostname = some "service.example";
  service_listen_port = 0;
  control_hostname = some "forwarder";
  control_listen_port = 8443;
  agent_hostname = some "agents.example";
  agent_listen_port = 0;
  agent_advertise_port = 0;
  outgoing_services = [];
  incoming_services = [];
  insecure_agent_connections = false;
}

abbrev pub loaded : ControllerConfig String
loaded = record written {
  service_auth = record {
    current_key_name = "key1";
    header_mutation_key_name = "key1";
    secrets_path = "/app/secrets/serviceAuth";
  };
  server_names = "forwarder" ∷ "agents.example" ∷ "service.example" ∷ [];
  prometheus_listen_port = 9102;
  service_listen_port = 9002;
  agent_listen_port = 9001;
  agent_advertise_port = 9001;
}

abbrev pub decoder : String → Result Error (ControllerConfig String)
decoder text = ok written

pub decoder-HasPorts :
    (buf : String) (read : ControllerConfig String) → decoder buf ≡ ok read → HasPorts read
decoder-HasPorts buf read e =
    let same : written ≡ read = cc e in
    subst HasPorts same (record {
      agent = omega arith;
      advertised = omega arith;
      service = omega arith;
      control = omega arith;
      prometheus = omega arith;
    })

load_config-IsServable_example : IsServable loaded
unfolding load_config is_empty_text
load_config-IsServable_example =
    load_config-IsServable decoder (ok "file") loaded decoder-HasPorts refl
