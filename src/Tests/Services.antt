-- ===== src/Tests/Services.antt =====
-- Services that are configured, and a request for one of them.
use oes_birger.Prelude.{
  String, ℕ, ◌≡◌, ◌⊎◌, refl, true, false, [], ◌∷◌, ◌++◌, List, none, some, ok, err,
}
use oes_birger.Channel.{Chan, send}
use oes_birger.Tunnel.Messages.{MessageWrapper, OpenHttpTunnelRequest, make_bad_gateway_response}
use oes_birger.Service.Generic.{Credentials, load_secrets}
use oes_birger.Service.Generic.Make.{make_generic_endpoint}
use oes_birger.Service.Aws.Make
use oes_birger.Service.Endpoints.{ConfiguredEndpoint}
use oes_birger.Service.Endpoints.Configure.{
  OutgoingServiceConfig, Instance, generic, Libraries, configure_endpoints,
}
use oes_birger.Control.{TunnelEnd, handle_http_control, find_endpoint}
use oes_birger.Control.Spawned.{ServedBy, open_http_tunnel_request-ServedBy}
use oes_birger.Tests.Kubernetes.{platform, request}
use oes_birger.Tests.Responses.{waiting}

abbrev credentials : Credentials
credentials = record {
  type = "none";
  username = "";
  password = "";
  token = "";
  secret_name = "";
  raw_username = "";
  raw_password = "";
  raw_token = "";
}

-- The part of the file that a service reads is its URL here.
abbrev pub libraries : Libraries String
libraries = record {
  marshal = λ url. ok [];
  platform = platform;
  unmarshal_aws = λ bytes. err (Make.Error.library "no configuration");
  new_session = ok "session";
  unmarshal_generic =
      λ bytes. ok (record { url = "https://ci/"; insecure = false; credentials = credentials });
  decode = λ text. ok text;
}

abbrev jenkins : OutgoingServiceConfig String
jenkins = record {
  enabled = true;
  name = "ci";
  type = "jenkins";
  config = "https://ci/";
  annotations = [];
  namespaces = [];
  account_id = "";
  assume_role = "";
}

abbrev services : List (OutgoingServiceConfig String)
services = record jenkins { enabled = false } ∷ jenkins ∷ []

abbrev endpoint : ConfiguredEndpoint
endpoint = record {
  name = "ci";
  type = "jenkins";
  configured = true;
  annotations = [];
  namespace = [];
  account_id = "";
  assume_role = "";
  executor = 0;
}

abbrev instance_of_ci : Instance
instance_of_ci = generic (record {
  endpoint_type = "jenkins";
  endpoint_name = "ci";
  url = "https://ci";
  insecure = false;
  credentials = credentials;
})

configured : configure_endpoints libraries none services ≡ ok (endpoint ∷ [], instance_of_ci ∷ [])
unfolding configure_endpoints make_generic_endpoint load_secrets
configured = refl

abbrev for_ci : OpenHttpTunnelRequest
for_ci = record request { type = "jenkins"; name = "ci" }

abbrev opened : TunnelEnd
opened = record waiting {
  spawned = waiting.spawned ++ record { executor = 0; agent_name = "agent1"; req = for_ci } ∷ [];
}

open_http_tunnel_request-ServedBy_example :
    ((executor : ℕ) × ServedBy (instance_of_ci ∷ []) for_ci executor
      × (opened ≡ record waiting {
        spawned =
            waiting.spawned
            ++ record { executor = executor; agent_name = "agent1"; req = for_ci } ∷ [];
      }))
    ⊎ ((dataflow : Chan MessageWrapper) × (send (make_bad_gateway_response "r1") waiting.dataflow
          ≡ some dataflow)
        × (opened ≡ record waiting { dataflow = dataflow }))
unfolding handle_http_control find_endpoint
open_http_tunnel_request-ServedBy_example =
    open_http_tunnel_request-ServedBy libraries none services (endpoint ∷ []) (instance_of_ci ∷ [])
      "agent1" for_ci waiting opened configured refl
