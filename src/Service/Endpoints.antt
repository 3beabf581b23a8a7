-- ===== src/Service/Endpoints.antt =====
-- internal/serviceconfig/endpoints.go: the services that are configured, and how they are announced.
pub mod Configure
pub mod Ready
pub mod Backed
use oes_birger.Prelude.{String, Bool, List, ℕ, map}
use oes_birger.Tunnel.Messages.{EndpointHealth}
use oes_birger.Tunnel.AgentInfo.{annotations_to_pb}

-- `instance` is the reference of the object that executes requests.
pub record ConfiguredEndpoint : Type 0 where
  pub name : String
  pub type : String
  pub configured : Bool
  pub annotations : List (String × String)
  pub namespace : List String
  pub account_id : String
  pub assume_role : String
  pub executor : ℕ

unfoldable pub endpoint_to_pb : ConfiguredEndpoint → EndpointHealth
endpoint_to_pb ep = record {
  name = ep.name;
  type = ep.type;
  configured = ep.configured;
  annotations = annotations_to_pb ep.annotations;
  namespaces = ep.namespace;
  account_id = ep.account_id;
  assume_role = ep.assume_role;
}

unfoldable pub endpoints_to_pb : List ConfiguredEndpoint → List EndpointHealth
unfolding endpoint_to_pb
endpoints_to_pb = map endpoint_to_pb
