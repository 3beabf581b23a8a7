-- ===== src/Cnc/Paths.antt =====
-- app/forwarder-controller/cncserver/cnc-server.go, `routes`: which handler a path of the control API has,
-- and the method that it is behind `authenticate` with.
use oes_birger.Prelude.{String, ◌==◌, Option, none, some, if◌then◌else◌}
use oes_birger.Fwdapi.{
  kubeconfig_endpoint, manifest_endpoint, service_endpoint, statistics_endpoint, control_endpoint,
}

pub data Handler : Type 0 where
  kubectl_components agent_manifest service_credentials control_credentials statistics : Handler

pub record Route : Type 0 where
  pub method : String
  pub handler : Handler

unfoldable pub control_route : String → Option Route
control_route path =
    if path == kubeconfig_endpoint
    then some (record { method = "POST"; handler = kubectl_components })
    else if path == manifest_endpoint
    then some (record { method = "POST"; handler = agent_manifest })
    else if path == service_endpoint
    then some (record { method = "POST"; handler = service_credentials })
    else if path == control_endpoint
    then some (record { method = "POST"; handler = control_credentials })
    else if path == statistics_endpoint
    then some (record { method = "GET"; handler = statistics })
    else none
