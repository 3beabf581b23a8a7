-- ===== src/Service/Config.antt =====
-- internal/serviceconfig/serviceconfig.go: the file of services. Reading and decoding it are arguments.
use oes_birger.Prelude.{List, Result, ◌>>=◌}
use oes_birger.Service.Credentials.{IncomingServiceConfig}
use oes_birger.Service.Endpoints.Configure.{OutgoingServiceConfig}

pub record ServiceConfig (C : Type 0) : Type 0 where
  pub outgoing_services : List (OutgoingServiceConfig C)
  pub incoming_services : List IncomingServiceConfig

unfoldable pub load_service_config {ℓ} :
    {B : Type ℓ} {C E : Type 0}
    → (B → Result E (ServiceConfig C))
    → Result E B
    → Result E (ServiceConfig C)
load_service_config unmarshal contents = do buf ← contents; unmarshal buf
