-- ===== src/Tests/Calls.antt =====
-- A client's call as a whole, with headers of which one is signed on its way.
use oes_birger.Prelude.{
  pos, negsuc, ◌≡◌, refl, arith, [], ◌∷◌, ok, some, lookup, insert, true, false,
}
use oes_birger.Channel.{open_chan, update}
use oes_birger.Jwt.{mutate_header}
use oes_birger.Text.{equal_fold}
use oes_birger.Tunnel.Messages.{OpenHttpTunnelRequest}
use oes_birger.Tunnel.Headers.{make_headers, make_header, is_mutated, contains_folded}
use oes_birger.Tunnel.Request.{HttpResponse, no_error, eof}
use oes_birger.Service.Endpoints.{ConfiguredEndpoint}
use oes_birger.Route.Direct.{Message, http_message, Search, send_route, has_endpoint}
use oes_birger.Route.Tracker.{ConnectedRoutes, add, make_routes, find_service}
use oes_birger.Route.Tracker
use oes_birger.Service.Handler.{HttpRequest, waiting, send_request, run_api_handler}
use oes_birger.Control.{TunnelEnd, find_endpoint}
use oes_birger.Control.Request.{IsClients, IsSent}
use oes_birger.Control.Call.{with_request, IsExecuted, IsAnswered, run_api_handler-IsAnswered}
use oes_birger.Tests.Routes.{routes, nobody}
use oes_birger.Tests.Tokens.{tokens, sign}
use oes_birger.Tests.Headers.{mutating, headers, made}

abbrev one : ConnectedRoutes
one = add 3 nobody

abbrev searched : Search
searched = record { name = "agent1"; endpoint_type = "jenkins"; endpoint_name = "ci"; session = "" }

abbrev message : Message
message = http_message (record {
  out = 9;
  cmd = record {
    id = "t1";
    type = "jenkins";
    name = "ci";
    method = "POST";
    uri = "/build?now";
    headers = made;
    body = 33 ∷ [];
  };
})

abbrev sent : ConnectedRoutes
sent = record one {
  routes =
      update one.routes 3
        (record (routes 3) { in_request = record { sent = message ∷ []; closed = false } });
}

abbrev from_client : HttpRequest
from_client = record {
  method = "POST";
  request_uri = "/build?now";
  header = headers;
  body = some (33 ∷ []);
}

abbrev found : Search
found = record searched { session = "s1" }

from_client-waits :
    run_api_handler tokens mutating 10 0 "t1" 9 one searched from_client ≡ waiting found sent
unfolding run_api_handler send_request make_headers make_header is_mutated contains_folded
    equal_fold mutate_header sign Tracker.send find_service send_route has_endpoint add lookup
    insert make_routes
from_client-waits = refl

-- Either end of the tunnel, before any request.
abbrev tunnel_end : TunnelEnd
tunnel_end = record {
  sessions = record { m = [] };
  chans = λ c. open_chan;
  cancels = record { m = []; cancelled = [] };
  spawned = [];
  dataflow = open_chan;
}

abbrev served : ConfiguredEndpoint
served = record {
  name = "ci";
  type = "jenkins";
  configured = true;
  annotations = [];
  namespace = [];
  account_id = "";
  assume_role = "";
  executor = 2;
}

abbrev response : HttpResponse
response = record {
  status_code = pos 404;
  header = headers;
  content_length = negsuc 0;
  reads =
      record { bytes = 104 ∷ 105 ∷ []; error = no_error }
      ∷ record { bytes = 33 ∷ []; error = eof }
      ∷ [];
}

headers-made : make_headers tokens mutating 12 headers ≡ ok made
unfolding make_headers make_header is_mutated contains_folded equal_fold mutate_header sign
headers-made = refl

run_api_handler-IsAnswered_example :
    (req : OpenHttpTunnelRequest) × IsClients tokens mutating 10 "t1" searched from_client req
    × IsSent searched found (http_message (record { out = 9; cmd = req })) one sent
    × IsExecuted (served ∷ []) served 9 req tunnel_end tunnel_end
    × IsAnswered tokens mutating 12 "agent1" [] req response made 404 9 []
        (with_request tunnel_end 9 req)
unfolding find_endpoint
run_api_handler-IsAnswered_example =
    run_api_handler-IsAnswered tokens tokens mutating mutating 10 12 0 "t1" 9 one sent searched
      found from_client "agent1" [] (served ∷ []) served tunnel_end tunnel_end response made 404 []
      from_client-waits refl refl headers-made refl (omega arith) tt
