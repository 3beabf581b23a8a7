-- ===== src/Tests/Controllers.antt =====
-- The controller with one agent, which connects, greets and leaves.
use oes_birger.Prelude.{◌≡◌, ◌≢◌, refl, true, [], ◌∷◌, Option, some, lookup, insert, panic}
use oes_birger.Channel.{Chan, close, open_chan, update, send}
use oes_birger.Authority.{get_certificate_name_from_cert}
use oes_birger.Tunnel.Messages.{MessageWrapper, hello, make_bad_gateway_response}
use oes_birger.Route.Direct.{close_route, HttpMessage, http_message, Search}
use oes_birger.Route.Tracker
use oes_birger.Connection.{
  on_hello, welcome, introduce, send_webhook, hang_up, leave, received, end_of_stream, step,
  handle_http_request,
}
use oes_birger.Session
use oes_birger.Session.{close_all}
use oes_birger.Connection.Peer.{AuthInfo, tls_info, open_connection, get_agent_name_from_context}
use oes_birger.Controller.{
  Controller, greeted, start, Turn, connect, receive, disconnect, http_request, Reached, begin,
  later,
}
use oes_birger.Controller.Steps.{NeverPanics}
use oes_birger.Controller.Sound.{IsSound, Reached-IsSound}
use oes_birger.Controller.Progress.{Proceeds, Reached-Proceeds}
use oes_birger.Controller.Stranded.{IsStranded, requested, requested-IsStranded}
use oes_birger.Tests.Certificates.{certificate_with}
use oes_birger.Tests.Connections.{server, greeting}
use oes_birger.Tests.Routes.{routes}

abbrev peer : Option AuthInfo
peer = some (tls_info ((certificate_with ("json" ∷ []) ∷ []) ∷ []))

abbrev ci_request : HttpMessage
ci_request = record {
  out = 4;
  cmd = record {
    id = "r1";
    name = "ci";
    type = "jenkins";
    method = "GET";
    uri = "/";
    headers = [];
    body = [];
  };
}

record Run : Type 0 where
  last : Controller
  reached : Reached server (start routes) last

abbrev connected : Run
unfolding open_connection get_agent_name_from_context get_certificate_name_from_cert
connected = record {
  last = _;
  reached = later begin (connect 3 peer "s1" 9 (λ _. open_chan) _ refl refl);
}

abbrev in_use : Run
unfolding open_connection get_agent_name_from_context get_certificate_name_from_cert step on_hello
    welcome introduce send_webhook Tracker.add handle_http_request update
in_use = record {
  last = _;
  reached =
      later
        (later connected.reached
          (receive 3 5000000 true (received (hello greeting)) greeted _ refl refl))
        (http_request 3 ci_request refl);
}

abbrev over : Run
unfolding open_connection get_agent_name_from_context get_certificate_name_from_cert step on_hello
    welcome introduce send_webhook Tracker.add handle_http_request update hang_up close_all
    Tracker.remove Tracker.take_out leave Session.add insert close close_route
over = record {
  last = _;
  reached = later in_use.reached (disconnect 3 6000000 true true end_of_stream greeted _ refl refl);
}

server-NeverPanics : NeverPanics server.lib
server-NeverPanics = record { reads = λ bytes e. cc e; unmarshals = λ text e. cc e }

Reached-IsSound_example : IsSound over.last
Reached-IsSound_example = Reached-IsSound server routes over.last server-NeverPanics over.reached

abbrev searched : Search
searched = record { name = "json"; endpoint_type = "jenkins"; endpoint_name = "ci"; session = "s1" }

Reached-Proceeds_example :
    Proceeds server in_use.last 3 7000000 true end_of_stream
    × (Tracker.send 1 searched (http_message ci_request) in_use.last.routes ≢ panic)
    × (Tracker.cancel searched "r1" in_use.last.routes ≢ panic)
    × ((sent : Chan MessageWrapper) × (send
            (make_bad_gateway_response "r2")
            (in_use.last.ends 3).dataflow
          ≡ some sent))
Reached-Proceeds_example =
    Reached-Proceeds server routes in_use.last 3 7000000 true end_of_stream 1 searched
      (http_message ci_request) "r1" (make_bad_gateway_response "r2") server-NeverPanics
      in_use.reached

abbrev second_request : HttpMessage
second_request = record { out = 5; cmd = record ci_request.cmd { id = "r2" } }

-- Two clients come after the agent has left.
abbrev late : Controller
late = requested (requested over.last 3 ci_request) 3 second_request

requested-IsStranded_example :
    Turn server over.last (requested over.last 3 ci_request)
    × (lookup "r1" ((requested over.last 3 ci_request).ends 3).sessions.m ≡ some 4)
    × IsStranded late 3 4
unfolding open_connection get_agent_name_from_context get_certificate_name_from_cert step on_hello
    welcome introduce send_webhook Tracker.add handle_http_request update hang_up close_all
    Tracker.remove Tracker.take_out leave Session.add insert close close_route
requested-IsStranded_example =
    requested-IsStranded server over.last 3 ci_request late refl refl
      (later begin (http_request 3 second_request refl))
