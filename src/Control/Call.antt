-- ===== src/Control/Call.antt =====
-- A client's call as a whole: the request to the agent, and the service's response back to the client.
use oes_birger.Prelude.{
  ℕ, pos, ◌<◌, ◌^◌, String, ◌≡◌, ap, ◌∙◌, refl, List, [], ◌∷◌, ◌++◌, ◌||◌, some, if◌then◌else◌, ok,
  is_zero, false, lookup-insert, eq_refl, arith,
}
use oes_birger.Channel.{open_chan}
use oes_birger.Jwt.{Registry, Mutation}
use oes_birger.Tunnel.Messages.{
  HttpHeader, OpenHttpTunnelRequest, http_tunnel_control, open_http_tunnel_request,
  make_http_tunnel_open_tunnel_request,
}
use oes_birger.Tunnel.Headers.{Header, make_headers}
use oes_birger.Tunnel.Request.{HttpResponse, Run, run_http_request}
use oes_birger.Tunnel.Request.Framing.{bytes_read, ending, is_announced}
use oes_birger.Session
use oes_birger.Session.{find_unlocked}
use oes_birger.Service.Endpoints.{ConfiguredEndpoint}
use oes_birger.Service.Handler.Headers.{IsCanonical}
use oes_birger.Service.Handler.{HttpRequest, waiting, run_api_handler}
use oes_birger.Route.Direct.{http_message, Search}
use oes_birger.Route.Tracker.{ConnectedRoutes}
use oes_birger.Control.{
  TunnelEnd, find_endpoint, open_request, agent_handle_http_control, handle_http_control,
}
use oes_birger.Control.Delivery.{receive, Awaits}
use oes_birger.Control.EndToEnd.{Answered, run_http_request-Answered}
use oes_birger.Control.Request.{IsClients, IsSent, run_api_handler-IsSent}
use oes_birger.Connection.{handle_http_request}

-- The request as the endpoints are searched for it.
abbrev pub wanted : Search → OpenHttpTunnelRequest
wanted ep = record {
  id = "";
  type = ep.endpoint_type;
  name = ep.endpoint_name;
  method = "";
  uri = "";
  headers = [];
  body = [];
}

find_endpoint-same :
    (endpoints : List ConfiguredEndpoint) (req req' : OpenHttpTunnelRequest)
    → req.type ≡ req'.type
    → req.name ≡ req'.name
    → find_endpoint endpoints req ≡ find_endpoint endpoints req'
unfolding find_endpoint
find_endpoint-same [] req req' type name = refl
find_endpoint-same (e ∷ endpoints) req req' type name =
    ground (arith, find_endpoint-same endpoints req req' type name, type, name)

-- The controller's end of the tunnel after the goroutine of the route has taken the request.
abbrev pub with_request : TunnelEnd → ℕ → OpenHttpTunnelRequest → TunnelEnd
with_request t out req = (handle_http_request (http_message (record { out = out; cmd = req })) t).0

-- The goroutine of the route sends the request on the tunnel, and the agent executes it by `e`.
pub record IsExecuted (endpoints : List ConfiguredEndpoint) (e : ConfiguredEndpoint) (out : ℕ)
    (req : OpenHttpTunnelRequest) (t agent_end : TunnelEnd) : Type 0 where
  pub passed_on :
      (handle_http_request (http_message (record { out = out; cmd = req })) t).1
      ≡ http_tunnel_control (open_http_tunnel_request req) ∷ []
  pub spawned :
      agent_handle_http_control endpoints (open_http_tunnel_request req) agent_end
      ≡ some (record agent_end {
        spawned =
            agent_end.spawned ++ record { executor = e.executor; agent_name = ""; req = req } ∷ [];
      })

found-IsExecuted :
    (endpoints : List ConfiguredEndpoint) (e : ConfiguredEndpoint) (out : ℕ)
    (req : OpenHttpTunnelRequest) (t agent_end : TunnelEnd)
    → find_endpoint endpoints req ≡ some e
    → IsExecuted endpoints e out req t agent_end
unfolding handle_http_request make_http_tunnel_open_tunnel_request agent_handle_http_control
    handle_http_control open_request
found-IsExecuted endpoints e out req t agent_end found = record {
  passed_on = refl;
  spawned = rw (found, open_request) refl;
}

with_request-Awaits :
    (t : TunnelEnd) (out : ℕ) (req : OpenHttpTunnelRequest)
    → (t.chans out).closed ≡ false
    → Awaits (with_request t out req) req.id out
unfolding handle_http_request find_unlocked Session.add
with_request-Awaits t out req opened =
    (ground (arith, lookup-insert req.id req.id out t.sessions.m, eq_refl req.id), opened)

with_request-sent :
    (t : TunnelEnd) (out : ℕ) (req : OpenHttpTunnelRequest)
    → (t.chans out).sent ≡ []
    → ((with_request t out req).chans out).sent ≡ []
unfolding handle_http_request
with_request-sent t out req fresh = fresh

-- The agent's service has answered `req`, and its answer was handled at the controller's end: the client has it.
pub record IsAnswered (reg : Registry) (m : Mutation) (now : ℕ) (agent_name : String)
    (endpoints : List ConfiguredEndpoint) (req : OpenHttpTunnelRequest) (response : HttpResponse)
    (headers : List HttpHeader) (status : ℕ) (out : ℕ) (h : Header) (t : TunnelEnd) : Type 0 where
  pub run : Run
  pub t' : TunnelEnd
  pub ran : run_http_request reg m now req (some response) ≡ ok run
  pub received : receive agent_name endpoints run.sent t ≡ some t'
  pub answered :
      Answered t' out h
        (pos status)
        headers
        (if is_zero response.content_length then [] else bytes_read response.reads)
        (is_zero response.content_length || is_announced (ending response.reads))

-- If a client's request is not refused, and does not panic, then it has been sent to just one route, which is
-- listed under the name that was searched for and provides the endpoint, with the client's method, URI and
-- body, and the headers that MakeHeaders makes. The goroutine of that route sends it on the tunnel, and an
-- agent with the endpoint has the endpoint's instance execute it. If the service there responds with a
-- status in the range of int32 and with headers that can be made, and the channel of the client's handler
-- was new, then the response, which is sent as soon as the request has been taken, is handled at the
-- controller without a panic. Then, if every write to the client succeeds in full and the channel stays open,
-- the client is sent that one status and exactly the bytes read from the body before the first error, in
-- order, or no bytes if the content length is 0; its handler is done unless the body is still being read or
-- its reading was cancelled. If the names in the writer's header are spelled as net/http spells them, the
-- client is sent, under each name, just the values that those headers have for it, in order.
pub run_api_handler-IsAnswered :
    (reg agent_reg : Registry) (m agent_m : Mutation) (now agent_now draw : ℕ)
    (transaction : String) (out : ℕ) (routes routes' : ConnectedRoutes) (ep ep' : Search)
    (r : HttpRequest) (agent_name : String) (endpoints agent_endpoints : List ConfiguredEndpoint)
    (e : ConfiguredEndpoint) (t agent_end : TunnelEnd) (response : HttpResponse)
    (headers : List HttpHeader) (status : ℕ) (h : Header)
    → run_api_handler reg m now draw transaction out routes ep r ≡ waiting ep' routes'
    → find_endpoint agent_endpoints (wanted ep) ≡ some e
    → t.chans out ≡ open_chan
    → make_headers agent_reg agent_m agent_now response.header ≡ ok headers
    → response.status_code ≡ pos status
    → status < 2 ^ 31
    → IsCanonical h
    → (req : OpenHttpTunnelRequest) × IsClients reg m now transaction ep r req
      × IsSent ep ep' (http_message (record { out = out; cmd = req })) routes routes'
      × IsExecuted agent_endpoints e out req t agent_end
      × IsAnswered agent_reg agent_m agent_now agent_name endpoints req response headers status out
          h
          (with_request t out req)
run_api_handler-IsAnswered reg agent_reg m agent_m now agent_now draw transaction out routes routes'
      ep ep' r agent_name endpoints agent_endpoints e t agent_end response headers status h waits
      found fresh made code small canonical =
    let (req, clients, sent) =
      run_api_handler-IsSent reg m now draw transaction out routes routes' ep ep' r waits in
    let same = find_endpoint-same agent_endpoints req (wanted ep) clients.type clients.name in
    let (run, t', ran, received, answered) =
      run_http_request-Answered agent_reg agent_m agent_now agent_name endpoints req response
        headers status (with_request t out req) out h made code small
        (with_request-Awaits t out req (ap (λ c. c.closed) fresh))
        (with_request-sent t out req (ap (λ c. c.sent) fresh)) canonical in
    (
      req,
      clients,
      sent,
      found-IsExecuted agent_endpoints e out req t agent_end (same ∙ found),
      record { run = run; t' = t'; ran = ran; received = received; answered = answered },
    )
