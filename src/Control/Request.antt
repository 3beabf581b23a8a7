-- ===== src/Control/Request.antt =====
-- A client's request on its way through the controller to the instance that executes it at the agent.
use oes_birger.Prelude.{
  ℕ, String, ◌≡◌, ◌≢◌, refl, ◌∙◌, ap, true, List, [], ◌∷◌, ◌++◌, Memᴰ, Option, none, some, Result,
  ok, err, panic, >>=-eq-ok, arith, subst,
}
use oes_birger.Channel.{send, update}
use oes_birger.Jwt.{Registry, Mutation}
use oes_birger.Tunnel.Messages.{OpenHttpTunnelRequest}
use oes_birger.Tunnel.Headers.{make_headers}
use oes_birger.Service.Handler.{HttpRequest, waiting, send_request, run_api_handler}
use oes_birger.Route.Direct.{
  DirectlyConnectedRoute, Message, http_message, Search, send_route, has_endpoint,
}
use oes_birger.Route.Tracker.{ConnectedRoutes, Error, list_of, find_service, or_panic}
use oes_birger.Route.Tracker
use oes_birger.Route.Tracker.Find.{find_service-eq-ok_iff}

-- The request was sent to a route that provides the endpoint, and to no other.
pub record IsSent (ep ep' : Search) (message : Message) (s s' : ConnectedRoutes) : Type 0 where
  pub route : ℕ
  pub listed : Memᴰ route (list_of ep.name s)
  pub provides : has_endpoint ep.endpoint_type ep.endpoint_name (s.routes route) ≡ true
  pub sent : (s'.routes route).in_request.sent ≡ (s.routes route).in_request.sent ++ message ∷ []
  pub others : (q : ℕ) → q ≢ route → s'.routes q ≡ s.routes q
  pub session : ep' ≡ record ep { session = (s.routes route).session }

send_route-sent :
    (message : Message) (r : DirectlyConnectedRoute) (sent : DirectlyConnectedRoute × String)
    → send_route message r ≡ some sent
    → (sent.0.in_request.sent ≡ r.in_request.sent ++ message ∷ []) × (sent.1 ≡ r.session)
unfolding send_route send
send_route-sent message r sent e = ground arith

or_panic-inv {ℓ} :
    {A : Type ℓ} (o : Option A) (a : A) → ◌≡◌ {A = Result Error A} (or_panic o) (ok a) → o ≡ some a
or_panic-inv none a e = cc e
or_panic-inv (some b) a e = cc e

send-IsSent :
    (draw : ℕ) (ep : Search) (message : Message) (s s' : ConnectedRoutes) (session : String)
    → Tracker.send draw ep message s ≡ ok (session, s')
    → IsSent ep (record ep { session = session }) message s s'
unfolding Tracker.send update
send-IsSent draw ep message s s' session e =
    let (p, found, e₁) = >>=-eq-ok (find_service draw ep s) _ e in
    let (sent, f, g) = >>=-eq-ok (or_panic (send_route message (s.routes p))) _ e₁ in
    let (put, of) = send_route-sent message (s.routes p) sent (or_panic-inv _ sent f) in
    let (listed, provides) = (find_service-eq-ok_iff ep s p).0.0 (draw, found) in
    let same : s' ≡ record s { routes = update s.routes p sent.0 } = cc g in
    let named : session ≡ sent.1 = cc g in
    record {
      route = p;
      listed = listed;
      provides = provides;
      sent = rw same (ground arith);
      others = λ q other. rw same (ground arith);
      session = ap (λ t. record ep { session = t }) (named ∙ of);
    }

-- The request is the client's, under the id that was drawn for it, to the endpoint that was searched for.
pub record IsClients (reg : Registry) (m : Mutation) (now : ℕ) (transaction : String) (ep : Search)
    (r : HttpRequest) (req : OpenHttpTunnelRequest) : Type 0 where
  pub id : req.id ≡ transaction
  pub type : req.type ≡ ep.endpoint_type
  pub name : req.name ≡ ep.endpoint_name
  pub method : req.method ≡ r.method
  pub uri : req.uri ≡ r.request_uri
  pub body : r.body ≡ some req.body
  pub headers : make_headers reg m now r.header ≡ ok req.headers

waiting-inj :
    {a b : Search} {s t : ConnectedRoutes}
    → waiting a s ≡ waiting b t
    → ◌≡◌ {A = Search × ConnectedRoutes} (a, s) (b, t)
waiting-inj e = cc e

send_request-IsSent :
    (draw : ℕ) (ep ep' : Search) (routes routes' : ConnectedRoutes) (req : OpenHttpTunnelRequest)
    (out : ℕ) (reg : Registry) (m : Mutation) (now : ℕ)
    → send_request reg m now draw ep routes req out ≡ waiting ep' routes'
    → IsSent ep ep' (http_message (record { out = out; cmd = req })) routes routes'
unfolding send_request
send_request-IsSent draw ep ep' routes routes' req out reg m now e =
    came_to (Tracker.send draw ep message routes) refl
  where
    message : Message
    message = http_message (record { out = out; cmd = req })

    came_to :
        (sent : Result Error (String × ConnectedRoutes))
        → Tracker.send draw ep message routes ≡ sent
        → IsSent ep ep' message routes routes'
    came_to (err why) f = cc (rw (f, send_request) at e)
    came_to panic f = cc (rw (f, send_request) at e)
    came_to (ok (session, s')) f =
        let same : waiting (record ep { session = session }) s' ≡ waiting ep' routes' =
          rw (f, send_request) at e in
        subst (λ (t : Search × ConnectedRoutes). IsSent ep t.0 message routes t.1)
          (waiting-inj same) (send-IsSent draw ep message routes s' session f)

-- A client's request that is not refused, and does not panic, has been sent to just one route, which is listed
-- under the name that was searched for and provides the endpoint; the search has its session from then on. What
-- was sent is the client's request, with its method, URI and body and with the headers that MakeHeaders makes,
-- and the channel on which the client's handler waits.
pub run_api_handler-IsSent :
    (reg : Registry) (m : Mutation) (now draw : ℕ) (transaction : String) (out : ℕ)
    (routes routes' : ConnectedRoutes) (ep ep' : Search) (r : HttpRequest)
    → run_api_handler reg m now draw transaction out routes ep r ≡ waiting ep' routes'
    → (req : OpenHttpTunnelRequest) × IsClients reg m now transaction ep r req
      × IsSent ep ep' (http_message (record { out = out; cmd = req })) routes routes'
unfolding run_api_handler
run_api_handler-IsSent reg m now draw transaction out routes routes' ep ep' r e = read r.body refl
  where
    Forwarded : Type 0
    Forwarded =
        (req : OpenHttpTunnelRequest) × IsClients reg m now transaction ep r req
        × IsSent ep ep' (http_message (record { out = out; cmd = req })) routes routes'

    made :
        (body : List ℕ) (headers : Result _ _)
        → r.body ≡ some body
        → make_headers reg m now r.header ≡ headers
        → Forwarded
    made body (err why) b h = cc (rw (b, h, run_api_handler) at e)
    made body panic b h = cc (rw (b, h, run_api_handler) at e)
    made body (ok headers) b h =
        let req : OpenHttpTunnelRequest = record {
          id = transaction;
          type = ep.endpoint_type;
          name = ep.endpoint_name;
          method = r.method;
          uri = r.request_uri;
          headers = headers;
          body = body;
        } in
        (
          req,
          record {
            id = refl;
            type = refl;
            name = refl;
            method = refl;
            uri = refl;
            body = b;
            headers = h;
          },
          send_request-IsSent draw ep ep' routes routes' req out reg m now
              (rw (b, h, run_api_handler) at e),
        )

    read : (body : Option (List ℕ)) → r.body ≡ body → Forwarded
    read none b = cc (rw (b, run_api_handler) at e)
    read (some body) b = made body (make_headers reg m now r.header) b refl
