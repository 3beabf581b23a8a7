-- ===== src/Controller.antt =====
-- app/forwarder-controller/grpc-server.go and main.go: the controller with all its connections. What its
-- goroutines do is a sequence of turns in any order: one for each iteration of a loop of a connection
-- (`EventTunnel`, `handleHTTPRequests`, `handleHTTPCancelRequest`, `dataflowHandler`), one for each
-- call of the service API on the routes, and one for each message of a request in progress.
pub mod Steps
pub mod Events
pub mod Sound
pub mod Progress
pub mod Stranded
use oes_birger.Prelude.{
  ℕ, zero, suc, String, ◌≡◌, Bool, true, false, if◌then◌else◌, List, [], ◌∷◌, ◌++◌, Option, none,
  some, ok,
}
use oes_birger.Channel.{Chan, send, open_chan, update}
use oes_birger.Tunnel.Messages.{MessageWrapper, hello}
use oes_birger.Tunnel.Cancel.{CancelRegistry, Op}
use oes_birger.Tunnel.Cancel
use oes_birger.Session.{Chans, make_session_list}
use oes_birger.Session.CloseAll.{holds}
use oes_birger.Route.Direct.{
  DirectlyConnectedRoute, HttpMessage, Message, Search, http_message, unexpected,
}
use oes_birger.Route.Tracker.{ConnectedRoutes, make_routes}
use oes_birger.Route.Tracker
use oes_birger.Control.{TunnelEnd}
use oes_birger.Connection.{
  AgentTunnelServer, BaseStatistics, Connection, Incoming, received, continues, returned, step,
  handle_http_request, handle_http_cancel_request,
}
use oes_birger.Connection.Peer.{AuthInfo, open_connection}

-- How far a connection is: not begun, before its greeting, after it, or `EventTunnel` has returned.
pub data Phase : Type 0 where
  absent fresh greeted gone : Phase

-- The connections by the references of their routes. The registry of cancel functions is the program's,
-- and stands in the place of that of each end.
pub record Controller : Type 0 where
  pub routes : ConnectedRoutes
  pub phase : ℕ → Phase
  pub ends : ℕ → TunnelEnd
  pub cancels : CancelRegistry
  pub streams : ℕ → List MessageWrapper
  pub hooks : List BaseStatistics

-- The end of a connection that has not begun.
abbrev pub no_end : TunnelEnd
no_end = record {
  sessions = make_session_list;
  chans = λ _. open_chan;
  cancels = record { m = []; cancelled = [] };
  spawned = [];
  dataflow = open_chan;
}

abbrev pub start : (ℕ → DirectlyConnectedRoute) → Controller
start objects = record {
  routes = make_routes objects;
  phase = λ _. absent;
  ends = λ _. no_end;
  cancels = record { m = []; cancelled = [] };
  streams = λ _. [];
  hooks = [];
}

-- What `EventTunnel` of one connection works on.
abbrev pub connection : Controller → ℕ → Connection
connection k p = record {
  state = p;
  routes = k.routes;
  tunnel_end = record (k.ends p) { cancels = k.cancels };
  stream = k.streams p;
  hooks = k.hooks;
}

abbrev pub after : Controller → ℕ → Phase → Connection → Controller
after k p ph c = record {
  routes = c.routes;
  phase = update k.phase p ph;
  ends = update k.ends p c.tunnel_end;
  cancels = c.tunnel_end.cancels;
  streams = update k.streams p c.stream;
  hooks = c.hooks;
}

abbrev pub is_greeting : Incoming → Bool
is_greeting (received (hello req)) = true
is_greeting m = false

-- What may arrive: an agent greets once, and nothing is received by a handler that is not running.
abbrev pub admits : Phase → Incoming → Option Phase
admits absent m = none
admits gone m = none
admits fresh m = some (if is_greeting m then greeted else fresh)
admits greeted m = if is_greeting m then none else some greeted

-- A goroutine's effect on an end, with what it sends on the stream.
abbrev pub with_end : Controller → ℕ → TunnelEnd × List MessageWrapper → Controller
with_end k p (t, messages) = record k {
  ends = update k.ends p t;
  streams = update k.streams p (k.streams p ++ messages);
}

abbrev pub with_out : TunnelEnd → ℕ → TunnelEnd
with_out t out = record t { chans = update t.chans out open_chan }

-- A send on the stream that fails is only logged by the goroutines, so that a turn of theirs may leave
-- less on the stream than is written here; no turn reads it.
pub data Turn (s : AgentTunnelServer) (k : Controller) : Controller → Type 0 where
  connect :
      (p : ℕ) (peer : Option AuthInfo) (session : String) (now : ℕ) (chans : Chans) (c : Connection)
      → k.phase p ≡ absent
      → open_connection s peer p session now chans k.cancels k.routes ≡ ok c
      → Turn s k (after k p fresh c)
  receive :
      (p : ℕ) (nanos : ℕ) (sends : Bool) (m : Incoming) (ph : Phase) (c : Connection)
      → admits (k.phase p) m ≡ some ph
      → step s nanos sends m (connection k p) ≡ continues c
      → Turn s k (after k p ph c)
  disconnect :
      (p : ℕ) (nanos : ℕ) (sends clean : Bool) (m : Incoming) (ph : Phase) (c : Connection)
      → admits (k.phase p) m ≡ some ph
      → step s nanos sends m (connection k p) ≡ returned clean c
      → Turn s k (after k p gone c)
  -- The channel is new: `run_api_handler` makes one for each request.
  http_request :
      (p : ℕ) (value : HttpMessage)
      → holds value.out (k.ends p).sessions.m ≡ false
      → Turn s k
          (with_end k p (handle_http_request (http_message value) (with_out (k.ends p) value.out)))
  http_cancel :
      (p : ℕ) (id : String) → Turn s k (with_end k p (handle_http_cancel_request id (k.ends p)))
  respond :
      (p : ℕ) (message : MessageWrapper) (sent : Chan MessageWrapper)
      → send message (k.ends p).dataflow ≡ some sent
      → Turn s k (with_end k p (record (k.ends p) { dataflow = sent }, message ∷ []))
  -- A request in progress, or its end, at the registry.
  registry : (op : Op) → Turn s k (record k { cancels = Cancel.step op k.cancels })
  client_send :
      (draw : ℕ) (ep : Search) (message : Message) (session : String) (routes : ConnectedRoutes)
      → Tracker.send draw ep message k.routes ≡ ok (session, routes)
      → Turn s k (record k { routes = routes })
  client_cancel :
      (ep : Search) (id : String) (routes : ConnectedRoutes)
      → Tracker.cancel ep id k.routes ≡ ok routes
      → Turn s k (record k { routes = routes })

-- The states that the controller comes to.
pub data Reached (s : AgentTunnelServer) (k₀ : Controller) : Controller → Type 0 where
  begin : Reached s k₀ k₀
  later : {k k' : Controller} → Reached s k₀ k → Turn s k k' → Reached s k₀ k'
