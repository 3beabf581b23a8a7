-- ===== src/Service/Handler.antt =====
-- internal/serviceconfig/service_server.go: a client's request on its way to a route, and the
-- response on its way back. The writer is a record of the calls made on it; how the calls of `Write`
-- come out is up to the connection, the parameter `accept`.
pub mod Headers
pub mod Response
use oes_birger.Prelude.{
  ℕ, ℤ, pos, is_zero, is_negative, String, Bool, true, false, not, List, [], ◌∷◌, ◌++◌, Option,
  none, some, delete, length, eqb, if◌then◌else◌, Result, ok, err, panic,
}
use oes_birger.Text.{canonical_key}
use oes_birger.Jwt.{Registry, Mutation}
use oes_birger.Tunnel.Messages.{
  MessageWrapper, HttpHeader, HttpTunnelControl, HttpTunnelResponse, HttpTunnelChunkedResponse,
  OpenHttpTunnelRequest, http_tunnel_control, open_http_tunnel_request, cancel_request,
  http_tunnel_response, http_tunnel_chunked_response, no_control,
}
use oes_birger.Tunnel.Headers.{Header, header_add_all, make_headers}
use oes_birger.Route.Direct.{Search, Message, http_message}
use oes_birger.Route.Tracker.{ConnectedRoutes}
use oes_birger.Route.Tracker

pub data Call : Type 0 where
  write_header : ℤ → Call
  write : List ℕ → Call
  flush : Call

pub record Writer : Type 0 where
  pub header : Header
  pub calls : List Call

pub data WriteOutcome : Type 0 where
  wrote : ℕ → WriteOutcome
  write_error : WriteOutcome

pub record HandlerState : Type 0 where
  pub seen_header : Bool
  pub is_chunked : Bool
  pub clean_close : Bool

abbrev pub initial : HandlerState
initial = record { seen_header = false; is_chunked = false; clean_close = false }

-- The second component of a step: whether the handler is done with the request.
pub record Progress : Type 0 where
  pub done : Bool
  pub state : HandlerState
  pub writer : Writer

unfoldable pub call : Call → Writer → Writer
call c w = record w { calls = w.calls ++ c ∷ [] }

-- The names are those of the header itself, as it was before the loop.
unfoldable pub clear : Header → Header → Header
clear [] h = h
clear ((name, values) ∷ names) h = clear names (delete (canonical_key name) h)

unfoldable pub add_headers : List HttpHeader → Header → Header
add_headers [] h = h
add_headers (header ∷ headers) h = add_headers headers (header_add_all header.name header.values h)

unfoldable pub copy_headers : HttpTunnelResponse → Writer → Writer
unfolding clear add_headers
copy_headers resp w = record w { header = add_headers resp.headers (clear w.header w.header) }

module _ (accept : List Call → List ℕ → WriteOutcome) where
  unfoldable pub handle_response : HandlerState → HttpTunnelResponse → Writer → Progress
  unfolding copy_headers call
  handle_response state resp w =
      let w' = call (write_header resp.status) (copy_headers resp w) in
      let state' : HandlerState = record state {
        seen_header = true;
        is_chunked = is_negative resp.content_length;
      } in
      if is_zero resp.content_length
      then record { done = true; state = record state' { clean_close = true }; writer = w' }
      else record { done = false; state = state'; writer = w' }

  -- A packet that is not empty, once the header is written.
  unfoldable pub handle_data : HandlerState → List ℕ → Writer → Progress
  unfolding call
  handle_data state body w =
      let w' = call (write body) w in
      elim (accept w.calls body) [
        | write_error ↦ record { done = true; state = state; writer = w' }
        | wrote n ↦
            if eqb n (length body)
            then record {
              done = false;
              state = state;
              writer = if state.is_chunked then call flush w' else w';
            }
            else record { done = true; state = state; writer = w' }
      ]

  unfoldable pub handle_chunk : HandlerState → List ℕ → Writer → Progress
  unfolding handle_data call
  handle_chunk state [] w =
      if state.seen_header
      then record { done = true; state = record state { clean_close = true }; writer = w }
      else record { done = true; state = state; writer = call (write_header (pos 502)) w }
  handle_chunk state (b ∷ body) w =
      if state.seen_header
      then handle_data state (b ∷ body) w
      else record { done = true; state = state; writer = call (write_header (pos 502)) w }

  unfoldable pub handle_tunnel_control : HandlerState → HttpTunnelControl → Writer → Progress
  unfolding handle_response handle_chunk
  handle_tunnel_control state (http_tunnel_response resp) w = handle_response state resp w
  handle_tunnel_control state (http_tunnel_chunked_response resp) w = handle_chunk state resp.body w
  handle_tunnel_control state _ w = record { done = false; state = state; writer = w }

  -- The loop over what arrives on the channel, which is closed behind the list or not.
  unfoldable pub serve : Bool → List MessageWrapper → HandlerState → Writer → Progress
  unfolding handle_tunnel_control call
  serve true [] state w = record {
    done = true;
    state = record state { clean_close = true };
    writer = if state.seen_header then w else call (write_header (pos 502)) w;
  }
  serve false [] state w = record { done = false; state = state; writer = w }
  serve closed (http_tunnel_control control ∷ messages) state w =
      let p = handle_tunnel_control state control w in
      let rest = serve closed messages p.state p.writer in if p.done then p else rest
  serve closed (_ ∷ messages) state w = serve closed messages state w

-- `none` is an error while the body is read.
pub record HttpRequest : Type 0 where
  pub method : String
  pub request_uri : String
  pub header : Header
  pub body : Option (List ℕ)

-- The request is refused with a status, or it waits for its response from the session in the search.
pub data Started : Type 0 where
  refused : ℤ → Started
  waiting : Search → ConnectedRoutes → Started
  panicked : Started

module _ (reg : Registry) (m : Mutation) (now draw : ℕ) where
  unfoldable pub send_request : Search → ConnectedRoutes → OpenHttpTunnelRequest → ℕ → Started
  send_request ep routes req out =
      elim (Tracker.send draw ep (http_message (record { out = out; cmd = req })) routes) [
        | err e ↦ refused (pos 502)
        | panic ↦ panicked
        | ok (session, routes') ↦ waiting (record ep { session = session }) routes'
      ]

  -- `transaction` is the id drawn for the request, `out` the reference of its channel.
  unfoldable pub run_api_handler : String → ℕ → ConnectedRoutes → Search → HttpRequest → Started
  unfolding send_request
  run_api_handler transaction out routes ep r = elim r.body [
    | none ↦ refused (pos 503)
    | some body ↦ elim (make_headers reg m now r.header) [
      | err e ↦ refused (pos 503)
      | panic ↦ panicked
      | ok headers ↦
          send_request ep routes
            (record {
              id = transaction;
              type = ep.endpoint_type;
              name = ep.endpoint_name;
              method = r.method;
              uri = r.request_uri;
              headers = headers;
              body = body;
            })
            out
    ]
  ]

-- What is done when the client's context ends: a request that did not end cleanly is cancelled.
unfoldable pub handle_done :
    HandlerState → Search → String → ConnectedRoutes → Result Tracker.Error ConnectedRoutes
handle_done state target id routes =
    if not state.clean_close then Tracker.cancel target id routes else ok routes
