-- ===== src/Control/Locked.antt =====
-- The lock of the sessions and the channels of the requests of one connection: the loop of `EventTunnel` holds
-- the lock of internal/util/httpsession.go while it sends a response on the channel of its request, which has
-- no buffer, so that the send waits for the loop of `runAPIHandler` (internal/serviceconfig/service_server.go).
-- Here a send is not one step: it is begun, and it is completed when it is received.
pub mod Stuck
use oes_birger.Prelude.{
  ℕ, is_zero, String, ◌≡◌, Bool, true, false, List, [], ◌∷◌, ◌++◌, Option, none, some,
  if◌then◌else◌,
}
use oes_birger.Channel.{update}
use oes_birger.Tunnel.Messages.{
  HttpTunnelControl, http_tunnel_response, http_tunnel_chunked_response, open_http_tunnel_request,
  cancel_request, no_control,
}
use oes_birger.Session.{SessionList, find_unlocked, remove_unlocked}
use oes_birger.Session
use oes_birger.Session.CloseAll.{holds}
use oes_birger.Service.Handler.{
  Call, Writer, WriteOutcome, HandlerState, Progress, initial, handle_tunnel_control,
}
use oes_birger.Control.{is_empty}

-- The loop of `EventTunnel`: at `stream.Recv()`, or at `dest <- in` with the lock.
pub data Loop : Type 0 where
  receiving : Loop
  sending : String → Bool → ℕ → HttpTunnelControl → Loop

-- Which request a message is for, and whether it is the last.
abbrev pub response_of : HttpTunnelControl → Option (String × Bool)
response_of (http_tunnel_response resp) = some (resp.id, is_zero resp.content_length)
response_of (http_tunnel_chunked_response resp) = some (resp.id, is_empty resp.body)
response_of (open_http_tunnel_request req) = none
response_of (cancel_request c) = none
response_of no_control = none

-- The channel that a message is for, if its request is in the list.
unfoldable pub destination : SessionList → HttpTunnelControl → Option ℕ
unfolding find_unlocked
destination sessions control = elim (response_of control) [
  | none ↦ none
  | some (id, is_last) ↦ find_unlocked id sessions
]

-- `handlers` are the handlers that wait at `<-message.Out`, by their channels; `requests` and `cancels` are
-- what waits on the channels of the route.
pub record Goroutines : Type 0 where
  pub sessions : SessionList
  pub loop : Loop
  pub handlers : ℕ → Option (HandlerState × Writer)
  pub requests : List (String × ℕ)
  pub cancels : List String

-- The handler goes on to wait, or it has returned.
abbrev pub waits_on : Progress → Option (HandlerState × Writer)
waits_on p = if p.done then none else some (p.state, p.writer)

-- `accept` says how the writes of a request's handler come out.
pub data Step (accept : List Call → List ℕ → WriteOutcome) (g : Goroutines)
    : Goroutines → Type 0 where
  -- `httpids.Lock()`, and the send begins.
  begin_send :
      (control : HttpTunnelControl) (id : String) (is_last : Bool) (dest : ℕ)
      → g.loop ≡ receiving
      → response_of control ≡ some (id, is_last)
      → destination g.sessions control ≡ some dest
      → Step accept g (record g { loop = sending id is_last dest control })
  -- A response to an unknown request, or another message.
  pass_over :
      (control : HttpTunnelControl)
      → g.loop ≡ receiving
      → destination g.sessions control ≡ none
      → Step accept g g
  -- The handler takes the message, and the lock is given back.
  complete_send :
      (control : HttpTunnelControl) (id : String) (is_last : Bool) (dest : ℕ) (state : HandlerState)
      (writer : Writer)
      → g.loop ≡ sending id is_last dest control
      → g.handlers dest ≡ some (state, writer)
      → Step accept g (record g {
        loop = receiving;
        sessions = if is_last then remove_unlocked id g.sessions else g.sessions;
        handlers =
            update g.handlers dest (waits_on (handle_tunnel_control accept state control writer));
      })
  -- `Add` and `Remove` want the lock.
  add_request :
      (id : String) (out : ℕ) (requests : List (String × ℕ))
      → g.loop ≡ receiving
      → g.requests ≡ (id, out) ∷ requests
      → Step accept g (record g { sessions = Session.add id out g.sessions; requests = requests })
  remove_request :
      (id : String) (cancels : List String)
      → g.loop ≡ receiving
      → g.cancels ≡ id ∷ cancels
      → Step accept g (record g { sessions = Session.remove id g.sessions; cancels = cancels })
  -- A client comes, with a channel of its own, and a client's context ends.
  client_comes :
      (id : String) (out : ℕ) (writer : Writer)
      → holds out g.sessions.m ≡ false
      → Step accept g (record g {
        handlers = update g.handlers out (some (initial, writer));
        requests = g.requests ++ (id, out) ∷ [];
      })
  client_leaves : (id : String) → Step accept g (record g { cancels = g.cancels ++ id ∷ [] })

pub data Steps (accept : List Call → List ℕ → WriteOutcome) (g₀ : Goroutines)
    : Goroutines → Type 0 where
  here : Steps accept g₀ g₀
  next : {g g' : Goroutines} → Steps accept g₀ g → Step accept g g' → Steps accept g₀ g'
