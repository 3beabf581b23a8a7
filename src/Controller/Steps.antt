-- ===== src/Controller/Steps.antt =====
-- What one event does to a connection and to the routes of the others.
use oes_birger.Prelude.{
  ℕ, ◌/◌, String, ◌==◌, ◌≡◌, ◌≢◌, refl, Bool, true, false, [], if◌then◌else◌, panic,
}
use oes_birger.Authority.{Bytes, Crypto}
use oes_birger.Tunnel.Messages.{PingRequest}
use oes_birger.Session.CloseAll.{close_all_lem}
use oes_birger.Route.Direct.{DirectlyConnectedRoute}
use oes_birger.Route.Tracker.{ConnectedRoutes, list_of}
use oes_birger.Route.Tracker.Members.{count}
use oes_birger.Route.Tracker.Serving.{IsOpen, IsServing, remove-IsServing}
use oes_birger.Route.Tracker.Frame.{
  IsKept, IsKept-refl, IsKept-trans, IsKept-IsServing, update-IsKept_self, remove-IsKept,
}
use oes_birger.Connection.{
  AgentTunnelServer, Connection, Outcome, continues, returned, panicked, route_of, with_route,
  on_ping, leave, hang_up,
}
use oes_birger.Connection.Health.{IsHealthy}
use oes_birger.Controller.{Phase, absent, fresh, greeted, gone}

abbrev pub IsUnlisted : ConnectedRoutes → ℕ → Type 0
IsUnlisted s p = (n : String) → count p (list_of n s) ≡ 0

-- Once, under its name.
abbrev pub IsListedOnce : ConnectedRoutes → ℕ → Type 0
IsListedOnce s p = (n : String) → count p (list_of n s) ≡ (if (s.routes p).name == n then 1 else 0)

-- How a route stands in each phase of its connection.
abbrev pub Stands : Phase → ConnectedRoutes → ℕ → Type 0
Stands absent s p = IsUnlisted s p
Stands fresh s p = IsOpen (s.routes p) × IsUnlisted s p
Stands greeted s p = IsOpen (s.routes p) × IsListedOnce s p
Stands gone s p = IsUnlisted s p

pub IsKept-Stands :
    (ph : Phase) {p : ℕ} {s s' : ConnectedRoutes} → IsKept p s s' → Stands ph s p → Stands ph s' p
IsKept-Stands absent kept u = λ n. rw (kept.listed n) (u n)
IsKept-Stands fresh kept (o, u) = (kept.still_open o, λ n. rw (kept.listed n) (u n))
IsKept-Stands greeted kept (o, l) = (kept.still_open o, λ n. rw (kept.listed n, kept.name) (l n))
IsKept-Stands gone kept u = λ n. rw (kept.listed n) (u n)

-- The connection `c` after the event, where the routes were `s` before it.
pub record Held (ph : Phase) (s : ConnectedRoutes) (p : ℕ) (c : Connection) : Type 0 where
  pub serving : IsServing c.routes
  pub healthy : IsHealthy c.tunnel_end
  pub others : (q : ℕ) → q ≢ p → IsKept q s c.routes
  pub own : Stands ph c.routes p

-- The handler did not panic, and the connection is in the phase, or over.
abbrev pub Leads : Phase → ConnectedRoutes → ℕ → Outcome → Type 0
Leads ph s p (continues c) = Held ph s p c
Leads ph s p (returned clean c) = Held gone s p c
Leads ph s p panicked = ⊥

pub leave-Leads :
    (clean : Bool) (ph : Phase) (s : ConnectedRoutes) (c : Connection)
    → IsServing c.routes
    → IsOpen (route_of c)
    → IsHealthy c.tunnel_end
    → ((q : ℕ) → q ≢ c.state → IsKept q s c.routes)
    → Leads ph s c.state (leave clean c)
unfolding leave
leave-Leads clean ph s c v o h others =
    let (routes, e, serving, unlisted) = remove-IsServing c.state c.routes v o in
    rw (e, leave)
      (record {
        serving = serving;
        healthy = h;
        others = λ q other.
            IsKept-trans (others q other) (remove-IsKept c.state c.routes routes q e other);
        own = unlisted;
      })

pub hang_up-Leads :
    (clean : Bool) (ph : Phase) (c : Connection)
    → IsServing c.routes
    → IsOpen (route_of c)
    → IsHealthy c.tunnel_end
    → Leads ph c.routes c.state (hang_up clean c)
unfolding hang_up
hang_up-Leads clean ph c v o h =
    let (chans, e, _) = close_all_lem c.tunnel_end.sessions c.tunnel_end.chans h.sessions in
    let c' : Connection = record c {
      tunnel_end = record (c.tunnel_end) { sessions = record { m = [] }; chans = chans };
    } in
    rw (e, hang_up)
      (leave-Leads clean ph c.routes c' v o (record { sessions = tt; dataflow = h.dataflow })
        (λ q _. IsKept-refl q c.routes))

-- A library that does not panic on the bytes that it is given.
pub record NeverPanics (lib : Crypto) : Type 0 where
  pub reads : (bytes : Bytes) → lib.parse_certificate bytes ≢ panic
  pub unmarshals : (text : String) → lib.unmarshal text ≢ panic

-- A route that is open has its fields other than the name and the channels changed.
pub with_route-Held :
    (ph : Phase) (r : DirectlyConnectedRoute) (c : Connection)
    → IsServing c.routes
    → IsHealthy c.tunnel_end
    → Stands ph c.routes c.state
    → r.name ≡ (route_of c).name
    → r.in_request.closed ≡ (route_of c).in_request.closed
    → r.in_cancel_request.closed ≡ (route_of c).in_cancel_request.closed
    → Held ph c.routes c.state (with_route r c)
with_route-Held ph r c v h stands named requests cancels =
    let kept = λ (q : ℕ). update-IsKept_self c.state r c.routes q named requests cancels in
    record {
      serving = IsKept-IsServing c.routes (with_route r c).routes v kept;
      healthy = h;
      others = λ q _. kept q;
      own = IsKept-Stands ph (kept c.state) stands;
    }

-- A phase in which the handler runs.
abbrev pub runs : Phase → Bool
runs fresh = true
runs greeted = true
runs absent = false
runs gone = false

pub Stands-IsOpen :
    (ph : Phase) (s : ConnectedRoutes) (p : ℕ)
    → runs ph ≡ true
    → Stands ph s p
    → IsOpen (s.routes p)
Stands-IsOpen fresh s p r stands = stands.0
Stands-IsOpen greeted s p r stands = stands.0
Stands-IsOpen absent s p r stands = cc r
Stands-IsOpen gone s p r stands = cc r

module _ (s : AgentTunnelServer) (nanos : ℕ) (sends : Bool) where
  pub on_ping-Leads :
      (ph : Phase) (req : PingRequest) (c : Connection)
      → runs ph ≡ true
      → IsServing c.routes
      → IsHealthy c.tunnel_end
      → Stands ph c.routes c.state
      → Leads ph c.routes c.state (on_ping s nanos sends req c)
  unfolding on_ping
  on_ping-Leads ph req c r v h stands = answered sends
    where
      pinged : DirectlyConnectedRoute
      pinged = record (route_of c) { last_ping = nanos / 1000000 }

      held : Held ph c.routes c.state (with_route pinged c)
      held = with_route-Held ph pinged c v h stands refl refl refl

      answered : (sends : Bool) → Leads ph c.routes c.state (on_ping s nanos sends req c)
      answered true = record {
        serving = held.serving;
        healthy = held.healthy;
        others = held.others;
        own = held.own;
      }
      answered false =
          leave-Leads false ph c.routes (with_route pinged c) held.serving
            (Stands-IsOpen ph (with_route pinged c).routes c.state r held.own) held.healthy
            held.others
