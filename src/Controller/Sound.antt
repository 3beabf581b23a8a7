-- ===== src/Controller/Sound.antt =====
-- What holds in every state that the controller comes to.
use oes_birger.Prelude.{
  ℕ, String, ◌≡◌, refl, false, List, Option, some, arith, eqb, eqb_iff, if◌then◌else◌, Result, ok,
  Bool-cases, inl, inr, subst, >>=-eq-ok, ◌∙◌, lookup,
}
use oes_birger.Channel.{Chan, send, update}
use oes_birger.Session.{Chans, make_session_list}
use oes_birger.Tunnel.Cancel.{CancelRegistry}
use oes_birger.Route.Direct.{DirectlyConnectedRoute}
use oes_birger.Route.Tracker.{ConnectedRoutes, make_routes, list_of}
use oes_birger.Route.Tracker.Serving.{IsServing, make_routes-IsServing}
use oes_birger.Route.Tracker.Frame.{
  IsKept, IsKept-IsServing, update-IsKept, send-IsKept, cancel-IsKept,
}
use oes_birger.Control.{TunnelEnd}
use oes_birger.Connection.{AgentTunnelServer, Connection}
use oes_birger.Connection.Greeted.{with_route-IsServing}
use oes_birger.Connection.Peer.{AuthInfo, open_connection, agent_route}
use oes_birger.Connection.Health.{
  IsHealthy, handle_http_request-IsHealthy, with_channel-IsHealthy,
  handle_http_cancel_request-IsHealthy,
}
use oes_birger.Controller.{
  Controller, Phase, fresh, gone, start, connection, after, with_end, with_out, Turn, connect,
  receive, disconnect, http_request, http_cancel, respond, registry, client_send, client_cancel,
  Reached, begin, later,
}
use oes_birger.Controller.Steps.{Stands, IsUnlisted, Held, Leads, NeverPanics, IsKept-Stands}
use oes_birger.Controller.Events.{step-Leads}

-- The routes serve, each end is in good order, and each route stands as the phase of its connection says.
pub record IsSound (k : Controller) : Type 0 where
  pub serving : IsServing k.routes
  pub healthy : (p : ℕ) → IsHealthy (k.ends p)
  pub stands : (p : ℕ) → Stands (k.phase p) k.routes p

pub IsHealthy-connection :
    (k : Controller) (p : ℕ) → IsSound k → IsHealthy (connection k p).tunnel_end
IsHealthy-connection k p sound = record {
  sessions = (sound.healthy p).sessions;
  dataflow = (sound.healthy p).dataflow;
}

start-IsSound : (objects : ℕ → DirectlyConnectedRoute) → IsSound (start objects)
unfolding list_of make_routes make_session_list lookup
start-IsSound objects = record {
  serving = make_routes-IsServing objects;
  healthy = λ p. record { sessions = tt; dataflow = refl };
  stands = λ p n. refl;
}

after-IsSound :
    (k : Controller) (p : ℕ) (ph : Phase) (c : Connection)
    → IsSound k
    → Held ph k.routes p c
    → IsSound (after k p ph c)
unfolding update
after-IsSound k p ph c sound held = record {
  serving = held.serving;
  healthy = λ q. elim (Bool-cases (eqb q p)) [
    | inl e ↦ rw e held.healthy
    | inr e ↦ rw e (sound.healthy q)
  ];
  stands = λ q. elim (Bool-cases (eqb q p)) [
    | inl e ↦ rw e (rw ((eqb_iff q p).0 e) held.own)
    | inr e ↦ rw e (IsKept-Stands (k.phase q) (held.others q (ground arith)) (sound.stands q))
  ];
}

with_end-IsSound :
    (k : Controller) (p : ℕ) (t : TunnelEnd) (messages : List _)
    → IsSound k
    → IsHealthy t
    → IsSound (with_end k p (t, messages))
unfolding update
with_end-IsSound k p t messages sound h = record {
  serving = sound.serving;
  healthy = λ q. elim (Bool-cases (eqb q p)) [ inl e ↦ rw e h | inr e ↦ rw e (sound.healthy q) ];
  stands = sound.stands;
}

with_routes-IsSound :
    (k : Controller) (routes : ConnectedRoutes)
    → IsSound k
    → ((q : ℕ) → IsKept q k.routes routes)
    → IsSound (record k { routes = routes })
with_routes-IsSound k routes sound kept = record {
  serving = IsKept-IsServing k.routes routes sound.serving kept;
  healthy = sound.healthy;
  stands = λ q. IsKept-Stands (k.phase q) (kept q) (sound.stands q);
}

made : (t : TunnelEnd) (out : ℕ) → ((with_out t out).chans out).closed ≡ false
unfolding update
made t out = ground arith

send-closed : {A : Type 0} (a : A) (c c' : Chan A) → send a c ≡ some c' → c'.closed ≡ c.closed
unfolding send
send-closed a c c' e = ground arith

ok-inj : {E : Type 0} {A : Type 0} {a b : A} → ◌≡◌ {A = Result E A} (ok a) (ok b) → a ≡ b
ok-inj e = cc e

-- A new route is open and in no list.
opened-Held :
    (s : AgentTunnelServer) (peer : Option AuthInfo) (p : ℕ) (session : String) (now : ℕ)
    (chans : Chans) (cancels : CancelRegistry) (k : Controller) (c : Connection)
    → IsServing k.routes
    → IsUnlisted k.routes p
    → open_connection s peer p session now chans cancels k.routes ≡ ok c
    → Held fresh k.routes p c
unfolding open_connection agent_route update list_of make_session_list
opened-Held s peer p session now chans cancels k c v unlisted e =
    let (name, _, f) = >>=-eq-ok (if s.insecure then ok "" else _) _ e in
    let e' : _ ≡ c = ok-inj f in
    subst (Held fresh k.routes p) e' (record {
      serving = with_route-IsServing (agent_route name session now) (connection k p) v unlisted;
      healthy = record { sessions = tt; dataflow = refl };
      others = λ q other. update-IsKept p (agent_route name session now) k.routes q other;
      own = (ground arith, unlisted);
    })

Turn-IsSound :
    (s : AgentTunnelServer)
    → NeverPanics s.lib
    → {k k' : Controller} → Turn s k k'
    → IsSound k
    → IsSound k'
Turn-IsSound s safe {k} (connect p peer session now chans c a e) sound =
    after-IsSound k p fresh c sound (
      opened-Held s peer p session now chans k.cancels k c sound.serving
        (subst (λ ph. Stands ph k.routes p) a (sound.stands p)) e)
Turn-IsSound s safe {k} (receive p nanos sends m ph c a e) sound = after-IsSound k p ph c sound (
    subst (Leads ph k.routes p) e (
      step-Leads s nanos sends (k.phase p) ph m (connection k p) a safe sound.serving
        (IsHealthy-connection k p sound) (sound.stands p)))
Turn-IsSound s safe {k} (disconnect p nanos sends clean m ph c a e) sound =
    after-IsSound k p gone c sound (
      subst (Leads ph k.routes p) e (
        step-Leads s nanos sends (k.phase p) ph m (connection k p) a safe sound.serving
          (IsHealthy-connection k p sound) (sound.stands p)))
Turn-IsSound s safe {k} (http_request p value own) sound = with_end-IsSound k p _ _ sound (
    handle_http_request-IsHealthy value (with_out (k.ends p) value.out)
      (with_channel-IsHealthy value.out (k.ends p) (sound.healthy p) own) own
      (made (k.ends p) value.out))
Turn-IsSound s safe {k} (http_cancel p id) sound =
    with_end-IsSound k p _ _ sound
      (handle_http_cancel_request-IsHealthy id (k.ends p) (sound.healthy p))
Turn-IsSound s safe {k} (respond p message sent e) sound = with_end-IsSound k p _ _ sound (record {
  sessions = (sound.healthy p).sessions;
  dataflow = send-closed message (k.ends p).dataflow sent e ∙ (sound.healthy p).dataflow;
})
Turn-IsSound s safe {k} (registry op) sound = record {
  serving = sound.serving;
  healthy = sound.healthy;
  stands = sound.stands;
}
Turn-IsSound s safe {k} (client_send draw ep message session routes e) sound =
    with_routes-IsSound k routes sound
      (λ q. send-IsKept draw ep message k.routes routes session q e)
Turn-IsSound s safe {k} (client_cancel ep id routes e) sound =
    with_routes-IsSound k routes sound (λ q. cancel-IsKept ep id k.routes routes q e)

-- In every state that the controller comes to from its start, with libraries that do not panic and agents
-- that greet once, the routes serve: a route in a list is open and is there once. Each waiting request has
-- an open channel of its own, and the data flows are open. A connection is listed under its name, once,
-- exactly from its greeting to its end, and its route is open from its beginning to its end.
pub Reached-IsSound :
    (s : AgentTunnelServer) (objects : ℕ → DirectlyConnectedRoute) (k : Controller)
    → NeverPanics s.lib
    → Reached s (start objects) k
    → IsSound k
Reached-IsSound s objects k safe begin = start-IsSound objects
Reached-IsSound s objects k safe (later {k = k₁} r turn) =
    Turn-IsSound s safe turn (Reached-IsSound s objects k₁ safe r)
