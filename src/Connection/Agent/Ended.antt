-- ===== src/Connection/Agent/Ended.antt =====
-- The end of the agent's tunnel.
use oes_birger.Prelude.{
  ℕ, List, ◌≡◌, refl, ap, sym, ◌∙◌, Option-cases, inl, inr, Bool, true, false, none,
}
use oes_birger.Channel.{send, close}
use oes_birger.Tunnel.Messages.{MessageWrapper}
use oes_birger.Session.{close_all}
use oes_birger.Session.CloseAll.{IsOpenOnce}
use oes_birger.Service.Endpoints.{ConfiguredEndpoint}
use oes_birger.Route.Tracker
use oes_birger.Route.Tracker.Serving.{IsOpen, IsServing}
use oes_birger.Connection.{Connection, end_of_stream, returned, route_of, hang_up, leave}
use oes_birger.Connection.End.{HasLeft, hang_up-HasLeft}
use oes_birger.Connection.Agent.{ended, finish, after_loop, agent_step}

-- `finish` on a data flow that is open.
finish_lem :
    (c : Connection)
    → c.tunnel_end.dataflow.closed ≡ false
    → finish c
      ≡ ended (record c {
        tunnel_end = record (c.tunnel_end) {
          dataflow = record (c.tunnel_end.dataflow) { closed = true };
        };
      })
unfolding finish close
finish_lem c o = rw o refl

returned-inj : {clean : Bool} {a b : Connection} → returned clean a ≡ returned clean b → a ≡ b
returned-inj e = cc e

hang_up-dataflow :
    (clean : Bool) (c c' : Connection)
    → hang_up clean c ≡ returned clean c'
    → c'.tunnel_end.dataflow ≡ c.tunnel_end.dataflow
unfolding hang_up leave
hang_up-dataflow clean c c' e =
    elim (Option-cases (close_all c.tunnel_end.sessions c.tunnel_end.chans)) [
      | inl p ↦ cc (rw (p, hang_up) at e)
      | inr ((sessions, chans), p) ↦ elim (Option-cases (Tracker.remove c.state c.routes)) [
        | inl q ↦ cc (rw (p, hang_up, q, leave) at e)
        | inr (routes, q) ↦
            ap (λ x. x.tunnel_end.dataflow) (sym (returned-inj (rw (p, hang_up, q, leave) at e)))
      ]
    ]

-- When the controller ends the stream, on a connection whose route is open, among routes that serve, and
-- whose sessions are open and have a channel each, and whose data flow is open, the agent's tunnel ends
-- without a panic: every request that waits has its channel closed, no session is left, the route is in
-- no list, and the other routes serve. But the data flow is closed while requests may still be executed
-- for the controller: whatever message such a request sends then, the send panics.
pub agent_step-ended :
    (endpoints : List ConfiguredEndpoint) (nanos : ℕ) (sends : Bool) (c : Connection)
    → IsServing c.routes
    → IsOpen (route_of c)
    → IsOpenOnce c.tunnel_end.chans c.tunnel_end.sessions.m
    → c.tunnel_end.dataflow.closed ≡ false
    → (c' : Connection) × (agent_step endpoints nanos sends end_of_stream c ≡ ended c')
      × HasLeft c c'
      × ((message : MessageWrapper) → send message c'.tunnel_end.dataflow ≡ none)
unfolding agent_step after_loop send
agent_step-ended endpoints nanos sends c v o once flowing =
    let (c₁, hung, left) = hang_up-HasLeft true c v o once in
    let still_open : c₁.tunnel_end.dataflow.closed ≡ false =
      ap (λ d. d.closed) (hang_up-dataflow true c c₁ hung) ∙ flowing in
    (
      record c₁ {
        tunnel_end = record (c₁.tunnel_end) {
          dataflow = record (c₁.tunnel_end.dataflow) { closed = true };
        };
      },
      rw hung (finish_lem c₁ still_open),
      record {
        serving = left.serving;
        unlisted = left.unlisted;
        no_sessions = left.no_sessions;
        chans = left.chans;
      },
      λ message. refl,
    )
