-- ===== src/Tests/Connections.antt =====
-- A connection of an agent.
use oes_birger.Prelude.{ℕ, String, ◌≡◌, refl, false, true, [], ◌∷◌, none, panic}
use oes_birger.Tunnel.Messages.{MessageWrapper, Hello, EndpointHealth, hello, ping_request}
use oes_birger.Route.Tracker.{list_of, make_routes, add}
use oes_birger.Route.Tracker.Members.{count}
use oes_birger.Connection.{
  AgentTunnelServer, Connection, received, receive_error, end_of_stream, continues, returned, step,
}
use oes_birger.Connection.End.{HasLeft, step-HasLeft, step-ping_unanswered}
use oes_birger.Connection.Agent.{ended, agent_step}
use oes_birger.Connection.Agent.Ended.{agent_step-ended}
use oes_birger.Channel.{send}
use oes_birger.Route.Tracker
use oes_birger.Route.Direct.{unexpected}
use oes_birger.Connection.Twice.{step-greeted_twice}
use oes_birger.Tests.Routes.{routes, nobody, one-IsServing}
use oes_birger.Tests.Responses.{waiting}
use oes_birger.Tests.Certificates.{lib}

abbrev pub server : AgentTunnelServer
server = record {
  insecure = false;
  endpoints = [];
  lib = lib (record { name = ""; type = ""; agent = "agent1"; purpose = "agent" });
  version = "v1";
  has_hook = true;
}

abbrev ci : EndpointHealth
ci = record {
  name = "ci";
  type = "jenkins";
  configured = true;
  namespaces = [];
  account_id = "";
  assume_role = "";
  annotations = [];
}

abbrev pub greeting : Hello
greeting = record {
  endpoints = ci ∷ [];
  version = "v2";
  hostname = "host";
  client_certificate = [];
  agent_info = none;
}

abbrev fresh : Connection
fresh = record { state = 3; routes = nobody; tunnel_end = waiting; stream = []; hooks = [] }

step-greeted_twice_example :
    (c₁ : Connection) × (c₂ : Connection) × (c₃ : Connection) × (step server 5000000 true
        (received (hello greeting))
        fresh
      ≡ continues c₁)
    × (step server 6000000 true (received (hello greeting)) c₁ ≡ continues c₂)
    × (step server 7000000 true end_of_stream c₂ ≡ returned true c₃)
    × ((draw : ℕ) × (Tracker.send draw
            (record {
              name = "agent1";
              endpoint_type = "jenkins";
              endpoint_name = "ci";
              session = "";
            })
            unexpected
            c₃.routes
          ≡ panic))
unfolding make_routes
step-greeted_twice_example =
    step-greeted_twice server 5000000 6000000 7000000 true greeting greeting fresh "jenkins" "ci" ""
      unexpected refl (refl, refl) (refl, refl, tt) refl

abbrev listed : Connection
listed = record fresh { routes = add 3 nobody }

step-HasLeft_example :
    (c' : Connection) × (step server 5000000 true receive_error listed ≡ returned false c')
    × HasLeft listed c'
unfolding make_routes add
step-HasLeft_example =
    step-HasLeft server 5000000 true true listed one-IsServing (refl, refl) (refl, refl, tt)

step-ping_unanswered_example :
    (c' : Connection) × (step server 5000000 false
        (received (ping_request (record { ts = 9 })))
        listed
      ≡ returned false c')
    × ((name : String) → count 3 (list_of name c'.routes) ≡ 0)
    × (c'.tunnel_end ≡ waiting)
unfolding make_routes add
step-ping_unanswered_example =
    step-ping_unanswered server 5000000 (record { ts = 9 }) listed one-IsServing (refl, refl)

agent_step-ended_example :
    (c' : Connection) × (agent_step [] 5000000 true end_of_stream listed ≡ ended c')
    × HasLeft listed c'
    × ((message : MessageWrapper) → send message c'.tunnel_end.dataflow ≡ none)
unfolding make_routes add
agent_step-ended_example =
    agent_step-ended [] 5000000 true listed one-IsServing (refl, refl) (refl, refl, tt) refl
