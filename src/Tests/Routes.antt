-- ===== src/Tests/Routes.antt =====
-- Routes that are added, chosen, sent to and removed.
use oes_birger.Prelude.{
  ◌++◌, ℕ, pos, String, ◌≡◌, ◌≢◌, refl, List, [], ◌∷◌, lookup, true, Memᴰ, ◌↔◌, ◌⊎◌, ok, err, panic,
  length,
}
use oes_birger.Channel.{open_chan, update}
use oes_birger.Route.Direct.{close_route, DirectlyConnectedRoute, Endpoint, unexpected, Search}
use oes_birger.Route.Tracker.{
  ConnectedRoutes, Error, make_routes, add, remove, list_of, find_service, take_out,
}
use oes_birger.Route.Tracker
use oes_birger.Route.Tracker.Find.{Provides, find_service-eq-ok_iff}
use oes_birger.Route.Tracker.Gauge.{step, Op, adds, removes, run, run-make_routes-IsCounted}
use oes_birger.Route.Roster.{roster, roster_run}
use oes_birger.Route.Roster.Refines.{roster-run}
use oes_birger.Route.Tracker.Serving.{
  IsServing, add-IsServing, make_routes-IsServing, send-IsServing,
}
use oes_birger.Route.Tracker.Cancelled.{IsUnknown, cancel-IsServing}

abbrev pub endpoint : Endpoint
endpoint = record {
  name = "ci";
  type = "jenkins";
  configured = true;
  annotations = [];
  namespaces = [];
  account_id = "";
  assume_role = "";
}

abbrev pub routes : ℕ → DirectlyConnectedRoute
routes ref = record {
  name = "agent1";
  session = "s1";
  endpoints = endpoint ∷ [];
  agent_info = record { annotations = [] };
  version = "";
  hostname = "";
  in_request = open_chan;
  in_cancel_request = open_chan;
  connected_at = 0;
  last_ping = 0;
  last_use = 0;
}

abbrev pub nobody : ConnectedRoutes
nobody = make_routes routes

abbrev two : ConnectedRoutes
two = add 4 (add 3 nobody)

abbrev search : Search
search = record { name = "agent1"; endpoint_type = "jenkins"; endpoint_name = "ci"; session = "" }

find_service-eq-ok_iff_example :
    (((draw : ℕ) × (find_service draw search two ≡ ok 4))
      ↔ (Memᴰ 4 (list_of "agent1" two) × Provides two.routes search 4))
    × ((draw : ℕ) → find_service draw search two ≢ panic)
find_service-eq-ok_iff_example = find_service-eq-ok_iff search two 4

abbrev history : List Op
history = adds 3 ∷ adds 4 ∷ removes 3 ∷ []

abbrev closed_route : DirectlyConnectedRoute
closed_route = record (routes 3) {
  in_request = record { sent = []; closed = true };
  in_cancel_request = record { sent = []; closed = true };
}

abbrev counted : ConnectedRoutes
counted = take_out 3 (record two { routes = update two.routes 3 closed_route })

run-make_routes-IsCounted_example : counted.gauge "agent1" ≡ pos (length (list_of "agent1" counted))
unfolding run step remove close_route add make_routes
run-make_routes-IsCounted_example = run-make_routes-IsCounted routes history counted refl "agent1"

pub one-IsServing : IsServing (add 3 nobody)
unfolding make_routes list_of lookup
one-IsServing = add-IsServing 3 nobody (make_routes-IsServing routes) (refl, refl) refl

send-IsServing_example :
    ((e : Error) × (Tracker.send 0 search unexpected (add 3 nobody) ≡ err e))
    ⊎ ((session : String) × (s' : ConnectedRoutes) × (Tracker.send 0 search unexpected
            (add 3 nobody)
          ≡ ok (session, s'))
        × IsServing s')
send-IsServing_example = send-IsServing 0 search unexpected (add 3 nobody) one-IsServing

abbrev cancelling : Search
cancelling = record {
  name = "agent1";
  endpoint_type = "jenkins";
  endpoint_name = "ci";
  session = "s1";
}

cancel-IsServing_example :
    ((e : Error) × (Tracker.cancel cancelling "r1" (add 3 nobody) ≡ err e)
      × IsUnknown cancelling (add 3 nobody))
    ⊎ ((s' : ConnectedRoutes) × (r : ℕ) × (Tracker.cancel cancelling "r1" (add 3 nobody) ≡ ok s')
        × IsServing s'
        × Memᴰ r (list_of "agent1" (add 3 nobody))
        × (cancelling.session ≢ "")
        × (((add 3 nobody).routes r).session ≡ cancelling.session)
        × ((s'.routes r).in_cancel_request.sent
            ≡ ((add 3 nobody).routes r).in_cancel_request.sent ++ "r1" ∷ [])
        × ((q : ℕ) → q ≢ r → s'.routes q ≡ (add 3 nobody).routes q))
cancel-IsServing_example = cancel-IsServing cancelling "r1" (add 3 nobody) one-IsServing

roster-run_example : roster counted ≡ roster_run (adds 3 ∷ adds 4 ∷ removes 3 ∷ []) (roster nobody)
unfolding run step remove close_route add make_routes
roster-run_example = roster-run (adds 3 ∷ adds 4 ∷ removes 3 ∷ []) nobody counted refl
