-- ===== src/Tests/Sessions.antt =====
-- Sessions, cancellations and annotations.
use oes_birger.Prelude.{String, eq_iff, ◌≢◌, arith, List, [], ◌∷◌}
use oes_birger.Channel.{open_chan}
use oes_birger.Session.{SessionList, Chans}
use oes_birger.Tunnel.Cancel.{
  CancelRegistry, Op, register, unregister, call, run, register_cancel_function,
  unregister_cancel_function,
}
use oes_birger.Tunnel.AgentInfo.{AgentInfo}

abbrev two_sessions : SessionList
two_sessions = record { m = ("r1", 1) ∷ ("r2", 2) ∷ [] }

abbrev chans : Chans
chans c = open_chan

abbrev empty : CancelRegistry
empty = record { m = []; cancelled = [] }

abbrev others : List Op
others = register "r2" 8 ∷ call "r2" ∷ unregister "r2" ∷ []

apart : ◌≢◌ {A = String} "r2" "r1"
apart e = ground (arith, eq_iff "r2" "r1")

abbrev registered : CancelRegistry
registered = run others (register_cancel_function "r1" 7 empty)

abbrev unregistered : CancelRegistry
unregistered = run others (unregister_cancel_function "r1" registered)

abbrev info : AgentInfo
info = record { annotations = ("region", "eu") ∷ ("env", "prod") ∷ [] }
