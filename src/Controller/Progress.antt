-- ===== src/Controller/Progress.antt =====
-- Nothing that may happen to the controller makes it panic.
use oes_birger.Prelude.{ℕ, String, ◌≡◌, ◌≢◌, refl, Bool, Option, none, some, panic, ◌⊎◌, inl, inr}
use oes_birger.Tunnel.Messages.{MessageWrapper}
use oes_birger.Channel.{Chan, send}
use oes_birger.Route.Direct.{DirectlyConnectedRoute, Message, Search}
use oes_birger.Route.Tracker
use oes_birger.Route.Tracker.Serving.{send-IsServing}
use oes_birger.Route.Tracker.Cancelled.{cancel-IsServing}
use oes_birger.Connection.{
  AgentTunnelServer, Incoming, Outcome, Connection, continues, returned, panicked, step,
}
use oes_birger.Connection.Health.{send_dataflow-Healthily}
use oes_birger.Controller.{
  Controller, Phase, gone, start, connection, after, admits, Turn, receive, disconnect, Reached,
}
use oes_birger.Controller.Steps.{NeverPanics, Leads}
use oes_birger.Controller.Events.{step-Leads}
use oes_birger.Controller.Sound.{IsSound, IsHealthy-connection, Reached-IsSound}

-- The event cannot arrive now; or it is handled, by the connection's step, at the time and with the outcome of a
-- send that are given, and the connection goes on in the phase that follows, or the handler returns and it is over.
abbrev pub Proceeds : AgentTunnelServer → Controller → ℕ → ℕ → Bool → Incoming → Type 0
Proceeds s k p nanos sends m =
    (admits (k.phase p) m ≡ none)
    ⊎ ((ph : Phase) × (c : Connection) × (admits (k.phase p) m ≡ some ph)
        × (((step s nanos sends m (connection k p) ≡ continues c) × Turn s k (after k p ph c))
            ⊎ ((clean : Bool) × (step s nanos sends m (connection k p) ≡ returned clean c)
                × Turn s k (after k p gone c))))

-- In every state that the controller comes to, with libraries that do not panic and agents that greet
-- once: any event that may arrive on a connection is handled by the connection's step without a panic, whenever
-- it comes and whether a send succeeds, and what the step leaves is the connection in its next phase, or the
-- end of it; no search makes a client's request or cancellation panic, whatever is drawn; and a request in
-- progress can send any message on its data flow.
pub Reached-Proceeds :
    (s : AgentTunnelServer) (objects : ℕ → DirectlyConnectedRoute) (k : Controller) (p : ℕ)
    (nanos : ℕ) (sends : Bool) (m : Incoming) (draw : ℕ) (ep : Search) (message : Message)
    (id : String) (response : MessageWrapper)
    → NeverPanics s.lib
    → Reached s (start objects) k
    → Proceeds s k p nanos sends m
      × (Tracker.send draw ep message k.routes ≢ panic)
      × (Tracker.cancel ep id k.routes ≢ panic)
      × ((sent : Chan MessageWrapper) × (send response (k.ends p).dataflow ≡ some sent))
Reached-Proceeds s objects k p nanos sends m draw ep message id response safe reached =
    (arrives (admits (k.phase p) m) refl, sent_any, cancelled_any, responded_any)
  where
    sound : IsSound k
    sound = Reached-IsSound s objects k safe reached

    proceeds :
        (ph : Phase)
        → admits (k.phase p) m ≡ some ph
        → (o : Outcome) → step s nanos sends m (connection k p) ≡ o
        → Leads ph k.routes p o
        → Proceeds s k p nanos sends m
    proceeds ph a (continues c) e leads = inr (ph, c, a, inl (e, receive p nanos sends m ph c a e))
    proceeds ph a (returned clean c) e leads =
        inr (ph, c, a, inr (clean, e, disconnect p nanos sends clean m ph c a e))
    proceeds ph a panicked e leads = absurd leads

    arrives :
        (admitted : Option Phase) → admits (k.phase p) m ≡ admitted → Proceeds s k p nanos sends m
    arrives none a = inl a
    arrives (some ph) a = proceeds ph a (step s nanos sends m (connection k p)) refl (
        step-Leads s nanos sends (k.phase p) ph m (connection k p) a safe sound.serving
          (IsHealthy-connection k p sound) (sound.stands p))

    sent_any : Tracker.send draw ep message k.routes ≢ panic
    sent_any e = elim (send-IsServing draw ep message k.routes sound.serving) [
      | inl (why, refused) ↦ cc (e, refused)
      | inr (session, routes, sent, _) ↦ cc (e, sent)
    ]

    cancelled_any : Tracker.cancel ep id k.routes ≢ panic
    cancelled_any e = elim (cancel-IsServing ep id k.routes sound.serving) [
      | inl (why, refused, _) ↦ cc (e, refused)
      | inr (routes, r, cancelled, _, _, _, _, _, _) ↦ cc (e, cancelled)
    ]

    responded_any : (sent : Chan MessageWrapper) × (send response (k.ends p).dataflow ≡ some sent)
    responded_any =
        let (sent, e, _) = send_dataflow-Healthily response (k.ends p) (sound.healthy p) in
        (sent, e)
