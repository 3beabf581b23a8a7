-- ===== src/Controller/Stranded.antt =====
-- A request that is taken off the channel of its route after the connection has ended.
use oes_birger.Prelude.{
  ℕ, ◌≡◌, ◌≢◌, false, List, [], ◌∷◌, some, arith, eqb, eqb_iff, Bool-cases, inl, inr, lookup,
  lookup-insert, eq_refl, subst, sym, ap, ◌∙◌,
}
use oes_birger.Channel.{update}
use oes_birger.Tunnel.Messages.{MessageWrapper}
use oes_birger.Session
use oes_birger.Session.CloseAll.{holds}
use oes_birger.Route.Direct.{HttpMessage, http_message}
use oes_birger.Control.{TunnelEnd}
use oes_birger.Connection.{
  AgentTunnelServer, Connection, handle_http_request, handle_http_cancel_request,
}
use oes_birger.Controller.{
  Controller, Phase, absent, fresh, greeted, gone, after, admits, with_end, with_out, Turn, connect,
  receive, disconnect, http_request, http_cancel, respond, registry, client_send, client_cancel,
  Reached, begin, later,
}

-- The connection is over, and the channel is open.
abbrev pub IsStranded : Controller → ℕ → ℕ → Type 0
IsStranded k p out = (k.phase p ≡ gone) × (((k.ends p).chans out).closed ≡ false)

-- An event is for a connection that runs.
admits-ne-gone : (ph ph' : Phase) (m : _) → admits ph m ≡ some ph' → ph ≢ gone
admits-ne-gone absent ph' m a e = cc e
admits-ne-gone fresh ph' m a e = cc e
admits-ne-gone greeted ph' m a e = cc e
admits-ne-gone gone ph' m a e = cc a

-- A turn of another connection.
after-IsStranded :
    (k : Controller) (p q out : ℕ) (ph : Phase) (c : Connection)
    → k.phase q ≢ gone
    → IsStranded k p out
    → IsStranded (after k q ph c) p out
unfolding update
after-IsStranded k p q out ph c runs (over, o) = elim (Bool-cases (eqb p q)) [
  | inl e ↦ absurd (runs (ap k.phase (sym ((eqb_iff p q).0 e)) ∙ over))
  | inr e ↦ rw e (over, o)
]

with_end-IsStranded :
    (k : Controller) (p q out : ℕ) (t : TunnelEnd) (messages : List MessageWrapper)
    → (((k.ends q).chans out).closed ≡ false → (t.chans out).closed ≡ false)
    → IsStranded k p out
    → IsStranded (with_end k q (t, messages)) p out
unfolding update
with_end-IsStranded k p q out t messages kept (over, o) = elim (Bool-cases (eqb p q)) [
  | inl e ↦ (
    over,
    rw e (kept (subst (λ (r : ℕ). ((k.ends r).chans out).closed ≡ false) ((eqb_iff p q).0 e) o)),
  )
  | inr e ↦ (over, rw e o)
]

abbrev pub requesting : TunnelEnd → HttpMessage → TunnelEnd × List MessageWrapper
requesting t value = handle_http_request (http_message value) (with_out t value.out)

Turn-IsStranded :
    (s : AgentTunnelServer) (p out : ℕ) {k k' : Controller}
    → Turn s k k'
    → IsStranded k p out
    → IsStranded k' p out
unfolding handle_http_request handle_http_cancel_request update
Turn-IsStranded s p out {k} (connect q peer session now chans c a e) h =
    after-IsStranded k p q out fresh c (λ over. cc (a, over)) h
Turn-IsStranded s p out {k} (receive q nanos sends m ph c a e) h =
    after-IsStranded k p q out ph c (admits-ne-gone (k.phase q) ph m a) h
Turn-IsStranded s p out {k} (disconnect q nanos sends clean m ph c a e) h =
    after-IsStranded k p q out gone c (admits-ne-gone (k.phase q) ph m a) h
Turn-IsStranded s p out {k} (http_request q value own) h =
    with_end-IsStranded k p q out (requesting (k.ends q) value).0 (requesting (k.ends q) value).1
      (λ o. ground arith) h
Turn-IsStranded s p out {k} (http_cancel q id) h =
    with_end-IsStranded k p q out (handle_http_cancel_request id (k.ends q)).0
      (handle_http_cancel_request id (k.ends q)).1 (λ o. o) h
Turn-IsStranded s p out {k} (respond q message sent e) h =
    with_end-IsStranded k p q out (record (k.ends q) { dataflow = sent }) (message ∷ []) (λ o. o) h
Turn-IsStranded s p out {k} (registry op) h = h
Turn-IsStranded s p out {k} (client_send draw ep message session routes e) h = h
Turn-IsStranded s p out {k} (client_cancel ep id routes e) h = h

Reached-IsStranded :
    (s : AgentTunnelServer) (p out : ℕ) (k k' : Controller)
    → IsStranded k p out
    → Reached s k k'
    → IsStranded k' p out
Reached-IsStranded s p out k k' h begin = h
Reached-IsStranded s p out k k' h (later {k = k₁} r turn) =
    Turn-IsStranded s p out turn (Reached-IsStranded s p out k k₁ h r)

-- The turn that takes a request off the channel of the route `p`.
abbrev pub requested : Controller → ℕ → HttpMessage → Controller
requested k p value = with_end k p (requesting (k.ends p) value)

-- When a request is taken off the channel of a route whose connection has ended, with a channel that no
-- other request there waits on, which the code does not prevent: the request is entered among the sessions
-- all the same, and whatever the controller does from then on, the connection stays ended and the
-- request's channel is not closed, so that its client is never told.
pub requested-IsStranded :
    (s : AgentTunnelServer) (k : Controller) (p : ℕ) (value : HttpMessage) (k' : Controller)
    → k.phase p ≡ gone
    → holds value.out (k.ends p).sessions.m ≡ false
    → Reached s (requested k p value) k'
    → Turn s k (requested k p value)
      × (lookup value.cmd.id ((requested k p value).ends p).sessions.m ≡ some value.out)
      × IsStranded k' p value.out
unfolding update handle_http_request Session.add
requested-IsStranded s k p value k' over own reached = (
  http_request p value own,
  ground (
    arith,
    lookup-insert value.cmd.id value.cmd.id value.out (k.ends p).sessions.m,
    eq_refl value.cmd.id,
  ),
  Reached-IsStranded s p value.out (requested k p value) k' (over, ground arith) reached,
)
