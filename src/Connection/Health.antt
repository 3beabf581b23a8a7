-- ===== src/Connection/Health.antt =====
-- One end of a tunnel in good order: what the goroutines of its connection do keeps it so.
use oes_birger.Prelude.{
  ℕ, String, ◌≡◌, refl, Bool, true, false, List, [], ◌∷◌, ◌++◌, Option, none, some, lookup, insert,
  delete, if◌then◌else◌, eqb, arith, Option-cases, inl, inr, is_zero,
}
use oes_birger.Channel.{Chan, open_chan, send, update}
use oes_birger.Tunnel.Messages.{
  MessageWrapper, HttpTunnelControl, http_tunnel_response, http_tunnel_chunked_response,
  open_http_tunnel_request, cancel_request, no_control, OpenHttpTunnelRequest,
  make_bad_gateway_response,
}
use oes_birger.Session.{Chans, SessionList, find_unlocked, remove_unlocked}
use oes_birger.Session
use oes_birger.Session.CloseAll.{IsOpenOnce, IsOpenOnce-update, holds}
use oes_birger.Service.Endpoints.{ConfiguredEndpoint}
use oes_birger.Route.Direct.{HttpMessage, http_message}
use oes_birger.Control.{
  TunnelEnd, is_empty, pass_on, find_endpoint, open_request, handle_http_control,
}
use oes_birger.Connection.{handle_http_request, handle_http_cancel_request}

-- Each waiting request has an open channel of its own, and the data flow is open.
pub record IsHealthy (t : TunnelEnd) : Type 0 where
  pub sessions : IsOpenOnce t.chans t.sessions.m
  pub dataflow : t.dataflow.closed ≡ false

IsOpenOnce-update_open :
    (chans : Chans) (c : ℕ) (v : Chan MessageWrapper) (m : List (String × ℕ))
    → v.closed ≡ false
    → IsOpenOnce chans m
    → IsOpenOnce (update chans c v) m
unfolding update
IsOpenOnce-update_open chans c v [] h o = tt
IsOpenOnce-update_open chans c v ((id, d) ∷ m) h o =
    ground (arith, IsOpenOnce-update_open chans c v m)

holds-delete :
    (c : ℕ) (id : String) (m : List (String × ℕ))
    → holds c m ≡ false
    → holds c (delete id m) ≡ false
unfolding delete
holds-delete c id [] h = refl
holds-delete c id ((j, d) ∷ m) h = ground (arith, holds-delete c id m)

IsOpenOnce-delete :
    (chans : Chans) (id : String) (m : List (String × ℕ))
    → IsOpenOnce chans m
    → IsOpenOnce chans (delete id m)
unfolding delete
IsOpenOnce-delete chans id [] o = tt
IsOpenOnce-delete chans id ((j, d) ∷ m) o =
    ground (arith, IsOpenOnce-delete chans id m, holds-delete d id m)

holds-insert :
    (c out : ℕ) (id : String) (m : List (String × ℕ))
    → eqb c out ≡ false
    → holds c m ≡ false
    → holds c (insert id out m) ≡ false
unfolding insert
holds-insert c out id [] n h = ground arith
holds-insert c out id ((j, d) ∷ m) n h = ground (arith, holds-insert c out id m)

IsOpenOnce-insert :
    (chans : Chans) (out : ℕ) (id : String) (m : List (String × ℕ))
    → (chans out).closed ≡ false
    → holds out m ≡ false
    → IsOpenOnce chans m
    → IsOpenOnce chans (insert id out m)
unfolding insert
IsOpenOnce-insert chans out id [] h n o = ground arith
IsOpenOnce-insert chans out id ((j, d) ∷ m) h n o =
    ground (arith, IsOpenOnce-insert chans out id m, holds-insert d out id m)

IsOpenOnce-lookup :
    (chans : Chans) (id : String) (dest : ℕ) (m : List (String × ℕ))
    → IsOpenOnce chans m
    → lookup id m ≡ some dest
    → (chans dest).closed ≡ false
unfolding lookup
IsOpenOnce-lookup chans id dest [] o e = cc e
IsOpenOnce-lookup chans id dest ((j, d) ∷ m) o e = ground (arith, IsOpenOnce-lookup chans id dest m)

-- The end after the step, which did not panic.
abbrev pub Healthily : Option TunnelEnd → Type 0
Healthily none = ⊥
Healthily (some t) = IsHealthy t

send_open :
    (message : MessageWrapper) (c : Chan MessageWrapper)
    → c.closed ≡ false
    → send message c ≡ some (record c { sent = c.sent ++ message ∷ [] })
unfolding send
send_open message c o = ground arith

last_or_not :
    (is_last : Bool) (id : String) (chans : Chans) (s : SessionList)
    → IsOpenOnce chans s.m
    → IsOpenOnce chans (if is_last then remove_unlocked id s else s).m
unfolding remove_unlocked
last_or_not true id chans s o = IsOpenOnce-delete chans id s.m o
last_or_not false id chans s o = o

pass_on-Healthily :
    (id : String) (is_last : Bool) (message : MessageWrapper) (t : TunnelEnd)
    → IsHealthy t
    → Healthily (pass_on id is_last message t)
unfolding pass_on find_unlocked
pass_on-Healthily id is_last message t h = elim (Option-cases (lookup id t.sessions.m)) [
  | inl e ↦ rw (e, pass_on) h
  | inr (dest, e) ↦
      let o = IsOpenOnce-lookup t.chans id dest t.sessions.m h.sessions e in
      let sent : Chan MessageWrapper = record (t.chans dest) {
        sent = (t.chans dest).sent ++ message ∷ [];
      } in
      let kept = IsOpenOnce-update_open t.chans dest sent t.sessions.m o h.sessions in
      rw (e, pass_on)
        (rw (send_open message (t.chans dest) o, pass_on)
          (record {
            sessions = last_or_not is_last id (update t.chans dest sent) t.sessions kept;
            dataflow = h.dataflow;
          }))
]

open_request-Healthily :
    (agent_name : String) (endpoints : List ConfiguredEndpoint) (req : OpenHttpTunnelRequest)
    (t : TunnelEnd)
    → IsHealthy t
    → Healthily (open_request agent_name endpoints req t)
unfolding open_request
open_request-Healthily agent_name endpoints req t h =
    elim (Option-cases (find_endpoint endpoints req)) [
      | inl e ↦
          rw (e, open_request, send_open (make_bad_gateway_response req.id) t.dataflow h.dataflow)
            (record { sessions = h.sessions; dataflow = h.dataflow })
      | inr (endpoint, e) ↦
          rw (e, open_request) (record { sessions = h.sessions; dataflow = h.dataflow })
    ]

-- A control message is handled without a panic.
pub handle_http_control-Healthily :
    (agent_name : String) (endpoints : List ConfiguredEndpoint) (control : HttpTunnelControl)
    (t : TunnelEnd)
    → IsHealthy t
    → Healthily (handle_http_control agent_name endpoints control t)
unfolding handle_http_control
handle_http_control-Healthily agent_name endpoints (cancel_request c) t h = record {
  sessions = h.sessions;
  dataflow = h.dataflow;
}
handle_http_control-Healthily agent_name endpoints (open_http_tunnel_request req) t h =
    open_request-Healthily agent_name endpoints req t h
handle_http_control-Healthily agent_name endpoints (http_tunnel_response resp) t h =
    pass_on-Healthily resp.id (is_zero resp.content_length) _ t h
handle_http_control-Healthily agent_name endpoints (http_tunnel_chunked_response resp) t h =
    pass_on-Healthily resp.id (is_empty resp.body) _ t h
handle_http_control-Healthily agent_name endpoints no_control t h = h

-- A request with a channel of its own, which `run_api_handler` has just made.
pub handle_http_request-IsHealthy :
    (value : HttpMessage) (t : TunnelEnd)
    → IsHealthy t
    → holds value.out t.sessions.m ≡ false
    → (t.chans value.out).closed ≡ false
    → IsHealthy (handle_http_request (http_message value) t).0
unfolding handle_http_request Session.add
handle_http_request-IsHealthy value t h own fresh = record {
  sessions = IsOpenOnce-insert t.chans value.out value.cmd.id t.sessions.m fresh own h.sessions;
  dataflow = h.dataflow;
}

pub with_channel-IsHealthy :
    (out : ℕ) (t : TunnelEnd)
    → IsHealthy t
    → holds out t.sessions.m ≡ false
    → IsHealthy (record t { chans = update t.chans out open_chan })
with_channel-IsHealthy out t h own = record {
  sessions = IsOpenOnce-update t.chans out open_chan t.sessions.m own h.sessions;
  dataflow = h.dataflow;
}

pub handle_http_cancel_request-IsHealthy :
    (id : String) (t : TunnelEnd) → IsHealthy t → IsHealthy (handle_http_cancel_request id t).0
unfolding handle_http_cancel_request Session.remove
handle_http_cancel_request-IsHealthy id t h = record {
  sessions = IsOpenOnce-delete t.chans id t.sessions.m h.sessions;
  dataflow = h.dataflow;
}

-- A request in progress sends a part of its response.
pub send_dataflow-Healthily :
    (message : MessageWrapper) (t : TunnelEnd)
    → IsHealthy t
    → (sent : Chan MessageWrapper) × (send message t.dataflow ≡ some sent)
      × IsHealthy (record t { dataflow = sent })
send_dataflow-Healthily message t h = (
  record (t.dataflow) { sent = t.dataflow.sent ++ message ∷ [] },
  send_open message t.dataflow h.dataflow,
  record { sessions = h.sessions; dataflow = h.dataflow },
)
