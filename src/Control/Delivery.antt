-- ===== src/Control/Delivery.antt =====
-- A response that arrives over the tunnel reaches the channel of its request.
use oes_birger.Prelude.{
  ℕ, is_zero, String, ◌≡◌, refl, ◌≢◌, ◌∙◌, ◌==◌, eq_refl, Bool, true, false, ◌&&◌, ◌||◌, List, [],
  ◌∷◌, ◌++◌, append-nil, append_assoc, Option, none, some, if◌then◌else◌, lookup-delete, arith,
  Bool-cases, inl, inr,
}
use oes_birger.Channel.{send, update}
use oes_birger.Tunnel.Messages.{
  head_of, MessageWrapper, HttpTunnelResponse, http_tunnel_control, make_chunked_response,
}
use oes_birger.Tunnel.Request.Framing.{Packets, none_yet, last, packet}
use oes_birger.Session.{find_unlocked, remove_unlocked}
use oes_birger.Service.Endpoints.{ConfiguredEndpoint}
use oes_birger.Control.{TunnelEnd, pass_on, handle_http_control, is_empty}

-- The request waits on the channel `c`, which is open.
abbrev pub Awaits : TunnelEnd → String → ℕ → Type 0
Awaits t id c = (find_unlocked id t.sessions ≡ some c) × ((t.chans c).closed ≡ false)

-- What has changed: messages for `c`, and the session's end.
pub record Delivered (t t' : TunnelEnd) (id : String) (c : ℕ) (messages : List MessageWrapper)
    (ended : Bool) : Type 0 where
  pub sent : (t'.chans c).sent ≡ (t.chans c).sent ++ messages
  pub still_open : (t'.chans c).closed ≡ false
  pub others : (d : ℕ) → d ≢ c → t'.chans d ≡ t.chans d
  pub sessions :
      (other : String)
      → find_unlocked other t'.sessions
        ≡ (if ended && id == other then none else find_unlocked other t.sessions)
  pub cancels : t'.cancels ≡ t.cancels
  pub spawned : t'.spawned ≡ t.spawned
  pub dataflow : t'.dataflow ≡ t.dataflow

pass_on-Delivered :
    (t : TunnelEnd) (id : String) (c : ℕ) (is_last : Bool) (message : MessageWrapper)
    → Awaits t id c
    → (t' : TunnelEnd) × (pass_on id is_last message t ≡ some t')
      × Delivered t t' id c (message ∷ []) is_last
unfolding pass_on send update find_unlocked remove_unlocked
pass_on-Delivered t id c is_last message a = (
  record t {
    chans = update t.chans c (record (t.chans c) { sent = (t.chans c).sent ++ message ∷ [] });
    sessions = if is_last then remove_unlocked id t.sessions else t.sessions;
  },
  ground arith,
  record {
    sent = ground arith;
    still_open = ground arith;
    others = λ d h. ground arith;
    sessions = λ other. ground (arith, lookup-delete id other t.sessions.m);
    cancels = refl;
    spawned = refl;
    dataflow = refl;
  },
)

dropped :
    (id : String) (is_last : Bool) (message : MessageWrapper) (t : TunnelEnd)
    → find_unlocked id t.sessions ≡ none
    → pass_on id is_last message t ≡ some t
unfolding pass_on
dropped id is_last message t h = rw (h, pass_on)

Delivered-trans :
    {t t₁ t₂ : TunnelEnd} {id : String} {c : ℕ} {first more : List MessageWrapper} {ended : Bool}
    → Delivered t t₁ id c first false
    → Delivered t₁ t₂ id c more ended
    → Delivered t t₂ id c (first ++ more) ended
Delivered-trans {t} {c} {first} {more} d e = record {
  sent = cc (d.sent, e.sent, append_assoc (t.chans c).sent first more);
  still_open = e.still_open;
  others = λ x h. e.others x h ∙ d.others x h;
  sessions = λ other. ground (arith, d.sessions other, e.sessions other);
  cancels = e.cancels ∙ d.cancels;
  spawned = e.spawned ∙ d.spawned;
  dataflow = e.dataflow ∙ d.dataflow;
}

Delivered-Awaits :
    {t t' : TunnelEnd} {id : String} {c : ℕ} {messages : List MessageWrapper}
    → Awaits t id c
    → Delivered t t' id c messages false
    → Awaits t' id c
Delivered-Awaits {id} a d = (d.sessions id ∙ a.0, d.still_open)

Delivered-nothing :
    (t : TunnelEnd) (id : String) (c : ℕ) → Awaits t id c → Delivered t t id c [] false
Delivered-nothing t id c a = record {
  sent = rw append-nil;
  still_open = a.1;
  others = λ d h. refl;
  sessions = λ other. refl;
  cancels = refl;
  spawned = refl;
  dataflow = refl;
}

module _ (agent_name : String) (endpoints : List ConfiguredEndpoint) where
  -- What arrives is handled message by message; other events do not concern the sessions.
  unfoldable pub receive : List MessageWrapper → TunnelEnd → Option TunnelEnd
  receive [] t = some t
  receive (http_tunnel_control control ∷ messages) t =
      elim (handle_http_control agent_name endpoints control t) [
        | none ↦ none
        | some t' ↦ receive messages t'
      ]
  receive (_ ∷ messages) t = receive messages t

  receive-chunk :
      (id : String) (body : List ℕ) (ms : List MessageWrapper) (t t' : TunnelEnd)
      → pass_on id (is_empty body) (make_chunked_response id body) t ≡ some t'
      → receive (make_chunked_response id body ∷ ms) t ≡ receive ms t'
  unfolding receive handle_http_control make_chunked_response
  receive-chunk id body ms t t' e = rw (e, receive)

  receive-head :
      (resp : HttpTunnelResponse) (ms : List MessageWrapper) (t t' : TunnelEnd)
      → pass_on resp.id (is_zero resp.content_length) (head_of resp) t ≡ some t'
      → receive (head_of resp ∷ ms) t ≡ receive ms t'
  unfolding receive handle_http_control
  receive-head resp ms t t' e = rw (e, receive)

  Packets-Delivered :
      {id : String} {c : ℕ} {bytes : List ℕ} {ms : List MessageWrapper} {closed : Bool}
      (t : TunnelEnd)
      → Packets id bytes ms closed
      → Awaits t id c
      → (t' : TunnelEnd) × (receive ms t ≡ some t') × Delivered t t' id c ms closed
  unfolding receive
  Packets-Delivered {id} {c} t none_yet a = (t, refl, Delivered-nothing t id c a)
  Packets-Delivered {id} {c} t last a =
      let (t', e, d) = pass_on-Delivered t id c true (make_chunked_response id []) a in
      (t', receive-chunk id [] [] t t' e, d)
  Packets-Delivered {id} {c} t (packet {ms = ms'} b bytes p) a =
      let (t₁, e, d) = pass_on-Delivered t id c false (make_chunked_response id (b ∷ bytes)) a in
      let (t₂, e', d') = Packets-Delivered t₁ p (Delivered-Awaits a d) in
      (t₂, receive-chunk id (b ∷ bytes) ms' t t₁ e ∙ e', Delivered-trans d d')

  -- Messages for a request that has no session any more change nothing.
  Packets-dropped :
      {id : String} {bytes : List ℕ} {ms : List MessageWrapper} {closed : Bool} (t : TunnelEnd)
      → Packets id bytes ms closed
      → find_unlocked id t.sessions ≡ none
      → receive ms t ≡ some t
  unfolding receive
  Packets-dropped t none_yet h = refl
  Packets-dropped {id} t last h =
      receive-chunk id [] [] t t (dropped id true (make_chunked_response id []) t h)
  Packets-dropped {id} t (packet {ms = ms'} b bytes p) h =
      receive-chunk id (b ∷ bytes) ms' t t
        (dropped id false (make_chunked_response id (b ∷ bytes)) t h)
      ∙ Packets-dropped t p h

  -- A response, its head and its packets, reaches the channel of its request in order and without
  -- a panic, and touches nothing else. The session ends with the empty packet; if the content length
  -- is 0, it ends with the head, and no packet is passed on.
  pub response-Delivered :
      (t : TunnelEnd) (resp : HttpTunnelResponse) (c : ℕ) {bytes : List ℕ}
      {ms : List MessageWrapper} {closed : Bool}
      → Packets resp.id bytes ms closed
      → Awaits t resp.id c
      → (t' : TunnelEnd) × (receive (head_of resp ∷ ms) t ≡ some t')
        × Delivered t t' resp.id c
            (head_of resp ∷ (if is_zero resp.content_length then [] else ms))
            (is_zero resp.content_length || closed)
  response-Delivered t resp c {ms} p a = elim (Bool-cases (is_zero resp.content_length)) [
    | inl z ↦
        let (t', e, d) = pass_on-Delivered t resp.id c true (head_of resp) a in
        let gone : find_unlocked resp.id t'.sessions ≡ none =
          ground (arith, d.sessions resp.id, eq_refl resp.id) in
        rw z (t', receive-head resp ms t t' (rw z e) ∙ Packets-dropped t' p gone, d)
    | inr z ↦
        let (t₁, e, d) = pass_on-Delivered t resp.id c false (head_of resp) a in
        let (t₂, e', d') = Packets-Delivered t₁ p (Delivered-Awaits a d) in
        rw z (t₂, receive-head resp ms t t₁ (rw z e) ∙ e', Delivered-trans d d')
  ]
