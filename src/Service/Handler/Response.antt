-- ===== src/Service/Handler/Response.antt =====
-- What the client is sent.
use oes_birger.Prelude.{
  ℕ, ℤ, is_zero, is_negative, String, ◌≡◌, refl, ap, ◌∙◌, Bool, true, false, ◌||◌, List, [], ◌∷◌,
  ◌++◌, append-nil, append_assoc, length, if◌then◌else◌, arith, Bool-cases, inl, inr,
}
use oes_birger.Tunnel.Messages.{head_of, MessageWrapper, HttpTunnelResponse, make_chunked_response}
use oes_birger.Tunnel.Headers.{Header, values_of}
use oes_birger.Service.Handler.Headers.{values_for, IsCanonical, values_of-copy_headers}
use oes_birger.Tunnel.Request.Framing.{Packets, none_yet, last, packet}
use oes_birger.Service.Handler.{
  Call, write_header, write, flush, Writer, WriteOutcome, wrote, HandlerState, Progress, call,
  copy_headers, handle_response, handle_data, handle_chunk, handle_tunnel_control, serve, initial,
}

-- The bytes that were written, and the statuses.
abbrev pub written : List Call → List ℕ
written [] = []
written (write_header status ∷ calls) = written calls
written (write bytes ∷ calls) = bytes ++ written calls
written (flush ∷ calls) = written calls

abbrev pub statuses : List Call → List ℤ
statuses [] = []
statuses (write_header status ∷ calls) = status ∷ statuses calls
statuses (write bytes ∷ calls) = statuses calls
statuses (flush ∷ calls) = statuses calls

written-append : (xs ys : List Call) → written (xs ++ ys) ≡ written xs ++ written ys
written-append [] ys = refl
written-append (write_header status ∷ xs) ys = written-append xs ys
written-append (write bytes ∷ xs) ys = simp (written-append xs ys, append_assoc)
written-append (flush ∷ xs) ys = written-append xs ys

statuses-append : (xs ys : List Call) → statuses (xs ++ ys) ≡ statuses xs ++ statuses ys
statuses-append [] ys = refl
statuses-append (write_header status ∷ xs) ys = ap (◌∷◌ status) (statuses-append xs ys)
statuses-append (write bytes ∷ xs) ys = statuses-append xs ys
statuses-append (flush ∷ xs) ys = statuses-append xs ys

-- Every write succeeds, and writes all.
abbrev pub accepting : List Call → List ℕ → WriteOutcome
accepting calls bytes = wrote (length bytes)

-- The packet after the write, with the flush that a chunked response wants.
abbrev pub data_calls : Bool → List ℕ → List Call
data_calls true bytes = write bytes ∷ flush ∷ []
data_calls false bytes = write bytes ∷ []

-- A connection on which every write succeeds, in full, and a channel that stays open.
abbrev pub serve_open : List MessageWrapper → HandlerState → Writer → Progress
serve_open = serve accepting false

serve-packet :
    (id : String) (b : ℕ) (bytes : List ℕ) (ms : List MessageWrapper) (state : HandlerState)
    (w : Writer)
    → state.seen_header ≡ true
    → serve_open (make_chunked_response id (b ∷ bytes) ∷ ms) state w
      ≡ serve_open ms state
          (record w { calls = w.calls ++ data_calls state.is_chunked (b ∷ bytes) })
unfolding serve handle_data handle_tunnel_control handle_chunk call make_chunked_response
serve-packet id b bytes ms state w h =
    ground (arith, append_assoc w.calls (write (b ∷ bytes) ∷ []) (flush ∷ []))

written-data_calls : (chunked : Bool) (bytes : List ℕ) → written (data_calls chunked bytes) ≡ bytes
written-data_calls true bytes = append-nil bytes
written-data_calls false bytes = append-nil bytes

statuses-data_calls : (chunked : Bool) (bytes : List ℕ) → statuses (data_calls chunked bytes) ≡ []
statuses-data_calls true bytes = refl
statuses-data_calls false bytes = refl

-- What the loop adds to the calls on the writer.
pub record Sends (p : Progress) (w : Writer) (status : List ℤ) (bytes : List ℕ) (ended : Bool)
    : Type 0 where
  pub bodies : written p.writer.calls ≡ written w.calls ++ bytes
  pub heads : statuses p.writer.calls ≡ statuses w.calls ++ status
  pub finished : p.done ≡ ended
  pub header : p.writer.header ≡ w.header

Sends-packet :
    (p : Progress) (w : Writer) (chunked : Bool) (b : ℕ) (bytes : List ℕ) {rest : List ℕ}
    {ended : Bool}
    → Sends p (record w { calls = w.calls ++ data_calls chunked (b ∷ bytes) }) [] rest ended
    → Sends p w [] ((b ∷ bytes) ++ rest) ended
Sends-packet p w chunked b bytes {rest} s = record {
  bodies =
      s.bodies
      ∙ simp (
        written-append w.calls (data_calls chunked (b ∷ bytes)),
        written-data_calls chunked (b ∷ bytes),
        append_assoc,
      );
  heads =
      s.heads
      ∙ simp (
        statuses-append w.calls (data_calls chunked (b ∷ bytes)),
        statuses-data_calls chunked (b ∷ bytes),
        append-nil,
      );
  finished = s.finished;
  header = s.header;
}

Sends-nothing :
    (p : Progress) (w : Writer) (ended : Bool)
    → p.writer ≡ w
    → p.done ≡ ended
    → Sends p w [] [] ended
Sends-nothing p w ended same d = record {
  bodies = simp (same, append-nil);
  heads = simp (same, append-nil);
  finished = d;
  header = ap (λ v. v.header) same;
}

serve-last :
    (id : String) (state : HandlerState) (w : Writer)
    → state.seen_header ≡ true
    → serve_open (make_chunked_response id [] ∷ []) state w
      ≡ record { done = true; state = record state { clean_close = true }; writer = w }
unfolding serve handle_tunnel_control handle_chunk make_chunked_response
serve-last id state w h = ground arith

-- After the header, packets are written as they come, and the empty one ends the response.
pub Packets-Sends :
    {id : String} {bytes : List ℕ} {ms : List MessageWrapper} {closed : Bool} (state : HandlerState)
    (w : Writer)
    → state.seen_header ≡ true
    → Packets id bytes ms closed
    → Sends (serve_open ms state w) w [] bytes closed
unfolding serve
Packets-Sends state w h none_yet = Sends-nothing (serve_open [] state w) w false refl refl
Packets-Sends {id} state w h last = rw (serve-last id state w h) (
    Sends-nothing (record { done = true; state = record state { clean_close = true }; writer = w })
      w true refl refl)
Packets-Sends {id} state w h (packet {ms = ms'} b bytes p) =
    rw (serve-packet id b bytes ms' state w h) (
      Sends-packet
        (serve_open ms' state
          (record w { calls = w.calls ++ data_calls state.is_chunked (b ∷ bytes) }))
        w state.is_chunked b bytes
        (Packets-Sends state
          (record w { calls = w.calls ++ data_calls state.is_chunked (b ∷ bytes) }) h p))

-- The writer after the head of a response.
abbrev after_head : HttpTunnelResponse → Writer → Writer
after_head resp w = call (write_header resp.status) (copy_headers resp w)

serve-empty :
    (resp : HttpTunnelResponse) (ms : List MessageWrapper) (state : HandlerState) (w : Writer)
    → is_zero resp.content_length ≡ true
    → (serve_open (head_of resp ∷ ms) state w).writer ≡ after_head resp w
unfolding serve handle_tunnel_control handle_response
serve-empty resp ms state w z = ground arith

serve-empty_done :
    (resp : HttpTunnelResponse) (ms : List MessageWrapper) (state : HandlerState) (w : Writer)
    → is_zero resp.content_length ≡ true
    → (serve_open (head_of resp ∷ ms) state w).done ≡ true
unfolding serve handle_tunnel_control handle_response
serve-empty_done resp ms state w z = ground arith

serve-head :
    (resp : HttpTunnelResponse) (ms : List MessageWrapper) (state : HandlerState) (w : Writer)
    → is_zero resp.content_length ≡ false
    → serve_open (head_of resp ∷ ms) state w
      ≡ serve_open ms
          (record state { seen_header = true; is_chunked = is_negative resp.content_length })
          (after_head resp w)
unfolding serve handle_tunnel_control handle_response
serve-head resp ms state w z = ground arith

-- What the client has been sent of a response, on a writer that nothing was sent on.
pub record Responds (p : Progress) (resp : HttpTunnelResponse) (bytes : List ℕ) (ended : Bool)
    : Type 0 where
  pub bodies : written p.writer.calls ≡ bytes
  pub heads : statuses p.writer.calls ≡ resp.status ∷ []
  pub finished : p.done ≡ ended
  pub header : (key : String) → values_of key p.writer.header ≡ values_for key resp.headers

-- A head and its packets, on a connection that takes every write in full, and a channel that stays open,
-- have the client sent one status, that of the head, and the bytes of the packets, in order. If the names in
-- the writer's header are spelled as net/http spells them, the client is sent, under each name, just the
-- values that the head has for it in any spelling, in order, and none that was set before. The handler is done when the empty packet has come. If the content length is 0, it is done
-- with the head, and no bytes are written.
pub serve-Responds :
    (resp : HttpTunnelResponse) {id : String} {bytes : List ℕ} {ms : List MessageWrapper}
    {closed : Bool} (h : Header)
    → IsCanonical h
    → Packets id bytes ms closed
    → let w : Writer = record { header = h; calls = [] } in
      Responds
        (serve_open (head_of resp ∷ ms) initial w)
        resp
        (if is_zero resp.content_length then [] else bytes)
        (is_zero resp.content_length || closed)
unfolding call copy_headers
serve-Responds resp {bytes = bytes} {ms = ms} {closed = closed} h c p =
    let w : Writer = record { header = h; calls = [] } in
    elim (Bool-cases (is_zero resp.content_length)) [
      | inl z ↦
          let e = serve-empty resp ms initial w z in
          record {
            bodies = rw z (ap (λ v. written v.calls) e);
            heads = ap (λ v. statuses v.calls) e;
            finished = rw z (serve-empty_done resp ms initial w z);
            header =
                λ key. ap (λ v. values_of key v.header) e ∙ values_of-copy_headers key resp w c;
          }
      | inr z ↦
          let e = serve-head resp ms initial w z in
          let state : HandlerState = record initial {
            seen_header = true;
            is_chunked = is_negative resp.content_length;
          } in
          let s = Packets-Sends state (after_head resp w) refl p in
          record {
            bodies = rw z (ap (λ q. written q.writer.calls) e ∙ s.bodies);
            heads = ap (λ q. statuses q.writer.calls) e ∙ s.heads;
            finished = rw z (ap (λ q. q.done) e ∙ s.finished);
            header = λ key.
                ap (λ q. values_of key q.writer.header) e
                ∙ ap (λ g. values_of key g) s.header
                ∙ values_of-copy_headers key resp w c;
          }
    ]
