-- ===== src/Control/EndToEnd.antt =====
-- A response from the service's side of the tunnel to the client: `RunHTTPRequest` on one end, the
-- control handler and the HTTP handler's loop on the other.
use oes_birger.Prelude.{
  ℕ, ℤ, pos, ◌<◌, ◌^◌, to_int32, to_int32_small, is_zero, Bool, String, ◌≡◌, ap, ◌∙◌, ◌||◌, List,
  [], ◌∷◌, ◌++◌, false, Bool-cases, inl, inr, arith, some, if◌then◌else◌, ok,
}
use oes_birger.Jwt.{Registry, Mutation}
use oes_birger.Tunnel.Messages.{
  head_of, MessageWrapper, HttpHeader, HttpTunnelResponse, OpenHttpTunnelRequest,
}
use oes_birger.Tunnel.Headers.{Header, values_of, make_headers}
use oes_birger.Service.Handler.Headers.{values_for, IsCanonical}
use oes_birger.Tunnel.Request.{HttpResponse, Run, make_response, run_http_request, send_body}
use oes_birger.Tunnel.Request.Framing.{
  Packets, none_yet, bytes_read, ending, is_announced, send_body-Packets,
}
use oes_birger.Service.Endpoints.{ConfiguredEndpoint}
use oes_birger.Service.Handler.{Writer, initial}
use oes_birger.Service.Handler.Response.{written, statuses, serve_open, Responds, serve-Responds}
use oes_birger.Control.{TunnelEnd}
use oes_birger.Control.Delivery.{receive, Awaits, response-Delivered}

abbrev fresh_writer : Header → Writer
fresh_writer h = record { header = h; calls = [] }

-- What the client of a request sees once everything that came on its channel is handled.
pub record Answered (t : TunnelEnd) (c : ℕ) (h : Header) (status : ℤ) (headers : List HttpHeader)
    (bytes : List ℕ) (ended : Bool) : Type 0 where
  pub bodies : written (serve_open (t.chans c).sent initial (fresh_writer h)).writer.calls ≡ bytes
  pub heads :
      statuses (serve_open (t.chans c).sent initial (fresh_writer h)).writer.calls ≡ status ∷ []
  pub finished : (serve_open (t.chans c).sent initial (fresh_writer h)).done ≡ ended
  pub header :
      (key : String)
      → values_of key (serve_open (t.chans c).sent initial (fresh_writer h)).writer.header
        ≡ values_for key headers

Responds-Answered :
    (t : TunnelEnd) (c : ℕ) (h : Header) (status : ℤ) (resp : HttpTunnelResponse)
    (ms : List MessageWrapper) {bytes : List ℕ} {ended : Bool}
    → (t.chans c).sent ≡ ms
    → resp.status ≡ status
    → Responds (serve_open ms initial (fresh_writer h)) resp bytes ended
    → Answered t c h status resp.headers bytes ended
Responds-Answered t c h status resp ms e f r =
    let same = ap (λ sent. serve_open sent initial (fresh_writer h)) e in
    record {
      bodies = ap (λ p. written p.writer.calls) same ∙ r.bodies;
      heads = ap (λ p. statuses p.writer.calls) same ∙ r.heads ∙ ap (λ s. s ∷ []) f;
      finished = ap (λ p. p.done) same ∙ r.finished;
      header = λ key. ap (λ p. values_of key p.writer.header) same ∙ r.header key;
    }

-- What `response-Delivered` puts on the channel.
delivered-Responds :
    (resp : HttpTunnelResponse) {id : String} {bytes : List ℕ} {ms : List MessageWrapper}
    {closed : Bool} (h : Header)
    → IsCanonical h
    → Packets id bytes ms closed
    → Responds
        (serve_open
          (head_of resp ∷ (if is_zero resp.content_length then [] else ms))
          initial
          (fresh_writer h))
        resp
        (if is_zero resp.content_length then [] else bytes)
        (is_zero resp.content_length || closed)
delivered-Responds resp {id} h k p = elim (Bool-cases (is_zero resp.content_length)) [
  | inl z ↦
      let nothing : Packets id [] [] false = none_yet in
      rw z (rw z at (serve-Responds resp h k nothing))
  | inr z ↦ rw z (rw z at (serve-Responds resp h k p))
]

module _ (reg : Registry) (m : Mutation) (now : ℕ) (agent_name : String)
    (endpoints : List ConfiguredEndpoint) where
  run_http_request-eq :
      (req : OpenHttpTunnelRequest) (response : HttpResponse) (headers : List HttpHeader)
      → make_headers reg m now response.header ≡ ok headers
      → run_http_request reg m now req (some response)
        ≡ ok (record {
          sent =
              head_of (record {
                id = req.id;
                status = to_int32 response.status_code;
                headers = headers;
                content_length = response.content_length;
              })
              ∷ (send_body req.id response.reads).sent;
          returned = (send_body req.id response.reads).returned;
        })
  unfolding run_http_request make_response
  run_http_request-eq req response headers e = ground (arith, e)

  -- A service's response to the request `req`, with a status in the range of int32 and headers that
  -- can be made, is sent over the tunnel without a panic. If the request waits on the channel `c` at the
  -- other end, with nothing sent on it yet, all of the response's messages are handled there without
  -- a panic. Then, if every write to the client succeeds in full and the channel stays open, the client
  -- is sent that one status and exactly the bytes that were read from the body before the first error, in
  -- order; its handler is done unless the body is still being read or its reading was cancelled. If the
  -- content length is 0, it is done, and the client is sent no bytes. If the names in the writer's header
  -- are spelled as net/http spells them, the client is sent, under each name, just the values that those
  -- headers have for it, in order.
  pub run_http_request-Answered :
      (req : OpenHttpTunnelRequest) (response : HttpResponse) (headers : List HttpHeader)
      (status : ℕ) (t : TunnelEnd) (c : ℕ) (h : Header)
      → make_headers reg m now response.header ≡ ok headers
      → response.status_code ≡ pos status
      → status < 2 ^ 31
      → Awaits t req.id c
      → (t.chans c).sent ≡ []
      → IsCanonical h
      → (run : Run) × (t' : TunnelEnd) × (run_http_request reg m now req (some response) ≡ ok run)
        × (receive agent_name endpoints run.sent t ≡ some t')
        × Answered t' c h
            (pos status)
            headers
            (if is_zero response.content_length then [] else bytes_read response.reads)
            (is_zero response.content_length || is_announced (ending response.reads))
  run_http_request-Answered req response headers status t c h made code small waits fresh
        canonical =
      let resp : HttpTunnelResponse = record {
        id = req.id;
        status = to_int32 response.status_code;
        headers = headers;
        content_length = response.content_length;
      } in
      let ms = (send_body req.id response.reads).sent in
      let passed = head_of resp ∷ (if is_zero response.content_length then [] else ms) in
      let p = send_body-Packets req.id response.reads in
      let (t', e, d) = response-Delivered agent_name endpoints t resp c p waits in
      (
        record { sent = head_of resp ∷ ms; returned = (send_body req.id response.reads).returned },
        t',
        run_http_request-eq req response headers made,
        e,
        Responds-Answered t' c h (pos status) resp passed
            (d.sent ∙ ap (λ sent. sent ++ passed) fresh)
            (ap to_int32 code ∙ to_int32_small status small)
            (delivered-Responds resp h canonical p),
      )
