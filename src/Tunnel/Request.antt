-- ===== src/Tunnel/Request.antt =====
-- internal/tunnel/http.go, `RunHTTPRequest`: a request to the service, and its response as a series
-- of messages. `client.Do` is outside: its outcome is an argument, and the body of a response is the
-- list of what the calls of `Body.Read` give so far.
pub mod Framing
use oes_birger.Prelude.{
  ℕ, ℤ, to_int32, String, Bool, true, false, List, [], ◌∷◌, ◌++◌, Option, none, some, Result, ok,
  err, panic, ◌>>=◌,
}
use oes_birger.Jwt.{Registry, Error, Mutation}
use oes_birger.Tunnel.Messages.{
  MessageWrapper, OpenHttpTunnelRequest, http_tunnel_control, http_tunnel_response,
  make_chunked_response, make_bad_gateway_response,
}
use oes_birger.Tunnel.Headers.{Header, make_headers}

pub data ReadError : Type 0 where
  no_error eof canceled other : ReadError

-- One call of `Body.Read`: the bytes that it put into the buffer, and its error.
pub record Read : Type 0 where
  pub bytes : List ℕ
  pub error : ReadError

pub record HttpResponse : Type 0 where
  pub status_code : ℤ
  pub header : Header
  pub content_length : ℤ
  pub reads : List Read

-- What was put on the data flow, and whether the call has returned or waits for another read.
pub record Run : Type 0 where
  pub sent : List MessageWrapper
  pub returned : Bool

-- `if n > 0 { dataflow <- makeChunkedResponse(...) }`
unfoldable pub data_packet : String → List ℕ → List MessageWrapper
data_packet id [] = []
data_packet id (b ∷ bytes) = make_chunked_response id (b ∷ bytes) ∷ []

unfoldable pub after_read : String → Read → Run → Run
unfolding data_packet
after_read id r later = elim r.error [
  | eof ↦ record {
    sent = data_packet id r.bytes ++ make_chunked_response id [] ∷ [];
    returned = true;
  }
  | canceled ↦ record { sent = data_packet id r.bytes; returned = true }
  | other ↦ record {
    sent = data_packet id r.bytes ++ make_chunked_response id [] ∷ [];
    returned = true;
  }
  | no_error ↦ record { sent = data_packet id r.bytes ++ later.sent; returned = later.returned }
]

-- The loop over the body.
unfoldable pub send_body : String → List Read → Run
send_body id [] = record { sent = []; returned = false }
send_body id (r ∷ reads) = after_read id r (send_body id reads)

module _ (reg : Registry) (m : Mutation) (now : ℕ) where
  unfoldable pub make_response : String → HttpResponse → Result Error MessageWrapper
  make_response id response = do
    headers ← make_headers reg m now response.header
    ok (
        http_tunnel_control (
          http_tunnel_response (record {
            id = id;
            status = to_int32 response.status_code;
            headers = headers;
            content_length = response.content_length;
          })))

  abbrev bad_gateway : String → Run
  bad_gateway id = record { sent = make_bad_gateway_response id ∷ []; returned = true }

  -- `none` is an error of `client.Do`. The call itself reports no error; it may panic.
  unfoldable pub run_http_request : OpenHttpTunnelRequest → Option HttpResponse → Result Error Run
  run_http_request req none = ok (bad_gateway req.id)
  run_http_request req (some response) = elim (make_response req.id response) [
    | err e ↦ ok (bad_gateway req.id)
    | panic ↦ panic
    | ok head ↦
        let body = send_body req.id response.reads in
        ok (record { sent = head ∷ body.sent; returned = body.returned })
  ]
