-- ===== src/Tests/Responses.antt =====
-- A response through the tunnel.
use oes_birger.Prelude.{pos, negsuc, ◌≡◌, refl, arith, List, [], ◌∷◌, some, ok, lookup, true, false}
use oes_birger.Channel.{open_chan}
use oes_birger.Tunnel.Messages.{head_of, HttpTunnelResponse, OpenHttpTunnelRequest}
use oes_birger.Tunnel.Headers.{Header, make_headers, make_header, is_mutated, contains_folded}
use oes_birger.Text.{equal_fold, canonical_key}
use oes_birger.Tunnel.Request.{HttpResponse, Read, Run, no_error, eof, run_http_request, send_body}
use oes_birger.Tunnel.Request.Framing.{
  Packets, bytes_read, ending, send_body-Packets, returned-send_body,
}
use oes_birger.Session.{find_unlocked}
use oes_birger.Service.Handler.{initial}
use oes_birger.Service.Handler.Response.{Responds, serve_open, serve-Responds}
use oes_birger.Control.{TunnelEnd}
use oes_birger.Control.Delivery.{receive, Delivered, response-Delivered}
use oes_birger.Control.EndToEnd.{Answered, run_http_request-Answered}
use oes_birger.Tests.Tokens.{tokens}

abbrev reads : List Read
reads =
    record { bytes = 104 ∷ 105 ∷ []; error = no_error }
    ∷ record { bytes = []; error = no_error }
    ∷ record { bytes = 33 ∷ []; error = eof }
    ∷ []

send_body-Packets_example : Packets "r1" (104 ∷ 105 ∷ 33 ∷ []) (send_body "r1" reads).sent true
unfolding bytes_read ending
send_body-Packets_example = send_body-Packets "r1" reads

returned-send_body_example : (send_body "r1" reads).returned ≡ true
unfolding ending
returned-send_body_example = returned-send_body "r1" reads

abbrev head : HttpTunnelResponse
head = record {
  id = "r1";
  status = pos 200;
  headers = record { name = "server"; values = "s" ∷ [] } ∷ [];
  content_length = negsuc 0;
}

-- The controller's end of the tunnel, where one request waits on channel 4.
abbrev pub waiting : TunnelEnd
waiting = record {
  sessions = record { m = ("r1", 4) ∷ [] };
  chans = λ c. open_chan;
  cancels = record { m = []; cancelled = [] };
  spawned = [];
  dataflow = open_chan;
}

response-Delivered_example :
    (t' : TunnelEnd) × (receive "agent1" [] (head_of head ∷ (send_body "r1" reads).sent) waiting
      ≡ some t')
    × Delivered waiting t' "r1" 4 (head_of head ∷ (send_body "r1" reads).sent) true
unfolding find_unlocked lookup ending
response-Delivered_example =
    response-Delivered "agent1" [] waiting head 4 (send_body-Packets "r1" reads) (refl, refl)

-- What a middleware has set before.
abbrev old_header : Header
old_header = ("Server", "old" ∷ []) ∷ ("Via", "proxy" ∷ []) ∷ []

serve-Responds_example :
    Responds
      (serve_open
        (head_of head ∷ (send_body "r1" reads).sent)
        initial
        (record { header = old_header; calls = [] }))
      head
      (104 ∷ 105 ∷ 33 ∷ [])
      true
unfolding bytes_read ending canonical_key
serve-Responds_example =
    serve-Responds head old_header (refl, (refl, tt)) (send_body-Packets "r1" reads)

abbrev request : OpenHttpTunnelRequest
request = record {
  id = "r1";
  type = "jenkins";
  name = "ci";
  method = "GET";
  uri = "/";
  headers = [];
  body = [];
}

abbrev service_response : HttpResponse
service_response = record {
  status_code = pos 200;
  header = ("Server", "s" ∷ []) ∷ [];
  content_length = negsuc 0;
  reads = reads;
}

run_http_request-Answered_example :
    (run : Run) × (t' : TunnelEnd) × (run_http_request tokens
        (record { registered = false })
        10
        request
        (some service_response)
      ≡ ok run)
    × (receive "agent1" [] run.sent waiting ≡ some t')
    × Answered t' 4 old_header
        (pos 200)
        (record { name = "Server"; values = "s" ∷ [] } ∷ [])
        (104 ∷ 105 ∷ 33 ∷ [])
        true
unfolding bytes_read ending find_unlocked lookup make_headers make_header is_mutated contains_folded
    equal_fold canonical_key
run_http_request-Answered_example =
    run_http_request-Answered tokens (record { registered = false }) 10 "agent1" [] request
      service_response (record { name = "Server"; values = "s" ∷ [] } ∷ []) 200 waiting 4 old_header
      refl refl (omega arith) (refl, refl) refl (refl, (refl, tt))
