-- ===== src/Tunnel/Messages.antt =====
-- internal/tunnel/tunnel.proto and the functions of internal/tunnel/http.go and messagehelper.go
-- that wrap one message. A `oneof` is a data type with a case more, for the field that is not set.
use oes_birger.Prelude.{ℕ, ℤ, pos, String, List, [], Bool, Option}

pub record PingRequest : Type 0 where
  pub ts : ℕ

pub record PingResponse : Type 0 where
  pub ts : ℕ
  pub echoed_ts : ℕ

pub record HttpHeader : Type 0 where
  pub name : String
  pub values : List String

pub record OpenHttpTunnelRequest : Type 0 where
  pub id : String
  pub name : String
  pub type : String
  pub method : String
  pub uri : String
  pub headers : List HttpHeader
  pub body : List ℕ

pub record CancelRequest : Type 0 where
  pub id : String

pub record HttpTunnelResponse : Type 0 where
  pub id : String
  pub status : ℤ
  pub headers : List HttpHeader
  pub content_length : ℤ

pub record HttpTunnelChunkedResponse : Type 0 where
  pub id : String
  pub body : List ℕ

pub record Annotation : Type 0 where
  pub name : String
  pub value : String

pub record EndpointHealth : Type 0 where
  pub name : String
  pub type : String
  pub configured : Bool
  pub namespaces : List String
  pub account_id : String
  pub assume_role : String
  pub annotations : List Annotation

pub record AgentInformation : Type 0 where
  pub annotations : List Annotation

pub record Hello : Type 0 where
  pub endpoints : List EndpointHealth
  pub version : String
  pub hostname : String
  pub client_certificate : List ℕ
  pub agent_info : Option AgentInformation

pub data HttpTunnelControl : Type 0 where
  open_http_tunnel_request : OpenHttpTunnelRequest → HttpTunnelControl
  cancel_request : CancelRequest → HttpTunnelControl
  http_tunnel_response : HttpTunnelResponse → HttpTunnelControl
  http_tunnel_chunked_response : HttpTunnelChunkedResponse → HttpTunnelControl
  no_control : HttpTunnelControl

pub data MessageWrapper : Type 0 where
  ping_request : PingRequest → MessageWrapper
  ping_response : PingResponse → MessageWrapper
  hello : Hello → MessageWrapper
  http_tunnel_control : HttpTunnelControl → MessageWrapper
  no_event : MessageWrapper

unfoldable pub make_chunked_response : String → List ℕ → MessageWrapper
make_chunked_response id bytes =
    http_tunnel_control (http_tunnel_chunked_response (record { id = id; body = bytes }))

unfoldable pub make_bad_gateway_response : String → MessageWrapper
make_bad_gateway_response id = http_tunnel_control (
    http_tunnel_response
      (record { id = id; status = pos 502; headers = []; content_length = pos 0 }))

unfoldable pub make_http_tunnel_cancel_request : String → MessageWrapper
make_http_tunnel_cancel_request id = http_tunnel_control (cancel_request (record { id = id }))

unfoldable pub make_http_tunnel_open_tunnel_request : OpenHttpTunnelRequest → MessageWrapper
make_http_tunnel_open_tunnel_request req = http_tunnel_control (open_http_tunnel_request req)

-- The clock is an argument: nanoseconds since the epoch.
unfoldable pub make_ping_response : ℕ → PingRequest → MessageWrapper
make_ping_response now req = ping_response (record { ts = now; echoed_ts = req.ts })

-- The message that a response begins with.
abbrev pub head_of : HttpTunnelResponse → MessageWrapper
head_of resp = http_tunnel_control (http_tunnel_response resp)
