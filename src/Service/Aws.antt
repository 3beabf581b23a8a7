-- ===== src/Service/Aws.antt =====
-- internal/serviceconfig/awsapi.go: the request to AWS, before it is signed. The signature is the AWS
-- SDK's and is not part of the model.
pub mod Strip
pub mod Make
pub mod Execute
use oes_birger.Prelude.{
  String, Bool, true, false, ◌||◌, List, [], ◌∷◌, Option, none, some, if◌then◌else◌, lookup, Result,
  ok, ◌>>=◌, ◌&&◌, not,
}
use oes_birger.Text.{is_empty_text, map_text, lower_char, concat}
use oes_birger.Jwt.{Error}
use oes_birger.Tunnel.Messages.{HttpHeader, OpenHttpTunnelRequest}
use oes_birger.Tunnel.Headers.{Header, header_add_all, get_header_value}

-- The map of the headers that are meant to be left out.
abbrev pub strip_headers : List (String × Bool)
strip_headers =
    ("Authorization", true)
    ∷ ("Connection", true)
    ∷ ("X-Amz-Content-Sha256", true)
    ∷ ("X-Opsmx-Original-Host", true)
    ∷ ("X-Opsmx-Original-Port", true)
    ∷ ("X-Opsmx-Signing-Region", true)
    ∷ ("X-Opsmx-Service-Signing-Name", true)
    ∷ []

unfoldable pub to_lower : String → String
unfolding map_text lower_char
to_lower = map_text lower_char

-- `skip, found := stripHeaders[targetName]; found && skip`.
unfoldable pub is_skipped : HttpHeader → Bool
unfolding to_lower
is_skipped header = elim (lookup (to_lower header.name) strip_headers) [
  | none ↦ false
  | some skip ↦ skip
]

unfoldable pub aws_headers : List HttpHeader → Header → Header
unfolding is_skipped
aws_headers [] out = out
aws_headers (header ∷ headers) out =
    aws_headers headers
      (if is_skipped header then out else header_add_all header.name header.values out)

-- Where the request goes and how it is signed, as the client's headers say.
pub record Target : Type 0 where
  pub host : String
  pub port : String
  pub signer_service : String
  pub signing_region : String
  pub timestamp : String

unfoldable pub target_of : OpenHttpTunnelRequest → Result Error Target
target_of req = do
  host ← get_header_value req "x-opsmx-original-host"
  port ← get_header_value req "x-opsmx-original-port"
  signer_service ← get_header_value req "x-opsmx-service-signing-name"
  signing_region ← get_header_value req "x-opsmx-signing-region"
  timestamp ← get_header_value req "x-amz-date"
  ok (record {
    host = host;
    port = port;
    signer_service = signer_service;
    signing_region = signing_region;
    timestamp = timestamp;
  })

-- A request with one of them missing is answered with a bad gateway.
unfoldable pub is_complete : Target → Bool
is_complete t = not (
    is_empty_text t.host
    || is_empty_text t.port
    || is_empty_text t.signer_service
    || is_empty_text t.signing_region
    || is_empty_text t.timestamp)

unfoldable pub actual_url : Target → OpenHttpTunnelRequest → String
actual_url t req = concat ("https://" ∷ t.host ∷ ":" ∷ t.port ∷ req.uri ∷ [])
