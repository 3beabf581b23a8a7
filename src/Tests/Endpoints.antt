-- ===== src/Tests/Endpoints.antt =====
-- A request to a generic endpoint.
use oes_birger.Prelude.{
  String, ◌≡◌, refl, true, false, [], ◌∷◌, none, some, lookup, insert, delete, Result, ok,
}
use oes_birger.Text.{canonical_key, concat, is_empty_text}
use oes_birger.Jwt.{Error, Mutation}
use oes_birger.Tunnel.Messages.{OpenHttpTunnelRequest, make_bad_gateway_response}
use oes_birger.Tunnel.Headers.{
  copy_headers, copy_header, header_add_all, header_add, header_set, is_mutated, contains_folded,
}
use oes_birger.Tunnel.Cancel.{
  register_cancel_function, unregister_cancel_function, call_cancel_function,
}
use oes_birger.Tunnel.Request.{run_http_request}
use oes_birger.Service.Generic.{GenericEndpoint}
use oes_birger.Service.Outgoing.{OutgoingRequest, Execution}
use oes_birger.Service.Generic.Execute.{execute_http_request}
use oes_birger.Service.Generic.Sent.{
  execute_http_request-authorization, execute_http_request-unregistered,
}
use oes_birger.Service.Aws.{Target}
use oes_birger.Service.Aws.Make.{AwsEndpoint, static_credentials}
use oes_birger.Service.Aws.Execute.{Signer, signed, sign_request}
use oes_birger.Service.Aws.Strip.{IsUnstripped, sign_request-IsUnstripped}
use oes_birger.Tests.Tokens.{tokens}

abbrev plain : Mutation
plain = record { registered = false }

abbrev basic_header : String → String → String
basic_header user password = "Basic Y2k="

abbrev jenkins : GenericEndpoint
jenkins = record {
  endpoint_type = "jenkins";
  endpoint_name = "ci";
  url = "https://ci";
  insecure = false;
  credentials = record {
    type = "bearer";
    username = "";
    password = "";
    token = "";
    secret_name = "s";
    raw_username = "";
    raw_password = "";
    raw_token = "t0k";
  };
}

abbrev request : OpenHttpTunnelRequest
request = record {
  id = "r1";
  type = "jenkins";
  name = "ci";
  method = "GET";
  uri = "/job";
  headers = record { name = "authorization"; values = "Bearer own" ∷ [] } ∷ [];
  body = [];
}

abbrev full : OutgoingRequest
full = record {
  method = "GET";
  url = "https://ci/job";
  header = ("Authorization", "Bearer t0k" ∷ []) ∷ ("X-Opsmx-Agent-Name", "agent1" ∷ []) ∷ [];
  body = [];
}

abbrev executed : Execution
executed = record {
  request = some full;
  sent = make_bad_gateway_response "r1" ∷ [];
  cancels = record { m = []; cancelled = [] };
}

abbrev run : Result Error Execution
run =
    execute_http_request tokens plain 10 basic_header (λ r. true) (λ r. none) jenkins "agent1"
      request 7 (record { m = []; cancelled = [] })

run_test : run ≡ ok executed
unfolding execute_http_request run_http_request copy_headers copy_header is_mutated contains_folded
    header_add_all header_add header_set insert delete unregister_cancel_function
    register_cancel_function is_empty_text canonical_key
run_test = refl

execute_http_request-authorization_example :
    lookup "Authorization" full.header ≡ some ("Bearer t0k" ∷ [])
unfolding concat
execute_http_request-authorization_example =
    execute_http_request-authorization tokens plain 10 basic_header (λ r. true) (λ r. none) jenkins
      "agent1" request 7 (record { m = []; cancelled = [] }) executed full ("Bearer t0k" ∷ [])
      run_test refl refl

execute_http_request-unregistered_example :
    call_cancel_function "r1" executed.cancels ≡ executed.cancels
unfolding lookup
execute_http_request-unregistered_example =
    execute_http_request-unregistered tokens plain 10 basic_header (λ r. true) (λ r. none) jenkins
      "agent1" request 7 (record { m = []; cancelled = [] }) executed run_test refl

abbrev aws : AwsEndpoint
aws = record { creds = static_credentials "k" "s" }

abbrev target : Target
target = record {
  host = "ec2.example";
  port = "443";
  signer_service = "ec2";
  signing_region = "us-east-1";
  timestamp = "";
}

-- A signer that adds nothing.
abbrev signer : Signer
signer a r service region time = some r.header

sign_request-IsUnstripped_example :
    (r : OutgoingRequest) × (sign_request tokens plain 10 signer
        (λ text. none)
        (λ r. true)
        (λ r. none)
        aws
        target
        request
      ≡ signed (some r.header))
    × IsUnstripped target request r
sign_request-IsUnstripped_example =
    sign_request-IsUnstripped 10 signer (λ text. none) aws target tokens plain (λ r. true)
      (λ r. none) request
