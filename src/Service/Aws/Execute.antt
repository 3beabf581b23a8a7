-- ===== src/Service/Aws/Execute.antt =====
-- awsapi.go, `ExecuteHTTPRequest`. The signer is the AWS SDK's, the argument `sign`: it gives the header
-- of the signed request, or fails. `parse_time` is `time.Parse`.
use oes_birger.Prelude.{
  ℕ, String, Bool, not, [], Option, none, some, if◌then◌else◌, Result, ok, err, ◌>>=◌,
}
use oes_birger.Jwt.{Registry, Mutation, registry}
use oes_birger.Jwt
use oes_birger.Tunnel.Messages.{OpenHttpTunnelRequest}
use oes_birger.Tunnel.Headers.{Header}
use oes_birger.Tunnel.Cancel.{CancelRegistry, register_cancel_function, unregister_cancel_function}
use oes_birger.Tunnel.Request.{HttpResponse}
use oes_birger.Service.Outgoing.{OutgoingRequest, Execution, refuse, send_built}
use oes_birger.Service.Aws.{Target, target_of, is_complete, actual_url, aws_headers}
use oes_birger.Service.Aws.Make.{AwsEndpoint}

-- The arguments of `signer.Sign`: the request, the service, the region and the time.
abbrev pub Signer : Type 0
Signer = AwsEndpoint → OutgoingRequest → String → String → ℕ → Option Header

abbrev pub timestamp_of : (String → Option ℕ) → ℕ → String → ℕ
timestamp_of parse_time now text = elim (parse_time text) [ none ↦ now | some ts ↦ ts ]

abbrev pub signed : Option Header → Result Jwt.Error Header
signed none = err (registry "failed to sign AWS request")
signed (some header) = ok header

module _ (reg : Registry) (m : Mutation) (now : ℕ) (sign : Signer) (parse_time : String → Option ℕ)
    (build : OutgoingRequest → Bool) (respond : OutgoingRequest → Option HttpResponse) where
  abbrev pub bare_request : Target → OpenHttpTunnelRequest → OutgoingRequest
  bare_request t req = record {
    method = req.method;
    url = actual_url t req;
    header = [];
    body = req.body;
  }

  unfoldable pub sign_request :
      AwsEndpoint → Target → OpenHttpTunnelRequest → Result Jwt.Error Header
  unfolding actual_url aws_headers
  sign_request a t req = signed (
      sign a (record (bare_request t req) { header = aws_headers req.headers [] }) t.signer_service
        t.signing_region (timestamp_of parse_time now t.timestamp))

  unfoldable pub call_aws :
      AwsEndpoint → OpenHttpTunnelRequest → ℕ → CancelRegistry → Target → Result Jwt.Error Execution
  unfolding is_complete sign_request send_built
  call_aws a req ctx cancels t =
      if not (is_complete t)
      then ok (refuse req cancels)
      else send_built reg m now build respond req (bare_request t req)
          (unregister_cancel_function req.id (register_cancel_function req.id ctx cancels))
          (sign_request a t req)

  unfoldable pub execute_aws_request :
      AwsEndpoint → OpenHttpTunnelRequest → ℕ → CancelRegistry → Result Jwt.Error Execution
  unfolding target_of call_aws
  execute_aws_request a req ctx cancels = do t ← target_of req; call_aws a req ctx cancels t
