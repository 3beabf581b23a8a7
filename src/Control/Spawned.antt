-- ===== src/Control/Spawned.antt =====
-- Which instance a request that arrives over the tunnel is executed by.
use oes_birger.Prelude.{
  ℕ, String, ◌==◌, eq_iff, ◌≡◌, ap, ◌∙◌, sym, subst, ◌&&◌, List, [], ◌∷◌, ◌++◌, some, All,
  get_elem?, arith, ◌⊎◌, ok, Bool-cases, Option-cases, inl, inr,
}
use oes_birger.Channel.{send, Chan}
use oes_birger.Tunnel.Messages.{
  MessageWrapper, OpenHttpTunnelRequest, open_http_tunnel_request, make_bad_gateway_response,
}
use oes_birger.Service.Endpoints.{ConfiguredEndpoint}
use oes_birger.Service.Endpoints.Configure.{
  OutgoingServiceConfig, Instance, Libraries, SecretsLoader, configure_endpoints,
}
use oes_birger.Service.Endpoints.Ready.{IsReady}
use oes_birger.Service.Endpoints.Backed.{RefersFrom, configure_endpoints-RefersFrom}
use oes_birger.Control.{TunnelEnd, find_endpoint, open_request, handle_http_control}

-- The instance that serves a request, as the list of instances has it.
pub record ServedBy (instances : List Instance) (req : OpenHttpTunnelRequest) (executor : ℕ)
    : Type 0 where
  pub instance : Instance
  pub found : get_elem? instances executor ≡ some instance
  pub ready : IsReady req.type instance

some-inj : {A : Type 0} {a b : A} → some a ≡ some b → a ≡ b
some-inj e = cc e

find_endpoint-ServedBy :
    (instances : List Instance) (req : OpenHttpTunnelRequest) (eps : List ConfiguredEndpoint)
    (ep : ConfiguredEndpoint)
    → All (RefersFrom 0 instances) eps
    → find_endpoint eps req ≡ some ep
    → ServedBy instances req ep.executor
unfolding find_endpoint
find_endpoint-ServedBy instances req [] ep h e = cc e
find_endpoint-ServedBy instances req (a ∷ eps) ep (r, h) e =
    elim (Bool-cases (a.configured && a.type == req.type && a.name == req.name)) [
      | inl this ↦
          let same : a ≡ ep = ground arith in
          let type = (eq_iff a.type req.type).0 (ground arith) in
          let at : a.executor ≡ r.index = r.at ∙ omega arith in
          subst (λ x. ServedBy instances req x.executor) same
            (record {
              instance = r.instance;
              found = ap (get_elem? instances) at ∙ r.found;
              ready = subst (λ t. IsReady t r.instance) type (r.ready (ground arith));
            })
      | inr other ↦ find_endpoint-ServedBy instances req eps ep h (ground arith)
    ]

module _ {C : Type 0} (lib : Libraries C) (secrets_loader : SecretsLoader)
    (services : List (OutgoingServiceConfig C)) (eps : List ConfiguredEndpoint)
    (instances : List Instance) where
  -- If the endpoints were configured from the services, a request that arrives and does not meet a closed
  -- data flow is either executed by one instance that was made for a service of the request's type, or
  -- answered with a bad gateway on the data flow; nothing else of this end of the tunnel changes.
  pub open_http_tunnel_request-ServedBy :
      (agent_name : String) (req : OpenHttpTunnelRequest) (t t' : TunnelEnd)
      → configure_endpoints lib secrets_loader services ≡ ok (eps, instances)
      → handle_http_control agent_name eps (open_http_tunnel_request req) t ≡ some t'
      → ((executor : ℕ) × ServedBy instances req executor
          × (t' ≡ record t {
            spawned =
                t.spawned
                ++ record { executor = executor; agent_name = agent_name; req = req } ∷ [];
          }))
        ⊎ ((dataflow : Chan MessageWrapper) × (send (make_bad_gateway_response req.id) t.dataflow
              ≡ some dataflow)
            × (t' ≡ record t { dataflow = dataflow }))
  unfolding handle_http_control open_request
  open_http_tunnel_request-ServedBy agent_name req t t' configured e =
      elim (Option-cases (find_endpoint eps req)) [
        | inr (ep, found) ↦ inl (
          ep.executor,
          find_endpoint-ServedBy instances req eps ep
              (configure_endpoints-RefersFrom lib secrets_loader services eps instances configured)
              found,
          sym (some-inj (rw (found, open_request) at e)),
        )
        | inl missing ↦ elim (Option-cases (send (make_bad_gateway_response req.id) t.dataflow)) [
          | inl closed ↦ cc (rw (missing, open_request, closed) at e)
          | inr (dataflow, sent) ↦
              inr (dataflow, sent, sym (some-inj (rw (missing, open_request, sent) at e)))
        ]
      ]
