-- ===== src/Service/Outgoing.antt =====
-- internal/serviceconfig: what the endpoints' `ExecuteHTTPRequest` have in common. The request is built,
-- gets its header, and is sent by `RunHTTPRequest`; where one of the first two fails, the client gets a
-- bad gateway.
use oes_birger.Prelude.{
  ℕ, String, ◌≡◌, ap, ◌∙◌, sym, Bool, not, List, [], ◌∷◌, Option, none, some, if◌then◌else◌, Result,
  ok, err, panic, ◌>>=◌, >>=-eq-ok, Bool-cases, inl, inr,
}
use oes_birger.Jwt.{Registry, Mutation}
use oes_birger.Jwt
use oes_birger.Tunnel.Messages.{MessageWrapper, OpenHttpTunnelRequest, make_bad_gateway_response}
use oes_birger.Tunnel.Headers.{Header}
use oes_birger.Tunnel.Cancel.{CancelRegistry}
use oes_birger.Tunnel.Request.{HttpResponse, run_http_request}

pub record OutgoingRequest : Type 0 where
  pub method : String
  pub url : String
  pub header : Header
  pub body : List ℕ

-- What went to the service, what was put on the data flow, and the registry of cancel functions.
pub record Execution : Type 0 where
  pub request : Option OutgoingRequest
  pub sent : List MessageWrapper
  pub cancels : CancelRegistry

abbrev pub refuse : OpenHttpTunnelRequest → CancelRegistry → Execution
refuse req cancels = record {
  request = none;
  sent = make_bad_gateway_response req.id ∷ [];
  cancels = cancels;
}

pub ok-inj : {A : Type 0} {a b : A} → ◌≡◌ {A = Result Jwt.Error A} (ok a) (ok b) → a ≡ b
ok-inj e = cc e

some-inj : {A : Type 0} {a b : A} → some a ≡ some b → a ≡ b
some-inj e = cc e

module _ (reg : Registry) (m : Mutation) (now : ℕ) where
  -- The call itself, where the header could be made.
  unfoldable pub send_with :
      (OutgoingRequest → Option HttpResponse)
      → OpenHttpTunnelRequest
      → OutgoingRequest
      → CancelRegistry
      → Result Jwt.Error Header
      → Result Jwt.Error Execution
  send_with respond req bare cancels (err e) = ok (refuse req cancels)
  send_with respond req bare cancels panic = panic
  send_with respond req bare cancels (ok header) = do
    run ← run_http_request reg m now req (respond (record bare { header = header }))
    ok (record {
      request = some (record bare { header = header });
      sent = run.sent;
      cancels = cancels;
    })

  unfoldable pub send_built :
      (OutgoingRequest → Bool)
      → (OutgoingRequest → Option HttpResponse)
      → OpenHttpTunnelRequest
      → OutgoingRequest
      → CancelRegistry
      → Result Jwt.Error Header
      → Result Jwt.Error Execution
  unfolding send_with
  send_built build respond req bare cancels header =
      if not (build bare)
      then ok (refuse req cancels)
      else send_with respond req bare cancels header

  module _ (respond : OutgoingRequest → Option HttpResponse) (req : OpenHttpTunnelRequest)
      (bare : OutgoingRequest) (cancels : CancelRegistry) (ex : Execution) where
    abbrev pub Sends : Result Jwt.Error Header → Type 0
    Sends made =
        (ex.cancels ≡ cancels)
        × ((full : OutgoingRequest)
            → ex.request ≡ some full
            → (made ≡ ok full.header) × (full ≡ record bare { header = full.header }))

    Sends-refuse : (made : Result Jwt.Error Header) → refuse req cancels ≡ ex → Sends made
    Sends-refuse made e =
        (ap (λ x. x.cancels) (sym e), λ full f. absurd (cc (ap (λ x. x.request) e, f)))

    send_with-Sends :
        (made : Result Jwt.Error Header)
        → send_with respond req bare cancels made ≡ ok ex
        → Sends made
    unfolding send_with
    send_with-Sends (err x) e = Sends-refuse (err x) (ok-inj e)
    send_with-Sends panic e = cc e
    send_with-Sends (ok header) e =
        let (run, ran, e₁) =
          >>=-eq-ok (run_http_request reg m now req (respond (record bare { header = header }))) _
            e in
        (
          ap (λ x. x.cancels) (sym (ok-inj e₁)),
          λ full f.
              let same = some-inj (ap (λ x. x.request) (ok-inj e₁) ∙ f) in
              (
                ap ok (ap (λ r. r.header) same),
                sym same ∙ ap (λ r. record bare { header = r.header }) same,
              ),
        )

    pub send_built-Sends :
        (build : OutgoingRequest → Bool) (made : Result Jwt.Error Header)
        → send_built build respond req bare cancels made ≡ ok ex
        → Sends made
    unfolding send_built
    send_built-Sends build made e = elim (Bool-cases (build bare)) [
      | inl built ↦ send_with-Sends made (rw built at e)
      | inr refused ↦ Sends-refuse made (ok-inj (rw refused at e))
    ]
