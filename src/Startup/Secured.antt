-- ===== src/Startup/Secured.antt =====
-- What a controller that has started serves, to whom, and under which names.
use oes_birger.Prelude.{
  ℕ, ◌≡◌, refl, sym, ◌∙◌, subst, ap, Bool, true, false, List, [], ◌∷◌, ◌++◌, map, Option, none,
  some, ◌⊎◌, inl, inr, All, All-append, Result, ok, err, panic, >>=-eq-ok, if◌then◌else◌,
}
use mathlib.Core.List.{map-append}
use oes_birger.Authority.{Bytes, Certificate, Crypto, KeyPair, Ca, to_pem, leaf}
use oes_birger.Authority
use oes_birger.Authority.Server.{make_cert_pool}
use oes_birger.Service.Credentials.{IncomingServiceConfig}
use oes_birger.Service.Endpoints.{ConfiguredEndpoint}
use oes_birger.Config.Controller.{ControllerConfig, get_control_listen_port}
use oes_birger.Startup.{
  ClientAuth, verify_client_cert_if_given, require_and_verify_client_cert, ServerTls, Serves,
  control_api, agent_tunnels, identified, fixed, metrics, Listener, own_service, cert_pool,
  run_http_server, run_https_server, run_control_server, run_agent_grpc_server, run_services,
  run_servers, run_prometheus_http_server,
}

ok-inj {ℓ} : {E : Type 0} {A : Type ℓ} {a b : A} → ◌≡◌ {A = Result E A} (ok a) (ok b) → a ≡ b
ok-inj e = cc e

-- What an incoming service is served by.
abbrev pub served : IncomingServiceConfig → Serves
served service = if service.use_http then fixed service else identified service

abbrev pub serves_of : Listener → Serves
serves_of l = l.serves

-- All that the controller serves, in the order of its start.
abbrev pub all_served : {C : Type 0} → ControllerConfig C → List ConfiguredEndpoint → List Serves
all_served c endpoints =
    control_api
      ∷ agent_tunnels c.insecure_agent_connections endpoints
      ∷ identified (own_service c.service_listen_port)
      ∷ map served c.incoming_services
    ++ metrics ∷ []

module _ (lib : Crypto) (append_from_pem : Bytes → List Certificate → List Certificate) (ca : Ca)
    (server_cert : KeyPair) where
  -- The server shows its certificate, and checks that of a client against the authority's pool.
  pub record Shows (asks : ClientAuth) (tls : Option ServerTls) : Type 0 where
    pub config : ServerTls
    pub is_set : tls ≡ some config
    pub certificate : config.certificate ≡ server_cert
    pub client_cas : make_cert_pool lib append_from_pem ca ≡ ok config.client_cas
    pub client_auth : config.client_auth ≡ asks

  module _ {C : Type 0} (c : ControllerConfig C) where
    -- How a listener is guarded, by what it serves.
    abbrev pub Guards : ℕ → Option ServerTls → Serves → Type 0
    Guards port tls control_api =
        (port ≡ c.control_listen_port) × Shows require_and_verify_client_cert tls
    Guards port tls (agent_tunnels insecure endpoints) =
        (port ≡ c.agent_listen_port)
        × (insecure ≡ c.insecure_agent_connections)
        × (((insecure ≡ true) × (tls ≡ none))
            ⊎ ((insecure ≡ false) × Shows require_and_verify_client_cert tls))
    Guards port tls (identified service) =
        (port ≡ service.port) × (service.use_http ≡ false) × Shows verify_client_cert_if_given tls
    Guards port tls (fixed service) =
        (port ≡ service.port) × (service.use_http ≡ true) × (tls ≡ none)
    Guards port tls metrics = (port ≡ c.prometheus_listen_port) × (tls ≡ none)

    abbrev pub IsGuarded : Listener → Type 0
    IsGuarded l = Guards l.port l.tls l.serves

    cert_pool-inv :
        (pool : List Certificate)
        → cert_pool lib append_from_pem ca server_cert ≡ ok pool
        → make_cert_pool lib append_from_pem ca ≡ ok pool
    unfolding cert_pool
    cert_pool-inv pool e = inverse (make_cert_pool lib append_from_pem ca) refl
      where
        inverse :
            (made : Result Authority.Error (List Certificate))
            → make_cert_pool lib append_from_pem ca ≡ made
            → make_cert_pool lib append_from_pem ca ≡ ok pool
        inverse (ok p) f = f ∙ ap ok (ok-inj (rw f at e))
        inverse (err why) f = cc (rw f at e)
        inverse panic f = cc (rw f at e)

    shows :
        (asks : ClientAuth) (t : ServerTls) (pool : List Certificate)
        → cert_pool lib append_from_pem ca server_cert ≡ ok pool
        → t.client_cas ≡ pool
        → t.certificate ≡ server_cert
        → t.client_auth ≡ asks
        → Shows asks (some t)
    shows asks t pool e cas certificate auth = record {
      config = t;
      is_set = refl;
      certificate = certificate;
      client_cas = cert_pool-inv pool e ∙ ap ok (sym cas);
      client_auth = auth;
    }

    run_https_server-IsGuarded :
        (service : IncomingServiceConfig) (l : Listener)
        → service.use_http ≡ false
        → run_https_server lib append_from_pem ca server_cert service ≡ ok l
        → IsGuarded l × (l.serves ≡ identified service)
    unfolding run_https_server
    run_https_server-IsGuarded service l plain e =
        let (pool, f, g) = >>=-eq-ok (cert_pool lib append_from_pem ca server_cert) _ e in
        subst (λ l. IsGuarded l × (l.serves ≡ identified service)) (ok-inj g)
          ((refl, plain, shows verify_client_cert_if_given _ pool f refl refl refl), refl)

    run_control_server-IsGuarded :
        (l : Listener)
        → run_control_server lib append_from_pem ca server_cert (get_control_listen_port c) ≡ ok l
        → IsGuarded l × (l.serves ≡ control_api)
    unfolding run_control_server get_control_listen_port
    run_control_server-IsGuarded l e =
        let (pool, f, g) = >>=-eq-ok (cert_pool lib append_from_pem ca server_cert) _ e in
        subst (λ l. IsGuarded l × (l.serves ≡ control_api)) (ok-inj g)
          ((refl, shows require_and_verify_client_cert _ pool f refl refl refl), refl)

    run_agent_grpc_server-IsGuarded :
        (insecure : Bool) (endpoints : List ConfiguredEndpoint) (l : Listener)
        → insecure ≡ c.insecure_agent_connections
        → run_agent_grpc_server lib append_from_pem ca server_cert insecure c.agent_listen_port
            endpoints
          ≡ ok l
        → IsGuarded l × (l.serves ≡ agent_tunnels insecure endpoints)
    unfolding run_agent_grpc_server
    run_agent_grpc_server-IsGuarded true endpoints l same e =
        subst (λ l. IsGuarded l × (l.serves ≡ agent_tunnels true endpoints)) (ok-inj e)
          ((refl, same, inl (refl, refl)), refl)
    run_agent_grpc_server-IsGuarded false endpoints l same e =
        let (pool, f, g) = >>=-eq-ok (cert_pool lib append_from_pem ca server_cert) _ e in
        subst (λ l. IsGuarded l × (l.serves ≡ agent_tunnels false endpoints)) (ok-inj g)
          (
            (refl, same, inr (refl, shows require_and_verify_client_cert _ pool f refl refl refl)),
            refl,
          )

    run_service-IsGuarded :
        (use_http : Bool) (service : IncomingServiceConfig) (l : Listener)
        → service.use_http ≡ use_http
        → (if use_http
            then ok (run_http_server service)
            else run_https_server lib append_from_pem ca server_cert service)
          ≡ ok l
        → IsGuarded l × (l.serves ≡ (if use_http then fixed service else identified service))
    unfolding run_http_server
    run_service-IsGuarded true service l plain e =
        subst (λ l. IsGuarded l × (l.serves ≡ fixed service)) (ok-inj e) ((refl, plain, refl), refl)
    run_service-IsGuarded false service l plain e = run_https_server-IsGuarded service l plain e

    run_services-IsGuarded :
        (services : List IncomingServiceConfig) (ls : List Listener)
        → run_services lib append_from_pem ca server_cert services ≡ ok ls
        → All IsGuarded ls × (map serves_of ls ≡ map served services)
    unfolding run_services run_http_server
    run_services-IsGuarded [] ls e =
        subst (λ ls. All IsGuarded ls × (map serves_of ls ≡ [])) (ok-inj e) (tt, refl)
    run_services-IsGuarded (service ∷ services) ls e =
        let (l, f, e₁) =
          >>=-eq-ok
            (if service.use_http
              then ok (run_http_server service)
              else run_https_server lib append_from_pem ca server_cert service)
            _ e in
        let (rest, g, e₂) =
          >>=-eq-ok (run_services lib append_from_pem ca server_cert services) _ e₁ in
        let (guarded, same) = run_service-IsGuarded service.use_http service l refl f in
        let (all_guarded, all_same) = run_services-IsGuarded services rest g in
        subst (λ ls. All IsGuarded ls × (map serves_of ls ≡ map served (service ∷ services)))
          (ok-inj e₂) ((guarded, all_guarded), cc (same, all_same))

    metrics_last :
        (ls : List Listener) (services : List IncomingServiceConfig)
        → map serves_of ls ≡ map served services
        → map serves_of (ls ++ run_prometheus_http_server c.prometheus_listen_port ∷ [])
          ≡ map served services ++ metrics ∷ []
    unfolding run_prometheus_http_server
    metrics_last ls services e = simp (map-append) (ap (λ xs. xs ++ metrics ∷ []) e)

    pub run_servers-IsGuarded :
        (endpoints : List ConfiguredEndpoint) (ls : List Listener)
        → run_servers lib append_from_pem ca server_cert c endpoints ≡ ok ls
        → All IsGuarded ls × (map serves_of ls ≡ all_served c endpoints)
    unfolding run_servers run_prometheus_http_server
    run_servers-IsGuarded endpoints ls e =
        let (control, f₁, e₁) =
          >>=-eq-ok
            (run_control_server lib append_from_pem ca server_cert (get_control_listen_port c)) _
            e in
        let (agents, f₂, e₂) =
          >>=-eq-ok
            (run_agent_grpc_server lib append_from_pem ca server_cert c.insecure_agent_connections
              c.agent_listen_port endpoints)
            _ e₁ in
        let (own, f₃, e₃) =
          >>=-eq-ok
            (run_https_server lib append_from_pem ca server_cert
              (own_service c.service_listen_port))
            _ e₂ in
        let (services, f₄, e₄) =
          >>=-eq-ok (run_services lib append_from_pem ca server_cert c.incoming_services) _ e₃ in
        let (g₁, s₁) = run_control_server-IsGuarded control f₁ in
        let (g₂, s₂) =
          run_agent_grpc_server-IsGuarded c.insecure_agent_connections endpoints agents refl f₂ in
        let (g₃, s₃) = run_https_server-IsGuarded (own_service c.service_listen_port) own refl f₃ in
        let (g₄, s₄) = run_services-IsGuarded c.incoming_services services f₄ in
        subst (λ ls. All IsGuarded ls × (map serves_of ls ≡ all_served c endpoints)) (ok-inj e₄)
          (
            (g₁, (g₂, (g₃, All-append IsGuarded services _ g₄ ((refl, refl), tt)))),
            cc (s₁, s₂, s₃, metrics_last services c.incoming_services s₄),
          )
