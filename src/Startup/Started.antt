-- ===== src/Startup/Started.antt =====
-- A controller that has started.
use oes_birger.Prelude.{
  true, String, ◌≡◌, refl, sym, subst, List, [], ◌∷◌, map, Option, All, Result, ok, >>=-eq-ok,
  >>=-elim, map_err->>=-elim,
}
use oes_birger.Authority.{Bytes, Certificate, Crypto, KeyPair, load_ca_from_file}
use oes_birger.Authority.Server.{make_server_cert}
use oes_birger.Authority.SelfSigned.{ReadsBack}
use oes_birger.Authority.Named.{KeepsNames, IsFor, make_server_cert-IsFor}
use oes_birger.Jwt.{register_mutation_keyset}
use oes_birger.Service.Endpoints.Configure.{configure_endpoints}
use oes_birger.Config.Controller.{ControllerConfig, load_config, parse_config}
use oes_birger.Config.Controller
use oes_birger.Config.Controller.Loaded.{IsNamed, HasPorts, IsServable, load_config-IsServable}
use oes_birger.Config.Keys.{load_keyset, load_keyset-has_key}
use oes_birger.Startup.{
  bad_config, bad_keys, bad_authority, bad_endpoints, bad_registry, World, Running, jaeger_endpoint,
  run_servers, make_loader, start_controller,
}
use oes_birger.Startup.Secured.{IsGuarded, serves_of, all_served, run_servers-IsGuarded}

-- The listeners are those of the configuration, each guarded as it should be; the ports and the names are
-- there; the certificate is for the names that clients are told; the key for new tokens is loaded.
pub record IsUp {K C : Type 0} (w : World K C) (r : Running K C) : Type 0 where
  pub guarded :
      All (IsGuarded w.crypto w.append_from_pem r.authority r.server_cert r.config) r.listeners
  pub serves : map serves_of r.listeners ≡ all_served r.config r.endpoints
  pub certificate : IsFor w.crypto r.config.server_names r.server_cert
  pub has_key : w.has_key r.current_key r.keyset ≡ true
  pub mutates : r.mutation.registered ≡ true

ok-inj {ℓ} : {E : Type 0} {A : Type ℓ} {a b : A} → ◌≡◌ {A = Result E A} (ok a) (ok b) → a ≡ b
ok-inj e = cc e

start_controller-IsUp :
    {K C : Type 0} (w : World K C) (loaded : Result Controller.Error (ControllerConfig C))
    (r : Running K C)
    → ReadsBack w.crypto w.x509_key_pair
    → KeepsNames w.crypto
    → start_controller w loaded ≡ ok r
    → IsUp w r × (loaded ≡ ok r.config)
unfolding start_controller register_mutation_keyset
start_controller-IsUp w loaded r reads keeps e =
    >>=-elim (w.new_tracer_provider (jaeger_endpoint w.jaeger_flag w.jaeger_trace_url)) _ e
      λ _ _ e₀. map_err->>=-elim bad_config loaded _ e₀ λ c f₀ e₁.
        >>=-elim (make_loader w.secrets) _ e₁ λ loader _ e₂.
          map_err->>=-elim bad_keys
            (load_keyset w.add_key w.has_key c.service_auth w.visits w.no_keys) _ e₂
            λ keys f₂ e₃.
              map_err->>=-elim bad_registry
                (w.register_serviceauth keys.0 c.service_auth.current_key_name) _ e₃
                λ _ _ e₄.
                  map_err->>=-elim bad_registry
                    (w.register_mutation keys.0 c.service_auth.header_mutation_key_name) _ e₄
                    λ _ _ e₅.
                      map_err->>=-elim bad_authority
                        (load_ca_from_file w.crypto w.load_key_pair c.ca_config w.now) _ e₅
                        λ ca _ e₆.
                          map_err->>=-elim bad_authority
                            (make_server_cert w.crypto w.x509_key_pair ca c.server_names w.now
                              w.random)
                            _ e₆
                            λ pair f₆ e₇.
                              map_err->>=-elim bad_endpoints
                                (configure_endpoints w.libraries loader c.outgoing_services) _ e₇
                                λ configured _ e₈.
                                  >>=-elim
                                    (run_servers w.crypto w.append_from_pem ca pair c configured.0)
                                    _ e₈
                                    λ ls f₈ e₉.
                                      let (guarded, serves) =
                                        run_servers-IsGuarded w.crypto w.append_from_pem ca pair c
                                          configured.0 ls f₈ in
                                      subst (λ r. IsUp w r × (loaded ≡ ok r.config)) (ok-inj e₉)
                                        (
                                          record {
                                            guarded = guarded;
                                            serves = serves;
                                            certificate =
                                                make_server_cert-IsFor w.crypto w.x509_key_pair ca
                                                  c.server_names w.now w.random pair reads keeps f₆;
                                            has_key =
                                                let (has, _) =
                                                  load_keyset-has_key w.add_key w.has_key
                                                    c.service_auth w.visits w.no_keys keys.0 keys.1
                                                    f₂ in
                                                has;
                                            mutates = refl;
                                          },
                                          f₀,
                                        )

-- The name that clients are told is one of the names in the certificate.
abbrev pub IsCertified : Crypto → KeyPair → Option String → Type 0
IsCertified lib pair hostname =
    (bytes : Bytes) × (cert : Certificate) × (pair.certificate ≡ bytes ∷ [])
    × (lib.parse_certificate bytes ≡ ok cert)
    × IsNamed hostname cert.dns_names

IsFor-IsCertified :
    (lib : Crypto) (names : List String) (pair : KeyPair) (hostname : Option String)
    → IsFor lib names pair
    → IsNamed hostname names
    → IsCertified lib pair hostname
IsFor-IsCertified lib names pair hostname for named =
    (for.bytes, for.cert, for.chain, for.parsed, subst (IsNamed hostname) (sym for.named) named)

-- A controller that has started with a configuration file whose ports have 16 bits, if Go's libraries read
-- back what they write, serves the control API, the agents, the service API on its own port, each incoming
-- service in order, and the metrics, and nothing else. The control API asks for a client's certificate, and so
-- do the agents' tunnels unless the configuration allows insecure ones; a service is served in the clear just
-- if it is configured so, and so are the metrics; wherever there is TLS, the server shows its certificate and
-- checks a client's against the authority's pool. The agents', the service's and the control API's host names
-- are all names in that certificate, the ports are ports, and the key that signs new tokens is loaded.
pub start_controller-IsServable :
    {K C F B : Type 0} (w : World K C)
    (unmarshal : B → Result Controller.Error (ControllerConfig C))
    (read_all : F → Result Controller.Error B) (opened : Result Controller.Error F)
    (r : Running K C)
    → ReadsBack w.crypto w.x509_key_pair
    → KeepsNames w.crypto
    → ((buf : B) (read : ControllerConfig C) → unmarshal buf ≡ ok read → HasPorts read)
    → start_controller w (parse_config (λ f. load_config unmarshal (read_all f)) opened) ≡ ok r
    → IsUp w r
      × IsServable r.config
      × IsCertified w.crypto r.server_cert r.config.agent_hostname
      × IsCertified w.crypto r.server_cert r.config.service_hostname
      × IsCertified w.crypto r.server_cert r.config.control_hostname
unfolding parse_config
start_controller-IsServable w unmarshal read_all opened r reads keeps sixteen e =
    let (up, loaded) = start_controller-IsUp w _ r reads keeps e in
    let (f, _, read) = >>=-eq-ok opened _ loaded in
    let servable = load_config-IsServable unmarshal (read_all f) r.config sixteen read in
    let certified = λ (hostname : Option String) (named : IsNamed hostname r.config.server_names).
      IsFor-IsCertified w.crypto r.config.server_names r.server_cert hostname up.certificate
        named in
    (
      up,
      servable,
      certified r.config.agent_hostname servable.agent_named,
      certified r.config.service_hostname servable.service_named,
      certified r.config.control_hostname servable.control_named,
    )
