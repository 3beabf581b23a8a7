-- ===== src/Startup/Agent/Trusted.antt =====
-- Whom an agent that has started talks to.
use oes_birger.Prelude.{
  ℕ, ◌<◌, ◌≤◌, ◌+◌, suc, zero, ℤ, pos, negsuc, String, ◌≡◌, refl, sym, ◌∙◌, subst, ap, Bool, true,
  false, List, [], Option, none, some, inl, inr, Result, ok, err, panic, >>=-eq-ok, >>=-elim,
  map_err->>=-elim, Option-cases, arith,
}
use oes_birger.Authority.{Bytes, Certificate, Crypto, KeyPair, validate_ca_cert}
use oes_birger.Authority
use oes_birger.Service.Endpoints.Configure.{configure_endpoints}
use oes_birger.Config.Agent.{AgentConfig, load_ca_cert, load_ca_cert_pem, no_pem, checked}
use oes_birger.Config.Agent
use oes_birger.Config.Agent.Dial.{dial_from, dial_from-some, connected}
use oes_birger.Config.Agent.Dial
use oes_birger.Connection.Agent.{agent_hello}
use oes_birger.Startup.Agent.{
  Transport, insecure, secured, AgentWorld, RunningAgent, bad_config, bad_authority, bad_endpoints,
  agent_jaeger_endpoint, make_agent_loader, get_hostname, make_transport, appended, start_agent,
}

-- The PEM holds a certificate of an authority that is valid, and the pool is made of it.
pub record IsTrusted {C : Type 0} (w : AgentWorld C) (roots : List Certificate) : Type 0 where
  pub pem : Bytes
  pub block : Bytes
  pub decoded : w.pem_decode pem ≡ some block
  pub valid : validate_ca_cert w.crypto block w.now ≡ ok tt
  pub pool : w.append_from_pem pem [] ≡ some roots

checked-inv :
    (pem read : Bytes) (verdict : Result Authority.Error (Unit {0}))
    → checked read verdict ≡ ok pem
    → (read ≡ pem) × (verdict ≡ ok tt)
checked-inv pem read (ok valid) e = (cc e, refl)
checked-inv pem read (err why) e = cc e
checked-inv pem read panic e = cc e

load_ca_cert-inv :
    (lib : Crypto) (pem_decode : Bytes → Option Bytes) (now : ℕ) (file : Result Agent.Error Bytes)
    (decode : String → Result Agent.Error Bytes) (c : AgentConfig) (pem : Bytes)
    → load_ca_cert lib pem_decode now file decode c ≡ ok pem
    → (block : Bytes) × (pem_decode pem ≡ some block) × (validate_ca_cert lib block now ≡ ok tt)
unfolding load_ca_cert
load_ca_cert-inv lib pem_decode now file decode c pem e =
    let (read, _, e₁) = >>=-eq-ok (load_ca_cert_pem file decode c) _ e in
    elim (Option-cases (pem_decode read)) [
      | inl missing ↦ cc (rw missing at e₁)
      | inr (block, found) ↦
          let (same, valid) =
            checked-inv pem read (validate_ca_cert lib block now) (rw found at e₁) in
          (block, ap pem_decode (sym same) ∙ found, valid)
    ]

trusted :
    {C : Type 0} (w : AgentWorld C) (c : AgentConfig) (pem : Bytes) (roots : List Certificate)
    → load_ca_cert w.crypto w.pem_decode w.now w.ca_cert_file w.decode64 c ≡ ok pem
    → w.append_from_pem pem [] ≡ some roots
    → IsTrusted w roots
trusted w c pem roots e pool =
    let (block, decoded, valid) =
      load_ca_cert-inv w.crypto w.pem_decode w.now w.ca_cert_file w.decode64 c pem e in
    record { pem = pem; block = block; decoded = decoded; valid = valid; pool = pool }

appended-inv :
    (o : Option (List Certificate)) (pool : List Certificate) → appended o ≡ ok pool → o ≡ some pool
appended-inv none pool e = cc e
appended-inv (some p) pool e = cc e

-- What an attempt had to come to, where the loop is entered: the first that succeeds has the connection.
abbrev pub IsDialled : (ℕ → Option ℕ) → ℤ → Option ℕ → Type 0
IsDialled dial (pos zero) conn = conn ≡ none
IsDialled dial (negsuc n) conn = conn ≡ none
IsDialled dial (pos (suc n)) conn =
    (k : ℕ) × (number : ℕ) × (k ≤ n)
    × (conn ≡ some number)
    × (dial (1 + k) ≡ some number)
    × ((j : ℕ) → j < k → dial (1 + j) ≡ none)

connected-inv :
    (o conn : Option ℕ)
    → connected o ≡ ok conn
    → (number : ℕ) × (o ≡ some number) × (conn ≡ some number)
connected-inv none conn e = cc e
connected-inv (some number) conn e = (number, refl, cc e)

connect-IsDialled :
    (dial : ℕ → Option ℕ) (retries : ℤ) (conn : Option ℕ)
    → Dial.connect dial retries ≡ ok conn
    → IsDialled dial retries conn
unfolding Dial.connect
connect-IsDialled dial (pos zero) conn e = cc e
connect-IsDialled dial (negsuc n) conn e = cc e
connect-IsDialled dial (pos (suc n)) conn e =
    let (number, made, same) = connected-inv (dial_from dial 1 (suc n)).conn conn e in
    let (k, lt, at, _, before) = dial_from-some dial 1 (suc n) number made in
    (k, number, omega arith, same, at, before)

-- The connection is in the clear only where that is allowed; otherwise it is made with the agent's key pair,
-- and only a controller is trusted whose certificate comes from the authority in the agent's configuration.
abbrev pub IsTrusting : {C : Type 0} → AgentWorld C → AgentConfig → Transport → Type 0
IsTrusting w c insecure = c.insecure_controller_allowed ≡ true
IsTrusting w c (secured clcert roots) =
    (c.insecure_controller_allowed ≡ false)
    × (w.load_key_pair c.cert_file c.key_file ≡ ok clcert)
    × IsTrusted w roots

make_transport-IsTrusting :
    {C : Type 0} (w : AgentWorld C) (c : AgentConfig) (clcert : KeyPair) (roots : List Certificate)
    (allowed : Bool)
    → c.insecure_controller_allowed ≡ allowed
    → w.load_key_pair c.cert_file c.key_file ≡ ok clcert
    → IsTrusted w roots
    → IsTrusting w c (make_transport allowed clcert roots)
unfolding make_transport
make_transport-IsTrusting w c clcert roots true is loaded trusted = is
make_transport-IsTrusting w c clcert roots false is loaded trusted = (is, loaded, trusted)

ok-inj {ℓ} : {E : Type 0} {A : Type ℓ} {a b : A} → ◌≡◌ {A = Result E A} (ok a) (ok b) → a ≡ b
ok-inj e = cc e

-- An agent that has started talks to the controller in the clear only if its configuration allows that;
-- otherwise with the key pair of its configuration, trusting only what was made from a PEM of a certificate
-- that is an authority's and valid now. If it retries at least once, its connection is that of the first
-- attempt that succeeded over this transport; if not, it has none, and goes on all the same.
pub start_agent-IsTrusting :
    {C : Type 0} (w : AgentWorld C) (loaded : Result Agent.Error AgentConfig) (r : RunningAgent)
    → start_agent w loaded ≡ ok r
    → (loaded ≡ ok r.config)
      × IsTrusting w r.config r.transport
      × IsDialled (w.dial r.transport r.config.controller_hostname) r.config.dial_max_retries r.conn
unfolding start_agent
start_agent-IsTrusting w loaded r e = >>=-elim (make_agent_loader w.secrets) _ e λ loader _ e₁.
    >>=-elim (w.new_tracer_provider (agent_jaeger_endpoint w.jaeger_flag w.jaeger_trace_url)) _ e₁
      λ _ _ e₀. map_err->>=-elim bad_config loaded _ e₀ λ c f₁ e₂.
        >>=-elim (w.services c.services_config_path) _ e₂ λ services _ e₃.
          map_err->>=-elim bad_endpoints
            (configure_endpoints w.libraries loader services.outgoing_services) _ e₃
            λ configured _ e₄.
              map_err->>=-elim bad_config (w.agent_info c.services_config_path) _ e₄ λ info _ e₅.
                map_err->>=-elim bad_authority (w.load_key_pair c.cert_file c.key_file) _ e₅
                  λ clcert f₅ e₆.
                    map_err->>=-elim bad_config
                      (load_ca_cert w.crypto w.pem_decode w.now w.ca_cert_file w.decode64 c) _ e₆
                      λ pem f₆ e₇.
                        >>=-elim (appended (w.append_from_pem pem [])) _ e₇ λ roots f₇ e₈.
                          map_err->>=-elim bad_config
                            (Dial.connect
                              (w.dial (make_transport c.insecure_controller_allowed clcert roots)
                                c.controller_hostname)
                              c.dial_max_retries)
                            _ e₈
                            λ conn f₈ e₉.
                              map_err->>=-elim bad_authority
                                (agent_hello w.version (get_hostname w.hostname) info configured.0
                                  clcert)
                                _ e₉
                                λ hello _ e₁₀.
                                  subst
                                    (λ r.
                                      (loaded ≡ ok r.config)
                                      × IsTrusting w r.config r.transport
                                      × IsDialled (w.dial r.transport r.config.controller_hostname)
                                          r.config.dial_max_retries r.conn)
                                    (ok-inj e₁₀)
                                    (
                                      f₁,
                                      make_transport-IsTrusting w c clcert roots
                                          c.insecure_controller_allowed refl f₅
                                          (trusted w c pem roots f₆
                                            (appended-inv (w.append_from_pem pem []) roots f₇)),
                                      connect-IsDialled
                                          (w.dial
                                            (make_transport c.insecure_controller_allowed clcert
                                              roots)
                                            c.controller_hostname)
                                          c.dial_max_retries conn f₈,
                                    )
