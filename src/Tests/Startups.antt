-- ===== src/Tests/Startups.antt =====
-- The controller and the agent, started.
use oes_birger.Prelude.{
  ℕ, ◌+◌, String, ◌==◌, eq_iff, ◌≡◌, refl, ap, sym, true, false, Bool, ◌&&◌, List, [], ◌∷◌, some,
  none, Result, ok, err, arith, eqb, if◌then◌else◌, ltb, pos,
}
use oes_birger.Authority.{Bytes, Certificate, Crypto, KeyPair, Error, library, validate_ca_cert}
use oes_birger.Authority.SelfSigned.{ReadsBack, whole_seconds}
use oes_birger.Authority.Named.{KeepsNames}
use oes_birger.Authority.Server.{make_cert_pool}
use oes_birger.Config.Controller.{load_config, parse_config}
use oes_birger.Config.Controller.Loaded.{IsServable}
use oes_birger.Config.Keys.{visited}
use oes_birger.Startup.{World, Running, start_controller}
use oes_birger.Startup.Started.{IsUp, IsCertified, start_controller-IsServable}
use oes_birger.Config.Agent
use oes_birger.Config.Agent.{AgentConfig}
use oes_birger.Startup.Agent.{AgentWorld, RunningAgent, start_agent}
use oes_birger.Startup.Agent.Trusted.{IsTrusting, IsDialled, start_agent-IsTrusting}
use oes_birger.Tests.Configurations.{decoder, decoder-HasPorts}
use oes_birger.Tests.Services.{libraries}

abbrev names : List String
names = "forwarder" ∷ "agents.example" ∷ "service.example" ∷ []

abbrev same_names : List String → List String → Bool
same_names [] [] = true
same_names [] (y ∷ ys) = false
same_names (x ∷ xs) [] = false
same_names (x ∷ xs) (y ∷ ys) = x == y && same_names xs ys

same_names-eq : (xs ys : List String) → same_names xs ys ≡ true → xs ≡ ys
same_names-eq [] [] e = refl
same_names-eq [] (y ∷ ys) e = cc e
same_names-eq (x ∷ xs) [] e = cc e
same_names-eq (x ∷ xs) (y ∷ ys) e = ground (arith, eq_iff x y, same_names-eq xs ys)

-- The library knows one list of names, which every certificate is for.
abbrev with_period : ℕ → ℕ → ℕ → Certificate
with_period from until ca = record {
  serial_number = 0;
  common_name = "";
  organization = [];
  organizational_unit = [];
  country = [];
  dns_names = names;
  not_before = from;
  not_after = until;
  is_ca = eqb ca 1;
}

abbrev read_certificate : Bytes → Result Error Certificate
read_certificate (from ∷ until ∷ ca ∷ key ∷ []) = ok (with_period from until ca)
read_certificate _ = err (library "certificate")

abbrev flag : Bool → ℕ
flag b = if b then 1 else 0

abbrev written_as : Certificate → ℕ → Bytes
written_as template key =
    whole_seconds template.not_before
    ∷ whole_seconds template.not_after
    ∷ flag template.is_ca
    ∷ key
    ∷ []

abbrev create : Certificate → ℕ → Result Error Bytes
create template key =
    if same_names template.dns_names names
    then ok (written_as template key)
    else err (library "names")

abbrev pair_of : Bytes → Bytes → Result Error KeyPair
pair_of cert (key ∷ []) = ok (record { certificate = cert ∷ []; private_key = key })
pair_of cert _ = err (library "key")

abbrev lib : Crypto
lib = record {
  marshal = λ name. err (library "name");
  unmarshal = λ json. err (library "name");
  generate_key = λ random. ok random;
  parse_certificate = read_certificate;
  create_certificate = λ template issuer key signer. create template key;
  marshal_private_key = λ key. key ∷ [];
  pem_encode = λ type bytes. ok bytes;
  base64_encode = λ bytes. "base64";
  add_years = λ years now. now + years;
}

create-inv :
    (template : Certificate) (key : ℕ) (bytes : Bytes)
    → create template key ≡ ok bytes
    → (written_as template key ≡ bytes) × (template.dns_names ≡ names)
create-inv template key bytes e = ground (arith, same_names-eq template.dns_names names)

eqb-flag : (b : Bool) → eqb (flag b) 1 ≡ b
eqb-flag true = refl
eqb-flag false = refl

bytes-inj : {a b : Bytes} → ◌≡◌ {A = Result Error Bytes} (ok a) (ok b) → a ≡ b
bytes-inj e = cc e

lib-ReadsBack : ReadsBack lib pair_of
lib-ReadsBack = record {
  encodes = λ type bytes. (bytes, refl);
  parses = λ template issuer key signer bytes e. (
    with_period (whole_seconds template.not_before) (whole_seconds template.not_after)
        (flag template.is_ca),
    ap read_certificate (sym (create-inv template key bytes e).0),
    eqb-flag template.is_ca,
    refl,
    refl,
  );
  pairs = λ template issuer key signer bytes cert_pem key_pem e f g. (
    record { certificate = cert_pem ∷ []; private_key = key },
    ap (pair_of cert_pem) (sym (bytes-inj g)),
    ap (λ c. c ∷ []) (sym (bytes-inj f)),
    refl,
  );
}

lib-KeepsNames : KeepsNames lib
lib-KeepsNames = record {
  keeps = λ template issuer key signer bytes e. (
    with_period (whole_seconds template.not_before) (whole_seconds template.not_after)
        (flag template.is_ca),
    ap read_certificate (sym (create-inv template key bytes e).0),
    sym (create-inv template key bytes e).1,
  );
}

abbrev world : World (List String) String
world = record {
  jaeger_flag = "";
  jaeger_trace_url = none;
  new_tracer_provider = λ url. ok tt;
  crypto = lib;
  x509_key_pair = pair_of;
  load_key_pair =
      λ cert key. ok (record { certificate = (0 ∷ 100 ∷ 1 ∷ 5 ∷ []) ∷ []; private_key = 5 });
  append_from_pem = λ pem pool. pool;
  libraries = libraries;
  secrets = none;
  visits = visited "key1" true (ok (1 ∷ 2 ∷ [])) ∷ [];
  add_key = λ name bytes keys. ok (name ∷ keys);
  has_key = λ name keys. elim keys [ [] ↦ false | key ∷ more ↦ key == name ];
  no_keys = [];
  register_serviceauth = λ keys name. ok tt;
  register_mutation = λ keys name. ok tt;
  now = 50;
  random = 7;
}

record Started : Type 0 where
  running : Running (List String) String
  started :
      start_controller world (parse_config (λ (f : String). load_config decoder (ok f)) (ok ""))
      ≡ ok running

abbrev controller : Started
unfolding start_controller parse_config load_config make_cert_pool
controller = record { running = _; started = refl }

start_controller-IsServable_example :
    IsUp world controller.running
    × IsServable controller.running.config
    × IsCertified lib controller.running.server_cert controller.running.config.agent_hostname
    × IsCertified lib controller.running.server_cert controller.running.config.service_hostname
    × IsCertified lib controller.running.server_cert controller.running.config.control_hostname
start_controller-IsServable_example =
    start_controller-IsServable world decoder (λ (f : String). ok f) (ok "") controller.running
      lib-ReadsBack lib-KeepsNames decoder-HasPorts controller.started

abbrev agent_config : AgentConfig
agent_config = record {
  controller_hostname = "controller:9001";
  ca_cert64 = none;
  cert_file = "tls.crt";
  key_file = "tls.key";
  services_config_path = "services.yaml";
  insecure_controller_allowed = false;
  dial_max_retries = pos 3;
  dial_retry_time = pos 10;
}

-- The second attempt to reach the controller succeeds.
abbrev agent_world : AgentWorld String
agent_world = record {
  jaeger_flag = "";
  jaeger_trace_url = none;
  new_tracer_provider = λ url. ok tt;
  crypto = lib;
  load_key_pair = world.load_key_pair;
  pem_decode = λ pem. some pem;
  decode64 = λ text. ok [];
  ca_cert_file = ok (0 ∷ 100 ∷ 1 ∷ 5 ∷ []);
  append_from_pem = λ pem pool. some pool;
  libraries = libraries;
  secrets = none;
  services = λ path. ok (record { outgoing_services = []; incoming_services = [] });
  agent_info = λ path. ok (record { annotations = [] });
  dial = λ transport host attempt. if ltb attempt 2 then none else some attempt;
  hostname = none;
  version = "v1";
  now = 50;
}

record StartedAgent : Type 0 where
  running : RunningAgent
  started : start_agent agent_world (ok agent_config) ≡ ok running

abbrev agent : StartedAgent
unfolding start_agent validate_ca_cert
agent = record { running = _; started = refl }

start_agent-IsTrusting_example :
    (◌≡◌ {A = Result Agent.Error AgentConfig} (ok agent_config) (ok agent.running.config))
    × IsTrusting agent_world agent.running.config agent.running.transport
    × IsDialled
        (agent_world.dial agent.running.transport agent.running.config.controller_hostname)
        agent.running.config.dial_max_retries
        agent.running.conn
start_agent-IsTrusting_example =
    start_agent-IsTrusting agent_world (ok agent_config) agent.running agent.started
