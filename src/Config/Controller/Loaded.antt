-- ===== src/Config/Controller/Loaded.antt =====
-- What holds of a controller's configuration that was loaded: its ports, and the names of its server.
use oes_birger.Prelude.{
  ℕ, ◌<◌, String, ◌==◌, eq_iff, Memᴰ, eq_refl, ◌≡◌, refl, ◌∙◌, sym, subst, true, not, List, [], ◌∷◌,
  ◌++◌, Option, none, some, if◌then◌else◌, arith, Result, ok, >>=-eq-ok, Bool-cases, inl, inr,
}
use oes_birger.Config.Controller.{
  ControllerConfig, Error, or_default, insist, is_server_name, has_server_name, add_if_missing,
  add_all_hostnames, with_defaults, load_config,
}

abbrev pub IsPort : ℕ → Type 0
IsPort port = (0 < port) × (port < 65536)

-- There is a host name, and it is one of the names of the server's certificate.
abbrev pub IsNamed : Option String → List String → Type 0
IsNamed hostname names = (name : String) × (hostname ≡ some name) × Memᴰ name names

-- The ports as the file has them, which the decoder keeps within 16 bits.
pub record HasPorts {C : Type 0} (c : ControllerConfig C) : Type 0 where
  pub agent : c.agent_listen_port < 65536
  pub advertised : c.agent_advertise_port < 65536
  pub service : c.service_listen_port < 65536
  pub control : c.control_listen_port < 65536
  pub prometheus : c.prometheus_listen_port < 65536

-- Every listener has a port, and every host name that clients are told is a name of the server.
pub record IsServable {C : Type 0} (c : ControllerConfig C) : Type 0 where
  pub agent : IsPort c.agent_listen_port
  pub advertised : IsPort c.agent_advertise_port
  pub service : IsPort c.service_listen_port
  pub control : IsPort c.control_listen_port
  pub prometheus : IsPort c.prometheus_listen_port
  pub agent_named : IsNamed c.agent_hostname c.server_names
  pub service_named : IsNamed c.service_hostname c.server_names
  pub control_named : IsNamed c.control_hostname c.server_names

or_default-IsPort :
    (default port : ℕ) → IsPort default → port < 65536 → IsPort (or_default default port)
or_default-IsPort default port d p = ground arith

is_server_name-append :
    (x : String) (names more : List String)
    → is_server_name x names ≡ true
    → is_server_name x (names ++ more) ≡ true
unfolding is_server_name
is_server_name-append x [] more h = cc h
is_server_name-append x (a ∷ names) more h = ground (arith, is_server_name-append x names more)

is_server_name_last : (x : String) (names : List String) → is_server_name x (names ++ x ∷ []) ≡ true
unfolding is_server_name
is_server_name_last x [] = ground (arith, eq_refl x)
is_server_name_last x (a ∷ names) = ground (arith, is_server_name_last x names)

is_server_name-sound :
    (x : String) (names : List String) → is_server_name x names ≡ true → Memᴰ x names
unfolding is_server_name
is_server_name-sound x [] e = cc e
is_server_name-sound x (a ∷ names) e = elim (Bool-cases (a == x)) [
  | inl same ↦ Memᴰ.head (sym ((eq_iff a x).0 same))
  | inr other ↦ Memᴰ.tail (is_server_name-sound x names (ground arith))
]

-- The names once a host name was added to them.
names_with : Option String → List String → List String
names_with none names = names
names_with (some t) names = if not (is_server_name t names) then names ++ t ∷ [] else names

is_server_name-names_with :
    (x : String) (t : Option String) (names : List String)
    → is_server_name x names ≡ true
    → is_server_name x (names_with t names) ≡ true
unfolding names_with
is_server_name-names_with x none names h = h
is_server_name-names_with x (some t) names h =
    ground (arith, is_server_name-append x names (t ∷ []))

is_server_name-names_with_self :
    (t : String) (names : List String) → is_server_name t (names_with (some t) names) ≡ true
unfolding names_with
is_server_name-names_with_self t names = ground (arith, is_server_name_last t names)

insist-some :
    (what : String) (o : Option String) (name : String) → insist what o ≡ ok name → o ≡ some name
insist-some what none name e = cc e
insist-some what (some x) name e = cc e

ok-inj : {A : Type 0} {a b : A} → ◌≡◌ {A = Result Error A} (ok a) (ok b) → a ≡ b
ok-inj e = cc e

module _ {C : Type 0} where
  add_if_missing_lem :
      (t : Option String) (c : ControllerConfig C)
      → add_if_missing t c ≡ record c { server_names = names_with t c.server_names }
  unfolding add_if_missing has_server_name names_with
  add_if_missing_lem none c = refl
  add_if_missing_lem (some t) c = elim (Bool-cases (is_server_name t c.server_names)) [
    | inl h ↦ rw h refl
    | inr h ↦ rw h refl
  ]

  add_all_hostnames_lem :
      (c : ControllerConfig C)
      → add_all_hostnames c ≡ record c {
        server_names =
            names_with c.service_hostname
              (names_with c.control_hostname (names_with c.agent_hostname c.server_names));
      }
  unfolding add_all_hostnames
  add_all_hostnames_lem c =
      let c₁ = record c { server_names = names_with c.agent_hostname c.server_names } in
      let c₂ = record c₁ { server_names = names_with c.control_hostname c₁.server_names } in
      rw (add_if_missing_lem c.agent_hostname c)
        (rw (add_if_missing_lem c.control_hostname c₁) (add_if_missing_lem c.service_hostname c₂))

  servable :
      (read : ControllerConfig C) (agent service control : String)
      → HasPorts read
      → read.agent_hostname ≡ some agent
      → read.service_hostname ≡ some service
      → read.control_hostname ≡ some control
      → let c = with_defaults read in
        IsServable (record c {
          server_names =
              names_with c.service_hostname
                (names_with c.control_hostname (names_with c.agent_hostname c.server_names));
        })
  unfolding with_defaults
  servable read agent service control ports a s k =
      let names_a = names_with (some agent) read.server_names in
      let names_k = names_with (some control) names_a in
      let listen =
        or_default-IsPort 9001 read.agent_listen_port (omega arith, omega arith) ports.agent in
      let names =
        names_with read.service_hostname
          (names_with read.control_hostname (names_with read.agent_hostname read.server_names)) in
      let same : names_with (some service) names_k ≡ names = rw (a, s, k) refl in
      record {
        agent = listen;
        advertised = or_default-IsPort _ read.agent_advertise_port listen ports.advertised;
        service =
            or_default-IsPort 9002 read.service_listen_port (omega arith, omega arith)
              ports.service;
        control =
            or_default-IsPort 9003 read.control_listen_port (omega arith, omega arith)
              ports.control;
        prometheus =
            or_default-IsPort 9102 read.prometheus_listen_port (omega arith, omega arith)
              ports.prometheus;
        agent_named = (
          agent,
          a,
          subst (Memᴰ agent) same (
              is_server_name-sound agent _ (
                is_server_name-names_with agent (some service) names_k (
                  is_server_name-names_with agent (some control) names_a
                    (is_server_name-names_with_self agent read.server_names)))),
        );
        service_named = (
          service,
          s,
          subst (Memᴰ service) same
              (is_server_name-sound service _ (is_server_name-names_with_self service names_k)),
        );
        control_named = (
          control,
          k,
          subst (Memᴰ control) same (
              is_server_name-sound control _ (
                is_server_name-names_with control (some service) names_k
                  (is_server_name-names_with_self control names_a))),
        );
      }

  -- A configuration that was read from a file whose ports have 16 bits, and that was taken, has a port
  -- between 1 and 65535 for each listener, and the three host names are there and among the names that the
  -- server's certificate is made for.
  pub load_config-IsServable {ℓ} :
      {B : Type ℓ} (unmarshal : B → Result Error (ControllerConfig C)) (contents : Result Error B)
      (c : ControllerConfig C)
      → ((buf : B) (read : ControllerConfig C) → unmarshal buf ≡ ok read → HasPorts read)
      → load_config unmarshal contents ≡ ok c
      → IsServable c
  unfolding load_config with_defaults
  load_config-IsServable unmarshal contents c sixteen e =
      let (buf, _, e₁) = >>=-eq-ok contents _ e in
      let (read, is_read, e₂) = >>=-eq-ok (unmarshal buf) _ e₁ in
      let (agent, a, e₃) = >>=-eq-ok (insist "agentHostname" read.agent_hostname) _ e₂ in
      let (service, s, e₄) = >>=-eq-ok (insist "serviceHostname" read.service_hostname) _ e₃ in
      let (control, k, e₅) = >>=-eq-ok (insist "controlHostname" read.control_hostname) _ e₄ in
      let ports = sixteen buf read is_read in
      subst IsServable (sym (add_all_hostnames_lem (with_defaults read)) ∙ ok-inj e₅) (
        servable read agent service control ports
          (insist-some "agentHostname" read.agent_hostname agent a)
          (insist-some "serviceHostname" read.service_hostname service s)
          (insist-some "controlHostname" read.control_hostname control k))
