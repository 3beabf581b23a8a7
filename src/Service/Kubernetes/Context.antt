-- ===== src/Service/Kubernetes/Context.antt =====
-- kubernetes.go: the security context that is read from a kubeconfig, or from the service account.
use oes_birger.Prelude.{
  String, ◌==◌, ◌≡◌, ◌≢◌, ◌↔◌, ◌⊎◌, refl, ap, subst, ◌∙◌, sym, eq_iff, List, [], ◌∷◌, Option, none,
  some, map, arith, Result, ok, err, ◌>>=◌, >>=-eq-ok, map_err, map_err->>=-eq-ok, Bool-cases,
  Option-cases, inl, inr,
}
use oes_birger.Authority.{Bytes, KeyPair}
use oes_birger.Kubeconfig.{
  KubeConfig, Context, User, Cluster, first_named, find_context, get_context_names,
  read_kube_config,
}
use oes_birger.Kubeconfig.Found.{Refers, find_context-eq-ok_iff, first_named-eq-some_iff}
use oes_birger.Service.Kubernetes.{
  KubeContext, Error, Platform, bad_context, bad_kubeconfig, no_current_context, make_context,
  context_of, server_context_from_kubeconfig, load_service_account, load_kubernetes_security,
  load_server_ca, parse_pem,
}

ok-inj : {A : Type 0} {a b : A} → ◌≡◌ {A = Result Error A} (ok a) (ok b) → a ≡ b
ok-inj e = cc e

module _ (p : Platform) (kconfig : KubeConfig) where
  abbrev current : Result Error KubeContext
  current = map_err bad_context (find_context kconfig.current_context kconfig) >>= make_context p

  context_of-cases :
      (names : List String)
      → (context_of p kconfig names ≡ err no_current_context)
        ⊎ (context_of p kconfig names ≡ current)
  unfolding context_of
  context_of-cases [] = inl refl
  context_of-cases (name ∷ names) = elim (Bool-cases (name == kconfig.current_context)) [
    | inl e ↦ inr (rw (e, context_of) (rw ((eq_iff name kconfig.current_context).0 e) refl))
    | inr e ↦ rw (e, context_of) (context_of-cases names)
  ]

  context_of-first_named :
      (b : Context) (contexts : List Context)
      → first_named (λ c. c.name) kconfig.current_context contexts ≡ some b
      → context_of p kconfig (map (λ c. c.name) contexts) ≡ current
  unfolding context_of first_named
  context_of-first_named b [] e = cc e
  context_of-first_named b (c ∷ contexts) e =
      elim (Bool-cases (c.name == kconfig.current_context)) [
        | inl same ↦
            rw (same, context_of) (rw ((eq_iff c.name kconfig.current_context).0 same) refl)
        | inr other ↦
            rw (other, context_of)
              (context_of-first_named b contexts (rw (other, first_named) at e))
      ]

  -- The context that is read from a kubeconfig is made of the user and the cluster of its current
  -- context, each the first of its name, and there is one exactly if these are there and can be read.
  pub server_context_from_kubeconfig-eq-ok_iff :
      (saf : KubeContext)
      → (server_context_from_kubeconfig p kconfig ≡ ok saf) ↔ (
          (user : User) × (cluster : Cluster) × Refers kconfig kconfig.current_context user cluster
          × (make_context p (user, cluster) ≡ ok saf))
  unfolding server_context_from_kubeconfig get_context_names
  server_context_from_kubeconfig-eq-ok_iff saf = (
    λ e. elim (context_of-cases (map (λ c. c.name) kconfig.contexts)) [
      | inl none_current ↦ cc (sym none_current ∙ e)
      | inr is_current ↦
          let ((user, cluster), found, made) =
            map_err->>=-eq-ok bad_context (find_context kconfig.current_context kconfig)
              (make_context p) (sym is_current ∙ e) in
          (
            user,
            cluster,
            (find_context-eq-ok_iff kconfig kconfig.current_context user cluster).0 found,
            made,
          )
    ],
    λ (user, cluster, refers, made).
        let first =
          (first_named-eq-some_iff (λ c. c.name) kconfig.current_context refers.entry
              kconfig.contexts).1
            refers.is_first in
        let found =
          (find_context-eq-ok_iff kconfig kconfig.current_context user cluster).1 refers in
        context_of-first_named refers.entry kconfig.contexts first
        ∙ ap (λ r. map_err bad_context r >>= make_context p) found
        ∙ made,
  )

-- `tls.X509KeyPair` fails where it finds no certificate.
abbrev pub FindsLeaf : Platform → Type 0
FindsLeaf p =
    (cert key : Bytes) (pair : KeyPair) → p.x509_key_pair cert key ≡ ok pair → pair.certificate ≢ []

abbrev pub HasLeaf : Option KeyPair → Type 0
HasLeaf none = Unit
HasLeaf (some pair) = pair.certificate ≢ []

module _ (p : Platform) (finds : FindsLeaf p) where
  make_context-HasLeaf :
      (found : User × Cluster) (saf : KubeContext)
      → make_context p found ≡ ok saf
      → HasLeaf saf.client_cert
  unfolding make_context
  make_context-HasLeaf (user, cluster) saf e =
      let (cert, _, e₁) = >>=-eq-ok (p.decode_base64 user.user.client_certificate_data) _ e in
      let (key, _, e₂) = >>=-eq-ok (p.decode_base64 user.user.client_key_data) _ e₁ in
      let (pair, made, e₃) = >>=-eq-ok (p.x509_key_pair cert key) _ e₂ in
      let (ca, _, e₄) =
        >>=-eq-ok (load_server_ca p cluster.cluster.certificate_authority_data) _ e₃ in
      subst HasLeaf (ap (λ c. c.client_cert) (ok-inj e₄)) (finds cert key pair made)

  load_service_account-HasLeaf :
      (saf : KubeContext) → load_service_account p ≡ ok saf → HasLeaf saf.client_cert
  unfolding load_service_account
  load_service_account-HasLeaf saf e =
      let (token, _, e₁) =
        >>=-eq-ok (p.read_file "/var/run/secrets/kubernetes.io/serviceaccount/token") _ e in
      let (bytes, _, e₂) =
        >>=-eq-ok (p.read_file "/var/run/secrets/kubernetes.io/serviceaccount/ca.crt") _ e₁ in
      let (cert, _, e₃) = >>=-eq-ok (parse_pem p bytes) _ e₂ in
      let none_there : none ≡ saf.client_cert = ground arith in subst HasLeaf none_there tt

  pub load_kubernetes_security-HasLeaf :
      (config : String) (saf : KubeContext)
      → load_kubernetes_security p config ≡ ok saf
      → HasLeaf saf.client_cert
  unfolding load_kubernetes_security
  load_kubernetes_security-HasLeaf config saf e = elim (Option-cases (p.open_file config)) [
    | inl n ↦ load_service_account-HasLeaf saf (rw (n, load_kubernetes_security) at e)
    | inr (contents, o) ↦
        let (kconfig, _, e₁) =
          map_err->>=-eq-ok bad_kubeconfig (read_kube_config p.unmarshal_kubeconfig contents)
            (server_context_from_kubeconfig p) (rw (o, load_kubernetes_security) at e) in
        let (user, cluster, _, made) =
          (server_context_from_kubeconfig-eq-ok_iff p kconfig saf).0 e₁ in
        make_context-HasLeaf (user, cluster) saf made
  ]
