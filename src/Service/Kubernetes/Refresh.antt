-- ===== src/Service/Kubernetes/Refresh.antt =====
-- kubernetes.go, `isSameAs` and `updateServerContextTicker`: when a security context that was read again
-- replaces the one in use. `Certificate.Equal` is the parameter `x509_equal`.
use oes_birger.Prelude.{
  ◌==◌, ◌≡◌, ◌≢◌, ◌↔◌, refl, ap, ◌∙◌, sym, eq_iff, Bool, true, false, not, ◌||◌, List, [], ◌∷◌,
  ◌++◌, Option, none, some, if◌then◌else◌, eqb, arith, Result, ok, panic, ◌>>=◌, Bool-cases, All,
  inl, inr,
}
use oes_birger.Authority.{Bytes, Certificate, KeyPair}
use oes_birger.Service.Kubernetes.{
  KubeContext, KubernetesEndpoint, Error, Platform, load_kubernetes_security,
}
use oes_birger.Service.Kubernetes.Context.{HasLeaf, FindsLeaf, load_kubernetes_security-HasLeaf}

unfoldable pub bytes_equal : Bytes → Bytes → Bool
bytes_equal [] [] = true
bytes_equal [] (y ∷ ys) = false
bytes_equal (x ∷ xs) [] = false
bytes_equal (x ∷ xs) (y ∷ ys) = let rest = bytes_equal xs ys in if eqb x y then rest else false

bytes_equal-eq-true_iff : (xs ys : Bytes) → (bytes_equal xs ys ≡ true) ↔ (xs ≡ ys)
unfolding bytes_equal
bytes_equal-eq-true_iff [] [] = (λ e. refl, λ e. refl)
bytes_equal-eq-true_iff [] (y ∷ ys) = (λ e. cc e, λ e. cc e)
bytes_equal-eq-true_iff (x ∷ xs) [] = (λ e. cc e, λ e. cc e)
bytes_equal-eq-true_iff (x ∷ xs) (y ∷ ys) =
    let rest = bytes_equal-eq-true_iff xs ys in
    (λ e. ground (arith, rest), λ e. ground (arith, rest))

-- `s1.Certificate[0]`, which panics on an empty chain.
abbrev pub first_of : List Bytes → Result Error Bytes
first_of [] = panic
first_of (leaf ∷ chain) = ok leaf

abbrev pub leaf_of : KeyPair → Result Error Bytes
leaf_of pair = first_of pair.certificate

unfoldable pub tls_cert_equal : Option KeyPair → Option KeyPair → Result Error Bool
unfolding bytes_equal
tls_cert_equal none none = ok true
tls_cert_equal (some s₁) none = ok false
tls_cert_equal none (some s₂) = ok false
tls_cert_equal (some s₁) (some s₂) = do
  leaf₁ ← leaf_of s₁
  leaf₂ ← leaf_of s₂
  ok (bytes_equal leaf₁ leaf₂)

unfoldable pub same_flag : Bool → Bool → Bool
same_flag true b = b
same_flag false b = not b

module _ (x509_equal : Certificate → Certificate → Bool) where
  unfoldable pub x509_cert_equal : Option Certificate → Option Certificate → Bool
  x509_cert_equal none none = true
  x509_cert_equal (some s₁) none = false
  x509_cert_equal none (some s₂) = false
  x509_cert_equal (some s₁) (some s₂) = x509_equal s₁ s₂

  unfoldable pub is_same_as : KubeContext → KubeContext → Result Error Bool
  unfolding x509_cert_equal tls_cert_equal same_flag
  is_same_as scf scf₂ =
      if not (scf.username == scf₂.username)
        || not (scf.server_url == scf₂.server_url)
        || not (scf.token == scf₂.token)
        || not (same_flag scf.insecure scf₂.insecure)
      then ok false
      else if not (x509_cert_equal scf.server_ca scf₂.server_ca)
      then ok false
      else tls_cert_equal scf.client_cert scf₂.client_cert

  -- One turn of the loop; the files and the environment are those of that moment.
  unfoldable pub update_server_context :
      Platform → KubernetesEndpoint → Result Error KubernetesEndpoint
  unfolding is_same_as
  update_server_context p ke = do
    saf ← load_kubernetes_security p ke.config
    same ← is_same_as ke.f saf
    ok (if not same then record ke { f = saf } else ke)

  unfoldable pub update_server_context_ticker :
      List Platform → KubernetesEndpoint → Result Error KubernetesEndpoint
  unfolding update_server_context
  update_server_context_ticker [] ke = ok ke
  update_server_context_ticker (p ∷ moments) ke =
      update_server_context p ke >>= update_server_context_ticker moments

  -- What two contexts have in common that are the same to the ticker.
  abbrev pub SameCa : Option Certificate → Option Certificate → Type 0
  SameCa none none = Unit
  SameCa (some a) none = ⊥
  SameCa none (some b) = ⊥
  SameCa (some a) (some b) = x509_equal a b ≡ true

  abbrev pub SameLeaf : Option KeyPair → Option KeyPair → Type 0
  SameLeaf none none = Unit
  SameLeaf (some a) none = ⊥
  SameLeaf none (some b) = ⊥
  SameLeaf (some a) (some b) = leaf_of a ≡ leaf_of b

  pub record SameContext (a b : KubeContext) : Type 0 where
    pub username : a.username ≡ b.username
    pub server_url : a.server_url ≡ b.server_url
    pub token : a.token ≡ b.token
    pub insecure : a.insecure ≡ b.insecure
    pub server_ca : SameCa a.server_ca b.server_ca
    pub client_cert : SameLeaf a.client_cert b.client_cert

  x509_cert_equal-eq-true_iff :
      (a b : Option Certificate) → (x509_cert_equal a b ≡ true) ↔ SameCa a b
  unfolding x509_cert_equal
  x509_cert_equal-eq-true_iff none none = (λ e. tt, λ e. refl)
  x509_cert_equal-eq-true_iff (some a) none = (λ e. cc e, λ e. absurd e)
  x509_cert_equal-eq-true_iff none (some b) = (λ e. cc e, λ e. absurd e)
  x509_cert_equal-eq-true_iff (some a) (some b) = (λ e. e, λ e. e)

  first_of-ok : (chain : List Bytes) → chain ≢ [] → (leaf : Bytes) × (first_of chain ≡ ok leaf)
  first_of-ok [] h = absurd (h refl)
  first_of-ok (leaf ∷ chain) h = (leaf, refl)

  tls_cert_equal-eq-true_iff :
      (a b : Option KeyPair) → HasLeaf a → HasLeaf b → (tls_cert_equal a b ≡ ok true) ↔ SameLeaf a b
  unfolding tls_cert_equal
  tls_cert_equal-eq-true_iff none none ha hb = (λ e. tt, λ e. refl)
  tls_cert_equal-eq-true_iff (some a) none ha hb = (λ e. cc e, λ e. absurd e)
  tls_cert_equal-eq-true_iff none (some b) ha hb = (λ e. cc e, λ e. absurd e)
  tls_cert_equal-eq-true_iff (some a) (some b) ha hb =
      let (x, ex) = first_of-ok a.certificate ha in
      let (y, ey) = first_of-ok b.certificate hb in
      let same = bytes_equal-eq-true_iff x y in
      (
        λ e. ex ∙ ap ok (same.0 (cc (rw (ex, ey) at e))) ∙ sym ey,
        λ e. rw (ex, ey) (ap ok (same.1 (cc (sym ex ∙ e ∙ ey)))),
      )

  same_flag-eq-true_iff : (a b : Bool) → (same_flag a b ≡ true) ↔ (a ≡ b)
  unfolding same_flag
  same_flag-eq-true_iff true b = (λ e. sym e, λ e. sym e)
  same_flag-eq-true_iff false b = (λ e. ground arith, λ e. ground arith)

  -- Two contexts, each with a certificate in its chain if it has one, are the same to the ticker exactly
  -- if they agree in the user, the server, the token and the flag, their authorities are equal, and
  -- their chains have the same leaf.
  pub is_same_as-eq-true_iff :
      (a b : KubeContext)
      → HasLeaf a.client_cert
      → HasLeaf b.client_cert
      → (is_same_as a b ≡ ok true) ↔ SameContext a b
  unfolding is_same_as
  is_same_as-eq-true_iff a b ha hb =
      let name = eq_iff a.username b.username in
      let url = eq_iff a.server_url b.server_url in
      let token = eq_iff a.token b.token in
      let flag = same_flag-eq-true_iff a.insecure b.insecure in
      let ca = x509_cert_equal-eq-true_iff a.server_ca b.server_ca in
      let cert = tls_cert_equal-eq-true_iff a.client_cert b.client_cert ha hb in
      (
        λ e. record {
          username = ground (arith, name);
          server_url = ground (arith, url);
          token = ground (arith, token);
          insecure = ground (arith, flag);
          server_ca = ca.0 (ground arith);
          client_cert = cert.0 (ground arith);
        },
        λ e. ground (
          arith,
          name.1 e.username,
          url.1 e.server_url,
          token.1 e.token,
          flag.1 e.insecure,
          ca.1 e.server_ca,
          cert.1 e.client_cert,
        ),
      )

  tls_cert_equal-ok :
      (a b : Option KeyPair)
      → HasLeaf a
      → HasLeaf b
      → (same : Bool) × (tls_cert_equal a b ≡ ok same)
  unfolding tls_cert_equal
  tls_cert_equal-ok none none ha hb = (true, refl)
  tls_cert_equal-ok (some a) none ha hb = (false, refl)
  tls_cert_equal-ok none (some b) ha hb = (false, refl)
  tls_cert_equal-ok (some a) (some b) ha hb =
      let (x, ex) = first_of-ok a.certificate ha in
      let (y, ey) = first_of-ok b.certificate hb in (bytes_equal x y, rw (ex, ey) refl)

  unless :
      (different : Bool) {rest : Result Error Bool}
      → ((same : Bool) × (rest ≡ ok same))
      → (same : Bool) × ((if different then ok false else rest) ≡ ok same)
  unless true h = (false, refl)
  unless false h = h

  is_same_as-ok :
      (a b : KubeContext)
      → HasLeaf a.client_cert
      → HasLeaf b.client_cert
      → (same : Bool) × (is_same_as a b ≡ ok same)
  unfolding is_same_as
  is_same_as-ok a b ha hb =
      unless _ (unless _ (tls_cert_equal-ok a.client_cert b.client_cert ha hb))

  module _ (equal_refl : (c : Certificate) → x509_equal c c ≡ true) where
    SameContext-refl : (c : KubeContext) → SameContext c c
    SameContext-refl c = record {
      username = refl;
      server_url = refl;
      token = refl;
      insecure = refl;
      server_ca = SameCa-refl c.server_ca;
      client_cert = SameLeaf-refl c.client_cert;
    }
      where
        SameCa-refl : (ca : Option Certificate) → SameCa ca ca
        SameCa-refl none = tt
        SameCa-refl (some c) = equal_refl c

        SameLeaf-refl : (pair : Option KeyPair) → SameLeaf pair pair
        SameLeaf-refl none = tt
        SameLeaf-refl (some pair) = refl

    update_server_context-SameContext :
        (p : Platform) (ke : KubernetesEndpoint) (saf : KubeContext)
        → FindsLeaf p
        → HasLeaf ke.f.client_cert
        → load_kubernetes_security p ke.config ≡ ok saf
        → (ke' : KubernetesEndpoint) × (update_server_context p ke ≡ ok ke')
          × SameContext ke'.f saf
          × HasLeaf ke'.f.client_cert
          × (ke'.config ≡ ke.config)
    unfolding update_server_context
    update_server_context-SameContext p ke saf finds leaf loaded =
        let saf_leaf = load_kubernetes_security-HasLeaf p finds ke.config saf loaded in
        let (same, compared) = is_same_as-ok ke.f saf leaf saf_leaf in
        elim (Bool-cases same) [
          | inl s ↦ (
            ke,
            rw (loaded, compared, s) refl,
            (is_same_as-eq-true_iff ke.f saf leaf saf_leaf).0 (compared ∙ ap ok s),
            leaf,
            refl,
          )
          | inr d ↦ (
            record ke { f = saf },
            rw (loaded, compared, d) refl,
            SameContext-refl saf,
            saf_leaf,
            refl,
          )
        ]

    -- If a context's certificate chains are not empty and every certificate equals itself, then, where
    -- the context can be read at every turn, the ticker goes on without a panic, and after each turn the
    -- context in use is the same to it as the one that was read last.
    pub update_server_context_ticker-SameContext :
        (moments : List Platform) (p : Platform) (ke : KubernetesEndpoint) (saf : KubeContext)
        → All
            (λ q. FindsLeaf q × ((c : KubeContext) × (load_kubernetes_security q ke.config ≡ ok c)))
            moments
        → FindsLeaf p
        → HasLeaf ke.f.client_cert
        → load_kubernetes_security p ke.config ≡ ok saf
        → (ke' : KubernetesEndpoint) × (update_server_context_ticker (moments ++ p ∷ []) ke
            ≡ ok ke')
          × SameContext ke'.f saf
    unfolding update_server_context_ticker
    update_server_context_ticker-SameContext [] p ke saf all finds leaf loaded =
        let (ke', turned, same, _, _) =
          update_server_context-SameContext p ke saf finds leaf loaded in
        (ke', rw turned refl, same)
    update_server_context_ticker-SameContext (q ∷ moments) p ke saf ((finds_q, (c, loaded_q)), all)
          finds leaf loaded =
        let (k, turned, _, k_leaf, same_config) =
          update_server_context-SameContext q ke c finds_q leaf loaded_q in
        let (ke', rest, same) =
          update_server_context_ticker-SameContext moments p k saf (rw same_config all) finds k_leaf
            (rw same_config loaded) in
        (ke', rw turned rest, same)
