-- ===== src/Kubeconfig/Found.antt =====
-- What `FindContext` finds.
use oes_birger.Prelude.{
  String, ◌==◌, ◌≡◌, ◌≢◌, refl, ap, ◌∙◌, sym, eq_iff, eq_refl, List, [], ◌∷◌, ◌++◌, some, All, ◌↔◌,
  arith, ok, Bool-cases, Option-cases, inl, inr,
}
use oes_birger.Text.{is_empty_text}
use oes_birger.Kubeconfig.{
  KubeConfig, Context, ContextDetails, User, Cluster, first_named, context_named, find_user,
  find_cluster, resolve, find_context,
}

-- `b` is the first of the entries whose label is `name`.
pub record IsFirst {ℓ} {A : Type ℓ} (label : A → String) (name : String) (b : A) (entries : List A)
    : Type ℓ where
  pub before : List A
  pub after : List A
  pub split : entries ≡ before ++ b ∷ after
  pub others : All (λ a. label a ≢ name) before
  pub named : label b ≡ name

module _ {ℓ} {A : Type ℓ} (label : A → String) (name : String) where
  first_named-IsFirst :
      (b : A) (entries : List A)
      → first_named label name entries ≡ some b
      → IsFirst label name b entries
  unfolding first_named
  first_named-IsFirst b [] e = cc
  first_named-IsFirst b (a ∷ entries) e = elim (Bool-cases (label a == name)) [
    | inl same ↦
        let it : a ≡ b = ground arith in
        record {
          before = [];
          after = entries;
          split = ap (λ x. x ∷ entries) it;
          others = tt;
          named = ap label (sym it) ∙ (eq_iff (label a) name).0 same;
        }
    | inr other ↦
        let rest = first_named-IsFirst b entries (ground arith) in
        record {
          before = a ∷ rest.before;
          after = rest.after;
          split = ap (λ x. a ∷ x) rest.split;
          others = (ground (arith, eq_iff (label a) name), rest.others);
          named = rest.named;
        }
  ]

  IsFirst-first_named :
      (b : A) (before after : List A)
      → All (λ a. label a ≢ name) before
      → label b ≡ name
      → first_named label name (before ++ b ∷ after) ≡ some b
  unfolding first_named
  IsFirst-first_named b [] after o n = rw (n, eq_refl name) refl
  IsFirst-first_named b (a ∷ before) after o n =
      ground (arith, eq_iff (label a) name, IsFirst-first_named b before after o.1 n)

  pub first_named-eq-some_iff :
      (b : A) (entries : List A)
      → (first_named label name entries ≡ some b) ↔ IsFirst label name b entries
  first_named-eq-some_iff b entries = (
    first_named-IsFirst b entries,
    λ first.
        ap (first_named label name) first.split
        ∙ IsFirst-first_named b first.before first.after first.others first.named,
  )

-- What a context refers to: a user and a cluster, each the first of its name.
pub record Refers (kc : KubeConfig) (name : String) (user : User) (cluster : Cluster) : Type 0 where
  pub entry : Context
  pub is_first : IsFirst (λ b. b.name) name entry kc.contexts
  pub has_cluster : entry.context.cluster ≢ ""
  pub has_user : entry.context.user ≢ ""
  pub first_user : IsFirst (λ b. b.name) entry.context.user user kc.users
  pub first_cluster : IsFirst (λ b. b.name) entry.context.cluster cluster kc.clusters

module _ (kc : KubeConfig) (name : String) (user : User) (cluster : Cluster) where
  resolve-inv :
      (context : ContextDetails)
      → resolve name kc context ≡ ok (user, cluster)
      → (context.cluster ≢ "")
        × (context.user ≢ "")
        × (first_named (λ b. b.name) context.user kc.users ≡ some user)
        × (first_named (λ b. b.name) context.cluster kc.clusters ≡ some cluster)
  unfolding resolve find_user find_cluster is_empty_text
  resolve-inv context e = elim (Option-cases (first_named (λ b. b.name) context.user kc.users)) [
    | inl p ↦ ground (arith, eq_iff context.cluster "", eq_iff context.user "")
    | inr (u, p) ↦ elim (Option-cases (first_named (λ b. b.name) context.cluster kc.clusters)) [
      | inl q ↦ ground (arith, eq_iff context.cluster "", eq_iff context.user "")
      | inr (k, q) ↦ ground (arith, eq_iff context.cluster "", eq_iff context.user "")
    ]
  ]

  resolve-found :
      (context : ContextDetails)
      → context.cluster ≢ ""
      → context.user ≢ ""
      → first_named (λ b. b.name) context.user kc.users ≡ some user
      → first_named (λ b. b.name) context.cluster kc.clusters ≡ some cluster
      → resolve name kc context ≡ ok (user, cluster)
  unfolding resolve find_user find_cluster is_empty_text
  resolve-found context c u p q = ground (arith, eq_iff context.cluster "", eq_iff context.user "")

  find_context-inv : find_context name kc ≡ ok (user, cluster) → Refers kc name user cluster
  unfolding find_context context_named
  find_context-inv e = elim (Option-cases (first_named (λ b. b.name) name kc.contexts)) [
    | inl p ↦ cc (rw (p, context_named) at e)
    | inr (b, p) ↦
        let (c, u, found_user, found_cluster) =
          resolve-inv b.context (rw (p, context_named) at e) in
        record {
          entry = b;
          is_first = (first_named-eq-some_iff (λ x. x.name) name b kc.contexts).0 p;
          has_cluster = c;
          has_user = u;
          first_user =
              (first_named-eq-some_iff (λ x. x.name) b.context.user user kc.users).0 found_user;
          first_cluster =
              (first_named-eq-some_iff (λ x. x.name) b.context.cluster cluster kc.clusters).0
                found_cluster;
        }
  ]

  find_context-Refers : Refers kc name user cluster → find_context name kc ≡ ok (user, cluster)
  unfolding find_context context_named
  find_context-Refers h =
      let p = (first_named-eq-some_iff (λ x. x.name) name h.entry kc.contexts).1 h.is_first in
      rw (p, context_named)
        (resolve-found h.entry.context h.has_cluster h.has_user
          ((first_named-eq-some_iff (λ x. x.name) h.entry.context.user user kc.users).1
            h.first_user)
          ((first_named-eq-some_iff (λ x. x.name) h.entry.context.cluster cluster kc.clusters).1
            h.first_cluster))

  -- A context's user and cluster are found exactly if the first context of that name has names for
  -- both that are not empty, and the two are the first user and the first cluster of those names.
  pub find_context-eq-ok_iff :
      (find_context name kc ≡ ok (user, cluster)) ↔ Refers kc name user cluster
  find_context-eq-ok_iff = (find_context-inv, find_context-Refers)
