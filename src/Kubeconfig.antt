-- ===== src/Kubeconfig.antt =====
-- internal/kubeconfig/config.go: the contents of a kubeconfig file, and how the user and the cluster of
-- a context are found in it. Reading the file and decoding YAML are arguments.
pub mod Found
use oes_birger.Prelude.{
  String, ◌==◌, Bool, not, List, [], ◌∷◌, map, Option, none, some, if◌then◌else◌, Result, ok, err,
  panic, ◌>>=◌,
}
use oes_birger.Text.{is_empty_text}

pub record ContextDetails : Type 0 where
  pub cluster : String
  pub user : String

pub record Context : Type 0 where
  pub name : String
  pub context : ContextDetails

pub record ClusterDetails : Type 0 where
  pub insecure_skip_tls_verify : Bool
  pub certificate_authority_data : String
  pub server : String

pub record Cluster : Type 0 where
  pub name : String
  pub cluster : ClusterDetails

pub record UserDetails : Type 0 where
  pub client_certificate_data : String
  pub client_key_data : String

pub record User : Type 0 where
  pub name : String
  pub user : UserDetails

pub record KubeConfig : Type 0 where
  pub api_version : String
  pub kind : String
  pub current_context : String
  pub clusters : List Cluster
  pub contexts : List Context
  pub users : List User

-- The errors of this file, and those of the reader and of the YAML library.
pub data Error : Type 0 where
  wrong_api_version : String → Error
  wrong_kind : String → Error
  no_context : String → Error
  no_user : String → Error
  no_cluster : String → Error
  no_cluster_name : String → Error
  no_user_name : String → Error
  library : String → Error

-- `contents` is what `io.ReadAll` comes to, `unmarshal` is `yaml.Unmarshal`.
unfoldable pub read_kube_config {ℓ} :
    {B : Type ℓ} → (B → Result Error KubeConfig) → Result Error B → Result Error KubeConfig
read_kube_config unmarshal contents = do
  buf ← contents
  c ← unmarshal buf
  if not (c.api_version == "v1")
      then err (wrong_api_version c.api_version)
      else if not (c.kind == "Config")
      then err (wrong_kind c.kind)
      else ok c

-- The loop of the three functions below: the first entry with that name.
unfoldable pub first_named {ℓ} : {A : Type ℓ} → (A → String) → String → List A → Option A
first_named label name [] = none
first_named label name (b ∷ entries) =
    let rest = first_named label name entries in if label b == name then some b else rest

abbrev pub or_fail {ℓ} : {A : Type ℓ} → Error → Option A → Result Error A
or_fail e none = err e
or_fail e (some b) = ok b

unfoldable pub context_named : String → KubeConfig → Result Error ContextDetails
unfolding first_named
context_named name kc = do
  b ← or_fail (no_context name) (first_named (λ b. b.name) name kc.contexts)
  ok b.context

unfoldable pub find_user : String → KubeConfig → Result Error User
unfolding first_named
find_user name kc = or_fail (no_user name) (first_named (λ b. b.name) name kc.users)

unfoldable pub find_cluster : String → KubeConfig → Result Error Cluster
unfolding first_named
find_cluster name kc = or_fail (no_cluster name) (first_named (λ b. b.name) name kc.clusters)

unfoldable pub get_context_names : KubeConfig → List String
get_context_names kc = map (λ b. b.name) kc.contexts

-- What a context refers to.
unfoldable pub resolve : String → KubeConfig → ContextDetails → Result Error (User × Cluster)
unfolding find_user find_cluster
resolve name kc context =
    if is_empty_text context.cluster
    then err (no_cluster_name name)
    else if is_empty_text context.user
    then err (no_user_name name)
    else (do
      user ← find_user context.user kc
      cluster ← find_cluster context.cluster kc
      ok (user, cluster))

unfoldable pub find_context : String → KubeConfig → Result Error (User × Cluster)
unfolding context_named resolve
find_context name kc = do context ← context_named name kc; resolve name kc context
