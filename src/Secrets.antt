-- ===== src/Secrets.antt =====
-- internal/secrets/secrets.go: the loading of a secret from a namespace of Kubernetes. `client-go` is a
-- parameter: `C` is the type of its configurations, `S` that of its client sets.
use oes_birger.Prelude.{String, List, Result, ok, ◌>>=◌}

pub record KubernetesSecretLoader (S : Type 0) : Type 0 where
  pub clientset : S
  pub namespace : String

unfoldable pub make_kubernetes_secret_loader_from_clientset :
    {S : Type 0} → String → S → KubernetesSecretLoader S
make_kubernetes_secret_loader_from_clientset namespace clientset = record {
  clientset = clientset;
  namespace = namespace;
}

-- `get` is the request for a secret of a namespace; the map is that of its data.
unfoldable pub get_secret :
    {S E : Type 0}
    → (S → String → String → Result E (List (String × String)))
    → KubernetesSecretLoader S
    → String
    → Result E (List (String × String))
get_secret get s name = get s.clientset s.namespace name

module _ {C S E : Type 0} where
  unfoldable pub make_clientset :
      (C → Result E S) → String → C → Result E (KubernetesSecretLoader S)
  make_clientset new_for_config namespace config = do
    clientset ← new_for_config config
    ok (record { clientset = clientset; namespace = namespace })

  -- The configuration of the pod's service account.
  unfoldable pub make_kubernetes_secret_loader :
      (C → Result E S) → Result E C → String → Result E (KubernetesSecretLoader S)
  unfolding make_clientset
  make_kubernetes_secret_loader new_for_config in_cluster_config namespace = do
    config ← in_cluster_config
    make_clientset new_for_config namespace config

  -- The configuration of a kubeconfig file.
  unfoldable pub make_kubernetes_secret_loader_from_kubectl :
      (C → Result E S)
      → (String → Result E C)
      → String
      → String
      → Result E (KubernetesSecretLoader S)
  unfolding make_clientset
  make_kubernetes_secret_loader_from_kubectl new_for_config build_config namespace kubeconfig = do
    config ← build_config kubeconfig
    make_clientset new_for_config namespace config
