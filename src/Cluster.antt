-- ===== src/Cluster.antt =====
-- `clusterClient` of ziti-agent/cmd/webhook/pods.go, over the Kubernetes client, which is a
-- parameter: a record of the operations that are used, over an unknown world.
pub mod Dns
mod Tests
use ziti_k8s_agent.Base.{
  Bool, true, false, List, [], ◌∷◌, Option, Text, codes, text_eq, ◌++◌, Result, Action, ◌>>=◌, pure,
  if◌then◌else◌,
}
use ziti_k8s_agent.Kube.{Service, PersistentVolumeClaim}

pub record KubeApi (W : Type 0) : Type 0 where
  -- The names of the namespaces that a label selector matches.
  pub list_namespaces : Text → Action W (List Text)
  pub get_service : Text → Text → Action W Service
  -- The claim, or nil.
  pub get_claim : Text → Text → Action W (Option PersistentVolumeClaim)
  pub delete_claim : Text → Text → Action W (Unit {0})

-- The loop over the listed namespaces.
abbrev pub has_name : Text → List Text → Bool
has_name name [] = false
has_name name (ns ∷ rest) = if text_eq ns name then true else has_name name rest

module _ {W : Type 0} (K : KubeApi W) where
  unfoldable pub find_namespace_by_option : Text → Text → Action W Bool
  find_namespace_by_option name selector =
      K.list_namespaces selector >>= λ namespaces. pure (has_name name namespaces)

  unfoldable pub get_cluster_service : Text → Text → Action W Service
  get_cluster_service namespace name = K.get_service namespace name

  unfoldable pub get_pvc_by_option : Text → Text → Action W (Option PersistentVolumeClaim)
  get_pvc_by_option namespace name = K.get_claim namespace name

  unfoldable pub delete_pvc : Text → Text → Action W (Unit {0})
  delete_pvc namespace name = K.delete_claim namespace name
