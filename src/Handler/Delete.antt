-- ===== src/Handler/Delete.antt =====
-- `handleDelete`: the identity or the router of a pod, and the claim of a router.
use ziti_k8s_agent.Base.{
  List, ◌∷◌, ◌++◌, Option, none, some, Text, codes, text_eq, index, is_empty, get_elem?, Result, ok,
  err, panic, Action, or_return, pure, if◌then◌else◌,
}
use ziti_k8s_agent.Kube.{Pod, Container, EnvVar, PersistentVolumeClaim}
use ziti_k8s_agent.Naming.{
  has_container, filter_map_value_by_key, annotation_identity_name, label_app, non_empty,
}
use ziti_k8s_agent.Handler.{
  ZitiHandler, AdmissionResponse, failure_response, success_response, ziti_type_router,
}

-- `Env[7].Value` of a container that may be missing: an index out of range panics.
abbrev pub env_value : Option EnvVar → Result Text
env_value none = panic
env_value (some v) = ok v.value

abbrev pub env_7_of : Option Container → Result Text
env_7_of none = panic
env_7_of (some c) = env_value (get_elem? c.env 7)

-- `pod.Spec.Containers[0].Env[7].Value`
unfoldable pub router_name_of : List Container → Result Text
router_name_of containers = env_7_of (get_elem? containers 0)

-- The name of the pod's identity: that of the first container with the prefix, else that of the
-- annotation; an empty one counts as missing.
unfoldable pub identity_of_pod : Text → Pod → Option Text
identity_of_pod prefix pod = elim (non_empty (has_container pod.containers prefix)) [
  | some name ↦ some name
  | none ↦ non_empty (filter_map_value_by_key pod.meta.annotations annotation_identity_name)
]

module _ {W : Type 0} (zh : ZitiHandler W) where
  -- The name of the claim is looked up, and the claim deleted where there is one with a name.
  abbrev pub delete_claim_of :
      Pod → Text → AdmissionResponse → Option PersistentVolumeClaim → Action W AdmissionResponse
  delete_claim_of pod router response none = pure (success_response response)
  delete_claim_of pod router response (some claim) =
      if is_empty claim.name
      then pure (success_response response)
      else or_return (zh.kc.delete_pvc pod.meta.namespace claim.name)
          (λ e. failure_response response (
            codes "failed to delete PVC "
            ++ (claim.name ++ (codes " for router " ++ (router ++ (codes ": " ++ e))))))
          (λ _. pure (success_response response))

  abbrev pub delete_router : Pod → Text → AdmissionResponse → Action W AdmissionResponse
  delete_router pod router response =
      or_return (zh.zc.delete_ziti_router router) (failure_response response) λ _.
        or_return
          (zh.kc.get_pvc_by_option pod.meta.namespace
            (index pod.meta.labels label_app ++ b'-' ∷ pod.meta.name))
          (λ e.
            failure_response response
              (codes "failed to delete PVC for router " ++ (router ++ (codes ": " ++ e))))
          (delete_claim_of pod router response)

  abbrev pub delete_router_of : Pod → AdmissionResponse → Result Text → Action W AdmissionResponse
  delete_router_of pod response (ok router) = delete_router pod router response
  delete_router_of pod response (err e) = pure (failure_response response e)
  delete_router_of pod response panic = λ w. (panic, w)

  abbrev pub delete_identity_of : AdmissionResponse → Option Text → Action W AdmissionResponse
  delete_identity_of response none = pure (success_response response)
  delete_identity_of response (some name) =
      or_return (zh.zc.delete_identity name) (failure_response response)
        (λ _. pure (success_response response))

  unfoldable pub handle_delete : Pod → AdmissionResponse → Action W AdmissionResponse
  handle_delete pod response =
      if text_eq zh.config.ziti_type ziti_type_router
      then delete_router_of pod response (router_name_of pod.containers)
      else delete_identity_of response (identity_of_pod zh.config.prefix pod)
