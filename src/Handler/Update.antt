-- ===== src/Handler/Update.antt =====
-- `handleUpdate`: the roles of the pod's identity.
use ziti_k8s_agent.Base.{Option, none, some, Text, Action, or_return, pure}
use ziti_k8s_agent.Kube.{Pod}
use ziti_k8s_agent.Handler.{ZitiHandler, AdmissionResponse, failure_response, success_response}
use ziti_k8s_agent.Handler.Delete.{identity_of_pod}

module _ {W : Type 0} (zh : ZitiHandler W) where
  abbrev pub update_identity_of :
      Pod → Pod → AdmissionResponse → Option Text → Action W AdmissionResponse
  update_identity_of pod old_pod response none = pure (success_response response)
  update_identity_of pod old_pod response (some name) =
      or_return (zh.zc.patch_identity_role_attributes name zh.config.role_key pod old_pod)
        (failure_response response) (λ _. pure (success_response response))

  unfoldable pub handle_update : Pod → Pod → AdmissionResponse → Action W AdmissionResponse
  handle_update pod old_pod response =
      update_identity_of pod old_pod response (identity_of_pod zh.config.prefix pod)
