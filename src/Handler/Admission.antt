-- ===== src/Handler/Admission.antt =====
-- `handleAdmissionRequest`: decoding, the label that switches the webhook off, and the dispatch.
use ziti_k8s_agent.Base.{
  Bool, ◌∷◌, ◌++◌, Text, codes, text_eq, Result, Action, or_return, pure, lift, if◌then◌else◌,
}
use ziti_k8s_agent.Kube.{Pod}
use ziti_k8s_agent.Handler.{
  ZitiConfig, ZitiHandler, AdmissionResponse, empty_response, failure_response, success_response,
  ziti_type_router, ziti_type_tunnel,
}
use ziti_k8s_agent.Handler.Tunnel.{handle_tunnel_create}
use ziti_k8s_agent.Handler.Router.{handle_router_create}
use ziti_k8s_agent.Handler.Delete.{handle_delete}
use ziti_k8s_agent.Handler.Update.{handle_update}

-- `admissionv1.AdmissionRequest`, with its two objects as they came.
pub record AdmissionRequest : Type 0 where
  pub uid : Text
  pub operation : Text
  pub object : Text
  pub old_object : Text

-- `fmt.Sprintf("%s=%s", LabelKey, LabelDelValue)`
abbrev pub delete_selector : ZitiConfig → Text
delete_selector config = config.label_key ++ b'=' ∷ config.label_del_value

module _ {W : Type 0} (zh : ZitiHandler W) where
  unfoldable pub handle_create : Pod → Text → Action W AdmissionResponse
  handle_create pod uid =
      if text_eq zh.config.ziti_type ziti_type_tunnel
      then handle_tunnel_create zh pod.meta uid empty_response
      else if text_eq zh.config.ziti_type ziti_type_router
      then handle_router_create zh pod uid empty_response
      else pure (
          failure_response empty_response
            (codes "ziti type " ++ (zh.config.ziti_type ++ codes " not supported")))

  -- The `switch` on the operation; the flag says that the namespace carries the delete label.
  unfoldable pub dispatch : AdmissionRequest → Pod → Pod → Bool → Action W AdmissionResponse
  dispatch request pod old_pod delete_label_found =
      if text_eq request.operation (codes "CREATE")
      then (if delete_label_found
          then pure (success_response empty_response)
          else handle_create pod request.uid)
      else if text_eq request.operation (codes "DELETE")
      then handle_delete zh old_pod empty_response
      else if text_eq request.operation (codes "UPDATE")
      then (if delete_label_found
          then pure (success_response empty_response)
          else handle_update zh pod old_pod empty_response)
      else pure (success_response empty_response)

  -- The decoder of pods is a parameter.
  unfoldable pub handle_admission_request :
      (Text → Result Pod) → AdmissionRequest → Action W AdmissionResponse
  handle_admission_request decode request =
      or_return (lift (decode request.object))
        (λ e. failure_response empty_response (codes "failed to decode pod object: " ++ e))
        λ pod.
          or_return (lift (decode request.old_object))
            (λ e. failure_response empty_response (codes "failed to decode old pod object: " ++ e))
            λ old_pod.
              or_return
                (zh.kc.find_namespace_by_option pod.meta.namespace (delete_selector zh.config))
                (failure_response empty_response) (dispatch request pod old_pod)
