-- ===== src/Handler/Updated.antt =====
-- What an allowed update leaves at a lawful edge API.
use ziti_k8s_agent.Base.{◌≡◌, refl, sym, ap, ◌∙◌, Bool, true, some, List, Text, ok}
use ziti_k8s_agent.Base.{index, ok_parts}
use ziti_k8s_agent.Kube.{Pod}
use ziti_k8s_agent.Naming.{filter_map_value_list_by_key, label_app}
use ziti_k8s_agent.Cluster.{KubeApi}
use ziti_k8s_agent.Edge.{EdgeApi, IdentityDetail}
use ziti_k8s_agent.Edge.Identities.{patch_roles}
use ziti_k8s_agent.Edge.Lawful.{IsLawful, IsConsistent, IsQuotable, set_roles_of_name}
use ziti_k8s_agent.Edge.Roles.{patch_effect}
use ziti_k8s_agent.Handler.{
  ZitiConfig, AdmissionResponse, empty_response, success_response, new_ziti_handler,
}
use ziti_k8s_agent.Handler.Delete.{identity_of_pod}
use ziti_k8s_agent.Handler.Update.{handle_update}
use ziti_k8s_agent.Handler.Enrolled.{or_return_allowed}

module _ {W : Type 0} (K : KubeApi W) (E : EdgeApi W) (identities : W → List IdentityDetail)
    (L : IsLawful E identities) (config : ZitiConfig) (zone : Text) (verbose : Bool) where
  -- At a lawful edge API, where the identities have distinct identifiers and names, and the name
  -- of the pod's identity has no quote and no backslash: an allowed update of the pod gives the
  -- identity of that name the roles that `patch_roles` picks from the two annotations, and changes
  -- no other identity.
  pub update_sets_roles :
      (pod old_pod : Pod) (name : Text) (w w' : W) (r : AdmissionResponse)
      → identity_of_pod config.prefix pod ≡ some name
      → IsQuotable name
      → IsConsistent (identities w)
      → handle_update (new_ziti_handler K E config zone verbose) pod old_pod empty_response w
        ≡ (ok r, w')
      → r.allowed ≡ true
      → identities w'
        ≡ set_roles_of_name name
            (patch_roles
              (filter_map_value_list_by_key pod.meta.annotations config.role_key)
              (filter_map_value_list_by_key old_pod.meta.annotations config.role_key)
              (index pod.meta.labels label_app))
            (identities w)
  unfolding handle_update new_ziti_handler
  update_sets_roles pod old_pod name w w' r found q c h allows =
      let (a, w₁, patched, rest) =
        or_return_allowed _ _ _ w w' r (λ e. refl) allows (rw found at h) in
      let (_, same) = ok_parts (success_response empty_response) r w₁ w' rest in
      ap identities (sym same)
      ∙ patch_effect E identities L name config.role_key pod old_pod w w₁ q c patched
