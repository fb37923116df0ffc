-- ===== src/Handler/Router.antt =====
-- `handleRouterCreate`: the router, its token, and the patch of the first container's environment.
use ziti_k8s_agent.Base.{false, List, [], ◌∷◌, Text, codes, Action, or_return, pure, lift}
use ziti_k8s_agent.Kube.{Pod}
use ziti_k8s_agent.Naming.{build_ziti_identity_name}
use ziti_k8s_agent.Edge.{EdgeRouterCreate}
use ziti_k8s_agent.Handler.{
  RouterConfig, ZitiHandler, JsonPatchEntry, PatchValue, AdmissionResponse, failure_response,
  success_response, with_patch,
}

abbrev pub router_options : RouterConfig → Text → EdgeRouterCreate
router_options config name = record {
  cost = config.cost;
  disabled = config.disabled;
  is_tunneler_enabled = config.is_tunneler_enabled;
  name = name;
  no_traversal = false;
  role_attributes = config.role_attributes;
}

abbrev pub router_patch : Text → Text → List JsonPatchEntry
router_patch name token =
    record {
      op = codes "replace";
      path = codes "/spec/containers/0/env/0/value";
      value = PatchValue.text token;
    }
    ∷ record {
      op = codes "replace";
      path = codes "/spec/containers/0/env/7/value";
      value = PatchValue.text name;
    }
    ∷ []

module _ {W : Type 0} (zh : ZitiHandler W) where
  unfoldable pub handle_router_create : Pod → Text → AdmissionResponse → Action W AdmissionResponse
  handle_router_create pod uid response =
      or_return (lift (build_ziti_identity_name zh.config.prefix pod.meta uid))
        (failure_response response)
        λ name.
          or_return (zh.zc.update_ziti_router name (router_options zh.config.router_config name))
            (failure_response response)
            λ _.
              or_return (zh.zc.get_ziti_router_token name) (failure_response response)
                λ token. pure (success_response (with_patch (router_patch name token) response))
