-- ===== src/Handler/UpdateTests.antt =====
-- Tests of updates and of router pods.
use ziti_k8s_agent.Base.{◌≡◌, refl, false, some, List, [], ◌∷◌, arith, Text, codes, ok}
use ziti_k8s_agent.Base.{split, index, or_return}
use ziti_k8s_agent.Kube.{Pod}
use ziti_k8s_agent.Naming.{
  build_ziti_identity_name, label_name, base_name, add_hash, validate_name, match_name,
  filter_map_value_list_by_key, has_container, label_app,
}
use ziti_k8s_agent.Naming.Pattern.{run, step, is_alnum}
use ziti_k8s_agent.Naming.Samples.{
  sample_meta, sample_name, sample_roles, sample_uid, sample_container,
}
use ziti_k8s_agent.Edge.{
  get_identity_by_name, patch_identity_call, get_edge_router_by_name, create_edge_router,
}
use ziti_k8s_agent.Edge.Identities.{patch_identity_role_attributes, patch_roles}
use ziti_k8s_agent.Edge.Routers.{get_ziti_router_token, update_ziti_router, token_of_routers}
use ziti_k8s_agent.Edge.Lawful.{set_roles_of_name}
use ziti_k8s_agent.Edge.Memory.{Memory, memory_edge, memory_edge-IsLawful, memory_edge-HasRouters}
use ziti_k8s_agent.Edge.Samples.{no_identities, one_identity, sample_identity, sample_jwt}
use ziti_k8s_agent.Handler.{
  AdmissionResponse, ZitiHandler, empty_response, success_response, with_patch, new_ziti_handler,
  cluster_client, ziti_client,
}
use ziti_k8s_agent.Handler.Delete.{identity_of_pod}
use ziti_k8s_agent.Handler.Update.{handle_update}
use ziti_k8s_agent.Handler.Router.{handle_router_create, router_patch}
use ziti_k8s_agent.Handler.Leaked.{tunnel_refused_leaks}
use ziti_k8s_agent.Handler.{failure_response}
use ziti_k8s_agent.Handler.Tunnel.{handle_tunnel_create}
use ziti_k8s_agent.Edge.{EdgeApi, create_identity_call}
use ziti_k8s_agent.Edge.Identities.{create_identity}
use ziti_k8s_agent.Edge.Lawful.{IsLawful}
use ziti_k8s_agent.Edge.Memory.{post}
use ziti_k8s_agent.Edge.Tokens.{enrolled}
use ziti_k8s_agent.Naming.Samples.{sample_name-built}
use ziti_k8s_agent.Base.{err}
use ziti_k8s_agent.Handler.Updated.{update_sets_roles}
use ziti_k8s_agent.Handler.Routed.{RouterRun, router_create_serves}
use ziti_k8s_agent.Handler.Samples.{
  sample_cluster, sample_config, sample_zone, sample_cluster-KeepsIdentities,
}

abbrev handler : ZitiHandler Memory
handler = new_ziti_handler (sample_cluster []) memory_edge sample_config sample_zone false

abbrev pod_with_roles : Text → Pod
pod_with_roles roles = record {
  meta = record sample_meta { annotations = (sample_roles, roles) ∷ [] };
  containers = sample_container (codes "web") ∷ sample_container sample_name ∷ [];
}

abbrev with_roles : List Text → Memory
with_roles roles = record { identities = sample_identity roles ∷ []; routers = [] }

found : identity_of_pod sample_config.prefix (pod_with_roles (codes "api")) ≡ some sample_name
unfolding identity_of_pod has_container
found = refl

updated :
    handle_update handler
      (pod_with_roles (codes "api"))
      (pod_with_roles (codes "web,db"))
      empty_response
      one_identity
    ≡ (ok (success_response empty_response), with_roles (codes "api" ∷ []))
unfolding handle_update new_ziti_handler cluster_client ziti_client or_return identity_of_pod
    has_container patch_identity_role_attributes get_identity_by_name patch_identity_call
    filter_map_value_list_by_key split patch_roles
updated = refl

update_sets_roles_example :
    (with_roles (codes "api" ∷ [])).identities
    ≡ set_roles_of_name sample_name
        (patch_roles
          (filter_map_value_list_by_key
            (pod_with_roles (codes "api")).meta.annotations
            sample_roles)
          (filter_map_value_list_by_key
            (pod_with_roles (codes "web,db")).meta.annotations
            sample_roles)
          (index sample_meta.labels label_app))
        one_identity.identities
update_sets_roles_example =
    update_sets_roles (sample_cluster []) memory_edge (λ m. m.identities) memory_edge-IsLawful
      sample_config sample_zone false (pod_with_roles (codes "api"))
      (pod_with_roles (codes "web,db")) sample_name one_identity (with_roles (codes "api" ∷ []))
      (success_response empty_response) found (ground arith) (refl, tt, tt, tt) updated refl

abbrev router_pod : Pod
router_pod = record { meta = sample_meta; containers = [] }

abbrev one_router : Memory
one_router = record {
  identities = [];
  routers =
      record {
        id = codes "i:zt-web-shop-1234abcd";
        name = sample_name;
        enrollment_jwt = some sample_jwt;
      }
      ∷ [];
}

abbrev router_response : AdmissionResponse
router_response = success_response (with_patch (router_patch sample_name sample_jwt) empty_response)

routed :
    handle_router_create handler router_pod sample_uid empty_response no_identities
    ≡ (ok router_response, one_router)
unfolding handle_router_create new_ziti_handler cluster_client ziti_client or_return
    build_ziti_identity_name label_name base_name add_hash validate_name match_name run step
    is_alnum update_ziti_router get_edge_router_by_name create_edge_router get_ziti_router_token
    token_of_routers
routed = refl

router_create_serves_example :
    RouterRun memory_edge
      (λ m. m.routers)
      sample_config
      router_pod
      sample_uid
      no_identities
      one_router
      router_response
router_create_serves_example =
    router_create_serves (sample_cluster []) memory_edge (λ m. m.routers) memory_edge-HasRouters
      sample_config sample_zone false router_pod sample_uid no_identities one_router router_response
      routed refl

-- An edge API that creates identities and then does not answer.
abbrev unreadable_edge : EdgeApi Memory
unreadable_edge = record memory_edge { detail_identity = λ id m. (err (codes "timeout"), m) }

unreadable_edge-IsLawful : IsLawful unreadable_edge (λ m. m.identities)
unreadable_edge-IsLawful = record {
  listed = memory_edge-IsLawful.listed;
  created = memory_edge-IsLawful.created;
  detailed = λ id m m' i h. absurd (ground arith);
  patched = memory_edge-IsLawful.patched;
  removed = memory_edge-IsLawful.removed;
}

created_unread :
    create_identity unreadable_edge sample_name sample_roles sample_meta no_identities
    ≡ (ok (codes "i:zt-web-shop-1234abcd"), one_identity)
unfolding create_identity create_identity_call post filter_map_value_list_by_key split
created_unread = refl

tunnel_refused_leaks_example :
    ((jwt : Text) × ((handle_tunnel_create
          (new_ziti_handler (sample_cluster []) unreadable_edge sample_config sample_zone false)
          sample_meta
          sample_uid
          empty_response
          no_identities).1.identities
        ≡ enrolled sample_name sample_roles sample_meta (codes "i:zt-web-shop-1234abcd") jwt ∷ []))
    × ((e : Text) (w₂ : Memory)
        → unreadable_edge.detail_identity (codes "i:zt-web-shop-1234abcd") one_identity
          ≡ (err e, w₂)
        → handle_tunnel_create
            (new_ziti_handler (sample_cluster []) unreadable_edge sample_config sample_zone false)
            sample_meta
            sample_uid
            empty_response
            no_identities
          ≡ (ok (failure_response empty_response e), w₂))
tunnel_refused_leaks_example =
    tunnel_refused_leaks (sample_cluster []) unreadable_edge (λ m. m.identities)
      unreadable_edge-IsLawful (sample_cluster-KeepsIdentities []) (λ id m. refl) sample_config
      sample_zone false sample_meta sample_uid sample_name (codes "i:zt-web-shop-1234abcd")
      no_identities one_identity sample_name-built created_unread
