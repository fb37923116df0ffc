-- ===== src/Edge/Tests.antt =====
-- Tests of the identities and routers at the edge API in memory.
use ziti_k8s_agent.Base.{
  ◌≡◌, refl, ◌≢◌, ◌↔◌, false, some, List, [], ◌∷◌, arith, Text, codes, is_empty, ok,
}
use ziti_k8s_agent.Base.{split}
use ziti_k8s_agent.Kube.{Pod}
use ziti_k8s_agent.Naming.{filter_map_value_list_by_key}
use ziti_k8s_agent.Naming.Samples.{sample_meta, sample_name, sample_roles}
use ziti_k8s_agent.Edge.{
  EdgeRouterDetail, create_identity_call, get_identity_by_name, delete_identity_call,
  patch_identity_call, re_enroll_edge_router,
}
use ziti_k8s_agent.Edge.Identities.{
  create_identity, get_identity_token, delete_identity, patch_identity_role_attributes, patch_roles,
}
use ziti_k8s_agent.Edge.Routers.{token_of_routers}
use ziti_k8s_agent.Edge.Lawful.{IsConsistent, with_id, set_roles_of_name, without_name}
use ziti_k8s_agent.Edge.Memory.{Memory, memory_edge, memory_edge-IsLawful, post, detail}
use ziti_k8s_agent.Edge.Samples.{
  no_identities, sample_id, sample_jwt, sample_identity, one_identity,
}
use ziti_k8s_agent.Edge.Lifecycle.{delete_identity_removes}
use ziti_k8s_agent.Edge.Roles.{patch_annotated, patch_unchanged_wipes}
use ziti_k8s_agent.Edge.Tokens.{created_token, Served, token_of_routers_iff}

created :
    create_identity memory_edge sample_name sample_roles sample_meta no_identities
    ≡ (ok sample_id, one_identity)
unfolding create_identity create_identity_call post filter_map_value_list_by_key split
created = refl

one_identity-IsConsistent : IsConsistent one_identity.identities
one_identity-IsConsistent = (refl, tt, tt, tt)

deleted : delete_identity memory_edge sample_name one_identity ≡ (ok tt, no_identities)
unfolding delete_identity get_identity_by_name delete_identity_call
deleted = refl

delete_identity_removes_example :
    no_identities.identities ≡ without_name sample_name one_identity.identities
delete_identity_removes_example =
    delete_identity_removes memory_edge (λ m. m.identities) memory_edge-IsLawful sample_name
      one_identity no_identities (ground arith) one_identity-IsConsistent deleted

abbrev pod_with_roles : Text → Pod
pod_with_roles roles = record {
  meta = record sample_meta { annotations = (sample_roles, roles) ∷ [] };
  containers = [];
}

abbrev with_roles : List Text → Memory
with_roles roles = record { identities = sample_identity roles ∷ []; routers = [] }

patched :
    patch_identity_role_attributes memory_edge sample_name sample_roles
      (pod_with_roles (codes "api"))
      (pod_with_roles (codes "web,db"))
      one_identity
    ≡ (ok tt, with_roles (codes "api" ∷ []))
unfolding patch_identity_role_attributes get_identity_by_name patch_identity_call
    filter_map_value_list_by_key split patch_roles
patched = refl

new_annotation :
    filter_map_value_list_by_key (pod_with_roles (codes "api")).meta.annotations sample_roles
    ≡ some (codes "api" ∷ [])
unfolding filter_map_value_list_by_key split
new_annotation = refl

annotation_differs :
    some (codes "api" ∷ [])
    ≢ filter_map_value_list_by_key (pod_with_roles (codes "web,db")).meta.annotations sample_roles
unfolding filter_map_value_list_by_key split
annotation_differs h = ground arith

patch_annotated_example :
    (with_roles (codes "api" ∷ [])).identities
    ≡ set_roles_of_name sample_name (codes "api" ∷ []) one_identity.identities
patch_annotated_example =
    patch_annotated memory_edge (λ m. m.identities) memory_edge-IsLawful sample_name sample_roles
      (pod_with_roles (codes "api")) (pod_with_roles (codes "web,db")) (codes "api" ∷ [])
      one_identity (with_roles (codes "api" ∷ [])) (ground arith) one_identity-IsConsistent
      new_annotation annotation_differs patched

wiped :
    patch_identity_role_attributes memory_edge sample_name sample_roles
      (pod_with_roles (codes "web,db"))
      (pod_with_roles (codes "web,db"))
      one_identity
    ≡ (ok tt, with_roles [])
unfolding patch_identity_role_attributes get_identity_by_name patch_identity_call
    filter_map_value_list_by_key split patch_roles
wiped = refl

patch_unchanged_wipes_example :
    (with_roles []).identities ≡ set_roles_of_name sample_name [] one_identity.identities
patch_unchanged_wipes_example =
    patch_unchanged_wipes memory_edge (λ m. m.identities) memory_edge-IsLawful sample_name
      sample_roles (pod_with_roles (codes "web,db")) (pod_with_roles (codes "web,db")) one_identity
      (with_roles []) (ground arith) one_identity-IsConsistent refl wiped

read_back :
    memory_edge.detail_identity sample_id one_identity
    ≡ (ok (sample_identity (codes "web" ∷ codes "db" ∷ [])), one_identity)
unfolding detail
read_back = refl

created_token_example :
    (jwt : Text) × (is_empty jwt ≡ false)
    × (with_id sample_id one_identity.identities
        ≡ some (sample_identity (codes "web" ∷ codes "db" ∷ [])))
    × (some sample_jwt ≡ some jwt)
    × (get_identity_token memory_edge sample_name sample_id one_identity ≡ (ok jwt, one_identity))
    × (one_identity.identities ≡ one_identity.identities)
created_token_example =
    created_token memory_edge (λ m. m.identities) memory_edge-IsLawful sample_name sample_roles
      sample_meta no_identities one_identity one_identity sample_id
      (sample_identity (codes "web" ∷ codes "db" ∷ [])) created read_back

abbrev used_router : EdgeRouterDetail
used_router = record { id = codes "r1"; name = codes "router"; enrollment_jwt = some [] }

abbrev fresh_router : EdgeRouterDetail
fresh_router = record {
  id = codes "r2";
  name = codes "router";
  enrollment_jwt = some (codes "jwt");
}

token_of_two :
    token_of_routers memory_edge (used_router ∷ fresh_router ∷ []) no_identities
    ≡ (ok (codes "jwt"), no_identities)
unfolding token_of_routers re_enroll_edge_router
token_of_two = refl

token_of_routers_iff_example :
    (token_of_routers memory_edge (used_router ∷ fresh_router ∷ []) no_identities
      ≡ (ok (codes "jwt"), no_identities))
    ↔ Served memory_edge (used_router ∷ fresh_router ∷ []) no_identities (codes "jwt") no_identities
token_of_routers_iff_example =
    token_of_routers_iff memory_edge (used_router ∷ fresh_router ∷ []) no_identities no_identities
      (codes "jwt")
