-- ===== src/Handler.antt =====
-- `zitiHandler` of ziti-agent/cmd/webhook/pods.go: its configuration, the two interfaces that it
-- calls through, the responses and patch entries of ziti-agent/cmd/webhook/utilities.go, and the
-- implementation of the interfaces by `clusterClient` and `zitiClient`.
pub mod Dns
pub mod Tunnel
pub mod Router
pub mod Delete
pub mod Update
pub mod Admission
pub mod Answers
pub mod Enrolled
pub mod Removed
pub mod Leaked
pub mod Updated
pub mod Routed
pub mod Shared
pub mod Interleaved
pub mod Samples
mod Tests
mod UpdateTests
use ziti_k8s_agent.Base.{
  ℕ, Bool, true, false, List, [], ◌∷◌, Option, none, some, Text, codes, StringMap, Result, Action,
  is_empty,
}
use ziti_k8s_agent.Kube.{
  ObjectMeta, Pod, Container, EmptyDirVolume, PodDnsConfig, SecurityContext, Service,
  PersistentVolumeClaim,
}
use ziti_k8s_agent.Cluster.{
  KubeApi, find_namespace_by_option, get_cluster_service, get_pvc_by_option, delete_pvc,
}
use ziti_k8s_agent.Edge.{EdgeApi, EdgeRouterCreate}
use ziti_k8s_agent.Edge.Identities.{
  create_identity, delete_identity, get_identity_token, find_identity_id,
  patch_identity_role_attributes,
}
use ziti_k8s_agent.Edge.Routers.{get_ziti_router_token, update_ziti_router, delete_ziti_router}

abbrev pub ziti_type_router : Text
ziti_type_router = codes "router"

abbrev pub ziti_type_tunnel : Text
ziti_type_tunnel = codes "tunnel"

pub record RouterConfig : Type 0 where
  pub cost : ℕ
  pub disabled : Bool
  pub is_tunneler_enabled : Bool
  pub role_attributes : List Text

pub record ZitiConfig : Type 0 where
  pub image : Text
  pub image_version : Text
  pub image_pull_policy : Text
  pub volume_mount_name : Text
  pub identity_dir : Text
  pub prefix : Text
  pub role_key : Text
  pub label_key : Text
  pub label_del_value : Text
  pub label_cr_value : Text
  pub resolver_ip : Text
  pub dns_upstream_enabled : Bool
  pub unanswerable : Text
  pub search_domains : List Text
  pub additional_args : List Text
  pub pod_security_override : Bool
  pub ziti_type : Text
  pub annotation_key : Text
  pub router_config : RouterConfig

pub record ClusterClientIntf (W : Type 0) : Type 0 where
  pub get_cluster_service : Text → Text → Action W Service
  pub find_namespace_by_option : Text → Text → Action W Bool
  pub get_pvc_by_option : Text → Text → Action W (Option PersistentVolumeClaim)
  pub delete_pvc : Text → Text → Action W (Unit {0})

pub record ZitiClientIntf (W : Type 0) : Type 0 where
  pub create_identity : Text → Text → ObjectMeta → Action W Text
  pub delete_identity : Text → Action W (Unit {0})
  pub delete_ziti_router : Text → Action W (Unit {0})
  pub get_identity_token : Text → Text → Action W Text
  pub get_ziti_router_token : Text → Action W Text
  pub find_identity_id : Text → Action W Text
  pub patch_identity_role_attributes : Text → Text → Pod → Pod → Action W (Unit {0})
  pub update_ziti_router : Text → EdgeRouterCreate → Action W (Option Text)

-- `zitiHandler`. `zone` is `runtimeConfig.ClusterDns.Zone`, and `verbose` is `klog.V(4).Enabled()`.
pub record ZitiHandler (W : Type 0) : Type 0 where
  pub kc : ClusterClientIntf W
  pub zc : ZitiClientIntf W
  pub config : ZitiConfig
  pub zone : Text
  pub verbose : Bool

-- The values that a `JsonPatchEntry` carries in this program.
pub data PatchValue : Type 0 where
  container : Container → PatchValue
  volume : EmptyDirVolume → PatchValue
  text : Text → PatchValue
  dns_config : PodDnsConfig → PatchValue
  security : SecurityContext → PatchValue
  string_map : StringMap → PatchValue

-- `JsonPatchEntry`; `From` is never set.
pub record JsonPatchEntry : Type 0 where
  pub op : Text
  pub path : Text
  pub value : PatchValue

-- `metav1.Status`
pub record Status : Type 0 where
  pub status : Text
  pub message : Text

-- `admissionv1.AdmissionResponse`. The patch is kept as its entries: `json.Marshal` does not fail
-- on them. A patch comes with its type, JSONPatch.
pub record AdmissionResponse : Type 0 where
  pub uid : Text
  pub allowed : Bool
  pub result : Option Status
  pub patch : Option (List JsonPatchEntry)
  pub patch_type : Option Text

abbrev pub empty_response : AdmissionResponse
empty_response = record {
  uid = [];
  allowed = false;
  result = none;
  patch = none;
  patch_type = none;
}

abbrev pub failure_response : AdmissionResponse → Text → AdmissionResponse
failure_response ar message = record ar {
  allowed = false;
  result = some (record { status = codes "Failure"; message = message });
}

abbrev pub success_response : AdmissionResponse → AdmissionResponse
success_response ar = record ar {
  allowed = true;
  result = some (record { status = codes "Success"; message = [] });
}

-- The response with the marshalled patch.
abbrev pub with_patch : List JsonPatchEntry → AdmissionResponse → AdmissionResponse
with_patch entries response = record response {
  patch = some entries;
  patch_type = some (codes "JSONPatch");
}

module _ {W : Type 0} where
  unfoldable pub cluster_client : KubeApi W → ClusterClientIntf W
  cluster_client K = record {
    get_cluster_service = get_cluster_service K;
    find_namespace_by_option = find_namespace_by_option K;
    get_pvc_by_option = get_pvc_by_option K;
    delete_pvc = delete_pvc K;
  }

  unfoldable pub ziti_client : EdgeApi W → ZitiClientIntf W
  ziti_client E = record {
    create_identity = create_identity E;
    delete_identity = delete_identity E;
    delete_ziti_router = delete_ziti_router E;
    get_identity_token = get_identity_token E;
    get_ziti_router_token = get_ziti_router_token E;
    find_identity_id = find_identity_id E;
    patch_identity_role_attributes = patch_identity_role_attributes E;
    update_ziti_router = update_ziti_router E;
  }

  unfoldable pub new_ziti_handler : KubeApi W → EdgeApi W → ZitiConfig → Text → Bool → ZitiHandler W
  unfolding cluster_client ziti_client
  new_ziti_handler K E config zone verbose = record {
    kc = cluster_client K;
    zc = ziti_client E;
    config = config;
    zone = zone;
    verbose = verbose;
  }
