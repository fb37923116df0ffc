-- ===== src/Handler/Tunnel.antt =====
-- `handleTunnelCreate`: the identity, its token, and the patch that adds the sidecar.
use ziti_k8s_agent.Base.{
  Bool, true, false, ◌&&◌, not, List, [], ◌∷◌, ◌++◌, Option, none, some, Text, codes, StringMap,
  lookup, is_empty, Action, or_return, pure, lift, if◌then◌else◌,
}
use ziti_k8s_agent.Kube.{ObjectMeta, Container, SecurityContext, ResourceRequirements, PodDnsConfig}
use ziti_k8s_agent.Naming.{build_ziti_identity_name, annotation_identity_name}
use ziti_k8s_agent.Handler.{
  ZitiConfig, ZitiHandler, JsonPatchEntry, PatchValue, AdmissionResponse, failure_response,
  success_response, with_patch,
}
use ziti_k8s_agent.Handler.Dns.{get_dns_config}

-- The arguments for the upstream resolver.
abbrev pub upstream_args : ZitiConfig → List Text
upstream_args config =
    if config.dns_upstream_enabled && not (is_empty config.resolver_ip)
    then codes "--dnsUpstream" ∷ (codes "tcp://" ++ config.resolver_ip ++ codes ":53") ∷ []
    else []

abbrev pub unanswerable_or_refused : Text → Text
unanswerable_or_refused text = if is_empty text then codes "refused" else text

-- The custom arguments, else `--verbose` where the agent itself logs at level 4.
abbrev pub extra_args : List Text → Bool → List Text
extra_args [] verbose = if verbose then codes "--verbose" ∷ [] else []
extra_args (arg ∷ args) verbose = arg ∷ args

unfoldable pub sidecar_args : ZitiConfig → Bool → List Text
sidecar_args config verbose =
    codes "tproxy"
    ∷ (upstream_args config
        ++ (codes "--dnsUnanswerable"
            ∷ unanswerable_or_refused config.unanswerable
            ∷ extra_args config.additional_args verbose))

-- The resources of the sidecar.
abbrev pub sidecar_resources : ResourceRequirements
sidecar_resources = record {
  requests = (codes "cpu", codes "50m") ∷ (codes "memory", codes "64Mi") ∷ [];
  limits = (codes "cpu", codes "100m") ∷ (codes "memory", codes "128Mi") ∷ [];
}

abbrev pub sidecar_security : SecurityContext
sidecar_security = record {
  capabilities_add = codes "NET_ADMIN" ∷ codes "NET_BIND_SERVICE" ∷ [];
  capabilities_drop = codes "ALL" ∷ [];
  run_as_root = true;
  privileged = some false;
  run_as_non_root = none;
}

abbrev pub sidecar : ZitiConfig → Bool → Text → Text → Container
sidecar config verbose name token = record {
  name = name;
  image = config.image ++ b':' ∷ config.image_version;
  image_pull_policy = config.image_pull_policy;
  args = sidecar_args config verbose;
  env =
      record { name = codes "ZITI_ENROLL_TOKEN"; value = token }
      ∷ record { name = codes "ZITI_IDENTITY_DIR"; value = config.identity_dir }
      ∷ [];
  volume_mounts =
      record {
        name = config.volume_mount_name;
        mount_path = config.identity_dir;
        read_only = false;
      }
      ∷ [];
  security_context = some sidecar_security;
  resources = sidecar_resources;
}

abbrev pub override_entries : Bool → List JsonPatchEntry
override_entries false = []
override_entries true =
    record {
      op = codes "replace";
      path = codes "/spec/securityContext";
      value = PatchValue.security (record {
        capabilities_add = [];
        capabilities_drop = [];
        run_as_root = false;
        privileged = none;
        run_as_non_root = some false;
      });
    }
    ∷ []

-- The annotation that names the identity, added or replaced.
abbrev pub annotation_op : Option Text → Text
annotation_op none = codes "add"
annotation_op (some _) = codes "replace"

abbrev pub annotation_entry : StringMap → Text → JsonPatchEntry
annotation_entry annotations name = record {
  op = annotation_op (lookup annotation_identity_name annotations);
  path = codes "/metadata/annotations";
  value = PatchValue.string_map ((annotation_identity_name, name) ∷ []);
}

-- What `handleTunnelCreate` assigns to `jsonPatch` first.
unfoldable pub base_entries : ZitiConfig → Bool → PodDnsConfig → Text → Text → List JsonPatchEntry
base_entries config verbose dns name token =
    record {
      op = codes "add";
      path = codes "/spec/containers/-";
      value = PatchValue.container (sidecar config verbose name token);
    }
    ∷ record {
      op = codes "add";
      path = codes "/spec/volumes/-";
      value = PatchValue.volume (record { name = config.volume_mount_name });
    }
    ∷ record {
      op = codes "replace";
      path = codes "/spec/dnsPolicy";
      value = PatchValue.text (codes "None");
    }
    ∷ record { op = codes "add"; path = codes "/spec/dnsConfig"; value = PatchValue.dns_config dns }
    ∷ []

-- The whole patch of one request, with the entries that are appended.
unfoldable pub tunnel_patch :
    ZitiConfig → Bool → PodDnsConfig → StringMap → Text → Text → List JsonPatchEntry
unfolding base_entries
tunnel_patch config verbose dns annotations name token =
    base_entries config verbose dns name token
    ++ (override_entries config.pod_security_override ++ annotation_entry annotations name ∷ [])

module _ {W : Type 0} (zh : ZitiHandler W) where
  unfoldable pub handle_tunnel_create :
      ObjectMeta → Text → AdmissionResponse → Action W AdmissionResponse
  handle_tunnel_create meta uid response =
      or_return (lift (build_ziti_identity_name zh.config.prefix meta uid))
        (failure_response response)
        λ name.
          or_return (zh.zc.create_identity name zh.config.role_key meta) (failure_response response)
            λ id. or_return (zh.zc.get_identity_token name id) (failure_response response) λ token.
              or_return (get_dns_config zh meta) (failure_response response) λ settled. pure (
                success_response (
                  with_patch
                    (tunnel_patch settled.0 zh.verbose settled.1 meta.annotations name token)
                    response))
