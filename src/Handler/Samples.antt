-- ===== src/Handler/Samples.antt =====
-- A cluster that answers without a change, and the configuration of a tunnel webhook.
use ziti_k8s_agent.Base.{refl, true, false, none, List, [], Text, codes, ok}
use ziti_k8s_agent.Cluster.{KubeApi}
use ziti_k8s_agent.Handler.{ZitiConfig, ziti_type_tunnel}
use ziti_k8s_agent.Handler.Enrolled.{KeepsIdentities}
use ziti_k8s_agent.Naming.Samples.{sample_prefix, sample_roles}
use ziti_k8s_agent.Edge.Memory.{Memory}

-- The namespaces with the switch-off label are parameters.
abbrev pub sample_cluster : List Text → KubeApi Memory
sample_cluster off = record {
  list_namespaces = λ selector m. (ok off, m);
  get_service = λ namespace name m. (ok (record { cluster_ip = codes "10.0.0.10" }), m);
  get_claim = λ namespace name m. (ok none, m);
  delete_claim = λ namespace name m. (ok tt, m);
}

abbrev pub sample_config : ZitiConfig
sample_config = record {
  image = codes "openziti/ziti-tunnel";
  image_version = codes "1.6";
  image_pull_policy = codes "IfNotPresent";
  volume_mount_name = codes "ziti-identity";
  identity_dir = codes "/ziti-tunnel";
  prefix = sample_prefix;
  role_key = sample_roles;
  label_key = codes "tunnel.openziti.io/enabled";
  label_del_value = codes "false";
  label_cr_value = codes "true";
  resolver_ip = [];
  dns_upstream_enabled = true;
  unanswerable = codes "refused";
  search_domains = [];
  additional_args = [];
  pod_security_override = true;
  ziti_type = ziti_type_tunnel;
  annotation_key = [];
  router_config = record {
    cost = 0;
    disabled = false;
    is_tunneler_enabled = false;
    role_attributes = [];
  };
}

abbrev pub sample_zone : Text
sample_zone = codes "cluster.local"

pub sample_cluster-KeepsIdentities :
    (off : List Text) → KeepsIdentities (sample_cluster off) (λ m. m.identities)
sample_cluster-KeepsIdentities off = record {
  service_keeps = λ namespace name m. refl;
  namespaces_keep = λ selector m. refl;
}
