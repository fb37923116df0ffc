-- ===== src/Config/Samples.antt =====
-- A configuration file, and the configuration that is loaded from it.
use ziti_k8s_agent.Base.{true, false, [], ◌∷◌, codes, pos}
use ziti_k8s_agent.Config.{
  WebhookConfig, default_ziti_role_attributes_key, default_image_pull_policy,
}

abbrev pub file_config : WebhookConfig
file_config = record {
  server = record { port = pos 0 };
  controller = record {
    mgmt_api = codes "https://ctrl:1280/edge/management/v1";
    role_key = [];
    mgmt_api_endpoints = [];
  };
  sidecar = record {
    image = codes "openziti/ziti-tunnel";
    image_version = codes "1.6";
    image_pull_policy = [];
    prefix = [];
    identity_dir = [];
    volume_mount_name = [];
    resolver_ip = [];
    dns_upstream_enabled = true;
    dns_unanswerable = [];
    search_domains = [];
    additional_args = [];
  };
  pod_security_context_override = false;
  cluster_dns_zone = [];
}

abbrev pub loaded_config : WebhookConfig
loaded_config = record {
  server = record { port = pos 9443 };
  controller = record {
    mgmt_api = codes "https://ctrl:1280/edge/management/v1";
    role_key = default_ziti_role_attributes_key;
    mgmt_api_endpoints = codes "https://ctrl:1280/edge/management/v1" ∷ [];
  };
  sidecar = record {
    image = codes "openziti/ziti-tunnel";
    image_version = codes "1.6";
    image_pull_policy = default_image_pull_policy;
    prefix = codes "zt";
    identity_dir = codes "/ziti-tunnel";
    volume_mount_name = codes "ziti-identity";
    resolver_ip = [];
    dns_upstream_enabled = true;
    dns_unanswerable = codes "refused";
    search_domains = [];
    additional_args = [];
  };
  pod_security_context_override = false;
  cluster_dns_zone = codes "cluster.local";
}
