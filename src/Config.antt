-- ===== src/Config.antt =====
-- The webhook configuration of ziti-agent/cmd/webhook/config.go: its types, its defaults and its
-- checks, with the default names of ziti-agent/cmd/webhook/root.go.
pub mod Identity
pub mod Endpoints
pub mod Load
pub mod Paths
pub mod Defaults
pub mod Checked
pub mod Inferred
pub mod Samples
mod Tests
use ziti_k8s_agent.Base.{
  ℕ, Bool, true, false, List, [], ◌∷◌, Text, codes, is_empty, if◌then◌else◌, Result, ok, err, ℤ,
  pos, is_zero,
}

pub record ServerConfig : Type 0 where
  pub port : ℤ

pub record ControllerConfig : Type 0 where
  pub mgmt_api : Text
  pub role_key : Text
  pub mgmt_api_endpoints : List Text

pub record SidecarConfig : Type 0 where
  pub image : Text
  pub image_version : Text
  pub image_pull_policy : Text
  pub prefix : Text
  pub identity_dir : Text
  pub volume_mount_name : Text
  pub resolver_ip : Text
  pub dns_upstream_enabled : Bool
  pub dns_unanswerable : Text
  pub search_domains : List Text
  pub additional_args : List Text

pub record WebhookConfig : Type 0 where
  pub server : ServerConfig
  pub controller : ControllerConfig
  pub sidecar : SidecarConfig
  pub pod_security_context_override : Bool
  pub cluster_dns_zone : Text

-- `if v == "" { v = d }`
abbrev pub or_default : Text → Text → Text
or_default value d = if is_empty value then d else value

abbrev pub default_image_pull_policy : Text
default_image_pull_policy = codes "IfNotPresent"

abbrev pub default_ziti_role_attributes_key : Text
default_ziti_role_attributes_key = codes "identity.openziti.io/role-attributes"

abbrev pub default_sidecar : SidecarConfig → SidecarConfig
default_sidecar s = record s {
  image_pull_policy = or_default s.image_pull_policy default_image_pull_policy;
  volume_mount_name = or_default s.volume_mount_name (codes "ziti-identity");
  identity_dir = or_default s.identity_dir (codes "/ziti-tunnel");
  prefix = or_default s.prefix (codes "zt");
  dns_unanswerable = or_default s.dns_unanswerable (codes "refused");
}

unfoldable pub apply_config_defaults : WebhookConfig → WebhookConfig
apply_config_defaults cfg = record cfg {
  server = record { port = if is_zero cfg.server.port then pos 9443 else cfg.server.port };
  controller = record cfg.controller {
    role_key = or_default cfg.controller.role_key default_ziti_role_attributes_key;
  };
  sidecar = default_sidecar cfg.sidecar;
  cluster_dns_zone = or_default cfg.cluster_dns_zone (codes "cluster.local");
}

abbrev pub no_endpoints_error : Text
no_endpoints_error =
    codes
      "no management API endpoints available - must specify one of: 1) controller.mgmtApi in webhook config, 2) ztAPI in identity JSON, or 3) ztAPIs (non-empty) in identity JSON"

abbrev pub has_no_endpoints : List Text → Bool
has_no_endpoints [] = true
has_no_endpoints (_ ∷ _) = false

-- The configuration itself, or the first check that fails.
unfoldable pub validate_config : WebhookConfig → Result WebhookConfig
validate_config cfg =
    if has_no_endpoints cfg.controller.mgmt_api_endpoints
    then err no_endpoints_error
    else if is_empty cfg.sidecar.image
    then err (codes "sidecar.image is required")
    else if is_empty cfg.sidecar.image_version
    then err (codes "sidecar.imageVersion is required")
    else ok cfg
