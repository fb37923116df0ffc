-- ===== src/Operator/Router/Defaults.antt =====
-- `ZitiRouter.GetDefaults` and the defaults that it is made of, in
-- ziti-agent/operator/api/v1alpha1/zitirouter_types.go.
use ziti_k8s_agent.Base.{false, none, some, List, [], ◌∷◌, ◌++◌, Text, codes, ℤ, pos}
use ziti_k8s_agent.Operator.Equal.{nil_map, entries}
use ziti_k8s_agent.Operator.Objects.{LabelSelector}
use ziti_k8s_agent.Operator.Pods.{EnvEntry, Probe, PodContainer, PodVolume, PodSecurity}
use ziti_k8s_agent.Operator.Sets.{UpdateStrategy, ClaimRetention, Ordinals}
use ziti_k8s_agent.Operator.Merge.{filter_labels}
use ziti_k8s_agent.Operator.Router.{
  RouterCreateModel, RouterDeploymentSpec, ZitiRouterSpec, ZitiRouter,
}
use ziti_k8s_agent.Base.{StringMap}

-- `GetDefaultLabels`
unfoldable pub default_labels : ZitiRouter → StringMap
default_labels r =
    (codes "app", r.meta.name)
    ∷ (codes "app.kubernetes.io/name", r.meta.name ++ b'-' ∷ r.meta.namespace)
    ∷ (codes "app.kubernetes.io/part-of", r.meta.name ++ codes "-operator")
    ∷ (codes "app.kubernetes.io/managed-by", r.meta.name ++ codes "-controller")
    ∷ (codes "app.kubernetes.io/component", codes "router")
    ∷ (codes "router.openziti.io/enabled", codes "true")
    ∷ []

-- `GetDefaultAnnotations`
abbrev pub default_annotations : StringMap
default_annotations = []

-- `GetDefaultSelector`
unfoldable pub default_selector : ZitiRouter → LabelSelector
unfolding default_labels filter_labels
default_selector r = record {
  match_labels = entries (filter_labels (default_labels r));
  match_expressions = [];
}

abbrev pub config_map_key : Text
config_map_key = codes "ziti-router.yaml"

abbrev pub service_port : ℤ
service_port = pos 443

abbrev pub cluster_domain : Text
cluster_domain = codes "cluster.local"

abbrev pub plain_env : Text → Text → EnvEntry
plain_env name value = record { name = name; value = value; secret_name = []; secret_key = [] }

abbrev pub stats_probe : Probe
stats_probe = record {
  initial_delay_seconds = pos 10;
  timeout_seconds = pos 1;
  period_seconds = pos 10;
  success_threshold = pos 1;
  failure_threshold = pos 3;
  command = codes "/bin/sh" ∷ codes "-c" ∷ codes "ziti agent stats" ∷ [];
}

abbrev pub router_env : Text → List EnvEntry
router_env name =
    plain_env (codes "ZITI_ENROLL_TOKEN") []
    ∷ plain_env (codes "ZITI_BOOTSTRAP") (codes "true")
    ∷ plain_env (codes "ZITI_BOOTSTRAP_ENROLLMENT") (codes "true")
    ∷ plain_env (codes "ZITI_BOOTSTRAP_CONFIG") (codes "false")
    ∷ plain_env (codes "ZITI_AUTO_RENEW_CERTS") (codes "true")
    ∷ plain_env (codes "ZITI_HOME") (codes "/etc/ziti/config")
    ∷ plain_env (codes "ZITI_ROUTER_NAME") name
    ∷ plain_env (codes "ZITI_ROUTER_IDENTITY_NAME") []
    ∷ []

-- `GetDefaultContainer`
unfoldable pub default_container : ZitiRouter → PodContainer
default_container r = record {
  name = codes "ziti-router";
  image = codes "docker.io/openziti/ziti-router:latest";
  image_pull_policy = codes "Always";
  command = codes "/entrypoint.bash" ∷ [];
  args = codes "run" ∷ codes "/etc/ziti/config/ziti-router.yaml" ∷ [];
  ports = record { name = codes "edge"; container_port = pos 9443; protocol = codes "TCP" } ∷ [];
  env = router_env r.meta.name;
  liveness_probe = some stats_probe;
  readiness_probe = some stats_probe;
  resources = record {
    requests = entries ((codes "cpu", codes "200m") ∷ (codes "memory", codes "256Mi") ∷ []);
    limits = entries ((codes "cpu", codes "400m") ∷ (codes "memory", codes "512Mi") ∷ []);
  };
  termination_message_path = codes "/dev/termination-log";
  termination_message_policy = codes "File";
  volume_mounts =
      record { name = r.meta.name; mount_path = codes "/etc/ziti/config"; sub_path = [] }
      ∷ record {
        name = codes "ziti-router-config";
        mount_path = codes "/etc/ziti/config/" ++ config_map_key;
        sub_path = config_map_key;
      }
      ∷ [];
}

-- `GetDefaultSecurityContext`
abbrev pub default_security_context : PodSecurity
default_security_context = record { fs_group = some (pos 2171) }

-- `GetDefaultStrategy`
abbrev pub default_strategy : UpdateStrategy
default_strategy = record {
  strategy_type = codes "RollingUpdate";
  rolling_update = some (record { partition = some (pos 0) });
}

-- `GetDefaultPersistentVolumeClaimRetentionPolicy`
abbrev pub default_claim_retention : ClaimRetention
default_claim_retention = record { when_deleted = codes "Delete"; when_scaled = codes "Delete" }

-- `GetDefaultOrdinals`
abbrev pub default_ordinals : Ordinals
default_ordinals = record { start = pos 0 }

abbrev pub default_volumes : Text → List PodVolume
default_volumes name =
    record { name = name; claim = some name; config_map = none }
    ∷ record {
      name = codes "ziti-router-config";
      claim = none;
      config_map = some (record { name = name ++ codes "-config"; default_mode = some (pos 292) });
    }
    ∷ []

abbrev pub no_model : RouterCreateModel
no_model = record {
  app_data = nil_map;
  cost = pos 0;
  disabled = false;
  is_tunneler_enabled = false;
  name = [];
  no_traversal = false;
  role_attributes = [];
  tags = nil_map;
}

unfoldable pub default_deployment : ZitiRouter → RouterDeploymentSpec
unfolding default_selector default_labels default_container
default_deployment r = record {
  replicas = some (pos 2);
  selector = some (default_selector r);
  labels = entries (default_labels r);
  annotations = entries default_annotations;
  container = default_container r;
  host_network = false;
  dns_config = none;
  dns_policy = codes "ClusterFirstWithHostNet";
  scheduler_name = codes "default-scheduler";
  restart_policy = codes "Always";
  security_context = some default_security_context;
  termination_grace_period_seconds = some (pos 30);
  volumes = default_volumes r.meta.name;
  update_strategy = default_strategy;
  min_ready_seconds = pos 10;
  revision_history_limit = some (pos 10);
  storage_class_name = some (codes "standard");
  volume_mode = some (codes "Filesystem");
  claim_retention = some default_claim_retention;
  ordinals = some default_ordinals;
  log_level = pos 2;
}

-- `GetDefaults`
unfoldable pub router_defaults : ZitiRouter → ZitiRouterSpec
unfolding default_deployment
router_defaults r = record {
  name = r.meta.name;
  ziti_controller_name = r.spec.ziti_controller_name;
  ziti_ctrl_mgmt_api = r.spec.ziti_ctrl_mgmt_api;
  model = no_model;
  ctrl_endpoint = [];
  deployment = default_deployment r;
}
