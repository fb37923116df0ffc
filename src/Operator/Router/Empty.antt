-- ===== src/Operator/Router/Empty.antt =====
-- The empty objects that `ZitiRouterReconciler.Reconcile` reads into.
use ziti_k8s_agent.Base.{false, none, [], pos, ℤ}
use ziti_k8s_agent.Operator.Equal.{GoMap, nil_map}
use ziti_k8s_agent.Operator.Objects.{Meta, Object, ServiceSpec}
use ziti_k8s_agent.Operator.Pods.{PodContainer}
use ziti_k8s_agent.Operator.Sets.{StatefulSetSpec}
use ziti_k8s_agent.Operator.Router.{ZitiRouter}
use ziti_k8s_agent.Operator.Router.Defaults.{no_model}
use ziti_k8s_agent.Operator.Router.Update.{no_template}

abbrev pub empty_meta : Meta
empty_meta = record {
  name = [];
  namespace = [];
  labels = nil_map;
  annotations = nil_map;
  owners = [];
}

abbrev pub empty_container : PodContainer
empty_container = record {
  name = [];
  image = [];
  image_pull_policy = [];
  command = [];
  args = [];
  ports = [];
  env = [];
  liveness_probe = none;
  readiness_probe = none;
  resources = record { requests = nil_map; limits = nil_map };
  termination_message_path = [];
  termination_message_policy = [];
  volume_mounts = [];
}

abbrev pub empty_router : ZitiRouter
empty_router = record {
  meta = empty_meta;
  spec = record {
    name = [];
    ziti_controller_name = [];
    ziti_ctrl_mgmt_api = [];
    model = no_model;
    ctrl_endpoint = [];
    deployment = record {
      replicas = none;
      selector = none;
      labels = nil_map;
      annotations = nil_map;
      container = empty_container;
      host_network = false;
      dns_config = none;
      dns_policy = [];
      scheduler_name = [];
      restart_policy = [];
      security_context = none;
      termination_grace_period_seconds = none;
      volumes = [];
      update_strategy = record { strategy_type = []; rolling_update = none };
      min_ready_seconds = pos 0;
      revision_history_limit = none;
      storage_class_name = none;
      volume_mode = none;
      claim_retention = none;
      ordinals = none;
      log_level = pos 0;
    };
  };
  status = pos 0;
}

abbrev pub empty_config_map : Object GoMap (Unit {0})
empty_config_map = record { meta = empty_meta; spec = nil_map; status = tt }

abbrev pub empty_service : Object ServiceSpec (Unit {0})
empty_service = record {
  meta = empty_meta;
  spec = record {
    ports = [];
    internal_traffic_policy = none;
    ip_families = [];
    ip_family_policy = none;
    selector = nil_map;
    session_affinity = [];
    service_type = [];
    cluster_ip = [];
    cluster_ips = [];
  };
  status = tt;
}

abbrev pub empty_stateful_set : Object StatefulSetSpec ℤ
empty_stateful_set = record {
  meta = empty_meta;
  spec = record {
    replicas = none;
    selector = none;
    template = no_template;
    volume_claim_templates = [];
    service_name = [];
    pod_management_policy = [];
    update_strategy = record { strategy_type = []; rolling_update = none };
    revision_history_limit = none;
    min_ready_seconds = pos 0;
    claim_retention = none;
    ordinals = none;
  };
  status = pos 0;
}
