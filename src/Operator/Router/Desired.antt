-- ===== src/Operator/Router/Desired.antt =====
-- The objects that a router shall have: `GetDefaultConfigMapData` of zitirouter_types.go and the
-- three `getDesiredState` methods of zitirouter_controller.go.
use ziti_k8s_agent.Base.{some, List, [], ◌∷◌, ◌++◌, Text, codes, ℤ, pos, Result, ok, err, panic}
use ziti_k8s_agent.Operator.Equal.{GoMap, nil_map, entries}
use ziti_k8s_agent.Operator.Objects.{Meta, Object, ServicePort, ServiceSpec}
use ziti_k8s_agent.Operator.Pods.{ContainerPort, PodSpec}
use ziti_k8s_agent.Operator.Sets.{ClaimTemplate, StatefulSetSpec}
use ziti_k8s_agent.Operator.Merge.{filter_labels}
use ziti_k8s_agent.Operator.Router.{ZitiRouter, RouterDeploymentSpec}
use ziti_k8s_agent.Operator.Router.ConfigText.{config_text}
use ziti_k8s_agent.Operator.Router.Defaults.{default_labels, config_map_key, service_port}

-- `Container.Ports[0]`
abbrev pub first_port : List ContainerPort → Result ContainerPort
first_port [] = panic
first_port (p ∷ _) = ok p

abbrev pub with_port : {A : Type 0} → Result ContainerPort → (ContainerPort → A) → Result A
with_port (ok p) f = ok (f p)
with_port (err e) f = err e
with_port panic f = panic

abbrev pub config_data : ZitiRouter → ContainerPort → GoMap
config_data r p = entries ((config_map_key, config_text r p.container_port) ∷ [])

-- `GetDefaultConfigMapData`
unfoldable pub config_map_data : ZitiRouter → Result GoMap
unfolding config_text
config_map_data r = with_port (first_port r.spec.deployment.container.ports) (config_data r)

abbrev pub new_meta : Text → Text → GoMap → Meta
new_meta name namespace labels = record {
  name = name;
  namespace = namespace;
  labels = labels;
  annotations = nil_map;
  owners = [];
}

abbrev pub config_map_of : ZitiRouter → GoMap → Object GoMap (Unit {0})
config_map_of r config = record {
  meta = new_meta (r.spec.name ++ codes "-config") r.meta.namespace (entries (default_labels r));
  spec = config;
  status = tt;
}

abbrev pub map_result : {A B : Type 0} → (A → B) → Result A → Result B
map_result f (ok a) = ok (f a)
map_result f (err e) = err e
map_result f panic = panic

-- `getDesiredStateConfigMap`
unfoldable pub desired_config_map : ZitiRouter → Result (Object GoMap (Unit {0}))
unfolding config_map_data default_labels
desired_config_map r = map_result (config_map_of r) (config_map_data r)

-- The specification that the services of routers and webhooks share.
abbrev pub cluster_service : ServicePort → GoMap → ServiceSpec
cluster_service p selector = record {
  ports = p ∷ [];
  internal_traffic_policy = some (codes "Cluster");
  ip_families = codes "IPv4" ∷ [];
  ip_family_policy = some (codes "SingleStack");
  selector = selector;
  session_affinity = codes "None";
  service_type = codes "ClusterIP";
  cluster_ip = [];
  cluster_ips = [];
}

abbrev pub edge_port : ContainerPort → ServicePort
edge_port p = record {
  name = p.name;
  protocol = p.protocol;
  port = service_port;
  target_port = p.container_port;
}

abbrev pub service_of : ZitiRouter → ContainerPort → Object ServiceSpec (Unit {0})
service_of r p = record {
  meta = new_meta (r.spec.name ++ codes "-service") r.meta.namespace (entries (default_labels r));
  spec = cluster_service (edge_port p) (entries (filter_labels (default_labels r)));
  status = tt;
}

-- `getDesiredStateService`
unfoldable pub desired_service : ZitiRouter → Result (Object ServiceSpec (Unit {0}))
unfolding default_labels filter_labels
desired_service r = with_port (first_port r.spec.deployment.container.ports) (service_of r)

unfoldable pub router_pod : RouterDeploymentSpec → PodSpec
router_pod d = record {
  containers = d.container ∷ [];
  host_network = d.host_network;
  dns_config = d.dns_config;
  dns_policy = d.dns_policy;
  scheduler_name = d.scheduler_name;
  restart_policy = d.restart_policy;
  security_context = d.security_context;
  termination_grace_period_seconds = d.termination_grace_period_seconds;
  volumes = d.volumes;
  service_account_name = [];
  deprecated_service_account = [];
}

unfoldable pub router_claim : ZitiRouter → ClaimTemplate
router_claim r = record {
  name = r.spec.name;
  namespace = r.meta.namespace;
  labels = r.spec.deployment.labels;
  access_modes = codes "ReadWriteOnce" ∷ [];
  requests = entries ((codes "storage", codes "50Mi") ∷ []);
  storage_class_name = r.spec.deployment.storage_class_name;
  volume_mode = r.spec.deployment.volume_mode;
  status = [];
}

unfoldable pub stateful_set_spec : ZitiRouter → StatefulSetSpec
unfolding router_pod router_claim
stateful_set_spec r = record {
  replicas = r.spec.deployment.replicas;
  selector = r.spec.deployment.selector;
  template = record {
    labels = r.spec.deployment.labels;
    annotations = r.spec.deployment.annotations;
    pod = router_pod r.spec.deployment;
  };
  volume_claim_templates = router_claim r ∷ [];
  service_name = r.spec.name ++ codes "-service";
  pod_management_policy = codes "Parallel";
  update_strategy = r.spec.deployment.update_strategy;
  revision_history_limit = r.spec.deployment.revision_history_limit;
  min_ready_seconds = r.spec.deployment.min_ready_seconds;
  claim_retention = r.spec.deployment.claim_retention;
  ordinals = r.spec.deployment.ordinals;
}

-- `getDesiredStateStatefulSetConfiguration`; the status is the number of ready replicas.
unfoldable pub desired_stateful_set : ZitiRouter → Object StatefulSetSpec ℤ
unfolding stateful_set_spec
desired_stateful_set r = record {
  meta = new_meta (r.spec.name ++ codes "-statefulset") r.meta.namespace r.spec.deployment.labels;
  spec = stateful_set_spec r;
  status = pos 0;
}
