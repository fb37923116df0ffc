-- ===== src/Operator/Webhook/Defaults.antt =====
-- `ZitiWebhook.GetDefaults` and the default labels and annotations, in
-- ziti-agent/operator/api/v1alpha1/zitiwebhook_types.go.
use ziti_k8s_agent.Base.{false, none, some, List, [], ◌∷◌, ◌++◌, Text, codes, pos, StringMap}
use ziti_k8s_agent.Operator.Equal.{nil_map, entries}
use ziti_k8s_agent.Operator.Objects.{Requirement, LabelSelector}
use ziti_k8s_agent.Operator.Hooks.{WebhookRule, MutatingWebhook, PolicyRule}
use ziti_k8s_agent.Operator.Webhook.{
  DeploymentEnvVars, WebhookDeploymentSpec, ZitiWebhookSpec, ZitiWebhook,
}

-- `GetDefaultLabels`: of the name in the specification.
unfoldable pub webhook_labels : ZitiWebhook → StringMap
webhook_labels z =
    (codes "app", z.spec.name)
    ∷ (codes "app.kubernetes.io/name", z.spec.name ++ b'-' ∷ z.meta.namespace)
    ∷ (codes "app.kubernetes.io/part-of", z.spec.name ++ codes "-operator")
    ∷ (codes "app.kubernetes.io/managed-by", z.spec.name ++ codes "-controller")
    ∷ (codes "app.kubernetes.io/component", codes "webhook")
    ∷ []

-- `GetDefaultAnnotations`
unfoldable pub webhook_annotations : ZitiWebhook → StringMap
webhook_annotations z =
    (
      codes "cert-manager.io/inject-ca-from",
      z.meta.namespace ++ b'/' ∷ (z.spec.name ++ codes "-admission-cert"),
    )
    ∷ []

abbrev pub requirement : Text → Text → List Text → Requirement
requirement key operator values = record { key = key; operator = operator; values = values }

abbrev pub expressions : List Requirement → LabelSelector
expressions rs = record { match_labels = nil_map; match_expressions = rs }

abbrev pub outside_kube_system : Requirement
outside_kube_system =
    requirement (codes "kubernetes.io/metadata.name") (codes "NotIn") (codes "kube-system" ∷ [])

abbrev pub switch : Text → Requirement
switch key = requirement key (codes "In") (codes "true" ∷ codes "false" ∷ [])

abbrev pub pod_rule : WebhookRule
pod_rule = record {
  operations = codes "CREATE" ∷ codes "UPDATE" ∷ codes "DELETE" ∷ [];
  api_groups = [] ∷ [];
  api_versions = codes "v1" ∷ codes "v1beta1" ∷ [];
  resources = codes "pods" ∷ [];
  scope = some (codes "*");
}

-- The two webhooks have the same settings but for their names, selectors and paths.
abbrev pub pod_webhook : ZitiWebhook → Text → LabelSelector → LabelSelector → Text → MutatingWebhook
pod_webhook z name objects namespaces path = record {
  name = name;
  object_selector = some objects;
  namespace_selector = some namespaces;
  side_effects = some (codes "None");
  failure_policy = some (codes "Fail");
  timeout_seconds = some (pos 30);
  match_policy = some (codes "Equivalent");
  reinvocation_policy = some (codes "Never");
  admission_review_versions = codes "v1" ∷ [];
  rules = pod_rule ∷ [];
  client_config = record {
    service = some (record {
      name = z.meta.name ++ codes "-service";
      namespace = z.meta.namespace;
      path = some path;
      port = some (pos 9443);
    });
    ca_bundle = [];
  };
}

abbrev pub default_webhooks : ZitiWebhook → List MutatingWebhook
default_webhooks z =
    pod_webhook z (codes "tunnel.ziti.webhook") (expressions [])
      (expressions (outside_kube_system ∷ switch (codes "tunnel.openziti.io/enabled") ∷ []))
      (codes "/ziti-tunnel")
    ∷ pod_webhook z (codes "router.ziti.webhook")
        (expressions (switch (codes "router.openziti.io/enabled") ∷ []))
        (expressions (outside_kube_system ∷ [])) (codes "/ziti-router")
    ∷ []

abbrev pub default_env : DeploymentEnvVars
default_env = record {
  sidecar_image = codes "openziti/ziti-tunnel";
  sidecar_image_version = codes "latest";
  sidecar_image_pull_policy = codes "IfNotPresent";
  sidecar_prefix = codes "zt";
  sidecar_identity_dir = codes "/ziti-tunnel";
  ziti_ctrl_mgmt_api = [];
  ziti_ctrl_client_cert_file = [];
  ziti_ctrl_client_key_file = [];
  ziti_ctrl_ca_bundle_file = [];
  pod_security_override = false;
  cluster_dns_service_ip = [];
  search_domain_list = [];
  ziti_role_key = codes "identity.openziti.io/role-attributes";
}

abbrev pub default_webhook_deployment : WebhookDeploymentSpec
default_webhook_deployment = record {
  replicas = pos 2;
  image = codes "netfoundry/ziti-k8s-agent";
  image_version = codes "latest";
  image_pull_policy = codes "IfNotPresent";
  port = pos 9443;
  env = default_env;
  resource_request = entries ((codes "cpu", codes "100m") ∷ (codes "memory", codes "128Mi") ∷ []);
  resource_limit = entries ((codes "cpu", codes "500m") ∷ (codes "memory", codes "512Mi") ∷ []);
  max_unavailable = codes "25%";
  max_surge = codes "25%";
  termination_grace_period_seconds = pos 30;
  progress_deadline_seconds = pos 600;
  revision_history_limit = pos 10;
  log_level = pos 2;
}

abbrev pub default_rules : List PolicyRule
default_rules =
    record {
      api_groups = [] ∷ [];
      resources = codes "services" ∷ codes "namespaces" ∷ [];
      verbs = codes "get" ∷ codes "list" ∷ codes "watch" ∷ [];
    }
    ∷ record {
      api_groups = [] ∷ [];
      resources = codes "persistentvolumeclaims" ∷ [];
      verbs = codes "get" ∷ codes "delete" ∷ [];
    }
    ∷ []

-- `GetDefaults`
unfoldable pub webhook_defaults : ZitiWebhook → ZitiWebhookSpec
webhook_defaults z = record {
  name = z.meta.name;
  ziti_controller_name = z.spec.ziti_controller_name;
  cert = record {
    duration = pos 2160;
    renew_before = pos 360;
    organizations = codes "netfoundry" ∷ [];
  };
  deployment_spec = default_webhook_deployment;
  mutating_webhook_spec = default_webhooks z;
  cluster_role_rules = default_rules;
  service_account = record {
    secrets = [];
    image_pull_secrets = [];
    automount_service_account_token = none;
  };
  revision = codes "1";
}
