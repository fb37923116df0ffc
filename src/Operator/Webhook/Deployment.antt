-- ===== src/Operator/Webhook/Deployment.antt =====
-- `getDesiredStateDeploymentConfiguration` of
-- ziti-agent/operator/internal/controller/zitiwebhook_controller.go: the deployment of the agent.
use ziti_k8s_agent.Base.{
  Bool, true, false, Option, none, some, List, [], ◌∷◌, ◌++◌, Text, codes, ℤ, pos, format_int,
}
use ziti_k8s_agent.Operator.Equal.{GoMap, nil_map, entries, entry_of}
use ziti_k8s_agent.Operator.Objects.{Object}
use ziti_k8s_agent.Operator.Pods.{EnvEntry, PodContainer, PodSpec}
use ziti_k8s_agent.Operator.Sets.{DeploymentSpec}
use ziti_k8s_agent.Operator.Merge.{filter_labels}
use ziti_k8s_agent.Operator.Router.Defaults.{plain_env}
use ziti_k8s_agent.Operator.Webhook.{ZitiWebhook, DeploymentEnvVars, DeploymentCondition}
use ziti_k8s_agent.Operator.Webhook.Defaults.{webhook_labels}
use ziti_k8s_agent.Operator.Webhook.Desired.{owned_meta}

abbrev pub secret_env : Text → Text → Text → EnvEntry
secret_env name secret key = record {
  name = name;
  value = [];
  secret_name = secret;
  secret_key = key;
}

-- `fmt.Sprintf("%t", b)`
abbrev pub format_bool : Bool → Text
format_bool true = codes "true"
format_bool false = codes "false"

-- `list["cpu"]`, the zero quantity where the key is missing.
abbrev pub quantity_or_zero : Option Text → Text
quantity_or_zero none = codes "0"
quantity_or_zero (some q) = q

abbrev pub cpu_and_memory : GoMap → GoMap
cpu_and_memory m = entries (
    (codes "cpu", quantity_or_zero (entry_of m (codes "cpu")))
    ∷ (codes "memory", quantity_or_zero (entry_of m (codes "memory")))
    ∷ [])

abbrev pub settings_env : DeploymentEnvVars → List EnvEntry
settings_env e =
    plain_env (codes "SIDECAR_IMAGE") e.sidecar_image
    ∷ plain_env (codes "SIDECAR_IMAGE_VERSION") e.sidecar_image_version
    ∷ plain_env (codes "SIDECAR_IMAGE_PULL_POLICY") e.sidecar_image_pull_policy
    ∷ plain_env (codes "SIDECAR_PREFIX") e.sidecar_prefix
    ∷ plain_env (codes "SIDECAR_IDENTITY_DIR") e.sidecar_identity_dir
    ∷ plain_env (codes "ZITI_MGMT_API") e.ziti_ctrl_mgmt_api
    ∷ plain_env (codes "POD_SECURITY_CONTEXT_OVERRIDE") (format_bool e.pod_security_override)
    ∷ plain_env (codes "CLUSTER_DNS_SERVICE_IP") e.cluster_dns_service_ip
    ∷ plain_env (codes "SEARCH_DOMAIN_LIST") e.search_domain_list
    ∷ plain_env (codes "ZITI_ROLE_KEY") e.ziti_role_key
    ∷ []

-- The environment: the server's certificate, the administrator's identity, and the settings.
unfoldable pub agent_env : ZitiWebhook → List EnvEntry
agent_env z =
    secret_env (codes "TLS_CERT") (z.spec.name ++ codes "-server-cert") (codes "tls.crt")
    ∷ secret_env (codes "TLS_PRIVATE_KEY") (z.spec.name ++ codes "-server-cert") (codes "tls.key")
    ∷ secret_env (codes "ZITI_ADMIN_CERT") (z.spec.ziti_controller_name ++ codes "-secret")
        (codes "tls.crt")
    ∷ secret_env (codes "ZITI_ADMIN_KEY") (z.spec.ziti_controller_name ++ codes "-secret")
        (codes "tls.key")
    ∷ secret_env (codes "ZITI_CTRL_CA_BUNDLE") (z.spec.ziti_controller_name ++ codes "-secret")
        (codes "tls.ca")
    ∷ settings_env z.spec.deployment_spec.env

unfoldable pub agent_args : ZitiWebhook → List Text
unfolding format_int
agent_args z = codes "webhook" ∷ (codes "--v=" ++ format_int z.spec.deployment_spec.log_level) ∷ []

unfoldable pub agent_container : ZitiWebhook → PodContainer
unfolding agent_env agent_args
agent_container z = record {
  name = z.spec.name;
  image = z.spec.deployment_spec.image ++ b':' ∷ z.spec.deployment_spec.image_version;
  image_pull_policy = z.spec.deployment_spec.image_pull_policy;
  command = [];
  args = agent_args z;
  ports =
      record { name = []; container_port = z.spec.deployment_spec.port; protocol = codes "TCP" }
      ∷ [];
  env = agent_env z;
  liveness_probe = none;
  readiness_probe = none;
  resources = record {
    requests = cpu_and_memory z.spec.deployment_spec.resource_request;
    limits = cpu_and_memory z.spec.deployment_spec.resource_limit;
  };
  termination_message_path = codes "/dev/termination-log";
  termination_message_policy = codes "File";
  volume_mounts = [];
}

unfoldable pub agent_pod : ZitiWebhook → PodSpec
unfolding agent_container
agent_pod z = record {
  containers = agent_container z ∷ [];
  host_network = false;
  dns_config = none;
  dns_policy = codes "ClusterFirst";
  scheduler_name = codes "default-scheduler";
  restart_policy = codes "Always";
  security_context = some (record { fs_group = none });
  termination_grace_period_seconds = some z.spec.deployment_spec.termination_grace_period_seconds;
  volumes = [];
  service_account_name = z.spec.name ++ codes "-service-account";
  deprecated_service_account = z.spec.name ++ codes "-service-account";
}

-- What is read of the status of a deployment.
pub record DeploymentStatus : Type 0 where
  pub ready_replicas : ℤ
  pub conditions : List DeploymentCondition

unfoldable pub deployment_of : ZitiWebhook → DeploymentSpec
unfolding agent_pod webhook_labels filter_labels
deployment_of z = record {
  replicas = some z.spec.deployment_spec.replicas;
  selector = some (record {
    match_labels = entries (filter_labels (webhook_labels z));
    match_expressions = [];
  });
  template = record {
    labels = entries (webhook_labels z);
    annotations = nil_map;
    pod = agent_pod z;
  };
  strategy = record {
    strategy_type = codes "RollingUpdate";
    max_unavailable = some z.spec.deployment_spec.max_unavailable;
    max_surge = some z.spec.deployment_spec.max_surge;
  };
  progress_deadline_seconds = some z.spec.deployment_spec.progress_deadline_seconds;
  revision_history_limit = some z.spec.deployment_spec.revision_history_limit;
}

-- `getDesiredStateDeploymentConfiguration`
unfoldable pub desired_deployment : ZitiWebhook → Object DeploymentSpec DeploymentStatus
unfolding deployment_of
desired_deployment z = record {
  meta = owned_meta z (codes "-deployment");
  spec = deployment_of z;
  status = record { ready_replicas = pos 0; conditions = [] };
}
