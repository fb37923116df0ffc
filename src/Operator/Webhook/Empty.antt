-- ===== src/Operator/Webhook/Empty.antt =====
-- The empty objects that `ZitiWebhookReconciler.Reconcile` reads into.
use ziti_k8s_agent.Base.{false, none, List, [], pos}
use ziti_k8s_agent.Operator.Equal.{nil_map}
use ziti_k8s_agent.Operator.Objects.{Object}
use ziti_k8s_agent.Operator.Sets.{DeploymentSpec}
use ziti_k8s_agent.Operator.Hooks.{IssuerSpec, CertificateSpec}
use ziti_k8s_agent.Operator.Router.Update.{no_template}
use ziti_k8s_agent.Operator.Router.Empty.{empty_meta}
use ziti_k8s_agent.Operator.Webhook.{ZitiWebhook, ServiceAccountSpec, CertCondition}
use ziti_k8s_agent.Operator.Webhook.Deployment.{DeploymentStatus}

abbrev pub no_account : ServiceAccountSpec
no_account = record {
  secrets = [];
  image_pull_secrets = [];
  automount_service_account_token = none;
}

abbrev pub empty_webhook : ZitiWebhook
empty_webhook = record {
  meta = empty_meta;
  deleting = false;
  finalizers = [];
  spec = record {
    name = [];
    ziti_controller_name = [];
    cert = record { duration = pos 0; renew_before = pos 0; organizations = [] };
    deployment_spec = record {
      replicas = pos 0;
      image = [];
      image_version = [];
      image_pull_policy = [];
      port = pos 0;
      env = record {
        sidecar_image = [];
        sidecar_image_version = [];
        sidecar_image_pull_policy = [];
        sidecar_prefix = [];
        sidecar_identity_dir = [];
        ziti_ctrl_mgmt_api = [];
        ziti_ctrl_client_cert_file = [];
        ziti_ctrl_client_key_file = [];
        ziti_ctrl_ca_bundle_file = [];
        pod_security_override = false;
        cluster_dns_service_ip = [];
        search_domain_list = [];
        ziti_role_key = [];
      };
      resource_request = nil_map;
      resource_limit = nil_map;
      max_unavailable = [];
      max_surge = [];
      termination_grace_period_seconds = pos 0;
      progress_deadline_seconds = pos 0;
      revision_history_limit = pos 0;
      log_level = pos 0;
    };
    mutating_webhook_spec = [];
    cluster_role_rules = [];
    service_account = no_account;
    revision = [];
  };
  status = record {
    replicas = pos 0;
    deployment_conditions = [];
    issuer_conditions = [];
    certificate_conditions = [];
  };
}

abbrev pub empty_issuer : Object IssuerSpec (List CertCondition)
empty_issuer = record { meta = empty_meta; spec = record { self_signed = false }; status = [] }

abbrev pub empty_certificate : Object CertificateSpec (List CertCondition)
empty_certificate = record {
  meta = empty_meta;
  spec = record {
    common_name = [];
    dns_names = [];
    duration = none;
    issuer_name = [];
    issuer_kind = [];
    private_key = none;
    renew_before = none;
    secret_name = [];
    organizations = none;
    usages = [];
  };
  status = [];
}

abbrev pub empty_account : Object ServiceAccountSpec (Unit {0})
empty_account = record { meta = empty_meta; spec = no_account; status = tt }

abbrev pub empty_deployment : Object DeploymentSpec DeploymentStatus
empty_deployment = record {
  meta = empty_meta;
  spec = record {
    replicas = none;
    selector = none;
    template = no_template;
    strategy = record { strategy_type = []; max_unavailable = none; max_surge = none };
    progress_deadline_seconds = none;
    revision_history_limit = none;
  };
  status = record { ready_replicas = pos 0; conditions = [] };
}
