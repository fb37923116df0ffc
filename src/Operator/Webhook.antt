-- ===== src/Operator/Webhook.antt =====
-- The resource of a webhook, ziti-agent/operator/api/v1alpha1/zitiwebhook_types.go: its specification
-- and the part of its status that is set.
pub mod Defaults
pub mod Desired
pub mod Deployment
pub mod Update
pub mod Finalize
pub mod Empty
pub mod Reconcile
pub mod Finalized
pub mod Settled
pub mod Deployed
pub mod Wired
pub mod Hooked
pub mod Lasting
pub mod Adopted
pub mod Reconciled
pub mod Samples
mod Tests
use ziti_k8s_agent.Base.{Bool, List, Option, Text, ℤ}
use ziti_k8s_agent.Operator.Equal.{GoMap}
use ziti_k8s_agent.Operator.Objects.{Meta}
use ziti_k8s_agent.Operator.Hooks.{MutatingWebhook, PolicyRule, ObjectReference}

-- `CertificateSpecs`, with durations in hours.
pub record CertificateSpecs : Type 0 where
  pub duration : ℤ
  pub renew_before : ℤ
  pub organizations : List Text

-- `DeploymentEnvVars`
pub record DeploymentEnvVars : Type 0 where
  pub sidecar_image : Text
  pub sidecar_image_version : Text
  pub sidecar_image_pull_policy : Text
  pub sidecar_prefix : Text
  pub sidecar_identity_dir : Text
  pub ziti_ctrl_mgmt_api : Text
  pub ziti_ctrl_client_cert_file : Text
  pub ziti_ctrl_client_key_file : Text
  pub ziti_ctrl_ca_bundle_file : Text
  pub pod_security_override : Bool
  pub cluster_dns_service_ip : Text
  pub search_domain_list : Text
  pub ziti_role_key : Text

-- `DeploymentSpec`
pub record WebhookDeploymentSpec : Type 0 where
  pub replicas : ℤ
  pub image : Text
  pub image_version : Text
  pub image_pull_policy : Text
  pub port : ℤ
  pub env : DeploymentEnvVars
  pub resource_request : GoMap
  pub resource_limit : GoMap
  pub max_unavailable : Text
  pub max_surge : Text
  pub termination_grace_period_seconds : ℤ
  pub progress_deadline_seconds : ℤ
  pub revision_history_limit : ℤ
  pub log_level : ℤ

-- `ServiceAccountSpec`
pub record ServiceAccountSpec : Type 0 where
  pub secrets : List ObjectReference
  pub image_pull_secrets : List ObjectReference
  pub automount_service_account_token : Option Bool

-- `ZitiWebhookSpec`, with the rules of `ClusterRoleSpec`.
pub record ZitiWebhookSpec : Type 0 where
  pub name : Text
  pub ziti_controller_name : Text
  pub cert : CertificateSpecs
  pub deployment_spec : WebhookDeploymentSpec
  pub mutating_webhook_spec : List MutatingWebhook
  pub cluster_role_rules : List PolicyRule
  pub service_account : ServiceAccountSpec
  pub revision : Text

-- `appsv1.DeploymentCondition`
pub record DeploymentCondition : Type 0 where
  pub condition_type : Text
  pub status : Text
  pub last_transition_time : ℤ
  pub last_update_time : ℤ
  pub reason : Text
  pub message : Text

-- `certmanagerv1.IssuerCondition` and `certmanagerv1.CertificateCondition`, which have one form.
pub record CertCondition : Type 0 where
  pub condition_type : Text
  pub status : Text
  pub last_transition_time : Option ℤ
  pub reason : Text
  pub message : Text
  pub observed_generation : ℤ

-- `ZitiWebhookStatus`, as far as it is set.
pub record ZitiWebhookStatus : Type 0 where
  pub replicas : ℤ
  pub deployment_conditions : List DeploymentCondition
  pub issuer_conditions : List CertCondition
  pub certificate_conditions : List CertCondition

-- `ZitiWebhook`, with its finalizers and whether its deletion was asked for.
pub record ZitiWebhook : Type 0 where
  pub meta : Meta
  pub deleting : Bool
  pub finalizers : List Text
  pub spec : ZitiWebhookSpec
  pub status : ZitiWebhookStatus
