-- ===== src/Operator/Router.antt =====
-- The resource of a router, ziti-agent/operator/api/v1alpha1/zitirouter_types.go, as far as it is
-- read: its specification, and the defaults that stand for what is left out.
pub mod Defaults
pub mod ConfigText
pub mod ConfigLines
pub mod Desired
pub mod Update
pub mod Empty
pub mod Reconcile
pub mod ConfigMaps
pub mod Services
pub mod Relabelled
pub mod SetSettled
pub mod SetClaims
pub mod StatefulSets
pub mod Kept
pub mod Realized
pub mod Wired
pub mod Endpoint
pub mod Reconciled
pub mod Samples
mod Tests
use ziti_k8s_agent.Base.{Bool, List, Option, Text, ℤ}
use ziti_k8s_agent.Kube.{PodDnsConfig}
use ziti_k8s_agent.Operator.Equal.{GoMap}
use ziti_k8s_agent.Operator.Objects.{Object, LabelSelector}
use ziti_k8s_agent.Operator.Pods.{PodContainer, PodSecurity, PodVolume}
use ziti_k8s_agent.Operator.Sets.{UpdateStrategy, ClaimRetention, Ordinals}

-- `RouterCreateModel`, with the maps of its two tags.
pub record RouterCreateModel : Type 0 where
  pub app_data : GoMap
  pub cost : ℤ
  pub disabled : Bool
  pub is_tunneler_enabled : Bool
  pub name : Text
  pub no_traversal : Bool
  pub role_attributes : List Text
  pub tags : GoMap

-- `RouterDeploymentSpec`
pub record RouterDeploymentSpec : Type 0 where
  pub replicas : Option ℤ
  pub selector : Option LabelSelector
  pub labels : GoMap
  pub annotations : GoMap
  pub container : PodContainer
  pub host_network : Bool
  pub dns_config : Option PodDnsConfig
  pub dns_policy : Text
  pub scheduler_name : Text
  pub restart_policy : Text
  pub security_context : Option PodSecurity
  pub termination_grace_period_seconds : Option ℤ
  pub volumes : List PodVolume
  pub update_strategy : UpdateStrategy
  pub min_ready_seconds : ℤ
  pub revision_history_limit : Option ℤ
  pub storage_class_name : Option Text
  pub volume_mode : Option Text
  pub claim_retention : Option ClaimRetention
  pub ordinals : Option Ordinals
  pub log_level : ℤ

-- `ZitiRouterSpec`; of the configuration only `Ctrl.Endpoint` is read.
pub record ZitiRouterSpec : Type 0 where
  pub name : Text
  pub ziti_controller_name : Text
  pub ziti_ctrl_mgmt_api : Text
  pub model : RouterCreateModel
  pub ctrl_endpoint : Text
  pub deployment : RouterDeploymentSpec

-- `ZitiRouter`; of the status only the replicas are set.
abbrev pub ZitiRouter : Type 0
ZitiRouter = Object ZitiRouterSpec ℤ
