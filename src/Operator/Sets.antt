-- ===== src/Operator/Sets.antt =====
-- Stateful sets and deployments as the operator writes and compares them.
use ziti_k8s_agent.Base.{List, Option, Text, ℤ}
use ziti_k8s_agent.Operator.Equal.{
  DeepEqual, GoMap, on_field, no_field, text_equal, bool_equal, int_equal, map_equal, pointer_equal,
  slice_equal,
}
use ziti_k8s_agent.Operator.Objects.{LabelSelector, selector_equal}
use ziti_k8s_agent.Operator.Pods.{PodTemplate, template_equal}

-- `appsv1.RollingUpdateStatefulSetStrategy`
pub record RollingUpdate : Type 0 where
  pub partition : Option ℤ

instance abbrev pub rolling_equal : DeepEqual (RollingUpdate)
rolling_equal = on_field (λ (x : RollingUpdate). x.partition) (no_field)

-- `appsv1.StatefulSetUpdateStrategy`
pub record UpdateStrategy : Type 0 where
  pub strategy_type : Text
  pub rolling_update : Option RollingUpdate

instance abbrev pub update_equal : DeepEqual (UpdateStrategy)
update_equal =
    on_field (λ (x : UpdateStrategy). x.strategy_type)
      (on_field (λ (x : UpdateStrategy). x.rolling_update) (no_field))

-- `corev1.PersistentVolumeClaim`, with the phase for its status.
pub record ClaimTemplate : Type 0 where
  pub name : Text
  pub namespace : Text
  pub labels : GoMap
  pub access_modes : List Text
  pub requests : GoMap
  pub storage_class_name : Option Text
  pub volume_mode : Option Text
  pub status : Text

instance abbrev pub claim_equal : DeepEqual (ClaimTemplate)
claim_equal =
    on_field (λ (x : ClaimTemplate). x.name)
      (on_field (λ (x : ClaimTemplate). x.namespace)
        (on_field (λ (x : ClaimTemplate). x.labels)
          (on_field (λ (x : ClaimTemplate). x.access_modes)
            (on_field (λ (x : ClaimTemplate). x.requests)
              (on_field (λ (x : ClaimTemplate). x.storage_class_name)
                (on_field (λ (x : ClaimTemplate). x.volume_mode)
                  (on_field (λ (x : ClaimTemplate). x.status) (no_field))))))))

-- `appsv1.StatefulSetPersistentVolumeClaimRetentionPolicy`
pub record ClaimRetention : Type 0 where
  pub when_deleted : Text
  pub when_scaled : Text

instance abbrev pub retention_equal : DeepEqual (ClaimRetention)
retention_equal =
    on_field (λ (x : ClaimRetention). x.when_deleted)
      (on_field (λ (x : ClaimRetention). x.when_scaled) (no_field))

-- `appsv1.StatefulSetOrdinals`
pub record Ordinals : Type 0 where
  pub start : ℤ

instance abbrev pub ordinals_equal : DeepEqual (Ordinals)
ordinals_equal = on_field (λ (x : Ordinals). x.start) (no_field)

-- `appsv1.StatefulSetSpec`
pub record StatefulSetSpec : Type 0 where
  pub replicas : Option ℤ
  pub selector : Option LabelSelector
  pub template : PodTemplate
  pub volume_claim_templates : List ClaimTemplate
  pub service_name : Text
  pub pod_management_policy : Text
  pub update_strategy : UpdateStrategy
  pub revision_history_limit : Option ℤ
  pub min_ready_seconds : ℤ
  pub claim_retention : Option ClaimRetention
  pub ordinals : Option Ordinals

instance abbrev pub stateful_set_equal : DeepEqual (StatefulSetSpec)
stateful_set_equal =
    on_field (λ (x : StatefulSetSpec). x.replicas)
      (on_field (λ (x : StatefulSetSpec). x.selector)
        (on_field (λ (x : StatefulSetSpec). x.template)
          (on_field (λ (x : StatefulSetSpec). x.volume_claim_templates)
            (on_field (λ (x : StatefulSetSpec). x.service_name)
              (on_field (λ (x : StatefulSetSpec). x.pod_management_policy)
                (on_field (λ (x : StatefulSetSpec). x.update_strategy)
                  (on_field (λ (x : StatefulSetSpec). x.revision_history_limit)
                    (on_field (λ (x : StatefulSetSpec). x.min_ready_seconds)
                      (on_field (λ (x : StatefulSetSpec). x.claim_retention)
                        (on_field (λ (x : StatefulSetSpec). x.ordinals) (no_field)))))))))))

-- `appsv1.DeploymentStrategy`, with percentages for its bounds.
pub record DeploymentStrategy : Type 0 where
  pub strategy_type : Text
  pub max_unavailable : Option Text
  pub max_surge : Option Text

instance abbrev pub strategy_equal : DeepEqual (DeploymentStrategy)
strategy_equal =
    on_field (λ (x : DeploymentStrategy). x.strategy_type)
      (on_field (λ (x : DeploymentStrategy). x.max_unavailable)
        (on_field (λ (x : DeploymentStrategy). x.max_surge) (no_field)))

-- `appsv1.DeploymentSpec`
pub record DeploymentSpec : Type 0 where
  pub replicas : Option ℤ
  pub selector : Option LabelSelector
  pub template : PodTemplate
  pub strategy : DeploymentStrategy
  pub progress_deadline_seconds : Option ℤ
  pub revision_history_limit : Option ℤ

instance abbrev pub deployment_equal : DeepEqual (DeploymentSpec)
deployment_equal =
    on_field (λ (x : DeploymentSpec). x.replicas)
      (on_field (λ (x : DeploymentSpec). x.selector)
        (on_field (λ (x : DeploymentSpec). x.template)
          (on_field (λ (x : DeploymentSpec). x.strategy)
            (on_field (λ (x : DeploymentSpec). x.progress_deadline_seconds)
              (on_field (λ (x : DeploymentSpec). x.revision_history_limit) (no_field))))))
