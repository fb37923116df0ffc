-- ===== src/Operator/Router/Update.antt =====
-- How an object of a router that is already there is made to agree with the desired one, in
-- `ZitiRouterReconciler.Reconcile`, with `DeepEqualExcludingFields` of
-- ziti-agent/operator/internal/utils/common.go.
use ziti_k8s_agent.Base.{
  none, Bool, true, false, not, ◌||◌, List, [], ◌∷◌, Text, is_empty, if◌then◌else◌, ℤ, Result, ok,
  err, panic,
}
use ziti_k8s_agent.Operator.Equal.{DeepEqual, GoMap, nil_map, entries, same_map}
use ziti_k8s_agent.Operator.Objects.{Object, ServiceSpec, service_equal}
use ziti_k8s_agent.Operator.Pods.{PodSpec, PodTemplate, pod_equal}
use ziti_k8s_agent.Operator.Sets.{ClaimTemplate, StatefulSetSpec, stateful_set_equal}
use ziti_k8s_agent.Operator.Ensure.{Owning, sync_meta, with_meta, sync_spec}
use ziti_k8s_agent.Operator.Router.{ZitiRouter}
use ziti_k8s_agent.Operator.Router.Defaults.{default_labels}

abbrev pub no_ips : List Text → Bool
no_ips [] = true
no_ips (_ ∷ _) = false

-- The cluster IPs that were assigned are not compared.
unfoldable pub keep_cluster_ips : ServiceSpec → ServiceSpec → ServiceSpec
keep_cluster_ips actual desired =
    if not (is_empty actual.cluster_ip) || no_ips actual.cluster_ips
    then record desired { cluster_ip = actual.cluster_ip; cluster_ips = actual.cluster_ips }
    else desired

-- `reflect.Zero` of a template.
abbrev pub no_template : PodTemplate
no_template = record {
  labels = nil_map;
  annotations = nil_map;
  pod = record {
    containers = [];
    host_network = false;
    dns_config = none;
    dns_policy = [];
    scheduler_name = [];
    restart_policy = [];
    security_context = none;
    termination_grace_period_seconds = none;
    volumes = [];
    service_account_name = [];
    deprecated_service_account = [];
  };
}

abbrev pub clear_template : StatefulSetSpec → StatefulSetSpec
clear_template s = record s { template = no_template }

-- Equality of two structs after the excluded fields of both are cleared.
abbrev pub deep_equal_excluding : {A : Type 0} → DeepEqual A → (A → A) → A → A → Bool
deep_equal_excluding e clear a b = e.same (clear a) (clear b)

-- The first claim's status is taken over, so that it does not differ.
unfoldable pub keep_claim_status :
    List ClaimTemplate → List ClaimTemplate → Result (List ClaimTemplate)
keep_claim_status actual [] = panic
keep_claim_status [] (d ∷ ds) = panic
keep_claim_status (a ∷ as') (d ∷ ds) = ok (record d { status = a.status } ∷ ds)

unfoldable pub copy_excluding_template : StatefulSetSpec → StatefulSetSpec → StatefulSetSpec
copy_excluding_template dest src = record dest {
  replicas = src.replicas;
  selector = src.selector;
  service_name = src.service_name;
  pod_management_policy = src.pod_management_policy;
  update_strategy = src.update_strategy;
  revision_history_limit = src.revision_history_limit;
  min_ready_seconds = src.min_ready_seconds;
  volume_claim_templates = src.volume_claim_templates;
  claim_retention = src.claim_retention;
  ordinals = src.ordinals;
}

abbrev pub set_pod : StatefulSetSpec → PodSpec → StatefulSetSpec
set_pod s pod = record s { template = record s.template { pod = pod } }

abbrev pub sync_rest :
    StatefulSetSpec → Object StatefulSetSpec ℤ × Bool → Object StatefulSetSpec ℤ × Bool
sync_rest desired (a, needs) =
    if deep_equal_excluding stateful_set_equal clear_template a.spec desired
    then (a, needs)
    else (record a { spec = copy_excluding_template a.spec desired }, true)

abbrev pub sync_pod :
    StatefulSetSpec → Object StatefulSetSpec ℤ × Bool → Object StatefulSetSpec ℤ × Bool
sync_pod desired (a, needs) =
    if deep_equal_excluding pod_equal (λ p. p) a.spec.template.pod desired.template.pod
    then (a, needs)
    else (record a { spec = set_pod a.spec desired.template.pod }, true)

abbrev pub sync_claims :
    StatefulSetSpec
    → Result (List ClaimTemplate)
    → Object StatefulSetSpec ℤ × Bool
    → Result (Object StatefulSetSpec ℤ × Bool)
sync_claims desired (ok claims) p =
    let d = record desired { volume_claim_templates = claims } in ok (sync_pod d (sync_rest d p))
sync_claims desired (err e) p = err e
sync_claims desired panic p = panic

abbrev pub sync_set :
    StatefulSetSpec
    → Result (Object StatefulSetSpec ℤ × Bool)
    → Result (Object StatefulSetSpec ℤ × Bool)
sync_set desired (ok p) =
    sync_claims desired
      (keep_claim_status p.0.spec.volume_claim_templates desired.volume_claim_templates) p
sync_set desired (err e) = err e
sync_set desired panic = panic

module _ (o : Owning) (r : ZitiRouter) where
  unfoldable pub update_config_map :
      Object GoMap (Unit {0}) → Object GoMap (Unit {0}) → Result (Object GoMap (Unit {0}) × Bool)
  unfolding sync_meta default_labels
  update_config_map d a =
      sync_spec same_map d.spec
        (with_meta a (sync_meta o d.meta.labels (entries (default_labels r)) a.meta))

  unfoldable pub update_service :
      Object ServiceSpec (Unit {0})
      → Object ServiceSpec (Unit {0})
      → Result (Object ServiceSpec (Unit {0}) × Bool)
  unfolding sync_meta keep_cluster_ips default_labels
  update_service d a =
      sync_spec service_equal.same (keep_cluster_ips a.spec d.spec)
        (with_meta a (sync_meta o d.meta.labels (entries (default_labels r)) a.meta))

  unfoldable pub update_stateful_set :
      Object StatefulSetSpec ℤ → Object StatefulSetSpec ℤ → Result (Object StatefulSetSpec ℤ × Bool)
  unfolding sync_meta keep_claim_status copy_excluding_template default_labels
  update_stateful_set d a =
      sync_set d.spec (with_meta a (sync_meta o d.meta.labels (entries (default_labels r)) a.meta))
