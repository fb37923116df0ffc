-- ===== src/Operator/Webhook/Update.antt =====
-- How an object of a webhook that is already there is made to agree with the desired one, in
-- `ZitiWebhookReconciler.Reconcile`, and the conversions of conditions of
-- ziti-agent/operator/internal/utils/common.go.
use ziti_k8s_agent.Base.{
  Bool, true, false, not, ◌&&◌, List, [], ◌∷◌, is_empty, if◌then◌else◌, pos, map, Result,
}
use ziti_k8s_agent.Operator.Equal.{
  DeepEqual, GoMap, entries, same_map, on_field, no_field, pointer_equal, slice_equal, bool_equal,
}
use ziti_k8s_agent.Operator.Objects.{Meta, Object, ServiceSpec, service_equal}
use ziti_k8s_agent.Operator.Sets.{DeploymentSpec, deployment_equal}
use ziti_k8s_agent.Operator.Hooks.{
  IssuerSpec, issuer_equal, CertificateSpec, certificate_equal, PolicyRule, policy_equal,
  role_ref_equal, Subject, subject_equal, secret_ref_equal, MutatingWebhook, mutating_equal,
}
use ziti_k8s_agent.Operator.Ensure.{Owning, sync_meta, sync_owner, with_meta, sync_spec}
use ziti_k8s_agent.Operator.Router.Update.{keep_cluster_ips}
use ziti_k8s_agent.Operator.Webhook.{
  ZitiWebhook, ServiceAccountSpec, DeploymentCondition, CertCondition,
}
use ziti_k8s_agent.Operator.Webhook.Defaults.{webhook_labels, webhook_annotations}
use ziti_k8s_agent.Operator.Webhook.Desired.{Binding}
use ziti_k8s_agent.Operator.Webhook.Deployment.{DeploymentStatus}

instance abbrev pub account_equal : DeepEqual ServiceAccountSpec
account_equal =
    on_field (λ (x : ServiceAccountSpec). x.image_pull_secrets)
      (on_field (λ (x : ServiceAccountSpec). x.secrets)
        (on_field (λ (x : ServiceAccountSpec). x.automount_service_account_token) no_field))

-- The labels of a service account are set where they differ, but that alone asks for no patch.
unfoldable pub sync_account_labels : GoMap → GoMap → Meta → Meta
sync_account_labels wanted labels m =
    if same_map m.labels wanted then m else record m { labels = labels }

module _ (o : Owning) (z : ZitiWebhook) where
  unfoldable pub update_issuer :
      Object IssuerSpec (List CertCondition)
      → Object IssuerSpec (List CertCondition)
      → Result (Object IssuerSpec (List CertCondition) × Bool)
  unfolding sync_meta webhook_labels
  update_issuer d a =
      sync_spec issuer_equal.same d.spec
        (with_meta a (sync_meta o d.meta.labels (entries (webhook_labels z)) a.meta))

  unfoldable pub update_certificate :
      Object CertificateSpec (List CertCondition)
      → Object CertificateSpec (List CertCondition)
      → Result (Object CertificateSpec (List CertCondition) × Bool)
  unfolding sync_meta webhook_labels
  update_certificate d a =
      sync_spec certificate_equal.same d.spec
        (with_meta a (sync_meta o d.meta.labels (entries (webhook_labels z)) a.meta))

  unfoldable pub update_webhook_service :
      Object ServiceSpec (Unit {0})
      → Object ServiceSpec (Unit {0})
      → Result (Object ServiceSpec (Unit {0}) × Bool)
  unfolding sync_meta keep_cluster_ips webhook_labels
  update_webhook_service d a =
      sync_spec service_equal.same (keep_cluster_ips a.spec d.spec)
        (with_meta a (sync_meta o d.meta.labels (entries (webhook_labels z)) a.meta))

  unfoldable pub update_service_account :
      Object ServiceAccountSpec (Unit {0})
      → Object ServiceAccountSpec (Unit {0})
      → Result (Object ServiceAccountSpec (Unit {0}) × Bool)
  unfolding sync_account_labels sync_owner webhook_labels
  update_service_account d a = sync_spec account_equal.same d.spec (
      with_meta a (
        sync_owner o
          (sync_account_labels d.meta.labels (entries (webhook_labels z)) a.meta, false)))

  unfoldable pub update_deployment :
      Object DeploymentSpec DeploymentStatus
      → Object DeploymentSpec DeploymentStatus
      → Result (Object DeploymentSpec DeploymentStatus × Bool)
  unfolding sync_meta webhook_labels
  update_deployment d a =
      sync_spec deployment_equal.same d.spec
        (with_meta a (sync_meta o d.meta.labels (entries (webhook_labels z)) a.meta))

-- The checks of objects outside of namespaces, which have no owner.
module _ {S : Type 0} where
  abbrev pub set_unless : Bool → S → S × Bool → S × Bool
  set_unless same new (old, needs) = if same then (old, needs) else (new, true)

abbrev pub RoleObject : Type 0
RoleObject = Object (List PolicyRule) (Unit {0})

abbrev pub BindingObject : Type 0
BindingObject = Object Binding (Unit {0})

abbrev pub WebhooksObject : Type 0
WebhooksObject = Object (List MutatingWebhook) (Unit {0})

abbrev pub relabel : {S : Type 0} → GoMap → Object S (Unit {0}) → Object S (Unit {0})
relabel labels a = record a { meta = record a.meta { labels = labels } }

abbrev pub sync_object_labels :
    {S : Type 0} → GoMap → GoMap → Object S (Unit {0}) × Bool → Object S (Unit {0}) × Bool
sync_object_labels wanted labels (a, needs) =
    set_unless (same_map a.meta.labels wanted) (relabel labels a) (a, needs)

abbrev pub same_rules : List PolicyRule → List PolicyRule → Bool
same_rules = (slice_equal {A = PolicyRule}).same

abbrev pub same_subjects : List Subject → List Subject → Bool
same_subjects = (slice_equal {A = Subject}).same

abbrev pub same_webhooks : List MutatingWebhook → List MutatingWebhook → Bool
same_webhooks = (slice_equal {A = MutatingWebhook}).same

unfoldable pub update_cluster_role : ZitiWebhook → RoleObject → RoleObject → RoleObject × Bool
unfolding webhook_labels
update_cluster_role z d a =
    sync_object_labels d.meta.labels (entries (webhook_labels z))
      (set_unless (same_rules a.spec d.spec) (record a { spec = d.spec }) (a, false))

abbrev pub sync_subjects : BindingObject → BindingObject × Bool → BindingObject × Bool
sync_subjects d (a, needs) =
    set_unless (same_subjects a.spec.subjects d.spec.subjects)
      (record a { spec = record a.spec { subjects = d.spec.subjects } }) (a, needs)

unfoldable pub update_binding : ZitiWebhook → BindingObject → BindingObject → BindingObject × Bool
unfolding webhook_labels
update_binding z d a = sync_object_labels d.meta.labels (entries (webhook_labels z)) (
    sync_subjects d (
      set_unless (role_ref_equal.same a.spec.role_ref d.spec.role_ref)
        (record a { spec = record a.spec { role_ref = d.spec.role_ref } }) (a, false)))

-- A CA bundle that was injected is kept where none is desired.
abbrev pub keep_ca_bundle : MutatingWebhook → MutatingWebhook → MutatingWebhook
keep_ca_bundle existing desired =
    if is_empty desired.client_config.ca_bundle && not (is_empty existing.client_config.ca_bundle)
    then record desired {
      client_config = record desired.client_config { ca_bundle = existing.client_config.ca_bundle };
    }
    else desired

unfoldable pub keep_ca_bundles : List MutatingWebhook → List MutatingWebhook → List MutatingWebhook
keep_ca_bundles existing [] = []
keep_ca_bundles [] (d ∷ ds) = d ∷ ds
keep_ca_bundles (e ∷ es) (d ∷ ds) = keep_ca_bundle e d ∷ keep_ca_bundles es ds

abbrev pub sync_annotations : GoMap → GoMap → WebhooksObject × Bool → WebhooksObject × Bool
sync_annotations wanted annotations (a, needs) =
    set_unless (same_map a.meta.annotations wanted)
      (record a { meta = record a.meta { annotations = annotations } }) (a, needs)

unfoldable pub update_webhooks :
    ZitiWebhook → WebhooksObject → WebhooksObject → WebhooksObject × Bool
unfolding webhook_labels webhook_annotations keep_ca_bundles
update_webhooks z d a =
    let webhooks = keep_ca_bundles a.spec d.spec in
    sync_annotations d.meta.annotations (entries (webhook_annotations z)) (
      sync_object_labels d.meta.labels (entries (webhook_labels z))
        (set_unless (same_webhooks a.spec webhooks) (record a { spec = webhooks }) (a, false)))

-- `ConvertDeploymentConditions`
abbrev pub convert_deployment_condition : DeploymentCondition → DeploymentCondition
convert_deployment_condition c = record {
  condition_type = c.condition_type;
  status = c.status;
  last_transition_time = c.last_transition_time;
  last_update_time = c.last_update_time;
  reason = c.reason;
  message = c.message;
}

unfoldable pub convert_deployment_conditions : List DeploymentCondition → List DeploymentCondition
convert_deployment_conditions conds = map convert_deployment_condition conds

-- `ConvertIssuerConditions` and `ConvertCertificateConditions`: the generation is left out.
abbrev pub convert_cert_condition : CertCondition → CertCondition
convert_cert_condition c = record {
  condition_type = c.condition_type;
  status = c.status;
  last_transition_time = c.last_transition_time;
  reason = c.reason;
  message = c.message;
  observed_generation = pos 0;
}

unfoldable pub convert_issuer_conditions : List CertCondition → List CertCondition
convert_issuer_conditions conds = map convert_cert_condition conds

unfoldable pub convert_certificate_conditions : List CertCondition → List CertCondition
convert_certificate_conditions conds = map convert_cert_condition conds
