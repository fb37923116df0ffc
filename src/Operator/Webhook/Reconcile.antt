-- ===== src/Operator/Webhook/Reconcile.antt =====
-- `ZitiWebhookReconciler.Reconcile`. The Kubernetes client, the owner references, the JWT parser and
-- Go's reflection are parameters. An error of the first `r.Get` other than NotFound is ignored.
use ziti_k8s_agent.Base.{
  false, true, Bool, Option, none, some, List, [], ◌∷◌, ◌++◌, Text, codes, if◌then◌else◌, Result,
  ok, err, panic, Action, ◌>>=◌, pure, fail, lift,
}
use ziti_k8s_agent.Operator.{ZitiController}
use ziti_k8s_agent.Operator.Admin.{Fetch, found, not_found, failed}
use ziti_k8s_agent.Operator.Merge.{Fields, Merging, merge_specs}
use ziti_k8s_agent.Operator.Objects.{Object, ServiceSpec}
use ziti_k8s_agent.Operator.Sets.{DeploymentSpec}
use ziti_k8s_agent.Operator.Hooks.{IssuerSpec, CertificateSpec}
use ziti_k8s_agent.Operator.Ensure.{Owning, Store, ensure, set_owner}
use ziti_k8s_agent.Operator.Adopt.{
  JwtLib, Reflection, Inbox, receive, controller_mgmt_api, NextRun, no_run, after_30_s,
}
use ziti_k8s_agent.Operator.Router.Empty.{empty_service}
use ziti_k8s_agent.Operator.Webhook.{
  ZitiWebhookSpec, ZitiWebhook, ServiceAccountSpec, CertCondition,
}
use ziti_k8s_agent.Operator.Webhook.Defaults.{webhook_defaults}
use ziti_k8s_agent.Operator.Webhook.Desired.{
  desired_issuer, desired_certificate, desired_webhook_service, desired_service_account,
  desired_cluster_role, desired_binding, desired_webhooks,
}
use ziti_k8s_agent.Operator.Webhook.Deployment.{DeploymentStatus, desired_deployment}
use ziti_k8s_agent.Operator.Webhook.Update.{
  update_issuer, update_certificate, update_webhook_service, update_service_account,
  update_deployment, RoleObject, BindingObject, WebhooksObject, update_cluster_role, update_binding,
  update_webhooks, convert_deployment_conditions, convert_issuer_conditions,
  convert_certificate_conditions,
}
use ziti_k8s_agent.Operator.Webhook.Finalize.{
  FinalizerApi, Phase, go_on, return_now, check_finalizer,
}
use ziti_k8s_agent.Operator.Webhook.Empty.{
  empty_webhook, empty_issuer, empty_certificate, empty_account, empty_deployment,
}

-- The calls for a kind of object that is in no namespace: it is found by a list.
pub record ClusterStore (W A : Type 0) : Type 0 where
  pub list : Text → W → Result (List A) × W
  pub create : A → Action W (Unit {0})
  pub patch : A → A → Action W A

pub record WebhookApi (W Claims : Type 0) : Type 0 where
  pub get_webhook : Text → W → Fetch ZitiWebhook × W
  -- The error of `r.Get` for an object that is not there.
  pub not_found_error : Text
  pub finalizers : FinalizerApi W
  pub patch_status : ZitiWebhook → ZitiWebhook → Action W (Unit {0})
  pub issuers : Store W (Object IssuerSpec (List CertCondition))
  pub certificates : Store W (Object CertificateSpec (List CertCondition))
  pub services : Store W (Object ServiceSpec (Unit {0}))
  pub accounts : Store W (Object ServiceAccountSpec (Unit {0}))
  pub roles : ClusterStore W RoleObject
  pub bindings : ClusterStore W BindingObject
  pub webhooks : ClusterStore W WebhooksObject
  pub deployments : Store W (Object DeploymentSpec DeploymentStatus)
  pub owning : ZitiWebhook → Owning
  pub reflection : Reflection ZitiWebhookSpec
  pub jwt : JwtLib Claims

module _ {W A : Type 0} (S : ClusterStore W A) where
  abbrev pub patch_changed : A → A × Bool → Action W (Unit {0})
  patch_changed old (new, needs) = if needs then (S.patch old new >>= λ _. pure tt) else pure tt

  -- The first object of the list counts.
  abbrev pub settle_listed : A → (A → A × Bool) → List A → Action W (Unit {0})
  settle_listed desired update [] = S.create desired
  settle_listed desired update (a ∷ _) = patch_changed a (update a)

  unfoldable pub ensure_listed : Text → A → (A → A × Bool) → Action W (Unit {0})
  ensure_listed name desired update = S.list name >>= settle_listed desired update

module _ {W Claims : Type 0} (A : WebhookApi W Claims) where
  abbrev pub adopt_mgmt_api :
      ZitiController → ZitiWebhookSpec → Result Text → Result ZitiWebhookSpec
  adopt_mgmt_api c s (ok url) = ok (record s {
    ziti_controller_name = c.spec.name;
    deployment_spec = record s.deployment_spec {
      env = record s.deployment_spec.env { ziti_ctrl_mgmt_api = url };
    };
  })
  adopt_mgmt_api c s (err e) = err e
  adopt_mgmt_api c s panic = panic

  unfoldable pub adopt_controller : Option ZitiController → ZitiWebhookSpec → Result ZitiWebhookSpec
  unfolding controller_mgmt_api
  adopt_controller none s = ok s
  adopt_controller (some c) s = adopt_mgmt_api c s (controller_mgmt_api A.jwt c)

  unfoldable pub settle_issuer : ZitiWebhook → Action W (Object IssuerSpec (List CertCondition))
  unfolding desired_issuer ensure set_owner update_issuer
  settle_issuer z =
      ensure A.issuers z.meta.namespace (z.spec.name ++ codes "-ca-issuer") empty_issuer
        (set_owner (A.owning z) (desired_issuer z))
        (update_issuer (A.owning z) z (desired_issuer z))

  unfoldable pub settle_certificate :
      ZitiWebhook → Action W (Object CertificateSpec (List CertCondition))
  unfolding desired_certificate ensure set_owner update_certificate
  settle_certificate z =
      ensure A.certificates z.meta.namespace (z.spec.name ++ codes "-admission-cert")
        empty_certificate (set_owner (A.owning z) (desired_certificate z))
        (update_certificate (A.owning z) z (desired_certificate z))

  unfoldable pub settle_webhook_service : ZitiWebhook → Action W (Object ServiceSpec (Unit {0}))
  unfolding desired_webhook_service ensure set_owner update_webhook_service
  settle_webhook_service z = lift (desired_webhook_service z) >>= λ d.
      ensure A.services z.meta.namespace (z.spec.name ++ codes "-service") empty_service
        (set_owner (A.owning z) d) (update_webhook_service (A.owning z) z d)

  unfoldable pub settle_account : ZitiWebhook → Action W (Object ServiceAccountSpec (Unit {0}))
  unfolding desired_service_account ensure set_owner update_service_account
  settle_account z =
      ensure A.accounts z.meta.namespace (z.spec.name ++ codes "-service-account") empty_account
        (set_owner (A.owning z) (desired_service_account z))
        (update_service_account (A.owning z) z (desired_service_account z))

  -- The role, the binding and the webhook configuration.
  unfoldable pub settle_cluster : ZitiWebhook → Action W (Unit {0})
  unfolding ensure_listed desired_cluster_role update_cluster_role desired_binding update_binding
      desired_webhooks update_webhooks
  settle_cluster z =
      ensure_listed A.roles (z.spec.name ++ codes "-cluster-role") (desired_cluster_role z)
        (update_cluster_role z (desired_cluster_role z))
      >>= λ _.
          ensure_listed A.bindings (z.spec.name ++ codes "-cluster-role-binding")
            (desired_binding z) (update_binding z (desired_binding z))
          >>= λ _.
              ensure_listed A.webhooks (z.spec.name ++ codes "-mutating-webhook-configuration")
                (desired_webhooks z) (update_webhooks z (desired_webhooks z))

  unfoldable pub settle_deployment : ZitiWebhook → Action W (Object DeploymentSpec DeploymentStatus)
  unfolding desired_deployment ensure set_owner update_deployment
  settle_deployment z =
      ensure A.deployments z.meta.namespace (z.spec.name ++ codes "-deployment") empty_deployment
        (set_owner (A.owning z) (desired_deployment z))
        (update_deployment (A.owning z) z (desired_deployment z))

  abbrev pub with_status :
      List CertCondition → List CertCondition → DeploymentStatus → ZitiWebhook → ZitiWebhook
  with_status issuer certificate deployment z = record z {
    status = record z.status {
      replicas = deployment.ready_replicas;
      deployment_conditions = convert_deployment_conditions deployment.conditions;
      issuer_conditions = convert_issuer_conditions issuer;
      certificate_conditions = convert_certificate_conditions certificate;
    };
  }

  abbrev pub webhook_status_fetched :
      (ZitiWebhook → ZitiWebhook) → Fetch ZitiWebhook → Action W NextRun
  webhook_status_fetched set (found z) = A.patch_status z (set z) >>= λ _. pure after_30_s
  webhook_status_fetched set not_found = fail A.not_found_error
  webhook_status_fetched set (failed e) = fail e

  unfoldable pub update_webhook_status : Text → (ZitiWebhook → ZitiWebhook) → Action W NextRun
  update_webhook_status key set w =
      let (f, w') = A.get_webhook key w in webhook_status_fetched set f w'

  unfoldable pub settle_webhook : Text → ZitiWebhook → Action W NextRun
  unfolding settle_issuer settle_certificate settle_webhook_service settle_account settle_cluster
      settle_deployment update_webhook_status convert_deployment_conditions
      convert_issuer_conditions convert_certificate_conditions
  settle_webhook key z = settle_issuer z >>= λ i. settle_certificate z >>= λ c.
      settle_webhook_service z >>= λ _. settle_account z >>= λ _. settle_cluster z >>= λ _.
      settle_deployment z >>= λ d.
      update_webhook_status key (with_status i.status c.status d.status)

  abbrev pub after_adoption : Text → ZitiWebhook → Result ZitiWebhookSpec → Action W NextRun
  after_adoption key z adopted = lift adopted >>= λ s.
      A.finalizers.update_webhook (record z { spec = s }) >>= settle_webhook key

  abbrev pub webhook_merged :
      Text → ZitiWebhook → Inbox → Merging Fields → W → Result NextRun × Inbox × W
  webhook_merged key z inbox (ok (merged, true)) w =
      let inbox' = receive inbox in
      let (res, w') =
        after_adoption key z
          (adopt_controller inbox'.cached (A.reflection.set_fields merged z.spec)) w in
      (res, inbox', w')
  webhook_merged key z inbox (ok (merged, false)) w =
      let (res, w') = settle_webhook key z w in (res, inbox, w')
  webhook_merged key z inbox (err e) w = (err e, inbox, w)
  webhook_merged key z inbox panic w = (panic, inbox, w)

  abbrev pub after_finalizer : Text → Inbox → Result Phase × W → Result NextRun × Inbox × W
  after_finalizer key inbox (ok (go_on z), w) =
      webhook_merged key z inbox
        (merge_specs (A.reflection.fields_of z.spec) (A.reflection.fields_of (webhook_defaults z)))
        w
  after_finalizer key inbox (ok return_now, w) = (ok no_run, inbox, w)
  after_finalizer key inbox (err e, w) = (err e, inbox, w)
  after_finalizer key inbox (panic, w) = (panic, inbox, w)

  abbrev pub fetched_webhook : Text → Inbox → Fetch ZitiWebhook → W → Result NextRun × Inbox × W
  fetched_webhook key inbox not_found w = (ok no_run, inbox, w)
  fetched_webhook key inbox (found z) w =
      after_finalizer key inbox (check_finalizer A.finalizers z w)
  fetched_webhook key inbox (failed e) w =
      after_finalizer key inbox (check_finalizer A.finalizers empty_webhook w)

  unfoldable pub webhook_reconcile : Text → Inbox → W → Result NextRun × Inbox × W
  unfolding check_finalizer webhook_defaults merge_specs receive adopt_controller settle_webhook
  webhook_reconcile key inbox w =
      let (f, w') = A.get_webhook key w in fetched_webhook key inbox f w'
