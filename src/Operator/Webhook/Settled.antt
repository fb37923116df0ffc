-- ===== src/Operator/Webhook/Settled.antt =====
-- Settling the deployment of a webhook, and the labels of its service account.
use ziti_k8s_agent.Base.{◌≡◌, refl, ap, ◌∙◌, true, false, ◌++◌, codes, ok}
use ziti_k8s_agent.Operator.Admin.{found}
use ziti_k8s_agent.Operator.Equal.{GoMap, entries, same_map, same_map_refl}
use ziti_k8s_agent.Operator.Objects.{Meta, Object}
use ziti_k8s_agent.Operator.Sets.{DeploymentSpec, deployment_equal}
use ziti_k8s_agent.Operator.Ensure.{Owning, set_owner, sync_owner, with_meta, sync_spec}
use ziti_k8s_agent.Operator.Ensured.{
  OwningLaws, StoreLaws, IsSent, IsSent-Tolerates, IsSettling, IsSynced, Settled-ensure,
  ensure_settles,
}
use ziti_k8s_agent.Operator.Synced.{
  update_object_synced, update_object-IsSettling, update_object_fixed, set_owner_lem,
}
use ziti_k8s_agent.Operator.Webhook.Finalized.{if_true, if_false}
use ziti_k8s_agent.Operator.Webhook.{ZitiWebhook, ServiceAccountSpec}
use ziti_k8s_agent.Operator.Webhook.Defaults.{webhook_labels}
use ziti_k8s_agent.Operator.Webhook.Desired.{desired_service_account}
use ziti_k8s_agent.Operator.Webhook.Deployment.{DeploymentStatus, desired_deployment}
use ziti_k8s_agent.Operator.Webhook.Update.{
  update_deployment, update_service_account, sync_account_labels, account_equal,
}
use ziti_k8s_agent.Operator.Webhook.Empty.{empty_deployment}
use ziti_k8s_agent.Operator.Webhook.Reconcile.{WebhookApi, settle_deployment}

abbrev pub DeploymentObject : Type 0
DeploymentObject = Object DeploymentSpec DeploymentStatus

abbrev pub AccountObject : Type 0
AccountObject = Object ServiceAccountSpec (Unit {0})

account_relabelled :
    (o : Owning) (labels : GoMap) (m m' : Meta)
    → m' ≡ record m { labels = labels }
    → o.is_controlled (record m { labels = labels }) ≡ true
    → sync_owner o (m', false) ≡ ok (record m { labels = labels }, false)
unfolding sync_owner
account_relabelled o labels m m' e controlled = rw e (rw controlled refl)

module _ (o : Owning) (z : ZitiWebhook) (L : OwningLaws o) where
  deployment_update-IsSettling : IsSettling (update_deployment o z (desired_deployment z))
  unfolding update_deployment desired_deployment
  deployment_update-IsSettling =
      update_object-IsSettling o L (entries (webhook_labels z)) deployment_equal.same
        (λ _. (desired_deployment z).spec)
        (λ _. deployment_equal.same_refl (desired_deployment z).spec)

  fresh_deployment :
      (c : DeploymentObject)
      → set_owner o (desired_deployment z) ≡ ok c
      → (update_deployment o z (desired_deployment z) c ≡ ok (c, false))
        × (c.meta.namespace ≡ z.meta.namespace)
        × (c.meta.name ≡ z.spec.name ++ codes "-deployment")
  unfolding update_deployment desired_deployment
  fresh_deployment c h =
      let (controlled, labels, namespace, name, spec) =
        set_owner_lem o L (desired_deployment z) c h in
      (
        update_object_synced o L (entries (webhook_labels z)) deployment_equal.same
            (λ _. (desired_deployment z).spec) c
            (rw labels (same_map_refl (entries (webhook_labels z))), controlled)
            (rw spec (deployment_equal.same_refl (desired_deployment z).spec)),
        namespace,
        name,
      )

  deployment_fixed :
      (a : DeploymentObject)
      → update_deployment o z (desired_deployment z) a ≡ ok (a, false)
      → IsSynced o (entries (webhook_labels z)) a.meta
        × (deployment_equal.same a.spec (desired_deployment z).spec ≡ true)
  unfolding update_deployment desired_deployment
  deployment_fixed a h =
      update_object_fixed o L (entries (webhook_labels z)) deployment_equal.same
        (λ _. (desired_deployment z).spec)
        (λ _. deployment_equal.same_refl (desired_deployment z).spec) a h

module _ (o : Owning) (z : ZitiWebhook) where
  -- A service account whose labels alone differ is given the default ones in memory, and no patch is
  -- asked for: they stay as they are in the cluster.
  pub account_labels_unpatched :
      (a : Object ServiceAccountSpec (Unit {0}))
      → same_map a.meta.labels (entries (webhook_labels z)) ≡ false
      → account_equal.same a.spec z.spec.service_account ≡ true
      → o.is_controlled (record a.meta { labels = entries (webhook_labels z) }) ≡ true
      → update_service_account o z (desired_service_account z) a
        ≡ ok (record a { meta = record a.meta { labels = entries (webhook_labels z) } }, false)
  unfolding update_service_account desired_service_account sync_account_labels sync_owner
  account_labels_unpatched a differ same controlled =
      let labels = entries (webhook_labels z) in
      let a' : AccountObject = record a { meta = record a.meta { labels = labels } } in
      ap (λ r. sync_spec account_equal.same z.spec.service_account (with_meta a r))
        (account_relabelled o labels a.meta (sync_account_labels labels labels a.meta)
          (if_false (same_map a.meta.labels labels) a.meta (record a.meta { labels = labels })
            differ)
          controlled)
      ∙ if_true (account_equal.same a.spec z.spec.service_account) (ok (a', false))
          (ok (record a' { spec = z.spec.service_account }, true)) same

module _ {W Claims : Type 0} (A : WebhookApi W Claims) (z : ZitiWebhook)
    (L : OwningLaws (A.owning z)) where
  -- Where the deployment that is read is the desired one, settling it changes nothing.
  pub deployment_kept :
      (b : DeploymentObject) (w : W)
      → A.deployments.get z.meta.namespace (z.spec.name ++ codes "-deployment") w ≡ (found b, w)
      → deployment_equal.same b.spec (desired_deployment z).spec ≡ true
      → IsSynced (A.owning z) (entries (webhook_labels z)) b.meta
      → settle_deployment A z w ≡ (ok b, w)
  unfolding settle_deployment update_deployment desired_deployment
  deployment_kept b w got right synced =
      Settled-ensure A.deployments (update_deployment (A.owning z) z (desired_deployment z))
        empty_deployment (set_owner (A.owning z) (desired_deployment z)) z.meta.namespace
        (z.spec.name ++ codes "-deployment") w
        (
          b,
          got,
          update_object_synced (A.owning z) L (entries (webhook_labels z)) deployment_equal.same
              (λ _. (desired_deployment z).spec) b synced right,
        )

  -- The deployment is there as it is desired, and settling it changes nothing.
  abbrev pub DeploymentRealized : W → Type 0
  DeploymentRealized w' =
      ((b : DeploymentObject) × (A.deployments.get z.meta.namespace
            (z.spec.name ++ codes "-deployment") w'
          ≡ (found b, w'))
        × (deployment_equal.same b.spec (desired_deployment z).spec ≡ true)
        × IsSynced (A.owning z) (entries (webhook_labels z)) b.meta
        × (settle_deployment A z w' ≡ (ok b, w')))

  -- At a server that keeps a deployment as it is sent: settling the deployment of a webhook, where
  -- it succeeds, leaves the deployment under its name with the desired specification, the default
  -- labels and the webhook as its owner; settling it again gives that object and changes nothing.
  pub deployment_settles :
      StoreLaws A.deployments IsSent
      → (a : DeploymentObject) (w w' : W) → settle_deployment A z w ≡ (ok a, w')
      → DeploymentRealized w'
  unfolding settle_deployment
  deployment_settles S a w w' h =
      let o = A.owning z in
      let d = desired_deployment z in
      let s =
        ensure_settles A.deployments IsSent S (update_deployment o z d)
          (deployment_update-IsSettling o z L) (IsSent-Tolerates (update_deployment o z d))
          z.meta.namespace (z.spec.name ++ codes "-deployment") empty_deployment (set_owner o d)
          (fresh_deployment o z L) a w w' h in
      let (synced, right) = deployment_fixed o z L s.0 s.2 in
      (s.0, s.1, right, synced, deployment_kept s.0 w' s.1 right synced)
