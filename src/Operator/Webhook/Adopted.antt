-- ===== src/Operator/Webhook/Adopted.antt =====
-- The deployment of a webhook at the end of a run over all its objects.
use ziti_k8s_agent.Base.{
  ◌≡◌, arith, ◌++◌, Text, codes, ok, Action, >>=-eq-ok, ◌>>=◌, pure, ok_parts,
}
use ziti_k8s_agent.Operator.Admin.{Fetch, found, not_found, failed}
use ziti_k8s_agent.Operator.Adopt.{NextRun, after_30_s}
use ziti_k8s_agent.Operator.Ensured.{OwningLaws, StoreLaws, IsSent}
use ziti_k8s_agent.Operator.Webhook.{ZitiWebhook}
use ziti_k8s_agent.Operator.Webhook.Settled.{
  DeploymentObject, DeploymentRealized, deployment_settles, deployment_kept,
}
use ziti_k8s_agent.Operator.Webhook.Reconcile.{
  WebhookApi, settle_issuer, settle_certificate, settle_webhook_service, settle_account,
  settle_cluster, settle_deployment, settle_webhook, update_webhook_status, webhook_status_fetched,
  with_status,
}

module _ {W Claims : Type 0} (A : WebhookApi W Claims) where
  -- The last two steps of a run over the objects.
  deployment_step :
      (key : Text) (z : ZitiWebhook) (n : NextRun) (w w' : W)
      → settle_webhook A key z w ≡ (ok n, w')
      → (d : DeploymentObject) × (set : ZitiWebhook → ZitiWebhook) × (w₁ : W) × (w₂ : W)
        × (settle_deployment A z w₁ ≡ (ok d, w₂))
        × (update_webhook_status A key set w₂ ≡ (ok n, w'))
  unfolding settle_webhook
  deployment_step key z n w w' h =
      let (i, a₁, h₁, r₁) =
        >>=-eq-ok (settle_issuer A z)
          (λ i. settle_certificate A z >>= λ c. settle_webhook_service A z >>= λ _.
            settle_account A z >>= λ _. settle_cluster A z >>= λ _. settle_deployment A z >>= λ d.
            update_webhook_status A key (with_status A i.status c.status d.status))
          w w' n h in
      let (c, a₂, h₂, r₂) =
        >>=-eq-ok (settle_certificate A z)
          (λ c. settle_webhook_service A z >>= λ _. settle_account A z >>= λ _.
            settle_cluster A z >>= λ _. settle_deployment A z >>= λ d.
            update_webhook_status A key (with_status A i.status c.status d.status))
          a₁ w' n r₁ in
      let after : DeploymentObject → Action W NextRun =
        λ d. update_webhook_status A key (with_status A i.status c.status d.status) in
      let (_, a₃, h₃, r₃) =
        >>=-eq-ok (settle_webhook_service A z)
          (λ _.
            settle_account A z >>= λ _. settle_cluster A z >>= λ _. settle_deployment A z >>= after)
          a₂ w' n r₂ in
      let (_, a₄, h₄, r₄) =
        >>=-eq-ok (settle_account A z)
          (λ _. settle_cluster A z >>= λ _. settle_deployment A z >>= after) a₃ w' n r₃ in
      let (_, a₅, h₅, r₅) =
        >>=-eq-ok (settle_cluster A z) (λ _. settle_deployment A z >>= after) a₄ w' n r₄ in
      let (d, a₆, h₆, r₆) = >>=-eq-ok (settle_deployment A z) after a₅ w' n r₅ in
      (d, with_status A i.status c.status d.status, a₅, a₆, h₆, r₆)

-- What is relied on of the Kubernetes API: the store keeps the deployment, an update of the status
-- does not touch it, and an update is answered with the specification and the namespace that were
-- sent.
pub record AgentLaws {W Claims : Type 0} (A : WebhookApi W Claims) : Type 0 where
  pub owning : (z : ZitiWebhook) → OwningLaws (A.owning z)
  pub deployments : StoreLaws A.deployments IsSent
  pub webhook_reads : (key : Text) (w : W) → (A.get_webhook key w).1 ≡ w
  pub status_keeps :
      (old new : ZitiWebhook) (w w' : W) (u : Unit {0}) (namespace name : Text)
      → (f : Fetch DeploymentObject) → A.patch_status old new w ≡ (ok u, w')
      → A.deployments.get namespace name w ≡ (f, w)
      → A.deployments.get namespace name w' ≡ (f, w')
  pub answers :
      (x z' : ZitiWebhook) (w w' : W)
      → A.finalizers.update_webhook x w ≡ (ok z', w')
      → (z'.spec ≡ x.spec) × (z'.meta.namespace ≡ x.meta.namespace)

module _ {W Claims : Type 0} (A : WebhookApi W Claims) (L : AgentLaws A) where
  status_patched :
      (set : ZitiWebhook → ZitiWebhook) (f : Fetch ZitiWebhook) (n : NextRun) (w w' : W)
      → webhook_status_fetched A set f w ≡ (ok n, w')
      → (old : ZitiWebhook) × (new : ZitiWebhook) × (u : Unit {0}) × (A.patch_status old new w
          ≡ (ok u, w'))
  status_patched set (found z) n w w' h =
      let (u, w₁, sent, done) =
        >>=-eq-ok (A.patch_status z (set z)) (λ _. pure after_30_s) w w' n h in
      (z, set z, u, rw (← (ok_parts after_30_s n w₁ w' done).1) sent)
  status_patched set not_found n w w' h = absurd (ground arith)
  status_patched set (failed e) n w w' h = absurd (ground arith)

  -- A run over the objects leaves the deployment as it is desired.
  pub deployment_realized :
      (key : Text) (z : ZitiWebhook) (n : NextRun) (w w' : W)
      → settle_webhook A key z w ≡ (ok n, w')
      → DeploymentRealized A z (L.owning z) w'
  unfolding update_webhook_status
  deployment_realized key z n w w' h =
      let (d, set, w₁, w₂, settled, status) = deployment_step A key z n w w' h in
      let (b, got, right, synced, _) =
        deployment_settles A z (L.owning z) L.deployments d w₁ w₂ settled in
      let (old, new, u, sent) =
        status_patched set (A.get_webhook key w₂).0 n w₂ w'
          (rw (L.webhook_reads key w₂) at status) in
      let got' =
        L.status_keeps old new w₂ w' u z.meta.namespace (z.spec.name ++ codes "-deployment")
          (found b) sent got in
      (b, got', right, synced, deployment_kept A z (L.owning z) b w' got' right synced)
