-- ===== src/Operator/Webhook/Reconciled.antt =====
-- A whole run for a webhook that takes over a controller from its channel: the deployment in the
-- cluster is then the one that leads the agent to that controller.
use ziti_k8s_agent.Base.{
  ◌≡◌, refl, ap, sym, ◌∙◌, true, false, some, Text, codes, Result, ok, >>=-eq-ok, ◌>>=◌, lift,
}
use ziti_k8s_agent.Operator.{ZitiController}
use ziti_k8s_agent.Operator.Admin.{found}
use ziti_k8s_agent.Operator.Merge.{Fields, merge_specs}
use ziti_k8s_agent.Operator.Adopt.{Inbox, receive, NextRun, controller_mgmt_api}
use ziti_k8s_agent.Operator.Router.Wired.{out_of}
use ziti_k8s_agent.Operator.Webhook.{ZitiWebhookSpec, ZitiWebhook}
use ziti_k8s_agent.Operator.Webhook.Defaults.{webhook_defaults}
use ziti_k8s_agent.Operator.Webhook.Deployment.{
  agent_env, agent_container, agent_pod, deployment_of, desired_deployment,
}
use ziti_k8s_agent.Operator.Webhook.Finalize.{
  FinalizerApi, finalizer, go_on, register, unregister, check_finalizer,
}
use ziti_k8s_agent.Operator.Webhook.Finalized.{if_true, if_false}
use ziti_k8s_agent.Operator.Webhook.Settled.{DeploymentRealized}
use ziti_k8s_agent.Operator.Webhook.Deployed.{variable, deployed_env, deployed_variable}
use ziti_k8s_agent.Operator.Webhook.Adopted.{AgentLaws, deployment_realized}
use ziti_k8s_agent.Operator.Webhook.Reconcile.{
  WebhookApi, adopt_controller, adopt_mgmt_api, settle_webhook, after_adoption, webhook_merged,
  after_finalizer, fetched_webhook, webhook_reconcile,
}

-- A webhook that is not to be deleted and has the finalizer is left alone.
registered_already :
    {W : Type 0} (F : FinalizerApi W) (z : ZitiWebhook) (w : W)
    → z.deleting ≡ false
    → F.contains_finalizer z finalizer ≡ true
    → check_finalizer F z w ≡ (ok (go_on z), w)
unfolding check_finalizer
registered_already F z w kept has =
    ap (λ f. f w) (if_false z.deleting (unregister F z) (register F z) kept)
    ∙ ap (λ f. f w)
        (if_true (F.contains_finalizer z finalizer) (λ w. (ok (go_on z), w))
          (F.update_webhook (F.add_finalizer z finalizer) >>= λ z'. λ w. (ok (go_on z'), w)) has)

module _ {W Claims : Type 0} (A : WebhookApi W Claims) where
  -- A run that takes over a controller ends with the run over the objects.
  adopted_run :
      (key : Text) (z : ZitiWebhook) (adopted : Result ZitiWebhookSpec) (n : NextRun) (w w' : W)
      → after_adoption A key z adopted w ≡ (ok n, w')
      → (s : ZitiWebhookSpec) × (z' : ZitiWebhook) × (w₁ : W) × (adopted ≡ ok s)
        × (A.finalizers.update_webhook (record z { spec = s }) w ≡ (ok z', w₁))
        × (settle_webhook A key z' w₁ ≡ (ok n, w'))
  adopted_run key z adopted n w w' h =
      let (s, w₀, took, rest) =
        >>=-eq-ok (lift adopted)
          (λ s. A.finalizers.update_webhook (record z { spec = s }) >>= settle_webhook A key) w w' n
          h in
      let (z', w₁, sent, done) =
        >>=-eq-ok (A.finalizers.update_webhook (record z { spec = s })) (settle_webhook A key) w₀ w'
          n rest in
      let world : w ≡ w₀ = ap (λ p. p.1) took in
      (s, z', w₁, ap (λ p. p.0) took, rw world sent, done)

  -- What a run does with a webhook whose specification is completed.
  completed_run :
      (key : Text) (z : ZitiWebhook) (inbox inbox' : Inbox) (merged : Fields) (n : NextRun)
      → (w w₀ w' : W) → A.get_webhook key w ≡ (found z, w₀)
      → z.deleting ≡ false
      → A.finalizers.contains_finalizer z finalizer ≡ true
      → merge_specs (A.reflection.fields_of z.spec) (A.reflection.fields_of (webhook_defaults z))
        ≡ ok (merged, true)
      → webhook_reconcile A key inbox w ≡ (ok n, inbox', w')
      → (receive inbox ≡ inbox')
        × (after_adoption A key z
              (adopt_controller A (receive inbox).cached (A.reflection.set_fields merged z.spec))
              w₀
            ≡ (ok n, w'))
  unfolding webhook_reconcile
  completed_run key z inbox inbox' merged n w w₀ w' got kept has completed h =
      let same =
        sym (
          ap (λ p. fetched_webhook A key inbox p.0 p.1) got
          ∙ (ap (after_finalizer A key inbox) (registered_already A.finalizers z w₀ kept has)
              ∙ ap (λ m. webhook_merged A key z inbox m w₀) completed))
        ∙ h in
      (ap (λ p. p.1) same, λ i. ((same i).0, (same i).2))

  adopted_spec :
      (c : ZitiController) (s₀ s : ZitiWebhookSpec) (url : Text)
      → controller_mgmt_api A.jwt c ≡ ok url
      → adopt_controller A (some c) s₀ ≡ ok s
      → (s.deployment_spec.env.ziti_ctrl_mgmt_api ≡ url) × (s.name ≡ s₀.name)
  unfolding adopt_controller
  adopted_spec c s₀ s url api took =
      let is_s = ap (out_of s) (sym (ap (adopt_mgmt_api A c s₀) api) ∙ took) in
      (rw (← is_s) refl, rw (← is_s) refl)

  -- At a server that keeps a deployment as it is sent, whatever status is written, and that answers
  -- an update of a webhook with the specification that it is sent: for a webhook that is not to be
  -- deleted, has the finalizer, and whose specification is completed with its defaults, and a
  -- controller in the channel, or else kept from an earlier run, a run that succeeds keeps the
  -- controller and leaves a deployment in the cluster that is the one desired for a webhook under
  -- the same name and namespace; in it the first container's variable ZITI_MGMT_API is the
  -- management URL of the controller.
  pub agent_led :
      (L : AgentLaws A) (key : Text) (z : ZitiWebhook) (c : ZitiController) (inbox inbox' : Inbox)
      → (merged : Fields) (url : Text) (n : NextRun) (w w₀ w' : W)
      → A.get_webhook key w ≡ (found z, w₀)
      → z.deleting ≡ false
      → A.finalizers.contains_finalizer z finalizer ≡ true
      → merge_specs (A.reflection.fields_of z.spec) (A.reflection.fields_of (webhook_defaults z))
        ≡ ok (merged, true)
      → (receive inbox).cached ≡ some c
      → controller_mgmt_api A.jwt c ≡ ok url
      → webhook_reconcile A key inbox w ≡ (ok n, inbox', w')
      → (inbox'.cached ≡ some c)
        × (z' : ZitiWebhook) × (z'.meta.namespace ≡ z.meta.namespace)
        × (z'.spec.name ≡ (A.reflection.set_fields merged z.spec).name)
        × (realized : DeploymentRealized A z' (L.owning z') w') × (variable
              (deployed_env realized.0.spec)
              (codes "ZITI_MGMT_API")
            ≡ some url)
  unfolding agent_env agent_container agent_pod deployment_of desired_deployment
  agent_led L key z c inbox inbox' merged url n w w₀ w' got kept has completed cached api h =
      let (same, run) =
        completed_run key z inbox inbox' merged n w w₀ w' got kept has completed h in
      let s₀ = A.reflection.set_fields merged z.spec in
      let (s, z', w₁, took, sent, settled) =
        adopted_run key z (adopt_controller A (receive inbox).cached s₀) n w₀ w' run in
      let (same_spec, same_namespace) = L.answers (record z { spec = s }) z' w₀ w₁ sent in
      let (api_set, name) =
        adopted_spec c s₀ s url api (sym (ap (λ o. adopt_controller A o s₀) cached) ∙ took) in
      let realized = deployment_realized A L key z' n w₁ w' settled in
      (
        ap (λ (i : Inbox). i.cached) (sym same) ∙ cached,
        z',
        same_namespace,
        ap (λ (t : ZitiWebhookSpec). t.name) same_spec ∙ name,
        realized,
        deployed_variable realized.0.spec (desired_deployment z').spec (codes "ZITI_MGMT_API")
              realized.2
            ∙ ap some (
                ap (λ (t : ZitiWebhookSpec). t.deployment_spec.env.ziti_ctrl_mgmt_api) same_spec
                ∙ api_set),
      )
