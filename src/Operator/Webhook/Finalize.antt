-- ===== src/Operator/Webhook/Finalize.antt =====
-- The finalizer of a webhook: `finalizeZitiWebhook` and the first part of
-- `ZitiWebhookReconciler.Reconcile`. The client and the finalizers of controllerutil are parameters.
use ziti_k8s_agent.Base.{
  Bool, ◌++◌, Text, codes, if◌then◌else◌, Result, ok, err, Action, ◌>>=◌, pure,
}
use ziti_k8s_agent.Operator.Admin.{Fetch, found, not_found, failed}
use ziti_k8s_agent.Operator.Webhook.{ZitiWebhook}

-- What is deleted with a webhook, by name and namespace.
pub data Target : Type 0 where
  cluster_role : Text → Target
  cluster_role_binding : Text → Target
  secret : Text → Text → Target
  webhook_configuration : Text → Target

pub record FinalizerApi (W : Type 0) : Type 0 where
  pub contains_finalizer : ZitiWebhook → Text → Bool
  pub add_finalizer : ZitiWebhook → Text → ZitiWebhook
  pub remove_finalizer : ZitiWebhook → Text → ZitiWebhook
  -- `r.Delete`, which may say that the object is not there.
  pub delete : Target → W → Fetch (Unit {0}) × W
  -- The object as the server answers it.
  pub update_webhook : ZitiWebhook → Action W ZitiWebhook

abbrev pub finalizer : Text
finalizer = codes "kubernetes.openziti.io/zitiwebhook"

-- The error of a deletion, unless the object is not there.
abbrev pub ignore_not_found : Fetch (Unit {0}) → Result (Unit {0})
ignore_not_found (found u) = ok tt
ignore_not_found not_found = ok tt
ignore_not_found (failed e) = err e

-- What the first part decides: to go on with the object, or to return.
pub data Phase : Type 0 where
  go_on : ZitiWebhook → Phase
  return_now : Phase

module _ {W : Type 0} (F : FinalizerApi W) where
  unfoldable pub delete_target : Target → Action W (Unit {0})
  delete_target t w = let (r, w') = F.delete t w in (ignore_not_found r, w')

  unfoldable pub finalize : ZitiWebhook → Action W (Unit {0})
  unfolding delete_target
  finalize z = delete_target (cluster_role (z.spec.name ++ codes "-cluster-role")) >>= λ _.
      delete_target (cluster_role_binding (z.spec.name ++ codes "-cluster-role-binding")) >>= λ _.
      delete_target (secret (z.spec.name ++ codes "-server-cert") z.meta.namespace) >>= λ _.
      delete_target (webhook_configuration (z.spec.name ++ codes "-mutating-webhook-configuration"))

  abbrev pub register : ZitiWebhook → Action W Phase
  register z =
      if F.contains_finalizer z finalizer
      then pure (go_on z)
      else F.update_webhook (F.add_finalizer z finalizer) >>= λ z'. pure (go_on z')

  abbrev pub unregister : ZitiWebhook → Action W Phase
  unregister z =
      if F.contains_finalizer z finalizer
      then (finalize z >>= λ _.
          F.update_webhook (F.remove_finalizer z finalizer) >>= λ _. pure return_now)
      else pure (go_on z)

  -- An object whose deletion was asked for, and that has no finalizer of the operator any more, is
  -- reconciled like any other.
  unfoldable pub check_finalizer : ZitiWebhook → Action W Phase
  unfolding finalize
  check_finalizer z = if z.deleting then unregister z else register z
