-- ===== src/Operator/Router/StatefulSets.antt =====
-- Settling the stateful set of a router, where the labels of the deployment are the default ones: a
-- second run finds nothing to do.
use mathlib.Core.Path.{subst}
use ziti_k8s_agent.Base.{◌≡◌, refl, sym, Bool, false, List, ◌++◌, codes, Result, ok}
use ziti_k8s_agent.Operator.Admin.{found}
use ziti_k8s_agent.Operator.Equal.{GoMap, entries}
use ziti_k8s_agent.Operator.Sets.{ClaimTemplate, StatefulSetSpec}
use ziti_k8s_agent.Operator.Ensure.{Owning, set_owner, sync_meta, with_meta}
use ziti_k8s_agent.Operator.Ensured.{OwningLaws, IsSynced, Settled-ensure, sync_meta_synced}
use ziti_k8s_agent.Operator.Router.{ZitiRouter}
use ziti_k8s_agent.Operator.Router.Defaults.{default_labels}
use ziti_k8s_agent.Operator.Router.Desired.{desired_stateful_set}
use ziti_k8s_agent.Operator.Router.Empty.{empty_stateful_set}
use ziti_k8s_agent.Operator.Router.Reconcile.{RouterApi, settle_stateful_set}
use ziti_k8s_agent.Operator.Router.Update.{
  sync_rest, sync_pod, sync_claims, sync_set, keep_claim_status, update_stateful_set,
}
use ziti_k8s_agent.Operator.Router.SetSettled.{SetObject, with_claims, IsDesired}

-- The object has the wanted metadata and the desired specification, with its own claim's status.
abbrev pub IsFixed : Owning → GoMap → StatefulSetSpec → SetObject → Type 0
IsFixed o wanted d a =
    (claims : List ClaimTemplate) × (keep_claim_status a.spec.volume_claim_templates
        d.volume_claim_templates
      ≡ ok claims)
    × IsDesired (with_claims d claims) a.spec
    × IsSynced o wanted a.meta

module _ (o : Owning) (L : OwningLaws o) (wanted : GoMap) (d : StatefulSetSpec) where
  abbrev update_set : SetObject → Result (SetObject × Bool)
  update_set a = sync_set d (with_meta a (sync_meta o wanted wanted a.meta))

  IsFixed-update : (a : SetObject) → IsFixed o wanted d a → update_set a ≡ ok (a, false)
  unfolding IsDesired
  IsFixed-update a (claims, kept, (rest, pod), synced) =
      rw (sync_meta_synced o wanted wanted a.meta synced, with_meta, sync_set)
        (rw (kept, sync_claims) (rw (sync_rest, rest) (rw (sync_pod, pod) refl)))

module _ {W Claims : Type 0} (A : RouterApi W Claims) (r : ZitiRouter) (L : OwningLaws (A.owning r))
    (default_labelled : r.spec.deployment.labels ≡ entries (default_labels r)) where
  fixed_update :
      (a : SetObject)
      → IsFixed (A.owning r) (entries (default_labels r)) (desired_stateful_set r).spec a
      → update_stateful_set (A.owning r) r (desired_stateful_set r) a ≡ ok (a, false)
  unfolding update_stateful_set desired_stateful_set
  fixed_update a h =
      let o = A.owning r in
      let d = (desired_stateful_set r).spec in
      subst
        (λ labels.
          sync_set d (with_meta a (sync_meta o r.spec.deployment.labels labels a.meta))
          ≡ ok (a, false))
        default_labelled
        (IsFixed-update o L r.spec.deployment.labels d a
          (subst (λ labels. IsFixed o labels d a) (sym default_labelled) h))

  -- Where the stateful set that is read is the desired one, settling it changes nothing.
  pub stateful_set_kept :
      (claims : List ClaimTemplate) (b : SetObject) (w : W)
      → A.stateful_sets.get r.meta.namespace (r.spec.name ++ codes "-statefulset") w ≡ (found b, w)
      → keep_claim_status b.spec.volume_claim_templates
          (desired_stateful_set r).spec.volume_claim_templates
        ≡ ok claims
      → IsDesired (with_claims (desired_stateful_set r).spec claims) b.spec
      → IsSynced (A.owning r) (entries (default_labels r)) b.meta
      → settle_stateful_set A r w ≡ (ok b, w)
  unfolding settle_stateful_set
  stateful_set_kept claims b w got kept desired synced =
      Settled-ensure A.stateful_sets (update_stateful_set (A.owning r) r (desired_stateful_set r))
        empty_stateful_set (set_owner (A.owning r) (desired_stateful_set r)) r.meta.namespace
        (r.spec.name ++ codes "-statefulset") w
        (b, got, fixed_update b (claims, kept, desired, synced))

  -- The set is there as it is desired, and settling it changes nothing.
  abbrev pub SetRealized : W → Type 0
  SetRealized w' =
      ((b : SetObject) × (claims : List ClaimTemplate) × (A.stateful_sets.get r.meta.namespace
            (r.spec.name ++ codes "-statefulset") w'
          ≡ (found b, w'))
        × (keep_claim_status b.spec.volume_claim_templates
              (desired_stateful_set r).spec.volume_claim_templates
            ≡ ok claims)
        × IsDesired (with_claims (desired_stateful_set r).spec claims) b.spec
        × IsSynced (A.owning r) (entries (default_labels r)) b.meta
        × (settle_stateful_set A r w' ≡ (ok b, w')))
