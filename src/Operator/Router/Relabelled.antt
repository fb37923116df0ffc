-- ===== src/Operator/Router/Relabelled.antt =====
-- The labels of a stateful set: they are compared with those of the deployment and set to the default
-- ones, so that where these differ each run patches the object again.
use ziti_k8s_agent.Base.{
  ◌≡◌, refl, ap, sym, ◌∙◌, arith, Bool, true, false, inl, inr, Bool-cases, List, ℤ, Result, ok, err,
  panic,
}
use ziti_k8s_agent.Operator.Equal.{GoMap, entries, same_map}
use ziti_k8s_agent.Operator.Objects.{Meta, Object}
use ziti_k8s_agent.Operator.Pods.{pod_equal}
use ziti_k8s_agent.Operator.Sets.{ClaimTemplate, StatefulSetSpec, stateful_set_equal}
use ziti_k8s_agent.Operator.Ensure.{Owning, sync_labels, sync_owner, sync_meta, owned, with_meta}
use ziti_k8s_agent.Operator.Ensured.{OwningLaws, sync_owner_lem, ok_first}
use ziti_k8s_agent.Operator.Synced.{flag_of}
use ziti_k8s_agent.Operator.Router.{ZitiRouter}
use ziti_k8s_agent.Operator.Router.Defaults.{default_labels}
use ziti_k8s_agent.Operator.Router.Desired.{desired_stateful_set}
use ziti_k8s_agent.Operator.Router.Update.{
  sync_rest, sync_pod, sync_claims, sync_set, keep_claim_status, update_stateful_set,
  deep_equal_excluding, clear_template,
}

-- A change that is to be sent, with given metadata.
abbrev IsPending : Meta → Object StatefulSetSpec ℤ × Bool → Type 0
IsPending m p = (p.1 ≡ true) × (p.0.meta ≡ m)

IsPending-rest :
    (d : StatefulSetSpec) (m : Meta) (a : Object StatefulSetSpec ℤ) (b : Bool)
    → IsPending m (a, b)
    → IsPending m (sync_rest d (a, b))
IsPending-rest d m a b h =
    elim (Bool-cases (deep_equal_excluding stateful_set_equal clear_template a.spec d)) [
      | inl e ↦ rw (sync_rest, e) h
      | inr e ↦ rw (sync_rest, e) (refl, h.1)
    ]

IsPending-pod :
    (d : StatefulSetSpec) (m : Meta) (a : Object StatefulSetSpec ℤ) (b : Bool)
    → IsPending m (a, b)
    → IsPending m (sync_pod d (a, b))
IsPending-pod d m a b h = elim (Bool-cases (pod_equal.same a.spec.template.pod d.template.pod)) [
  | inl e ↦ rw (sync_pod, e) h
  | inr e ↦ rw (sync_pod, e) (refl, h.1)
]

IsPending-claims :
    (d : StatefulSetSpec) (claims : Result (List ClaimTemplate)) (a a' : Object StatefulSetSpec ℤ)
    → (b : Bool) → sync_claims d claims (a, true) ≡ ok (a', b)
    → IsPending a.meta (a', b)
IsPending-claims d (ok claims) a a' b h =
    let d' : StatefulSetSpec = record d { volume_claim_templates = claims } in
    let p = sync_rest d' (a, true) in
    let q = sync_pod d' p in
    let kept = IsPending-pod d' a.meta p.0 p.1 (IsPending-rest d' a.meta a true (refl, refl)) in
    (
      sym (flag_of q.0 a' q.1 b h) ∙ kept.0,
      ap (λ (x : Object StatefulSetSpec ℤ). x.meta) (sym (ok_first q.0 a' q.1 b h)) ∙ kept.1,
    )
IsPending-claims d (err e) a a' b h = absurd (ground arith)
IsPending-claims d panic a a' b h = absurd (ground arith)

owned_pending : (m' : Meta) (r : Result Meta) (b : Bool) → owned r ≡ ok (m', b) → b ≡ true
owned_pending m' (ok m) b h = sym (flag_of m m' true b h)
owned_pending m' (err e) b h = absurd (ground arith)
owned_pending m' panic b h = absurd (ground arith)

module _ (o : Owning) (L : OwningLaws o) where
  owner_pending : (m m' : Meta) (b : Bool) → sync_owner o (m, true) ≡ ok (m', b) → b ≡ true
  unfolding sync_owner
  owner_pending m m' b h = elim (Bool-cases (o.is_controlled m)) [
    | inl e ↦ sym (flag_of m m' true b (rw e at h))
    | inr e ↦ owned_pending m' (o.set_controller_reference m) b (rw e at h)
  ]

  -- Labels that are not the wanted ones are set to the default ones.
  meta_pending :
      (wanted labels : GoMap) (m m' : Meta) (b : Bool)
      → same_map m.labels wanted ≡ false
      → sync_meta o wanted labels m ≡ ok (m', b)
      → (b ≡ true) × (m'.labels ≡ labels)
  unfolding sync_meta sync_labels
  meta_pending wanted labels m m' b differ h =
      let h' : sync_owner o (record m { labels = labels }, true) ≡ ok (m', b) = rw differ at h in
      (
        owner_pending (record m { labels = labels }) m' b h',
        (sync_owner_lem o L (record m { labels = labels }) m' true b h').1,
      )

  relabelled :
      (d : StatefulSetSpec) (wanted labels : GoMap) (a a' : Object StatefulSetSpec ℤ) (b : Bool)
      → (r : Result (Meta × Bool)) → sync_meta o wanted labels a.meta ≡ r
      → same_map a.meta.labels wanted ≡ false
      → sync_set d (with_meta a r) ≡ ok (a', b)
      → (b ≡ true) × (a'.meta.labels ≡ labels)
  relabelled d wanted labels a a' b (ok (m, n)) e differ h =
      let (pending, same_labels) = meta_pending wanted labels a.meta m n differ e in
      let kept =
        IsPending-claims d
          (keep_claim_status a.spec.volume_claim_templates d.volume_claim_templates)
          (record a { meta = m }) a' b (rw pending at h) in
      (kept.0, ap (λ (x : Meta). x.labels) kept.1 ∙ same_labels)
  relabelled d wanted labels a a' b (err x) e differ h = absurd (ground arith)
  relabelled d wanted labels a a' b panic e differ h = absurd (ground arith)

  -- Where the labels of the deployment are not the default ones, a stateful set that has neither
  -- is patched, and has the default ones after it: it is patched again by each later run.
  pub stateful_set_relabelled :
      (r : ZitiRouter) (a a' : Object StatefulSetSpec ℤ) (b : Bool)
      → same_map (entries (default_labels r)) r.spec.deployment.labels ≡ false
      → same_map a.meta.labels r.spec.deployment.labels ≡ false
      → update_stateful_set o r (desired_stateful_set r) a ≡ ok (a', b)
      → (b ≡ true)
        × (a'.meta.labels ≡ entries (default_labels r))
        × (same_map a'.meta.labels r.spec.deployment.labels ≡ false)
  unfolding update_stateful_set desired_stateful_set
  stateful_set_relabelled r a a' b default_differs differs h =
      let labels = r.spec.deployment.labels in
      let (pending, set) =
        relabelled (desired_stateful_set r).spec labels (entries (default_labels r)) a a' b
          (sync_meta o labels (entries (default_labels r)) a.meta) refl differs h in
      (pending, set, rw set default_differs)
