-- ===== src/Operator/Router/Services.antt =====
-- Settling the service of a router: what a successful step leaves behind, and that a second step
-- finds nothing to do.
use mathlib.Core.Path.{subst}
use ziti_k8s_agent.Base.{
  Text, text_eq, text_eq_refl, List, Bool, ◌&&◌, sym, ◌≡◌, refl, ap, ◌∙◌, arith, true, false, not,
  ◌||◌, inl, inr, Bool-cases, ◌++◌, codes, is_empty, Result, ok, err, panic, >>=-eq-ok, lift, ◌>>=◌,
}
use ziti_k8s_agent.Operator.Admin.{found}
use ziti_k8s_agent.Operator.Equal.{
  text_equal, same_map, same_pointer, same_slice, same_slice_refl, entries, same_map_refl,
}
use ziti_k8s_agent.Operator.Objects.{Object, ServiceSpec, port_equal, service_equal}
use ziti_k8s_agent.Operator.Pods.{ContainerPort}
use ziti_k8s_agent.Operator.Ensure.{Owning, ensure, set_owner}
use ziti_k8s_agent.Operator.Ensured.{
  OwningLaws, StoreLaws, IsSettling, Tolerates, Settled-ensure, ensure_settles, IsSynced,
}
use ziti_k8s_agent.Operator.Synced.{
  update_object_synced, update_object-IsSettling, update_object_fixed, set_owner_lem,
}
use ziti_k8s_agent.Operator.Router.{ZitiRouter}
use ziti_k8s_agent.Operator.Router.Defaults.{default_labels}
use ziti_k8s_agent.Operator.Router.Desired.{desired_service, service_of, first_port, with_port}
use ziti_k8s_agent.Operator.Router.Update.{update_service, keep_cluster_ips, no_ips}
use ziti_k8s_agent.Operator.Router.Empty.{empty_service}
use ziti_k8s_agent.Operator.Router.Reconcile.{RouterApi, settle_service}

keep_cluster_ips_again :
    (a d : ServiceSpec) → keep_cluster_ips (keep_cluster_ips a d) d ≡ keep_cluster_ips a d
unfolding keep_cluster_ips
keep_cluster_ips_again a d =
    elim (Bool-cases (not (is_empty a.cluster_ip) || no_ips a.cluster_ips)) [
      | inl e ↦ rw (e) (rw e refl)
      | inr e ↦ rw e (elim (Bool-cases (not (is_empty d.cluster_ip) || no_ips d.cluster_ips)) [
        | inl k ↦ rw k refl
        | inr k ↦ rw k refl
      ])
    ]

keep_cluster_ips_same :
    (a d : ServiceSpec)
    → service_equal.same (keep_cluster_ips a d) (keep_cluster_ips (keep_cluster_ips a d) d) ≡ true
keep_cluster_ips_same a d =
    rw (keep_cluster_ips_again a d) (service_equal.same_refl (keep_cluster_ips a d))

-- What the server fills in: cluster IPs.
abbrev pub IsAssigned : ServiceSpec → ServiceSpec → Type 0
IsAssigned s s' =
    (ip : Text) × (ips : List Text) × (is_empty ip ≡ false)
    × (s' ≡ record s { cluster_ip = ip; cluster_ips = ips })

pub and_map : (b c c' : Bool) → (c ≡ true → c' ≡ true) → (b && c) ≡ true → (b && c') ≡ true
and_map true c c' f h = f h
and_map false c c' f h = h

-- Two specifications that are the same are so with the same IPs in both.
same_with_ips :
    (a d : ServiceSpec) (ip : Text) (ips : List Text)
    → service_equal.same a d ≡ true
    → service_equal.same
        (record a { cluster_ip = ip; cluster_ips = ips })
        (record d { cluster_ip = ip; cluster_ips = ips })
      ≡ true
same_with_ips a d ip ips =
    let same_ips : (text_eq ip ip && (same_slice text_equal ips ips && true)) ≡ true =
      rw (text_eq_refl ip, same_slice_refl text_equal ips) refl in
    and_map (same_slice port_equal a.ports d.ports) _ _ (
      and_map (same_pointer text_equal a.internal_traffic_policy d.internal_traffic_policy) _ _ (
        and_map (same_slice text_equal a.ip_families d.ip_families) _ _ (
          and_map (same_pointer text_equal a.ip_family_policy d.ip_family_policy) _ _ (
            and_map (same_map a.selector d.selector) _ _ (
              and_map (text_eq a.session_affinity d.session_affinity) _ _
                (and_map (text_eq a.service_type d.service_type) _ _ (λ h. same_ips)))))))

keep_with_ips :
    (a d : ServiceSpec) (ip : Text) (ips : List Text)
    → ◌≡◌ {A = ServiceSpec}
        (record (keep_cluster_ips a d) { cluster_ip = ip; cluster_ips = ips })
        (record d { cluster_ip = ip; cluster_ips = ips })
unfolding keep_cluster_ips
keep_with_ips a d ip ips = elim (Bool-cases (not (is_empty a.cluster_ip) || no_ips a.cluster_ips)) [
  | inl e ↦ rw e refl
  | inr e ↦ rw e refl
]

keep_assigned :
    (a d : ServiceSpec) (ip : Text) (ips : List Text)
    → is_empty ip ≡ false
    → keep_cluster_ips (record a { cluster_ip = ip; cluster_ips = ips }) d
      ≡ record d { cluster_ip = ip; cluster_ips = ips }
unfolding keep_cluster_ips
keep_assigned a d ip ips set = rw set refl

same_assigned :
    (a d s : ServiceSpec)
    → service_equal.same a (keep_cluster_ips a d) ≡ true
    → IsAssigned a s
    → service_equal.same s (keep_cluster_ips s d) ≡ true
same_assigned a d s right (ip, ips, set, is_s) =
    let kept =
      ap (service_equal.same (record a { cluster_ip = ip; cluster_ips = ips }))
        (keep_assigned a d ip ips set ∙ sym (keep_with_ips a d ip ips)) in
    subst (λ x. service_equal.same x (keep_cluster_ips x d) ≡ true) (sym is_s)
      (kept ∙ same_with_ips a (keep_cluster_ips a d) ip ips right)

module _ (o : Owning) (r : ZitiRouter) (L : OwningLaws o) where
  service_update-IsSettling : (p : ContainerPort) → IsSettling (update_service o r (service_of r p))
  unfolding update_service
  service_update-IsSettling p =
      update_object-IsSettling o L (entries (default_labels r)) service_equal.same
        (λ s. keep_cluster_ips s (service_of r p).spec)
        (λ s. keep_cluster_ips_same s (service_of r p).spec)

  -- Assigned cluster IPs ask for no patch.
  service_update-Tolerates :
      (p : ContainerPort) → Tolerates (update_service o r (service_of r p)) IsAssigned
  unfolding update_service
  service_update-Tolerates p a s h assigned =
      let d = (service_of r p).spec in
      let (synced, right) =
        update_object_fixed o L (entries (default_labels r)) service_equal.same
          (λ x. keep_cluster_ips x d) (λ x. keep_cluster_ips_same x d) a h in
      update_object_synced o L (entries (default_labels r)) service_equal.same
        (λ x. keep_cluster_ips x d) (record a { spec = s }) synced
        (same_assigned a.spec d s right assigned)

  fresh_service :
      (p : ContainerPort) (c : Object ServiceSpec (Unit {0}))
      → set_owner o (service_of r p) ≡ ok c
      → (update_service o r (service_of r p) c ≡ ok (c, false))
        × (c.meta.namespace ≡ r.meta.namespace)
        × (c.meta.name ≡ r.spec.name ++ codes "-service")
  unfolding update_service keep_cluster_ips
  fresh_service p c h =
      let (controlled, labels, namespace, name, spec) = set_owner_lem o L (service_of r p) c h in
      (
        update_object_synced o L (entries (default_labels r)) service_equal.same
            (λ s. keep_cluster_ips s (service_of r p).spec) c
            (rw labels (same_map_refl (entries (default_labels r))), controlled)
            (rw spec (service_equal.same_refl (service_of r p).spec)),
        namespace,
        name,
      )

port_of :
    (r : ZitiRouter) (d : Object ServiceSpec (Unit {0})) (port : Result ContainerPort)
    → with_port port (service_of r) ≡ ok d
    → (p : ContainerPort) × (port ≡ ok p) × (service_of r p ≡ d)
port_of r d (ok p) h = (p, refl, ap (λ x. elim x [ ok y ↦ y | err _ ↦ d | panic ↦ d ]) h)
port_of r d (err e) h = absurd (ground arith)
port_of r d panic h = absurd (ground arith)

module _ {W Claims : Type 0} (A : RouterApi W Claims) (r : ZitiRouter)
    (L : OwningLaws (A.owning r)) where
  service_step :
      (d : Object ServiceSpec (Unit {0})) (w : W)
      → desired_service r ≡ ok d
      → settle_service A r w
        ≡ ensure A.services r.meta.namespace
            (r.spec.name ++ codes "-service")
            empty_service
            (set_owner (A.owning r) d)
            (update_service (A.owning r) r d)
            w
  unfolding settle_service
  service_step d w e = rw (e, ◌>>=◌) refl

  -- Where the service that is read is the desired one, settling it changes nothing.
  pub service_kept :
      (p : ContainerPort) (b : Object ServiceSpec (Unit {0})) (w : W)
      → first_port r.spec.deployment.container.ports ≡ ok p
      → A.services.get r.meta.namespace (r.spec.name ++ codes "-service") w ≡ (found b, w)
      → service_equal.same b.spec (keep_cluster_ips b.spec (service_of r p).spec) ≡ true
      → IsSynced (A.owning r) (entries (default_labels r)) b.meta
      → settle_service A r w ≡ (ok b, w)
  unfolding desired_service update_service
  service_kept p b w has got right synced =
      service_step (service_of r p) w (ap (λ x. with_port x (service_of r)) has)
      ∙ Settled-ensure A.services (update_service (A.owning r) r (service_of r p)) empty_service
          (set_owner (A.owning r) (service_of r p)) r.meta.namespace
          (r.spec.name ++ codes "-service") w
          (
            b,
            got,
            update_object_synced (A.owning r) L (entries (default_labels r)) service_equal.same
                (λ x. keep_cluster_ips x (service_of r p).spec) b synced right,
          )

  -- The service is there as it is desired, and settling it changes nothing.
  abbrev pub ServiceRealized : W → Type 0
  ServiceRealized w' =
      ((p : ContainerPort) × (b : Object ServiceSpec (Unit {0})) × (first_port
            r.spec.deployment.container.ports
          ≡ ok p)
        × (A.services.get r.meta.namespace (r.spec.name ++ codes "-service") w' ≡ (found b, w'))
        × (service_equal.same b.spec (keep_cluster_ips b.spec (service_of r p).spec) ≡ true)
        × IsSynced (A.owning r) (entries (default_labels r)) b.meta
        × (settle_service A r w' ≡ (ok b, w')))

  -- Settling the service of a router, where it succeeds, leaves the service under its name with the
  -- desired specification, but for the cluster IPs that it was assigned, with the default labels and
  -- the router as its owner; settling it again gives that object and changes nothing.
  pub service_settles :
      StoreLaws A.services IsAssigned
      → (a : Object ServiceSpec (Unit {0})) (w w' : W) → settle_service A r w ≡ (ok a, w')
      → ServiceRealized w'
  unfolding settle_service desired_service update_service
  service_settles S a w w' h =
      let o = A.owning r in
      let (d, w₁, made, rest) =
        >>=-eq-ok (lift (desired_service r))
          (λ d.
            ensure A.services r.meta.namespace (r.spec.name ++ codes "-service") empty_service
              (set_owner o d) (update_service o r d))
          w w' a h in
      let (p, has, is_d) =
        port_of r d (first_port r.spec.deployment.container.ports) (ap (λ x. x.0) made) in
      let s =
        ensure_settles A.services IsAssigned S (update_service o r (service_of r p))
          (service_update-IsSettling o r L p) (service_update-Tolerates o r L p) r.meta.namespace
          (r.spec.name ++ codes "-service") empty_service (set_owner o (service_of r p))
          (fresh_service o r L p) a w₁ w' (rw (← is_d) at rest) in
      let (synced, right) =
        update_object_fixed o L (entries (default_labels r)) service_equal.same
          (λ x. keep_cluster_ips x (service_of r p).spec)
          (λ x. keep_cluster_ips_same x (service_of r p).spec) s.0 s.2 in
      (p, s.0, has, s.1, right, synced, service_kept p s.0 w' has s.1 right synced)
