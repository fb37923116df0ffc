-- ===== src/Operator/Router/Kept.antt =====
-- What a run for a router leaves alone: each of its steps keeps the objects of the steps before it.
use ziti_k8s_agent.Base.{◌≡◌, ap, arith, ◌++◌, Text, codes, ok, >>=-eq-ok, lift, ok_parts, pure}
use ziti_k8s_agent.Operator.Admin.{Fetch, found, not_found, failed}
use ziti_k8s_agent.Operator.Equal.{GoMap, entries}
use ziti_k8s_agent.Operator.Objects.{Object, ServiceSpec}
use ziti_k8s_agent.Operator.Ensure.{set_owner, ensure}
use ziti_k8s_agent.Operator.Ensured.{OwningLaws, StoreLaws, IsSent, Apart}
use ziti_k8s_agent.Operator.Apart.{ensure_apart}
use ziti_k8s_agent.Operator.Adopt.{NextRun, after_30_s}
use ziti_k8s_agent.Operator.Router.{ZitiRouter}
use ziti_k8s_agent.Operator.Router.Defaults.{default_labels}
use ziti_k8s_agent.Operator.Router.Desired.{desired_service, desired_stateful_set}
use ziti_k8s_agent.Operator.Router.Update.{update_service, update_stateful_set}
use ziti_k8s_agent.Operator.Router.Empty.{empty_service, empty_stateful_set}
use ziti_k8s_agent.Operator.Router.Reconcile.{
  RouterApi, settle_service, settle_stateful_set, update_status, status_fetched,
}
use ziti_k8s_agent.Operator.Router.ConfigMaps.{ConfigRealized, config_map_kept}
use ziti_k8s_agent.Operator.Router.Services.{IsAssigned, ServiceRealized, service_kept}
use ziti_k8s_agent.Operator.Router.SetClaims.{IsClaimed}
use ziti_k8s_agent.Operator.Router.SetSettled.{SetObject}
use ziti_k8s_agent.Operator.Router.StatefulSets.{SetRealized, stateful_set_kept}

-- What the config map needs: its store keeps what it is sent, and no write of another kind touches
-- what is read of it.
pub record ConfigLaws {W Claims : Type 0} (A : RouterApi W Claims) (r : ZitiRouter) : Type 0 where
  pub owning : OwningLaws (A.owning r)
  pub config_maps : StoreLaws A.config_maps IsSent
  pub services_read : (namespace name : Text) (w : W) → (A.services.get namespace name w).1 ≡ w
  pub sets_read : (namespace name : Text) (w : W) → (A.stateful_sets.get namespace name w).1 ≡ w
  pub maps_services : Apart A.config_maps A.services
  pub maps_sets : Apart A.config_maps A.stateful_sets
  pub router_reads : (key : Text) (w : W) → (A.get_router key w).1 ≡ w
  pub maps_status :
      (old new : ZitiRouter) (w w' : W) (u : Unit {0}) (namespace name : Text)
      → (f : Fetch (Object GoMap (Unit {0}))) → A.patch_status old new w ≡ (ok u, w')
      → A.config_maps.get namespace name w ≡ (f, w)
      → A.config_maps.get namespace name w' ≡ (f, w')

-- The stores keep what they are sent, but for the cluster IPs of a service and the status of claim
-- templates, and no write touches what is read of another kind.
pub record RouterLaws {W Claims : Type 0} (A : RouterApi W Claims) (r : ZitiRouter) : Type 0 where
  pub config : ConfigLaws A r
  pub services : StoreLaws A.services IsAssigned
  pub stateful_sets : StoreLaws A.stateful_sets IsClaimed
  pub services_sets : Apart A.services A.stateful_sets
  pub services_status :
      (old new : ZitiRouter) (w w' : W) (u : Unit {0}) (namespace name : Text)
      → (f : Fetch (Object ServiceSpec (Unit {0}))) → A.patch_status old new w ≡ (ok u, w')
      → A.services.get namespace name w ≡ (f, w)
      → A.services.get namespace name w' ≡ (f, w')
  pub sets_status :
      (old new : ZitiRouter) (w w' : W) (u : Unit {0}) (namespace name : Text)
      → (f : Fetch SetObject) → A.patch_status old new w ≡ (ok u, w')
      → A.stateful_sets.get namespace name w ≡ (f, w)
      → A.stateful_sets.get namespace name w' ≡ (f, w')

module _ {W Claims : Type 0} (A : RouterApi W Claims) (r : ZitiRouter) (L : ConfigLaws A r) where
  -- The update of the status keeps the objects.
  status_patched :
      (f : Fetch ZitiRouter) (s : SetObject) (n : NextRun) (w w' : W)
      → status_fetched A s f w ≡ (ok n, w')
      → (old : ZitiRouter) × (new : ZitiRouter) × (u : Unit {0}) × (A.patch_status old new w
          ≡ (ok u, w'))
  status_patched (found z) s n w w' h =
      let new : ZitiRouter = record z { status = s.status } in
      let (u, w₁, sent, done) = >>=-eq-ok (A.patch_status z new) (λ _. pure after_30_s) w w' n h in
      (z, new, u, rw (← (ok_parts after_30_s n w₁ w' done).1) sent)
  status_patched not_found s n w w' h = absurd (ground arith)
  status_patched (failed e) s n w w' h = absurd (ground arith)

  pub status_of :
      (key : Text) (s : SetObject) (n : NextRun) (w w' : W)
      → update_status A key s w ≡ (ok n, w')
      → (old : ZitiRouter) × (new : ZitiRouter) × (u : Unit {0}) × (A.patch_status old new w
          ≡ (ok u, w'))
  unfolding update_status
  status_of key s n w w' h =
      status_patched (A.get_router key w).0 s n w w' (rw (L.router_reads key w) at h)

  maps_after_service :
      (f : Fetch (Object GoMap (Unit {0}))) (a : Object ServiceSpec (Unit {0})) (w w' : W)
      → settle_service A r w ≡ (ok a, w')
      → A.config_maps.get r.meta.namespace (r.spec.name ++ codes "-config") w ≡ (f, w)
      → A.config_maps.get r.meta.namespace (r.spec.name ++ codes "-config") w' ≡ (f, w')
  unfolding settle_service
  maps_after_service f a w w' h g =
      let (d, w₁, made, rest) =
        >>=-eq-ok (lift (desired_service r))
          (λ d.
            ensure A.services r.meta.namespace (r.spec.name ++ codes "-service") empty_service
              (set_owner (A.owning r) d) (update_service (A.owning r) r d))
          w w' a h in
      let world : w ≡ w₁ = ap (λ p. p.1) made in
      ensure_apart A.config_maps A.services L.services_read L.maps_services r.meta.namespace
        (r.spec.name ++ codes "-config") f (update_service (A.owning r) r d) empty_service
        (set_owner (A.owning r) d) r.meta.namespace (r.spec.name ++ codes "-service") a w₁ w' rest
        (rw (← world) g)

  maps_after_set :
      (f : Fetch (Object GoMap (Unit {0}))) (a : SetObject) (w w' : W)
      → settle_stateful_set A r w ≡ (ok a, w')
      → A.config_maps.get r.meta.namespace (r.spec.name ++ codes "-config") w ≡ (f, w)
      → A.config_maps.get r.meta.namespace (r.spec.name ++ codes "-config") w' ≡ (f, w')
  unfolding settle_stateful_set
  maps_after_set f a w w' h g =
      ensure_apart A.config_maps A.stateful_sets L.sets_read L.maps_sets r.meta.namespace
        (r.spec.name ++ codes "-config") f
        (update_stateful_set (A.owning r) r (desired_stateful_set r)) empty_stateful_set
        (set_owner (A.owning r) (desired_stateful_set r)) r.meta.namespace
        (r.spec.name ++ codes "-statefulset") a w w' h g

  -- What a run does after the config map keeps it.
  pub config_lasts :
      (v : Object ServiceSpec (Unit {0})) (s : SetObject) (n : NextRun) (key : Text)
      → (w₁ w₂ w₃ w' : W) → settle_service A r w₁ ≡ (ok v, w₂)
      → settle_stateful_set A r w₂ ≡ (ok s, w₃)
      → update_status A key s w₃ ≡ (ok n, w')
      → ConfigRealized A r L.owning w₁
      → ConfigRealized A r L.owning w'
  config_lasts v s n key w₁ w₂ w₃ w' hv hs hn (config, c, has, got, right, synced, _) =
      let (old, new, u, sent) = status_of key s n w₃ w' hn in
      let got' =
        L.maps_status old new w₃ w' u r.meta.namespace (r.spec.name ++ codes "-config") (found c)
          sent
          (maps_after_set (found c) s w₂ w₃ hs (maps_after_service (found c) v w₁ w₂ hv got)) in
      (
        config,
        c,
        has,
        got',
        right,
        synced,
        config_map_kept A r L.owning config c w' has got' right synced,
      )

module _ {W Claims : Type 0} (A : RouterApi W Claims) (r : ZitiRouter) (L : RouterLaws A r) where
  services_after_set :
      (f : Fetch (Object ServiceSpec (Unit {0}))) (a : SetObject) (w w' : W)
      → settle_stateful_set A r w ≡ (ok a, w')
      → A.services.get r.meta.namespace (r.spec.name ++ codes "-service") w ≡ (f, w)
      → A.services.get r.meta.namespace (r.spec.name ++ codes "-service") w' ≡ (f, w')
  unfolding settle_stateful_set
  services_after_set f a w w' h g =
      ensure_apart A.services A.stateful_sets L.stateful_sets.reads L.services_sets r.meta.namespace
        (r.spec.name ++ codes "-service") f
        (update_stateful_set (A.owning r) r (desired_stateful_set r)) empty_stateful_set
        (set_owner (A.owning r) (desired_stateful_set r)) r.meta.namespace
        (r.spec.name ++ codes "-statefulset") a w w' h g

  -- What a run does after the service keeps it.
  pub service_lasts :
      (s : SetObject) (n : NextRun) (key : Text) (w₂ w₃ w' : W)
      → settle_stateful_set A r w₂ ≡ (ok s, w₃)
      → update_status A key s w₃ ≡ (ok n, w')
      → ServiceRealized A r L.config.owning w₂
      → ServiceRealized A r L.config.owning w'
  service_lasts s n key w₂ w₃ w' hs hn (p, v, has, got, right, synced, _) =
      let (old, new, u, sent) = status_of A r L.config key s n w₃ w' hn in
      let got' =
        L.services_status old new w₃ w' u r.meta.namespace (r.spec.name ++ codes "-service")
          (found v) sent (services_after_set (found v) s w₂ w₃ hs got) in
      (
        p,
        v,
        has,
        got',
        right,
        synced,
        service_kept A r L.config.owning p v w' has got' right synced,
      )

  -- The update of the status keeps the stateful set.
  pub set_lasts :
      (labelled : r.spec.deployment.labels ≡ entries (default_labels r))
      → (s : SetObject) (n : NextRun) (key : Text) (w₃ w' : W)
      → update_status A key s w₃ ≡ (ok n, w')
      → SetRealized A r L.config.owning labelled w₃
      → SetRealized A r L.config.owning labelled w'
  set_lasts labelled s n key w₃ w' hn (b, claims, got, kept, desired, synced, _) =
      let (old, new, u, sent) = status_of A r L.config key s n w₃ w' hn in
      let got' =
        L.sets_status old new w₃ w' u r.meta.namespace (r.spec.name ++ codes "-statefulset")
          (found b) sent got in
      (
        b,
        claims,
        got',
        kept,
        desired,
        synced,
        stateful_set_kept A r L.config.owning labelled claims b w' got' kept desired synced,
      )
