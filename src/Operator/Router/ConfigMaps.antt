-- ===== src/Operator/Router/ConfigMaps.antt =====
-- Settling the config map of a router: what a successful step leaves behind, and that a second step
-- finds nothing to do.
use ziti_k8s_agent.Base.{
  ◌≡◌, refl, ap, ◌∙◌, arith, true, false, ◌++◌, codes, Result, ok, err, panic, >>=-eq-ok, lift,
  ◌>>=◌,
}
use ziti_k8s_agent.Operator.Admin.{found}
use ziti_k8s_agent.Operator.Equal.{GoMap, entries, same_map, same_map_refl}
use ziti_k8s_agent.Operator.Objects.{Object, service_equal}
use ziti_k8s_agent.Operator.Ensure.{Owning, ensure, set_owner}
use ziti_k8s_agent.Operator.Ensured.{
  OwningLaws, StoreLaws, IsSettling, IsSent, IsSent-Tolerates, Settled-ensure, ensure_settles,
  IsSynced,
}
use ziti_k8s_agent.Operator.Synced.{
  update_object_synced, update_object-IsSettling, update_object_fixed, set_owner_lem,
}
use ziti_k8s_agent.Operator.Router.{ZitiRouter}
use ziti_k8s_agent.Operator.Router.Defaults.{default_labels}
use ziti_k8s_agent.Operator.Router.Desired.{
  config_map_data, desired_config_map, config_map_of, map_result,
}
use ziti_k8s_agent.Operator.Router.Update.{update_config_map}
use ziti_k8s_agent.Operator.Router.Empty.{empty_config_map}
use ziti_k8s_agent.Operator.Router.Reconcile.{RouterApi, settle_config_map}

config_of :
    (r : ZitiRouter) (d : Object GoMap (Unit {0})) (config : Result GoMap)
    → map_result (config_map_of r) config ≡ ok d
    → (c : GoMap) × (config ≡ ok c) × (config_map_of r c ≡ d)
config_of r d (ok c) h = (c, refl, ap (λ x. elim x [ ok y ↦ y | err _ ↦ d | panic ↦ d ]) h)
config_of r d (err e) h = absurd (ground arith)
config_of r d panic h = absurd (ground arith)

module _ (o : Owning) (r : ZitiRouter) (L : OwningLaws o) where
  config_update-IsSettling :
      (config : GoMap) → IsSettling (update_config_map o r (config_map_of r config))
  unfolding update_config_map
  config_update-IsSettling config =
      update_object-IsSettling o L (entries (default_labels r)) same_map (λ _. config)
        (λ _. same_map_refl config)

  fresh_config_map :
      (config : GoMap) (c : Object GoMap (Unit {0}))
      → set_owner o (config_map_of r config) ≡ ok c
      → (update_config_map o r (config_map_of r config) c ≡ ok (c, false))
        × (c.meta.namespace ≡ r.meta.namespace)
        × (c.meta.name ≡ r.spec.name ++ codes "-config")
  unfolding update_config_map
  fresh_config_map config c h =
      let (controlled, labels, namespace, name, spec) =
        set_owner_lem o L (config_map_of r config) c h in
      (
        update_object_synced o L (entries (default_labels r)) same_map (λ _. config) c
            (rw labels (same_map_refl (entries (default_labels r))), controlled)
            (rw spec (same_map_refl config)),
        namespace,
        name,
      )

module _ {W Claims : Type 0} (A : RouterApi W Claims) (r : ZitiRouter)
    (L : OwningLaws (A.owning r)) where
  config_map_step :
      (d : Object GoMap (Unit {0})) (w : W)
      → desired_config_map r ≡ ok d
      → settle_config_map A r w
        ≡ ensure A.config_maps r.meta.namespace
            (r.spec.name ++ codes "-config")
            empty_config_map
            (set_owner (A.owning r) d)
            (update_config_map (A.owning r) r d)
            w
  unfolding settle_config_map
  config_map_step d w e = rw (e, ◌>>=◌) refl

  -- Where the config map that is read is the desired one, settling it changes nothing.
  pub config_map_kept :
      (config : GoMap) (b : Object GoMap (Unit {0})) (w : W)
      → config_map_data r ≡ ok config
      → A.config_maps.get r.meta.namespace (r.spec.name ++ codes "-config") w ≡ (found b, w)
      → same_map b.spec config ≡ true
      → IsSynced (A.owning r) (entries (default_labels r)) b.meta
      → settle_config_map A r w ≡ (ok b, w)
  unfolding desired_config_map update_config_map
  config_map_kept config b w has got right synced =
      config_map_step (config_map_of r config) w (ap (map_result (config_map_of r)) has)
      ∙ Settled-ensure A.config_maps (update_config_map (A.owning r) r (config_map_of r config))
          empty_config_map (set_owner (A.owning r) (config_map_of r config)) r.meta.namespace
          (r.spec.name ++ codes "-config") w
          (
            b,
            got,
            update_object_synced (A.owning r) L (entries (default_labels r)) same_map (λ _. config)
                b synced right,
          )

  -- The map is there as it is desired, and settling it changes nothing.
  abbrev pub ConfigRealized : W → Type 0
  ConfigRealized w' =
      ((config : GoMap) × (b : Object GoMap (Unit {0})) × (config_map_data r ≡ ok config)
        × (A.config_maps.get r.meta.namespace (r.spec.name ++ codes "-config") w' ≡ (found b, w'))
        × (same_map b.spec config ≡ true)
        × IsSynced (A.owning r) (entries (default_labels r)) b.meta
        × (settle_config_map A r w' ≡ (ok b, w')))

  -- Settling the config map of a router, where it succeeds, leaves the map under its name with the
  -- router's configuration for its data, the default labels and the router as its owner; settling
  -- it again gives that object and changes nothing.
  pub config_map_settles :
      StoreLaws A.config_maps IsSent
      → (a : Object GoMap (Unit {0})) (w w' : W) → settle_config_map A r w ≡ (ok a, w')
      → ConfigRealized w'
  unfolding settle_config_map desired_config_map update_config_map
  config_map_settles S a w w' h =
      let o = A.owning r in
      let (d, w₁, made, rest) =
        >>=-eq-ok (lift (desired_config_map r))
          (λ d.
            ensure A.config_maps r.meta.namespace (r.spec.name ++ codes "-config") empty_config_map
              (set_owner o d) (update_config_map o r d))
          w w' a h in
      let (config, has, is_d) = config_of r d (config_map_data r) (ap (λ p. p.0) made) in
      let s =
        ensure_settles A.config_maps IsSent S (update_config_map o r (config_map_of r config))
          (config_update-IsSettling o r L config)
          (IsSent-Tolerates (update_config_map o r (config_map_of r config))) r.meta.namespace
          (r.spec.name ++ codes "-config") empty_config_map (set_owner o (config_map_of r config))
          (fresh_config_map o r L config) a w₁ w' (rw (← is_d) at rest) in
      let (synced, right) =
        update_object_fixed o L (entries (default_labels r)) same_map (λ _. config)
          (λ _. same_map_refl config) s.0 s.2 in
      (config, s.0, has, s.1, right, synced, config_map_kept config s.0 w' has s.1 right synced)
