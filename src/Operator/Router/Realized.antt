-- ===== src/Operator/Router/Realized.antt =====
-- A whole run over the objects of a router, and the run after it.
use ziti_k8s_agent.Base.{◌≡◌, Text, ok, >>=-eq-ok, ◌>>=◌}
use ziti_k8s_agent.Operator.Equal.{GoMap, entries}
use ziti_k8s_agent.Operator.Objects.{Object, ServiceSpec}
use ziti_k8s_agent.Operator.Adopt.{NextRun}
use ziti_k8s_agent.Operator.Router.{ZitiRouter}
use ziti_k8s_agent.Operator.Router.Defaults.{default_labels}
use ziti_k8s_agent.Operator.Router.Reconcile.{
  RouterApi, settle_config_map, settle_service, settle_stateful_set, settle_router, update_status,
}
use ziti_k8s_agent.Operator.Router.ConfigMaps.{ConfigRealized, config_map_settles}
use ziti_k8s_agent.Operator.Router.Services.{ServiceRealized}
use ziti_k8s_agent.Operator.Router.Kept.{ConfigLaws, RouterLaws, config_lasts}
use ziti_k8s_agent.Operator.Router.SetSettled.{SetObject}
use ziti_k8s_agent.Operator.Router.StatefulSets.{SetRealized}

-- The steps of a run that succeeds.
abbrev Steps :
    {W Claims : Type 0} → RouterApi W Claims → ZitiRouter → Text → NextRun → W → W → Type 0
Steps {W} A r key n w w' =
    (c : Object GoMap (Unit {0})) × (v : Object ServiceSpec (Unit {0})) × (s : SetObject) × (w₁ : W)
    × (w₂ : W) × (w₃ : W) × (settle_config_map A r w ≡ (ok c, w₁))
    × (settle_service A r w₁ ≡ (ok v, w₂))
    × (settle_stateful_set A r w₂ ≡ (ok s, w₃))
    × (update_status A key s w₃ ≡ (ok n, w'))

Steps-of :
    {W Claims : Type 0} (A : RouterApi W Claims) (r : ZitiRouter) (key : Text) (n : NextRun)
    → (w w' : W) → settle_router A key r w ≡ (ok n, w')
    → Steps A r key n w w'
unfolding settle_router
Steps-of A r key n w w' h =
    let (c, w₁, h₁, rest₁) =
      >>=-eq-ok (settle_config_map A r)
        (λ _. settle_service A r >>= λ _. settle_stateful_set A r >>= λ s. update_status A key s) w
        w' n h in
    let (v, w₂, h₂, rest₂) =
      >>=-eq-ok (settle_service A r) (λ _. settle_stateful_set A r >>= λ s. update_status A key s)
        w₁ w' n rest₁ in
    let (s, w₃, h₃, h₄) =
      >>=-eq-ok (settle_stateful_set A r) (λ s. update_status A key s) w₂ w' n rest₂ in
    (c, v, s, w₁, w₂, w₃, h₁, h₂, h₃, h₄)

module _ {W Claims : Type 0} (A : RouterApi W Claims) (r : ZitiRouter) (L : ConfigLaws A r) where
  -- A run that succeeds leaves the config map as it is desired.
  pub config_realized :
      (key : Text) (n : NextRun) (w w' : W)
      → settle_router A key r w ≡ (ok n, w')
      → ConfigRealized A r L.owning w'
  config_realized key n w w' h =
      let (c, v, s, w₁, w₂, w₃, h₁, h₂, h₃, h₄) = Steps-of A r key n w w' h in
      config_lasts A r L v s n key w₁ w₂ w₃ w' h₂ h₃ h₄
        (config_map_settles A r L.owning L.config_maps c w w₁ h₁)

module _ {W Claims : Type 0} (A : RouterApi W Claims) (r : ZitiRouter) (L : RouterLaws A r)
    (labelled : r.spec.deployment.labels ≡ entries (default_labels r)) where
  -- The three objects are there as they are desired, and a run writes none of them.
  abbrev pub RouterRealized : Text → W → Type 0
  RouterRealized key w' =
      (ConfigRealized A r L.config.owning w'
        × ServiceRealized A r L.config.owning w'
        × (x : SetRealized A r L.config.owning labelled w') × (settle_router A key r w'
            ≡ update_status A key x.0 w'))
