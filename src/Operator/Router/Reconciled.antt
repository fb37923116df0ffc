-- ===== src/Operator/Router/Reconciled.antt =====
-- A whole run for a router that takes over a controller from its channel: what the configuration in
-- the cluster says then.
use ziti_k8s_agent.Base.{
  ◌≡◌, ap, sym, ◌∙◌, ℕ, true, some, ◌∷◌, ◌++◌, Text, codes, is_empty, contains, Result, ok,
  >>=-eq-ok, ◌>>=◌, lift,
}
use ziti_k8s_agent.Url.{UrlLib, all_digits, strip_brackets}
use ziti_k8s_agent.Operator.{ZitiController}
use ziti_k8s_agent.Operator.Admin.{found}
use ziti_k8s_agent.Operator.Merge.{Fields, merge_specs}
use ziti_k8s_agent.Operator.Adopt.{Inbox, receive, NextRun, controller_mgmt_api}
use ziti_k8s_agent.Operator.Equal.{GoMap, entry_of, same_map_entries}
use ziti_k8s_agent.Operator.Objects.{Object}
use ziti_k8s_agent.Operator.Router.{ZitiRouterSpec, ZitiRouter}
use ziti_k8s_agent.Operator.Router.Defaults.{router_defaults, config_map_key}
use ziti_k8s_agent.Operator.Router.Desired.{config_map_data, first_port}
use ziti_k8s_agent.Operator.Router.Kept.{ConfigLaws}
use ziti_k8s_agent.Operator.Router.Realized.{config_realized}
use ziti_k8s_agent.Operator.Router.Endpoint.{adopted_endpoint, data_text}
use ziti_k8s_agent.Operator.Router.Reconcile.{
  RouterApi, adopt, settle_router, after_adopt, after_merge, reconcile_router, fetched_router,
  router_reconcile,
}

module _ {W Claims : Type 0} (A : RouterApi W Claims) (U : UrlLib) where
  -- A run that takes over a controller ends with the run over the objects.
  adopted_run :
      (key : Text) (r : ZitiRouter) (adopted : Result ZitiRouterSpec) (n : NextRun) (w w' : W)
      → after_adopt A U key r adopted w ≡ (ok n, w')
      → (s : ZitiRouterSpec) × (r' : ZitiRouter) × (w₁ : W) × (adopted ≡ ok s)
        × (A.update_router (record r { spec = s }) w ≡ (ok r', w₁))
        × (settle_router A key r' w₁ ≡ (ok n, w'))
  adopted_run key r adopted n w w' h =
      let (s, w₀, took, rest) =
        >>=-eq-ok (lift adopted)
          (λ s. A.update_router (record r { spec = s }) >>= settle_router A key) w w' n h in
      let (r', w₁, sent, done) =
        >>=-eq-ok (A.update_router (record r { spec = s })) (settle_router A key) w₀ w' n rest in
      let world : w ≡ w₀ = ap (λ p. p.1) took in
      (s, r', w₁, ap (λ p. p.0) took, rw world sent, done)

-- The server answers an update with the specification and the namespace that it was sent.
pub record UpdateLaws {W Claims : Type 0} (A : RouterApi W Claims) : Type 0 where
  pub answers :
      (x r' : ZitiRouter) (w w' : W)
      → A.update_router x w ≡ (ok r', w')
      → (r'.spec ≡ x.spec) × (r'.meta.namespace ≡ x.meta.namespace)

module _ {W Claims : Type 0} (A : RouterApi W Claims) (U : UrlLib) where
  -- The configuration in the cluster, under a name, names an endpoint.
  abbrev pub Configured : Text → Text → Text → W → Type 0
  Configured namespace name endpoint w =
      ((b : Object GoMap (Unit {0})) × (text : Text) × (A.config_maps.get namespace
            (name ++ codes "-config") w
          ≡ (found b, w))
        × (entry_of b.spec config_map_key ≡ some text)
        × (contains text (codes "  endpoint: " ++ endpoint) ≡ true))

  Configured-run :
      (key : Text) (r : ZitiRouter) (n : NextRun) (w w' : W)
      → ConfigLaws A r
      → settle_router A key r w ≡ (ok n, w')
      → Configured r.meta.namespace r.spec.name r.spec.ctrl_endpoint w'
  unfolding config_map_data
  Configured-run key r n w w' L h =
      let (config, b, has, got, right, synced, _) = config_realized A r L key n w w' h in
      let (text, entry, inside) =
        data_text r config (first_port r.spec.deployment.container.ports) has in
      (b, text, got, same_map_entries b.spec config right config_map_key ∙ entry, inside)

  -- What a run does with a router whose specification is completed.
  completed_run :
      (key : Text) (r : ZitiRouter) (inbox inbox' : Inbox) (merged : Fields) (n : NextRun)
      → (w w₀ w' : W) → A.get_router key w ≡ (found r, w₀)
      → merge_specs (A.reflection.fields_of r.spec) (A.reflection.fields_of (router_defaults r))
        ≡ ok (merged, true)
      → router_reconcile A U key inbox w ≡ (ok n, inbox', w')
      → (receive inbox ≡ inbox')
        × (after_adopt A U key r
              (adopt A U (receive inbox).cached (A.reflection.set_fields merged r.spec))
              w₀
            ≡ (ok n, w'))
  unfolding router_reconcile reconcile_router
  completed_run key r inbox inbox' merged n w w₀ w' got completed h =
      let same =
        sym (
          ap (λ p. fetched_router A U key inbox p.0 p.1) got
          ∙ ap (λ m. after_merge A U key r inbox m w₀) completed)
        ∙ h in
      (ap (λ p. p.1) same, λ i. ((same i).0, (same i).2))

  -- At a server that keeps a config map as it is sent, whatever else is written, and that answers
  -- an update of a router with the specification that it is sent: for a router whose specification
  -- is completed with its defaults, that has no endpoint, and a controller in the channel, or else
  -- kept from an earlier run, whose management URL has a name and a port, a run that succeeds
  -- leaves a config map under the router's name whose configuration has the endpoint tls with that
  -- name and that port, and keeps the controller.
  pub controller_adopted :
      UpdateLaws A
      → ((x : ZitiRouter) → ConfigLaws A x)
      → (key : Text) (r : ZitiRouter) (c : ZitiController) (inbox inbox' : Inbox) (merged : Fields)
      → (url : Text) (p : U.Url) (host : Text) (d : ℕ) (port : Text) (n : NextRun) (w w₀ w' : W)
      → A.get_router key w ≡ (found r, w₀)
      → merge_specs (A.reflection.fields_of r.spec) (A.reflection.fields_of (router_defaults r))
        ≡ ok (merged, true)
      → is_empty (A.reflection.set_fields merged r.spec).ctrl_endpoint ≡ true
      → (receive inbox).cached ≡ some c
      → controller_mgmt_api A.jwt c ≡ ok url
      → U.parse url ≡ ok p
      → U.host p ≡ host ++ b':' ∷ d ∷ port
      → all_digits (d ∷ port) ≡ true
      → router_reconcile A U key inbox w ≡ (ok n, inbox', w')
      → (inbox'.cached ≡ some c)
        × Configured r.meta.namespace
            (A.reflection.set_fields merged r.spec).name
            (codes "tls:" ++ (strip_brackets host ++ b':' ∷ d ∷ port))
            w'
  controller_adopted u L key r c inbox inbox' merged url p host d port n w w₀ w' got completed empty
        cached api parsed has digits h =
      let (kept, run) = completed_run key r inbox inbox' merged n w w₀ w' got completed h in
      let s₀ = A.reflection.set_fields merged r.spec in
      let (s, r', w₁, took, sent, settled) =
        adopted_run A U key r (adopt A U (receive inbox).cached s₀) n w₀ w' run in
      let (same_spec, same_namespace) = u.answers (record r { spec = s }) r' w₀ w₁ sent in
      let (_, _, endpoint, name) =
        adopted_endpoint A U c s₀ s url p host d port api parsed has digits empty
          (sym (ap (λ o. adopt A U o s₀) cached) ∙ took) in
      let configured = Configured-run key r' n w₁ w' (L r') settled in
      (
        ap (λ (i : Inbox). i.cached) (sym kept) ∙ cached,
        rw (← same_namespace, ← name, ← endpoint, ← same_spec) configured,
      )
