-- ===== src/Operator/Router/Reconcile.antt =====
-- `ZitiRouterReconciler.Reconcile`. The Kubernetes client, the owner references, the JWT parser, URLs
-- and Go's reflection are parameters. An error of the first `r.Get` other than NotFound is ignored.
use ziti_k8s_agent.Base.{
  false, true, Option, none, some, [], ◌∷◌, ◌++◌, Text, codes, is_empty, ℤ, if◌then◌else◌, Result,
  ok, err, panic, Action, ◌>>=◌, pure, fail, lift,
}
use ziti_k8s_agent.Url.{UrlLib, get_host_and_port}
use ziti_k8s_agent.Operator.{ZitiController}
use ziti_k8s_agent.Operator.Admin.{Fetch, found, not_found, failed}
use ziti_k8s_agent.Operator.Merge.{Fields, Merging, merge_specs}
use ziti_k8s_agent.Operator.Equal.{GoMap}
use ziti_k8s_agent.Operator.Objects.{Object, ServiceSpec}
use ziti_k8s_agent.Operator.Sets.{StatefulSetSpec}
use ziti_k8s_agent.Operator.Ensure.{Owning, Store, ensure, set_owner}
use ziti_k8s_agent.Operator.Adopt.{
  JwtLib, Reflection, Inbox, receive, controller_mgmt_api, NextRun, no_run, after_30_s,
}
use ziti_k8s_agent.Operator.Router.{ZitiRouterSpec, ZitiRouter}
use ziti_k8s_agent.Operator.Router.Defaults.{router_defaults}
use ziti_k8s_agent.Operator.Router.Empty.{
  empty_router, empty_config_map, empty_service, empty_stateful_set,
}
use ziti_k8s_agent.Operator.Router.Desired.{
  desired_config_map, desired_service, desired_stateful_set,
}
use ziti_k8s_agent.Operator.Router.Update.{update_config_map, update_service, update_stateful_set}

pub record RouterApi (W Claims : Type 0) : Type 0 where
  pub get_router : Text → W → Fetch ZitiRouter × W
  -- The error of `r.Get` for an object that is not there.
  pub not_found_error : Text
  -- The object as the server answers it.
  pub update_router : ZitiRouter → Action W ZitiRouter
  pub patch_status : ZitiRouter → ZitiRouter → Action W (Unit {0})
  pub config_maps : Store W (Object GoMap (Unit {0}))
  pub services : Store W (Object ServiceSpec (Unit {0}))
  pub stateful_sets : Store W (Object StatefulSetSpec ℤ)
  pub owning : ZitiRouter → Owning
  pub reflection : Reflection ZitiRouterSpec
  pub jwt : JwtLib Claims

-- `"tls:" + host + ":" + port`; both are empty where the URL cannot be parsed.
abbrev pub tls_endpoint : Result (Text × Text) → Result Text
tls_endpoint (ok (host, port)) = ok (codes "tls:" ++ (host ++ b':' ∷ port))
tls_endpoint (err e) = ok (codes "tls:" ++ b':' ∷ [])
tls_endpoint panic = panic

abbrev pub set_endpoint : ZitiRouterSpec → Result Text → Result ZitiRouterSpec
set_endpoint s (ok endpoint) = ok (record s { ctrl_endpoint = endpoint })
set_endpoint s (err e) = err e
set_endpoint s panic = panic

module _ {W Claims : Type 0} (A : RouterApi W Claims) where
  -- The status is patched with the ready replicas of the stateful set as it was read.
  abbrev pub status_fetched : Object StatefulSetSpec ℤ → Fetch ZitiRouter → Action W NextRun
  status_fetched s (found r) =
      A.patch_status r (record r { status = s.status }) >>= λ _. pure after_30_s
  status_fetched s not_found = fail A.not_found_error
  status_fetched s (failed e) = fail e

  unfoldable pub update_status : Text → Object StatefulSetSpec ℤ → Action W NextRun
  update_status key s w = let (f, w') = A.get_router key w in status_fetched s f w'

  unfoldable pub settle_config_map : ZitiRouter → Action W (Object GoMap (Unit {0}))
  unfolding desired_config_map ensure set_owner update_config_map
  settle_config_map r = lift (desired_config_map r) >>= λ d.
      ensure A.config_maps r.meta.namespace (r.spec.name ++ codes "-config") empty_config_map
        (set_owner (A.owning r) d) (update_config_map (A.owning r) r d)

  unfoldable pub settle_service : ZitiRouter → Action W (Object ServiceSpec (Unit {0}))
  unfolding desired_service ensure set_owner update_service
  settle_service r = lift (desired_service r) >>= λ d.
      ensure A.services r.meta.namespace (r.spec.name ++ codes "-service") empty_service
        (set_owner (A.owning r) d) (update_service (A.owning r) r d)

  unfoldable pub settle_stateful_set : ZitiRouter → Action W (Object StatefulSetSpec ℤ)
  unfolding desired_stateful_set ensure set_owner update_stateful_set
  settle_stateful_set r =
      ensure A.stateful_sets r.meta.namespace (r.spec.name ++ codes "-statefulset")
        empty_stateful_set (set_owner (A.owning r) (desired_stateful_set r))
        (update_stateful_set (A.owning r) r (desired_stateful_set r))

  unfoldable pub settle_router : Text → ZitiRouter → Action W NextRun
  unfolding settle_config_map settle_service settle_stateful_set update_status
  settle_router key r = settle_config_map r >>= λ _.
      settle_service r >>= λ _. settle_stateful_set r >>= λ s. update_status key s

module _ {W Claims : Type 0} (A : RouterApi W Claims) (U : UrlLib) where
  abbrev pub adopt_url : ZitiController → ZitiRouterSpec → Result Text → Result ZitiRouterSpec
  adopt_url c s (ok url) =
      let t : ZitiRouterSpec = record s {
        ziti_controller_name = c.spec.name;
        ziti_ctrl_mgmt_api = url;
      } in
      if is_empty s.ctrl_endpoint
      then set_endpoint t (tls_endpoint (get_host_and_port U url))
      else ok t
  adopt_url c s (err e) = err e
  adopt_url c s panic = panic

  -- The controller's name, its management URL, and the endpoint of routers where none is set.
  unfoldable pub adopt : Option ZitiController → ZitiRouterSpec → Result ZitiRouterSpec
  unfolding controller_mgmt_api get_host_and_port
  adopt none s = ok s
  adopt (some c) s = adopt_url c s (controller_mgmt_api A.jwt c)

  abbrev pub after_adopt : Text → ZitiRouter → Result ZitiRouterSpec → Action W NextRun
  after_adopt key r adopted =
      lift adopted >>= λ s. A.update_router (record r { spec = s }) >>= settle_router A key

  -- What follows `MergeSpecs`: only where it has changed something is the channel read.
  abbrev pub after_merge :
      Text → ZitiRouter → Inbox → Merging Fields → W → Result NextRun × Inbox × W
  after_merge key r inbox (ok (merged, true)) w =
      let inbox' = receive inbox in
      let (res, w') =
        after_adopt key r (adopt inbox'.cached (A.reflection.set_fields merged r.spec)) w in
      (res, inbox', w')
  after_merge key r inbox (ok (merged, false)) w =
      let (res, w') = settle_router A key r w in (res, inbox, w')
  after_merge key r inbox (err e) w = (err e, inbox, w)
  after_merge key r inbox panic w = (panic, inbox, w)

  unfoldable pub reconcile_router : Text → ZitiRouter → Inbox → W → Result NextRun × Inbox × W
  unfolding router_defaults merge_specs adopt receive settle_router
  reconcile_router key r inbox w =
      after_merge key r inbox
        (merge_specs (A.reflection.fields_of r.spec) (A.reflection.fields_of (router_defaults r))) w

  abbrev pub fetched_router : Text → Inbox → Fetch ZitiRouter → W → Result NextRun × Inbox × W
  fetched_router key inbox not_found w = (ok no_run, inbox, w)
  fetched_router key inbox (found r) w = reconcile_router key r inbox w
  fetched_router key inbox (failed e) w = reconcile_router key empty_router inbox w

  unfoldable pub router_reconcile : Text → Inbox → W → Result NextRun × Inbox × W
  unfolding reconcile_router
  router_reconcile key inbox w = let (f, w') = A.get_router key w in fetched_router key inbox f w'
