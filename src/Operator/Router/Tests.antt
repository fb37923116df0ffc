-- ===== src/Operator/Router/Tests.antt =====
-- Tests of the router's reconciler.
use ziti_k8s_agent.Base.{
  ◌≡◌, refl, ap, sym, true, false, some, none, [], ◌∷◌, Text, codes, ℕ, ℤ, pos, ok,
}
use ziti_k8s_agent.Url.{strip_brackets}
use ziti_k8s_agent.Url.Samples.{sample_urls}
use ziti_k8s_agent.Handler.Router.{router_patch}
use ziti_k8s_agent.Handler.Delete.{router_name_of}
use ziti_k8s_agent.Operator.{ZitiController}
use ziti_k8s_agent.Operator.Equal.{GoMap, entries, same_map}
use ziti_k8s_agent.Operator.Objects.{Object, ServiceSpec}
use ziti_k8s_agent.Operator.Sets.{StatefulSetSpec}
use ziti_k8s_agent.Operator.Memory.{owned_by, owned_by-OwningLaws}
use ziti_k8s_agent.Operator.Adopt.{Inbox, receive, after_30_s, controller_mgmt_api}
use ziti_k8s_agent.Operator.Router.{ZitiRouter}
use ziti_k8s_agent.Operator.Router.Defaults.{
  default_labels, default_container, router_defaults, config_map_key,
}
use ziti_k8s_agent.Operator.Router.Desired.{
  desired_config_map, desired_service, desired_stateful_set, config_map_of, service_of,
}
use ziti_k8s_agent.Operator.Router.ConfigText.{config_text}
use ziti_k8s_agent.Operator.Router.Update.{update_stateful_set}
use ziti_k8s_agent.Operator.Router.Reconcile.{settle_router, settle_stateful_set, router_reconcile}
use ziti_k8s_agent.Operator.Router.Relabelled.{stateful_set_relabelled}
use ziti_k8s_agent.Operator.Router.Wired.{
  RouterFits, router_wired, position_of, set_variable, set_value, shown, router_patch_variables,
  got,
}
use ziti_k8s_agent.Operator.Merge.{Fields, no_fields, field, text, merge_specs}
use ziti_k8s_agent.Operator.Router.Reconciled.{UpdateLaws, Configured, controller_adopted}
use ziti_k8s_agent.Operator.Router.Samples.{
  Cluster, empty_cluster, bare_router, sample_router, sample_router_api, api_with,
  api_with-ConfigLaws,
}

abbrev api_key : Text
api_key = codes "router-one"

-- The cluster after the first run.
abbrev settled_cluster : Cluster
settled_cluster = (settle_router sample_router_api api_key sample_router empty_cluster).1

abbrev set_cluster : Cluster
set_cluster = (settle_stateful_set sample_router_api sample_router empty_cluster).1

router_patch_variables_example :
    (i : ℕ) × (j : ℕ) × (position_of (codes "ZITI_ENROLL_TOKEN") (default_container bare_router).env
      ≡ some i)
    × (position_of (codes "ZITI_ROUTER_IDENTITY_NAME") (default_container bare_router).env ≡ some j)
    × (router_patch (codes "r1") (codes "jwt")
        ≡ set_variable i (codes "jwt") ∷ set_variable j (codes "r1") ∷ [])
    × (router_name_of (
          shown
            (default_container bare_router)
            (λ env. set_value j (codes "r1") (set_value i (codes "jwt") env))
          ∷ [])
        ≡ ok (codes "r1"))
router_patch_variables_example = router_patch_variables bare_router (codes "r1") (codes "jwt")

abbrev sample_config : GoMap
sample_config = entries ((config_map_key, config_text sample_router (pos 9443)) ∷ [])

abbrev sample_service : Object ServiceSpec (Unit {0})
sample_service =
    service_of sample_router
      (record { name = codes "edge"; container_port = pos 9443; protocol = codes "TCP" })

sample_config_map :
    desired_config_map sample_router ≡ ok (config_map_of sample_router sample_config)
unfolding desired_config_map router_defaults
sample_config_map = refl

sample_service_lem : desired_service sample_router ≡ ok sample_service
unfolding desired_service router_defaults
sample_service_lem = refl

router_wired_example :
    RouterFits bare_router (config_map_of sample_router sample_config) sample_service
router_wired_example =
    router_wired bare_router (config_map_of sample_router sample_config) sample_service
      sample_config_map sample_service_lem

-- A router with labels of its own.
abbrev own_labels : GoMap
own_labels = entries ((codes "app", codes "mine") ∷ [])

abbrev labelled_router : ZitiRouter
labelled_router = record sample_router {
  spec = record sample_router.spec {
    deployment = record sample_router.spec.deployment { labels = own_labels };
  };
}

-- The set of the router as it was before.
abbrev older_set : Object StatefulSetSpec ℤ
older_set = record (desired_stateful_set labelled_router) {
  meta = record (desired_stateful_set labelled_router).meta {
    labels = entries ((codes "app", codes "older") ∷ []);
    owners = codes "router-one" ∷ [];
  };
}

abbrev relabelled_set : Object StatefulSetSpec ℤ
relabelled_set = record older_set {
  meta = record older_set.meta { labels = entries (default_labels labelled_router) };
}

stateful_set_relabelled_example :
    (true ≡ true)
    × (relabelled_set.meta.labels ≡ entries (default_labels labelled_router))
    × (same_map relabelled_set.meta.labels own_labels ≡ false)
unfolding default_labels update_stateful_set desired_stateful_set router_defaults
stateful_set_relabelled_example =
    stateful_set_relabelled (owned_by (codes "router-one"))
      (owned_by-OwningLaws (codes "router-one")) labelled_router older_set relabelled_set true refl
      refl refl

abbrev sample_controller : ZitiController
sample_controller = record {
  name = codes "ctrl";
  namespace = codes "ziti";
  spec = record {
    name = codes "controller1";
    admin_jwt = [];
    ziti_ctrl_mgmt_api = codes "https://ctrl:1280/edge/management/v1";
  };
}

-- A router without a name, with a controller in the channel.
abbrev unnamed_router : ZitiRouter
unnamed_router = record sample_router { spec = record sample_router.spec { name = [] } }

abbrev full_inbox : Inbox
full_inbox = record { chan = sample_controller ∷ []; cached = none }

abbrev read_inbox : Inbox
read_inbox = record { chan = []; cached = some sample_controller }

abbrev named_fields : Fields
named_fields = field (codes "Name") true (text (codes "router-one")) no_fields

abbrev adopted_cluster : Cluster
adopted_cluster =
    (router_reconcile (api_with unnamed_router) sample_urls api_key full_inbox empty_cluster).2

adoption :
    router_reconcile (api_with unnamed_router) sample_urls api_key full_inbox empty_cluster
    ≡ (ok after_30_s, read_inbox, adopted_cluster)
unfolding router_reconcile router_defaults
adoption = refl

completion :
    merge_specs
      (field (codes "Name") true (text []) no_fields)
      (field (codes "Name") true (text (router_defaults unnamed_router).name) no_fields)
    ≡ ok (named_fields, true)
unfolding merge_specs router_defaults
completion = refl

update_answered : UpdateLaws (api_with unnamed_router)
update_answered = record {
  answers = λ x r' w w' h.
      let same : x ≡ r' = got (ok x) r' (ap (λ p. p.0) h) in
      (
        ap (λ (z : ZitiRouter). z.spec) (sym same),
        ap (λ (z : ZitiRouter). z.meta.namespace) (sym same),
      );
}

controller_adopted_example :
    (read_inbox.cached ≡ some sample_controller)
    × Configured
        (api_with unnamed_router)
        sample_urls
        (codes "ziti")
        (codes "router-one")
        (codes "tls:ctrl:1280")
        adopted_cluster
unfolding router_defaults receive controller_mgmt_api strip_brackets
controller_adopted_example =
    controller_adopted (api_with unnamed_router) sample_urls update_answered
      (api_with-ConfigLaws unnamed_router) api_key unnamed_router sample_controller full_inbox
      read_inbox named_fields (codes "https://ctrl:1280/edge/management/v1")
      (codes "ctrl:1280", codes "/edge/management/v1") (codes "ctrl") b'1' (codes "280") after_30_s
      empty_cluster empty_cluster adopted_cluster refl completion refl refl refl refl refl refl
      adoption
