-- ===== src/Operator/Router/Samples.antt =====
-- A router with its default specification, and a cluster that keeps its objects in memory.
use ziti_k8s_agent.Base.{◌∷◌, refl, ap, List, [], codes, ℤ, true, ok, err}
use ziti_k8s_agent.Operator.Admin.{found}
use ziti_k8s_agent.Operator.Merge.{Fields, no_fields, field, text}
use ziti_k8s_agent.Operator.Equal.{GoMap}
use ziti_k8s_agent.Operator.Objects.{Object, ServiceSpec}
use ziti_k8s_agent.Operator.Sets.{ClaimTemplate, StatefulSetSpec}
use ziti_k8s_agent.Operator.Ensured.{IsSent}
use ziti_k8s_agent.Operator.Router.Services.{IsAssigned}
use ziti_k8s_agent.Operator.Router.SetClaims.{AreRefilled, IsClaimed}
use ziti_k8s_agent.Operator.Memory.{
  memory, memory-StoreLaws, memory-Apart, owned_by, owned_by-OwningLaws,
}
use ziti_k8s_agent.Operator.Router.{ZitiRouter, ZitiRouterSpec}
use ziti_k8s_agent.Operator.Router.Wired.{defaulted}
use ziti_k8s_agent.Operator.Router.Empty.{empty_router}
use ziti_k8s_agent.Operator.Router.Reconcile.{RouterApi}
use ziti_k8s_agent.Operator.Router.Kept.{ConfigLaws, RouterLaws}

-- The objects of three kinds.
pub record Cluster : Type 0 where
  pub maps : List (Object GoMap (Unit {0}))
  pub services : List (Object ServiceSpec (Unit {0}))
  pub sets : List (Object StatefulSetSpec ℤ)

abbrev pub empty_cluster : Cluster
empty_cluster = record { maps = []; services = []; sets = [] }

abbrev pub bare_router : ZitiRouter
bare_router = record empty_router {
  meta = record empty_router.meta { name = codes "router-one"; namespace = codes "ziti" };
}

abbrev pub sample_router : ZitiRouter
sample_router = defaulted bare_router

-- The name among the fields of a specification.
abbrev set_name : Fields → ZitiRouterSpec → ZitiRouterSpec
set_name (field name exported (text t) fs) s = record s { name = t }
set_name fs s = s

-- The cluster IP that a service is assigned.
abbrev pub with_ip : ServiceSpec → ServiceSpec
with_ip s = record s { cluster_ip = codes "10.0.0.1"; cluster_ips = codes "10.0.0.1" ∷ [] }

-- Claims for which nothing is bound yet.
abbrev pub pending_claims : List ClaimTemplate → List ClaimTemplate
pending_claims [] = []
pending_claims (c ∷ claims) = record c { status = codes "Pending" } ∷ pending_claims claims

abbrev pub pending : StatefulSetSpec → StatefulSetSpec
pending s = record s { volume_claim_templates = pending_claims s.volume_claim_templates }

pending-AreRefilled : (claims : List ClaimTemplate) → AreRefilled claims (pending_claims claims)
pending-AreRefilled [] = tt
pending-AreRefilled (c ∷ claims) = (refl, pending-AreRefilled claims)

pending-IsClaimed : (s : StatefulSetSpec) → IsClaimed s (pending s)
pending-IsClaimed s =
    (pending_claims s.volume_claim_templates, pending-AreRefilled s.volume_claim_templates, refl)

-- A cluster in which a router is read.
abbrev pub api_with : ZitiRouter → RouterApi Cluster (Unit {0})
api_with read = record {
  get_router = λ key w. (found read, w);
  not_found_error = codes "not found";
  update_router = λ r w. (ok r, w);
  patch_status = λ old new w. (ok tt, w);
  config_maps =
      memory (λ (w : Cluster). w.maps) (λ objects w. record w { maps = objects }) (λ s. s);
  services =
      memory (λ (w : Cluster). w.services) (λ objects w. record w { services = objects }) with_ip;
  stateful_sets =
      memory (λ (w : Cluster). w.sets) (λ objects w. record w { sets = objects }) pending;
  owning = λ r. owned_by r.meta.name;
  reflection = record {
    fields_of = λ s. field (codes "Name") true (text s.name) no_fields;
    set_fields = set_name;
  };
  jwt = record { parse_unverified = λ token. err (codes "no token"); get_issuer = λ claims. ok [] };
}

abbrev pub sample_router_api : RouterApi Cluster (Unit {0})
sample_router_api = api_with sample_router

pub api_with-ConfigLaws : (read r : ZitiRouter) → ConfigLaws (api_with read) r
api_with-ConfigLaws read r =
    let maps : Cluster → List (Object GoMap (Unit {0})) = λ w. w.maps in
    let services : Cluster → List (Object ServiceSpec (Unit {0})) = λ w. w.services in
    let sets : Cluster → List (Object StatefulSetSpec ℤ) = λ w. w.sets in
    let set_maps : List (Object GoMap (Unit {0})) → Cluster → Cluster =
      λ objects w. record w { maps = objects } in
    let set_services : List (Object ServiceSpec (Unit {0})) → Cluster → Cluster =
      λ objects w. record w { services = objects } in
    let set_sets : List (Object StatefulSetSpec ℤ) → Cluster → Cluster =
      λ objects w. record w { sets = objects } in
    record {
      owning = owned_by-OwningLaws r.meta.name;
      config_maps = memory-StoreLaws maps set_maps (λ s. s) IsSent (λ s. refl) (λ objects w. refl);
      services_read = λ namespace name w. refl;
      sets_read = λ namespace name w. refl;
      maps_services =
          memory-Apart maps set_maps (λ s. s) services set_services with_ip (λ objects w. refl);
      maps_sets = memory-Apart maps set_maps (λ s. s) sets set_sets pending (λ objects w. refl);
      router_reads = λ key w. refl;
      maps_status = λ old new w w' u namespace name f h g. rw (← ap (λ p. p.1) h) g;
    }

pub api_with-RouterLaws : (read r : ZitiRouter) → RouterLaws (api_with read) r
api_with-RouterLaws read r =
    let services : Cluster → List (Object ServiceSpec (Unit {0})) = λ w. w.services in
    let sets : Cluster → List (Object StatefulSetSpec ℤ) = λ w. w.sets in
    let set_services : List (Object ServiceSpec (Unit {0})) → Cluster → Cluster =
      λ objects w. record w { services = objects } in
    let set_sets : List (Object StatefulSetSpec ℤ) → Cluster → Cluster =
      λ objects w. record w { sets = objects } in
    record {
      config = api_with-ConfigLaws read r;
      services =
          memory-StoreLaws services set_services with_ip IsAssigned
            (λ s. (codes "10.0.0.1", codes "10.0.0.1" ∷ [], refl, refl)) (λ objects w. refl);
      stateful_sets =
          memory-StoreLaws sets set_sets pending IsClaimed pending-IsClaimed (λ objects w. refl);
      services_sets =
          memory-Apart services set_services with_ip sets set_sets pending (λ objects w. refl);
      services_status = λ old new w w' u namespace name f h g. rw (← ap (λ p. p.1) h) g;
      sets_status = λ old new w w' u namespace name f h g. rw (← ap (λ p. p.1) h) g;
    }

pub sample-RouterLaws : RouterLaws sample_router_api sample_router
sample-RouterLaws = api_with-RouterLaws sample_router sample_router
