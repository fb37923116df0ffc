-- ===== src/Operator/Router/Wired.antt =====
-- How the objects of a router fit together, and how they fit what the agent does with its pods.
use ziti_k8s_agent.Base.{
  ◌≡◌, refl, ap, sym, ◌∙◌, arith, true, false, ℕ, zero, suc, inl, inr, Bool-cases, Option, none,
  some, List, [], ◌∷◌, ◌++◌, Text, codes, text_eq, text_eq→eq, StringMap, lookup, ℤ, pos,
  format_int, map, append_assoc, if◌then◌else◌, Result, ok, err, panic, contains, get_elem?,
}
use ziti_k8s_agent.Kube.{EnvVar, Container}
use ziti_k8s_agent.Handler.{JsonPatchEntry, PatchValue}
use ziti_k8s_agent.Handler.Router.{router_patch}
use ziti_k8s_agent.Handler.Delete.{router_name_of}
use ziti_k8s_agent.Operator.Equal.{GoMap, entry_of}
use ziti_k8s_agent.Operator.Objects.{Object, ServiceSpec, ServicePort}
use ziti_k8s_agent.Operator.Pods.{EnvEntry, PodContainer, Mount, ContainerPort}
use ziti_k8s_agent.Operator.Merge.{filter_labels, copy_label}
use ziti_k8s_agent.Operator.Router.{ZitiRouter}
use ziti_k8s_agent.Operator.Router.Defaults.{
  default_container, default_labels, default_deployment, default_selector, router_defaults,
  config_map_key, service_port,
}
use ziti_k8s_agent.Operator.Router.ConfigText.{config_text, edge_address}
use ziti_k8s_agent.Operator.Router.ConfigLines.{advertised_at}
use ziti_k8s_agent.Operator.Router.Desired.{
  config_map_data, desired_config_map, desired_service, desired_stateful_set, router_claim,
  stateful_set_spec,
}

abbrev pub one_later : Option ℕ → Option ℕ
one_later none = none
one_later (some i) = some (suc i)

abbrev pub out_of : {A : Type 0} → A → Result A → A
out_of a (ok b) = b
out_of a (err e) = a
out_of a panic = a

-- The position of the variable with a name.
abbrev pub position_of : Text → List EnvEntry → Option ℕ
position_of name [] = none
position_of name (e ∷ env) =
    if text_eq e.name name then some 0 else one_later (position_of name env)

-- The patch entry that sets the value of a variable of the first container.
abbrev pub set_variable : ℕ → Text → JsonPatchEntry
set_variable i value = record {
  op = codes "replace";
  path = codes "/spec/containers/0/env/" ++ (format_int (pos i) ++ codes "/value");
  value = PatchValue.text value;
}

-- The environment after it.
abbrev pub set_value : ℕ → Text → List EnvVar → List EnvVar
set_value i value [] = []
set_value zero value (v ∷ env) = record v { value = value } ∷ env
set_value (suc i) value (v ∷ env) = v ∷ set_value i value env

-- The container as the API server shows it to the agent.
abbrev pub shown : PodContainer → (List EnvVar → List EnvVar) → Container
shown c change = record {
  name = c.name;
  image = c.image;
  image_pull_policy = c.image_pull_policy;
  args = c.args;
  env = change (map (λ (e : EnvEntry). record { name = e.name; value = e.value }) c.env);
  volume_mounts =
      map (λ (m : Mount). record { name = m.name; mount_path = m.mount_path; read_only = false })
        c.volume_mounts;
  security_context = none;
  resources = record { requests = []; limits = [] };
}

-- The agent's patch for a router sets the two variables of the operator's default container that are
-- named for the token and for the identity, whatever the router; and for the pod so patched the
-- agent reads the name that it gave where the pod is deleted.
pub router_patch_variables :
    (r : ZitiRouter) (name token : Text)
    → (i : ℕ) × (j : ℕ) × (position_of (codes "ZITI_ENROLL_TOKEN") (default_container r).env
        ≡ some i)
      × (position_of (codes "ZITI_ROUTER_IDENTITY_NAME") (default_container r).env ≡ some j)
      × (router_patch name token ≡ set_variable i token ∷ set_variable j name ∷ [])
      × (router_name_of
            (shown (default_container r) (λ env. set_value j name (set_value i token env)) ∷ [])
          ≡ ok name)
unfolding default_container router_name_of format_int
router_patch_variables r name token = (0, 7, refl, refl, refl, refl)

pub got : {A : Type 0} (r : Result A) (a : A) (h : r ≡ ok a) → out_of a r ≡ a
got r a h = ap (out_of a) h

-- A label that the filter keeps is one of the labels.
copied :
    (m rest : StringMap) (key k v : Text) (o : Option Text)
    → lookup key m ≡ o
    → (lookup k rest ≡ some v → lookup k m ≡ some v)
    → lookup k (copy_label key o rest) ≡ some v
    → lookup k m ≡ some v
copied m rest key k v none e kept h = kept h
copied m rest key k v (some x) e kept h = elim (Bool-cases (text_eq key k)) [
  | inl same ↦ rw (← text_eq→eq key k same) (e ∙ (rw same at h))
  | inr other ↦ kept (rw other at h)
]

pub lookup-filter_labels :
    (m : StringMap) (k v : Text) → lookup k (filter_labels m) ≡ some v → lookup k m ≡ some v
unfolding filter_labels
lookup-filter_labels m k v h =
    copied m (copy_label (codes "app") (lookup (codes "app") m) []) (codes "app.kubernetes.io/name")
      k v (lookup (codes "app.kubernetes.io/name") m) refl
      (copied m [] (codes "app") k v (lookup (codes "app") m) refl
        (λ absent. absurd (ground arith)))
      h

-- A router with its default specification.
abbrev pub defaulted : ZitiRouter → ZitiRouter
defaulted r = record r { spec = router_defaults r }

abbrev config_mount : Mount
config_mount = record {
  name = codes "ziti-router-config";
  mount_path = codes "/etc/ziti/config/" ++ config_map_key;
  sub_path = config_map_key;
}

-- The second mount of the container is the text of the configuration, which is in the config map
-- under the mounted path of the volume, at the file that the container's arguments name.
abbrev pub IsMounted : ZitiRouter → Object GoMap (Unit {0}) → Type 0
IsMounted r c =
    (m : Mount) × (get_elem? (default_container r).volume_mounts 1 ≡ some m)
    × (get_elem? (default_container r).args 1 ≡ some m.mount_path)
    × (entry_of c.spec m.sub_path ≡ some (config_text (defaulted r) (pos 9443)))

-- The configuration advertises the service, at the port that it has.
abbrev pub IsAdvertised :
    ZitiRouter → Object GoMap (Unit {0}) → Object ServiceSpec (Unit {0}) → Type 0
IsAdvertised r c v =
    (text : Text) × (port : ℤ) × (entry_of c.spec config_map_key ≡ some text)
    × (map (λ (p : ServicePort). p.port) v.spec.ports ≡ port ∷ [])
    × (contains text (
          codes "      advertise: "
          ++ ((v.meta.name ++ b'.' ∷ (v.meta.namespace ++ codes ".svc.cluster.local"))
              ++ b':' ∷ format_int port))
        ≡ true)

-- The objects of a router with the default specification fit together.
abbrev pub RouterFits :
    ZitiRouter → Object GoMap (Unit {0}) → Object ServiceSpec (Unit {0}) → Type 0
RouterFits r c v =
    (((key value : Text)
        → entry_of v.spec.selector key ≡ some value
        → entry_of (desired_stateful_set (defaulted r)).spec.template.labels key ≡ some value)
      × ((desired_stateful_set (defaulted r)).spec.selector ≡ some (default_selector r))
      × ((default_selector r).match_labels ≡ v.spec.selector)
      × (map (λ (p : ServicePort). p.target_port) v.spec.ports
          ≡ map (λ (p : ContainerPort). p.container_port) (default_container r).ports)
      × ((desired_stateful_set (defaulted r)).spec.service_name ≡ v.meta.name)
      × (edge_address (defaulted r)
          ≡ v.meta.name ++ b'.' ∷ (v.meta.namespace ++ codes ".svc.cluster.local"))
      × ((defaulted r).spec.deployment.volumes
          ≡ record {
            name = (router_claim (defaulted r)).name;
            claim = some (router_claim (defaulted r)).name;
            config_map = none;
          }
            ∷ record {
              name = codes "ziti-router-config";
              claim = none;
              config_map = some (record { name = c.meta.name; default_mode = some (pos 292) });
            }
            ∷ [])
      × (entry_of c.spec config_map_key ≡ some (config_text (defaulted r) (pos 9443)))
      × ((desired_stateful_set (defaulted r)).spec.template.pod.containers
          ≡ default_container r ∷ [])
      × (map (λ (m : Mount). m.name) (default_container r).volume_mounts
          ≡ (router_claim (defaulted r)).name ∷ codes "ziti-router-config" ∷ [])
      × IsMounted r c
      × IsAdvertised r c v)

-- The objects that are desired for a router with the default specification fit together: its pods
-- carry all labels that the service and the stateful set select by; the service leads to the port
-- of the container, and the stateful set is governed by it; the configuration in the config map
-- advertises the name of the service in its namespace, at the service's port; the volume of the
-- configuration is the config map, and the container, which is the one of the stateful set, mounts
-- the configuration in it at the file that its arguments name; the volume of the identity has the
-- name of the claim.
pub router_wired :
    (r : ZitiRouter) (c : Object GoMap (Unit {0})) (v : Object ServiceSpec (Unit {0}))
    → desired_config_map (defaulted r) ≡ ok c
    → desired_service (defaulted r) ≡ ok v
    → RouterFits r c v
unfolding desired_config_map config_map_data desired_service desired_stateful_set stateful_set_spec
    router_claim router_defaults default_deployment default_selector default_container edge_address
router_wired r c v hc hv =
    let is_c = got (desired_config_map (defaulted r)) c hc in
    let is_v = got (desired_service (defaulted r)) v hv in
    (
      λ key value h. lookup-filter_labels (default_labels r) key value (rw (← is_v) at h),
      refl,
      rw (← is_v) refl,
      rw (← is_v) refl,
      rw (← is_v) refl,
      rw (← is_v) (sym (append_assoc r.meta.name (codes "-service") _)),
      rw (← is_c) refl,
      rw (← is_c) refl,
      refl,
      refl,
      (config_mount, refl, refl, rw (← is_c) refl),
      (
        config_text (defaulted r) (pos 9443),
        service_port,
        rw (← is_c) refl,
        rw (← is_v) refl,
        rw (← is_v)
            (advertised_at (defaulted r) _ (sym (append_assoc r.meta.name (codes "-service") _))),
      ),
    )
