-- ===== src/Operator/Objects.antt =====
-- The Kubernetes objects that the operator writes, with the fields that it sets or compares, and
-- the instances by which `reflect.DeepEqual` compares their specifications.
use ziti_k8s_agent.Base.{List, Option, Text, ℤ}
use ziti_k8s_agent.Operator.Equal.{
  DeepEqual, GoMap, on_field, no_field, text_equal, bool_equal, int_equal, map_equal, pointer_equal,
  slice_equal,
}

-- `metav1.ObjectMeta`, with the UIDs of the owners, the controlling one first.
pub record Meta : Type 0 where
  pub name : Text
  pub namespace : Text
  pub labels : GoMap
  pub annotations : GoMap
  pub owners : List Text

-- An object with its specification (or data) and what is read of its status.
pub record Object (S St : Type 0) : Type 0 where
  pub meta : Meta
  pub spec : S
  pub status : St

-- `metav1.LabelSelectorRequirement` and `metav1.LabelSelector`
pub record Requirement : Type 0 where
  pub key : Text
  pub operator : Text
  pub values : List Text

pub record LabelSelector : Type 0 where
  pub match_labels : GoMap
  pub match_expressions : List Requirement

-- `corev1.ServicePort`, with a number for its target.
pub record ServicePort : Type 0 where
  pub name : Text
  pub protocol : Text
  pub port : ℤ
  pub target_port : ℤ

-- `corev1.ServiceSpec`
pub record ServiceSpec : Type 0 where
  pub ports : List ServicePort
  pub internal_traffic_policy : Option Text
  pub ip_families : List Text
  pub ip_family_policy : Option Text
  pub selector : GoMap
  pub session_affinity : Text
  pub service_type : Text
  pub cluster_ip : Text
  pub cluster_ips : List Text

instance abbrev pub requirement_equal : DeepEqual Requirement
requirement_equal =
    on_field (λ (x : Requirement). x.key)
      (on_field (λ (x : Requirement). x.operator)
        (on_field (λ (x : Requirement). x.values) (no_field)))

instance abbrev pub selector_equal : DeepEqual LabelSelector
selector_equal =
    on_field (λ (x : LabelSelector). x.match_labels)
      (on_field (λ (x : LabelSelector). x.match_expressions) (no_field))

instance abbrev pub port_equal : DeepEqual ServicePort
port_equal =
    on_field (λ (x : ServicePort). x.name)
      (on_field (λ (x : ServicePort). x.protocol)
        (on_field (λ (x : ServicePort). x.port)
          (on_field (λ (x : ServicePort). x.target_port) (no_field))))

instance abbrev pub service_equal : DeepEqual ServiceSpec
service_equal =
    on_field (λ (x : ServiceSpec). x.ports)
      (on_field (λ (x : ServiceSpec). x.internal_traffic_policy)
        (on_field (λ (x : ServiceSpec). x.ip_families)
          (on_field (λ (x : ServiceSpec). x.ip_family_policy)
            (on_field (λ (x : ServiceSpec). x.selector)
              (on_field (λ (x : ServiceSpec). x.session_affinity)
                (on_field (λ (x : ServiceSpec). x.service_type)
                  (on_field (λ (x : ServiceSpec). x.cluster_ip)
                    (on_field (λ (x : ServiceSpec). x.cluster_ips) (no_field)))))))))
