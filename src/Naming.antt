-- ===== src/Naming.antt =====
-- Names of Ziti identities: `hasContainer`, `filterMapValueListByKey`, `filterMapValueByKey` and
-- `buildZitiIdentityName` of ziti-agent/cmd/webhook/utilities.go, with the label and annotation
-- keys of ziti-agent/cmd/webhook/pods.go.
pub mod Pattern
pub mod Language
pub mod Quotable
pub mod Shape
pub mod Uniqueness
pub mod Finding
pub mod Samples
mod Tests
unfoldable pub use Pattern.{match_name}
use ziti_k8s_agent.Base.{
  ℕ, Bool, true, false, ◌&&◌, not, List, [], ◌∷◌, ◌++◌, Option, none, some, Text, codes, StringMap,
  lookup, has_prefix, is_empty, split, length, take, leb, Result, ok, err, panic, if◌then◌else◌,
}
use ziti_k8s_agent.Kube.{ObjectMeta, Container}

abbrev pub annotation_identity_name : Text
annotation_identity_name = codes "identity.openziti.io/name"

abbrev pub label_app : Text
label_app = codes "app"

abbrev pub label_app_name : Text
label_app_name = codes "app.kubernetes.io/name"

abbrev pub label_app_instance : Text
label_app_instance = codes "app.kubernetes.io/instance"

abbrev pub label_app_component : Text
label_app_component = codes "app.kubernetes.io/component"

-- The pair `(name, true)` is `some name`, and `("", false)` is `none`.
unfoldable pub has_container : List Container → Text → Option Text
has_container [] prefix = none
has_container (container ∷ containers) prefix =
    if has_prefix container.name prefix
    then some container.name
    else has_container containers prefix

-- The test `ok && len(value) > 0` on a value that was looked up.
abbrev pub non_empty : Option Text → Option Text
non_empty none = none
non_empty (some []) = none
non_empty (some (c ∷ s)) = some (c ∷ s)

unfoldable pub filter_map_value_by_key : StringMap → Text → Option Text
filter_map_value_by_key values key = non_empty (lookup key values)

abbrev pub split_value : Option Text → Option (List Text)
split_value none = none
split_value (some value) = some (split b',' value)

unfoldable pub filter_map_value_list_by_key : StringMap → Text → Option (List Text)
filter_map_value_list_by_key values key = split_value (non_empty (lookup key values))

-- The first of two values that is there.
abbrev pub or_next : Option Text → Option Text → Option Text
or_next none next = next
or_next (some v) next = some v

-- The `switch` over the labels in order of precedence.
unfoldable pub label_name : StringMap → Option Text
label_name labels = or_next (non_empty (lookup label_app labels)) (
    or_next (non_empty (lookup label_app_name labels)) (
      or_next (non_empty (lookup label_app_instance labels))
        (non_empty (lookup label_app_component labels))))

abbrev pub missing_name : Text
missing_name = codes "failed to build identity name: no valid name found in annotations or labels"

-- `fmt.Sprintf("%s-%s-%s", prefix, name, podMeta.Namespace)`, cut to 50 bytes.
unfoldable pub base_name : Text → Text → Text → Text
base_name prefix name namespace =
    let full = prefix ++ b'-' ∷ (name ++ b'-' ∷ namespace) in
    if leb (length full) 50 then full else take 50 full

-- The check of the built name against the regular expression.
unfoldable pub validate_name : Text → Result Text
validate_name built =
    if match_name built then ok built else err (codes "invalid identity name format: " ++ built)

-- `uid[0:8]` panics on a shorter text.
unfoldable pub add_hash : Text → Text → Result Text
add_hash base uid = if leb 8 (length uid) then validate_name (base ++ b'-' ∷ take 8 uid) else panic

unfoldable pub build_ziti_identity_name : Text → ObjectMeta → Text → Result Text
build_ziti_identity_name prefix meta uid = elim (label_name meta.labels) [
  | none ↦ err missing_name
  | some name ↦ add_hash (base_name prefix name meta.namespace) uid
]
