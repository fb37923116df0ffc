-- ===== src/Operator/Merge.antt =====
-- `MergeSpecs` of ziti-agent/operator/internal/utils/common.go, with `IsManagedField` and
-- `IsZeroValue`, on the values that it reads by reflection. The two specifications have one type, so
-- their fields match by position; where they do not, Go's reflection panics.
use ziti_k8s_agent.Base.{
  ◌==◌, StringMap, lookup, ℕ, zero, suc, Bool, true, false, not, ◌&&◌, ◌||◌, Option, none, some,
  List, [], ◌∷◌, Text, codes, text_eq, is_empty, if◌then◌else◌, Result, ok, err, panic, ℤ, pos,
  negsuc, is_zero,
}

-- The kinds of values that the specifications hold. None holds a float, a complex number, a channel
-- or an interface, so these cases of `IsZeroValue` are left out. A pointer, and a slice or a map, is
-- nil or has something that is not looked into.
mutual
  pub data Value : Type 0 where
    pointer : Option ℕ → Value
    sequence : Option (List ℕ) → Value
    text : Text → Value
    flag : Bool → Value
    int : ℤ → Value
    uint : ℕ → Value
    struct : Fields → Value

  -- The fields of a struct in order: the name, whether it is exported, and the value.
  pub data Fields : Type 0 where
    no_fields : Fields
    field : Text → Bool → Value → Fields → Fields

abbrev pub is_negative : ℤ → Bool
is_negative (pos n) = false
is_negative (negsuc n) = true

-- Equality with the zero value of the type.
unfoldable mutual
  pub is_go_zero : Value → Bool
  is_go_zero (pointer none) = true
  is_go_zero (pointer (some p)) = false
  is_go_zero (sequence none) = true
  is_go_zero (sequence (some items)) = false
  is_go_zero (text s) = is_empty s
  is_go_zero (flag b) = not b
  is_go_zero (int n) = is_zero n
  is_go_zero (uint n) = n == 0
  is_go_zero (struct fields) = all_go_zero fields

  pub all_go_zero : Fields → Bool
  all_go_zero no_fields = true
  all_go_zero (field name exported v fields) = is_go_zero v && all_go_zero fields

abbrev pub no_items : Option (List ℕ) → Bool
no_items none = true
no_items (some []) = true
no_items (some (_ ∷ _)) = false

-- `IsZeroValue`: an integer counts as zero if it is negative.
unfoldable pub is_zero_value : Value → Bool
unfolding is_go_zero all_go_zero
is_zero_value (pointer none) = true
is_zero_value (pointer (some p)) = false
is_zero_value (sequence items) = no_items items
is_zero_value (text s) = is_empty s
is_zero_value (flag b) = not b
is_zero_value (int n) = is_negative n
is_zero_value (uint n) = n == 0
is_zero_value (struct fields) = all_go_zero fields

abbrev pub managed_names : List Text
managed_names =
    codes "Name"
    ∷ codes "ZitiControllerName"
    ∷ codes "Cert"
    ∷ codes "DeploymentSpec"
    ∷ codes "MutatingWebhookSpec"
    ∷ codes "ClusterRoleSpec"
    ∷ codes "ServiceAccount"
    ∷ codes "Revision"
    ∷ codes "ZitiCtrlMgmtApi"
    ∷ codes "Model"
    ∷ codes "Config"
    ∷ codes "Deployment"
    ∷ []

abbrev pub member : Text → List Text → Bool
member name [] = false
member name (n ∷ names) = text_eq name n || member name names

unfoldable pub is_managed_field : Text → Bool
is_managed_field name = member name managed_names

-- A value with the flag that says that something was set.
abbrev pub Merging : Type 0 → Type 0
Merging A = Result (A × Bool)

-- What a field holds after the first `if`, which sets it only where it is zero and the other is not.
abbrev pub filled : Value → Value → Value × Bool
filled v d = if is_zero_value v && not (is_zero_value d) then (d, true) else (v, false)

-- A field in front of the merged rest.
abbrev pub onto_fields : Text → Bool → Merging Value → Merging Fields → Merging Fields
onto_fields name exported (ok (v, b)) (ok (fields, c)) = ok (field name exported v fields, b || c)
onto_fields name exported (ok p) (err e) = err e
onto_fields name exported (ok p) panic = panic
onto_fields name exported (err e) rest = err e
onto_fields name exported panic rest = panic

abbrev pub or_changed : Bool → Merging Value → Merging Value
or_changed b (ok (v, c)) = ok (v, b || c)
or_changed b (err e) = err e
or_changed b panic = panic

-- A field of a struct below the top: `Interface` panics on one that is not exported.
abbrev pub merge_field : (Value → Value → Merging Value) → Bool → Value → Value → Merging Value
merge_field deeper false v d = panic
merge_field deeper true v d = let (v', b) = filled v d in or_changed b (deeper v' d)

-- A loop over the fields of two structs.
unfoldable pub merge_fields : (Value → Value → Merging Value) → Fields → Fields → Merging Fields
unfolding is_zero_value
merge_fields deeper no_fields ds = ok (no_fields, false)
merge_fields deeper (field name exported v vs) no_fields = panic
merge_fields deeper (field name exported v vs) (field name' exported' d ds) =
    onto_fields name exported (merge_field deeper exported v d) (merge_fields deeper vs ds)

abbrev pub to_struct : Merging Fields → Merging Value
to_struct (ok (fields, b)) = ok (struct fields, b)
to_struct (err e) = err e
to_struct panic = panic

-- The nested loops, as many as are left.
unfoldable pub merge_value : ℕ → Value → Value → Merging Value
merge_value zero v d = ok (v, false)
merge_value (suc n) (struct vs) (struct ds) = to_struct (merge_fields (merge_value n) vs ds)
merge_value (suc n) (struct vs) d = panic
merge_value (suc n) v d = ok (v, false)

abbrev pub both_set : Value → Value → Bool
both_set v d = not (is_zero_value v) && not (is_zero_value d)

-- A managed field of the specification: it is set, and its own fields are merged, three loops deep,
-- where both sides are not zero.
abbrev pub merge_filled : Value × Bool → Value → Merging Value
merge_filled (v, b) d = if both_set v d then or_changed b (merge_value 3 v d) else ok (v, b)

abbrev pub merge_managed : Text → Bool → Value → Value → Merging Value
merge_managed name false v d = panic
merge_managed name true v d = merge_filled (filled v d) d

unfoldable pub merge_specs : Fields → Fields → Merging Fields
unfolding merge_value merge_fields is_managed_field is_zero_value
merge_specs no_fields ds = ok (no_fields, false)
merge_specs (field name exported v vs) no_fields = panic
merge_specs (field name exported v vs) (field name' exported' d ds) =
    onto_fields name exported
      (if is_managed_field name then merge_managed name exported v d else ok (v, false))
      (merge_specs vs ds)

-- `FilterLabels`
abbrev pub copy_label : Text → Option Text → StringMap → StringMap
copy_label key none filtered = filtered
copy_label key (some v) filtered = (key, v) ∷ filtered

unfoldable pub filter_labels : StringMap → StringMap
filter_labels labels =
    copy_label (codes "app.kubernetes.io/name") (lookup (codes "app.kubernetes.io/name") labels)
      (copy_label (codes "app") (lookup (codes "app") labels) [])
