-- ===== src/Operator/Settled.antt =====
-- A merged specification is not changed by a second merge with the same defaults.
use ziti_k8s_agent.Base.{
  ◌≡◌, refl, ap, ◌∙◌, inl, inr, Bool, true, false, arith, Text, if◌then◌else◌, Bool-cases, ok, err,
  panic,
}
use ziti_k8s_agent.Operator.Merge.{
  Value, Fields, no_fields, field, is_zero_value, Merging, onto_fields, merge_value, merge_filled,
  merge_managed, merge_specs, is_managed_field, both_set,
}
use ziti_k8s_agent.Operator.Plain.{Plain, AllPlain, or_changed_ok, onto_fields_ok}
use ziti_k8s_agent.Operator.Settles.{fills, merge_value-Settles}

-- The second half of the merge of a managed field.
merge_filled-again :
    (v d v' : Value) (b₀ b : Bool)
    → Plain v
    → Plain d
    → merge_filled (v, b₀) d ≡ ok (v', b)
    → (is_zero_value v ≡ false → is_zero_value v' ≡ false)
      × (merge_filled (v', false) d ≡ ok (v', false))
merge_filled-again v d v' b₀ b p q h = elim (Bool-cases (both_set v d)) [
  | inl e ↦
      let s = merge_value-Settles 3 in
      let (c, k) = or_changed_ok b₀ b (merge_value 3 v d) v' (rw e at h) in
      let set : is_zero_value v ≡ false = ground arith in
      let set' = s.keeps_set v d v' c p q set k in
      let both : both_set v' d ≡ true = rw set' (ground arith) in
      (λ _. set', rw (both, s.again v d v' c p q k) refl)
  | inr e ↦
      let same : v ≡ v' = ap (λ r. elim r [ ok p ↦ p.0 | err e ↦ v | panic ↦ v ]) (rw e at h) in
      (λ z. rw (← same) z, rw (← same) (rw e refl))
]

merge_managed-again :
    (name : Text) (exported : Bool) (v d v' : Value) (b : Bool)
    → Plain v
    → Plain d
    → merge_managed name exported v d ≡ ok (v', b)
    → merge_managed name exported v' d ≡ ok (v', false)
merge_managed-again name false v d v' b p q h = absurd (ground arith)
merge_managed-again name true v d v' b p q h = elim (Bool-cases (fills v d)) [
  | inl e ↦
      let (sets, again) = merge_filled-again d d v' true b q q (rw e at h) in
      let set : is_zero_value d ≡ false = ground arith in
      let nothing : fills v' d ≡ false = rw (sets set) refl in rw nothing again
  | inr e ↦
      let (sets, again) = merge_filled-again v d v' false b p q (rw e at h) in
      let nothing : fills v' d ≡ false = elim (Bool-cases (is_zero_value v)) [
        | inl z ↦ ground arith
        | inr z ↦ rw (sets z) refl
      ] in
      rw nothing again
]

abbrev merge_one : Text → Bool → Value → Value → Merging Value
merge_one name exported v d =
    if is_managed_field name then merge_managed name exported v d else ok (v, false)

merge_one-again :
    (name : Text) (exported : Bool) (v d v' : Value) (b : Bool)
    → Plain v
    → Plain d
    → merge_one name exported v d ≡ ok (v', b)
    → merge_one name exported v' d ≡ ok (v', false)
merge_one-again name exported v d v' b p q h = elim (Bool-cases (is_managed_field name)) [
  | inl e ↦ rw e (merge_managed-again name exported v d v' b p q (rw e at h))
  | inr e ↦ rw e refl
]

-- Where no integer of the two specifications is negative and none of their slices and maps is empty
-- but not nil, a second merge with the same defaults changes nothing and reports no change.
pub merge_specs_again :
    (current desired out : Fields) (b : Bool)
    → AllPlain current
    → AllPlain desired
    → merge_specs current desired ≡ ok (out, b)
    → merge_specs out desired ≡ ok (out, false)
unfolding merge_specs AllPlain
merge_specs_again no_fields ds out b p q h =
    let same : no_fields ≡ out = ap (λ r. elim r [ ok p ↦ p.0 | err e ↦ out | panic ↦ out ]) h in
    rw (← same) refl
merge_specs_again (field name exported v vs) no_fields out b p q h = absurd (ground arith)
merge_specs_again (field name exported v vs) (field name' exported' d ds) out b (p, ps) (q, qs) h =
    let r = onto_fields_ok name exported b _ _ out h in
    let first = merge_one-again name exported v d r.head r.head_set p q r.head_ok in
    let rest = merge_specs_again vs ds r.tail r.tail_set ps qs r.tail_ok in
    rw (← r.joined) (
      ap (λ m. onto_fields name exported m (merge_specs r.tail ds)) first
      ∙ ap (onto_fields name exported (ok (r.head, false))) rest)
