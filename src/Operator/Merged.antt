-- ===== src/Operator/Merged.antt =====
-- What `MergeSpecs` keeps and reports.
use ziti_k8s_agent.Base.{
  ℕ, zero, suc, ◌≡◌, refl, ap, ◌∙◌, ◌≢◌, inl, inr, Bool, true, false, not, ◌&&◌, ◌||◌, arith, Text,
  if◌then◌else◌, Bool-cases, and_parts, ok, err, panic,
}
use ziti_k8s_agent.Operator.Merge.{
  Value, pointer, sequence, text, flag, int, uint, struct, Fields, no_fields, field, is_zero_value,
  Merging, onto_fields, or_changed, to_struct, merge_field, merge_fields, merge_value,
  merge_managed, merge_specs, is_managed_field, both_set,
}

-- What a merge may do to a value: leave it, fill it where it is zero, or do so inside a struct.
mutual
  pub data Extends : Value → Value → Type 0 where
    same : {v : Value} → Extends v v
    fill : {v v' : Value} → is_zero_value v ≡ true → Extends v v'
    inside : {vs vs' : Fields} → ExtendsAll vs vs' → Extends (struct vs) (struct vs')

  pub data ExtendsAll : Fields → Fields → Type 0 where
    end : ExtendsAll no_fields no_fields
    each :
        {name : Text} {exported : Bool} {v v' : Value} {vs vs' : Fields}
        → Extends v v'
        → ExtendsAll vs vs'
        → ExtendsAll (field name exported v vs) (field name exported v' vs')

-- A merge of a value that gives no error, reports each change, and only fills.
abbrev IsSound : Value → Merging Value → Type 0
IsSound v (ok (v', b)) = (b ≡ false → v' ≡ v) × Extends v v'
IsSound v (err e) = ⊥
IsSound v panic = Unit

abbrev AllSound : Fields → Merging Fields → Type 0
AllSound vs (ok (vs', b)) = (b ≡ false → vs' ≡ vs) × ExtendsAll vs vs'
AllSound vs (err e) = ⊥
AllSound vs panic = Unit

or_false : (a b : Bool) → (a || b) ≡ false → (a ≡ false) × (b ≡ false)
or_false false b h = (refl, h)
or_false true b h = absurd (ground arith)

onto_fields-AllSound :
    (name : Text) (exported : Bool) (v : Value) (vs : Fields) (m : Merging Value)
    (rest : Merging Fields)
    → IsSound v m
    → AllSound vs rest
    → AllSound (field name exported v vs) (onto_fields name exported m rest)
onto_fields-AllSound name exported v vs (ok (v', b)) (ok (vs', c)) (h, x) (k, y) = (
  λ e.
      let (eb, ec) = or_false b c e in
      ap (λ x. field name exported x vs') (h eb) ∙ ap (λ xs. field name exported v xs) (k ec),
  each x y,
)
onto_fields-AllSound name exported v vs (ok p) (err e) h k = k
onto_fields-AllSound name exported v vs (ok p) panic h k = tt
onto_fields-AllSound name exported v vs (err e) rest h k = h
onto_fields-AllSound name exported v vs panic rest h k = tt

-- After a fill, what is done further is still a fill.
or_changed-filled :
    (v d : Value) (m : Merging Value)
    → is_zero_value v ≡ true
    → IsSound d m
    → IsSound v (or_changed true m)
or_changed-filled v d (ok (v'', c)) z k = (λ e. absurd (ground arith), fill z)
or_changed-filled v d (err e) z k = k
or_changed-filled v d panic z k = tt

or_changed-kept : (v : Value) (m : Merging Value) → IsSound v m → IsSound v (or_changed false m)
or_changed-kept v (ok (v', c)) k = k
or_changed-kept v (err e) k = k
or_changed-kept v panic k = tt

filled-zero :
    (v d : Value) → (is_zero_value v && not (is_zero_value d)) ≡ true → is_zero_value v ≡ true
filled-zero v d e = (and_parts (is_zero_value v) (not (is_zero_value d)) e).0

merge_field-IsSound :
    (deeper : Value → Value → Merging Value) (exported : Bool) (v d : Value)
    → ((v d : Value) → IsSound v (deeper v d))
    → IsSound v (merge_field deeper exported v d)
merge_field-IsSound deeper false v d h = tt
merge_field-IsSound deeper true v d h =
    elim (Bool-cases (is_zero_value v && not (is_zero_value d))) [
      | inl e ↦ rw e (or_changed-filled v d (deeper d d) (filled-zero v d e) (h d d))
      | inr e ↦ rw e (or_changed-kept v (deeper v d) (h v d))
    ]

merge_fields-AllSound :
    (deeper : Value → Value → Merging Value) (vs ds : Fields)
    → ((v d : Value) → IsSound v (deeper v d))
    → AllSound vs (merge_fields deeper vs ds)
unfolding merge_fields
merge_fields-AllSound deeper no_fields ds h = (λ e. refl, end)
merge_fields-AllSound deeper (field name exported v vs) no_fields h = tt
merge_fields-AllSound deeper (field name exported v vs) (field name' exported' d ds) h =
    onto_fields-AllSound name exported v vs _ _ (merge_field-IsSound deeper exported v d h)
      (merge_fields-AllSound deeper vs ds h)

to_struct-IsSound :
    (vs : Fields) (m : Merging Fields) → AllSound vs m → IsSound (struct vs) (to_struct m)
to_struct-IsSound vs (ok (vs', b)) (h, x) = (λ e. ap struct (h e), inside x)
to_struct-IsSound vs (err e) h = h
to_struct-IsSound vs panic h = tt

merge_value-IsSound : (n : ℕ) (v d : Value) → IsSound v (merge_value n v d)
unfolding merge_value
merge_value-IsSound zero v d = (λ e. refl, same)
merge_value-IsSound (suc n) (struct vs) (struct ds) =
    to_struct-IsSound vs _ (merge_fields-AllSound (merge_value n) vs ds (merge_value-IsSound n))
merge_value-IsSound (suc n) (struct vs) (pointer p) = tt
merge_value-IsSound (suc n) (struct vs) (sequence p) = tt
merge_value-IsSound (suc n) (struct vs) (text p) = tt
merge_value-IsSound (suc n) (struct vs) (flag p) = tt
merge_value-IsSound (suc n) (struct vs) (int p) = tt
merge_value-IsSound (suc n) (struct vs) (uint p) = tt
merge_value-IsSound (suc n) (pointer p) d = (λ e. refl, same)
merge_value-IsSound (suc n) (sequence p) d = (λ e. refl, same)
merge_value-IsSound (suc n) (text p) d = (λ e. refl, same)
merge_value-IsSound (suc n) (flag p) d = (λ e. refl, same)
merge_value-IsSound (suc n) (int p) d = (λ e. refl, same)
merge_value-IsSound (suc n) (uint p) d = (λ e. refl, same)

merge_managed-IsSound :
    (name : Text) (exported : Bool) (v d : Value) → IsSound v (merge_managed name exported v d)
merge_managed-IsSound name false v d = tt
merge_managed-IsSound name true v d = elim (Bool-cases (is_zero_value v && not (is_zero_value d))) [
  | inl e ↦ rw e (elim (Bool-cases (both_set d d)) [
    | inl f ↦
        rw f (
          or_changed-filled v d (merge_value 3 d d) (filled-zero v d e) (merge_value-IsSound 3 d d))
    | inr f ↦ rw f (λ e. absurd (ground arith), fill (filled-zero v d e))
  ])
  | inr e ↦ rw e (elim (Bool-cases (both_set v d)) [
    | inl f ↦ rw f (or_changed-kept v (merge_value 3 v d) (merge_value-IsSound 3 v d))
    | inr f ↦ rw f (λ e. refl, same)
  ])
]

merge_specs-AllSound : (vs ds : Fields) → AllSound vs (merge_specs vs ds)
unfolding merge_specs
merge_specs-AllSound no_fields ds = (λ e. refl, end)
merge_specs-AllSound (field name exported v vs) no_fields = tt
merge_specs-AllSound (field name exported v vs) (field name' exported' d ds) =
    onto_fields-AllSound name exported v vs _ _ managed (merge_specs-AllSound vs ds)
  where
    managed :
        IsSound v (if is_managed_field name then merge_managed name exported v d else ok (v, false))
    managed = elim (Bool-cases (is_managed_field name)) [
      | inl m ↦ rw m (merge_managed-IsSound name exported v d)
      | inr m ↦ rw m (λ e. refl, same)
    ]

-- A merge that does not report a change leaves the specification as it was; and whatever it reports,
-- it only fills values that count as zero, at the top or inside of structs, and keeps all others.
pub merge_specs_fills :
    (current desired out : Fields) (b : Bool)
    → merge_specs current desired ≡ ok (out, b)
    → (b ≡ false → out ≡ current) × ExtendsAll current out
merge_specs_fills current desired out b h = rw h at (merge_specs-AllSound current desired)

-- The error that `MergeSpecs` can return is never returned.
pub merge_specs-ne-err : (current desired : Fields) (e : Text) → merge_specs current desired ≢ err e
merge_specs-ne-err current desired e h = rw h at (merge_specs-AllSound current desired)
