-- ===== src/Operator/Plain.antt =====
-- Values whose zero tests agree, and what the parts of a successful merge gave.
use ziti_k8s_agent.Base.{
  ◌≡◌, refl, ap, inl, inr, Bool, true, false, arith, Text, Bool-cases, ok, err, panic,
}
use ziti_k8s_agent.Operator.Merge.{
  Value, pointer, sequence, text, flag, int, uint, struct, Fields, no_fields, field, is_zero_value,
  is_go_zero, Merging, onto_fields, or_changed, to_struct,
}

-- A leaf that counts as zero is the zero value of its type: no integer is negative, and no slice
-- or map is empty but not nil.
abbrev pub PlainLeaf : Value → Type 0
PlainLeaf v = is_zero_value v ≡ true → is_go_zero v ≡ true

unfoldable mutual
  pub Plain : Value → Type 0
  Plain (pointer p) = PlainLeaf (pointer p)
  Plain (sequence items) = PlainLeaf (sequence items)
  Plain (text s) = PlainLeaf (text s)
  Plain (flag b) = PlainLeaf (flag b)
  Plain (int n) = PlainLeaf (int n)
  Plain (uint n) = PlainLeaf (uint n)
  Plain (struct fields) = AllPlain fields

  pub AllPlain : Fields → Type 0
  AllPlain no_fields = Unit
  AllPlain (field name exported v vs) = Plain v × AllPlain vs

zero-Plain : (v : Value) → Plain v → is_zero_value v ≡ true → is_go_zero v ≡ true
unfolding Plain is_zero_value is_go_zero
zero-Plain (pointer p) h = h
zero-Plain (sequence p) h = h
zero-Plain (text p) h = h
zero-Plain (flag p) h = h
zero-Plain (int p) h = h
zero-Plain (uint p) h = h
zero-Plain (struct vs) h = λ e. e

pub nonzero-Plain : (v : Value) → Plain v → is_go_zero v ≡ false → is_zero_value v ≡ false
nonzero-Plain v h e = elim (Bool-cases (is_zero_value v)) [
  | inl z ↦ absurd (ground (arith, zero-Plain v h z))
  | inr z ↦ z
]

pub or_changed_ok :
    (b c : Bool) (m : Merging Value) (v : Value)
    → or_changed b m ≡ ok (v, c)
    → (c' : Bool) × (m ≡ ok (v, c'))
or_changed_ok b c (ok (v', c')) v h =
    (c', ap (λ u. ok (u, c')) (ap (λ r. elim r [ ok p ↦ p.0 | err e ↦ v | panic ↦ v ]) h))
or_changed_ok b c (err e) v h = absurd (ground arith)
or_changed_ok b c panic v h = absurd (ground arith)

-- The fields that a merge of several fields gives.
pub record Split (name : Text) (exported : Bool) (m : Merging Value) (rest : Merging Fields)
    (out : Fields) : Type 0 where
  pub head : Value
  pub head_set : Bool
  pub tail : Fields
  pub tail_set : Bool
  pub head_ok : m ≡ ok (head, head_set)
  pub tail_ok : rest ≡ ok (tail, tail_set)
  pub joined : field name exported head tail ≡ out

pub onto_fields_ok :
    (name : Text) (exported b : Bool) (m : Merging Value) (rest : Merging Fields) (out : Fields)
    → onto_fields name exported m rest ≡ ok (out, b)
    → Split name exported m rest out
onto_fields_ok name exported b (ok (v, c)) (ok (vs, d)) out h = record {
  head = v;
  head_set = c;
  tail = vs;
  tail_set = d;
  head_ok = refl;
  tail_ok = refl;
  joined = ap (λ r. elim r [ ok p ↦ p.0 | err e ↦ out | panic ↦ out ]) h;
}
onto_fields_ok name exported b (ok (v, c)) (err e) out h = absurd (ground arith)
onto_fields_ok name exported b (ok (v, c)) panic out h = absurd (ground arith)
onto_fields_ok name exported b (err e) rest out h = absurd (ground arith)
onto_fields_ok name exported b panic rest out h = absurd (ground arith)

pub to_struct_ok :
    (m : Merging Fields) (v : Value) (b : Bool)
    → to_struct m ≡ ok (v, b)
    → (vs : Fields) × (m ≡ ok (vs, b)) × (struct vs ≡ v)
to_struct_ok (ok (vs, c)) v b h = (
  vs,
  ap (λ u. ok (vs, u)) (ap (λ r. elim r [ ok p ↦ p.1 | err e ↦ b | panic ↦ b ]) h),
  ap (λ r. elim r [ ok p ↦ p.0 | err e ↦ v | panic ↦ v ]) h,
)
to_struct_ok (err e) v b h = absurd (ground arith)
to_struct_ok panic v b h = absurd (ground arith)

pub value_same :
    (v v' : Value) (b : Bool) → ◌≡◌ {A = Merging Value} (ok (v, false)) (ok (v', b)) → v ≡ v'
value_same v v' b h = ap (λ r. elim r [ ok p ↦ p.0 | err e ↦ v | panic ↦ v ]) h
