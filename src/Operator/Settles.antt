-- ===== src/Operator/Settles.antt =====
-- A merged value is not changed by a second merge.
use ziti_k8s_agent.Base.{
  ℕ, zero, suc, ◌≡◌, refl, ap, ◌∙◌, inl, inr, Bool, true, false, not, ◌&&◌, arith, Bool-cases, ok,
  err, panic,
}
use ziti_k8s_agent.Operator.Merge.{
  Value, pointer, sequence, text, flag, int, uint, struct, Fields, no_fields, field, is_zero_value,
  is_go_zero, all_go_zero, Merging, onto_fields, to_struct, merge_field, merge_fields, merge_value,
}
use ziti_k8s_agent.Operator.Plain.{
  Plain, AllPlain, nonzero-Plain, or_changed_ok, onto_fields_ok, to_struct_ok, value_same,
}

-- What the induction needs of the merge of one value: a second merge changes nothing, and what was
-- set stays set.
pub record Settles (deeper : Value → Value → Merging Value) : Type 0 where
  pub again :
      (v d v' : Value) (b : Bool)
      → Plain v
      → Plain d
      → deeper v d ≡ ok (v', b)
      → deeper v' d ≡ ok (v', false)
  pub keeps :
      (v d v' : Value) (b : Bool)
      → Plain v
      → Plain d
      → is_go_zero v ≡ false
      → deeper v d ≡ ok (v', b)
      → is_go_zero v' ≡ false
  pub keeps_set :
      (v d v' : Value) (b : Bool)
      → Plain v
      → Plain d
      → is_zero_value v ≡ false
      → deeper v d ≡ ok (v', b)
      → is_zero_value v' ≡ false

abbrev pub fills : Value → Value → Bool
fills v d = is_zero_value v && not (is_zero_value d)

-- Nothing is filled a second time.
settled :
    (deeper : Value → Value → Merging Value) (v d v' : Value) (b : Bool)
    → Settles deeper
    → Plain v
    → Plain d
    → fills v d ≡ false
    → deeper v d ≡ ok (v', b)
    → fills v' d ≡ false
settled deeper v d v' b s p q e h = elim (Bool-cases (is_zero_value v)) [
  | inl z ↦ ground arith
  | inr z ↦ rw (s.keeps_set v d v' b p q z h) refl
]

module _ (deeper : Value → Value → Merging Value) (s : Settles deeper) where
  merge_field-again :
      (exported : Bool) (v d v' : Value) (b : Bool)
      → Plain v
      → Plain d
      → merge_field deeper exported v d ≡ ok (v', b)
      → merge_field deeper exported v' d ≡ ok (v', false)
  merge_field-again false v d v' b p q h = absurd (ground arith)
  merge_field-again true v d v' b p q h = elim (Bool-cases (fills v d)) [
    | inl e ↦
        let (c, k) = or_changed_ok true b (deeper d d) v' (rw e at h) in
        let set : is_zero_value d ≡ false = ground arith in
        let nothing : fills v' d ≡ false = rw (s.keeps_set d d v' c q q set k) refl in
        rw (nothing, s.again d d v' c q q k) refl
    | inr e ↦
        let (c, k) = or_changed_ok false b (deeper v d) v' (rw e at h) in
        rw (settled deeper v d v' c s p q e k, s.again v d v' c p q k) refl
  ]

  merge_field-keeps :
      (exported : Bool) (v d v' : Value) (b : Bool)
      → Plain v
      → Plain d
      → is_go_zero v ≡ false
      → merge_field deeper exported v d ≡ ok (v', b)
      → is_go_zero v' ≡ false
  merge_field-keeps false v d v' b p q z h = absurd (ground arith)
  merge_field-keeps true v d v' b p q z h =
      let set = nonzero-Plain v p z in
      let (c, k) = or_changed_ok false b (deeper v d) v' (rw set at h) in s.keeps v d v' c p q z k

  merge_fields-again :
      (vs ds out : Fields) (b : Bool)
      → AllPlain vs
      → AllPlain ds
      → merge_fields deeper vs ds ≡ ok (out, b)
      → merge_fields deeper out ds ≡ ok (out, false)
  unfolding merge_fields AllPlain
  merge_fields-again no_fields ds out b p q h =
      let same : no_fields ≡ out = ap (λ r. elim r [ ok p ↦ p.0 | err e ↦ out | panic ↦ out ]) h in
      rw (← same) refl
  merge_fields-again (field name exported v vs) no_fields out b p q h = absurd (ground arith)
  merge_fields-again (field name exported v vs) (field name' exported' d ds) out b (p, ps) (q, qs)
        h =
      let r = onto_fields_ok name exported b _ _ out h in
      let first = merge_field-again exported v d r.head r.head_set p q r.head_ok in
      let rest = merge_fields-again vs ds r.tail r.tail_set ps qs r.tail_ok in
      rw (← r.joined) (
        ap (λ m. onto_fields name exported m (merge_fields deeper r.tail ds)) first
        ∙ ap (onto_fields name exported (ok (r.head, false))) rest)

  merge_fields-keeps :
      (vs ds out : Fields) (b : Bool)
      → AllPlain vs
      → AllPlain ds
      → all_go_zero vs ≡ false
      → merge_fields deeper vs ds ≡ ok (out, b)
      → all_go_zero out ≡ false
  unfolding merge_fields AllPlain all_go_zero
  merge_fields-keeps no_fields ds out b p q z h = absurd (ground arith)
  merge_fields-keeps (field name exported v vs) no_fields out b p q z h = absurd (ground arith)
  merge_fields-keeps (field name exported v vs) (field name' exported' d ds) out b (p, ps) (q, qs) z
        h =
      let r = onto_fields_ok name exported b _ _ out h in
      elim (Bool-cases (is_go_zero v)) [
        | inl e ↦
            let rest = merge_fields-keeps vs ds r.tail r.tail_set ps qs (rw e at z) r.tail_ok in
            rw (← r.joined, rest) (ground arith)
        | inr e ↦
            let first = merge_field-keeps exported v d r.head r.head_set p q e r.head_ok in
            rw (← r.joined, first) refl
      ]

-- A merge that cannot go deeper gives the value back.
module _ (n : ℕ) (s : Settles (merge_value n)) where
  value-again :
      (v d v' : Value) (b : Bool)
      → Plain v
      → Plain d
      → merge_value (suc n) v d ≡ ok (v', b)
      → merge_value (suc n) v' d ≡ ok (v', false)
  unfolding merge_value Plain
  value-again (pointer x) d v' b p q h =
      let same = value_same (pointer x) v' b h in rw (← same) refl
  value-again (sequence x) d v' b p q h =
      let same = value_same (sequence x) v' b h in rw (← same) refl
  value-again (text x) d v' b p q h = let same = value_same (text x) v' b h in rw (← same) refl
  value-again (flag x) d v' b p q h = let same = value_same (flag x) v' b h in rw (← same) refl
  value-again (int x) d v' b p q h = let same = value_same (int x) v' b h in rw (← same) refl
  value-again (uint x) d v' b p q h = let same = value_same (uint x) v' b h in rw (← same) refl
  value-again (struct vs) (pointer x) v' b p q h = absurd (ground arith)
  value-again (struct vs) (sequence x) v' b p q h = absurd (ground arith)
  value-again (struct vs) (text x) v' b p q h = absurd (ground arith)
  value-again (struct vs) (flag x) v' b p q h = absurd (ground arith)
  value-again (struct vs) (int x) v' b p q h = absurd (ground arith)
  value-again (struct vs) (uint x) v' b p q h = absurd (ground arith)
  value-again (struct vs) (struct ds) v' b p q h =
      let (out, k, e) = to_struct_ok (merge_fields (merge_value n) vs ds) v' b h in
      rw (← e) (ap to_struct (merge_fields-again (merge_value n) s vs ds out b p q k))

  value-keeps :
      (v d v' : Value) (b : Bool)
      → Plain v
      → Plain d
      → is_go_zero v ≡ false
      → merge_value (suc n) v d ≡ ok (v', b)
      → is_go_zero v' ≡ false
  unfolding merge_value Plain is_go_zero
  value-keeps (pointer x) d v' b p q z h = let same = value_same (pointer x) v' b h in rw (← same) z
  value-keeps (sequence x) d v' b p q z h =
      let same = value_same (sequence x) v' b h in rw (← same) z
  value-keeps (text x) d v' b p q z h = let same = value_same (text x) v' b h in rw (← same) z
  value-keeps (flag x) d v' b p q z h = let same = value_same (flag x) v' b h in rw (← same) z
  value-keeps (int x) d v' b p q z h = let same = value_same (int x) v' b h in rw (← same) z
  value-keeps (uint x) d v' b p q z h = let same = value_same (uint x) v' b h in rw (← same) z
  value-keeps (struct vs) (pointer x) v' b p q z h = absurd (ground arith)
  value-keeps (struct vs) (sequence x) v' b p q z h = absurd (ground arith)
  value-keeps (struct vs) (text x) v' b p q z h = absurd (ground arith)
  value-keeps (struct vs) (flag x) v' b p q z h = absurd (ground arith)
  value-keeps (struct vs) (int x) v' b p q z h = absurd (ground arith)
  value-keeps (struct vs) (uint x) v' b p q z h = absurd (ground arith)
  value-keeps (struct vs) (struct ds) v' b p q z h =
      let (out, k, e) = to_struct_ok (merge_fields (merge_value n) vs ds) v' b h in
      rw (← e) (merge_fields-keeps (merge_value n) s vs ds out b p q z k)

  value-keeps_set :
      (v d v' : Value) (b : Bool)
      → Plain v
      → Plain d
      → is_zero_value v ≡ false
      → merge_value (suc n) v d ≡ ok (v', b)
      → is_zero_value v' ≡ false
  unfolding merge_value Plain is_zero_value
  value-keeps_set (pointer x) d v' b p q z h =
      let same = value_same (pointer x) v' b h in rw (← same) z
  value-keeps_set (sequence x) d v' b p q z h =
      let same = value_same (sequence x) v' b h in rw (← same) z
  value-keeps_set (text x) d v' b p q z h = let same = value_same (text x) v' b h in rw (← same) z
  value-keeps_set (flag x) d v' b p q z h = let same = value_same (flag x) v' b h in rw (← same) z
  value-keeps_set (int x) d v' b p q z h = let same = value_same (int x) v' b h in rw (← same) z
  value-keeps_set (uint x) d v' b p q z h = let same = value_same (uint x) v' b h in rw (← same) z
  value-keeps_set (struct vs) (pointer x) v' b p q z h = absurd (ground arith)
  value-keeps_set (struct vs) (sequence x) v' b p q z h = absurd (ground arith)
  value-keeps_set (struct vs) (text x) v' b p q z h = absurd (ground arith)
  value-keeps_set (struct vs) (flag x) v' b p q z h = absurd (ground arith)
  value-keeps_set (struct vs) (int x) v' b p q z h = absurd (ground arith)
  value-keeps_set (struct vs) (uint x) v' b p q z h = absurd (ground arith)
  value-keeps_set (struct vs) (struct ds) v' b p q z h =
      let (out, k, e) = to_struct_ok (merge_fields (merge_value n) vs ds) v' b h in
      rw (← e) (merge_fields-keeps (merge_value n) s vs ds out b p q z k)

pub merge_value-Settles : (n : ℕ) → Settles (merge_value n)
unfolding merge_value
merge_value-Settles zero = record {
  again = λ v d v' b p q h. rw (← value_same v v' b h) refl;
  keeps = λ v d v' b p q z h. rw (← value_same v v' b h) z;
  keeps_set = λ v d v' b p q z h. rw (← value_same v v' b h) z;
}
merge_value-Settles (suc n) = record {
  again = value-again n (merge_value-Settles n);
  keeps = value-keeps n (merge_value-Settles n);
  keeps_set = value-keeps_set n (merge_value-Settles n);
}
