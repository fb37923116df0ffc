-- ===== src/Edge/Targets.antt =====
-- The identity that a lookup by name settles on, in a consistent list.
use ziti_k8s_agent.Base.{
  true, false, List, [], ◌∷◌, Text, text_eq, text_eq_iff, text_eq_refl, text_eq_comm, ◌≡◌, refl, ap,
  sym, ◌∙◌, arith, Bool-cases, inl, inr, is_empty,
}
use ziti_k8s_agent.Edge.{IdentityDetail}
use ziti_k8s_agent.Edge.Identities.{last_id}
use ziti_k8s_agent.Edge.Lawful.{
  named, without_name, without_id, give_roles, set_roles_of_id, set_roles_of_name, LacksId,
  LacksName, IsConsistent,
}

pub without_id_absent :
    (id : Text) (is : List IdentityDetail) → LacksId id is → without_id id is ≡ is
without_id_absent id [] _ = refl
without_id_absent id (i ∷ is) (h, hs) = rw h (ap (λ r. i ∷ r) (without_id_absent id is hs))

pub without_name_absent :
    (name : Text) (is : List IdentityDetail) → LacksName name is → without_name name is ≡ is
without_name_absent name [] _ = refl
without_name_absent name (i ∷ is) (h, hs) = rw h (ap (λ r. i ∷ r) (without_name_absent name is hs))

named_absent : (name : Text) (is : List IdentityDetail) → LacksName name is → named name is ≡ []
named_absent name [] _ = refl
named_absent name (i ∷ is) (h, hs) = rw h (named_absent name is hs)

pub roles_absent_id :
    (id : Text) (roles : List Text) (is : List IdentityDetail)
    → LacksId id is
    → set_roles_of_id id roles is ≡ is
roles_absent_id id roles [] _ = refl
roles_absent_id id roles (i ∷ is) (h, hs) = rw h (ap (λ r. i ∷ r) (roles_absent_id id roles is hs))

pub roles_absent_name :
    (name : Text) (roles : List Text) (is : List IdentityDetail)
    → LacksName name is
    → set_roles_of_name name roles is ≡ is
roles_absent_name name roles [] _ = refl
roles_absent_name name roles (i ∷ is) (h, hs) =
    rw h (ap (λ r. i ∷ r) (roles_absent_name name roles is hs))

-- The last identifier among the named identities is no identifier that all of them lack.
last_id_differs :
    (k name d : Text) (is : List IdentityDetail)
    → LacksId k is
    → text_eq d k ≡ false
    → text_eq (last_id d (named name is)) k ≡ false
last_id_differs k name d [] _ h = h
last_id_differs k name d (i ∷ is) (j, js) h = elim (Bool-cases (text_eq i.name name)) [
  | inl same ↦ rw same (last_id_differs k name i.id is js j)
  | inr other ↦ rw other (last_id_differs k name d is js h)
]

-- What the loop over the listed identities picks, where names are not shared.
abbrev pub target : Text → List IdentityDetail → Text
target name is = last_id [] (named name is)

target_here :
    (name : Text) (i : IdentityDetail) (is : List IdentityDetail)
    → text_eq i.name name ≡ true
    → LacksName i.name is
    → (target name (i ∷ is) ≡ i.id) × LacksName name is
target_here name i is same h =
    let lacks = rw ((text_eq_iff i.name name).0 same) at h in
    (rw same (ap (last_id i.id) (named_absent name is lacks)), lacks)

target_later :
    (name : Text) (i : IdentityDetail) (is : List IdentityDetail)
    → is_empty i.id ≡ false
    → LacksId i.id is
    → text_eq i.id (target name is) ≡ false
target_later name i is full h =
    text_eq_comm i.id (target name is) ∙ last_id_differs i.id name [] is h (nil_differs i.id full)
  where
    nil_differs : (t : Text) → is_empty t ≡ false → text_eq [] t ≡ false
    nil_differs [] f = absurd (ground arith)
    nil_differs (c ∷ t) f = refl

without_here :
    (k : Text) (i : IdentityDetail) (is : List IdentityDetail)
    → k ≡ i.id
    → LacksId i.id is
    → without_id k (i ∷ is) ≡ is
without_here k i is e h =
    ap (λ j. without_id j (i ∷ is)) e ∙ rw (text_eq_refl i.id) (without_id_absent i.id is h)

roles_here :
    (k : Text) (roles : List Text) (i : IdentityDetail) (is : List IdentityDetail)
    → k ≡ i.id
    → LacksId i.id is
    → set_roles_of_id k roles (i ∷ is) ≡ give_roles roles i ∷ is
roles_here k roles i is e h =
    ap (λ j. set_roles_of_id j roles (i ∷ is)) e
    ∙ rw (text_eq_refl i.id) (ap (λ r. give_roles roles i ∷ r) (roles_absent_id i.id roles is h))

without_name_here :
    (name : Text) (i : IdentityDetail) (is : List IdentityDetail)
    → text_eq i.name name ≡ true
    → without_name name (i ∷ is) ≡ without_name name is
without_name_here name i is same = rw same

roles_name_here :
    (name : Text) (roles : List Text) (i : IdentityDetail) (is : List IdentityDetail)
    → text_eq i.name name ≡ true
    → set_roles_of_name name roles (i ∷ is) ≡ give_roles roles i ∷ set_roles_of_name name roles is
roles_name_here name roles i is same = rw same

target_skip :
    (name : Text) (i : IdentityDetail) (is : List IdentityDetail)
    → text_eq i.name name ≡ false
    → target name (i ∷ is) ≡ target name is
target_skip name i is other = rw other

without_id_skip :
    (k : Text) (i : IdentityDetail) (is : List IdentityDetail)
    → text_eq i.id k ≡ false
    → without_id k (i ∷ is) ≡ i ∷ without_id k is
without_id_skip k i is h = rw h

roles_id_skip :
    (k : Text) (roles : List Text) (i : IdentityDetail) (is : List IdentityDetail)
    → text_eq i.id k ≡ false
    → set_roles_of_id k roles (i ∷ is) ≡ i ∷ set_roles_of_id k roles is
roles_id_skip k roles i is h = rw h

pub without_target :
    (name : Text) (is : List IdentityDetail)
    → IsConsistent is
    → without_id (target name is) is ≡ without_name name is
without_target name [] _ = refl
without_target name (i ∷ is) (full, ids, names, c) = elim (Bool-cases (text_eq i.name name)) [
  | inl same ↦
      let (e, lacks) = target_here name i is same names in
      without_here (target name (i ∷ is)) i is e ids
      ∙ (sym (without_name_absent name is lacks) ∙ sym (without_name_here name i is same))
  | inr other ↦
      ap (λ k. without_id k (i ∷ is)) (target_skip name i is other)
      ∙ (without_id_skip (target name is) i is (target_later name i is full ids)
          ∙ rw other (ap (λ r. i ∷ r) (without_target name is c)))
]

pub set_roles_of_target :
    (name : Text) (roles : List Text) (is : List IdentityDetail)
    → IsConsistent is
    → set_roles_of_id (target name is) roles is ≡ set_roles_of_name name roles is
set_roles_of_target name roles [] _ = refl
set_roles_of_target name roles (i ∷ is) (full, ids, names, c) =
    elim (Bool-cases (text_eq i.name name)) [
      | inl same ↦
          let (e, lacks) = target_here name i is same names in
          roles_here (target name (i ∷ is)) roles i is e ids
          ∙ (ap (λ r. give_roles roles i ∷ r) (sym (roles_absent_name name roles is lacks))
              ∙ sym (roles_name_here name roles i is same))
      | inr other ↦
          ap (λ k. set_roles_of_id k roles (i ∷ is)) (target_skip name i is other)
          ∙ (roles_id_skip (target name is) roles i is (target_later name i is full ids)
              ∙ rw other (ap (λ r. i ∷ r) (set_roles_of_target name roles is c)))
    ]

-- Where the loop finds no identifier, no identity has the name.
pub target_missing :
    (name : Text) (is : List IdentityDetail)
    → IsConsistent is
    → is_empty (target name is) ≡ true
    → LacksName name is
target_missing name [] _ h = tt
target_missing name (i ∷ is) (full, ids, names, c) h = elim (Bool-cases (text_eq i.name name)) [
  | inl same ↦ absurd (ground (arith, ap is_empty ((target_here name i is same names).0)))
  | inr other ↦ (other, target_missing name is c (rw other at h))
]
