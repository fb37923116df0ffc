-- ===== src/Operator/Synced.antt =====
-- Updates that check the metadata and then the specification of an object, as the reconcilers make
-- them: they settle.
use ziti_k8s_agent.Base.{
  ◌≡◌, refl, ap, sym, ◌∙◌, arith, Bool, true, false, inl, inr, Bool-cases, Result, ok, err, panic,
}
use ziti_k8s_agent.Operator.Equal.{GoMap, same_map}
use ziti_k8s_agent.Operator.Objects.{Meta, Object}
use ziti_k8s_agent.Operator.Ensure.{
  Owning, sync_labels, sync_owner, sync_meta, owned, with_meta, sync_spec, set_owner, owned_object,
}
use ziti_k8s_agent.Operator.Ensured.{
  OwningLaws, IsSynced, IsSettling, sync_meta_lem, sync_meta_synced, ok_first,
}

owned_changes : (m' : Meta) (r : Result Meta) → owned r ≡ ok (m', false) → true ≡ false
owned_changes m' (ok m₁) h = ground arith
owned_changes m' (err x) h = ground arith
owned_changes m' panic h = ground arith

pub flag_of :
    {A : Type 0} (a b : A) (x y : Bool)
    → ◌≡◌ {A = Result (A × Bool)} (ok (a, x)) (ok (b, y))
    → x ≡ y
flag_of a b x y h = ap (λ r. elim r [ ok p ↦ p.1 | err _ ↦ x | panic ↦ x ]) h

sync_owner_unchanged :
    (o : Owning) (m m' : Meta) (b : Bool)
    → sync_owner o (m, b) ≡ ok (m', false)
    → (m' ≡ m) × (b ≡ false)
unfolding sync_owner
sync_owner_unchanged o m m' b h = elim (Bool-cases (o.is_controlled m)) [
  | inl e ↦ (sym (ok_first m m' b false (rw e at h)), flag_of m m' b false (rw e at h))
  | inr e ↦
      absurd (let c = owned_changes m' (o.set_controller_reference m) (rw e at h) in ground arith)
]

-- Without a change the metadata are what they were.
pub sync_meta_unchanged :
    (o : Owning) (wanted labels : GoMap) (m m' : Meta)
    → sync_meta o wanted labels m ≡ ok (m', false)
    → m' ≡ m
unfolding sync_meta sync_labels
sync_meta_unchanged o wanted labels m m' h = elim (Bool-cases (same_map m.labels wanted)) [
  | inl e ↦ (sync_owner_unchanged o m m' false (rw e at h)).0
  | inr e ↦ absurd (
      let c = (sync_owner_unchanged o (record m { labels = labels }) m' true (rw e at h)).1 in
      ground arith)
]

module _ {S St : Type 0} (o : Owning) (L : OwningLaws o) (wanted : GoMap) (same : S → S → Bool)
    (target : S → S) where
  -- The update of an object towards a specification that may depend on the actual one.
  abbrev pub update_object : Object S St → Result (Object S St × Bool)
  update_object a = sync_spec same (target a.spec) (with_meta a (sync_meta o wanted wanted a.meta))

  -- An object with the right metadata and the right specification is left as it is.
  pub update_object_synced :
      (a : Object S St)
      → IsSynced o wanted a.meta
      → same a.spec (target a.spec) ≡ true
      → update_object a ≡ ok (a, false)
  update_object_synced a synced right =
      rw (sync_meta_synced o wanted wanted a.meta synced, with_meta, sync_spec, right) refl

  -- What an update makes of an object: its metadata are those of the checks, and its specification
  -- is the actual or the target one.
  made_of :
      (target_same : (s : S) → same (target s) (target (target s)) ≡ true)
      → (a a' : Object S St) (b : Bool) (r : Result (Meta × Bool))
      → sync_meta o wanted wanted a.meta ≡ r
      → sync_spec same (target a.spec) (with_meta a r) ≡ ok (a', b)
      → (n : Bool) × (sync_meta o wanted wanted a.meta ≡ ok (a'.meta, n))
        × (same a'.spec (target a'.spec) ≡ true)
        × (b ≡ false → (n ≡ false) × (a' ≡ record a { meta = a'.meta }))
  made_of target_same a a' b (ok (m, n)) e h = elim (Bool-cases (same a.spec (target a.spec))) [
    | inl right ↦
        let is_a' : record a { meta = m } ≡ a' = ok_first _ a' n b (rw right at h) in
        let flag : n ≡ b = flag_of (record a { meta = m }) a' n b (rw right at h) in
        (n, rw (← is_a') e, rw (← is_a') right, λ unchanged. (flag ∙ unchanged, rw (← is_a') refl))
    | inr wrong ↦
        let is_a' : record a { meta = m; spec = target a.spec } ≡ a' =
          ok_first _ a' true b (rw wrong at h) in
        let flag : true ≡ b =
          flag_of (record a { meta = m; spec = target a.spec }) a' true b (rw wrong at h) in
        (n, rw (← is_a') e, rw (← is_a') (target_same a.spec), λ unchanged. absurd (ground arith))
  ]
  made_of target_same a a' b (err x) e h = absurd (ground arith)
  made_of target_same a a' b panic e h = absurd (ground arith)

  pub update_object-IsSettling :
      ((s : S) → same (target s) (target (target s)) ≡ true) → IsSettling update_object
  update_object-IsSettling target_same = record {
    again = λ a a' b h.
        let (n, meta, right, _) =
          made_of target_same a a' b (sync_meta o wanted wanted a.meta) refl h in
        update_object_synced a' (sync_meta_lem o L wanted a.meta a'.meta n meta).0 right;
    unchanged = λ a a' h.
        let (n, meta, right, same_object) =
          made_of target_same a a' false (sync_meta o wanted wanted a.meta) refl h in
        let (flag, is_a') = same_object refl in
        is_a'
        ∙ ap (λ m. record a { meta = m })
            (sync_meta_unchanged o wanted wanted a.meta a'.meta (rw flag at meta));
    keeps_name = λ a a' b h.
        let (n, meta, right, _) =
          made_of target_same a a' b (sync_meta o wanted wanted a.meta) refl h in
        (sync_meta_lem o L wanted a.meta a'.meta n meta).1;
  }

  -- An object that the update leaves as it is has the right metadata and specification.
  pub update_object_fixed :
      ((s : S) → same (target s) (target (target s)) ≡ true)
      → (a : Object S St) → update_object a ≡ ok (a, false)
      → IsSynced o wanted a.meta × (same a.spec (target a.spec) ≡ true)
  update_object_fixed target_same a h =
      let (n, meta, right, _) =
        made_of target_same a a false (sync_meta o wanted wanted a.meta) refl h in
      ((sync_meta_lem o L wanted a.meta a.meta n meta).0, right)

-- A desired object that was given its owner has the wanted metadata.
pub set_owner_lem :
    {S St : Type 0} (o : Owning) (L : OwningLaws o) (d c : Object S St)
    → set_owner o d ≡ ok c
    → (o.is_controlled c.meta ≡ true)
      × (c.meta.labels ≡ d.meta.labels)
      × (c.meta.namespace ≡ d.meta.namespace)
      × (c.meta.name ≡ d.meta.name)
      × (c.spec ≡ d.spec)
unfolding set_owner
set_owner_lem {S} {St} o L d c h = owner_given (o.set_controller_reference d.meta) refl h
  where
    owner_given :
        (r : Result Meta)
        → o.set_controller_reference d.meta ≡ r
        → owned_object d r ≡ ok c
        → (o.is_controlled c.meta ≡ true)
          × (c.meta.labels ≡ d.meta.labels)
          × (c.meta.namespace ≡ d.meta.namespace)
          × (c.meta.name ≡ d.meta.name)
          × (c.spec ≡ d.spec)
    owner_given (ok m) e k =
        let is_c : record d { meta = m } ≡ c =
          ap
            (λ r. elim r [
              | ok x ↦ x
              | err _ ↦ record d { meta = m }
              | panic ↦ record d { meta = m }
            ])
            k in
        let (name, namespace, labels) = L.keeps d.meta m e in
        (
          rw (← is_c) (L.controls d.meta m e),
          rw (← is_c) labels,
          rw (← is_c) namespace,
          rw (← is_c) name,
          rw (← is_c) refl,
        )
    owner_given (err x) e k = absurd (ground arith)
    owner_given panic e k = absurd (ground arith)
