-- ===== src/Operator/Memory.antt =====
-- A store that keeps the objects that it is sent, for tests: the last one of a name counts, and what
-- the server fills in is given by a function.
use ziti_k8s_agent.Base.{
  ◌≡◌, refl, ap, ◌∙◌, arith, Bool, false, ◌&&◌, inl, inr, Bool-cases, and_parts, List, [], ◌∷◌,
  Text, text_eq, text_eq→eq, text_eq_refl, if◌then◌else◌, Result, ok, err, panic, codes,
}
use ziti_k8s_agent.Operator.Admin.{Fetch, found, not_found, failed}
use ziti_k8s_agent.Operator.Objects.{Meta, Object}
use ziti_k8s_agent.Operator.Ensure.{Store, Owning}
use ziti_k8s_agent.Operator.Ensured.{StoreLaws, OwningLaws, Apart}

module _ {S St : Type 0} where
  abbrev pub is_named : Text → Text → Object S St → Bool
  is_named namespace name a = text_eq a.meta.namespace namespace && text_eq a.meta.name name

  abbrev pub find : Text → Text → List (Object S St) → Fetch (Object S St)
  find namespace name [] = not_found
  find namespace name (a ∷ objects) =
      if is_named namespace name a then found a else find namespace name objects

  find_named :
      (namespace name : Text) (a : Object S St) (objects : List (Object S St))
      → find namespace name objects ≡ found a
      → (a.meta.namespace ≡ namespace) × (a.meta.name ≡ name)
  find_named namespace name a [] h = absurd (ground arith)
  find_named namespace name a (b ∷ objects) h = elim (Bool-cases (is_named namespace name b)) [
    | inl e ↦
        let (p, q) = and_parts (text_eq b.meta.namespace namespace) (text_eq b.meta.name name) e in
        let same : b ≡ a =
          ap (λ f. elim f [ found x ↦ x | not_found ↦ b | failed _ ↦ b ]) (rw e at h) in
        (
          rw (← same) (text_eq→eq b.meta.namespace namespace p),
          rw (← same) (text_eq→eq b.meta.name name q),
        )
    | inr e ↦ find_named namespace name a objects (rw e at h)
  ]

  find_head :
      (a : Object S St) (objects : List (Object S St))
      → find a.meta.namespace a.meta.name (a ∷ objects) ≡ found a
  find_head a objects = rw (text_eq_refl a.meta.namespace, text_eq_refl a.meta.name) refl

  module _ {W : Type 0} (read : W → List (Object S St)) (write : List (Object S St) → W → W)
      (fill : S → S) where
    abbrev pub stored : Object S St → Object S St
    stored a = record a { spec = fill a.spec }

    abbrev pub memory : Store W (Object S St)
    memory = record {
      get = λ namespace name w. (find namespace name (read w), w);
      create = λ a w. (ok tt, write (stored a ∷ read w) w);
      patch = λ old new w. (ok (stored new), write (stored new ∷ read w) w);
    }

    pub memory-StoreLaws :
        (IsFilled : S → S → Type 0)
        → ((s : S) → IsFilled s (fill s))
        → ((objects : List (Object S St)) (w : W) → read (write objects w) ≡ objects)
        → StoreLaws memory IsFilled
    memory-StoreLaws IsFilled filled written = record {
      reads = λ namespace name w. refl;
      named = λ namespace name a w w' h. find_named namespace name a (read w) (ap (λ p. p.0) h);
      created = λ d w w' u h.
          let world : write (stored d ∷ read w) w ≡ w' = ap (λ p. p.1) h in
          (fill d.spec, filled d.spec, rw (← world) (stored_read d w));
      patched = λ old new a w w' h.
          let world : write (stored new ∷ read w) w ≡ w' = ap (λ p. p.1) h in
          (fill new.spec, filled new.spec, rw (← world) (stored_read new w));
    }
      where
        stored_read :
            (d : Object S St) (w : W)
            → memory.get d.meta.namespace d.meta.name (write (stored d ∷ read w) w)
              ≡ (found (stored d), write (stored d ∷ read w) w)
        stored_read d w =
            ap (λ f. (f, write (stored d ∷ read w) w))
              (ap (find d.meta.namespace d.meta.name) (written (stored d ∷ read w) w)
                ∙ find_head (stored d) (read w))

-- Two stores in different parts of the world.
pub memory-Apart :
    {W S St T Tt : Type 0} (read : W → List (Object S St)) (write : List (Object S St) → W → W)
    → (fill : S → S) (read' : W → List (Object T Tt)) (write' : List (Object T Tt) → W → W)
    → (fill' : T → T) → ((objects : List (Object T Tt)) (w : W) → read (write' objects w) ≡ read w)
    → Apart (memory read write fill) (memory read' write' fill')
memory-Apart read write fill read' write' fill' apart = record {
  created = λ namespace name f d r w w' h g.
      let world : write' (stored read' write' fill' d ∷ read' w) w ≡ w' = ap (λ p. p.1) h in
      rw (← world) (
        ap (λ x. (x, write' (stored read' write' fill' d ∷ read' w) w))
          (ap (find namespace name) (apart (stored read' write' fill' d ∷ read' w) w)
            ∙ ap (λ p. p.0) g));
  patched = λ namespace name f old new r w w' h g.
      let world : write' (stored read' write' fill' new ∷ read' w) w ≡ w' = ap (λ p. p.1) h in
      rw (← world) (
        ap (λ x. (x, write' (stored read' write' fill' new ∷ read' w) w))
          (ap (find namespace name) (apart (stored read' write' fill' new ∷ read' w) w)
            ∙ ap (λ p. p.0) g));
}

-- An owner by its UID.
abbrev pub owner_is : Text → List Text → Bool
owner_is uid [] = false
owner_is uid (o ∷ _) = text_eq o uid

abbrev pub own_by : Text → Meta → List Text → Result Meta
own_by uid m [] = ok (record m { owners = uid ∷ [] })
own_by uid m (_ ∷ _) = err (codes "already owned")

abbrev pub owned_by : Text → Owning
owned_by uid = record {
  is_controlled = λ m. owner_is uid m.owners;
  set_controller_reference = λ m. own_by uid m m.owners;
}

own_by_lem :
    (uid : Text) (m m' : Meta) (owners : List Text)
    → own_by uid m owners ≡ ok m'
    → record m { owners = uid ∷ [] } ≡ m'
own_by_lem uid m m' [] h = ap (λ r. elim r [ ok x ↦ x | err _ ↦ m' | panic ↦ m' ]) h
own_by_lem uid m m' (_ ∷ _) h = absurd (ground arith)

pub owned_by-OwningLaws : (uid : Text) → OwningLaws (owned_by uid)
owned_by-OwningLaws uid = record {
  controls = λ m m' h. rw (← own_by_lem uid m m' m.owners h) (text_eq_refl uid);
  keeps = λ m m' h. rw (← own_by_lem uid m m' m.owners h) (refl, refl, refl);
}
