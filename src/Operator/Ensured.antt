-- ===== src/Operator/Ensured.antt =====
-- What is relied on of owner references and of the Kubernetes API, and what follows for the step that
-- settles one object: a second step finds nothing to do.
use mathlib.Core.Path.{subst}
use ziti_k8s_agent.Base.{
  ◌≡◌, refl, ap, ◌∙◌, arith, Bool, true, false, inl, inr, Bool-cases, Text, Result, ok, err, panic,
  ok_parts, >>=-eq-ok, ◌>>=◌, lift, pure,
}
use ziti_k8s_agent.Operator.Admin.{Fetch, found, not_found, failed}
use ziti_k8s_agent.Operator.Equal.{GoMap, same_map, same_map_refl}
use ziti_k8s_agent.Operator.Objects.{Meta, Object}
use ziti_k8s_agent.Operator.Ensure.{
  Owning, Store, sync_labels, sync_owner, sync_meta, owned, ensure, settle, patch_if,
}

-- An owner reference that was set makes the object a controlled one, and touches nothing else.
pub record OwningLaws (o : Owning) : Type 0 where
  pub controls : (m m' : Meta) → o.set_controller_reference m ≡ ok m' → o.is_controlled m' ≡ true
  pub keeps :
      (m m' : Meta)
      → o.set_controller_reference m ≡ ok m'
      → (m'.name ≡ m.name) × (m'.namespace ≡ m.namespace) × (m'.labels ≡ m.labels)

-- A server that stores what it is sent, but for what it fills in: reads change nothing, an object is
-- found under its name, and what was created or patched is what the next read finds, with a
-- specification that the server may have filled in.
pub record StoreLaws {W S St : Type 0} (store : Store W (Object S St)) (IsFilled : S → S → Type 0)
    : Type 0 where
  pub reads : (namespace name : Text) (w : W) → (store.get namespace name w).1 ≡ w
  pub named :
      (namespace name : Text) (a : Object S St) (w w' : W)
      → store.get namespace name w ≡ (found a, w')
      → (a.meta.namespace ≡ namespace) × (a.meta.name ≡ name)
  pub created :
      (d : Object S St) (w w' : W) (u : Unit {0})
      → store.create d w ≡ (ok u, w')
      → (s : S) × IsFilled d.spec s
        × (store.get d.meta.namespace d.meta.name w' ≡ (found (record d { spec = s }), w'))
  pub patched :
      (old new a : Object S St) (w w' : W)
      → store.patch old new w ≡ (ok a, w')
      → (s : S) × IsFilled new.spec s
        × (store.get new.meta.namespace new.meta.name w' ≡ (found (record new { spec = s }), w'))

-- Nothing is filled in.
abbrev pub IsSent : {S : Type 0} → S → S → Type 0
IsSent s s' = s ≡ s'

-- The value of a result that is known to have one.
abbrev pub out : {A : Type 0} → A → Result (A × Bool) → A
out a (ok (b, needs)) = b
out a (err e) = a
out a panic = a

pub ok_first :
    {A : Type 0} (a b : A) (x y : Bool)
    → ◌≡◌ {A = Result (A × Bool)} (ok (a, x)) (ok (b, y))
    → a ≡ b
ok_first a b x y h = ap (out a) h

-- Metadata that the two checks have made agree: a second run of them changes nothing.
abbrev pub IsSynced : Owning → GoMap → Meta → Type 0
IsSynced o wanted m = (same_map m.labels wanted ≡ true) × (o.is_controlled m ≡ true)

pub sync_meta_synced :
    (o : Owning) (wanted labels : GoMap) (m : Meta)
    → IsSynced o wanted m
    → sync_meta o wanted labels m ≡ ok (m, false)
unfolding sync_meta sync_labels sync_owner
sync_meta_synced o wanted labels m (same, controlled) = rw (same, controlled) refl

-- What the metadata keep: the name and the namespace.
abbrev pub KeepsName : Meta → Meta → Type 0
KeepsName m m' = (m'.name ≡ m.name) × (m'.namespace ≡ m.namespace)

module _ (o : Owning) (L : OwningLaws o) where
  owned_cases :
      (m m' : Meta) (r : Result Meta) (b : Bool)
      → o.set_controller_reference m ≡ r
      → owned r ≡ ok (m', b)
      → o.set_controller_reference m ≡ ok m'
  owned_cases m m' (ok m₁) b e h = e ∙ ap ok (ok_first m₁ m' true b h)
  owned_cases m m' (err x) b e h = absurd (ground arith)
  owned_cases m m' panic b e h = absurd (ground arith)

  pub sync_owner_lem :
      (m m' : Meta) (b b' : Bool)
      → sync_owner o (m, b) ≡ ok (m', b')
      → (o.is_controlled m' ≡ true) × (m'.labels ≡ m.labels) × KeepsName m m'
  unfolding sync_owner
  sync_owner_lem m m' b b' h = elim (Bool-cases (o.is_controlled m)) [
    | inl e ↦
        let same : m ≡ m' = ok_first m m' b b' (rw e at h) in
        (rw (← same) e, rw (← same) refl, (rw (← same) refl, rw (← same) refl))
    | inr e ↦
        let set = owned_cases m m' (o.set_controller_reference m) b' refl (rw e at h) in
        let (name, namespace, labels) = L.keeps m m' set in
        (L.controls m m' set, labels, (name, namespace))
  ]

  -- The checks of the metadata, where the labels that are set are those that are wanted.
  pub sync_meta_lem :
      (wanted : GoMap) (m m' : Meta) (b : Bool)
      → sync_meta o wanted wanted m ≡ ok (m', b)
      → IsSynced o wanted m' × KeepsName m m'
  unfolding sync_meta sync_labels
  sync_meta_lem wanted m m' b h = elim (Bool-cases (same_map m.labels wanted)) [
    | inl e ↦
        let (controlled, labels, names) = sync_owner_lem m m' false b (rw e at h) in
        ((rw labels e, controlled), names)
    | inr e ↦
        let (controlled, labels, names) =
          sync_owner_lem (record m { labels = wanted }) m' true b (rw e at h) in
        ((rw labels (same_map_refl wanted), controlled), names)
  ]

-- An update that settles: what it gives it gives again, unchanged, and under the same name.
pub record IsSettling {S St : Type 0} (update : Object S St → Result (Object S St × Bool))
    : Type 0 where
  pub again : (a a' : Object S St) (b : Bool) → update a ≡ ok (a', b) → update a' ≡ ok (a', false)
  pub unchanged : (a a' : Object S St) → update a ≡ ok (a', false) → a' ≡ a
  pub keeps_name :
      (a a' : Object S St) (b : Bool) → update a ≡ ok (a', b) → KeepsName a.meta a'.meta

module _ {W S St : Type 0} (store : Store W (Object S St)) where
  -- Under the name there is an object that the update leaves as it is.
  abbrev pub Settled : (Object S St → Result (Object S St × Bool)) → Text → Text → W → Type 0
  Settled update namespace name w =
      (a : Object S St) × (store.get namespace name w ≡ (found a, w)) × (update a ≡ ok (a, false))

  -- Where an object is settled, the step changes nothing in the world.
  pub Settled-ensure :
      (update : Object S St → Result (Object S St × Bool))
      → (nothing : Object S St) (created : Result (Object S St)) (namespace name : Text) (w : W)
      → (s : Settled update namespace name w)
      → ensure store namespace name nothing created update w ≡ (ok s.0, w)
  unfolding ensure
  Settled-ensure update nothing created namespace name w (a, g, u) = rw (g, settle) (rw (u) refl)

-- What a server fills in is left as it is by an update.
abbrev pub Tolerates :
    {S St : Type 0} → (Object S St → Result (Object S St × Bool)) → (S → S → Type 0) → Type 0
Tolerates {S} {St} update IsFilled =
    (a : Object S St) (s : S)
    → update a ≡ ok (a, false)
    → IsFilled a.spec s
    → update (record a { spec = s }) ≡ ok (record a { spec = s }, false)

pub IsSent-Tolerates :
    {S St : Type 0} (update : Object S St → Result (Object S St × Bool)) → Tolerates update IsSent
IsSent-Tolerates update a s h e =
    subst (λ x. update (record a { spec = x }) ≡ ok (record a { spec = x }, false)) e h

module _ {W S St : Type 0} (store : Store W (Object S St)) (IsFilled : S → S → Type 0)
    (L : StoreLaws store IsFilled) (update : Object S St → Result (Object S St × Bool))
    (P : IsSettling update) (tolerates : Tolerates update IsFilled) (namespace name : Text) where
  patched_settles :
      (a₀ new a : Object S St) (needs : Bool) (w w' : W)
      → store.get namespace name w ≡ (found a₀, w)
      → update a₀ ≡ ok (new, needs)
      → patch_if store a₀ (new, needs) w ≡ (ok a, w')
      → Settled store update namespace name w'
  patched_settles a₀ new a true w w' g u h =
      let (namespace_kept, name_kept) = L.named namespace name a₀ w w g in
      let (same_name, same_namespace) = P.keeps_name a₀ new true u in
      let (s, filled, read) = L.patched a₀ new a w w' h in
      let got : store.get namespace name w' ≡ (found (record new { spec = s }), w') =
        rw (← name_kept, ← namespace_kept, ← same_name, ← same_namespace) read in
      (record new { spec = s }, got, tolerates new s (P.again a₀ new true u) filled)
  patched_settles a₀ new a false w w' g u h =
      let same_world : w ≡ w' = (ok_parts new a w w' h).1 in
      let same : new ≡ a₀ = P.unchanged a₀ new u in (a₀, rw (← same_world) g, rw same at u)

  settle_settles :
      (nothing : Object S St) (created : Result (Object S St))
      → ((c : Object S St)
          → created ≡ ok c
          → (update c ≡ ok (c, false)) × (c.meta.namespace ≡ namespace) × (c.meta.name ≡ name))
      → (f : Fetch (Object S St)) (a : Object S St) (w w' : W) → store.get namespace name w ≡ (f, w)
      → settle store nothing created update f w ≡ (ok a, w')
      → Settled store update namespace name w'
  settle_settles nothing created fresh not_found a w w' g h =
      let (c, w₁, made, rest) =
        >>=-eq-ok (lift created) (λ d. store.create d >>= λ _. pure nothing) w w' a h in
      let (u, w₂, sent, done) = >>=-eq-ok (store.create c) (λ _. pure nothing) w₁ w' a rest in
      let (settled, same_namespace, same_name) = fresh c (ap (λ p. p.0) made) in
      let world : w₂ ≡ w' = (ok_parts nothing a w₂ w' done).1 in
      let (s, filled, read) = L.created c w₁ w₂ u sent in
      let got : store.get namespace name w₂ ≡ (found (record c { spec = s }), w₂) =
        rw (← same_name, ← same_namespace) read in
      (record c { spec = s }, rw (← world) got, tolerates c s settled filled)
  settle_settles nothing created fresh (found a₀) a w w' g h =
      let ((new, needs), w₁, made, rest) =
        >>=-eq-ok (lift (update a₀)) (patch_if store a₀) w w' a h in
      let world : w ≡ w₁ = ap (λ p. p.1) made in
      patched_settles a₀ new a needs w w' g (ap (λ p. p.0) made) (rw (← world) at rest)
  settle_settles nothing created fresh (failed e) a w w' g h = absurd (ground arith)

  -- The step that succeeds leaves a settled object behind.
  pub ensure_settles :
      (nothing : Object S St) (created : Result (Object S St))
      → ((c : Object S St)
          → created ≡ ok c
          → (update c ≡ ok (c, false)) × (c.meta.namespace ≡ namespace) × (c.meta.name ≡ name))
      → (a : Object S St) (w w' : W)
      → ensure store namespace name nothing created update w ≡ (ok a, w')
      → Settled store update namespace name w'
  unfolding ensure
  ensure_settles nothing created fresh a w w' h =
      let same_world = L.reads namespace name w in
      let f = (store.get namespace name w).0 in
      settle_settles nothing created fresh f a w w' (λ i. (f, same_world i)) (rw same_world at h)

-- Writes to one kind of object leave what is read of another kind as it is.
pub record Apart {W A : Type 0} {S St : Type 0} (store : Store W (Object S St)) (other : Store W A)
    : Type 0 where
  pub created :
      (namespace name : Text) (f : Fetch (Object S St)) (d : A) (r : Result (Unit {0})) (w w' : W)
      → other.create d w ≡ (r, w')
      → store.get namespace name w ≡ (f, w)
      → store.get namespace name w' ≡ (f, w')
  pub patched :
      (namespace name : Text) (f : Fetch (Object S St)) (old new : A) (r : Result A) (w w' : W)
      → other.patch old new w ≡ (r, w')
      → store.get namespace name w ≡ (f, w)
      → store.get namespace name w' ≡ (f, w')
