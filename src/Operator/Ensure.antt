-- ===== src/Operator/Ensure.antt =====
-- The step that the reconcilers of routers and webhooks take for each of their objects, in
-- ziti-agent/operator/internal/controller: the object is created where it is not there, compared with
-- the desired one where it is, and patched where they differ. The Kubernetes client and the owner
-- references of controller-runtime are parameters. Events and logging are left out.
use ziti_k8s_agent.Base.{
  Bool, true, false, Text, if◌then◌else◌, Result, ok, err, panic, Action, ◌>>=◌, pure, fail, lift,
}
use ziti_k8s_agent.Operator.Admin.{Fetch, found, not_found, failed}
use ziti_k8s_agent.Operator.Equal.{GoMap, same_map}
use ziti_k8s_agent.Operator.Objects.{Meta, Object}

-- `metav1.IsControlledBy` and `controllerutil.SetControllerReference` for one owner.
pub record Owning : Type 0 where
  pub is_controlled : Meta → Bool
  pub set_controller_reference : Meta → Result Meta

-- The calls of the Kubernetes client for one kind of object. `patch` is given the object as it was
-- read and as it shall be, and gives the object as the server answers it.
pub record Store (W A : Type 0) : Type 0 where
  pub get : Text → Text → W → Fetch A × W
  pub create : A → Action W (Unit {0})
  pub patch : A → A → Action W A

-- The labels are compared with those of the desired object, and set to the default ones.
unfoldable pub sync_labels : GoMap → GoMap → Meta → Meta × Bool
sync_labels wanted labels m =
    if same_map m.labels wanted then (m, false) else (record m { labels = labels }, true)

abbrev pub owned : Result Meta → Result (Meta × Bool)
owned (ok m) = ok (m, true)
owned (err e) = err e
owned panic = panic

unfoldable pub sync_owner : Owning → Meta × Bool → Result (Meta × Bool)
sync_owner o (m, needs) =
    if o.is_controlled m then ok (m, needs) else owned (o.set_controller_reference m)

-- The two checks of the metadata, with the flag that something changed.
unfoldable pub sync_meta : Owning → GoMap → GoMap → Meta → Result (Meta × Bool)
unfolding sync_labels sync_owner
sync_meta o wanted labels m = sync_owner o (sync_labels wanted labels m)

module _ {S St : Type 0} where
  abbrev pub with_meta : Object S St → Result (Meta × Bool) → Result (Object S St × Bool)
  with_meta a (ok (m, needs)) = ok (record a { meta = m }, needs)
  with_meta a (err e) = err e
  with_meta a panic = panic

  -- The specification is compared with the desired one, and set to it.
  abbrev pub sync_spec :
      (S → S → Bool) → S → Result (Object S St × Bool) → Result (Object S St × Bool)
  sync_spec same desired (ok (a, needs)) =
      if same a.spec desired then ok (a, needs) else ok (record a { spec = desired }, true)
  sync_spec same desired (err e) = err e
  sync_spec same desired panic = panic

  -- The desired object with its owner, as it is created.
  abbrev pub owned_object : Object S St → Result Meta → Result (Object S St)
  owned_object d (ok m) = ok (record d { meta = m })
  owned_object d (err e) = err e
  owned_object d panic = panic

  unfoldable pub set_owner : Owning → Object S St → Result (Object S St)
  set_owner o d = owned_object d (o.set_controller_reference d.meta)

module _ {W A : Type 0} (S : Store W A) where
  abbrev pub patch_if : A → A × Bool → Action W A
  patch_if old (new, needs) = if needs then S.patch old new else pure new

  -- What follows `r.Get`. Where the object was created, the code goes on with the empty object that
  -- it had read into.
  abbrev pub settle : A → Result A → (A → Result (A × Bool)) → Fetch A → Action W A
  settle nothing created update not_found = lift created >>= λ d. S.create d >>= λ _. pure nothing
  settle nothing created update (found a) = lift (update a) >>= patch_if a
  settle nothing created update (failed e) = fail e

  unfoldable pub ensure : Text → Text → A → Result A → (A → Result (A × Bool)) → Action W A
  ensure namespace name nothing created update w =
      let (f, w') = S.get namespace name w in settle nothing created update f w'
