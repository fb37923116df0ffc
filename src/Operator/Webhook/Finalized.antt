-- ===== src/Operator/Webhook/Finalized.antt =====
-- What is gone once a webhook has lost its finalizer.
use ziti_k8s_agent.Base.{
  ◌≡◌, refl, ap, sym, ◌∙◌, arith, Bool, true, false, inl, inr, Bool-cases, ◌++◌, codes,
  if◌then◌else◌, Result, ok, err, panic, >>=-eq-ok, ◌>>=◌, pure, ok_parts,
}
use ziti_k8s_agent.Operator.Admin.{Fetch}
use ziti_k8s_agent.Operator.Webhook.{ZitiWebhook}
use ziti_k8s_agent.Operator.Webhook.Desired.{
  desired_cluster_role, desired_binding, desired_webhooks, desired_certificate,
}
use ziti_k8s_agent.Operator.Webhook.Finalize.{
  Target, cluster_role, cluster_role_binding, secret, webhook_configuration, FinalizerApi,
  finalizer, ignore_not_found, Phase, go_on, return_now, delete_target, finalize, register,
  unregister, check_finalizer,
}

pub if_true : {A : Type 0} (b : Bool) (x y : A) → b ≡ true → (if b then x else y) ≡ x
if_true b x y e = rw e refl

pub if_false : {A : Type 0} (b : Bool) (x y : A) → b ≡ false → (if b then x else y) ≡ y
if_false b x y e = rw e refl

phase_ne :
    {W : Type 0} (z : ZitiWebhook) (w w' : W)
    → ◌≡◌ {A = Result Phase × W} (ok (go_on z), w) (ok return_now, w')
    → true ≡ false
phase_ne z w w' h = ap (λ p. went_on p.0) h
  where
    went_on : Result Phase → Bool
    went_on (ok (go_on z)) = true
    went_on (ok return_now) = false
    went_on (err e) = true
    went_on panic = true

-- A deletion that does not fail leaves nothing under the name, and neither a deletion nor an update
-- of the webhook makes any of the objects.
pub record FinalizerLaws {W : Type 0} (F : FinalizerApi W) (is_there : Target → W → Bool)
    : Type 0 where
  pub deletes :
      (t : Target) (w w' : W) (r : Fetch (Unit {0}))
      → F.delete t w ≡ (r, w')
      → ignore_not_found r ≡ ok tt
      → is_there t w' ≡ false
  pub keeps :
      (t u : Target) (w w' : W) (r : Fetch (Unit {0}))
      → F.delete t w ≡ (r, w')
      → is_there u w ≡ false
      → is_there u w' ≡ false
  pub updates :
      (z : ZitiWebhook) (u : Target) (w w' : W) (r : Result ZitiWebhook)
      → F.update_webhook z w ≡ (r, w')
      → is_there u w ≡ false
      → is_there u w' ≡ false

module _ {W : Type 0} (F : FinalizerApi W) (is_there : Target → W → Bool)
    (L : FinalizerLaws F is_there) where
  unit_ok :
      (r : Result (Unit {0})) (u : Unit {0}) (w w' : W)
      → ◌≡◌ {A = Result (Unit {0}) × W} (r, w) (ok u, w')
      → (r ≡ ok tt) × (w ≡ w')
  unit_ok r u w w' h = (ap (λ p. p.0) h, ap (λ p. p.1) h)

  -- A deletion that is passed: its object is gone, and what was gone stays so.
  delete_lem :
      (t : Target) (u : Unit {0}) (w w' : W)
      → delete_target F t w ≡ (ok u, w')
      → (is_there t w' ≡ false)
        × ((other : Target) → is_there other w ≡ false → is_there other w' ≡ false)
  unfolding delete_target
  delete_lem t u w w' h =
      let r = (F.delete t w).0 in
      let w₁ = (F.delete t w).1 in
      let (passed, world) = unit_ok (ignore_not_found r) u w₁ w' h in
      (
        rw (← world) (L.deletes t w w₁ r refl passed),
        λ other gone. rw (← world) (L.keeps t other w w₁ r refl gone),
      )

  abbrev role_of : ZitiWebhook → Target
  role_of z = cluster_role (z.spec.name ++ codes "-cluster-role")

  abbrev binding_of : ZitiWebhook → Target
  binding_of z = cluster_role_binding (z.spec.name ++ codes "-cluster-role-binding")

  abbrev secret_of : ZitiWebhook → Target
  secret_of z = secret (z.spec.name ++ codes "-server-cert") z.meta.namespace

  abbrev configuration_of : ZitiWebhook → Target
  configuration_of z =
      webhook_configuration (z.spec.name ++ codes "-mutating-webhook-configuration")

  abbrev AllGone : ZitiWebhook → W → Type 0
  AllGone z w =
      (is_there (role_of z) w ≡ false)
      × (is_there (binding_of z) w ≡ false)
      × (is_there (secret_of z) w ≡ false)
      × (is_there (configuration_of z) w ≡ false)

  finalize_lem :
      (z : ZitiWebhook) (u : Unit {0}) (w w' : W) → finalize F z w ≡ (ok u, w') → AllGone z w'
  unfolding finalize
  finalize_lem z u w w' h =
      let (u₁, w₁, h₁, rest₁) =
        >>=-eq-ok (delete_target F (role_of z))
          (λ _. delete_target F (binding_of z) >>= λ _.
            delete_target F (secret_of z) >>= λ _. delete_target F (configuration_of z))
          w w' u h in
      let (u₂, w₂, h₂, rest₂) =
        >>=-eq-ok (delete_target F (binding_of z))
          (λ _. delete_target F (secret_of z) >>= λ _. delete_target F (configuration_of z)) w₁ w' u
          rest₁ in
      let (u₃, w₃, h₃, h₄) =
        >>=-eq-ok (delete_target F (secret_of z)) (λ _. delete_target F (configuration_of z)) w₂ w'
          u rest₂ in
      let (gone₁, keep₁) = delete_lem (role_of z) u₁ w w₁ h₁ in
      let (gone₂, keep₂) = delete_lem (binding_of z) u₂ w₁ w₂ h₂ in
      let (gone₃, keep₃) = delete_lem (secret_of z) u₃ w₂ w₃ h₃ in
      let (gone₄, keep₄) = delete_lem (configuration_of z) u w₃ w' h₄ in
      (
        keep₄ (role_of z) (keep₃ (role_of z) (keep₂ (role_of z) gone₁)),
        keep₄ (binding_of z) (keep₃ (binding_of z) gone₂),
        keep₄ (secret_of z) gone₃,
        gone₄,
      )

  registered : (z : ZitiWebhook) (w w' : W) → register F z w ≡ (ok return_now, w') → true ≡ false
  registered z w w' h = elim (Bool-cases (F.contains_finalizer z finalizer)) [
    | inl e ↦ phase_ne z w w' (rw e at h)
    | inr e ↦
        let (z', w₁, sent, done) =
          >>=-eq-ok (F.update_webhook (F.add_finalizer z finalizer)) (λ z'. pure (go_on z')) w w'
            return_now (rw e at h) in
        phase_ne z' w₁ w' done
  ]

  unregistered :
      (z : ZitiWebhook) (w w' : W)
      → unregister F z w ≡ (ok return_now, w')
      → (F.contains_finalizer z finalizer ≡ true) × AllGone z w'
  unregistered z w w' h = elim (Bool-cases (F.contains_finalizer z finalizer)) [
    | inl e ↦
        let (u, w₁, finalized, rest) =
          >>=-eq-ok (finalize F z)
            (λ _. F.update_webhook (F.remove_finalizer z finalizer) >>= λ _. pure return_now) w w'
            return_now (rw e at h) in
        let (z', w₂, sent, done) =
          >>=-eq-ok (F.update_webhook (F.remove_finalizer z finalizer)) (λ _. pure return_now) w₁ w'
            return_now rest in
        let world = (ok_parts return_now return_now w₂ w' done).1 in
        let (a, b, c, d) = finalize_lem z u w w₁ finalized in
        let kept = λ (t : Target) (gone : is_there t w₁ ≡ false).
          L.updates (F.remove_finalizer z finalizer) t w₁ w₂ (ok z') sent gone in
        (
          e,
          (
            rw (← world) (kept (role_of z) a),
            rw (← world) (kept (binding_of z) b),
            rw (← world) (kept (secret_of z) c),
            rw (← world) (kept (configuration_of z) d),
          ),
        )
    | inr e ↦ absurd (let c = phase_ne z w w' (rw e at h) in ground arith)
  ]

  -- The webhook was to be deleted, and what was made for it is gone.
  abbrev pub IsCleanedUp : ZitiWebhook → W → Type 0
  IsCleanedUp z w' =
      ((z.deleting ≡ true)
        × (F.contains_finalizer z finalizer ≡ true)
        × (is_there (cluster_role (desired_cluster_role z).meta.name) w' ≡ false)
        × (is_there (cluster_role_binding (desired_binding z).meta.name) w' ≡ false)
        × (is_there (secret (desired_certificate z).spec.secret_name z.meta.namespace) w' ≡ false)
        × (is_there (webhook_configuration (desired_webhooks z).meta.name) w' ≡ false))

  -- A run returns at the finalizer only for a webhook whose deletion was asked for and that had the
  -- operator's finalizer. The cluster role, its binding and the webhook configuration that the
  -- operator makes for it are gone then, and the secret that its certificate is kept in.
  pub finalizer_removed :
      (z : ZitiWebhook) (w w' : W) → check_finalizer F z w ≡ (ok return_now, w') → IsCleanedUp z w'
  unfolding check_finalizer desired_cluster_role desired_binding desired_certificate
      desired_webhooks
  finalizer_removed z w w' h = elim (Bool-cases z.deleting) [
    | inl e ↦
        let (had, (a, b, c, d)) =
          unregistered z w w'
            (sym (ap (λ f. f w) (if_true z.deleting (unregister F z) (register F z) e)) ∙ h) in
        (e, had, a, b, c, d)
    | inr e ↦ absurd (
        let c =
          registered z w w'
            (sym (ap (λ f. f w) (if_false z.deleting (unregister F z) (register F z) e)) ∙ h) in
        ground arith)
  ]
