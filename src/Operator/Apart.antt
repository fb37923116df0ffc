-- ===== src/Operator/Apart.antt =====
-- Settling one object leaves an object of another kind settled.
use ziti_k8s_agent.Base.{
  ◌≡◌, ap, arith, Bool, true, false, Text, Result, ok, ok_parts, >>=-eq-ok, ◌>>=◌, lift, pure,
}
use ziti_k8s_agent.Operator.Admin.{Fetch, found, not_found, failed}
use ziti_k8s_agent.Operator.Objects.{Object}
use ziti_k8s_agent.Operator.Ensure.{Store, ensure, settle, patch_if}
use ziti_k8s_agent.Operator.Ensured.{Apart}

module _ {W S St T Tt : Type 0} (store : Store W (Object S St)) (other : Store W (Object T Tt))
    (reads : (namespace name : Text) (w : W) → (other.get namespace name w).1 ≡ w)
    (apart : Apart store other) (namespace name : Text) (f : Fetch (Object S St)) where
  abbrev Reads : W → Type 0
  Reads w = store.get namespace name w ≡ (f, w)

  Reads-patch :
      (old new a : Object T Tt) (needs : Bool) (w w' : W)
      → patch_if other old (new, needs) w ≡ (ok a, w')
      → Reads w
      → Reads w'
  Reads-patch old new a true w w' h g = apart.patched namespace name f old new (ok a) w w' h g
  Reads-patch old new a false w w' h g = rw (← (ok_parts new a w w' h).1) g

  Reads-settle :
      (update : Object T Tt → Result (Object T Tt × Bool))
      → (nothing : Object T Tt) (created : Result (Object T Tt)) (r : Fetch (Object T Tt))
      → (a : Object T Tt) (w w' : W) → settle other nothing created update r w ≡ (ok a, w')
      → Reads w
      → Reads w'
  Reads-settle update nothing created not_found a w w' h g =
      let (c, w₁, made, rest) =
        >>=-eq-ok (lift created) (λ d. other.create d >>= λ _. pure nothing) w w' a h in
      let (u, w₂, sent, done) = >>=-eq-ok (other.create c) (λ _. pure nothing) w₁ w' a rest in
      let world : w ≡ w₁ = ap (λ p. p.1) made in
      rw (← (ok_parts nothing a w₂ w' done).1)
        (apart.created namespace name f c (ok u) w₁ w₂ sent (rw (← world) g))
  Reads-settle update nothing created (found a₀) a w w' h g =
      let ((new, needs), w₁, made, rest) =
        >>=-eq-ok (lift (update a₀)) (patch_if other a₀) w w' a h in
      let world : w ≡ w₁ = ap (λ p. p.1) made in
      Reads-patch a₀ new a needs w₁ w' rest (rw (← world) g)
  Reads-settle update nothing created (failed e) a w w' h g = absurd (ground arith)

  -- What is read of one kind of object stays as it is.
  pub ensure_apart :
      (update : Object T Tt → Result (Object T Tt × Bool))
      → (nothing : Object T Tt) (created : Result (Object T Tt)) (namespace' name' : Text)
      → (a : Object T Tt) (w w' : W)
      → ensure other namespace' name' nothing created update w ≡ (ok a, w')
      → store.get namespace name w ≡ (f, w)
      → store.get namespace name w' ≡ (f, w')
  unfolding ensure
  ensure_apart update nothing created namespace' name' a w w' h g =
      Reads-settle update nothing created (other.get namespace' name' w).0 a w w'
        (rw (reads namespace' name' w) at h) g
