-- ===== src/Operator/Renewal.antt =====
-- When `Reconcile` writes the administrator's secret.
use ziti_k8s_agent.Base.{
  ℕ, ◌≡◌, refl, sym, ap, ◌∙◌, arith, Bool, true, false, ◌&&◌, not, if◌then◌else◌, inl, inr, ◌⊎◌,
  ◌<◌, ◌/◌, Option, none, some, Text, codes, Result, ok, err, panic, Action, ◌>>=◌, ◌>>◌, lift,
  pure, >>=-eq-ok, ok_parts,
}
use ziti_k8s_agent.Base.{StringMap, index}
use ziti_k8s_agent.Operator.{ZitiController}
use ziti_k8s_agent.Operator.Admin.{
  OperatorApi, IdentityConfig, Secret, found, secret_name, admin_secret, enroll_identity_with_jwt,
  update_admin_secret, verify_ott, parse_certificate, check_cert_expiration, ignore_error, renew,
  settle_fetched, settle_secret,
}

module _ {W Claims : Type 0} (A : OperatorApi W Claims) where
  -- The certificate is one that was valid until a time that has passed.
  abbrev pub IsExpired : ℕ → Text → Type 0
  IsExpired now pem =
      (block : Text) × (not_after : ℕ) × (A.pem_decode pem ≡ some block)
      × (A.parse_der block ≡ ok not_after)
      × (not_after < now)

  -- The token is one that cannot be parsed, or one that has expired.
  abbrev pub IsInvalid : ℕ → Text → Type 0
  IsInvalid now jwt =
      ((e : Text) × (A.parse_unverified jwt ≡ err e))
      ⊎ ((exp : ℕ) × (A.parse_unverified jwt ≡ ok (some exp)) × (exp < now / 1000000000))

  -- The token was enrolled, and what came of it is in the updated secret.
  abbrev pub IsRenewed : ZitiController → W → W → Type 0
  IsRenewed z w w' =
      (claims : Claims) × (config : IdentityConfig) × (secret : Secret) × (w₁ : W) × (A.parse_token
          z.spec.admin_jwt
        ≡ ok claims)
      × (A.enroll claims (codes "RSA") w ≡ (ok config, w₁))
      × (A.own z (admin_secret z config) ≡ ok secret)
      × (A.update_secret secret w₁ ≡ (ok tt, w'))

  IsExpired-of :
      (now : ℕ) (pem : Text) → check_cert_expiration A now pem ≡ ok true → IsExpired now pem
  unfolding check_cert_expiration parse_certificate
  IsExpired-of now pem h = by_block (A.pem_decode pem) refl
    where
      by_not_after :
          (block : Text)
          → A.pem_decode pem ≡ some block
          → (r : Result ℕ) → A.parse_der block ≡ r
          → IsExpired now pem
      by_not_after block b (ok not_after) e = (
        block,
        not_after,
        b,
        e,
        ground (arith, (rw (check_cert_expiration, parse_certificate, b, e) at h)),
      )
      by_not_after block b (err m) e =
          absurd (ground (arith, (rw (check_cert_expiration, parse_certificate, b, e) at h)))
      by_not_after block b panic e =
          absurd (ground (arith, (rw (check_cert_expiration, parse_certificate, b, e) at h)))

      by_block : (o : Option Text) → A.pem_decode pem ≡ o → IsExpired now pem
      by_block none e =
          absurd (ground (arith, (rw (check_cert_expiration, parse_certificate, e) at h)))
      by_block (some block) e = by_not_after block e (A.parse_der block) refl

  IsInvalid-of : (now : ℕ) (jwt : Text) → verify_ott A now jwt ≡ ok false → IsInvalid now jwt
  unfolding verify_ott
  IsInvalid-of now jwt h = by_result (A.parse_unverified jwt) refl
    where
      by_result : (r : Result (Option ℕ)) → A.parse_unverified jwt ≡ r → IsInvalid now jwt
      by_result (ok none) e = absurd (ground (arith, (rw (verify_ott, e) at h)))
      by_result (ok (some exp)) e = inr (exp, e, ground (arith, (rw (verify_ott, e) at h)))
      by_result (err m) e = inl (m, e)
      by_result panic e = absurd (ground (arith, (rw (verify_ott, e) at h)))

  IsRenewed-of :
      (z : ZitiController) (w w' : W)
      → update_admin_secret A z (codes "update") w ≡ (ok tt, w')
      → IsRenewed z w w'
  unfolding update_admin_secret enroll_identity_with_jwt
  IsRenewed-of z w w' h =
      let write : Secret → Action W (Unit {0}) = λ secret. A.update_secret secret >> pure tt in
      let (config, w₁, enrolled, rest) =
        >>=-eq-ok (enroll_identity_with_jwt A z.spec.admin_jwt)
          (λ config. lift (A.own z (admin_secret z config)) >>= write) w w' tt h in
      let (claims, w₀, parsed, sent) =
        >>=-eq-ok (lift (A.parse_token z.spec.admin_jwt)) (λ c. A.enroll c (codes "RSA")) w w₁
          config enrolled in
      let (secret, w₂, owned, written) =
        >>=-eq-ok (lift (A.own z (admin_secret z config))) write w₁ w' tt rest in
      let (u, w₃, updated, done) =
        >>=-eq-ok (A.update_secret secret) (λ _. pure tt) w₂ w' tt written in
      let start : w ≡ w₀ = ap (λ p. p.1) parsed in
      let same : w₁ ≡ w₂ = ap (λ p. p.1) owned in
      (
        claims,
        config,
        secret,
        w₁,
        ap (λ p. p.0) parsed,
        rw start sent,
        ap (λ p. p.0) owned,
        rw (same, ← (ok_parts tt tt w₃ w' done).1) updated,
      )

  known : (r : Result Bool) → ignore_error A r ≡ ok true → r ≡ ok true
  known (ok b) h = h
  known (err e) h = absurd (ground arith)
  known panic h = absurd (ground arith)

  -- Why nothing is written: the token is valid, or the certificate does not count as expired.
  abbrev pub IsKept : ℕ → ZitiController → StringMap → Type 0
  IsKept now z secret =
      (verify_ott A now z.spec.admin_jwt ≡ ok true)
      ⊎ (ignore_error A (check_cert_expiration A now (index secret (codes "tls.crt"))) ≡ ok false)

  -- Where the cluster holds the administrator's secret, a successful step either writes nothing, and
  -- then the token of the controller is still valid or its certificate is not known to be expired;
  -- or it enrolled the token and updated the secret with what came of it, and then the certificate
  -- has expired, and the token cannot be parsed or has expired.
  pub renewal :
      (now : ℕ) (z : ZitiController) (secret : StringMap) (w w₁ w' : W)
      → A.get_secret z.namespace (secret_name z) w ≡ (found secret, w₁)
      → settle_secret A now z w ≡ (ok tt, w')
      → ((w' ≡ w₁) × IsKept now z secret)
        ⊎ (IsExpired now (index secret (codes "tls.crt"))
            × IsInvalid now z.spec.admin_jwt
            × IsRenewed z w₁ w')
  unfolding settle_secret renew
  renewal now z secret w w₁ w' there h =
      let cert = ignore_error A (check_cert_expiration A now (index secret (codes "tls.crt"))) in
      let write : Bool → Bool → Action W (Unit {0}) = λ valid over.
        if over && not valid then update_admin_secret A z (codes "update") else pure tt in
      let run = sym (ap (λ p. settle_fetched A now z p.0 p.1) there) ∙ h in
      let (valid, w₂, read, rest) =
        >>=-eq-ok (lift (verify_ott A now z.spec.admin_jwt))
          (λ valid. lift cert >>= λ over. write valid over) w₁ w' tt run in
      let (over, w₃, checked, done) = >>=-eq-ok (lift cert) (write valid) w₂ w' tt rest in
      let same : w₁ ≡ w₃ = ap (λ p. p.1) read ∙ ap (λ p. p.1) checked in
      decided valid over (ap (λ p. p.0) read) (ap (λ p. p.0) checked) w₃ same done
    where
      decided :
          (valid over : Bool)
          → verify_ott A now z.spec.admin_jwt ≡ ok valid
          → ignore_error A (check_cert_expiration A now (index secret (codes "tls.crt"))) ≡ ok over
          → (w₃ : W) → w₁ ≡ w₃
          → (if over && not valid then update_admin_secret A z (codes "update") else pure tt) w₃
            ≡ (ok tt, w')
          → ((w' ≡ w₁) × IsKept now z secret)
            ⊎ (IsExpired now (index secret (codes "tls.crt"))
                × IsInvalid now z.spec.admin_jwt
                × IsRenewed z w₁ w')
      decided true true read checked w₃ same done =
          inl (sym (same ∙ (ok_parts tt tt w₃ w' done).1), inl read)
      decided true false read checked w₃ same done =
          inl (sym (same ∙ (ok_parts tt tt w₃ w' done).1), inl read)
      decided false false read checked w₃ same done =
          inl (sym (same ∙ (ok_parts tt tt w₃ w' done).1), inr checked)
      decided false true read checked w₃ same done = inr (
        IsExpired-of now (index secret (codes "tls.crt"))
            (known (check_cert_expiration A now (index secret (codes "tls.crt"))) checked),
        IsInvalid-of now z.spec.admin_jwt read,
        IsRenewed-of z w₁ w' (rw (← same) at done),
      )
