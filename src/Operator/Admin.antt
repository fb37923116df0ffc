-- ===== src/Operator/Admin.antt =====
-- `ZitiControllerReconciler` of ziti-agent/operator/internal/controller/ziticontroller_controller.go:
-- the secret with the administrator's identity, and the channels to the two other reconcilers. The
-- Kubernetes client, the enrollment SDK, the JWT parser, the certificate parser and the clock are
-- parameters. Times are nanoseconds.
use ziti_k8s_agent.Base.{
  ℕ, Bool, true, false, not, ◌&&◌, Option, none, some, List, [], ◌∷◌, ◌++◌, Text, codes, text_eq,
  is_empty, length, ltb, if◌then◌else◌, Result, ok, err, panic,
}
use ziti_k8s_agent.Base.{StringMap, index, Action, ◌>>=◌, ◌>>◌, pure, fail, lift, trim_prefix, ◌/◌}
use ziti_k8s_agent.Operator.{ZitiController, ZitiControllerSpec}

-- What `r.Get` gives: the object, the error that says it is not there, or another error.
pub data Fetch (A : Type 0) : Type 0 where
  found : A → Fetch A
  not_found : Fetch A
  failed : Text → Fetch A

-- `corev1.Secret`
pub record Secret : Type 0 where
  pub name : Text
  pub namespace : Text
  pub labels : StringMap
  pub data_map : StringMap
  pub secret_type : Text

-- The `ID` of `ziti.Config`.
pub record IdentityConfig : Type 0 where
  pub key : Text
  pub cert : Text
  pub ca : Text

pub record OperatorApi (W Claims : Type 0) : Type 0 where
  pub get_controller : Text → W → Fetch ZitiController × W
  pub get_secret : Text → Text → W → Fetch StringMap × W
  pub create_secret : Secret → Action W (Unit {0})
  pub update_secret : Secret → Action W (Unit {0})
  -- `controllerutil.SetControllerReference`
  pub own : ZitiController → Secret → Result Secret
  pub parse_token : Text → Result Claims
  pub enroll : Claims → Text → Action W IdentityConfig
  -- The `exp` claim of a JWT, in seconds; `none` where it is missing or no number.
  pub parse_unverified : Text → Result (Option ℕ)
  pub pem_decode : Text → Option Text
  -- `NotAfter`
  pub parse_der : Text → Result ℕ

abbrev pub no_controller : ZitiController
no_controller = record {
  name = [];
  namespace = [];
  spec = record { name = []; admin_jwt = []; ziti_ctrl_mgmt_api = [] };
}

abbrev pub secret_name : ZitiController → Text
secret_name z = z.spec.name ++ codes "-secret"

abbrev pub admin_secret : ZitiController → IdentityConfig → Secret
admin_secret z config = record {
  name = secret_name z;
  namespace = z.namespace;
  labels =
      (codes "app", z.spec.name)
      ∷ (codes "app.kubernetes.io/name", z.spec.name ++ b'-' ∷ z.namespace)
      ∷ [];
  data_map =
      (codes "tls.key", trim_prefix config.key (codes "pem:"))
      ∷ (codes "tls.crt", trim_prefix config.cert (codes "pem:"))
      ∷ (codes "tls.ca", trim_prefix config.ca (codes "pem:"))
      ∷ [];
  secret_type = codes "kubernetes.io/tls";
}

-- `ReconcileResult`: whether the next run is asked for in a minute.
pub data Requeue : Type 0 where
  no_requeue after_minute : Requeue

-- The channels and the flag of `ZitiControllerReconciler`.
pub record Reconciler : Type 0 where
  pub webhook_chan : List ZitiController
  pub router_chan : List ZitiController
  pub channel_checked : Bool

-- The capacity that the channels are made with.
abbrev pub capacity : ℕ
capacity = 10

-- A send in a `select` with a default: nothing is sent where the channel is full.
abbrev pub try_send : List ZitiController → ZitiController → List ZitiController
try_send chan z = if ltb (length chan) capacity then chan ++ z ∷ [] else chan

-- A blocking send, once there is room.
abbrev pub send : List ZitiController → ZitiController → List ZitiController
send chan z = chan ++ z ∷ []

abbrev pub spec_eq : ZitiControllerSpec → ZitiControllerSpec → Bool
spec_eq a b =
    text_eq a.name b.name
    && (text_eq a.admin_jwt b.admin_jwt && text_eq a.ziti_ctrl_mgmt_api b.ziti_ctrl_mgmt_api)

abbrev pub first_access : ZitiController → Reconciler → Reconciler
first_access z r = if r.channel_checked then r else record {
  webhook_chan = try_send r.webhook_chan z;
  router_chan = try_send r.router_chan z;
  channel_checked = true;
}

abbrev pub send_changed : Bool → ZitiController → Reconciler → Reconciler
send_changed false z r = r
send_changed true z r = record r {
  webhook_chan = send r.webhook_chan z;
  router_chan = send r.router_chan z;
}

-- The end of `Reconcile`, with the copy that it made of the object and the object.
unfoldable pub notify : ZitiController → ZitiController → Reconciler → Reconciler
notify existing z r = send_changed (not (spec_eq existing.spec z.spec)) z (first_access z r)

module _ {W Claims : Type 0} (A : OperatorApi W Claims) where
  unfoldable pub enroll_identity_with_jwt : Text → Action W IdentityConfig
  enroll_identity_with_jwt jwt =
      lift (A.parse_token jwt) >>= λ claims. A.enroll claims (codes "RSA")

  abbrev pub if_method : Text → Text → Action W (Unit {0}) → Action W (Unit {0})
  if_method method name m = if text_eq method name then m else pure tt

  unfoldable pub update_admin_secret : ZitiController → Text → Action W (Unit {0})
  unfolding enroll_identity_with_jwt
  update_admin_secret z method = enroll_identity_with_jwt z.spec.admin_jwt >>= λ config.
      lift (A.own z (admin_secret z config)) >>= λ secret.
      (if_method method (codes "update") (A.update_secret secret)
        >> if_method method (codes "create") (A.create_secret secret))

  abbrev pub unexpired : ℕ → Result (Option ℕ) → Result Bool
  unexpired now (ok none) = panic
  unexpired now (ok (some exp)) = ok (if ltb exp (now / 1000000000) then false else true)
  unexpired now (err e) = ok false
  unexpired now panic = panic

  -- Whether the one-time token is still valid.
  unfoldable pub verify_ott : ℕ → Text → Result Bool
  verify_ott now ott = unexpired now (A.parse_unverified ott)

  unfoldable pub parse_certificate : Text → Result ℕ
  parse_certificate cert_data = elim (A.pem_decode cert_data) [
    | none ↦ err (codes "failed to decode PEM-encoded certificate")
    | some block ↦ elim (A.parse_der block) [
      | ok not_after ↦ ok not_after
      | err e ↦ err (codes "failed to parse certificate: " ++ e)
      | panic ↦ panic
    ]
  ]

  unfoldable pub check_cert_expiration : ℕ → Text → Result Bool
  unfolding parse_certificate
  check_cert_expiration now cert_data = elim (parse_certificate cert_data) [
    | ok not_after ↦ ok (ltb not_after now)
    | err e ↦ err (codes "failed to parse certificate: " ++ e)
    | panic ↦ panic
  ]

  -- `isCertExpired, _ :=`, which is false where the check fails.
  abbrev pub ignore_error : Result Bool → Result Bool
  ignore_error (ok b) = ok b
  ignore_error (err e) = ok false
  ignore_error panic = panic

  -- The branch for a secret that `r.Get` did not report missing.
  unfoldable pub renew : ℕ → ZitiController → StringMap → Action W (Unit {0})
  renew now z secret = lift (verify_ott now z.spec.admin_jwt) >>= λ is_ott_expired.
      lift (ignore_error (check_cert_expiration now (index secret (codes "tls.crt"))))
      >>= λ is_cert_expired.
          (if is_cert_expired && not is_ott_expired
            then update_admin_secret z (codes "update")
            else pure tt)

  abbrev pub settle_fetched : ℕ → ZitiController → Fetch StringMap → Action W (Unit {0})
  settle_fetched now z not_found =
      if is_empty z.spec.admin_jwt
      then fail (codes "admin jwt is empty")
      else update_admin_secret z (codes "create")
  settle_fetched now z (found secret) = renew now z secret
  settle_fetched now z (failed e) = renew now z []

  unfoldable pub settle_secret : ℕ → ZitiController → Action W (Unit {0})
  settle_secret now z w =
      let (secret, w') = A.get_secret z.namespace (secret_name z) w in
      settle_fetched now z secret w'

  abbrev pub after_secret :
      ZitiController → Reconciler → Result (Unit {0}) × W → Result Requeue × Reconciler × W
  after_secret z r (ok _, w) = (ok after_minute, notify z z r, w)
  after_secret z r (err e, w) = (err e, r, w)
  after_secret z r (panic, w) = (panic, r, w)

  abbrev pub reconcile_fetched :
      ℕ → Reconciler → Fetch ZitiController → W → Result Requeue × Reconciler × W
  reconcile_fetched now r not_found w = (ok no_requeue, r, w)
  reconcile_fetched now r (found z) w = after_secret z r (settle_secret now z w)
  reconcile_fetched now r (failed e) w =
      after_secret no_controller r (settle_secret now no_controller w)

  unfoldable pub reconcile : ℕ → Text → Reconciler → W → Result Requeue × Reconciler × W
  reconcile now key r w = let (z, w') = A.get_controller key w in reconcile_fetched now r z w'
