-- ===== src/Operator/Tests.antt =====
-- Tests of the operator.
use ziti_k8s_agent.Base.{
  ◌+◌, ◌≤◌, ◌≡◌, ◌⊎◌, refl, true, false, some, List, [], ◌∷◌, codes, length, ok, pos,
}
use ziti_k8s_agent.Operator.{ZitiController}
use ziti_k8s_agent.Operator.Admin.{
  OperatorApi, found, Secret, admin_secret, reconcile, settle_secret, renew,
  enroll_identity_with_jwt, verify_ott, check_cert_expiration, parse_certificate,
  update_admin_secret,
}
use ziti_k8s_agent.Operator.Renewal.{IsExpired, IsInvalid, IsRenewed, IsKept, renewal}
use ziti_k8s_agent.Operator.Channels.{
  Watch, watch_start, reconciled, Reached, start, next, sent_at_most_once,
}
use ziti_k8s_agent.Operator.Merge.{
  text, int, struct, Fields, no_fields, field, merge_specs, merge_value, merge_fields,
  is_managed_field, is_zero_value, is_go_zero, all_go_zero,
}
use ziti_k8s_agent.Operator.Plain.{Plain, AllPlain}
use ziti_k8s_agent.Operator.Settled.{merge_specs_again}
use ziti_k8s_agent.Operator.Merged.{ExtendsAll, merge_specs_fills}

abbrev sample_controller : ZitiController
sample_controller = record {
  name = codes "ctrl";
  namespace = codes "ziti";
  spec = record { name = codes "controller1"; admin_jwt = codes "jwt"; ziti_ctrl_mgmt_api = [] };
}

-- The secrets that were written. The certificate expires after 5 s, and the token after 7 s.
abbrev sample_operator : OperatorApi (List Secret) (Unit {0})
sample_operator = record {
  get_controller = λ key w. (found sample_controller, w);
  get_secret = λ namespace name w. (found ((codes "tls.crt", codes "pem") ∷ []), w);
  create_secret = λ secret w. (ok tt, secret ∷ w);
  update_secret = λ secret w. (ok tt, secret ∷ w);
  own = λ z secret. ok secret;
  parse_token = λ jwt. ok tt;
  enroll = λ claims alg w. (ok (record { key = codes "k"; cert = codes "c"; ca = codes "a" }), w);
  parse_unverified = λ jwt. ok (some 7);
  pem_decode = λ pem. some pem;
  parse_der = λ der. ok 5000000000;
}

-- Eight seconds after the start both have expired.
abbrev renewed_secrets : List Secret
renewed_secrets =
    admin_secret sample_controller (record { key = codes "k"; cert = codes "c"; ca = codes "a" })
    ∷ []

renewed : settle_secret sample_operator 8000000000 sample_controller [] ≡ (ok tt, renewed_secrets)
unfolding settle_secret renew verify_ott check_cert_expiration parse_certificate update_admin_secret
    enroll_identity_with_jwt
renewed = refl

renewal_example :
    ((renewed_secrets ≡ [])
      × IsKept sample_operator 8000000000 sample_controller ((codes "tls.crt", codes "pem") ∷ []))
    ⊎ (IsExpired sample_operator 8000000000 (codes "pem")
        × IsInvalid sample_operator 8000000000 (codes "jwt")
        × IsRenewed sample_operator sample_controller [] renewed_secrets)
renewal_example =
    renewal sample_operator 8000000000 sample_controller ((codes "tls.crt", codes "pem") ∷ []) [] []
      renewed_secrets refl renewed

abbrev watch_sent : Watch
watch_sent = record {
  reconciler = (reconcile sample_operator 4000000000 (codes "ctrl") watch_start.reconciler []).1;
  received = [];
}

sent : Reached sample_operator watch_sent
sent = next start (reconciled 4000000000 (codes "ctrl") [])

sent_at_most_once_example :
    length watch_sent.received + length watch_sent.reconciler.webhook_chan ≤ 1
sent_at_most_once_example = sent_at_most_once sample_operator sent

abbrev sample_current : Fields
sample_current = field (codes "Name") true (text []) (
    field (codes "Model") true
      (struct (
        field (codes "Cost") true (int (pos 0)) (
          field (codes "Path") true (text [])
            (field (codes "Kind") true (text (codes "k")) no_fields))))
      no_fields)

abbrev sample_desired : Fields
sample_desired = field (codes "Name") true (text (codes "router1")) (
    field (codes "Model") true
      (struct (
        field (codes "Cost") true (int (pos 5)) (
          field (codes "Path") true (text (codes "/p"))
            (field (codes "Kind") true (text (codes "x")) no_fields))))
      no_fields)

-- The cost stays 0: an integer is filled only if it is negative.
abbrev sample_merged : Fields
sample_merged = field (codes "Name") true (text (codes "router1")) (
    field (codes "Model") true
      (struct (
        field (codes "Cost") true (int (pos 0)) (
          field (codes "Path") true (text (codes "/p"))
            (field (codes "Kind") true (text (codes "k")) no_fields))))
      no_fields)

merged : merge_specs sample_current sample_desired ≡ ok (sample_merged, true)
unfolding merge_specs merge_value merge_fields is_managed_field is_zero_value is_go_zero all_go_zero
merged = refl

merge_specs_fills_example :
    (true ≡ false → sample_merged ≡ sample_current) × ExtendsAll sample_current sample_merged
merge_specs_fills_example =
    merge_specs_fills sample_current sample_desired sample_merged true merged

current-AllPlain : AllPlain sample_current
unfolding Plain AllPlain is_zero_value is_go_zero all_go_zero
current-AllPlain = (λ e. refl, ((λ e. refl, (λ e. refl, (λ e. e, tt))), tt))

desired-AllPlain : AllPlain sample_desired
unfolding Plain AllPlain is_zero_value is_go_zero all_go_zero
desired-AllPlain = (λ e. e, ((λ e. e, (λ e. e, (λ e. e, tt))), tt))

merge_specs_again_example : merge_specs sample_merged sample_desired ≡ ok (sample_merged, false)
merge_specs_again_example =
    merge_specs_again sample_current sample_desired sample_merged true current-AllPlain
      desired-AllPlain merged
