-- ===== src/Naming/Uniqueness.antt =====
-- The UID keeps names apart.
use ziti_k8s_agent.Base.{
  ℕ, ◌-◌, ◌∷◌, ◌++◌, Text, ◌≡◌, ◌≢◌, sym, ap, ◌∙◌, arith, length, take, drop, length-append,
  length-take, drop-append, ok,
}
use ziti_k8s_agent.Kube.{ObjectMeta}
use ziti_k8s_agent.Naming.{base_name, build_ziti_identity_name}
use ziti_k8s_agent.Naming.Shape.{IsBuilt, build-IsBuilt}

-- What follows a text of a known length.
drop-append_at : (n : ℕ) (xs ys : Text) → n ≡ length xs → drop n (xs ++ ys) ≡ ys
drop-append_at n xs ys h = rw h (drop-append xs ys)

-- The last eight bytes of a name are the first eight of the UID.
hash_of_built :
    (prefix : Text) (meta : ObjectMeta) (uid built : Text)
    → IsBuilt prefix meta uid built
    → drop (length built - 9) built ≡ b'-' ∷ take 8 uid
hash_of_built prefix meta uid built b =
    let base = base_name prefix b.label meta.namespace in
    rw b.spelled (
      drop-append_at (length (base ++ b'-' ∷ take 8 uid) - 9) base (b'-' ∷ take 8 uid) (
        omega
          (arith, length-append {0} base (b'-' ∷ take 8 uid), length-take {0} 8 uid, b.long_uid)))

-- Requests whose UIDs differ within the first eight bytes get different identity names, whatever
-- the prefixes, labels and namespaces of the two pods are.
pub build_distinct :
    (prefix prefix' : Text) (meta meta' : ObjectMeta) (uid uid' built built' : Text)
    → build_ziti_identity_name prefix meta uid ≡ ok built
    → build_ziti_identity_name prefix' meta' uid' ≡ ok built'
    → take 8 uid ≢ take 8 uid'
    → built ≢ built'
build_distinct prefix prefix' meta meta' uid uid' built built' h h' differ same =
    let e = hash_of_built prefix meta uid built (build-IsBuilt prefix meta uid built h) in
    let e' = hash_of_built prefix' meta' uid' built' (build-IsBuilt prefix' meta' uid' built' h') in
    let here : (b'-' ∷ take 8 uid) ≡ (b'-' ∷ take 8 uid') =
      sym e ∙ (ap (λ t. drop (length t - 9) t) same ∙ e') in
    differ (ap (drop 1) here)
