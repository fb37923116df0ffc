-- ===== src/Naming/Shape.antt =====
-- What `buildZitiIdentityName` gives on each of its paths.
use ziti_k8s_agent.Base.{
  ◌≤◌, true, ◌∷◌, ◌++◌, Option, none, some, Text, lookup, ◌≡◌, refl, ◌↔◌, inl, inr, arith, length,
  take, leb, leb→le, length-append, length-take, has_prefix, has_prefix-append, take-append_of_le,
  append_assoc, Result, ok, err, Bool-cases, Option-cases,
}
use ziti_k8s_agent.Kube.{ObjectMeta}
use ziti_k8s_agent.Naming.{
  base_name, validate_name, add_hash, build_ziti_identity_name, label_name, missing_name,
  match_name, non_empty, label_app, label_app_name, label_app_instance, label_app_component,
  or_next,
}
use ziti_k8s_agent.Naming.Language.{IsName, match_name_iff}

pub length-base_name :
    (prefix name namespace : Text) → length (base_name prefix name namespace) ≤ 50
unfolding base_name
length-base_name prefix name namespace =
    let full = prefix ++ b'-' ∷ (name ++ b'-' ∷ namespace) in ground (arith, length-take 50 full)

has_prefix-base_name :
    (prefix name namespace rest : Text)
    → length prefix ≤ 50
    → has_prefix (base_name prefix name namespace ++ rest) prefix ≡ true
unfolding base_name
has_prefix-base_name prefix name namespace rest h =
    elim (Bool-cases (leb (length (prefix ++ b'-' ∷ (name ++ b'-' ∷ namespace))) 50)) [
      | inl short ↦
          rw (short, append_assoc prefix (b'-' ∷ (name ++ b'-' ∷ namespace)) rest)
            (has_prefix-append prefix _)
      | inr long ↦
          rw
            (
              long,
              take-append_of_le 50 prefix (b'-' ∷ (name ++ b'-' ∷ namespace)) h,
              append_assoc prefix _ rest,
            )
            (has_prefix-append prefix _)
    ]

-- The parts of a name that was built.
pub record IsBuilt (prefix : Text) (meta : ObjectMeta) (uid built : Text) : Type 0 where
  pub label : Text
  pub chosen : label_name meta.labels ≡ some label
  pub spelled : built ≡ base_name prefix label meta.namespace ++ b'-' ∷ take 8 uid
  pub long_uid : 8 ≤ length uid
  pub well_formed : IsName built

validate_name_ok :
    (text built : Text) → validate_name text ≡ ok built → (built ≡ text) × IsName text
unfolding validate_name
validate_name_ok text built h = elim (Bool-cases (match_name text)) [
  | inl m ↦ (ground arith, (match_name_iff text).0 m)
  | inr m ↦ (ground arith, ground arith)
]

add_hash_ok :
    (base uid built : Text)
    → add_hash base uid ≡ ok built
    → (8 ≤ length uid) × (built ≡ base ++ b'-' ∷ take 8 uid) × IsName built
unfolding add_hash
add_hash_ok base uid built h = elim (Bool-cases (leb 8 (length uid))) [
  | inl long ↦
      let (e, n) = validate_name_ok (base ++ b'-' ∷ take 8 uid) built (ground arith) in
      (leb→le 8 (length uid) long, e, rw e n)
  | inr short ↦ (ground arith, ground arith, ground arith)
]

pub build-IsBuilt :
    (prefix : Text) (meta : ObjectMeta) (uid built : Text)
    → build_ziti_identity_name prefix meta uid ≡ ok built
    → IsBuilt prefix meta uid built
unfolding build_ziti_identity_name
build-IsBuilt prefix meta uid built h = elim (Option-cases (label_name meta.labels)) [
  | inl missing ↦ absurd (ground arith)
  | inr (name, found) ↦
      let (long, e, n) =
        add_hash_ok (base_name prefix name meta.namespace) uid built (ground arith) in
      record { label = name; chosen = found; spelled = e; long_uid = long; well_formed = n }
]

length_8 : (uid : Text) → 8 ≤ length uid → length (take 8 uid) ≡ 8
length_8 uid h = omega (arith, length-take {0} 8 uid)

-- A name that `buildZitiIdentityName` returns is a text of its regular expression, of at most 59
-- bytes; it ends in a dash and the first eight bytes of the UID, and one of the labels was picked
-- for it.
pub build-IsName :
    (prefix : Text) (meta : ObjectMeta) (uid built : Text)
    → build_ziti_identity_name prefix meta uid ≡ ok built
    → IsName built
      × (length built ≤ 59)
      × ((base : Text) × (built ≡ base ++ b'-' ∷ take 8 uid))
      × ((label : Text) × (label_name meta.labels ≡ some label))
build-IsName prefix meta uid built h =
    let b = build-IsBuilt prefix meta uid built h in
    let base = base_name prefix b.label meta.namespace in
    (
      b.well_formed,
      rw b.spelled (
          omega (
            arith,
            length-append {0} base (b'-' ∷ take 8 uid),
            length-base_name prefix b.label meta.namespace,
            length_8 uid b.long_uid,
          )),
      (base, b.spelled),
      (b.label, b.chosen),
    )

-- A name begins with the prefix, if that has at most 50 bytes.
pub build-has_prefix :
    (prefix : Text) (meta : ObjectMeta) (uid built : Text)
    → length prefix ≤ 50
    → build_ziti_identity_name prefix meta uid ≡ ok built
    → has_prefix built prefix ≡ true
build-has_prefix prefix meta uid built short h =
    let b = build-IsBuilt prefix meta uid built h in
    rw b.spelled (has_prefix-base_name prefix b.label meta.namespace _ short)

-- The text of the other error begins otherwise.
validate_name-ne-missing : (text : Text) → validate_name text ≡ err missing_name → ⊥
unfolding validate_name
validate_name-ne-missing text h = ground arith

-- The error for a missing name is returned exactly when none of the four labels, `app`,
-- `app.kubernetes.io/name`, `…/instance` and `…/component`, has a value that is not empty.
pub build_missing_iff :
    (prefix : Text) (meta : ObjectMeta) (uid : Text)
    → (build_ziti_identity_name prefix meta uid ≡ err missing_name) ↔ (
        (non_empty (lookup label_app meta.labels) ≡ none)
        × (non_empty (lookup label_app_name meta.labels) ≡ none)
        × (non_empty (lookup label_app_instance meta.labels) ≡ none)
        × (non_empty (lookup label_app_component meta.labels) ≡ none))
unfolding build_ziti_identity_name label_name add_hash
build_missing_iff prefix meta uid =
    split (non_empty (lookup label_app meta.labels)) (non_empty (lookup label_app_name meta.labels))
      (non_empty (lookup label_app_instance meta.labels))
      (non_empty (lookup label_app_component meta.labels))
  where
    hashed : (base : Text) → add_hash base uid ≡ err missing_name → ⊥
    hashed base h = elim (Bool-cases (leb 8 (length uid))) [
      | inl long ↦ validate_name-ne-missing (base ++ b'-' ∷ take 8 uid) (ground arith)
      | inr short ↦ ground arith
    ]

    build : Option Text → Result Text
    build o = elim o [
      | none ↦ err missing_name
      | some name ↦ add_hash (base_name prefix name meta.namespace) uid
    ]

    split :
        (a b c d : Option Text)
        → (build (or_next a (or_next b (or_next c d))) ≡ err missing_name)
          ↔ ((a ≡ none) × (b ≡ none) × (c ≡ none) × (d ≡ none))
    split none none none none = (λ _. (refl, refl, refl, refl), λ _. refl)
    split (some n) b c d = (λ h. absurd (hashed _ h), λ p. absurd (ground arith))
    split none (some n) c d = (λ h. absurd (hashed _ h), λ p. absurd (ground arith))
    split none none (some n) d = (λ h. absurd (hashed _ h), λ p. absurd (ground arith))
    split none none none (some n) = (λ h. absurd (hashed _ h), λ p. absurd (ground arith))
