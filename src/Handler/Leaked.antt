-- ===== src/Handler/Leaked.antt =====
-- A creation that is refused after its identity was made.
use ziti_k8s_agent.Base.{
  ◌≡◌, refl, ap, ◌∙◌, Option, none, some, Bool, false, List, [], ◌∷◌, ◌++◌, arith, Text, is_empty,
  Result, ok, err, panic,
}
use ziti_k8s_agent.Base.{or_return, Action}
use ziti_k8s_agent.Kube.{ObjectMeta}
use ziti_k8s_agent.Naming.{build_ziti_identity_name}
use ziti_k8s_agent.Cluster.{KubeApi}
use ziti_k8s_agent.Edge.{EdgeApi, IdentityDetail, get_identity_by_id}
use ziti_k8s_agent.Edge.Identities.{create_identity, get_identity_token, jwt_of}
use ziti_k8s_agent.Edge.Lawful.{IsLawful, LacksId, LacksName}
use ziti_k8s_agent.Edge.Tokens.{enrolled}
use ziti_k8s_agent.Handler.{
  ZitiConfig, AdmissionResponse, empty_response, failure_response, new_ziti_handler, ziti_client,
  cluster_client,
}
use ziti_k8s_agent.Handler.Enrolled.{KeepsIdentities, dns_keeps}
use ziti_k8s_agent.Handler.Tunnel.{handle_tunnel_create}

module _ {W A : Type 0} where
  -- A step whose call succeeds, and one whose call fails.
  or_return_ok :
      (m : Action W A) (handle : Text → AdmissionResponse) (k : A → Action W AdmissionResponse)
      (w w₁ : W) (a : A)
      → m w ≡ (ok a, w₁)
      → or_return m handle k w ≡ k a w₁
  unfolding or_return
  or_return_ok m handle k w w₁ a e =
      ap
        (λ p. elim p.0 as (λ _. Result AdmissionResponse × W) [
          | ok a ↦ k a p.1
          | err m ↦ (ok (handle m), p.1)
          | panic ↦ (panic, p.1)
        ])
        e

  or_return_err :
      (m : Action W A) (handle : Text → AdmissionResponse) (k : A → Action W AdmissionResponse)
      (w w₁ : W) (e : Text)
      → m w ≡ (err e, w₁)
      → or_return m handle k w ≡ (ok (handle e), w₁)
  unfolding or_return
  or_return_err m handle k w w₁ a e =
      ap
        (λ p. elim p.0 as (λ _. Result AdmissionResponse × W) [
          | ok a ↦ k a p.1
          | err m ↦ (ok (handle m), p.1)
          | panic ↦ (panic, p.1)
        ])
        e

module _ {W X : Type 0} (view : W → X) where
  -- A step keeps a view of the world where its call and what follows keep it.
  pair_keeps :
      {A : Type 0} (p : Result A × W) (handle : Text → AdmissionResponse)
      (k : A → Action W AdmissionResponse) (x : X)
      → view p.1 ≡ x
      → ((a : A) (w : W) → view (k a w).1 ≡ view w)
      → view
          (elim p.0 as (λ _. Result AdmissionResponse × W) [
            | ok a ↦ k a p.1
            | err m ↦ (ok (handle m), p.1)
            | panic ↦ (panic, p.1)
          ]).1
        ≡ x
  pair_keeps (ok a, w) handle k x h rest = rest a w ∙ h
  pair_keeps (err m, w) handle k x h rest = h
  pair_keeps (panic, w) handle k x h rest = h

  or_return_keeps :
      {A : Type 0} (m : Action W A) (handle : Text → AdmissionResponse)
      (k : A → Action W AdmissionResponse) (w : W)
      → view (m w).1 ≡ view w
      → ((a : A) (w : W) → view (k a w).1 ≡ view w)
      → view (or_return m handle k w).1 ≡ view w
  unfolding or_return
  or_return_keeps m handle k w h rest = pair_keeps (m w) handle k (view w) h rest

module _ {W X : Type 0} (E : EdgeApi W) (view : W → X) where
  jwt_keeps :
      (p : Result IdentityDetail × W)
      → view
          (elim p.0 as (λ _. Result Text × W) [
            | ok i ↦ jwt_of i.ott p.1
            | err m ↦ (err m, p.1)
            | panic ↦ (panic, p.1)
          ]).1
        ≡ view p.1
  jwt_keeps (ok i, w) = ott_keeps i.ott
    where
      ott_keeps : (o : Option Text) → view (jwt_of o w).1 ≡ view w
      ott_keeps none = refl
      ott_keeps (some jwt) = refl
  jwt_keeps (err m, w) = refl
  jwt_keeps (panic, w) = refl

  token_keeps :
      (name id : Text) (w : W)
      → is_empty id ≡ false
      → view (E.detail_identity id w).1 ≡ view w
      → view (get_identity_token E name id w).1 ≡ view w
  unfolding get_identity_token get_identity_by_id
  token_keeps name [] w full h = absurd (ground arith)
  token_keeps name (c ∷ id) w full h = jwt_keeps (E.detail_identity (c ∷ id) w) ∙ h

module _ {W : Type 0} (E : EdgeApi W) where
  token_unread :
      (name id e : Text) (w w' : W)
      → is_empty id ≡ false
      → E.detail_identity id w ≡ (err e, w')
      → get_identity_token E name id w ≡ (err e, w')
  unfolding get_identity_token get_identity_by_id
  token_unread name [] e w w' full d = absurd (ground arith)
  token_unread name (c ∷ id) e w w' full d =
      ap
        (λ p. elim p.0 as (λ _. Result Text × W) [
          | ok i ↦ jwt_of i.ott p.1
          | err m ↦ (err m, p.1)
          | panic ↦ (panic, p.1)
        ])
        d

module _ {W : Type 0} (E : EdgeApi W) (identities : W → List IdentityDetail)
    (L : IsLawful E identities) where
  created_parts :
      (name role_key : Text) (meta : ObjectMeta) (w w₁ : W) (id : Text)
      → create_identity E name role_key meta w ≡ (ok id, w₁)
      → (is_empty id ≡ false)
        × LacksId id (identities w)
        × LacksName name (identities w)
        × ((jwt : Text) × (is_empty jwt ≡ false)
            × (identities w₁ ≡ identities w ++ enrolled name role_key meta id jwt ∷ []))
  unfolding create_identity
  created_parts name role_key meta w w₁ id h = L.created _ w w₁ id h

module _ {W : Type 0} (K : KubeApi W) (E : EdgeApi W) (identities : W → List IdentityDetail)
    (L : IsLawful E identities) (keeps : KeepsIdentities K identities)
    (detail_keeps : (id : Text) (w : W) → identities (E.detail_identity id w).1 ≡ identities w)
    (config : ZitiConfig) (zone : Text) (verbose : Bool) where
  -- At a lawful edge API, where reading the details of an identity, read or not, and the reads of
  -- the cluster change no identity: once a creation of a tunnel pod has made the identity, it is
  -- there after the request, as the only one added, however the request ends; and where its details
  -- cannot be read the pod is refused with that error.
  pub tunnel_refused_leaks :
      (meta : ObjectMeta) (uid name id : Text) (w w₁ : W)
      → build_ziti_identity_name config.prefix meta uid ≡ ok name
      → create_identity E name config.role_key meta w ≡ (ok id, w₁)
      → ((jwt : Text) × (identities
              (handle_tunnel_create
                (new_ziti_handler K E config zone verbose)
                meta
                uid
                empty_response
                w).1
            ≡ identities w ++ enrolled name config.role_key meta id jwt ∷ []))
        × ((e : Text) (w₂ : W)
            → E.detail_identity id w₁ ≡ (err e, w₂)
            → handle_tunnel_create
                (new_ziti_handler K E config zone verbose)
                meta
                uid
                empty_response
                w
              ≡ (ok (failure_response empty_response e), w₂))
  unfolding handle_tunnel_create new_ziti_handler ziti_client cluster_client
  tunnel_refused_leaks meta uid name id w w₁ named created =
      let (full, ids, names, (jwt, some_jwt, stored)) =
        created_parts E identities L name config.role_key meta w w₁ id created in
      (
        (
          jwt,
          ap (λ p. identities p.1)
                (or_return_ok _ _ _ w w name (ap (λ r. (r, w)) named)
                  ∙ or_return_ok _ _ _ w w₁ id created)
              ∙ (or_return_keeps identities _ _ _ w₁
                    (token_keeps E identities name id w₁ full (detail_keeps id w₁))
                    (λ token w₃.
                      or_return_keeps identities _ _ _ w₃
                        (dns_keeps K E identities L keeps config zone verbose meta w₃)
                        (λ settled w₄. refl))
                  ∙ stored),
        ),
        λ e w₂ unread.
            or_return_ok _ _ _ w w name (ap (λ r. (r, w)) named)
            ∙ (or_return_ok _ _ _ w w₁ id created
                ∙ or_return_err _ _ _ w₁ w₂ e (token_unread E name id e w₁ w₂ full unread)),
      )
