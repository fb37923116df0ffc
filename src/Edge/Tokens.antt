-- ===== src/Edge/Tokens.antt =====
-- The enrollment tokens that identities and routers get.
use ziti_k8s_agent.Base.{
  true, false, List, [], ◌∷◌, ◌++◌, Option, none, some, Text, text_eq, text_eq_refl, is_empty,
  index, ◌≡◌, ◌↔◌, refl, sym, ap, ◌∙◌, arith, ok, panic, >>=-eq-ok, ok_parts, pure,
}
use ziti_k8s_agent.Kube.{ObjectMeta}
use ziti_k8s_agent.Edge.{
  EdgeApi, IdentityDetail, IdentityCreate, identity_type_device, EdgeRouterDetail,
  re_enroll_edge_router,
}
use ziti_k8s_agent.Edge.Identities.{jwt_of, roles_or_app, create_identity, get_identity_token}
use ziti_k8s_agent.Naming.{filter_map_value_list_by_key, label_app}
use ziti_k8s_agent.Edge.Routers.{token_of_routers}
use ziti_k8s_agent.Edge.Lawful.{IsLawful, LacksId, LacksName, with_id, new_identity}

with_id-append :
    (id : Text) (is : List IdentityDetail) (i : IdentityDetail)
    → LacksId id is
    → text_eq i.id id ≡ true
    → with_id id (is ++ i ∷ []) ≡ some i
with_id-append id [] i _ e = rw e
with_id-append id (j ∷ is) i (h, hs) e = rw h (with_id-append id is i hs e)

-- The token under which a new identity was stored is the one that its details show.
stored_ott :
    (c : IdentityCreate) (id jwt : Text) (is is' : List IdentityDetail) (i : IdentityDetail)
    → LacksId id is
    → is' ≡ is ++ new_identity c id jwt ∷ []
    → c.enrollment_ott ≡ true
    → with_id id is' ≡ some i
    → i.ott ≡ some jwt
stored_ott c id jwt is is' i lacks stored otts here =
    let found = with_id-append id is (new_identity c id jwt) lacks (text_eq_refl id) in
    let equal : some (new_identity c id jwt) ≡ some i =
      sym found ∙ (ap (with_id id) (sym stored) ∙ here) in
    ap (λ o. elim o [ none ↦ none | some d ↦ d.ott ]) (sym equal) ∙ rw otts

-- The body of the request that `createIdentity` posts.
abbrev create_request : Text → Text → ObjectMeta → IdentityCreate
create_request name role_key meta = record {
  enrollment_ott = true;
  is_admin = false;
  name = name;
  role_attributes =
      roles_or_app (filter_map_value_list_by_key meta.annotations role_key)
        (index meta.labels label_app);
  identity_type = identity_type_device;
}

module _ {W : Type 0} (E : EdgeApi W) (identities : W → List IdentityDetail)
    (L : IsLawful E identities) where
  token_of_detail :
      (name id : Text) (w w' : W) (i : IdentityDetail) (jwt : Text)
      → is_empty id ≡ false
      → E.detail_identity id w ≡ (ok i, w')
      → i.ott ≡ some jwt
      → get_identity_token E name id w ≡ (ok jwt, w')
  unfolding get_identity_token
  token_of_detail name (c ∷ id) w w' i jwt full e o = ground arith
  token_of_detail name [] w w' i jwt full e o = absurd (ground arith)

  -- After a successful creation, if the details of the new identity can be read, the agent gets its
  -- one-time token: it is not empty, it is the one stored with the identity, and no identity changes.
  pub created_token :
      (name role_key : Text) (meta : ObjectMeta) (w w₁ w₂ : W) (id : Text) (i : IdentityDetail)
      → create_identity E name role_key meta w ≡ (ok id, w₁)
      → E.detail_identity id w₁ ≡ (ok i, w₂)
      → (jwt : Text) × (is_empty jwt ≡ false)
        × (with_id id (identities w₁) ≡ some i)
        × (i.ott ≡ some jwt)
        × (get_identity_token E name id w₁ ≡ (ok jwt, w₂))
        × (identities w₂ ≡ identities w₁)
  unfolding create_identity
  created_token name role_key meta w w₁ w₂ id i h d =
      let (full, ids, names, (jwt, some_jwt, stored)) =
        L.created (create_request name role_key meta) w w₁ id h in
      let (here, same) = L.detailed id w₁ w₂ i d in
      let token =
        stored_ott (create_request name role_key meta) id jwt (identities w) (identities w₁) i ids
          stored refl here in
      (jwt, some_jwt, here, token, token_of_detail name id w₁ w₂ i jwt full d token, same)

-- The record that the edge API keeps of an identity that was created for a pod.
abbrev pub enrolled : Text → Text → ObjectMeta → Text → Text → IdentityDetail
enrolled name role_key meta id jwt = new_identity (create_request name role_key meta) id jwt

module _ {W : Type 0} (E : EdgeApi W) (identities : W → List IdentityDetail)
    (L : IsLawful E identities) where
  -- A token that was read is that of the details.
  detail_of_token :
      (name id t : Text) (w w' : W)
      → is_empty id ≡ false
      → get_identity_token E name id w ≡ (ok t, w')
      → (i : IdentityDetail) × (E.detail_identity id w ≡ (ok i, w')) × (i.ott ≡ some t)
  unfolding get_identity_token
  detail_of_token name [] t w w' full h = absurd (ground arith)
  detail_of_token name (c ∷ id) t w w' full h =
      let (i, w₁, first, rest) =
        >>=-eq-ok (E.detail_identity (c ∷ id)) (λ i. jwt_of i.ott) w w' t h in
      let (o, same) = ott_read i.ott t w₁ w' rest in (i, first ∙ ap (λ v. (ok i, v)) same, o)
    where
      ott_read :
          (o : Option Text) (t : Text) (w₁ w' : W)
          → jwt_of o w₁ ≡ (ok t, w')
          → (o ≡ some t) × (w₁ ≡ w')
      ott_read none t w₁ w' r = absurd (ground arith)
      ott_read (some jwt) t w₁ w' r = let (e, same) = ok_parts jwt t w₁ w' r in (ap some e, same)

  -- A creation and a token read after it: one new identity, with that token.
  pub created_and_read :
      (name role_key : Text) (meta : ObjectMeta) (w w₁ w₂ : W) (id t : Text)
      → create_identity E name role_key meta w ≡ (ok id, w₁)
      → get_identity_token E name id w₁ ≡ (ok t, w₂)
      → (is_empty id ≡ false)
        × (is_empty t ≡ false)
        × LacksId id (identities w)
        × LacksName name (identities w)
        × (identities w₂ ≡ identities w ++ enrolled name role_key meta id t ∷ [])
  unfolding create_identity
  created_and_read name role_key meta w w₁ w₂ id t h g =
      let request = create_request name role_key meta in
      let (full, ids, names, (jwt, some_jwt, stored)) = L.created request w w₁ id h in
      let (i, d, o) = detail_of_token name id t w₁ w₂ full g in
      let (here, same) = L.detailed id w₁ w₂ i d in
      let token = stored_ott request id jwt (identities w) (identities w₁) i ids stored refl here in
      let equal : jwt ≡ t = ap (λ p. elim p [ none ↦ jwt | some x ↦ x ]) (sym token ∙ o) in
      (
        full,
        ap is_empty (sym equal) ∙ some_jwt,
        ids,
        names,
        same ∙ (stored ∙ ap (λ j. identities w ++ enrolled name role_key meta id j ∷ []) equal),
      )

module _ {W : Type 0} (E : EdgeApi W) where
  -- How a token comes out of the listed routers: it is the first one that is not empty, and each
  -- router before it, whose token is empty, is enrolled again. It is empty if there is none.
  pub data Served : List EdgeRouterDetail → W → Text → W → Type 0 where
    nothing : {w : W} {t : Text} {w' : W} → t ≡ [] → w' ≡ w → Served [] w t w'
    token :
        {r : EdgeRouterDetail} {rs : List EdgeRouterDetail} {w : W} {t : Text} {w' : W}
        → r.enrollment_jwt ≡ some t
        → is_empty t ≡ false
        → w' ≡ w
        → Served (r ∷ rs) w t w'
    again :
        {r : EdgeRouterDetail} {rs : List EdgeRouterDetail} {w w' : W} {t : Text} (w₁ : W)
        → r.enrollment_jwt ≡ some []
        → E.re_enroll r.id w ≡ (ok tt, w₁)
        → Served rs w₁ t w'
        → Served (r ∷ rs) w t w'

  re_enrolled :
      (id text : Text) (w w₁ : W)
      → re_enroll_edge_router E id w ≡ (ok text, w₁)
      → E.re_enroll id w ≡ (ok tt, w₁)
  unfolding re_enroll_edge_router
  re_enrolled id text w w₁ h =
      let (a, v, first, rest) = >>=-eq-ok (E.re_enroll id) (λ _. pure []) w w₁ text h in
      first ∙ ap (λ (u : W). (ok tt, u)) (ground arith)

  Served-of_token :
      (rs : List EdgeRouterDetail) (w w' : W) (t : Text)
      → token_of_routers E rs w ≡ (ok t, w')
      → Served rs w t w'
  unfolding token_of_routers
  Served-of_token [] w w' t h = nothing (ground arith) (ground arith)
  Served-of_token (r ∷ rs) w w' t h = split (Served-of_token rs) r.enrollment_jwt refl
    where
      split :
          ((v v' : W) (t : Text) → token_of_routers E rs v ≡ (ok t, v') → Served rs v t v')
          → (o : Option Text) → r.enrollment_jwt ≡ o
          → Served (r ∷ rs) w t w'
      split more none e = absurd (ground arith)
      split more (some []) e =
          let (a, w₁, first, rest) =
            >>=-eq-ok (re_enroll_edge_router E r.id) (λ _. token_of_routers E rs) w w' t
              (rw (e, token_of_routers) at h) in
          again w₁ e (re_enrolled r.id a w w₁ first) (more w₁ w' t rest)
      split more (some (c ∷ jwt)) e = token (ground arith) (ground arith) (ground arith)

  token_of_Served :
      {rs : List EdgeRouterDetail} {w w' : W} {t : Text}
      → Served rs w t w'
      → token_of_routers E rs w ≡ (ok t, w')
  unfolding token_of_routers
  token_of_Served (nothing e e') = ground arith
  token_of_Served (token {t = c ∷ t} o full e) = ground arith
  token_of_Served (token {t = []} o full e) = absurd (ground arith)
  token_of_Served (again w₁ o re s) = ground (arith, token_of_Served s)

  -- The loop of `getZitiRouterToken` succeeds with a token exactly as `Served` describes it: with
  -- the first token that is not empty, after it has enrolled the routers before that one again; and
  -- with the empty token, and no error, where every router has an empty token.
  pub token_of_routers_iff :
      (rs : List EdgeRouterDetail) (w w' : W) (t : Text)
      → (token_of_routers E rs w ≡ (ok t, w')) ↔ Served rs w t w'
  token_of_routers_iff rs w w' t = (Served-of_token rs w w' t, token_of_Served)

  -- The token of a router that is listed first and has none, as one that is enrolled already, is a
  -- nil pointer that the loop dereferences: the call panics, and changes nothing.
  pub token_of_enrolled_panics :
      (r : EdgeRouterDetail) (rs : List EdgeRouterDetail) (w : W)
      → r.enrollment_jwt ≡ none
      → token_of_routers E (r ∷ rs) w ≡ (panic, w)
  unfolding token_of_routers
  token_of_enrolled_panics r rs w e = rw (e, token_of_routers)
