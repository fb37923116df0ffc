-- ===== src/Handler/Routed.antt =====
-- What an allowed creation of a router pod means at a lawful edge API.
use ziti_k8s_agent.Base.{
  ◌≡◌, refl, sym, ap, ◌∙◌, arith, inl, inr, ◌⊎◌, Bool, true, false, Bool-cases, Option, none, some,
  List, [], ◌∷◌, ◌++◌, Text, text_eq, text_eq_refl, is_empty, ok, pure,
}
use ziti_k8s_agent.Base.{ok_parts, >>=-eq-ok}
use ziti_k8s_agent.Kube.{Pod}
use ziti_k8s_agent.Naming.{build_ziti_identity_name}
use ziti_k8s_agent.Naming.Quotable.{IsName-IsPlainByte}
use ziti_k8s_agent.Naming.Shape.{build-IsName}
use ziti_k8s_agent.Cluster.{KubeApi}
use ziti_k8s_agent.Edge.{
  EdgeApi, EdgeRouterDetail, EdgeRouterCreate, get_edge_router_by_name, create_edge_router,
}
use ziti_k8s_agent.Edge.Lawful.{IsQuotable}
use ziti_k8s_agent.Edge.LawfulRouters.{routers_named, new_router, HasRouters}
use ziti_k8s_agent.Edge.Routers.{
  token_of_routers, get_ziti_router_token, update_ziti_router, create_if_none,
}
use ziti_k8s_agent.Edge.Tokens.{Served, token_of_routers_iff}
use ziti_k8s_agent.Handler.{
  RouterConfig, ZitiConfig, AdmissionResponse, empty_response, success_response, with_patch,
  new_ziti_handler,
}
use ziti_k8s_agent.Handler.Router.{handle_router_create, router_patch, router_options}
use ziti_k8s_agent.Handler.Enrolled.{or_return_allowed}

named-snoc :
    (name id jwt : Text) (rs : List EdgeRouterDetail)
    → routers_named name rs ≡ []
    → routers_named name (rs ++ new_router name id jwt ∷ []) ≡ new_router name id jwt ∷ []
named-snoc name id jwt [] h = rw (text_eq_refl name) refl
named-snoc name id jwt (r ∷ rs) h = elim (Bool-cases (text_eq r.name name)) [
  | inl e ↦ absurd (ground (arith, (rw e at h)))
  | inr e ↦ rw e (named-snoc name id jwt rs (rw e at h))
]

module _ {W : Type 0} (E : EdgeApi W) (routers : W → List EdgeRouterDetail)
    (L : HasRouters E routers) where
  -- No router had the name, and one is created for it; or there is one, and none is created.
  abbrev pub IsUpdated : Text → EdgeRouterCreate → W → W → Type 0
  IsUpdated name options w w' =
      ((id : Text) × (jwt : Text) × (w₁ : W) × (routers_named name (routers w) ≡ [])
        × (routers w₁ ≡ routers w)
        × (E.post_edge_router options w₁ ≡ (ok id, w'))
        × (is_empty jwt ≡ false)
        × (routers w' ≡ routers w ++ new_router options.name id jwt ∷ []))
      ⊎ ((d : EdgeRouterDetail) × (ds : List EdgeRouterDetail) × (routers_named name (routers w)
            ≡ d ∷ ds)
          × (routers w' ≡ routers w))

  created_of :
      (name : Text) (options : EdgeRouterCreate) (items : List EdgeRouterDetail) (w w₁ w' : W)
      → (o : Option Text) → items ≡ routers_named name (routers w)
      → routers w₁ ≡ routers w
      → create_if_none E options items w₁ ≡ (ok o, w')
      → IsUpdated name options w w'
  unfolding create_edge_router
  created_of name options [] w w₁ w' o e same h =
      let (id, w₂, sent, done) =
        >>=-eq-ok (create_edge_router E options) (λ id. pure (some id)) w₁ w' o h in
      let sent' : E.post_edge_router options w₁ ≡ (ok id, w') =
        rw (← (ok_parts (some id) o w₂ w' done).1) sent in
      let (jwt, full, stored) = L.created options w₁ w' id sent' in
      inl (id, jwt, w₁, sym e, same, sent', full, rw same at stored)
  created_of name options (d ∷ ds) w w₁ w' o e same h =
      inr (d, ds, sym e, ap routers (sym (ok_parts none o w₁ w' h).1) ∙ same)

  update-IsUpdated :
      (name : Text) (options : EdgeRouterCreate) (w w' : W) (o : Option Text)
      → IsQuotable name
      → update_ziti_router E name options w ≡ (ok o, w')
      → IsUpdated name options w w'
  unfolding update_ziti_router get_edge_router_by_name
  update-IsUpdated name options w w' o q h =
      let (items, w₁, listed, rest) =
        >>=-eq-ok (get_edge_router_by_name E name) (create_if_none E options) w w' o h in
      let (e, same) = L.listed name w w₁ items q listed in
      created_of name options items w w₁ w' o e same rest

  token_fetched :
      (name : Text) (w w' : W) (t : Text)
      → IsQuotable name
      → get_ziti_router_token E name w ≡ (ok t, w')
      → (w₁ : W) × (routers w₁ ≡ routers w)
        × (token_of_routers E (routers_named name (routers w)) w₁ ≡ (ok t, w'))
  unfolding get_ziti_router_token get_edge_router_by_name
  token_fetched name w w' t q h =
      let (items, w₁, listed, rest) =
        >>=-eq-ok (get_edge_router_by_name E name) (token_of_routers E) w w' t h in
      let (e, same) = L.listed name w w₁ items q listed in
      (w₁, same, ap (λ is. token_of_routers E is w₁) (sym e) ∙ rest)

  new_token :
      (name id jwt t : Text) (w w' : W)
      → is_empty jwt ≡ false
      → token_of_routers E (new_router name id jwt ∷ []) w ≡ (ok t, w')
      → (jwt ≡ t) × (w ≡ w')
  unfolding token_of_routers
  new_token name id [] t w w' full h = absurd (ground arith)
  new_token name id (c ∷ jwt) t w w' full h = ok_parts (c ∷ jwt) t w w' h

-- The token that a pod is given: that of the router that was created for it, where none had the name,
-- with the options of the configuration; else the one that the routers of that name serve.
abbrev pub IsServed :
    {W : Type 0}
    → EdgeApi W
    → (W → List EdgeRouterDetail)
    → RouterConfig
    → Text
    → Text
    → W
    → W
    → Type 0
IsServed {W} E routers config name token w w' =
    ((id : Text) × (w₁ : W) × (w₂ : W) × (routers_named name (routers w) ≡ [])
      × (E.post_edge_router
            (record {
              cost = config.cost;
              disabled = config.disabled;
              is_tunneler_enabled = config.is_tunneler_enabled;
              name = name;
              no_traversal = false;
              role_attributes = config.role_attributes;
            })
            w₁
          ≡ (ok id, w₂))
      × (is_empty token ≡ false)
      × (routers w' ≡ routers w ++ new_router name id token ∷ []))
    ⊎ ((d : EdgeRouterDetail) × (ds : List EdgeRouterDetail) × (w₁ : W) × (routers_named name
            (routers w)
          ≡ d ∷ ds)
        × (routers w₁ ≡ routers w)
        × Served E (d ∷ ds) w₁ token w')

-- What an allowed creation of a router pod did.
pub record RouterRun {W : Type 0} (E : EdgeApi W) (routers : W → List EdgeRouterDetail)
    (config : ZitiConfig) (pod : Pod) (uid : Text) (w w' : W) (r : AdmissionResponse) : Type 0 where
  pub name : Text
  pub named : build_ziti_identity_name config.prefix pod.meta uid ≡ ok name
  pub token : Text
  pub patched : r ≡ success_response (with_patch (router_patch name token) empty_response)
  pub served : IsServed E routers config.router_config name token w w'

module _ {W : Type 0} (E : EdgeApi W) (routers : W → List EdgeRouterDetail)
    (L : HasRouters E routers) where
  IsUpdated-IsServed :
      (config : RouterConfig) (name token : Text) (w w₂ w' : W)
      → IsQuotable name
      → IsUpdated E routers L name (router_options config name) w w₂
      → get_ziti_router_token E name w₂ ≡ (ok token, w')
      → IsServed E routers config name token w w'
  IsUpdated-IsServed config name token w w₂ w' q
        (inl (id, jwt, w₁, absent, same, sent, full, stored)) h =
      let (w₃, same₃, fetched) = token_fetched E routers L name w₂ w' token q h in
      let one : routers_named name (routers w₂) ≡ new_router name id jwt ∷ [] =
        ap (routers_named name) stored ∙ named-snoc name id jwt (routers w) absent in
      let (is_token, is_w') =
        new_token E routers L name id jwt token w₃ w' full
          (ap (λ rs. token_of_routers E rs w₃) (sym one) ∙ fetched) in
      inl (
        id,
        w₁,
        w₂,
        absent,
        sent,
        ap is_empty (sym is_token) ∙ full,
        ap routers (sym is_w')
            ∙ (same₃ ∙ (stored ∙ ap (λ t. routers w ++ new_router name id t ∷ []) is_token)),
      )
  IsUpdated-IsServed config name token w w₂ w' q (inr (d, ds, present, same)) h =
      let (w₃, same₃, fetched) = token_fetched E routers L name w₂ w' token q h in
      let found : routers_named name (routers w₂) ≡ d ∷ ds =
        ap (routers_named name) same ∙ present in
      inr (
        d,
        ds,
        w₃,
        present,
        same₃ ∙ same,
        (token_of_routers_iff E (d ∷ ds) w₃ w' token).0
            (ap (λ rs. token_of_routers E rs w₃) (sym found) ∙ fetched),
      )

module _ {W : Type 0} (K : KubeApi W) (E : EdgeApi W) (routers : W → List EdgeRouterDetail)
    (L : HasRouters E routers) (config : ZitiConfig) (zone : Text) (verbose : Bool) where
  -- At an edge API that lists routers by name and adds a created one with a token: an allowed creation
  -- of a router pod built a name and patched it in with a token. Where no router had that name, one
  -- was created under it with the options of the configuration, it is the only one added, and the
  -- token is its own and not empty. Where there were such routers, none was created, and the token is
  -- the one that they serve: the first that is not empty, or the empty one if there is none.
  pub router_create_serves :
      (pod : Pod) (uid : Text) (w w' : W) (r : AdmissionResponse)
      → handle_router_create (new_ziti_handler K E config zone verbose) pod uid empty_response w
        ≡ (ok r, w')
      → r.allowed ≡ true
      → RouterRun E routers config pod uid w w' r
  unfolding handle_router_create new_ziti_handler
  router_create_serves pod uid w w' r h allows =
      let (name, w₁, named, h₁) = or_return_allowed _ _ _ w w' r (λ e. refl) allows h in
      let (created, w₂, updated, h₂) = or_return_allowed _ _ _ w₁ w' r (λ e. refl) allows h₁ in
      let (token, w₃, fetched, h₃) = or_return_allowed _ _ _ w₂ w' r (λ e. refl) allows h₂ in
      let (r_eq, w_eq) =
        ok_parts (success_response (with_patch (router_patch name token) empty_response)) r w₃ w'
          h₃ in
      let q =
        IsName-IsPlainByte (build-IsName config.prefix pod.meta uid name (ap (λ p. p.0) named)).0 in
      record {
        name = name;
        named = ap (λ p. p.0) named;
        token = token;
        patched = sym r_eq;
        served =
            IsUpdated-IsServed E routers L config.router_config name token w w₂ w' q
              (update-IsUpdated E routers L name (router_options config.router_config name) w w₂
                created q
                (ap (update_ziti_router E name (router_options config.router_config name))
                    (ap (λ p. p.1) named)
                  ∙ updated))
              (fetched ∙ ap (λ v. (ok token, v)) w_eq);
      }
