-- ===== src/Edge/Routers.antt =====
-- The router methods of `zitiClient`, ziti-agent/cmd/webhook/pods.go.
use ziti_k8s_agent.Base.{
  true, false, List, [], ◌∷◌, Option, none, some, Text, is_empty, panic, Action, ◌>>=◌, ◌>>◌, pure,
}
use ziti_k8s_agent.Edge.{
  EdgeApi, EdgeRouterDetail, EdgeRouterCreate, get_edge_router_by_name, create_edge_router,
  re_enroll_edge_router, delete_edge_router,
}

module _ {W : Type 0} (E : EdgeApi W) where
  -- The loop of `getZitiRouterToken`. The token pointer is dereferenced without a check.
  unfoldable pub token_of_routers : List EdgeRouterDetail → Action W Text
  unfolding re_enroll_edge_router
  token_of_routers [] = pure []
  token_of_routers (router ∷ routers) = elim router.enrollment_jwt [
    | none ↦ λ w. (panic, w)
    | some [] ↦ re_enroll_edge_router E router.id >> token_of_routers routers
    | some (c ∷ jwt) ↦ pure (c ∷ jwt)
  ]

  unfoldable pub get_ziti_router_token : Text → Action W Text
  unfolding get_edge_router_by_name token_of_routers
  get_ziti_router_token name = get_edge_router_by_name E name >>= token_of_routers

  abbrev pub create_if_none : EdgeRouterCreate → List EdgeRouterDetail → Action W (Option Text)
  create_if_none options [] = create_edge_router E options >>= λ id. pure (some id)
  create_if_none options (_ ∷ _) = pure none

  -- The created router, or nil where one of that name is there already.
  unfoldable pub update_ziti_router : Text → EdgeRouterCreate → Action W (Option Text)
  unfolding get_edge_router_by_name create_edge_router
  update_ziti_router name options = get_edge_router_by_name E name >>= create_if_none options

  -- The loop of `deleteZitiRouter`, which ends at the first router with an identifier.
  unfoldable pub delete_first_router : List EdgeRouterDetail → Action W (Unit {0})
  unfolding delete_edge_router
  delete_first_router [] = pure tt
  delete_first_router (router ∷ routers) = elim (is_empty router.id) [
    | true ↦ delete_first_router routers
    | false ↦ delete_edge_router E router.id
  ]

  unfoldable pub delete_ziti_router : Text → Action W (Unit {0})
  unfolding get_edge_router_by_name delete_first_router
  delete_ziti_router name = get_edge_router_by_name E name >>= delete_first_router
