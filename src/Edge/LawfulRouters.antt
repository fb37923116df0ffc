-- ===== src/Edge/LawfulRouters.antt =====
-- What is relied on of the routers of the edge API, as far as an agent can see them.
use ziti_k8s_agent.Base.{
  ◌≡◌, false, some, List, [], ◌∷◌, ◌++◌, Text, text_eq, is_empty, if◌then◌else◌, ok,
}
use ziti_k8s_agent.Edge.{EdgeApi, EdgeRouterDetail, EdgeRouterCreate, by_name}
use ziti_k8s_agent.Edge.Lawful.{IsQuotable}

abbrev pub routers_named : Text → List EdgeRouterDetail → List EdgeRouterDetail
routers_named name [] = []
routers_named name (r ∷ rs) =
    if text_eq r.name name then r ∷ routers_named name rs else routers_named name rs

-- A new router, as the API stores it: with a token to enroll it.
abbrev pub new_router : Text → Text → Text → EdgeRouterDetail
new_router name id jwt = record { id = id; name = name; enrollment_jwt = some jwt }

-- An edge API with routers: a list by name finds those of the name and changes nothing, and a new
-- router is added with a token.
pub record HasRouters {W : Type 0} (E : EdgeApi W) (routers : W → List EdgeRouterDetail)
    : Type 0 where
  pub listed :
      (name : Text) (w w' : W) (items : List EdgeRouterDetail)
      → IsQuotable name
      → E.list_edge_routers (by_name name) w ≡ (ok items, w')
      → (items ≡ routers_named name (routers w)) × (routers w' ≡ routers w)
  pub created :
      (c : EdgeRouterCreate) (w w' : W) (id : Text)
      → E.post_edge_router c w ≡ (ok id, w')
      → (jwt : Text) × (is_empty jwt ≡ false)
        × (routers w' ≡ routers w ++ new_router c.name id jwt ∷ [])
