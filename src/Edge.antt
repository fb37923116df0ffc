-- ===== src/Edge.antt =====
-- The Ziti edge management API as the agent sees it, and the calls of it in
-- ziti-agent/pkg/ziti-edge/identity.go and router.go. The API is a parameter: a record of the
-- operations of the generated client over an unknown world. Request timeouts and contexts are left
-- out, so an expired request is an error that the operation returns.
pub mod Enrollment
pub mod Identities
pub mod Routers
pub mod Lawful
pub mod LawfulRouters
pub mod Targets
pub mod Memory
pub mod Lifecycle
pub mod Roles
pub mod Tokens
pub mod Samples
mod Tests
use ziti_k8s_agent.Base.{
  ℕ, Bool, true, false, List, [], ◌∷◌, ◌++◌, Option, none, some, Text, codes, Action, or_return,
}
use ziti_k8s_agent.Base.{Result, ok, err, panic, ◌>>=◌, ◌>>◌, pure}

-- `rest_model.IdentityDetail`. The identifier and the name are required fields of the API; the
-- one-time token is there until the identity is enrolled.
pub record IdentityDetail : Type 0 where
  pub id : Text
  pub name : Text
  pub role_attributes : List Text
  pub identity_type : Text
  pub is_admin : Bool
  pub ott : Option Text

-- `rest_model.IdentityCreate`
pub record IdentityCreate : Type 0 where
  pub enrollment_ott : Bool
  pub is_admin : Bool
  pub name : Text
  pub role_attributes : List Text
  pub identity_type : Text

-- `rest_model.EdgeRouterCreate`
pub record EdgeRouterCreate : Type 0 where
  pub cost : ℕ
  pub disabled : Bool
  pub is_tunneler_enabled : Bool
  pub name : Text
  pub no_traversal : Bool
  pub role_attributes : List Text

-- `rest_model.EdgeRouterDetail`; the token may be nil.
pub record EdgeRouterDetail : Type 0 where
  pub id : Text
  pub name : Text
  pub enrollment_jwt : Option Text

-- The parameters of the two list operations.
pub record ListParams : Type 0 where
  pub filter : Text
  pub limit : ℕ
  pub offset : ℕ

pub record EdgeApi (W : Type 0) : Type 0 where
  pub post_identity : IdentityCreate → Action W Text
  pub patch_identity : Text → List Text → Action W (Unit {0})
  pub list_identities : ListParams → Action W (List IdentityDetail)
  pub detail_identity : Text → Action W IdentityDetail
  pub remove_identity : Text → Action W (Unit {0})
  pub post_edge_router : EdgeRouterCreate → Action W Text
  pub patch_edge_router : Text → List Text → Action W (Unit {0})
  pub list_edge_routers : ListParams → Action W (List EdgeRouterDetail)
  pub detail_edge_router : Text → Action W EdgeRouterDetail
  pub re_enroll : Text → Action W (Unit {0})
  pub remove_edge_router : Text → Action W (Unit {0})

-- `fmt.Sprintf("name=\"%s\"", name)`
abbrev pub name_filter : Text → Text
name_filter name = codes "name=\"" ++ (name ++ codes "\"")

abbrev pub by_name : Text → ListParams
by_name name = record { filter = name_filter name; limit = 0; offset = 0 }

abbrev pub identity_type_device : Text
identity_type_device = codes "Device"

module _ {W : Type 0} (E : EdgeApi W) where
  unfoldable pub create_identity_call : Text → List Text → Text → Action W Text
  create_identity_call name roles identity_type = E.post_identity (record {
    enrollment_ott = true;
    is_admin = false;
    name = name;
    role_attributes = roles;
    identity_type = identity_type;
  })

  unfoldable pub patch_identity_call : Text → List Text → Action W (Unit {0})
  patch_identity_call id roles = E.patch_identity id roles

  unfoldable pub get_identity_by_name : Text → Action W (List IdentityDetail)
  get_identity_by_name name = E.list_identities (by_name name)

  unfoldable pub get_identity_by_id : Text → Action W IdentityDetail
  get_identity_by_id id = E.detail_identity id

  unfoldable pub delete_identity_call : Text → Action W (Unit {0})
  delete_identity_call id = E.remove_identity id

  unfoldable pub create_edge_router : EdgeRouterCreate → Action W Text
  create_edge_router options = E.post_edge_router options

  unfoldable pub patch_edge_router_call : Text → List Text → Action W (Unit {0})
  patch_edge_router_call id roles = E.patch_edge_router id roles

  unfoldable pub get_edge_router_by_name : Text → Action W (List EdgeRouterDetail)
  get_edge_router_by_name name = E.list_edge_routers (by_name name)

  unfoldable pub get_edge_router_detail : Text → Action W EdgeRouterDetail
  get_edge_router_detail id = E.detail_edge_router id

  -- The new token is not in the answer: the text returned is always empty.
  unfoldable pub re_enroll_edge_router : Text → Action W Text
  re_enroll_edge_router id = E.re_enroll id >> pure []

  unfoldable pub delete_edge_router : Text → Action W (Unit {0})
  delete_edge_router id = E.remove_edge_router id
