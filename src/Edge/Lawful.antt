-- ===== src/Edge/Lawful.antt =====
-- What the agent relies on of the edge management API, about the identities that it keeps: the
-- documented effect of each operation when it succeeds. Of an operation that fails nothing is
-- assumed. A name goes into a filter as it stands, so only a name with no quote and no backslash is
-- known to select the identities of that name.
use ziti_k8s_agent.Base.{
  false, List, [], ◌∷◌, ◌++◌, Option, none, some, Text, text_eq, ◌≡◌, ◌≢◌, ok, All, map,
  if◌then◌else◌, is_empty,
}
use ziti_k8s_agent.Edge.{EdgeApi, IdentityDetail, IdentityCreate, by_name}

-- A name that a quoted filter can hold.
abbrev pub IsQuotable : Text → Type 0
IsQuotable = All (λ c. (c ≢ b'"') × (c ≢ b'\\'))

abbrev pub named : Text → List IdentityDetail → List IdentityDetail
named name [] = []
named name (i ∷ is) = if text_eq i.name name then i ∷ named name is else named name is

abbrev pub without_name : Text → List IdentityDetail → List IdentityDetail
without_name name [] = []
without_name name (i ∷ is) =
    if text_eq i.name name then without_name name is else i ∷ without_name name is

abbrev pub without_id : Text → List IdentityDetail → List IdentityDetail
without_id id [] = []
without_id id (i ∷ is) = if text_eq i.id id then without_id id is else i ∷ without_id id is

abbrev pub with_id : Text → List IdentityDetail → Option IdentityDetail
with_id id [] = none
with_id id (i ∷ is) = if text_eq i.id id then some i else with_id id is

abbrev pub give_roles : List Text → IdentityDetail → IdentityDetail
give_roles roles i = record i { role_attributes = roles }

-- The update of the identity with an identifier, and of the one with a name.
abbrev pub set_roles_of_id : Text → List Text → List IdentityDetail → List IdentityDetail
set_roles_of_id id roles = map (λ i. if text_eq i.id id then give_roles roles i else i)

abbrev pub set_roles_of_name : Text → List Text → List IdentityDetail → List IdentityDetail
set_roles_of_name name roles = map (λ i. if text_eq i.name name then give_roles roles i else i)

abbrev pub LacksId : Text → List IdentityDetail → Type 0
LacksId id = All (λ i. text_eq i.id id ≡ false)

abbrev pub LacksName : Text → List IdentityDetail → Type 0
LacksName name = All (λ i. text_eq i.name name ≡ false)

-- Identifiers are not empty, and neither identifiers nor names are shared.
abbrev pub IsConsistent : List IdentityDetail → Type 0
IsConsistent [] = Unit
IsConsistent (i ∷ is) =
    (is_empty i.id ≡ false) × LacksId i.id is × LacksName i.name is × IsConsistent is

-- A new identity, as the API stores it.
abbrev pub new_identity : IdentityCreate → Text → Text → IdentityDetail
new_identity c id jwt = record {
  id = id;
  name = c.name;
  role_attributes = c.role_attributes;
  identity_type = c.identity_type;
  is_admin = c.is_admin;
  ott = if c.enrollment_ott then some jwt else none;
}

pub record IsLawful {W : Type 0} (E : EdgeApi W) (identities : W → List IdentityDetail)
    : Type 0 where
  pub listed :
      (name : Text) (w w' : W) (items : List IdentityDetail)
      → IsQuotable name
      → E.list_identities (by_name name) w ≡ (ok items, w')
      → (items ≡ named name (identities w)) × (identities w' ≡ identities w)
  pub created :
      (c : IdentityCreate) (w w' : W) (id : Text)
      → E.post_identity c w ≡ (ok id, w')
      → (is_empty id ≡ false)
        × LacksId id (identities w)
        × LacksName c.name (identities w)
        × ((jwt : Text) × (is_empty jwt ≡ false)
            × (identities w' ≡ identities w ++ new_identity c id jwt ∷ []))
  pub detailed :
      (id : Text) (w w' : W) (i : IdentityDetail)
      → E.detail_identity id w ≡ (ok i, w')
      → (with_id id (identities w) ≡ some i) × (identities w' ≡ identities w)
  pub patched :
      (id : Text) (roles : List Text) (w w' : W)
      → E.patch_identity id roles w ≡ (ok tt, w')
      → identities w' ≡ set_roles_of_id id roles (identities w)
  pub removed :
      (id : Text) (w w' : W)
      → E.remove_identity id w ≡ (ok tt, w')
      → identities w' ≡ without_id id (identities w)
