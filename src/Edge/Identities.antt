-- ===== src/Edge/Identities.antt =====
-- The identity methods of `zitiClient`, ziti-agent/cmd/webhook/pods.go.
use ziti_k8s_agent.Base.{
  Bool, true, false, ◌&&◌, not, List, [], ◌∷◌, Option, none, some, Text, codes, index, text_eq,
  is_empty, panic, Action, ◌>>=◌, pure, fail, if◌then◌else◌,
}
use ziti_k8s_agent.Kube.{ObjectMeta, Pod}
use ziti_k8s_agent.Naming.{filter_map_value_list_by_key, label_app}
use ziti_k8s_agent.Edge.{
  EdgeApi, IdentityDetail, create_identity_call, patch_identity_call, get_identity_by_name,
  get_identity_by_id, delete_identity_call, identity_type_device,
}

-- The roles of a new identity: those of the annotation, else the `app` label alone.
abbrev pub roles_or_app : Option (List Text) → Text → List Text
roles_or_app none app = app ∷ []
roles_or_app (some roles) app = roles

-- `for _, item := range data { id = *item.ID }`
abbrev pub last_id : Text → List IdentityDetail → Text
last_id id [] = id
last_id id (item ∷ items) = last_id item.id items

-- `Enrollment.Ott.JWT`, where `Ott` is nil once the identity is enrolled.
abbrev pub jwt_of : {W : Type 0} → Option Text → Action W Text
jwt_of none w = (panic, w)
jwt_of (some jwt) w = pure jwt w

abbrev pub texts_eq : List Text → List Text → Bool
texts_eq [] [] = true
texts_eq [] (_ ∷ _) = false
texts_eq (_ ∷ _) [] = false
texts_eq (a ∷ s) (b ∷ t) = text_eq a b && texts_eq s t

-- The roles that an update sends, from the new and the old annotation and the new `app` label. A
-- missing annotation gives an empty list for the comparison.
unfoldable pub patch_roles : Option (List Text) → Option (List Text) → Text → List Text
patch_roles none none app = []
patch_roles none (some old) app = app ∷ []
patch_roles (some new) none app = if texts_eq new [] then [] else new
patch_roles (some new) (some old) app = if texts_eq new old then [] else new

module _ {W : Type 0} (E : EdgeApi W) where
  unfoldable pub create_identity : Text → Text → ObjectMeta → Action W Text
  unfolding create_identity_call
  create_identity name role_key meta =
      create_identity_call E name
        (roles_or_app (filter_map_value_list_by_key meta.annotations role_key)
          (index meta.labels label_app))
        identity_type_device

  -- The identifier of the identity of that name, or "" where none is listed.
  unfoldable pub find_identity_id : Text → Action W Text
  unfolding get_identity_by_name
  find_identity_id name = do items ← get_identity_by_name E name; pure (last_id [] items)

  -- The first half of `getIdentityToken`: look the identifier up if only the name is given.
  abbrev pub resolve_id : Text → Text → Action W Text
  resolve_id name id =
      if is_empty id && not (is_empty name)
      then (get_identity_by_name E name >>= λ items. pure (last_id id items))
      else pure id

  -- The second half: the token of the identity with that identifier.
  abbrev pub token_by_id : Text → Action W Text
  token_by_id id =
      if is_empty id
      then fail (codes "need name or id to get identity token")
      else (get_identity_by_id E id >>= λ detail. jwt_of detail.ott)

  unfoldable pub get_identity_token : Text → Text → Action W Text
  unfolding get_identity_by_name get_identity_by_id
  get_identity_token name id = resolve_id name id >>= token_by_id

  -- The call for the identity that was found; nothing is called where none was.
  abbrev pub delete_listed : List IdentityDetail → Action W (Unit {0})
  delete_listed items =
      if is_empty (last_id [] items) then pure tt else delete_identity_call E (last_id [] items)

  unfoldable pub delete_identity : Text → Action W (Unit {0})
  unfolding get_identity_by_name delete_identity_call
  delete_identity name = get_identity_by_name E name >>= delete_listed

  abbrev pub patch_listed : List Text → List IdentityDetail → Action W (Unit {0})
  patch_listed roles items =
      if is_empty (last_id [] items)
      then pure tt
      else patch_identity_call E (last_id [] items) roles

  unfoldable pub patch_identity_role_attributes : Text → Text → Pod → Pod → Action W (Unit {0})
  unfolding get_identity_by_name patch_identity_call
  patch_identity_role_attributes name key new_pod old_pod = do
    let roles =
        patch_roles (filter_map_value_list_by_key new_pod.meta.annotations key)
          (filter_map_value_list_by_key old_pod.meta.annotations key)
          (index new_pod.meta.labels label_app)
    items ← get_identity_by_name E name
    patch_listed roles items
