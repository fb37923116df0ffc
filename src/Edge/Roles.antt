-- ===== src/Edge/Roles.antt =====
-- What an update of a pod does to the roles of its identity.
use ziti_k8s_agent.Base.{
  true, List, [], ◌∷◌, Option, none, some, Text, text_eq→eq, text_eq_refl, is_empty, index, ◌≡◌,
  ◌≢◌, refl, sym, ap, ◌∙◌, inl, inr, arith, ok, >>=-eq-ok, Bool-cases,
}
use ziti_k8s_agent.Kube.{Pod}
use ziti_k8s_agent.Naming.{filter_map_value_list_by_key, label_app}
use ziti_k8s_agent.Edge.{EdgeApi, IdentityDetail, get_identity_by_name, patch_identity_call}
use ziti_k8s_agent.Edge.Identities.{
  last_id, texts_eq, patch_roles, patch_listed, patch_identity_role_attributes,
}
use ziti_k8s_agent.Edge.Lawful.{
  IsLawful, IsQuotable, IsConsistent, named, set_roles_of_name, set_roles_of_id,
}
use ziti_k8s_agent.Edge.Targets.{set_roles_of_target, target_missing, roles_absent_name}
use ziti_k8s_agent.Edge.Lifecycle.{lookup_named}

texts_eq_refl : (s : List Text) → texts_eq s s ≡ true
texts_eq_refl [] = refl
texts_eq_refl (a ∷ s) = rw (text_eq_refl a) (texts_eq_refl s)

texts_eq→eq : (s t : List Text) → texts_eq s t ≡ true → s ≡ t
texts_eq→eq [] [] h = refl
texts_eq→eq [] (b ∷ t) h = absurd (ground arith)
texts_eq→eq (a ∷ s) [] h = absurd (ground arith)
texts_eq→eq (a ∷ s) (b ∷ t) h = ground (arith, text_eq→eq a b, texts_eq→eq s t)

pub patch_roles_same : (o : Option (List Text)) (app : Text) → patch_roles o o app ≡ []
unfolding patch_roles
patch_roles_same none app = refl
patch_roles_same (some roles) app = rw (texts_eq_refl roles)

pub patch_roles_changed :
    (new : List Text) (o : Option (List Text)) (app : Text)
    → some new ≢ o
    → patch_roles (some new) o app ≡ new
unfolding patch_roles
patch_roles_changed new none app h = ground (arith, texts_eq→eq new [])
patch_roles_changed new (some old) app h = ground (arith, texts_eq→eq new old)

module _ {W : Type 0} (E : EdgeApi W) (identities : W → List IdentityDetail)
    (L : IsLawful E identities) where
  patch_found :
      (name : Text) (roles : List Text) (items : List IdentityDetail) (w w₁ w' : W)
      → IsConsistent (identities w)
      → items ≡ named name (identities w)
      → identities w₁ ≡ identities w
      → patch_listed E roles items w₁ ≡ (ok tt, w')
      → identities w' ≡ set_roles_of_name name roles (identities w)
  unfolding patch_identity_call
  patch_found name roles items w w₁ w' c e same h =
      elim (Bool-cases (is_empty (last_id [] items))) [
        | inl missing ↦
            let kept : w₁ ≡ w' = ground arith in
            ap identities (sym kept)
            ∙ (same
                ∙ sym (
                    roles_absent_name name roles (identities w)
                      (target_missing name (identities w) c (rw e at missing))))
        | inr found ↦
            L.patched (last_id [] items) roles w₁ w' (rw found at h)
            ∙ (ap (set_roles_of_id (last_id [] items) roles) same
                ∙ (ap (λ l. set_roles_of_id (last_id [] l) roles (identities w)) e
                    ∙ set_roles_of_target name roles (identities w) c))
      ]

  -- A successful update gives the identity of the name the roles that `patch_roles` picks from the
  -- two annotations, and changes nothing else.
  pub patch_effect :
      (name key : Text) (new_pod old_pod : Pod) (w w' : W)
      → IsQuotable name
      → IsConsistent (identities w)
      → patch_identity_role_attributes E name key new_pod old_pod w ≡ (ok tt, w')
      → identities w'
        ≡ set_roles_of_name name
            (patch_roles
              (filter_map_value_list_by_key new_pod.meta.annotations key)
              (filter_map_value_list_by_key old_pod.meta.annotations key)
              (index new_pod.meta.labels label_app))
            (identities w)
  unfolding patch_identity_role_attributes
  patch_effect name key new_pod old_pod w w' q c h =
      let roles =
        patch_roles (filter_map_value_list_by_key new_pod.meta.annotations key)
          (filter_map_value_list_by_key old_pod.meta.annotations key)
          (index new_pod.meta.labels label_app) in
      let (items, w₁, first, rest) =
        >>=-eq-ok (get_identity_by_name E name) (patch_listed E roles) w w' tt h in
      let (e, same) = lookup_named E identities L name w w₁ items q first in
      patch_found name roles items w w₁ w' c e same rest

  -- At a lawful edge API, where the identities have distinct identifiers and names, and the name
  -- has no quote and no backslash: where the role annotation of the new pod is there and differs
  -- from that of the old pod, or the old pod has none, a successful update gives the identity of
  -- that name exactly the annotated roles.
  pub patch_annotated :
      (name key : Text) (new_pod old_pod : Pod) (roles : List Text) (w w' : W)
      → IsQuotable name
      → IsConsistent (identities w)
      → filter_map_value_list_by_key new_pod.meta.annotations key ≡ some roles
      → some roles ≢ filter_map_value_list_by_key old_pod.meta.annotations key
      → patch_identity_role_attributes E name key new_pod old_pod w ≡ (ok tt, w')
      → identities w' ≡ set_roles_of_name name roles (identities w)
  patch_annotated name key new_pod old_pod roles w w' q c e differs h =
      patch_effect name key new_pod old_pod w w' q c h
      ∙ ap (λ r. set_roles_of_name name r (identities w))
          (ap
              (λ o.
                patch_roles o (filter_map_value_list_by_key old_pod.meta.annotations key)
                  (index new_pod.meta.labels label_app))
              e
            ∙ patch_roles_changed roles (filter_map_value_list_by_key old_pod.meta.annotations key)
                (index new_pod.meta.labels label_app) differs)

  -- At a lawful edge API, where the identities have distinct identifiers and names, and the name
  -- has no quote and no backslash: where the update leaves the role annotation as it was, there or
  -- not, a successful update takes all roles from the identity of that name.
  pub patch_unchanged_wipes :
      (name key : Text) (new_pod old_pod : Pod) (w w' : W)
      → IsQuotable name
      → IsConsistent (identities w)
      → filter_map_value_list_by_key new_pod.meta.annotations key
        ≡ filter_map_value_list_by_key old_pod.meta.annotations key
      → patch_identity_role_attributes E name key new_pod old_pod w ≡ (ok tt, w')
      → identities w' ≡ set_roles_of_name name [] (identities w)
  patch_unchanged_wipes name key new_pod old_pod w w' q c e h =
      patch_effect name key new_pod old_pod w w' q c h
      ∙ ap (λ r. set_roles_of_name name r (identities w))
          (ap
              (λ o.
                patch_roles o (filter_map_value_list_by_key old_pod.meta.annotations key)
                  (index new_pod.meta.labels label_app))
              e
            ∙ patch_roles_same (filter_map_value_list_by_key old_pod.meta.annotations key)
                (index new_pod.meta.labels label_app))
