-- ===== src/Edge/Lifecycle.antt =====
-- What creating and deleting an identity leave at a lawful edge API.
use ziti_k8s_agent.Base.{
  List, [], Text, is_empty, ◌≡◌, sym, ap, ◌∙◌, inl, inr, arith, ok, >>=-eq-ok, Bool-cases,
}
use ziti_k8s_agent.Edge.{EdgeApi, IdentityDetail, get_identity_by_name, delete_identity_call}
use ziti_k8s_agent.Edge.Identities.{last_id, delete_identity, delete_listed}
use ziti_k8s_agent.Edge.Lawful.{IsLawful, IsQuotable, IsConsistent, named, without_name, without_id}
use ziti_k8s_agent.Edge.Targets.{without_target, target_missing, without_name_absent}

module _ {W : Type 0} (E : EdgeApi W) (identities : W → List IdentityDetail)
    (L : IsLawful E identities) where
  -- The lookup by name of every method gives the identities of that name.
  pub lookup_named :
      (name : Text) (w w' : W) (items : List IdentityDetail)
      → IsQuotable name
      → get_identity_by_name E name w ≡ (ok items, w')
      → (items ≡ named name (identities w)) × (identities w' ≡ identities w)
  unfolding get_identity_by_name
  lookup_named name w w' items q h = L.listed name w w' items q h

  delete_found :
      (name : Text) (items : List IdentityDetail) (w w₁ w' : W)
      → IsConsistent (identities w)
      → items ≡ named name (identities w)
      → identities w₁ ≡ identities w
      → delete_listed E items w₁ ≡ (ok tt, w')
      → identities w' ≡ without_name name (identities w)
  unfolding delete_identity_call
  delete_found name items w w₁ w' c e same h = elim (Bool-cases (is_empty (last_id [] items))) [
    | inl missing ↦
        let kept : w₁ ≡ w' = ground arith in
        ap identities (sym kept)
        ∙ (same
            ∙ sym (
                without_name_absent name (identities w)
                  (target_missing name (identities w) c (rw e at missing))))
    | inr found ↦
        L.removed (last_id [] items) w₁ w' (rw found at h)
        ∙ (ap (without_id (last_id [] items)) same
            ∙ (ap (λ l. without_id (last_id [] l) (identities w)) e
                ∙ without_target name (identities w) c))
  ]

  -- At a lawful edge API, where the identities have distinct identifiers and names: a successful
  -- deletion by a name that has no quote and no backslash removes every identity of that name and
  -- changes no other.
  pub delete_identity_removes :
      (name : Text) (w w' : W)
      → IsQuotable name
      → IsConsistent (identities w)
      → delete_identity E name w ≡ (ok tt, w')
      → identities w' ≡ without_name name (identities w)
  unfolding delete_identity
  delete_identity_removes name w w' q c h =
      let (items, w₁, first, rest) =
        >>=-eq-ok (get_identity_by_name E name) (delete_listed E) w w' tt h in
      let (e, same) = lookup_named name w w₁ items q first in
      delete_found name items w w₁ w' c e same rest
