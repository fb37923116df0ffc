-- ===== src/Handler/Removed.antt =====
-- What an allowed deletion leaves at a lawful edge API, and that it undoes the creation.
use ziti_k8s_agent.Base.{
  ◌≤◌, Bool, true, false, [], ◌∷◌, ◌++◌, List, some, Text, text_eq, text_eq_refl, text_eq_comm,
  is_empty, ok, err, panic, ◌≡◌, refl, ap, sym, ◌∙◌, arith, ok_parts, length, has_prefix,
}
use ziti_k8s_agent.Kube.{ObjectMeta, Pod, Container}
use ziti_k8s_agent.Naming.{build_ziti_identity_name, has_container}
use ziti_k8s_agent.Naming.Shape.{build-IsBuilt, build-has_prefix}
use ziti_k8s_agent.Naming.Finding.{LacksPrefix, has_container-append}
use ziti_k8s_agent.Naming.Quotable.{IsName-IsPlainByte, IsName-full}
use ziti_k8s_agent.Edge.{EdgeApi, IdentityDetail}
use ziti_k8s_agent.Edge.Lawful.{
  IsLawful, IsConsistent, IsQuotable, LacksName, LacksId, without_name,
}
use ziti_k8s_agent.Edge.Lifecycle.{delete_identity_removes}
use ziti_k8s_agent.Edge.Tokens.{enrolled}
use ziti_k8s_agent.Cluster.{KubeApi}
use ziti_k8s_agent.Handler.{
  ZitiConfig, AdmissionResponse, empty_response, success_response, new_ziti_handler,
  ziti_type_router,
}
use ziti_k8s_agent.Handler.Tunnel.{handle_tunnel_create}
use ziti_k8s_agent.Handler.Delete.{handle_delete, identity_of_pod}
use ziti_k8s_agent.Handler.Enrolled.{or_return_allowed, KeepsIdentities, tunnel_create_enrolls}

-- The name of a pod's identity is that of the container, where no earlier one has the prefix.
identity_of_sidecar :
    (prefix : Text) (pod : Pod) (before : List Container) (c : Container) (after : List Container)
    → pod.containers ≡ before ++ c ∷ after
    → LacksPrefix prefix before
    → has_prefix c.name prefix ≡ true
    → is_empty c.name ≡ false
    → identity_of_pod prefix pod ≡ some c.name
unfolding identity_of_pod
identity_of_sidecar prefix pod before c after split skip fits full =
    let found : has_container pod.containers prefix ≡ some c.name =
      ap (λ l. has_container l prefix) split
      ∙ has_container-append before c after prefix skip fits in
    ground arith

without_name-append :
    (name : Text) (is : List IdentityDetail) (i : IdentityDetail)
    → LacksName name is
    → text_eq i.name name ≡ true
    → without_name name (is ++ i ∷ []) ≡ is
without_name-append name [] i _ same = rw same
without_name-append name (j ∷ is) i (h, hs) same =
    rw h (ap (λ r. j ∷ r) (without_name-append name is i hs same))

snoc-LacksId :
    (id : Text) (is : List IdentityDetail) (i : IdentityDetail)
    → LacksId id is
    → text_eq i.id id ≡ false
    → LacksId id (is ++ i ∷ [])
snoc-LacksId id [] i _ h = (h, tt)
snoc-LacksId id (j ∷ is) i (k, ks) h = (k, snoc-LacksId id is i ks h)

snoc-LacksName :
    (name : Text) (is : List IdentityDetail) (i : IdentityDetail)
    → LacksName name is
    → text_eq i.name name ≡ false
    → LacksName name (is ++ i ∷ [])
snoc-LacksName name [] i _ h = (h, tt)
snoc-LacksName name (j ∷ is) i (k, ks) h = (k, snoc-LacksName name is i ks h)

-- A new identity with an identifier and a name that are free keeps a list consistent.
pub snoc-IsConsistent :
    (is : List IdentityDetail) (i : IdentityDetail)
    → IsConsistent is
    → is_empty i.id ≡ false
    → LacksId i.id is
    → LacksName i.name is
    → IsConsistent (is ++ i ∷ [])
snoc-IsConsistent [] i _ full _ _ = (full, tt, tt, tt)
snoc-IsConsistent (j ∷ is) i (jfull, ids, names, c) full (h, hs) (k, ks) = (
  jfull,
  snoc-LacksId j.id is i ids (text_eq_comm i.id j.id ∙ h),
  snoc-LacksName j.name is i names (text_eq_comm i.name j.name ∙ k),
  snoc-IsConsistent is i c full hs ks,
)

module _ {W : Type 0} (K : KubeApi W) (E : EdgeApi W) (identities : W → List IdentityDetail)
    (L : IsLawful E identities) (config : ZitiConfig) (zone : Text) (verbose : Bool) where
  -- At a lawful edge API, where the identities have distinct identifiers and names, and the name
  -- of the pod's identity has no quote and no backslash: an allowed deletion of a pod that is no
  -- router removes the identities of that name and no other.
  pub delete_removes :
      (pod : Pod) (name : Text) (w w' : W) (r : AdmissionResponse)
      → text_eq config.ziti_type ziti_type_router ≡ false
      → identity_of_pod config.prefix pod ≡ some name
      → IsQuotable name
      → IsConsistent (identities w)
      → handle_delete (new_ziti_handler K E config zone verbose) pod empty_response w ≡ (ok r, w')
      → r.allowed ≡ true
      → identities w' ≡ without_name name (identities w)
  unfolding handle_delete new_ziti_handler
  delete_removes pod name w w' r tunnel found q c h allows =
      let (a, w₁, deleted, rest) =
        or_return_allowed _ _ _ w w' r (λ e. refl) allows (rw (tunnel, found) at h) in
      let (_, same) = ok_parts (success_response empty_response) r w₁ w' rest in
      ap identities (sym same) ∙ delete_identity_removes E identities L name w w₁ q c deleted

  -- A deletion undoes the creation: where a tunnel pod was allowed, and later a pod is deleted whose
  -- containers hold one with the built name, behind others that lack the prefix, an allowed deletion
  -- leaves the identities as they were before the creation. In between, the identities at the edge
  -- must not have changed; the prefix has at most 50 bytes.
  pub delete_undoes_create :
      KeepsIdentities K identities
      → (meta : ObjectMeta) (uid name : Text) (pod : Pod) (before : List Container) (c : Container)
        (after : List Container) (w w' v v' : W) (r r' : AdmissionResponse)
      → text_eq config.ziti_type ziti_type_router ≡ false
      → length config.prefix ≤ 50
      → IsConsistent (identities w)
      → build_ziti_identity_name config.prefix meta uid ≡ ok name
      → handle_tunnel_create (new_ziti_handler K E config zone verbose) meta uid empty_response w
        ≡ (ok r, w')
      → r.allowed ≡ true
      → identities v ≡ identities w'
      → pod.containers ≡ before ++ c ∷ after
      → LacksPrefix config.prefix before
      → c.name ≡ name
      → handle_delete (new_ziti_handler K E config zone verbose) pod empty_response v ≡ (ok r', v')
      → r'.allowed ≡ true
      → identities v' ≡ identities w
  delete_undoes_create keeps meta uid name pod before c after w w' v v' r r' tunnel short cons named
        create allows between split skip called delete allows' =
      let e =
        tunnel_create_enrolls K E identities L keeps config zone verbose meta uid w w' r create
          allows in
      let same : e.name ≡ name =
        ap (λ p. elim p [ ok n ↦ n | err _ ↦ name | panic ↦ name ]) (sym e.named ∙ named) in
      let valid = (build-IsBuilt config.prefix meta uid name named).well_formed in
      let new = enrolled e.name config.role_key meta e.id e.token in
      let found =
        identity_of_sidecar config.prefix pod before c after split skip
          (rw called (build-has_prefix config.prefix meta uid name short named))
          (rw called (IsName-full valid)) in
      let held : identities v ≡ identities w ++ new ∷ [] = between ∙ e.added in
      delete_removes pod name v v' r' tunnel (found ∙ ap some called) (IsName-IsPlainByte valid)
        (rw held (snoc-IsConsistent (identities w) new cons e.some_id e.new_id e.new_name)) delete
        allows'
      ∙ (ap (without_name name) held
          ∙ without_name-append name (identities w) new (rw (← same) e.new_name)
              (rw same (text_eq_refl name)))
