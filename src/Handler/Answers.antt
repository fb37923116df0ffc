-- ===== src/Handler/Answers.antt =====
-- Every admission request gets a response, and what the switch-off label does.
use ziti_k8s_agent.Base.{
  Bool, true, false, [], Option, none, some, Text, codes, text_eq, Result, ok, err, panic, Action,
  ◌≡◌, refl, ap, ◌⊎◌, inl, inr, or_return, is_empty, pure, if◌then◌else◌, Bool-cases,
}
use ziti_k8s_agent.Kube.{Pod, ObjectMeta, PersistentVolumeClaim}
use ziti_k8s_agent.Handler.{
  ZitiHandler, AdmissionResponse, empty_response, failure_response, success_response,
  ziti_type_tunnel, ziti_type_router,
}
use ziti_k8s_agent.Handler.Tunnel.{handle_tunnel_create}
use ziti_k8s_agent.Handler.Router.{handle_router_create}
use ziti_k8s_agent.Handler.Delete.{
  handle_delete, delete_router_of, delete_claim_of, delete_identity_of, router_name_of,
  identity_of_pod,
}
use ziti_k8s_agent.Handler.Update.{handle_update, update_identity_of}
use ziti_k8s_agent.Handler.Admission.{
  AdmissionRequest, handle_create, dispatch, handle_admission_request, delete_selector,
}

-- A response whose flag and status agree: allowed with `Success`, or refused with `Failure` and
-- no patch.
abbrev pub IsCoherent : AdmissionResponse → Type 0
IsCoherent r =
    ((r.allowed ≡ true) × (r.result ≡ some (record { status = codes "Success"; message = [] })))
    ⊎ ((r.allowed ≡ false)
        × (r.patch ≡ none)
        × ((message : Text) × (r.result
              ≡ some (record { status = codes "Failure"; message = message }))))

-- A call that ends in a coherent response, or panics.
abbrev pub Answers : Result AdmissionResponse → Type 0
Answers (ok r) = IsCoherent r
Answers (err e) = ⊥
Answers panic = Unit

-- An action that answers from every world.
record Always {W : Type 0} (m : Action W AdmissionResponse) : Type 0 where
  answers : (w : W) → Answers (m w).0

module _ {W : Type 0} where
  Answers-pair :
      {A : Type 0} (p : Result A × W) (handle : Text → AdmissionResponse)
      (k : A → Action W AdmissionResponse)
      → ((e : Text) → IsCoherent (handle e))
      → ((a : A) → Always (k a))
      → Answers
          (elim p.0 as (λ _. Result AdmissionResponse × W) [
            | ok a ↦ k a p.1
            | err e ↦ (ok (handle e), p.1)
            | panic ↦ (panic, p.1)
          ]).0
  Answers-pair (ok a, w) handle k h hk = (hk a).answers w
  Answers-pair (err e, w) handle k h hk = h e
  Answers-pair (panic, w) handle k h hk = tt

  -- `or_return` is shut, so that this rule applies to a call of it as it is written.
  step :
      {A : Type 0} (m : Action W A) (handle : Text → AdmissionResponse)
      (k : A → Action W AdmissionResponse)
      → ((e : Text) → IsCoherent (handle e))
      → ((a : A) → Always (k a))
      → Always (or_return m handle k)
  unfolding or_return
  step m handle k h hk = record { answers = λ w. Answers-pair (m w) handle k h hk }

  done : {r : AdmissionResponse} → IsCoherent r → Always {W = W} (pure r)
  done c = record { answers = λ w. c }

-- Failures and successes of a response that has no patch yet.
fails : (message : Text) → IsCoherent (failure_response empty_response message)
fails message = inr (refl, refl, (message, refl))

succeeds : (r : AdmissionResponse) → IsCoherent (success_response r)
succeeds r = inl (refl, refl)

module _ {W : Type 0} (zh : ZitiHandler W) where
  tunnel-Always :
      (meta : ObjectMeta) (uid : Text) → Always (handle_tunnel_create zh meta uid empty_response)
  unfolding handle_tunnel_create
  tunnel-Always meta uid = step _ _ _ fails λ name.
      step _ _ _ fails
        λ id. step _ _ _ fails λ token. step _ _ _ fails λ settled. done (inl (refl, refl))

  router-Always : (pod : Pod) (uid : Text) → Always (handle_router_create zh pod uid empty_response)
  unfolding handle_router_create
  router-Always pod uid =
      step _ _ _ fails
        λ name. step _ _ _ fails λ _. step _ _ _ fails λ token. done (inl (refl, refl))

  claim-Always :
      (pod : Pod) (router : Text) (claim : Option PersistentVolumeClaim)
      → Always (delete_claim_of zh pod router empty_response claim)
  claim-Always pod router none = done (inl (refl, refl))
  claim-Always pod router (some claim) = elim (Bool-cases (is_empty claim.name)) [
    | inl missing ↦ rw missing (done (inl (refl, refl)))
    | inr there ↦ rw there (step _ _ _ (λ e. fails _) (λ _. done (inl (refl, refl))))
  ]

  router_delete-Always :
      (pod : Pod) (router : Result Text) → Always (delete_router_of zh pod empty_response router)
  router_delete-Always pod (ok router) =
      step _ _ _ fails λ _. step _ _ _ (λ e. fails _) (claim-Always pod router)
  router_delete-Always pod (err e) = done (fails e)
  router_delete-Always pod panic = record { answers = λ w. tt }

  identity_delete-Always : (name : Option Text) → Always (delete_identity_of zh empty_response name)
  identity_delete-Always none = done (inl (refl, refl))
  identity_delete-Always (some name) = step _ _ _ fails (λ _. done (inl (refl, refl)))

  delete-Always : (pod : Pod) → Always (handle_delete zh pod empty_response)
  unfolding handle_delete
  delete-Always pod = elim (Bool-cases (text_eq zh.config.ziti_type ziti_type_router)) [
    | inl router ↦ rw router (router_delete-Always pod (router_name_of pod.containers))
    | inr other ↦ rw other (identity_delete-Always (identity_of_pod zh.config.prefix pod))
  ]

  identity_update-Always :
      (pod old_pod : Pod) (name : Option Text)
      → Always (update_identity_of zh pod old_pod empty_response name)
  identity_update-Always pod old_pod none = done (inl (refl, refl))
  identity_update-Always pod old_pod (some name) = step _ _ _ fails (λ _. done (inl (refl, refl)))

  update-Always : (pod old_pod : Pod) → Always (handle_update zh pod old_pod empty_response)
  unfolding handle_update
  update-Always pod old_pod =
      identity_update-Always pod old_pod (identity_of_pod zh.config.prefix pod)

  create-Always : (pod : Pod) (uid : Text) → Always (handle_create zh pod uid)
  unfolding handle_create
  create-Always pod uid = elim (Bool-cases (text_eq zh.config.ziti_type ziti_type_tunnel)) [
    | inl tunnel ↦ rw tunnel (tunnel-Always pod.meta uid)
    | inr other ↦ elim (Bool-cases (text_eq zh.config.ziti_type ziti_type_router)) [
      | inl router ↦ rw (other, router) (router-Always pod uid)
      | inr neither ↦ rw (other, neither) (done (fails _))
    ]
  ]

  unless-Always :
      (off : Bool) (m : Action W AdmissionResponse)
      → Always m
      → Always (if off then pure (success_response empty_response) else m)
  unless-Always true m h = done (inl (refl, refl))
  unless-Always false m h = h

  dispatch-Always :
      (request : AdmissionRequest) (pod old_pod : Pod) (off : Bool)
      → Always (dispatch zh request pod old_pod off)
  unfolding dispatch
  dispatch-Always request pod old_pod off =
      elim (Bool-cases (text_eq request.operation (codes "CREATE"))) [
        | inl create ↦ rw create (unless-Always off _ (create-Always pod request.uid))
        | inr a ↦ elim (Bool-cases (text_eq request.operation (codes "DELETE"))) [
          | inl delete ↦ rw (a, delete) (delete-Always old_pod)
          | inr b ↦ elim (Bool-cases (text_eq request.operation (codes "UPDATE"))) [
            | inl update ↦ rw (a, b, update) (unless-Always off _ (update-Always pod old_pod))
            | inr c ↦ rw (a, b, c) (done (inl (refl, refl)))
          ]
        ]
      ]

  request-Always :
      (decode : Text → Result Pod) (request : AdmissionRequest)
      → Always (handle_admission_request zh decode request)
  unfolding handle_admission_request
  request-Always decode request =
      step _ _ _ (λ e. fails _)
        λ pod.
          step _ _ _ (λ e. fails _)
            λ old_pod. step _ _ _ fails (dispatch-Always request pod old_pod)

  -- Whatever the request, the pods, the cluster and the edge API do, `handleAdmissionRequest`
  -- returns a response unless a call panics: never an error. The response is allowed with the status
  -- `Success`, or it is refused with the status `Failure`, a message and no patch.
  pub admission-Answers :
      (decode : Text → Result Pod) (request : AdmissionRequest) (w : W)
      → Answers (handle_admission_request zh decode request w).0
  admission-Answers decode request w = (request-Always decode request).answers w

  -- In a namespace with the switch-off label, creations and updates of pods are allowed with no
  -- patch, and nothing is called after the lookup of the namespace.
  pub admission_switched_off :
      (decode : Text → Result Pod) (request : AdmissionRequest) (pod old_pod : Pod) (w w' : W)
      → decode request.object ≡ ok pod
      → decode request.old_object ≡ ok old_pod
      → zh.kc.find_namespace_by_option pod.meta.namespace (delete_selector zh.config) w
        ≡ (ok true, w')
      → (request.operation ≡ codes "CREATE") ⊎ (request.operation ≡ codes "UPDATE")
      → handle_admission_request zh decode request w ≡ (ok (success_response empty_response), w')
  unfolding handle_admission_request dispatch or_return
  admission_switched_off decode request pod old_pod w w' d d' off (inl create) =
      rw (d, d', off, create, or_return) (ap (λ p. (ok (success_response empty_response), p.1)) off)
  admission_switched_off decode request pod old_pod w w' d d' off (inr update) =
      rw (d, d', off, update, or_return) (ap (λ p. (ok (success_response empty_response), p.1)) off)
