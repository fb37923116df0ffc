-- ===== src/Operator/Router/SetSettled.antt =====
-- Settling the stateful set of a router, where the labels of the deployment are the default ones.
use ziti_k8s_agent.Base.{
  ◌≡◌, refl, ap, ◌∙◌, arith, Bool, true, false, inl, inr, Bool-cases, List, [], ◌∷◌, ℤ, ok, err,
  panic,
}
use ziti_k8s_agent.Operator.Objects.{Object}
use ziti_k8s_agent.Operator.Pods.{pod_equal}
use ziti_k8s_agent.Operator.Sets.{ClaimTemplate, StatefulSetSpec, stateful_set_equal}
use ziti_k8s_agent.Operator.Router.Update.{
  sync_rest, sync_pod, keep_claim_status, deep_equal_excluding, clear_template,
  copy_excluding_template,
}

abbrev pub SetObject : Type 0
SetObject = Object StatefulSetSpec ℤ

abbrev pub with_claims : StatefulSetSpec → List ClaimTemplate → StatefulSetSpec
with_claims d claims = record d { volume_claim_templates = claims }

-- The specification is the desired one but for the template's metadata.
unfoldable pub IsDesired : StatefulSetSpec → StatefulSetSpec → Type 0
IsDesired d s =
    (deep_equal_excluding stateful_set_equal clear_template s d ≡ true)
    × (pod_equal.same s.template.pod d.template.pod ≡ true)

keep_claim_status_again :
    (as' ds claims : List ClaimTemplate)
    → keep_claim_status as' ds ≡ ok claims
    → keep_claim_status claims ds ≡ ok claims
unfolding keep_claim_status
keep_claim_status_again as' [] claims h = absurd (ground arith)
keep_claim_status_again [] (d ∷ ds) claims h = absurd (ground arith)
keep_claim_status_again (a ∷ as') (d ∷ ds) claims h =
    let is_claims : record d { status = a.status } ∷ ds ≡ claims =
      ap (λ r. elim r [ ok c ↦ c | err _ ↦ claims | panic ↦ claims ]) h in
    rw (← is_claims) refl

-- What the two comparisons make of an object.
abbrev pub Made :
    StatefulSetSpec → List ClaimTemplate → SetObject → Bool → SetObject → Bool → Type 0
Made d claims a n a' b =
    IsDesired (with_claims d claims) a'.spec
    × (a'.meta ≡ a.meta)
    × (keep_claim_status a'.spec.volume_claim_templates d.volume_claim_templates ≡ ok claims)
    × (b ≡ false → (n ≡ false) × (a' ≡ a))

module _ (d : StatefulSetSpec) (claims : List ClaimTemplate) (a₀ : SetObject)
    (kept : keep_claim_status a₀.spec.volume_claim_templates d.volume_claim_templates
      ≡ ok claims) where
  abbrev pub rest_of : Bool → SetObject × Bool
  rest_of n = sync_rest (with_claims d claims) (a₀, n)

  rest_lem :
      (n : Bool)
      → (deep_equal_excluding stateful_set_equal clear_template
            (rest_of n).0.spec
            (with_claims d claims)
          ≡ true)
        × ((rest_of n).0.meta ≡ a₀.meta)
        × (keep_claim_status (rest_of n).0.spec.volume_claim_templates d.volume_claim_templates
            ≡ ok claims)
        × ((rest_of n).1 ≡ false → (n ≡ false) × ((rest_of n).0 ≡ a₀))
  unfolding copy_excluding_template
  rest_lem n =
      let d' = with_claims d claims in
      elim (Bool-cases (deep_equal_excluding stateful_set_equal clear_template a₀.spec d')) [
        | inl e ↦ rw (sync_rest, e) (e, refl, kept, λ f. (f, refl))
        | inr e ↦
            rw (sync_rest, e)
              (
                stateful_set_equal.same_refl (clear_template d'),
                refl,
                keep_claim_status_again a₀.spec.volume_claim_templates d.volume_claim_templates
                    claims kept,
                λ f. absurd (ground arith),
              )
      ]

  pub pod_lem :
      (n : Bool) (a' : SetObject) (b : Bool)
      → sync_pod (with_claims d claims) (rest_of n) ≡ (a', b)
      → Made d claims a₀ n a' b
  unfolding IsDesired
  pod_lem n a' b h =
      let d' = with_claims d claims in
      let p = rest_of n in
      let (desired, meta, kept', unchanged) = rest_lem n in
      elim (Bool-cases (pod_equal.same p.0.spec.template.pod d'.template.pod)) [
        | inl e ↦
            let is_p : p ≡ (a', b) = rw (sync_pod, e) at h in
            let is_a' : p.0 ≡ a' = ap (λ x. x.0) is_p in
            let is_b : p.1 ≡ b = ap (λ x. x.1) is_p in
            (
              (rw (← is_a') desired, rw (← is_a') e),
              rw (← is_a') meta,
              rw (← is_a') kept',
              λ f. rw (← is_a') (unchanged (is_b ∙ f)),
            )
        | inr e ↦
            let new : SetObject = record p.0 {
              spec = record p.0.spec {
                template = record p.0.spec.template { pod = d'.template.pod };
              };
            } in
            let is_p : ◌≡◌ {A = SetObject × Bool} (new, true) (a', b) = rw (sync_pod, e) at h in
            let is_a' : new ≡ a' = ap (λ x. x.0) is_p in
            let is_b : true ≡ b = ap (λ x. x.1) is_p in
            (
              (rw (← is_a') desired, rw (← is_a') (pod_equal.same_refl d'.template.pod)),
              rw (← is_a') meta,
              rw (← is_a') kept',
              λ f. absurd (ground arith),
            )
      ]
