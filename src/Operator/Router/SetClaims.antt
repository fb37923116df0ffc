-- ===== src/Operator/Router/SetClaims.antt =====
-- The claim templates of a stateful set that the server has filled in: the update that keeps the
-- first claim's status finds no difference.
use mathlib.Core.Path.{subst}
use ziti_k8s_agent.Base.{
  ◌≡◌, refl, ap, sym, arith, Bool, true, false, ◌&&◌, and_parts, List, [], ◌∷◌, Text, ok, err,
  panic, text_eq, text_eq_refl,
}
use ziti_k8s_agent.Operator.Equal.{same_pointer, same_slice, same_map, int_equal, text_equal}
use ziti_k8s_agent.Operator.Objects.{selector_equal}
use ziti_k8s_agent.Operator.Pods.{template_equal}
use ziti_k8s_agent.Operator.Sets.{ClaimTemplate, claim_equal, StatefulSetSpec, stateful_set_equal}
use ziti_k8s_agent.Operator.Router.Update.{keep_claim_status, clear_template}
use ziti_k8s_agent.Operator.Router.Services.{and_map}
use ziti_k8s_agent.Operator.Router.SetSettled.{with_claims, IsDesired}

-- The claims are the same ones but for their status.
abbrev pub AreRefilled : List ClaimTemplate → List ClaimTemplate → Type 0
AreRefilled [] [] = Unit
AreRefilled [] (b ∷ bs) = ⊥
AreRefilled (a ∷ as') [] = ⊥
AreRefilled (a ∷ as') (b ∷ bs) = (b ≡ record a { status = b.status }) × AreRefilled as' bs

-- What the server fills in: the status of the claim templates.
abbrev pub IsClaimed : StatefulSetSpec → StatefulSetSpec → Type 0
IsClaimed s s' =
    (claims : List ClaimTemplate) × AreRefilled s.volume_claim_templates claims
    × (s' ≡ with_claims s claims)

-- A claim that is the same as another but for the status.
same_status :
    (a d : ClaimTemplate) (status : Text)
    → claim_equal.same a (record d { status = a.status }) ≡ true
    → claim_equal.same (record a { status = status }) (record d { status = status }) ≡ true
same_status a d status =
    let same : (text_eq status status && true) ≡ true = rw (text_eq_refl status) refl in
    and_map (text_eq a.name d.name) _ _ (
      and_map (text_eq a.namespace d.namespace) _ _ (
        and_map (same_map a.labels d.labels) _ _ (
          and_map (same_slice text_equal a.access_modes d.access_modes) _ _ (
            and_map (same_map a.requests d.requests) _ _ (
              and_map (same_pointer text_equal a.storage_class_name d.storage_class_name) _ _
                (and_map (same_pointer text_equal a.volume_mode d.volume_mode) _ _ (λ h. same)))))))

same_one :
    (as' bs : List ClaimTemplate) (a b d : ClaimTemplate)
    → (claim_equal.same a (record d { status = a.status }) && same_slice claim_equal as' []) ≡ true
    → b ≡ record a { status = b.status }
    → AreRefilled as' bs
    → same_slice claim_equal (b ∷ bs) (record d { status = b.status } ∷ []) ≡ true
same_one [] [] a b d h e refilled =
    let (same, _) = and_parts (claim_equal.same a (record d { status = a.status })) true h in
    let same' = same_status a d b.status same in
    subst (λ x. (claim_equal.same x (record d { status = b.status }) && true) ≡ true) (sym e)
      (rw same' refl)
same_one [] (b' ∷ bs) a b d h e refilled = absurd (refilled)
same_one (a' ∷ as') [] a b d h e refilled = absurd (refilled)
same_one (a' ∷ as') (b' ∷ bs) a b d h e refilled =
    let (_, wrong) = and_parts (claim_equal.same a (record d { status = a.status })) false h in
    absurd (ground arith)

-- A single wanted claim is the same as the claims that are there, its status taken over, after the
-- server has filled in theirs.
kept_refilled :
    (as' bs claims : List ClaimTemplate) (d : ClaimTemplate)
    → keep_claim_status as' (d ∷ []) ≡ ok claims
    → same_slice claim_equal as' claims ≡ true
    → AreRefilled as' bs
    → (claims' : List ClaimTemplate) × (keep_claim_status bs (d ∷ []) ≡ ok claims')
      × (same_slice claim_equal bs claims' ≡ true)
unfolding keep_claim_status
kept_refilled [] bs claims d kept same refilled = absurd (ground arith)
kept_refilled (a ∷ as') [] claims d kept same refilled = absurd refilled
kept_refilled (a ∷ as') (b ∷ bs) claims d kept same (e, refilled) =
    let is_claims : ◌≡◌ {A = List ClaimTemplate} (record d { status = a.status } ∷ []) claims =
      ap (λ r. elim r [ ok c ↦ c | err _ ↦ claims | panic ↦ claims ]) kept in
    let one = subst (λ cs. same_slice claim_equal (a ∷ as') cs ≡ true) (sym is_claims) same in
    (record d { status = b.status } ∷ [], refl, same_one as' bs a b d one e refilled)

and_first : (b b' c : Bool) → (b ≡ true → b' ≡ true) → (b && c) ≡ true → (b' && c) ≡ true
and_first b b' c f h = let (x, y) = and_parts b c h in rw (f x, y) refl

-- Specifications that are the same are so with other claims that are the same.
same_with_claims :
    (a d : StatefulSetSpec) (xs ys : List ClaimTemplate)
    → (same_slice claim_equal a.volume_claim_templates d.volume_claim_templates ≡ true
        → same_slice claim_equal xs ys ≡ true)
    → stateful_set_equal.same a d ≡ true
    → stateful_set_equal.same (with_claims a xs) (with_claims d ys) ≡ true
same_with_claims a d xs ys f = and_map (same_pointer int_equal a.replicas d.replicas) _ _ (
    and_map (same_pointer selector_equal a.selector d.selector) _ _ (
      and_map (template_equal.same a.template d.template) _ _ (
        and_first (same_slice claim_equal a.volume_claim_templates d.volume_claim_templates)
          (same_slice claim_equal xs ys) _ f)))

same_claims :
    (a d : StatefulSetSpec)
    → stateful_set_equal.same a d ≡ true
    → same_slice claim_equal a.volume_claim_templates d.volume_claim_templates ≡ true
same_claims a d h =
    let (_, h₁) = and_parts (same_pointer int_equal a.replicas d.replicas) _ h in
    let (_, h₂) = and_parts (same_pointer selector_equal a.selector d.selector) _ h₁ in
    let (_, h₃) = and_parts (template_equal.same a.template d.template) _ h₂ in
    (and_parts (same_slice claim_equal a.volume_claim_templates d.volume_claim_templates) _ h₃).0

-- The specification is still the desired one after its claims are filled in.
pub IsDesired-refilled :
    (s d s' : StatefulSetSpec) (claim : ClaimTemplate) (claims : List ClaimTemplate)
    → d.volume_claim_templates ≡ claim ∷ []
    → keep_claim_status s.volume_claim_templates d.volume_claim_templates ≡ ok claims
    → IsDesired (with_claims d claims) s
    → IsClaimed s s'
    → (claims' : List ClaimTemplate) × (keep_claim_status s'.volume_claim_templates
          d.volume_claim_templates
        ≡ ok claims')
      × IsDesired (with_claims d claims') s'
unfolding IsDesired
IsDesired-refilled s d s' claim claims one kept (rest, pod) (bs, refilled, is_s') =
    let same : same_slice claim_equal s.volume_claim_templates claims ≡ true =
      same_claims (clear_template s) (clear_template (with_claims d claims)) rest in
    let (claims', kept', same') =
      kept_refilled s.volume_claim_templates bs claims claim (rw one at kept) same refilled in
    (
      claims',
      rw (is_s', one) kept',
      (
        rw (is_s') (
            same_with_claims (clear_template s) (clear_template (with_claims d claims)) bs claims'
              (λ _. same') rest),
        rw is_s' pod,
      ),
    )
