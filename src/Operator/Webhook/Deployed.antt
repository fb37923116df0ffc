-- ===== src/Operator/Webhook/Deployed.antt =====
-- What the container of the agent finds in its environment, in the deployment that is in the cluster.
use ziti_k8s_agent.Base.{
  ◌≡◌, refl, ap, ◌∙◌, arith, true, ◌&&◌, and_parts, Option, none, some, List, [], ◌∷◌, Text,
  text_eq, text_eq→eq, lookup, if◌then◌else◌,
}
use ziti_k8s_agent.Operator.Admin.{Secret}
use ziti_k8s_agent.Operator.Equal.{same_pointer, same_slice, same_map, int_equal, text_equal}
use ziti_k8s_agent.Operator.Objects.{selector_equal}
use ziti_k8s_agent.Operator.Pods.{
  EnvEntry, env_equal, container_port_equal, PodContainer, container_equal, pod_equal,
  template_equal,
}
use ziti_k8s_agent.Operator.Sets.{DeploymentSpec, deployment_equal}

-- The environment of the first container.
abbrev pub env_of : List PodContainer → List EnvEntry
env_of [] = []
env_of (c ∷ containers) = c.env

abbrev pub deployed_env : DeploymentSpec → List EnvEntry
deployed_env s = env_of s.template.pod.containers

-- The value of the variable with a name, of those that are given as text.
abbrev pub variable : List EnvEntry → Text → Option Text
variable [] name = none
variable (e ∷ env) name = if text_eq e.name name then some e.value else variable env name

-- The value that the secret has for the variable with a name, in a pod of a namespace.
abbrev pub secret_variable : Secret → Text → List EnvEntry → Text → Option Text
secret_variable s namespace [] name = none
secret_variable s namespace (e ∷ env) name =
    if text_eq e.name name
    then (if text_eq s.namespace namespace && text_eq s.name e.secret_name
        then lookup e.secret_key s.data_map
        else none)
    else secret_variable s namespace env name

variable_head :
    (e : EnvEntry) (xs ys : List EnvEntry) (name : Text)
    → variable xs name ≡ variable ys name
    → variable (e ∷ xs) name ≡ variable (e ∷ ys) name
variable_head e xs ys name h = ap (λ v. if text_eq e.name name then some e.value else v) h

-- Environments that are the same give a variable the same value.
same_variable :
    (xs ys : List EnvEntry) (name : Text)
    → same_slice env_equal xs ys ≡ true
    → variable xs name ≡ variable ys name
same_variable [] [] name h = refl
same_variable [] (y ∷ ys) name h = absurd (ground arith)
same_variable (x ∷ xs) [] name h = absurd (ground arith)
same_variable (x ∷ xs) (y ∷ ys) name h =
    let (head, rest) = and_parts (env_equal.same x y) (same_slice env_equal xs ys) h in
    let (names, head₁) = and_parts (text_eq x.name y.name) _ head in
    let (values, _) = and_parts (text_eq x.value y.value) _ head₁ in
    let same_name = text_eq→eq x.name y.name names in
    let same_value = text_eq→eq x.value y.value values in
    ap (λ v. if text_eq x.name name then some x.value else v) (same_variable xs ys name rest)
    ∙ ap (λ n. if text_eq n name then some x.value else variable ys name) same_name
    ∙ ap (λ t. if text_eq y.name name then some t else variable ys name) same_value

same_env :
    (a b : PodContainer) → container_equal.same a b ≡ true → same_slice env_equal a.env b.env ≡ true
same_env a b h =
    let (_, h₁) = and_parts (text_eq a.name b.name) _ h in
    let (_, h₂) = and_parts (text_eq a.image b.image) _ h₁ in
    let (_, h₃) = and_parts (text_eq a.image_pull_policy b.image_pull_policy) _ h₂ in
    let (_, h₄) = and_parts (same_slice text_equal a.command b.command) _ h₃ in
    let (_, h₅) = and_parts (same_slice text_equal a.args b.args) _ h₄ in
    let (_, h₆) = and_parts (same_slice container_port_equal a.ports b.ports) _ h₅ in
    (and_parts (same_slice env_equal a.env b.env) _ h₆).0

first_env :
    (as' bs : List PodContainer)
    → same_slice container_equal as' bs ≡ true
    → same_slice env_equal (env_of as') (env_of bs) ≡ true
first_env [] [] h = refl
first_env [] (b ∷ bs) h = absurd (ground arith)
first_env (a ∷ as') [] h = absurd (ground arith)
first_env (a ∷ as') (b ∷ bs) h =
    same_env a b (and_parts (container_equal.same a b) (same_slice container_equal as' bs) h).0

-- Deployments that are the same give the agent the same variables.
pub deployed_variable :
    (a b : DeploymentSpec) (name : Text)
    → deployment_equal.same a b ≡ true
    → variable (deployed_env a) name ≡ variable (deployed_env b) name
deployed_variable a b name h =
    let (_, h₁) = and_parts (same_pointer int_equal a.replicas b.replicas) _ h in
    let (_, h₂) = and_parts (same_pointer selector_equal a.selector b.selector) _ h₁ in
    let (template, _) = and_parts (template_equal.same a.template b.template) _ h₂ in
    let (_, h₃) = and_parts (same_map a.template.labels b.template.labels) _ template in
    let (_, h₄) = and_parts (same_map a.template.annotations b.template.annotations) _ h₃ in
    let (pod, _) = and_parts (pod_equal.same a.template.pod b.template.pod) _ h₄ in
    let (containers, _) =
      and_parts (same_slice container_equal a.template.pod.containers b.template.pod.containers) _
        pod in
    same_variable (deployed_env a) (deployed_env b) name
      (first_env a.template.pod.containers b.template.pod.containers containers)
