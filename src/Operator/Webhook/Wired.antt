-- ===== src/Operator/Webhook/Wired.antt =====
-- How the objects of a webhook fit together, and what the agent finds in its deployment.
use ziti_k8s_agent.Base.{
  ◌≡◌, refl, ap, sym, arith, Option, some, [], ◌∷◌, ◌++◌, Text, codes, text_eq, text_eq_refl, true,
  trim_prefix, pos, map, append_assoc, get_elem?, Result, ok, err, panic,
}
use ziti_k8s_agent.Operator.{ZitiController}
use ziti_k8s_agent.Operator.Admin.{Secret, IdentityConfig, admin_secret}
use ziti_k8s_agent.Operator.Equal.{entry_of}
use ziti_k8s_agent.Operator.Objects.{Object, ServiceSpec, ServicePort}
use ziti_k8s_agent.Operator.Pods.{ContainerPort}
use ziti_k8s_agent.Operator.Hooks.{ServiceReference, MutatingWebhook}
use ziti_k8s_agent.Operator.Adopt.{controller_mgmt_api}
use ziti_k8s_agent.Operator.Router.Wired.{lookup-filter_labels, got, out_of}
use ziti_k8s_agent.Operator.Webhook.{ZitiWebhookSpec, ZitiWebhook}
use ziti_k8s_agent.Operator.Webhook.Defaults.{webhook_defaults, webhook_labels, webhook_annotations}
use ziti_k8s_agent.Operator.Webhook.Desired.{
  desired_issuer, desired_certificate, desired_webhook_service, desired_service_account,
  desired_cluster_role, desired_binding, desired_webhooks,
}
use ziti_k8s_agent.Operator.Webhook.Deployment.{
  agent_env, agent_container, agent_pod, deployment_of, desired_deployment,
}
use ziti_k8s_agent.Operator.Webhook.Deployed.{deployed_env, secret_variable}
use ziti_k8s_agent.Operator.Webhook.Reconcile.{WebhookApi, adopt_controller, adopt_mgmt_api}

-- A webhook with its default specification.
abbrev pub defaulted_webhook : ZitiWebhook → ZitiWebhook
defaulted_webhook z = record z { spec = webhook_defaults z }

-- The way to a service, with a path.
abbrev pub way_to : Object ServiceSpec (Unit {0}) → Text → Option ServiceReference
way_to v path = some (record {
  name = v.meta.name;
  namespace = v.meta.namespace;
  path = some path;
  port = some (pos 9443);
})

-- The objects of a webhook with the default specification fit together.
abbrev pub WebhookFits : ZitiWebhook → Object ServiceSpec (Unit {0}) → Type 0
WebhookFits z v =
    ((map (λ (w : MutatingWebhook). w.client_config.service)
          (desired_webhooks (defaulted_webhook z)).spec
        ≡ way_to v (codes "/ziti-tunnel") ∷ way_to v (codes "/ziti-router") ∷ [])
      × (map (λ (p : ServicePort). p.port) v.spec.ports ≡ pos 9443 ∷ [])
      × (map (λ (p : ServicePort). p.target_port) v.spec.ports
          ≡ map (λ (p : ContainerPort). p.container_port)
              (agent_container (defaulted_webhook z)).ports)
      × ((key value : Text)
          → entry_of v.spec.selector key ≡ some value
          → entry_of (deployment_of (defaulted_webhook z)).template.labels key ≡ some value)
      × ((deployment_of (defaulted_webhook z)).selector
          ≡ some (record { match_labels = v.spec.selector; match_expressions = [] }))
      × (get_elem? (desired_certificate (defaulted_webhook z)).spec.dns_names 2
          ≡ some (v.meta.name ++ b'.' ∷ (v.meta.namespace ++ codes ".svc")))
      × ((desired_certificate (defaulted_webhook z)).spec.issuer_name
          ≡ (desired_issuer (defaulted_webhook z)).meta.name)
      × (entry_of (desired_webhooks (defaulted_webhook z)).meta.annotations
            (codes "cert-manager.io/inject-ca-from")
          ≡ some (z.meta.namespace ++ b'/' ∷ (desired_certificate (defaulted_webhook z)).meta.name))
      × ((desired_binding (defaulted_webhook z)).spec.role_ref ≡ record {
        api_group = codes "rbac.authorization.k8s.io";
        kind = codes "ClusterRole";
        name = (desired_cluster_role (defaulted_webhook z)).meta.name;
      })
      × ((desired_binding (defaulted_webhook z)).spec.subjects
          ≡ record {
            kind = codes "ServiceAccount";
            name = (desired_service_account (defaulted_webhook z)).meta.name;
            namespace = (desired_service_account (defaulted_webhook z)).meta.namespace;
          }
            ∷ [])
      × ((desired_deployment (defaulted_webhook z)).spec.template.pod
          ≡ agent_pod (defaulted_webhook z))
      × ((desired_service_account (defaulted_webhook z)).meta.namespace
          ≡ (desired_deployment (defaulted_webhook z)).meta.namespace)
      × ((desired_service_account (defaulted_webhook z)).meta.name
          ≡ (agent_pod (defaulted_webhook z)).service_account_name))

-- The objects that are desired for a webhook with the default specification fit together: both
-- webhooks call the service, at the port that it has; it leads to the port of the agent's
-- container, whose pods carry all labels that the service and the deployment select by; the
-- certificate is for the service's name in the namespace, is made by the issuer, and is the one
-- whose bundle is injected; the subject of the binding is the desired account, with its namespace,
-- and its role the desired one; the pods of the deployment run under that account, and the
-- deployment is in the account's namespace.
pub webhook_wired :
    (z : ZitiWebhook) (v : Object ServiceSpec (Unit {0}))
    → desired_webhook_service (defaulted_webhook z) ≡ ok v
    → WebhookFits z v
unfolding desired_webhook_service desired_webhooks webhook_defaults agent_container deployment_of
    desired_certificate desired_issuer webhook_annotations desired_binding desired_cluster_role
    agent_pod desired_service_account desired_deployment
webhook_wired z v h =
    let is_v = got (desired_webhook_service (defaulted_webhook z)) v h in
    (
      rw (← is_v) refl,
      rw (← is_v) refl,
      rw (← is_v) refl,
      λ key value k.
          lookup-filter_labels (webhook_labels (defaulted_webhook z)) key value (rw (← is_v) at k),
      rw (← is_v) refl,
      rw (← is_v) (ap some (sym (append_assoc z.meta.name (codes "-service") _))),
      refl,
      refl,
      refl,
      refl,
      refl,
      refl,
      refl,
    )

-- What a secret gives for a variable of the agent, in the deployment of a webhook with a
-- specification.
abbrev pub agent_secret : ZitiWebhook → ZitiWebhookSpec → Secret → Text → Option Text
agent_secret z s secret name =
    let d = desired_deployment (record z { spec = s }) in
    secret_variable secret d.meta.namespace (deployed_env d.spec) name

module _ {W Claims : Type 0} (A : WebhookApi W Claims) where
  -- A webhook that adopts a controller in its own namespace: the variables of the agent's container
  -- in the deployment that is desired for it, looked up in the secret that the operator keeps for
  -- that controller, give the administrator's certificate, key and CA, each without its prefix.
  pub admin_secret_read :
      (c : ZitiController) (z : ZitiWebhook) (s : ZitiWebhookSpec) (config : IdentityConfig)
      → c.namespace ≡ z.meta.namespace
      → adopt_controller A (some c) z.spec ≡ ok s
      → (agent_secret z s (admin_secret c config) (codes "ZITI_ADMIN_CERT")
          ≡ some (trim_prefix config.cert (codes "pem:")))
        × (agent_secret z s (admin_secret c config) (codes "ZITI_ADMIN_KEY")
            ≡ some (trim_prefix config.key (codes "pem:")))
        × (agent_secret z s (admin_secret c config) (codes "ZITI_CTRL_CA_BUNDLE")
            ≡ some (trim_prefix config.ca (codes "pem:")))
  unfolding adopt_controller agent_env agent_container agent_pod deployment_of desired_deployment
  admin_secret_read c z s config near h =
      let named = named_of (controller_mgmt_api A.jwt c) h in
      let here : text_eq c.namespace z.meta.namespace ≡ true =
        rw near (text_eq_refl z.meta.namespace) in
      let this : text_eq (c.spec.name ++ codes "-secret")
            (s.ziti_controller_name ++ codes "-secret")
          ≡ true =
        rw named (text_eq_refl (c.spec.name ++ codes "-secret")) in
      (rw (here, this) refl, rw (here, this) refl, rw (here, this) refl)
    where
      named_of :
          (url : Result Text)
          → adopt_mgmt_api A c z.spec url ≡ ok s
          → s.ziti_controller_name ≡ c.spec.name
      named_of (ok url) e =
          ap (λ (y : ZitiWebhookSpec). y.ziti_controller_name) (sym (ap (out_of s) e))
      named_of (err x) e = absurd (ground arith)
      named_of panic e = absurd (ground arith)
