-- ===== src/Operator/Webhook/Tests.antt =====
-- Tests of the webhook's reconciler.
use ziti_k8s_agent.Base.{
  trim_prefix, ◌-◌, ◌*◌, ◌≤◌, ◌≡◌, refl, true, none, some, [], ◌∷◌, codes, pos, negsuc, map, ok,
}
use ziti_k8s_agent.Operator.{ZitiController}
use ziti_k8s_agent.Operator.Admin.{IdentityConfig, admin_secret}
use ziti_k8s_agent.Operator.Objects.{Object, ServiceSpec}
use ziti_k8s_agent.Operator.Hooks.{MutatingWebhook}
use ziti_k8s_agent.Operator.Ensured.{IsSent}
use ziti_k8s_agent.Operator.Memory.{memory-StoreLaws, owned_by-OwningLaws}
use ziti_k8s_agent.Operator.Adopt.{Inbox, receive, after_30_s, controller_mgmt_api}
use ziti_k8s_agent.Operator.Merge.{no_fields, field, text, merge_specs}
use ziti_k8s_agent.Operator.Webhook.Reconciled.{agent_led}
use ziti_k8s_agent.Operator.Router.Wired.{out_of}
use ziti_k8s_agent.Operator.Router.Empty.{empty_service}
use ziti_k8s_agent.Operator.Webhook.{ZitiWebhook, ZitiWebhookSpec}
use ziti_k8s_agent.Operator.Webhook.Defaults.{webhook_defaults}
use ziti_k8s_agent.Operator.Webhook.Desired.{
  desired_webhook_service, desired_certificate, desired_webhooks, hour, word,
}
use ziti_k8s_agent.Operator.Webhook.Update.{WebhooksObject, account_equal}
use ziti_k8s_agent.Operator.Webhook.Finalize.{return_now, check_finalizer, finalizer}
use ziti_k8s_agent.Operator.Webhook.Finalized.{IsCleanedUp, finalizer_removed}
use ziti_k8s_agent.Operator.Webhook.Settled.{DeploymentRealized, deployment_settles}
use ziti_k8s_agent.Operator.Webhook.Wired.{
  WebhookFits, webhook_wired, agent_secret, admin_secret_read,
}
use ziti_k8s_agent.Operator.Webhook.Deployed.{variable, deployed_env}
use ziti_k8s_agent.Operator.Webhook.Lasting.{certificate_lasts}
use ziti_k8s_agent.Operator.Webhook.Empty.{empty_deployment}
use ziti_k8s_agent.Operator.Webhook.Reconcile.{
  settle_deployment, adopt_controller, webhook_reconcile,
}
use ziti_k8s_agent.Operator.Webhook.Samples.{
  Present, is_present, sample_finalizers, sample-FinalizerLaws, bare_webhook, sample_webhook,
  Deployments, sample_webhook_api, api_with, api_with-AgentLaws,
}

abbrev leaving_webhook : ZitiWebhook
leaving_webhook = record sample_webhook { deleting = true; finalizers = finalizer ∷ [] }

abbrev all_present : Present
all_present = λ key. true

abbrev all_removed : Present
all_removed = (check_finalizer sample_finalizers leaving_webhook all_present).1

removal :
    check_finalizer sample_finalizers leaving_webhook all_present ≡ (ok return_now, all_removed)
unfolding check_finalizer
removal = refl

finalizer_removed_example :
    IsCleanedUp sample_finalizers is_present sample-FinalizerLaws leaving_webhook all_removed
finalizer_removed_example =
    finalizer_removed sample_finalizers is_present sample-FinalizerLaws leaving_webhook all_present
      all_removed removal

abbrev deployed : Deployments
deployed = (settle_deployment sample_webhook_api sample_webhook []).1

deployment_created :
    settle_deployment sample_webhook_api sample_webhook [] ≡ (ok empty_deployment, deployed)
unfolding settle_deployment webhook_defaults
deployment_created = refl

deployment_settles_example :
    DeploymentRealized sample_webhook_api sample_webhook
      (owned_by-OwningLaws (codes "agent"))
      deployed
deployment_settles_example =
    deployment_settles sample_webhook_api sample_webhook (owned_by-OwningLaws (codes "agent"))
      (memory-StoreLaws (λ (w : Deployments). w) (λ objects w. objects) (λ s. s) IsSent (λ s. refl)
        (λ objects w. refl))
      empty_deployment [] deployed deployment_created

abbrev sample_service : Object ServiceSpec (Unit {0})
sample_service = out_of empty_service (desired_webhook_service sample_webhook)

sample_service_lem : desired_webhook_service sample_webhook ≡ ok sample_service
unfolding desired_webhook_service webhook_defaults
sample_service_lem = refl

webhook_wired_example : WebhookFits bare_webhook sample_service
webhook_wired_example = webhook_wired bare_webhook sample_service sample_service_lem

abbrev sample_controller : ZitiController
sample_controller = record {
  name = codes "ctrl";
  namespace = codes "ziti";
  spec = record {
    name = codes "controller1";
    admin_jwt = [];
    ziti_ctrl_mgmt_api = codes "https://ctrl:1280/edge/management/v1";
  };
}

abbrev adopted_spec : ZitiWebhookSpec
adopted_spec = record sample_webhook.spec {
  ziti_controller_name = codes "controller1";
  deployment_spec = record sample_webhook.spec.deployment_spec {
    env = record sample_webhook.spec.deployment_spec.env {
      ziti_ctrl_mgmt_api = codes "https://ctrl:1280/edge/management/v1";
    };
  };
}

adoption :
    adopt_controller sample_webhook_api (some sample_controller) sample_webhook.spec
    ≡ ok adopted_spec
unfolding adopt_controller webhook_defaults
adoption = refl

abbrev sample_identity : IdentityConfig
sample_identity = record { key = codes "key"; cert = codes "pem:cert"; ca = codes "ca" }

admin_secret_read_example :
    (agent_secret sample_webhook adopted_spec
        (admin_secret sample_controller sample_identity)
        (codes "ZITI_ADMIN_CERT")
      ≡ some (trim_prefix sample_identity.cert (codes "pem:")))
    × (agent_secret sample_webhook adopted_spec
          (admin_secret sample_controller sample_identity)
          (codes "ZITI_ADMIN_KEY")
        ≡ some (trim_prefix sample_identity.key (codes "pem:")))
    × (agent_secret sample_webhook adopted_spec
          (admin_secret sample_controller sample_identity)
          (codes "ZITI_CTRL_CA_BUNDLE")
        ≡ some (trim_prefix sample_identity.ca (codes "pem:")))
admin_secret_read_example =
    admin_secret_read sample_webhook_api sample_controller sample_webhook adopted_spec
      sample_identity refl adoption

-- A webhook configuration with a CA bundle that was injected.
abbrev injected : WebhooksObject
injected = record (desired_webhooks sample_webhook) {
  spec = map inject (desired_webhooks sample_webhook).spec;
}
  where
    inject : MutatingWebhook → MutatingWebhook
    inject w = record w { client_config = record w.client_config { ca_bundle = codes "ca" } }

certificate_lasts_example :
    (2160 ≤ 2562047 → (desired_certificate sample_webhook).spec.duration ≡ some (pos (2160 * hour)))
    × (2562048 ≤ 2160
        → 2160 ≤ 5124095
        → (desired_certificate sample_webhook).spec.duration
          ≡ some (negsuc (word - 2160 * hour - 1)))
unfolding webhook_defaults
certificate_lasts_example = certificate_lasts sample_webhook 2160 refl

-- A webhook without a name, with a controller in the channel.
abbrev unnamed_webhook : ZitiWebhook
unnamed_webhook = record sample_webhook { spec = record sample_webhook.spec { name = [] } }

abbrev full_inbox : Inbox
full_inbox = record { chan = sample_controller ∷ []; cached = none }

abbrev read_inbox : Inbox
read_inbox = record { chan = []; cached = some sample_controller }

abbrev led_cluster : Deployments
led_cluster = (webhook_reconcile (api_with unnamed_webhook) (codes "agent") full_inbox []).2

led_run :
    webhook_reconcile (api_with unnamed_webhook) (codes "agent") full_inbox []
    ≡ (ok after_30_s, read_inbox, led_cluster)
unfolding webhook_reconcile webhook_defaults
led_run = refl

completion :
    merge_specs
      (field (codes "Name") true (text []) no_fields)
      (field (codes "Name") true (text (webhook_defaults unnamed_webhook).name) no_fields)
    ≡ ok (field (codes "Name") true (text (codes "agent")) no_fields, true)
unfolding merge_specs webhook_defaults
completion = refl

agent_led_example :
    (read_inbox.cached ≡ some sample_controller)
    × (z' : ZitiWebhook) × (z'.meta.namespace ≡ codes "ziti")
    × (z'.spec.name ≡ codes "agent")
    × (realized : DeploymentRealized
        (api_with unnamed_webhook)
        z'
        ((api_with-AgentLaws unnamed_webhook).owning z')
        led_cluster)
    × (variable (deployed_env realized.0.spec) (codes "ZITI_MGMT_API")
        ≡ some (codes "https://ctrl:1280/edge/management/v1"))
unfolding webhook_defaults receive controller_mgmt_api
agent_led_example =
    agent_led (api_with unnamed_webhook) (api_with-AgentLaws unnamed_webhook) (codes "agent")
      unnamed_webhook sample_controller full_inbox read_inbox
      (field (codes "Name") true (text (codes "agent")) no_fields)
      (codes "https://ctrl:1280/edge/management/v1") after_30_s [] [] led_cluster refl refl refl
      completion refl refl led_run
