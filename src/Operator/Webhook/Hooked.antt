-- ===== src/Operator/Webhook/Hooked.antt =====
-- The webhook configuration: a second update changes nothing, and an injected CA bundle is kept.
use ziti_k8s_agent.Base.{◌≡◌, ℕ, get_elem?, some, Bool, true, false, not, ◌&&◌, List, is_empty}
use ziti_k8s_agent.Operator.Equal.{entries, same_map}
use ziti_k8s_agent.Operator.Hooks.{MutatingWebhook}
use ziti_k8s_agent.Operator.Webhook.{ZitiWebhook}
use ziti_k8s_agent.Operator.Webhook.Defaults.{webhook_labels, webhook_annotations}
use ziti_k8s_agent.Operator.Webhook.Desired.{desired_webhooks}
use ziti_k8s_agent.Operator.Webhook.Update.{
  WebhooksObject, set_unless, same_webhooks, keep_ca_bundles, update_webhooks,
}

abbrev kept_bundle : MutatingWebhook → MutatingWebhook → Bool
kept_bundle e d = is_empty d.client_config.ca_bundle && not (is_empty e.client_config.ca_bundle)

-- The webhooks are the desired ones, with the bundles that they have themselves.
abbrev pub HasWebhooks : List MutatingWebhook → List MutatingWebhook → Type 0
HasWebhooks ws desired = same_webhooks ws (keep_ca_bundles ws desired) ≡ true

-- Where a webhook has a bundle and none is desired for it, the new webhook at its place has it.
abbrev pub KeepsBundles :
    List MutatingWebhook → List MutatingWebhook → List MutatingWebhook → Type 0
KeepsBundles old desired new =
    (i : ℕ) (e d : MutatingWebhook)
    → get_elem? old i ≡ some e
    → get_elem? desired i ≡ some d
    → is_empty d.client_config.ca_bundle ≡ true
    → is_empty e.client_config.ca_bundle ≡ false
    → (x : MutatingWebhook) × (get_elem? new i ≡ some x)
      × (x.client_config.ca_bundle ≡ e.client_config.ca_bundle)

abbrev webhooks_set : List MutatingWebhook → WebhooksObject → WebhooksObject × Bool
webhooks_set desired a =
    set_unless (same_webhooks a.spec (keep_ca_bundles a.spec desired))
      (record a { spec = keep_ca_bundles a.spec desired }) (a, false)

module _ (z : ZitiWebhook) where
  -- What an update gives, and that a second one changes nothing.
  abbrev pub WebhooksRealized : WebhooksObject → Type 0
  WebhooksRealized a =
      (HasWebhooks (update_webhooks z (desired_webhooks z) a).0.spec z.spec.mutating_webhook_spec
        × KeepsBundles a.spec z.spec.mutating_webhook_spec
            (update_webhooks z (desired_webhooks z) a).0.spec
        × (same_map (update_webhooks z (desired_webhooks z) a).0.meta.labels
              (entries (webhook_labels z))
            ≡ true)
        × (same_map (update_webhooks z (desired_webhooks z) a).0.meta.annotations
              (entries (webhook_annotations z))
            ≡ true)
        × (update_webhooks z (desired_webhooks z) (update_webhooks z (desired_webhooks z) a).0
            ≡ ((update_webhooks z (desired_webhooks z) a).0, false)))
