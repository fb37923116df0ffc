-- ===== src/Operator/Webhook/Samples.antt =====
-- A webhook with its default specification, and a cluster that keeps its objects in memory.
use ziti_k8s_agent.Base.{
  ◌≡◌, refl, sym, ap, Bool, true, false, inl, inr, Bool-cases, List, [], ◌∷◌, ◌++◌, Text, codes,
  text_eq, text_eq_refl, if◌then◌else◌, ok, err,
}
use ziti_k8s_agent.Operator.Admin.{found, not_found}
use ziti_k8s_agent.Operator.Merge.{Fields, no_fields, field, text}
use ziti_k8s_agent.Operator.Ensured.{IsSent}
use ziti_k8s_agent.Operator.Memory.{memory, memory-StoreLaws, owned_by, owned_by-OwningLaws}
use ziti_k8s_agent.Operator.Router.Wired.{got}
use ziti_k8s_agent.Operator.Webhook.Adopted.{AgentLaws}
use ziti_k8s_agent.Operator.Webhook.{ZitiWebhook, ZitiWebhookSpec}
use ziti_k8s_agent.Operator.Webhook.Settled.{DeploymentObject}
use ziti_k8s_agent.Operator.Webhook.Finalize.{
  Target, cluster_role, cluster_role_binding, secret, webhook_configuration, FinalizerApi,
}
use ziti_k8s_agent.Operator.Webhook.Finalized.{FinalizerLaws, if_true, if_false}
use ziti_k8s_agent.Operator.Webhook.Reconcile.{ClusterStore, WebhookApi}
use ziti_k8s_agent.Operator.Webhook.Wired.{defaulted_webhook}
use ziti_k8s_agent.Operator.Webhook.Empty.{empty_webhook}

-- What is there, by a key for the kind and the name.
abbrev pub Present : Type 0
Present = Text → Bool

abbrev pub key_of : Target → Text
key_of (cluster_role name) = b'r' ∷ name
key_of (cluster_role_binding name) = b'b' ∷ name
key_of (secret name namespace) = b's' ∷ (namespace ++ b'/' ∷ name)
key_of (webhook_configuration name) = b'w' ∷ name

abbrev pub is_present : Target → Present → Bool
is_present t w = w (key_of t)

abbrev pub without : Text → Present → Present
without removed w key = if text_eq key removed then false else w key

abbrev pub sample_finalizers : FinalizerApi Present
sample_finalizers = record {
  contains_finalizer = λ z name. has_any z.finalizers;
  add_finalizer = λ z name. record z { finalizers = name ∷ [] };
  remove_finalizer = λ z name. record z { finalizers = [] };
  delete = λ t w. (found tt, without (key_of t) w);
  update_webhook = λ z w. (ok z, w);
}
  where
    has_any : List Text → Bool
    has_any [] = false
    has_any (_ ∷ _) = true

still_gone : (key removed : Text) (w : Present) → w key ≡ false → without removed w key ≡ false
still_gone key removed w gone = elim (Bool-cases (text_eq key removed)) [
  | inl e ↦ if_true (text_eq key removed) false (w key) e
  | inr e ↦ rw (if_false (text_eq key removed) false (w key) e) gone
]

pub sample-FinalizerLaws : FinalizerLaws sample_finalizers is_present
sample-FinalizerLaws = record {
  deletes = λ t w w' r h p.
      rw (← ap (λ x. x.1) h)
        (if_true (text_eq (key_of t) (key_of t)) false (w (key_of t)) (text_eq_refl (key_of t)));
  keeps = λ t u w w' r h gone. rw (← ap (λ x. x.1) h) (still_gone (key_of u) (key_of t) w gone);
  updates = λ z u w w' r h gone. rw (← ap (λ x. x.1) h) gone;
}

abbrev pub bare_webhook : ZitiWebhook
bare_webhook = record empty_webhook {
  meta = record empty_webhook.meta { name = codes "agent"; namespace = codes "ziti" };
}

abbrev pub sample_webhook : ZitiWebhook
sample_webhook = defaulted_webhook bare_webhook

-- The deployments of a cluster.
abbrev pub Deployments : Type 0
Deployments = List DeploymentObject

-- A store for objects that are not looked at.
abbrev pub no_objects : {A : Type 0} → ClusterStore Deployments A
no_objects = record {
  list = λ name w. (ok [], w);
  create = λ a w. (ok tt, w);
  patch = λ old new w. (ok new, w);
}

-- The name among the fields of a specification.
abbrev set_name : Fields → ZitiWebhookSpec → ZitiWebhookSpec
set_name (field name exported (text t) fs) s = record s { name = t }
set_name fs s = s

-- A cluster in which a webhook is read.
abbrev pub api_with : ZitiWebhook → WebhookApi Deployments (Unit {0})
api_with read = record {
  get_webhook = λ key w. (found read, w);
  not_found_error = codes "not found";
  finalizers = record {
    contains_finalizer = λ z name. true;
    add_finalizer = λ z name. z;
    remove_finalizer = λ z name. z;
    delete = λ t w. (not_found, w);
    update_webhook = λ z w. (ok z, w);
  };
  patch_status = λ old new w. (ok tt, w);
  issuers = memory (λ w. []) (λ objects w. w) (λ s. s);
  certificates = memory (λ w. []) (λ objects w. w) (λ s. s);
  services = memory (λ w. []) (λ objects w. w) (λ s. s);
  accounts = memory (λ w. []) (λ objects w. w) (λ s. s);
  roles = no_objects;
  bindings = no_objects;
  webhooks = no_objects;
  deployments = memory (λ w. w) (λ objects w. objects) (λ s. s);
  owning = λ z. owned_by z.meta.name;
  reflection = record {
    fields_of = λ s. field (codes "Name") true (text s.name) no_fields;
    set_fields = set_name;
  };
  jwt = record { parse_unverified = λ token. err (codes "no token"); get_issuer = λ claims. ok [] };
}

abbrev pub sample_webhook_api : WebhookApi Deployments (Unit {0})
sample_webhook_api = api_with sample_webhook

pub api_with-AgentLaws : (read : ZitiWebhook) → AgentLaws (api_with read)
api_with-AgentLaws read = record {
  owning = λ z. owned_by-OwningLaws z.meta.name;
  deployments =
      memory-StoreLaws (λ (w : Deployments). w) (λ objects w. objects) (λ s. s) IsSent (λ s. refl)
        (λ objects w. refl);
  webhook_reads = λ key w. refl;
  status_keeps = λ old new w w' u namespace name f h g. rw (← ap (λ p. p.1) h) g;
  answers = λ x z' w w' h.
      let same : x ≡ z' = got (ok x) z' (ap (λ p. p.0) h) in
      (
        ap (λ (z : ZitiWebhook). z.spec) (sym same),
        ap (λ (z : ZitiWebhook). z.meta.namespace) (sym same),
      );
}
