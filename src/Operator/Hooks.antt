-- ===== src/Operator/Hooks.antt =====
-- Webhook configurations, roles, issuers and certificates as the operator writes and compares them.
use ziti_k8s_agent.Base.{Bool, List, Option, Text, ℤ}
use ziti_k8s_agent.Operator.Equal.{
  DeepEqual, on_field, no_field, text_equal, bool_equal, int_equal, map_equal, pointer_equal,
  slice_equal,
}
use ziti_k8s_agent.Operator.Objects.{LabelSelector, selector_equal}

-- `admissionregistrationv1.ServiceReference`
pub record ServiceReference : Type 0 where
  pub name : Text
  pub namespace : Text
  pub path : Option Text
  pub port : Option ℤ

instance abbrev pub reference_equal : DeepEqual (ServiceReference)
reference_equal =
    on_field (λ (x : ServiceReference). x.name)
      (on_field (λ (x : ServiceReference). x.namespace)
        (on_field (λ (x : ServiceReference). x.path)
          (on_field (λ (x : ServiceReference). x.port) (no_field))))

-- `admissionregistrationv1.WebhookClientConfig`
pub record WebhookClientConfig : Type 0 where
  pub service : Option ServiceReference
  pub ca_bundle : Text

instance abbrev pub client_equal : DeepEqual (WebhookClientConfig)
client_equal =
    on_field (λ (x : WebhookClientConfig). x.service)
      (on_field (λ (x : WebhookClientConfig). x.ca_bundle) (no_field))

-- `admissionregistrationv1.RuleWithOperations`
pub record WebhookRule : Type 0 where
  pub operations : List Text
  pub api_groups : List Text
  pub api_versions : List Text
  pub resources : List Text
  pub scope : Option Text

instance abbrev pub rule_equal : DeepEqual (WebhookRule)
rule_equal =
    on_field (λ (x : WebhookRule). x.operations)
      (on_field (λ (x : WebhookRule). x.api_groups)
        (on_field (λ (x : WebhookRule). x.api_versions)
          (on_field (λ (x : WebhookRule). x.resources)
            (on_field (λ (x : WebhookRule). x.scope) (no_field)))))

-- `admissionregistrationv1.MutatingWebhook`
pub record MutatingWebhook : Type 0 where
  pub name : Text
  pub object_selector : Option LabelSelector
  pub namespace_selector : Option LabelSelector
  pub side_effects : Option Text
  pub failure_policy : Option Text
  pub timeout_seconds : Option ℤ
  pub match_policy : Option Text
  pub reinvocation_policy : Option Text
  pub admission_review_versions : List Text
  pub rules : List WebhookRule
  pub client_config : WebhookClientConfig

instance abbrev pub mutating_equal : DeepEqual (MutatingWebhook)
mutating_equal =
    on_field (λ (x : MutatingWebhook). x.name)
      (on_field (λ (x : MutatingWebhook). x.object_selector)
        (on_field (λ (x : MutatingWebhook). x.namespace_selector)
          (on_field (λ (x : MutatingWebhook). x.side_effects)
            (on_field (λ (x : MutatingWebhook). x.failure_policy)
              (on_field (λ (x : MutatingWebhook). x.timeout_seconds)
                (on_field (λ (x : MutatingWebhook). x.match_policy)
                  (on_field (λ (x : MutatingWebhook). x.reinvocation_policy)
                    (on_field (λ (x : MutatingWebhook). x.admission_review_versions)
                      (on_field (λ (x : MutatingWebhook). x.rules)
                        (on_field (λ (x : MutatingWebhook). x.client_config) (no_field)))))))))))

-- `rbacv1.PolicyRule`
pub record PolicyRule : Type 0 where
  pub api_groups : List Text
  pub resources : List Text
  pub verbs : List Text

instance abbrev pub policy_equal : DeepEqual (PolicyRule)
policy_equal =
    on_field (λ (x : PolicyRule). x.api_groups)
      (on_field (λ (x : PolicyRule). x.resources)
        (on_field (λ (x : PolicyRule). x.verbs) (no_field)))

-- `rbacv1.RoleRef`
pub record RoleRef : Type 0 where
  pub api_group : Text
  pub kind : Text
  pub name : Text

instance abbrev pub role_ref_equal : DeepEqual (RoleRef)
role_ref_equal =
    on_field (λ (x : RoleRef). x.api_group)
      (on_field (λ (x : RoleRef). x.kind) (on_field (λ (x : RoleRef). x.name) (no_field)))

-- `rbacv1.Subject`
pub record Subject : Type 0 where
  pub kind : Text
  pub name : Text
  pub namespace : Text

instance abbrev pub subject_equal : DeepEqual (Subject)
subject_equal =
    on_field (λ (x : Subject). x.kind)
      (on_field (λ (x : Subject). x.name) (on_field (λ (x : Subject). x.namespace) (no_field)))

-- `corev1.ObjectReference`, of which the name is set.
pub record ObjectReference : Type 0 where
  pub name : Text

instance abbrev pub secret_ref_equal : DeepEqual (ObjectReference)
secret_ref_equal = on_field (λ (x : ObjectReference). x.name) (no_field)

-- `certmanagerv1.IssuerSpec`, for an issuer that signs its own certificates or not.
pub record IssuerSpec : Type 0 where
  pub self_signed : Bool

instance abbrev pub issuer_equal : DeepEqual (IssuerSpec)
issuer_equal = on_field (λ (x : IssuerSpec). x.self_signed) (no_field)

-- `certmanagerv1.CertificatePrivateKey`
pub record PrivateKey : Type 0 where
  pub algorithm : Text
  pub encoding : Text
  pub size : ℤ

instance abbrev pub private_key_equal : DeepEqual (PrivateKey)
private_key_equal =
    on_field (λ (x : PrivateKey). x.algorithm)
      (on_field (λ (x : PrivateKey). x.encoding) (on_field (λ (x : PrivateKey). x.size) (no_field)))

-- `certmanagerv1.CertificateSpec`, with durations in nanoseconds.
pub record CertificateSpec : Type 0 where
  pub common_name : Text
  pub dns_names : List Text
  pub duration : Option ℤ
  pub issuer_name : Text
  pub issuer_kind : Text
  pub private_key : Option PrivateKey
  pub renew_before : Option ℤ
  pub secret_name : Text
  pub organizations : Option (List Text)
  pub usages : List Text

instance abbrev pub certificate_equal : DeepEqual (CertificateSpec)
certificate_equal =
    on_field (λ (x : CertificateSpec). x.common_name)
      (on_field (λ (x : CertificateSpec). x.dns_names)
        (on_field (λ (x : CertificateSpec). x.duration)
          (on_field (λ (x : CertificateSpec). x.issuer_name)
            (on_field (λ (x : CertificateSpec). x.issuer_kind)
              (on_field (λ (x : CertificateSpec). x.private_key)
                (on_field (λ (x : CertificateSpec). x.renew_before)
                  (on_field (λ (x : CertificateSpec). x.secret_name)
                    (on_field (λ (x : CertificateSpec). x.organizations)
                      (on_field (λ (x : CertificateSpec). x.usages) (no_field))))))))))
