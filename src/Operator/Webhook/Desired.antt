-- ===== src/Operator/Webhook/Desired.antt =====
-- The objects that a webhook shall have, but for its deployment: the `getDesiredState` methods of
-- ziti-agent/operator/internal/controller/zitiwebhook_controller.go.
use ziti_k8s_agent.Base.{
  ◌-◌, ◌*◌, ◌%◌, ℕ, suc, true, Option, none, some, List, [], ◌∷◌, ◌++◌, Text, codes, ℤ, pos, negsuc,
  ltb, if◌then◌else◌, Result, ok, err, panic,
}
use ziti_k8s_agent.Operator.Equal.{entries}
use ziti_k8s_agent.Operator.Objects.{Meta, Object, ServicePort, ServiceSpec}
use ziti_k8s_agent.Operator.Hooks.{
  IssuerSpec, CertificateSpec, PolicyRule, RoleRef, Subject, MutatingWebhook, ServiceReference,
}
use ziti_k8s_agent.Operator.Merge.{filter_labels}
use ziti_k8s_agent.Operator.Router.Desired.{new_meta, cluster_service}
use ziti_k8s_agent.Operator.Webhook.{ServiceAccountSpec, ZitiWebhook, CertCondition}
use ziti_k8s_agent.Operator.Webhook.Defaults.{webhook_labels, webhook_annotations}

-- 2 ^ 64 and 2 ^ 63
abbrev pub word : ℕ
word = 18446744073709551616

abbrev pub half_word : ℕ
half_word = 9223372036854775808

-- The signed number that 64 bits stand for.
abbrev pub of_word : ℕ → ℤ
of_word n = if ltb n half_word then pos n else negsuc (word - n - 1)

abbrev pub hour : ℕ
hour = 3600000000000

-- `time.Duration(n) * time.Hour`, which wraps round.
unfoldable pub hours : ℤ → ℤ
hours (pos n) = of_word (n * hour % word)
hours (negsuc n) = of_word ((word - (suc n) * hour % word) % word)

abbrev pub owned_meta : ZitiWebhook → Text → Meta
owned_meta z suffix = new_meta (z.spec.name ++ suffix) z.meta.namespace (entries (webhook_labels z))

-- The metadata of an object that is not in a namespace.
abbrev pub cluster_meta : ZitiWebhook → Text → Meta
cluster_meta z suffix = new_meta (z.spec.name ++ suffix) [] (entries (webhook_labels z))

-- `getDesiredStateIssuer`
unfoldable pub desired_issuer : ZitiWebhook → Object IssuerSpec (List CertCondition)
unfolding webhook_labels
desired_issuer z = record {
  meta = owned_meta z (codes "-ca-issuer");
  spec = record { self_signed = true };
  status = [];
}

-- The names of the service, up to its full name in the cluster.
abbrev pub service_name : ZitiWebhook → Text
service_name z = z.spec.name ++ codes "-service"

abbrev pub service_in_namespace : ZitiWebhook → Text
service_in_namespace z = z.spec.name ++ (codes "-service." ++ z.meta.namespace)

abbrev pub service_with : ZitiWebhook → Text → Text
service_with z domain = z.spec.name ++ (codes "-service." ++ (z.meta.namespace ++ domain))

abbrev pub certificate_spec : ZitiWebhook → CertificateSpec
certificate_spec z = record {
  common_name = service_with z (codes ".svc.cluster.local");
  dns_names =
      service_name z
      ∷ service_in_namespace z
      ∷ service_with z (codes ".svc")
      ∷ service_with z (codes ".svc.cluster.local")
      ∷ [];
  duration = some (hours z.spec.cert.duration);
  issuer_name = z.spec.name ++ codes "-ca-issuer";
  issuer_kind = codes "Issuer";
  private_key =
      some (record { algorithm = codes "RSA"; encoding = codes "PKCS1"; size = pos 2048 });
  renew_before = some (hours z.spec.cert.renew_before);
  secret_name = z.spec.name ++ codes "-server-cert";
  organizations = some z.spec.cert.organizations;
  usages = codes "digital signature" ∷ codes "key encipherment" ∷ codes "server auth" ∷ [];
}

-- `getDesiredStateCertificate`
unfoldable pub desired_certificate : ZitiWebhook → Object CertificateSpec (List CertCondition)
unfolding webhook_labels hours
desired_certificate z = record {
  meta = owned_meta z (codes "-admission-cert");
  spec = certificate_spec z;
  status = [];
}

-- `*MutatingWebhookSpec[0].ClientConfig.Service.Port`
abbrev pub port_of_service : Option ServiceReference → Result ℤ
port_of_service none = panic
port_of_service (some s) = elim s.port [ none ↦ panic | some p ↦ ok p ]

abbrev pub first_webhook_port : List MutatingWebhook → Result ℤ
first_webhook_port [] = panic
first_webhook_port (w ∷ _) = port_of_service w.client_config.service

abbrev pub https_port : ZitiWebhook → ℤ → ServicePort
https_port z port = record {
  name = codes "https";
  protocol = codes "TCP";
  port = port;
  target_port = z.spec.deployment_spec.port;
}

abbrev pub webhook_service : ZitiWebhook → ℤ → Object ServiceSpec (Unit {0})
webhook_service z port = record {
  meta = owned_meta z (codes "-service");
  spec = cluster_service (https_port z port) (entries (filter_labels (webhook_labels z)));
  status = tt;
}

abbrev pub service_at : ZitiWebhook → Result ℤ → Result (Object ServiceSpec (Unit {0}))
service_at z (ok port) = ok (webhook_service z port)
service_at z (err e) = err e
service_at z panic = panic

-- `getDesiredStateService`
unfoldable pub desired_webhook_service : ZitiWebhook → Result (Object ServiceSpec (Unit {0}))
unfolding webhook_labels filter_labels
desired_webhook_service z = service_at z (first_webhook_port z.spec.mutating_webhook_spec)

-- `getDesiredStateServiceAccount`
unfoldable pub desired_service_account : ZitiWebhook → Object ServiceAccountSpec (Unit {0})
unfolding webhook_labels
desired_service_account z = record {
  meta = owned_meta z (codes "-service-account");
  spec = z.spec.service_account;
  status = tt;
}

-- `getDesiredStateClusterRole`
unfoldable pub desired_cluster_role : ZitiWebhook → Object (List PolicyRule) (Unit {0})
unfolding webhook_labels
desired_cluster_role z = record {
  meta = cluster_meta z (codes "-cluster-role");
  spec = z.spec.cluster_role_rules;
  status = tt;
}

-- The role and the subjects of a binding.
pub record Binding : Type 0 where
  pub role_ref : RoleRef
  pub subjects : List Subject

-- `getDesiredStateClusterRoleBinding`
unfoldable pub desired_binding : ZitiWebhook → Object Binding (Unit {0})
unfolding webhook_labels
desired_binding z = record {
  meta = cluster_meta z (codes "-cluster-role-binding");
  spec = record {
    role_ref = record {
      api_group = codes "rbac.authorization.k8s.io";
      kind = codes "ClusterRole";
      name = z.spec.name ++ codes "-cluster-role";
    };
    subjects =
        record {
          kind = codes "ServiceAccount";
          name = z.spec.name ++ codes "-service-account";
          namespace = z.meta.namespace;
        }
        ∷ [];
  };
  status = tt;
}

-- `getDesiredStateMutatingWebhookConfiguration`
unfoldable pub desired_webhooks : ZitiWebhook → Object (List MutatingWebhook) (Unit {0})
unfolding webhook_labels webhook_annotations
desired_webhooks z = record {
  meta = record (cluster_meta z (codes "-mutating-webhook-configuration")) {
    annotations = entries (webhook_annotations z);
  };
  spec = z.spec.mutating_webhook_spec;
  status = tt;
}
