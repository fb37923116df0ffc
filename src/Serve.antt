-- ===== src/Serve.antt =====
-- The HTTP side of ziti-agent/cmd/webhook/webhook.go. The decoders and the writer are parameters.
use ziti_k8s_agent.Base.{
  ℕ, zero, suc, ◌+◌, ◌-◌, ◌*◌, ◌≤◌, ◌<◌, ◌≡◌, refl, sym, ap, ◌∙◌, ◌≢◌, ◌↔◌, ◌⊎◌, inl, inr, Bool,
  true, false, not, ◌&&◌, ◌||◌, Option, none, some, List, [], ◌∷◌, ◌++◌, map, append-nil,
  append_assoc, arith, Text, codes, text_eq, text_eq_refl, text_eq_iff, text_eq→eq, is_empty,
  is_empty-false, has_prefix, has_suffix, has_suffix-append, trim_suffix, trim_suffix-append,
  contains, contains-append, contains_suffix, contains_split, contains-replace_first, replace_first,
  length, take, drop, take-append, length-append, All, leb, ltb, ◌==◌, if◌then◌else◌, Bool-cases,
  Option-cases, and_parts, Result, ok, err, panic, ℤ, pos, is_zero,
}
pub mod Clients
pub mod Failover
pub mod Replies
mod Tests
use ziti_k8s_agent.Base.{Action, ◌>>=◌, pure, lift, trim_prefix}
use ziti_k8s_agent.Url.{UrlLib, extract_controller_base_url, reconstitute_mgmt_api_url}
use ziti_k8s_agent.Config.{WebhookConfig}
use ziti_k8s_agent.Config.Identity.{ZitiIdentityConfig}
use ziti_k8s_agent.Handler.{
  ZitiConfig, AdmissionResponse, new_ziti_handler, ziti_type_tunnel, ziti_type_router,
}
use ziti_k8s_agent.Handler.Admission.{AdmissionRequest, handle_admission_request}
use ziti_k8s_agent.Kube.{Pod}
use ziti_k8s_agent.Cluster.{KubeApi}
use ziti_k8s_agent.Edge.{EdgeApi}

-- The configurations of the two handlers.
unfoldable pub tunnel_config : WebhookConfig → ZitiConfig
tunnel_config c = record {
  image = c.sidecar.image;
  image_version = c.sidecar.image_version;
  image_pull_policy = c.sidecar.image_pull_policy;
  volume_mount_name = c.sidecar.volume_mount_name;
  identity_dir = c.sidecar.identity_dir;
  prefix = c.sidecar.prefix;
  role_key = c.controller.role_key;
  label_key = codes "tunnel.openziti.io/enabled";
  label_del_value = codes "false";
  label_cr_value = codes "true";
  resolver_ip = c.sidecar.resolver_ip;
  dns_upstream_enabled = c.sidecar.dns_upstream_enabled;
  unanswerable = c.sidecar.dns_unanswerable;
  search_domains = c.sidecar.search_domains;
  additional_args = c.sidecar.additional_args;
  pod_security_override = c.pod_security_context_override;
  ziti_type = ziti_type_tunnel;
  annotation_key = [];
  router_config = record {
    cost = 0;
    disabled = false;
    is_tunneler_enabled = false;
    role_attributes = [];
  };
}

unfoldable pub router_config : WebhookConfig → ZitiConfig
router_config c = record {
  image = [];
  image_version = [];
  image_pull_policy = [];
  volume_mount_name = [];
  identity_dir = [];
  prefix = c.sidecar.prefix;
  role_key = [];
  label_key = codes "router.openziti.io/enabled";
  label_del_value = codes "false";
  label_cr_value = codes "true";
  resolver_ip = c.sidecar.resolver_ip;
  dns_upstream_enabled = false;
  unanswerable = [];
  search_domains = [];
  additional_args = [];
  pod_security_override = c.pod_security_context_override;
  ziti_type = ziti_type_router;
  annotation_key = codes "openziti/router-name";
  router_config = record {
    cost = 0;
    disabled = false;
    is_tunneler_enabled = false;
    role_attributes = codes "router" ∷ [];
  };
}

-- `http.Request`, of which the body, nil or with what reading it gives, and a header are read.
pub record HttpRequest : Type 0 where
  pub body : Option (Result Text)
  pub content_type : Text

-- What decoding gives: a review with its request, another object of that kind, or another kind.
pub data Decoded : Type 0 where
  review : Option AdmissionRequest → Decoded
  no_review : Decoded
  other_kind : Text → Decoded

-- What is written: nothing, an error with its status, or the review as JSON.
pub data Reply : Type 0 where
  silent : Reply
  http_error : ℕ → Text → Reply
  reviewed : AdmissionResponse → Text → Reply

abbrev pub body_of : Option (Result Text) → Text
body_of none = []
body_of (some (ok data_read)) = data_read
body_of (some (err e)) = []
body_of (some panic) = []

module _ (marshal : AdmissionResponse → Result Text) (write : Text → Result (Unit {0})) where
  abbrev pub written : AdmissionResponse → Text → Result (Unit {0}) → Result Reply
  written r json (ok _) = ok (reviewed r json)
  written r json (err e) = ok (http_error 500 (codes "failed to write response: " ++ e))
  written r json panic = panic

  abbrev pub marshalled : AdmissionResponse → Result Text → Result Reply
  marshalled r (ok json) = written r json (write json)
  marshalled r (err e) =
      ok (http_error 500 (codes "failed to marshal review response to JSON: " ++ e))
  marshalled r panic = panic

-- The decoder, `json.Marshal` on a review, and the writer of the response.
module _ {W : Type 0} (decode : Text → Result Decoded) (marshal : AdmissionResponse → Result Text)
    (write : Text → Result (Unit {0})) where
  -- The response gets the UID of the request.
  abbrev pub answer : AdmissionRequest → Result AdmissionResponse × W → Result Reply × W
  answer request (ok r, w) = (
    marshalled marshal write (record r { uid = request.uid })
        (marshal (record r { uid = request.uid })),
    w,
  )
  answer request (err e, w) = (err e, w)
  answer request (panic, w) = (panic, w)

  abbrev pub serve_decoded :
      (AdmissionRequest → Action W AdmissionResponse) → Result Decoded → Action W Reply
  serve_decoded admit (ok (review none)) w = (panic, w)
  serve_decoded admit (ok (review (some request))) w = answer request (admit request w)
  serve_decoded admit (ok no_review) w = (ok silent, w)
  serve_decoded admit (ok (other_kind gvk)) w =
      (ok (http_error 400 (codes "Unsupported group version kind: " ++ gvk)), w)
  serve_decoded admit (err e) w =
      (ok (http_error 400 (codes "Request could not be decoded: " ++ e)), w)
  serve_decoded admit panic w = (panic, w)

  unfoldable pub serve :
      HttpRequest → (AdmissionRequest → Action W AdmissionResponse) → Action W Reply
  serve r admit w =
      if text_eq r.content_type (codes "application/json")
      then serve_decoded admit (decode (body_of r.body)) w
      else (ok silent, w)

  abbrev pub with_ziti : {Z : Type 0} → Result Z × W → (Z → Action W Reply) → Result Reply × W
  with_ziti (ok z, w) k = k z w
  with_ziti (err e, w) k =
      (ok (http_error 500 (codes "failed to initialize ziti client: " ++ e)), w)
  with_ziti (panic, w) k = (panic, w)

  -- The start of both handlers: the Kubernetes client, then the Ziti client.
  abbrev pub with_clients :
      {K Z : Type 0} → Result K × W → Action W Z → (K → Z → Action W Reply) → Result Reply × W
  with_clients (err e, w) zc k =
      (ok (http_error 500 (codes "failed to initialize kube-apiserver client: " ++ e)), w)
  with_clients (panic, w) zc k = (panic, w)
  with_clients (ok kc, w) zc k = with_ziti (zc w) (k kc)

  -- The clients, the decoder of pods, the configuration and `klog.V(4).Enabled()`.
  module _ (kube_client : Action W (KubeApi W)) (ziti_client : Action W (EdgeApi W))
      (decode_pod : Text → Result Pod) (config : WebhookConfig) (verbose : Bool) where
    abbrev pub serve_with : ZitiConfig → HttpRequest → Action W Reply
    serve_with zc request w = with_clients (kube_client w) ziti_client (λ K E. serve request (
        handle_admission_request (new_ziti_handler K E zc config.cluster_dns_zone verbose)
          decode_pod))

    unfoldable pub serve_ziti_tunnel : HttpRequest → Action W Reply
    unfolding tunnel_config
    serve_ziti_tunnel = serve_with (tunnel_config config)

    unfoldable pub serve_ziti_router : HttpRequest → Action W Reply
    unfolding router_config
    serve_ziti_router = serve_with (router_config config)
