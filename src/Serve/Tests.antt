-- ===== src/Serve/Tests.antt =====
-- Tests of the replies and of the failover.
use ziti_k8s_agent.Base.{
  ◌≡◌, refl, ◌↔◌, true, false, none, some, [], ◌∷◌, Text, codes, text_eq, if◌then◌else◌, Result, ok,
}
use ziti_k8s_agent.Base.{Action}
use ziti_k8s_agent.Kube.{Pod}
use ziti_k8s_agent.Url.Samples.{sample_urls}
use ziti_k8s_agent.Config.Samples.{loaded_config}
use ziti_k8s_agent.Naming.Samples.{sample_meta}
use ziti_k8s_agent.Cluster.{KubeApi, find_namespace_by_option}
use ziti_k8s_agent.Edge.{EdgeApi}
use ziti_k8s_agent.Edge.Memory.{Memory, memory_edge}
use ziti_k8s_agent.Edge.Samples.{no_identities}
use ziti_k8s_agent.Handler.Samples.{sample_cluster}
use ziti_k8s_agent.Handler.Admission.{handle_admission_request, dispatch}
use ziti_k8s_agent.Handler.{new_ziti_handler, cluster_client}
use ziti_k8s_agent.Base.{or_return}
use ziti_k8s_agent.Handler.{AdmissionResponse, empty_response, success_response}
use ziti_k8s_agent.Handler.Admission.{AdmissionRequest}
use ziti_k8s_agent.Handler.Answers.{IsCoherent}
use ziti_k8s_agent.Serve.Clients.{TlsLib, create_ziti_client_with_failover}
use ziti_k8s_agent.Serve.{
  Decoded, review, reviewed, HttpRequest, serve, serve_ziti_tunnel, tunnel_config,
}
use ziti_k8s_agent.Serve.Failover.{Chosen, failover_iff}
use ziti_k8s_agent.Serve.Replies.{Answered, serve-Answered, tunnel_review-IsCoherent}

-- A controller is verified unless it is the text of the world; a client is its URL.
abbrev sample_tls : TlsLib Text (Unit {0}) (Unit {0}) (Unit {0}) Text
sample_tls = record {
  x509_key_pair = λ cert key. ok (cert ∷ [], tt);
  parse_certificate = λ encoded. ok tt;
  pool_of_pem = λ pem. some tt;
  verify_controller = λ url pool down.
      if text_eq url down then ((false, some (codes "down")), down) else ((true, none), down);
  new_client = λ cert key url pool down. (ok url, down);
}

failover_iff_example :
    (create_ziti_client_with_failover sample_tls sample_urls []
        (codes "https://a:1" ∷ codes "https://b:1" ∷ [])
        tt
        tt
        tt
        (codes "https://a:1")
      ≡ (ok (some (codes "https://b:1/edge/management/v1")), codes "https://a:1"))
    ↔ Chosen sample_tls sample_urls tt tt tt
        (codes "https://a:1" ∷ codes "https://b:1" ∷ [])
        (codes "https://a:1")
        (some (codes "https://b:1/edge/management/v1"))
        (codes "https://a:1")
failover_iff_example =
    failover_iff sample_tls sample_urls tt tt tt (codes "https://a:1" ∷ codes "https://b:1" ∷ []) []
      (codes "https://a:1") (codes "https://a:1") (some (codes "https://b:1/edge/management/v1"))

abbrev sample_request : AdmissionRequest
sample_request = record {
  uid = codes "u1";
  operation = codes "CREATE";
  object = [];
  old_object = [];
}

abbrev sample_http : HttpRequest
sample_http = record { body = some (ok (codes "{}")); content_type = codes "application/json" }

abbrev decode_sample : Text → Result Decoded
decode_sample text = ok (review (some sample_request))

abbrev allow_all : AdmissionRequest → Action (Unit {0}) AdmissionResponse
allow_all request w = (ok (success_response empty_response), w)

abbrev sample_answer : AdmissionResponse
sample_answer = record (success_response empty_response) { uid = codes "u1" }

served :
    serve decode_sample (λ r. ok (codes "json")) (λ t. ok tt) sample_http allow_all tt
    ≡ (ok (reviewed sample_answer (codes "json")), tt)
unfolding serve
served = refl

serve-Answered_example :
    (codes "application/json" ≡ codes "application/json")
    × Answered decode_sample
        (λ r. ok (codes "json"))
        (λ t. ok tt)
        sample_http
        allow_all
        tt
        tt
        sample_answer
        (codes "json")
serve-Answered_example =
    serve-Answered decode_sample (λ r. ok (codes "json")) (λ t. ok tt) sample_http allow_all tt tt
      sample_answer (codes "json") served

abbrev get_kube : Action Memory (KubeApi Memory)
get_kube w = (ok (sample_cluster []), w)

abbrev get_edge : Action Memory (EdgeApi Memory)
get_edge w = (ok memory_edge, w)

abbrev decode_connect : Text → Result Decoded
decode_connect body = ok (review (some (record sample_request { operation = codes "CONNECT" })))

abbrev decode_any : Text → Result Pod
decode_any raw = ok (record { meta = sample_meta; containers = [] })

connected :
    serve_ziti_tunnel decode_connect
      (λ r. ok (codes "json"))
      (λ t. ok tt)
      get_kube
      get_edge
      decode_any
      loaded_config
      false
      sample_http
      no_identities
    ≡ (ok (reviewed sample_answer (codes "json")), no_identities)
unfolding serve_ziti_tunnel serve tunnel_config handle_admission_request dispatch new_ziti_handler
    cluster_client find_namespace_by_option or_return
connected = refl

tunnel_review-IsCoherent_example : IsCoherent sample_answer
tunnel_review-IsCoherent_example =
    tunnel_review-IsCoherent decode_connect (λ r. ok (codes "json")) (λ t. ok tt) decode_any
      loaded_config false get_kube get_edge sample_http no_identities no_identities sample_answer
      (codes "json") connected
