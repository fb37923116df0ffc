-- ===== src/Serve/Replies.antt =====
-- What the review that is written back holds.
use ziti_k8s_agent.Base.{
  ◌≡◌, refl, sym, ap, ◌∙◌, inl, inr, Bool, none, some, arith, Text, codes, text_eq, text_eq→eq,
  Bool-cases, Result, ok, err, panic,
}
use ziti_k8s_agent.Base.{Action}
use ziti_k8s_agent.Kube.{Pod}
use ziti_k8s_agent.Cluster.{KubeApi}
use ziti_k8s_agent.Edge.{EdgeApi}
use ziti_k8s_agent.Config.{WebhookConfig}
use ziti_k8s_agent.Handler.{AdmissionResponse, new_ziti_handler}
use ziti_k8s_agent.Handler.Admission.{AdmissionRequest, handle_admission_request}
use ziti_k8s_agent.Handler.Answers.{IsCoherent, admission-Answers}
use ziti_k8s_agent.Serve.{
  Decoded, review, no_review, other_kind, Reply, silent, http_error, reviewed, HttpRequest, body_of,
  written, marshalled, answer, serve_decoded, serve, serve_ziti_tunnel, tunnel_config, with_clients,
  with_ziti,
}

-- The parts of a reply.
abbrev response_of : AdmissionResponse → Result Reply → AdmissionResponse
response_of d (ok (reviewed r json)) = r
response_of d (ok silent) = d
response_of d (ok (http_error n m)) = d
response_of d (err e) = d
response_of d panic = d

abbrev json_of : Text → Result Reply → Text
json_of d (ok (reviewed r json)) = json
json_of d (ok silent) = d
json_of d (ok (http_error n m)) = d
json_of d (err e) = d
json_of d panic = d

module _ (marshal : AdmissionResponse → Result Text) (write : Text → Result (Unit {0})) where
  written_same :
      (x response : AdmissionResponse) (j json : Text) (u : Result (Unit {0}))
      → written marshal write x j u ≡ ok (reviewed response json)
      → (x ≡ response) × (j ≡ json)
  written_same x response j json (ok _) h = (ap (response_of x) h, ap (json_of j) h)
  written_same x response j json (err e) h = absurd (ground arith)
  written_same x response j json panic h = absurd (ground arith)

  written_parts :
      (x response : AdmissionResponse) (m : Result Text) (json : Text)
      → marshalled marshal write x m ≡ ok (reviewed response json)
      → (x ≡ response) × (m ≡ ok json)
  written_parts x response (ok j) json h =
      let (e, f) = written_same x response j json (write j) h in (e, ap (λ t. ok t) f)
  written_parts x response (err e) json h = absurd (ground arith)
  written_parts x response panic json h = absurd (ground arith)

module _ {W : Type 0} (decode : Text → Result Decoded) (marshal : AdmissionResponse → Result Text)
    (write : Text → Result (Unit {0})) where
  -- The request that a written review answers.
  pub record Answered (r : HttpRequest) (admit : AdmissionRequest → Action W AdmissionResponse)
      (w w' : W) (response : AdmissionResponse) (json : Text) : Type 0 where
    pub request : AdmissionRequest
    pub given : AdmissionResponse
    pub decoded : decode (body_of r.body) ≡ ok (review (some request))
    pub admitted : admit request w ≡ (ok given, w')
    pub with_uid : response ≡ record given { uid = request.uid }
    pub marshals : marshal response ≡ ok json

  Answered-of :
      (r : HttpRequest) (admit : AdmissionRequest → Action W AdmissionResponse) (w w' : W)
      (response : AdmissionResponse) (json : Text) (request : AdmissionRequest)
      (p : Result AdmissionResponse × W)
      → decode (body_of r.body) ≡ ok (review (some request))
      → admit request w ≡ p
      → answer decode marshal write request p ≡ (ok (reviewed response json), w')
      → Answered r admit w w' response json
  Answered-of r admit w w' response json request (ok given, w₁) d a h =
      let x : AdmissionResponse = record given { uid = request.uid } in
      let (e, m) = written_parts marshal write x response (marshal x) json (ap (λ q. q.0) h) in
      record {
        request = request;
        given = given;
        decoded = d;
        admitted = a ∙ ap (λ v. (ok given, v)) (ap (λ q. q.1) h);
        with_uid = sym e;
        marshals = ap marshal (sym e) ∙ m;
      }
  Answered-of r admit w w' response json request (err e, w₁) d a h = absurd (ground arith)
  Answered-of r admit w w' response json request (panic, w₁) d a h = absurd (ground arith)

  decoded-Answered :
      (r : HttpRequest) (admit : AdmissionRequest → Action W AdmissionResponse) (w w' : W)
      (response : AdmissionResponse) (json : Text) (d : Result Decoded)
      → decode (body_of r.body) ≡ d
      → serve_decoded decode marshal write admit d w ≡ (ok (reviewed response json), w')
      → Answered r admit w w' response json
  decoded-Answered r admit w w' response json (ok (review none)) d h = absurd (ground arith)
  decoded-Answered r admit w w' response json (ok (review (some request))) d h =
      Answered-of r admit w w' response json request (admit request w) d refl h
  decoded-Answered r admit w w' response json (ok no_review) d h = absurd (ground arith)
  decoded-Answered r admit w w' response json (ok (other_kind gvk)) d h = absurd (ground arith)
  decoded-Answered r admit w w' response json (err e) d h = absurd (ground arith)
  decoded-Answered r admit w w' response json panic d h = absurd (ground arith)

  -- A review is written back only for a JSON request whose body decodes to a review with a request:
  -- it holds the response that the handler gave to that request, under the request's UID.
  pub serve-Answered :
      (r : HttpRequest) (admit : AdmissionRequest → Action W AdmissionResponse) (w w' : W)
      (response : AdmissionResponse) (json : Text)
      → serve decode marshal write r admit w ≡ (ok (reviewed response json), w')
      → (r.content_type ≡ codes "application/json") × Answered r admit w w' response json
  unfolding serve
  serve-Answered r admit w w' response json h =
      elim (Bool-cases (text_eq r.content_type (codes "application/json"))) [
        | inl e ↦ (
          text_eq→eq r.content_type (codes "application/json") e,
          decoded-Answered r admit w w' response json (decode (body_of r.body)) refl (rw e at h),
        )
        | inr e ↦ absurd (ground arith)
      ]

module _ {W : Type 0} (decode : Text → Result Decoded) (marshal : AdmissionResponse → Result Text)
    (write : Text → Result (Unit {0})) (decode_pod : Text → Result Pod) (config : WebhookConfig)
    (verbose : Bool) where
  abbrev tunnel_admit : KubeApi W → EdgeApi W → AdmissionRequest → Action W AdmissionResponse
  tunnel_admit K E =
      handle_admission_request
        (new_ziti_handler K E (tunnel_config config) config.cluster_dns_zone verbose) decode_pod

  Answered-IsCoherent :
      (K : KubeApi W) (E : EdgeApi W) (r : HttpRequest) (w w' : W) (response : AdmissionResponse)
      (json : Text)
      → Answered decode marshal write r (tunnel_admit K E) w w' response json
      → IsCoherent response
  Answered-IsCoherent K E r w w' response json a =
      let coherent : IsCoherent a.given = rw (a.admitted) at (
        admission-Answers
          (new_ziti_handler K E (tunnel_config config) config.cluster_dns_zone verbose) decode_pod
          a.request w) in
      rw (a.with_uid) coherent

  with_ziti-IsCoherent :
      (K : KubeApi W) (z : Result (EdgeApi W) × W) (r : HttpRequest) (w' : W)
      (response : AdmissionResponse) (json : Text)
      → with_ziti decode marshal write z (λ E. serve decode marshal write r (tunnel_admit K E))
        ≡ (ok (reviewed response json), w')
      → IsCoherent response
  with_ziti-IsCoherent K (ok E, w) r w' response json h =
      Answered-IsCoherent K E r w w' response json
        ((serve-Answered decode marshal write r (tunnel_admit K E) w w' response json h).1)
  with_ziti-IsCoherent K (err e, w) r w' response json h = absurd (ground arith)
  with_ziti-IsCoherent K (panic, w) r w' response json h = absurd (ground arith)

  with_clients-IsCoherent :
      (kc : Result (KubeApi W) × W) (ziti_client : Action W (EdgeApi W)) (r : HttpRequest) (w' : W)
      (response : AdmissionResponse) (json : Text)
      → with_clients decode marshal write kc ziti_client
          (λ K E. serve decode marshal write r (tunnel_admit K E))
        ≡ (ok (reviewed response json), w')
      → IsCoherent response
  with_clients-IsCoherent (err e, w) zc r w' response json h = absurd (ground arith)
  with_clients-IsCoherent (panic, w) zc r w' response json h = absurd (ground arith)
  with_clients-IsCoherent (ok K, w) zc r w' response json h =
      with_ziti-IsCoherent K (zc w) r w' response json h

  -- Whatever the clients, the request and the cluster do, a review that the tunnel webhook writes is
  -- allowed with `Success`, or refused with `Failure`, a message and no patch.
  pub tunnel_review-IsCoherent :
      (kube_client : Action W (KubeApi W)) (ziti_client : Action W (EdgeApi W)) (r : HttpRequest)
      (w w' : W) (response : AdmissionResponse) (json : Text)
      → serve_ziti_tunnel decode marshal write kube_client ziti_client decode_pod config verbose r w
        ≡ (ok (reviewed response json), w')
      → IsCoherent response
  unfolding serve_ziti_tunnel
  tunnel_review-IsCoherent kube_client ziti_client r w w' response json h =
      with_clients-IsCoherent (kube_client w) ziti_client r w' response json h
