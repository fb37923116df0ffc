-- ===== src/Handler/Tests.antt =====
-- Tests of the handler.
use ziti_k8s_agent.Base.{
  ℕ, ◌≡◌, refl, true, false, some, List, [], ◌∷◌, ◌++◌, arith, Text, codes, ◌==◌, if◌then◌else◌,
  Result, ok,
}
use ziti_k8s_agent.Base.{split, or_return}
use ziti_k8s_agent.Kube.{Pod, PodDnsConfig}
use ziti_k8s_agent.Naming.{filter_map_value_list_by_key, has_container}
use ziti_k8s_agent.Naming.{
  build_ziti_identity_name, label_name, base_name, add_hash, validate_name, match_name,
}
use ziti_k8s_agent.Naming.Pattern.{run as run_name, step, is_alnum}
use ziti_k8s_agent.Naming.Samples.{
  sample_meta, sample_name, sample_roles, sample_uid, sample_container, sample_name-built,
}
use ziti_k8s_agent.Cluster.{find_namespace_by_option, get_cluster_service}
use ziti_k8s_agent.Edge.{
  create_identity_call, get_identity_by_name, get_identity_by_id, delete_identity_call,
}
use ziti_k8s_agent.Edge.Identities.{create_identity, get_identity_token, delete_identity}
use ziti_k8s_agent.Edge.Lawful.{without_name, IsConsistent}
use ziti_k8s_agent.Edge.Memory.{Memory, memory_edge, memory_edge-IsLawful, post, detail}
use ziti_k8s_agent.Edge.Samples.{no_identities, sample_jwt, one_identity}
use ziti_k8s_agent.Handler.{
  ZitiHandler, AdmissionResponse, empty_response, success_response, with_patch, new_ziti_handler,
  cluster_client, ziti_client,
}
use ziti_k8s_agent.Handler.Dns.{get_dns_config, resolver}
use ziti_k8s_agent.Handler.Tunnel.{handle_tunnel_create, tunnel_patch}
use ziti_k8s_agent.Handler.Delete.{handle_delete, identity_of_pod}
use ziti_k8s_agent.Handler.Admission.{AdmissionRequest, handle_admission_request}
use ziti_k8s_agent.Handler.Answers.{Answers, admission-Answers}
use ziti_k8s_agent.Handler.Enrolled.{IsEnrolled, tunnel_create_enrolls}
use ziti_k8s_agent.Handler.Removed.{delete_removes, delete_undoes_create}
use ziti_k8s_agent.Handler.Shared.{Job, Phase, Agent, run, tunnel_job}
use ziti_k8s_agent.Handler.Interleaved.{appending, AddsSidecar, sidecar_of_other}
use ziti_k8s_agent.Handler.Samples.{
  sample_cluster, sample_config, sample_zone, sample_cluster-KeepsIdentities,
}

abbrev sample_handler : List Text → ZitiHandler Memory
sample_handler off =
    new_ziti_handler (sample_cluster off) memory_edge sample_config sample_zone false

abbrev sample_dns : PodDnsConfig
sample_dns = record {
  nameservers = codes "127.0.0.1" ∷ codes "10.0.0.10" ∷ [];
  searches =
      codes "shop.svc.cluster.local" ∷ codes "svc.cluster.local" ∷ codes "cluster.local" ∷ [];
  options = (codes "ndots", codes "5") ∷ (codes "edns0", codes "true") ∷ [];
}

dns_settled :
    get_dns_config (sample_handler []) sample_meta one_identity
    ≡ (ok (record sample_config { resolver_ip = codes "10.0.0.10" }, sample_dns), one_identity)
unfolding get_dns_config resolver new_ziti_handler cluster_client get_cluster_service
dns_settled = refl

abbrev sample_response : AdmissionResponse
sample_response = success_response (
    with_patch
      (tunnel_patch (record sample_config { resolver_ip = codes "10.0.0.10" }) false sample_dns
        sample_meta.annotations sample_name sample_jwt)
      empty_response)

created_identity :
    create_identity memory_edge sample_name sample_roles sample_meta no_identities
    ≡ (ok (codes "i:zt-web-shop-1234abcd"), one_identity)
unfolding create_identity create_identity_call post filter_map_value_list_by_key split
created_identity = refl

read_token :
    get_identity_token memory_edge sample_name (codes "i:zt-web-shop-1234abcd") one_identity
    ≡ (ok sample_jwt, one_identity)
unfolding get_identity_token get_identity_by_id detail
read_token = refl

created :
    handle_tunnel_create (sample_handler []) sample_meta sample_uid empty_response no_identities
    ≡ (ok sample_response, one_identity)
unfolding handle_tunnel_create new_ziti_handler cluster_client ziti_client or_return create_identity
    create_identity_call post filter_map_value_list_by_key split get_identity_token
    get_identity_by_id detail get_dns_config resolver get_cluster_service build_ziti_identity_name
    label_name base_name add_hash validate_name match_name run_name step is_alnum
created = refl

tunnel_create_enrolls_example :
    IsEnrolled
      (λ m. m.identities)
      sample_config
      false
      sample_meta
      sample_uid
      no_identities
      one_identity
      sample_response
tunnel_create_enrolls_example =
    tunnel_create_enrolls (sample_cluster []) memory_edge (λ m. m.identities) memory_edge-IsLawful
      (sample_cluster-KeepsIdentities []) sample_config sample_zone false sample_meta sample_uid
      no_identities one_identity sample_response created refl

abbrev injected_pod : Pod
injected_pod = record {
  meta = sample_meta;
  containers = sample_container (codes "web") ∷ sample_container sample_name ∷ [];
}

found : identity_of_pod sample_config.prefix injected_pod ≡ some sample_name
unfolding identity_of_pod has_container
found = refl

deleted :
    handle_delete (sample_handler []) injected_pod empty_response one_identity
    ≡ (ok (success_response empty_response), no_identities)
unfolding handle_delete new_ziti_handler cluster_client ziti_client or_return identity_of_pod
    has_container delete_identity get_identity_by_name delete_identity_call
deleted = refl

one_identity-IsConsistent : IsConsistent one_identity.identities
one_identity-IsConsistent = (refl, tt, tt, tt)

delete_removes_example : no_identities.identities ≡ without_name sample_name one_identity.identities
delete_removes_example =
    delete_removes (sample_cluster []) memory_edge (λ m. m.identities) memory_edge-IsLawful
      sample_config sample_zone false injected_pod sample_name one_identity no_identities
      (success_response empty_response) refl found (ground arith) one_identity-IsConsistent deleted
      refl

delete_undoes_create_example : no_identities.identities ≡ no_identities.identities
delete_undoes_create_example =
    delete_undoes_create (sample_cluster []) memory_edge (λ m. m.identities) memory_edge-IsLawful
      sample_config sample_zone false (sample_cluster-KeepsIdentities []) sample_meta sample_uid
      sample_name injected_pod (sample_container (codes "web") ∷ []) (sample_container sample_name)
      [] no_identities one_identity one_identity no_identities sample_response
      (success_response empty_response) refl (omega arith) tt sample_name-built created refl refl
      refl (refl, tt) refl deleted refl

abbrev sample_request : Text → AdmissionRequest
sample_request operation = record {
  uid = sample_uid;
  operation = operation;
  object = [];
  old_object = [];
}

abbrev decode_injected : Text → Result Pod
decode_injected raw = ok injected_pod

admission-Answers_example :
    Answers
      (handle_admission_request
        (sample_handler [])
        decode_injected
        (sample_request (codes "CREATE"))
        no_identities).0
admission-Answers_example =
    admission-Answers (sample_handler []) decode_injected (sample_request (codes "CREATE"))
      no_identities

switched_off :
    (sample_handler (codes "shop" ∷ [])).kc.find_namespace_by_option
      (codes "shop")
      (codes "tunnel.openziti.io/enabled=false")
      no_identities
    ≡ (ok true, no_identities)
unfolding new_ziti_handler cluster_client find_namespace_by_option
switched_off = refl

-- Two calls for different pods, with the same DNS settings.
abbrev sample_jobs : ℕ → Job
sample_jobs i =
    tunnel_job sample_config false sample_dns [] (if i == 0 then codes "zt-a" else codes "zt-b")
      (if i == 0 then codes "jwt-a" else codes "jwt-b")

abbrev sample_agent : Agent
sample_agent = record { json_patch = []; phases = λ i. Phase.ready }

sidecar_of_other_example :
    ((run sample_jobs (0 ∷ (appending 0 (sample_jobs 0).appends ++ 0 ∷ [])) sample_agent).phases 0
      ≡ Phase.answered
          (tunnel_patch sample_config false sample_dns [] (codes "zt-a") (codes "jwt-a")))
    × AddsSidecar
        ((run sample_jobs
            (0 ∷ (appending 0 (sample_jobs 0).appends ++ 1 ∷ 0 ∷ []))
            sample_agent).phases
          0)
        (codes "zt-b")
        (codes "jwt-b")
sidecar_of_other_example =
    sidecar_of_other sample_jobs 0 1 sample_agent sample_config false sample_dns sample_dns [] []
      (codes "zt-a") (codes "zt-b") (codes "jwt-a") (codes "jwt-b") refl refl refl refl refl
