-- ===== src/Cluster/Tests.antt =====
-- Tests of the cache of the DNS service's address.
use ziti_k8s_agent.Base.{◌≡◌, refl, none, some, [], arith, Text, codes, Result, ok, err, panic}
use ziti_k8s_agent.Cluster.{KubeApi}
use ziti_k8s_agent.Cluster.Dns.{DnsCache, get_cluster_dns_ip, dns_ip_repeated, dns_get_error}

-- A cluster whose DNS service has the address that the world is.
abbrev dns_cluster : KubeApi (Result Text)
dns_cluster = record {
  list_namespaces = λ selector w. (ok [], w);
  get_service = λ namespace name w.
      (elim w [ ok ip ↦ ok (record { cluster_ip = ip }) | err e ↦ err e | panic ↦ panic ], w);
  get_claim = λ namespace name w. (ok none, w);
  delete_claim = λ namespace name w. (ok tt, w);
}

abbrev no_cache : DnsCache
no_cache = record { last_fetch = none; cached_dns_ip = [] }

abbrev cached : DnsCache
cached = record { last_fetch = some 1000; cached_dns_ip = codes "10.0.0.10" }

fetched_ip :
    get_cluster_dns_ip dns_cluster 1000 no_cache (ok (codes "10.0.0.10"))
    ≡ (ok (codes "10.0.0.10"), cached, ok (codes "10.0.0.10"))
unfolding get_cluster_dns_ip
fetched_ip = refl

dns_ip_repeated_example :
    get_cluster_dns_ip dns_cluster 1299 cached panic ≡ (ok (codes "10.0.0.10"), cached, panic)
dns_ip_repeated_example =
    dns_ip_repeated dns_cluster 1000 1299 no_cache cached (ok (codes "10.0.0.10"))
      (ok (codes "10.0.0.10")) panic (codes "10.0.0.10") refl fetched_ip (omega arith)

failed_fetch :
    get_cluster_dns_ip dns_cluster 2000 cached (err (codes "gone"))
    ≡ (err (dns_get_error (codes "gone")), cached, err (codes "gone"))
unfolding get_cluster_dns_ip
failed_fetch = refl
