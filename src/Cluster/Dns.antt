-- ===== src/Cluster/Dns.antt =====
-- `GetClusterDNSIP` of ziti-agent/pkg/kubernetes/dns.go, with its cache and the clock. Times are
-- seconds; the zero time of a cache that was never filled is `none`.
use ziti_k8s_agent.Base.{
  ℕ, ◌+◌, Bool, false, ◌&&◌, not, Option, none, some, ◌++◌, Text, codes, is_empty, ltb, ◌≡◌, ◌≢◌,
  refl, ◌<◌, Result, ok, err, panic, if◌then◌else◌, arith,
}
use ziti_k8s_agent.Cluster.{KubeApi}

-- The package variables `lastFetch` and `cachedDNSIP`.
pub record DnsCache : Type 0 where
  pub last_fetch : Option ℕ
  pub cached_dns_ip : Text

-- Five minutes.
abbrev pub cache_ttl : ℕ
cache_ttl = 300

-- `time.Since(lastFetch) < cacheTTL`: a clock that is behind the fetch counts as fresh.
abbrev pub is_recent : Option ℕ → ℕ → Bool
is_recent none now = false
is_recent (some fetched) now = ltb now (fetched + cache_ttl)

abbrev pub dns_get_error : Text → Text
dns_get_error e = codes "failed to get kube-dns service: " ++ e

abbrev pub dns_ip_error : Text
dns_ip_error = codes "kube-dns service has no ClusterIP"

module _ {W : Type 0} (K : KubeApi W) where
  -- What a fetch leaves: the address is kept only if there is one.
  abbrev pub keep_ip : ℕ → DnsCache → Text → Result Text × DnsCache
  keep_ip now cache ip =
      if is_empty ip
      then (err dns_ip_error, cache)
      else (ok ip, record { last_fetch = some now; cached_dns_ip = ip })

  unfoldable pub get_cluster_dns_ip : ℕ → DnsCache → W → Result Text × DnsCache × W
  get_cluster_dns_ip now cache w =
      if is_recent cache.last_fetch now && not (is_empty cache.cached_dns_ip)
      then (ok cache.cached_dns_ip, cache, w)
      else let (r, w') = K.get_service (codes "kube-system") (codes "kube-dns") w in
        elim r [
          | ok svc ↦ let (a, c) = keep_ip now cache svc.cluster_ip in (a, c, w')
          | err e ↦ (err (dns_get_error e), cache, w')
          | panic ↦ (panic, cache, w')
        ]

  fetched :
      (now : ℕ) (cache cache' : DnsCache) (svc ip : Text)
      → keep_ip now cache svc ≡ (ok ip, cache')
      → (is_empty ip ≡ false) × (cache' ≡ record { last_fetch = some now; cached_dns_ip = ip })
  fetched now cache cache' svc ip h = ground arith

  -- An address that is returned is not empty, and the cache holds it from then on.
  pub dns_ip_stored :
      (now : ℕ) (cache cache' : DnsCache) (w w' : W) (ip : Text)
      → get_cluster_dns_ip now cache w ≡ (ok ip, cache', w')
      → (is_empty ip ≡ false) × (cache'.cached_dns_ip ≡ ip)
  unfolding get_cluster_dns_ip
  dns_ip_stored now cache cache' w w' ip h = ground arith

  -- After a fetch that succeeds, every call within five minutes returns the same address and makes
  -- no request, whatever the cluster does meanwhile.
  pub dns_ip_repeated :
      (now later : ℕ) (cache cache' : DnsCache) (w w' v : W) (ip : Text)
      → is_recent cache.last_fetch now ≡ false
      → get_cluster_dns_ip now cache w ≡ (ok ip, cache', w')
      → later < now + cache_ttl
      → get_cluster_dns_ip later cache' v ≡ (ok ip, cache', v)
  unfolding get_cluster_dns_ip
  dns_ip_repeated now later cache cache' w w' v ip old h soon = ground arith

  -- A call that fails or panics leaves the cache as it was.
  pub dns_ip_failed :
      (now : ℕ) (cache cache' : DnsCache) (w w' : W) (r : Result Text)
      → get_cluster_dns_ip now cache w ≡ (r, cache', w')
      → ((ip : Text) → r ≢ ok ip)
      → cache' ≡ cache
  unfolding get_cluster_dns_ip
  dns_ip_failed now cache cache' w w' (ok ip) h failed = absurd (failed ip refl)
  dns_ip_failed now cache cache' w w' (err e) h failed = ground arith
  dns_ip_failed now cache cache' w w' panic h failed = ground arith
