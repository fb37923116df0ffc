-- ===== src/Handler/Dns.antt =====
-- `getDnsConfig`, which also stores the resolver that it settles on in the configuration.
use ziti_k8s_agent.Base.{
  false, List, [], ◌∷◌, ◌++◌, Text, codes, is_empty, Result, ok, err, panic, Action, ◌≡◌, ◌≢◌, refl,
  inl, inr, arith, if◌then◌else◌, Bool-cases, pure, ◌>>=◌, >>=-eq-ok, ok_parts, ◌∙◌,
}
use mathlib.Core.Path.{subst}
use ziti_k8s_agent.Kube.{ObjectMeta, PodDnsConfig, Service}
use ziti_k8s_agent.Handler.{ZitiConfig, ZitiHandler}

abbrev pub default_cluster_dns_service_ip : Text
default_cluster_dns_service_ip = codes "10.96.0.10"

-- `svc.Spec.ClusterIP`, or the default where it is empty.
abbrev pub ip_or_default : Text → Text
ip_or_default ip = if is_empty ip then default_cluster_dns_service_ip else ip

-- The searches: those of the configuration, else the domains of the namespace and the zone.
abbrev pub searches_or_default : List Text → Text → Text → List Text
searches_or_default [] namespace zone =
    (namespace ++ codes ".svc." ++ zone) ∷ (codes "svc." ++ zone) ∷ zone ∷ []
searches_or_default (domain ∷ domains) namespace zone = domain ∷ domains

abbrev pub dns_config_of : Text → List Text → PodDnsConfig
dns_config_of resolver searches = record {
  nameservers = codes "127.0.0.1" ∷ resolver ∷ [];
  searches = searches;
  options = (codes "ndots", codes "5") ∷ (codes "edns0", codes "true") ∷ [];
}

-- A configured resolver is kept.
abbrev pub ip_or_configured : Text → Text → Text
ip_or_configured [] ip = ip
ip_or_configured (c ∷ configured) ip = c ∷ configured

module _ {W : Type 0} (zh : ZitiHandler W) where
  -- What the answer of the lookup stands for.
  abbrev choose_ip : Result Service × W → Result Text × W
  choose_ip (ok service, w) = (ok (ip_or_default service.cluster_ip), w)
  choose_ip (err e, w) = (ok default_cluster_dns_service_ip, w)
  choose_ip (panic, w) = (panic, w)

  -- The resolver: the configured one, else that of the cluster's DNS service, else the default.
  unfoldable pub resolver : Action W Text
  resolver w =
      if is_empty zh.config.resolver_ip
      then choose_ip (zh.kc.get_cluster_service (codes "kube-system") (codes "kube-dns") w)
      else (ok zh.config.resolver_ip, w)

  -- The configuration that is left, and the DNS settings of the pod.
  unfoldable pub get_dns_config : ObjectMeta → Action W (ZitiConfig × PodDnsConfig)
  unfolding resolver
  get_dns_config meta = resolver >>= λ ip. pure (
    record zh.config { resolver_ip = ip },
    dns_config_of ip (searches_or_default zh.config.search_domains meta.namespace zh.zone),
  )

  resolver_full :
      (w w' : W) (ip : Text)
      → resolver w ≡ (ok ip, w')
      → (is_empty ip ≡ false) × (ip_or_configured zh.config.resolver_ip ip ≡ ip)
  unfolding resolver
  resolver_full w w' ip h = ground arith

  -- What the call gives, from the resolver.
  abbrev settled : ObjectMeta → Text → ZitiConfig × PodDnsConfig
  settled meta ip = (
    record zh.config { resolver_ip = ip },
    dns_config_of ip (searches_or_default zh.config.search_domains meta.namespace zh.zone),
  )

  abbrev IsSettled : ZitiConfig × PodDnsConfig → Type 0
  IsSettled (config, dns) =
      (is_empty config.resolver_ip ≡ false)
      × (dns.nameservers ≡ codes "127.0.0.1" ∷ config.resolver_ip ∷ [])
      × (config ≡ record zh.config { resolver_ip = config.resolver_ip })
      × (ip_or_configured zh.config.resolver_ip config.resolver_ip ≡ config.resolver_ip)

  -- The resolver that the call stores in the configuration, which changes in nothing else, is not
  -- empty, and is the second nameserver of the pod, after the tunneler; it is the configured one
  -- where there is one.
  pub dns_config_resolver :
      (meta : ObjectMeta) (w w' : W) (config : ZitiConfig) (dns : PodDnsConfig)
      → get_dns_config meta w ≡ (ok (config, dns), w')
      → (is_empty config.resolver_ip ≡ false)
        × (dns.nameservers ≡ codes "127.0.0.1" ∷ config.resolver_ip ∷ [])
        × (config ≡ record zh.config { resolver_ip = config.resolver_ip })
        × (ip_or_configured zh.config.resolver_ip config.resolver_ip ≡ config.resolver_ip)
  unfolding get_dns_config
  dns_config_resolver meta w w' config dns h =
      let (ip, w₁, first, rest) =
        >>=-eq-ok resolver (λ ip. pure (settled meta ip)) w w' (config, dns) h in
      let (full, kept) = resolver_full w w₁ ip first in
      subst IsSettled ((ok_parts (settled meta ip) (config, dns) w₁ w' rest).0)
        (full, refl, refl, kept)

  -- The DNS settings are never refused: where the lookup of the service fails, the default serves.
  pub dns_config_never_fails :
      (meta : ObjectMeta) (w w' : W) (e : Text) → get_dns_config meta w ≢ (err e, w')
  unfolding get_dns_config
  dns_config_never_fails meta w w' e h = ground arith

  -- What the lookup of the service leaves alone, the whole call leaves alone.
  module _ {A : Type 0} (f : W → A) where
    choose_ip_keeps : (p : Result Service × W) → f (choose_ip p).1 ≡ f p.1
    choose_ip_keeps (ok service, w) = refl
    choose_ip_keeps (err e, w) = refl
    choose_ip_keeps (panic, w) = refl

    settled_keeps :
        (meta : ObjectMeta) (p : Result Text × W)
        → f
            (elim p.0 as (λ _. Result (ZitiConfig × PodDnsConfig) × W) [
              | ok ip ↦ (ok (settled meta ip), p.1)
              | err e ↦ (err e, p.1)
              | panic ↦ (panic, p.1)
            ]).1
          ≡ f p.1
    settled_keeps meta (ok ip, w) = refl
    settled_keeps meta (err e, w) = refl
    settled_keeps meta (panic, w) = refl

    resolver_keeps :
        ((w : W) → f (zh.kc.get_cluster_service (codes "kube-system") (codes "kube-dns") w).1 ≡ f w)
        → (w : W) → f (resolver w).1 ≡ f w
    unfolding resolver
    resolver_keeps keeps w = elim (Bool-cases (is_empty zh.config.resolver_ip)) [
      | inl missing ↦ rw missing (choose_ip_keeps _ ∙ keeps w)
      | inr given ↦ rw given
    ]

    pub dns_config_keeps :
        ((w : W) → f (zh.kc.get_cluster_service (codes "kube-system") (codes "kube-dns") w).1 ≡ f w)
        → (meta : ObjectMeta) (w : W) → f (get_dns_config meta w).1 ≡ f w
    unfolding get_dns_config
    dns_config_keeps keeps meta w = settled_keeps meta (resolver w) ∙ resolver_keeps keeps w
