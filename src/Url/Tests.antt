-- ===== src/Url/Tests.antt =====
-- Tests of the URLs.
use ziti_k8s_agent.Base.{◌≡◌, refl, false, codes, contains, replace_first, ok}
use ziti_k8s_agent.Url.{
  strip_brackets, clean_hostname, base_url, split_host_port, cut_last_colon,
  extract_controller_base_url,
}
use ziti_k8s_agent.Url.Samples.{sample_urls}

base_of_netfoundry :
    extract_controller_base_url sample_urls
      (codes "https://ab-p.prod.netfoundry.io:443/edge/management/v1")
    ≡ ok (codes "https://ab.prod.netfoundry.io:443")
unfolding extract_controller_base_url split_host_port clean_hostname base_url cut_last_colon
    strip_brackets contains replace_first
base_of_netfoundry = refl

not_netfoundry : contains (codes "fd00::1") (codes ".netfoundry.io") ≡ false
unfolding contains
not_netfoundry = refl
