-- ===== src/Operator/Router/Endpoint.antt =====
-- The endpoint of a Ziti controller, from the controller's resource to the router's configuration.
use ziti_k8s_agent.Base.{
  ◌≡◌, refl, ap, sym, ◌∙◌, arith, ℕ, true, some, ◌∷◌, ◌++◌, Text, codes, is_empty, contains, Result,
  ok, err, panic,
}
use ziti_k8s_agent.Url.{UrlLib, get_host_and_port, all_digits, strip_brackets}
use ziti_k8s_agent.Url.Hosts.{host_and_port_of}
use ziti_k8s_agent.Operator.{ZitiController}
use ziti_k8s_agent.Operator.Adopt.{controller_mgmt_api}
use ziti_k8s_agent.Operator.Equal.{GoMap, entry_of}
use ziti_k8s_agent.Operator.Pods.{ContainerPort}
use ziti_k8s_agent.Operator.Router.{ZitiRouterSpec, ZitiRouter}
use ziti_k8s_agent.Operator.Router.Defaults.{config_map_key}
use ziti_k8s_agent.Operator.Router.ConfigText.{config_text}
use ziti_k8s_agent.Operator.Router.Desired.{config_data, with_port}
use ziti_k8s_agent.Operator.Router.Reconcile.{RouterApi, adopt, adopt_url}
use ziti_k8s_agent.Operator.Router.Wired.{out_of}
use ziti_k8s_agent.Operator.Router.ConfigLines.{contains-config_text}

-- What a router takes over from a controller with a management URL.
abbrev adopted : ZitiController → Text → ZitiRouterSpec → Text → ZitiRouterSpec
adopted c url s endpoint = record s {
  ziti_controller_name = c.spec.name;
  ziti_ctrl_mgmt_api = url;
  ctrl_endpoint = endpoint;
}

module _ {W Claims : Type 0} (A : RouterApi W Claims) (U : UrlLib) where
  adopt_host :
      (c : ZitiController) (s : ZitiRouterSpec) (url host port : Text)
      → is_empty s.ctrl_endpoint ≡ true
      → get_host_and_port U url ≡ ok (host, port)
      → adopt_url A U c s (ok url) ≡ ok (adopted c url s (codes "tls:" ++ (host ++ b':' ∷ port)))
  adopt_host c s url host port empty e = rw (adopt_url, empty) (rw (e) refl)

-- The text of the configuration names the endpoint of the specification.
pub data_text :
    (r : ZitiRouter) (config : GoMap) (port : Result ContainerPort)
    → with_port port (config_data r) ≡ ok config
    → (text : Text) × (entry_of config config_map_key ≡ some text)
      × (contains text (codes "  endpoint: " ++ r.spec.ctrl_endpoint) ≡ true)
data_text r config (ok p) h = (
  config_text r p.container_port,
  rw (← ap (out_of config) h) refl,
  contains-config_text r p.container_port,
)
data_text r config (err e) h = absurd (ground arith)
data_text r config panic h = absurd (ground arith)

module _ {W Claims : Type 0} (A : RouterApi W Claims) (U : UrlLib) where
  -- A specification without an endpoint that adopts a controller, whose management URL has a name
  -- and a port: it takes the endpoint tls with that name and that port, and keeps its own name.
  pub adopted_endpoint :
      (c : ZitiController) (s₀ s : ZitiRouterSpec) (url : Text) (p : U.Url) (h : Text) (d : ℕ)
      → (port : Text) → controller_mgmt_api A.jwt c ≡ ok url
      → U.parse url ≡ ok p
      → U.host p ≡ h ++ b':' ∷ d ∷ port
      → all_digits (d ∷ port) ≡ true
      → is_empty s₀.ctrl_endpoint ≡ true
      → adopt A U (some c) s₀ ≡ ok s
      → (s.ziti_controller_name ≡ c.spec.name)
        × (s.ziti_ctrl_mgmt_api ≡ url)
        × (s.ctrl_endpoint ≡ codes "tls:" ++ (strip_brackets h ++ b':' ∷ d ∷ port))
        × (s.name ≡ s₀.name)
  unfolding adopt
  adopted_endpoint c s₀ s url p h d port api parsed host digits empty took =
      let found = (host_and_port_of U url p h d port parsed host digits).0 in
      let is_s : adopted c url s₀ (codes "tls:" ++ (strip_brackets h ++ b':' ∷ d ∷ port)) ≡ s =
        ap (out_of s) (
          sym (adopt_host A U c s₀ url (strip_brackets h) (d ∷ port) empty found)
          ∙ (ap (adopt_url A U c s₀) (sym api) ∙ took)) in
      (rw (← is_s) refl, rw (← is_s) refl, rw (← is_s) refl, rw (← is_s) refl)
