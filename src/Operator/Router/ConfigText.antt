-- ===== src/Operator/Router/ConfigText.antt =====
-- The text of a router's configuration, as `GetDefaultConfigMapData` of zitirouter_types.go prints it.
use ziti_k8s_agent.Base.{List, [], ◌∷◌, ◌++◌, Text, codes, ℤ, format_int}
use ziti_k8s_agent.Operator.Router.{ZitiRouter}
use ziti_k8s_agent.Operator.Router.Defaults.{service_port, cluster_domain}

abbrev pub lines : List Text → Text
lines [] = []
lines (l ∷ ls) = l ++ 10 ∷ lines ls

-- `edgeAddress`
unfoldable pub edge_address : ZitiRouter → Text
edge_address r =
    r.meta.name ++ (codes "-service." ++ (r.meta.namespace ++ (codes ".svc." ++ cluster_domain)))

-- The template, with its values put in.
unfoldable pub config_lines : ZitiRouter → ℤ → List Text
unfolding edge_address format_int
config_lines r port =
    codes "v: 3"
    ∷ codes "identity:"
    ∷ (codes "  cert: /etc/ziti/config/" ++ (r.meta.name ++ codes ".cert"))
    ∷ (codes "  server_cert: /etc/ziti/config/" ++ (r.meta.name ++ codes ".server.chain.cert"))
    ∷ (codes "  key: /etc/ziti/config/" ++ (r.meta.name ++ codes ".key"))
    ∷ (codes "  ca: /etc/ziti/config/" ++ (r.meta.name ++ codes ".cas"))
    ∷ []
    ∷ codes "ctrl:"
    ∷ (codes "  endpoint: " ++ r.spec.ctrl_endpoint)
    ∷ []
    ∷ codes "link:"
    ∷ codes "  dialers:"
    ∷ codes "    - binding: transport"
    ∷ []
    ∷ codes "listeners:"
    ∷ codes "  - binding: edge"
    ∷ (codes "    address: tls:0.0.0.0:" ++ format_int port)
    ∷ codes "    options:"
    ∷ (codes "      advertise: " ++ (edge_address r ++ b':' ∷ format_int service_port))
    ∷ codes "      connectTimeoutMs: 5000"
    ∷ codes "      getSessionTimeout: 60s"
    ∷ []
    ∷ codes "edge:"
    ∷ codes "  csr:"
    ∷ codes "    country: US"
    ∷ codes "    province: NC"
    ∷ codes "    locality: Charlotte"
    ∷ codes "    organization: NetFoundry"
    ∷ codes "    organizationalUnit: Ziti"
    ∷ codes "    sans:"
    ∷ codes "      dns:"
    ∷ codes "        - localhost"
    ∷ (codes "        - " ++ edge_address r)
    ∷ codes "      ip:"
    ∷ codes "        - 127.0.0.1"
    ∷ codes "      email:"
    ∷ codes "      uri:"
    ∷ []
    ∷ codes "web:"
    ∷ codes "  - name: health-check"
    ∷ codes "    bindPoints:"
    ∷ codes "      - interface: 0.0.0.0:8081"
    ∷ (codes "        address: 0.0.0.0:8081 " ++ 9 ∷ [])
    ∷ codes "    apis:"
    ∷ codes "      - binding: health-checks"
    ∷ []

unfoldable pub config_text : ZitiRouter → ℤ → Text
unfolding config_lines
config_text r port = lines (config_lines r port)
