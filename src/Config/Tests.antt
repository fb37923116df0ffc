-- ===== src/Config/Tests.antt =====
-- Tests of the configuration.
use ziti_k8s_agent.Base.{◌≡◌, refl, false, none, [], ◌∷◌, codes, contains, ok, err}
use ziti_k8s_agent.Url.{management_path}
use ziti_k8s_agent.Url.Samples.{sample_urls}
use ziti_k8s_agent.Config.{apply_config_defaults, validate_config}
use ziti_k8s_agent.Config.Samples.{file_config, loaded_config}
use ziti_k8s_agent.Config.Identity.{ZitiIdentityConfig}
use ziti_k8s_agent.Config.Load.{Inputs, load_config, with_endpoints}
use ziti_k8s_agent.Config.Checked.{IsComplete, load_config-IsComplete}

abbrev sample_ziti_identity : ZitiIdentityConfig
sample_ziti_identity = record {
  ca = codes "ca";
  cert = codes "cert";
  key = codes "key";
  zt_api = codes "https://a:1280/edge/client/v1";
  zt_apis = codes "https://a:1280/edge/client/v1" ∷ codes "https://b:1280/edge/client/v1" ∷ [];
}

abbrev file_inputs : Inputs
file_inputs = record {
  read_file = λ path. ok [];
  unmarshal_yaml = λ contents. ok file_config;
  lookup_env = λ name. none;
  unmarshal_json = λ json. err json;
  urls = sample_urls;
}

loaded : load_config file_inputs (codes "config.yaml") ≡ ok loaded_config
unfolding load_config with_endpoints apply_config_defaults validate_config
loaded = refl

load_config-IsComplete_example : IsComplete loaded_config
load_config-IsComplete_example =
    load_config-IsComplete file_inputs (codes "config.yaml") loaded_config loaded

not_managed : contains (codes "/x/edge/client/v1") management_path ≡ false
unfolding contains
not_managed = refl
