-- ===== src/Config/Load.antt =====
-- `loadConfig`. Reading the file, the YAML decoder, the environment, the JSON decoder and package
-- net/url are parameters.
use ziti_k8s_agent.Base.{
  [], ◌∷◌, ◌++◌, Option, Text, codes, is_empty, if◌then◌else◌, Result, ok, err, panic,
}
use ziti_k8s_agent.Url.{UrlLib}
use ziti_k8s_agent.Config.{WebhookConfig, apply_config_defaults, validate_config}
use ziti_k8s_agent.Config.Identity.{ZitiIdentityConfig, load_ziti_identity_from_env}
use ziti_k8s_agent.Config.Endpoints.{infer_mgmt_api_endpoints}

-- What the files, the environment and the decoders give.
pub record Inputs : Type 1 where
  pub read_file : Text → Result Text
  pub unmarshal_yaml : Text → Result WebhookConfig
  pub lookup_env : Text → Option Text
  pub unmarshal_json : Text → Result ZitiIdentityConfig
  pub urls : UrlLib

-- An error of a step, with the text that the caller puts in front of it.
abbrev pub wrap : Text → Result WebhookConfig → Result WebhookConfig
wrap message (ok cfg) = ok cfg
wrap message (err e) = err (message ++ e)
wrap message panic = panic

abbrev pub then_check : Result WebhookConfig → Result WebhookConfig
then_check (ok cfg) = validate_config cfg
then_check (err e) = err e
then_check panic = panic

module _ (I : Inputs) where
  -- The endpoints: the configured one, else those of the identity.
  unfoldable pub with_endpoints : WebhookConfig → Result WebhookConfig
  unfolding load_ziti_identity_from_env infer_mgmt_api_endpoints
  with_endpoints cfg =
      if is_empty cfg.controller.mgmt_api
      then wrap (codes "failed to infer management API endpoints: ") (
          infer_mgmt_api_endpoints I.urls
            (load_ziti_identity_from_env I.lookup_env I.unmarshal_json) cfg)
      else ok (record cfg {
        controller = record cfg.controller { mgmt_api_endpoints = cfg.controller.mgmt_api ∷ [] };
      })

  abbrev pub parse_config : Result WebhookConfig → Result WebhookConfig
  parse_config (ok cfg) = then_check (with_endpoints (apply_config_defaults cfg))
  parse_config (err e) = err (codes "parse config: " ++ e)
  parse_config panic = panic

  abbrev pub read_config : Result Text → Result WebhookConfig
  read_config (ok contents) = parse_config (I.unmarshal_yaml contents)
  read_config (err e) = err (codes "read config: " ++ e)
  read_config panic = panic

  unfoldable pub load_config : Text → Result WebhookConfig
  unfolding with_endpoints apply_config_defaults validate_config
  load_config path = read_config (I.read_file path)
