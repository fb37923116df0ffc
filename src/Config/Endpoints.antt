-- ===== src/Config/Endpoints.antt =====
-- `convertToMgmtAPI` and `inferMgmtAPIEndpoints`.
use ziti_k8s_agent.Base.{
  ◌&&◌, not, List, [], ◌∷◌, ◌++◌, Text, codes, text_eq, is_empty, has_suffix, trim_suffix, contains,
  replace_first, if◌then◌else◌, Result, ok, err, panic,
}
use ziti_k8s_agent.Url.{UrlLib, management_path}
use ziti_k8s_agent.Config.{WebhookConfig, has_no_endpoints}
use ziti_k8s_agent.Config.Identity.{ZitiIdentityConfig}

abbrev pub client_path : Text
client_path = codes "/edge/client/v1"

-- The path of the management API for the path of a client API.
unfoldable pub mgmt_path : Text → Text
mgmt_path path =
    if contains path management_path
    then path
    else if has_suffix path client_path
    then trim_suffix path client_path ++ management_path
    else if contains path client_path
    then replace_first path client_path management_path
    else trim_suffix path (codes "/") ++ management_path

abbrev pub infer_error : Text
infer_error =
    codes
      "no valid management API endpoints could be inferred from identity configuration - must specify one of: 1) controller.mgmtApi in webhook config, 2) ztAPI in identity JSON, or 3) ztAPIs (non-empty) in identity JSON"

module _ (U : UrlLib) where
  unfoldable pub convert_to_mgmt_api : Text → Result Text
  unfolding mgmt_path
  convert_to_mgmt_api url = elim (U.parse url) [
    | ok parsed ↦ ok (U.to_text (U.with_path (mgmt_path (U.path parsed)) parsed))
    | err e ↦ err (codes "invalid URL: " ++ e)
    | panic ↦ panic
  ]

  -- An endpoint that cannot be converted is logged and left out.
  abbrev pub append_converted : Result Text → List Text → List Text
  append_converted (ok url) endpoints = endpoints ++ url ∷ []
  append_converted (err e) endpoints = endpoints
  append_converted panic endpoints = endpoints

  abbrev pub primary : Text → List Text
  primary zt_api = if is_empty zt_api then [] else append_converted (convert_to_mgmt_api zt_api) []

  -- The loop over `ztAPIs`.
  unfoldable pub additional : Text → List Text → List Text → List Text
  additional zt_api [] endpoints = endpoints
  additional zt_api (url ∷ urls) endpoints = additional zt_api urls (
      if not (is_empty url) && not (text_eq url zt_api)
      then append_converted (convert_to_mgmt_api url) endpoints
      else endpoints)

  unfoldable pub endpoints_of : ZitiIdentityConfig → List Text
  unfolding additional convert_to_mgmt_api
  endpoints_of identity = additional identity.zt_api identity.zt_apis (primary identity.zt_api)

  abbrev pub store_endpoints : WebhookConfig → List Text → Result WebhookConfig
  store_endpoints cfg endpoints =
      if has_no_endpoints endpoints
      then err infer_error
      else ok (record cfg { controller = record cfg.controller { mgmt_api_endpoints = endpoints } })

  unfoldable pub infer_mgmt_api_endpoints :
      Result ZitiIdentityConfig → WebhookConfig → Result WebhookConfig
  unfolding endpoints_of
  infer_mgmt_api_endpoints (ok identity) cfg = store_endpoints cfg (endpoints_of identity)
  infer_mgmt_api_endpoints (err e) cfg =
      err (codes "failed to load Ziti identity for endpoint inference: " ++ e)
  infer_mgmt_api_endpoints panic cfg = panic
