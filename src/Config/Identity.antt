-- ===== src/Config/Identity.antt =====
-- `loadZitiIdentityFromEnv`. The environment and the JSON decoder are parameters.
use ziti_k8s_agent.Base.{
  List, [], ◌∷◌, ◌++◌, Option, none, some, Text, codes, is_empty, if◌then◌else◌, Result, ok, err,
  panic,
}

-- `ZitiIdentityConfig`
pub record ZitiIdentityConfig : Type 0 where
  pub ca : Text
  pub cert : Text
  pub key : Text
  pub zt_api : Text
  pub zt_apis : List Text

-- The required fields, in the order in which they are checked.
unfoldable pub check_identity : ZitiIdentityConfig → Result ZitiIdentityConfig
check_identity identity =
    if is_empty identity.ca
    then err (codes "ziti identity missing required field: id.ca")
    else if is_empty identity.cert
    then err (codes "ziti identity missing required field: id.cert")
    else if is_empty identity.key
    then err (codes "ziti identity missing required field: id.key")
    else ok identity

module _ (lookup_env : Text → Option Text) (unmarshal : Text → Result ZitiIdentityConfig) where
  abbrev pub parse_identity : Text → Result ZitiIdentityConfig
  parse_identity json = elim (unmarshal json) [
    | ok identity ↦ check_identity identity
    | err e ↦ err (codes "failed to parse Ziti identity JSON from environment variable: " ++ e)
    | panic ↦ panic
  ]

  abbrev pub identity_of_value : Option Text → Result ZitiIdentityConfig
  identity_of_value none =
      err (codes "ZITI_IDENTITY_JSON environment variable is required and must contain valid JSON")
  identity_of_value (some []) =
      err (codes "ZITI_IDENTITY_JSON environment variable is required and must contain valid JSON")
  identity_of_value (some (c ∷ json)) = parse_identity (c ∷ json)

  unfoldable pub load_ziti_identity_from_env : Result ZitiIdentityConfig
  unfolding check_identity
  load_ziti_identity_from_env = identity_of_value (lookup_env (codes "ZITI_IDENTITY_JSON"))
