-- ===== src/Operator/Adopt.antt =====
-- What the reconcilers of routers and webhooks take from a Ziti controller: the last one that came
-- from the channel, its management URL, and `DecodeJWT` and `GetUrlFromJwt` of
-- ziti-agent/operator/internal/utils/common.go. The JWT parser is a parameter.
use ziti_k8s_agent.Base.{
  Option, none, some, List, [], ◌∷◌, ◌++◌, Text, codes, is_empty, if◌then◌else◌, Result, ok, err,
  panic,
}
use ziti_k8s_agent.Url.{management_path}
use ziti_k8s_agent.Operator.{ZitiController}
use ziti_k8s_agent.Operator.Merge.{Fields}

-- `jwt.Parser`: the claims of a token that is not verified, if they are a map, and their issuer.
pub record JwtLib (Claims : Type 0) : Type 0 where
  pub parse_unverified : Text → Result (Option Claims)
  pub get_issuer : Claims → Result Text

-- Go's reflection on a specification: its fields, and the specification that has them.
pub record Reflection (Spec : Type 0) : Type 0 where
  pub fields_of : Spec → Fields
  pub set_fields : Fields → Spec → Spec

abbrev pub map_claims : {Claims : Type 0} → Result (Option Claims) → Result Claims
map_claims (ok none) = err (codes "failed to extract claims from JWT")
map_claims (ok (some claims)) = ok claims
map_claims (err e) = err (codes "failed to parse JWT: " ++ e)
map_claims panic = panic

-- The value of a call whose error is dropped: the empty text where it fails.
abbrev pub or_empty : Result Text → Result Text
or_empty (ok s) = ok s
or_empty (err e) = ok []
or_empty panic = panic

module _ {Claims : Type 0} (J : JwtLib Claims) where
  unfoldable pub decode_jwt : Text → Result Claims
  decode_jwt token = map_claims (J.parse_unverified token)

  abbrev pub issuer_of : Result Claims → Result Text
  issuer_of (ok claims) = J.get_issuer claims
  issuer_of (err e) = err e
  issuer_of panic = panic

  unfoldable pub get_url_from_jwt : Text → Result Text
  unfolding decode_jwt
  get_url_from_jwt token = issuer_of (decode_jwt token)

  abbrev pub with_management_path : Result Text → Result Text
  with_management_path (ok url) = ok (url ++ management_path)
  with_management_path (err e) = err e
  with_management_path panic = panic

  -- The management URL of a controller: its own, else that of the issuer of its token.
  unfoldable pub controller_mgmt_api : ZitiController → Result Text
  unfolding get_url_from_jwt
  controller_mgmt_api c =
      if is_empty c.spec.ziti_ctrl_mgmt_api
      then with_management_path (or_empty (get_url_from_jwt c.spec.admin_jwt))
      else ok c.spec.ziti_ctrl_mgmt_api

-- The channel and the controller that was last read from it.
pub record Inbox : Type 0 where
  pub chan : List ZitiController
  pub cached : Option ZitiController

-- `select` with a default: a controller is read if there is one, and kept.
abbrev pub received : List ZitiController → Inbox → Inbox
received [] inbox = inbox
received (c ∷ rest) inbox = record { chan = rest; cached = some c }

unfoldable pub receive : Inbox → Inbox
receive inbox = received inbox.chan inbox

-- When the next run is asked for.
pub data NextRun : Type 0 where
  no_run after_30_s : NextRun
