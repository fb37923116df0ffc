-- ===== src/Edge/Enrollment.antt =====
-- The enrollment calls of ziti-agent/pkg/ziti-edge: `GetIdentityEnrollmentJWT`,
-- `EnrollIdentityWithJwt` and `EnrollEdgeRouter`. The enrollment SDK is a parameter: `parse` reads
-- a token into its claims and its raw text, and `enroll` performs the enrollment.
use ziti_k8s_agent.Base.{Text, codes, Result, Action, ◌>>=◌, pure, lift}
use ziti_k8s_agent.Edge.{EdgeApi, get_identity_by_id, get_edge_router_detail}
use ziti_k8s_agent.Edge.Identities.{jwt_of}

-- `enroll.EnrollmentFlags`
pub record EnrollmentFlags (Claims : Type 0) : Type 0 where
  pub token : Claims
  pub key_alg : Text

module _ {W Claims Config : Type 0} (E : EdgeApi W) (parse : Text → Result (Claims × Text))
    (enroll : EnrollmentFlags Claims → Action W Config) where
  unfoldable pub get_identity_enrollment_jwt : Text → Action W Text
  unfolding get_identity_by_id
  get_identity_enrollment_jwt id = do
    detail ← get_identity_by_id E id
    jwt ← jwt_of detail.ott
    parsed ← lift (parse jwt)
    pure parsed.1

  unfoldable pub enroll_identity_with_jwt : Text → Action W Config
  enroll_identity_with_jwt jwt = do
    parsed ← lift (parse jwt)
    enroll (record { token = parsed.0; key_alg = codes "RSA" })

  unfoldable pub enroll_edge_router : Text → Action W Config
  unfolding get_edge_router_detail
  enroll_edge_router id = do
    detail ← get_edge_router_detail E id
    jwt ← jwt_of detail.enrollment_jwt
    parsed ← lift (parse jwt)
    enroll (record { token = parsed.0; key_alg = codes "RSA" })
