-- ===== src/Edge/Samples.antt =====
-- An edge API in memory without identities, and one with the identity of a pod.
use ziti_k8s_agent.Base.{List, [], ◌∷◌, Text, codes, some, false}
use ziti_k8s_agent.Edge.{IdentityDetail, identity_type_device}
use ziti_k8s_agent.Edge.Memory.{Memory}
use ziti_k8s_agent.Naming.Samples.{sample_name}

abbrev pub no_identities : Memory
no_identities = record { identities = []; routers = [] }

abbrev pub sample_id : Text
sample_id = codes "i:zt-web-shop-1234abcd"

abbrev pub sample_jwt : Text
sample_jwt = codes "j:zt-web-shop-1234abcd"

abbrev pub sample_identity : List Text → IdentityDetail
sample_identity roles = record {
  id = sample_id;
  name = sample_name;
  role_attributes = roles;
  identity_type = identity_type_device;
  is_admin = false;
  ott = some sample_jwt;
}

abbrev pub one_identity : Memory
one_identity = record {
  identities = sample_identity (codes "web" ∷ codes "db" ∷ []) ∷ [];
  routers = [];
}
