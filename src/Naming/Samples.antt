-- ===== src/Naming/Samples.antt =====
-- A pod of a shop, and the name of its identity.
use ziti_k8s_agent.Base.{Option, [], ◌∷◌, Text, codes, ok, ◌≡◌, refl}
use ziti_k8s_agent.Kube.{ObjectMeta, Container}
use ziti_k8s_agent.Naming.{
  build_ziti_identity_name, label_name, base_name, add_hash, validate_name, match_name,
}
use ziti_k8s_agent.Naming.Pattern.{run, step, is_alnum}

abbrev pub sample_prefix : Text
sample_prefix = codes "zt"

abbrev pub sample_uid : Text
sample_uid = codes "1234abcd-0000"

abbrev pub sample_roles : Text
sample_roles = codes "identity.openziti.io/role-attributes"

abbrev pub sample_meta : ObjectMeta
sample_meta = record {
  name = codes "web-0";
  namespace = codes "shop";
  labels = (codes "app", codes "web") ∷ [];
  annotations = (sample_roles, codes "web,db") ∷ [];
}

abbrev pub sample_name : Text
sample_name = codes "zt-web-shop-1234abcd"

abbrev pub sample_container : Text → Container
sample_container name = record {
  name = name;
  image = codes "web:1";
  image_pull_policy = codes "Always";
  args = [];
  env = [];
  volume_mounts = [];
  security_context = Option.none;
  resources = record { requests = []; limits = [] };
}

pub sample_name-built :
    build_ziti_identity_name sample_prefix sample_meta sample_uid ≡ ok sample_name
unfolding build_ziti_identity_name label_name base_name add_hash validate_name match_name run step
    is_alnum
sample_name-built = refl
