-- ===== src/Naming/Tests.antt =====
-- Tests of the names of identities.
use ziti_k8s_agent.Base.{
  ◌≤◌, ◌≡◌, refl, ◌≢◌, ◌↔◌, true, false, some, List, [], ◌∷◌, ◌++◌, arith, Text, codes, length,
  take, ok,
}
use ziti_k8s_agent.Kube.{Container}
use ziti_k8s_agent.Naming.{
  build_ziti_identity_name, label_name, base_name, add_hash, validate_name, match_name,
}
use ziti_k8s_agent.Naming.Pattern.{run, step, is_alnum}
use ziti_k8s_agent.Naming.Language.{IsName, match_name_iff}
use ziti_k8s_agent.Naming.Shape.{build-IsName}
use ziti_k8s_agent.Naming.Uniqueness.{build_distinct}
use ziti_k8s_agent.Naming.Samples.{
  sample_prefix, sample_uid, sample_meta, sample_name, sample_container, sample_name-built,
}

match_dotted : match_name (codes "a-1.b") ≡ true
unfolding match_name run step is_alnum
match_dotted = refl

match_dash_last : match_name (codes "a-") ≡ false
unfolding match_name run step is_alnum
match_dash_last = refl

match_name_iff_example : (match_name (codes "a-1.b") ≡ true) ↔ IsName (codes "a-1.b")
match_name_iff_example = match_name_iff (codes "a-1.b")

build-IsName_example :
    IsName sample_name
    × (length sample_name ≤ 59)
    × ((base : Text) × (sample_name ≡ base ++ b'-' ∷ take 8 sample_uid))
    × ((label : Text) × (label_name sample_meta.labels ≡ some label))
build-IsName_example =
    build-IsName sample_prefix sample_meta sample_uid sample_name sample_name-built

other_built :
    build_ziti_identity_name (codes "zt") sample_meta (codes "99999999")
    ≡ ok (codes "zt-web-shop-99999999")
unfolding build_ziti_identity_name label_name base_name add_hash validate_name match_name run step
    is_alnum
other_built = refl

build_distinct_example : sample_name ≢ codes "zt-web-shop-99999999"
build_distinct_example =
    build_distinct sample_prefix (codes "zt") sample_meta sample_meta sample_uid (codes "99999999")
      sample_name (codes "zt-web-shop-99999999") sample_name-built other_built (ground arith)

abbrev two_containers : List Container
two_containers = sample_container (codes "web") ∷ sample_container (codes "zt-web") ∷ []
