-- ===== src/Config/Paths.antt =====
-- What the conversion of an endpoint's path to the management API guarantees.
use ziti_k8s_agent.Base.{
  ◌≡◌, refl, inl, inr, true, false, ◌++◌, Text, codes, has_suffix, has_suffix-append, trim_suffix,
  trim_suffix-append, contains, contains_suffix, contains-replace_first, Bool-cases,
}
use ziti_k8s_agent.Url.{management_path}
use ziti_k8s_agent.Config.Endpoints.{mgmt_path, client_path}

-- Whatever the path, the converted path names the management API.
pub mgmt_path-contains : (path : Text) → contains (mgmt_path path) management_path ≡ true
unfolding mgmt_path
mgmt_path-contains path = elim (Bool-cases (contains path management_path)) [
  | inl managed ↦ rw (managed) managed
  | inr other ↦ elim (Bool-cases (has_suffix path client_path)) [
    | inl client ↦
        rw (other, client) (contains_suffix (trim_suffix path client_path) management_path)
    | inr plain ↦ elim (Bool-cases (contains path client_path)) [
      | inl inner ↦
          rw (other, plain, inner) (contains-replace_first path client_path management_path inner)
      | inr without ↦
          rw (other, plain, without)
            (contains_suffix (trim_suffix path (codes "/")) management_path)
    ]
  ]
]

-- A path that names the management API is left as it is.
mgmt_path_kept : (path : Text) → contains path management_path ≡ true → mgmt_path path ≡ path
unfolding mgmt_path
mgmt_path_kept path h = rw h refl

-- Converting a converted path changes nothing.
pub mgmt_path_idempotent : (path : Text) → mgmt_path (mgmt_path path) ≡ mgmt_path path
mgmt_path_idempotent path = mgmt_path_kept (mgmt_path path) (mgmt_path-contains path)

-- Where the text before the client API's path does not bring in the management API's, the client
-- API's path is exchanged for it and the text before is kept.
pub mgmt_path_of_client :
    (base : Text)
    → contains (base ++ client_path) management_path ≡ false
    → mgmt_path (base ++ client_path) ≡ base ++ management_path
unfolding mgmt_path
mgmt_path_of_client base h =
    rw (h, has_suffix-append base client_path, trim_suffix-append base client_path) refl
