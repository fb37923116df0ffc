-- ===== src/Config/Checked.antt =====
-- What a configuration that `loadConfig` returns satisfies.
use ziti_k8s_agent.Base.{
  ◌≡◌, refl, ap, ◌≢◌, inl, inr, true, false, List, [], ◌∷◌, arith, Text, codes, is_empty,
  if◌then◌else◌, Bool-cases, Result, ok, err, panic, ℤ, pos, is_zero,
}
use ziti_k8s_agent.Config.{
  WebhookConfig, apply_config_defaults, validate_config, or_default, has_no_endpoints,
}
use ziti_k8s_agent.Config.Identity.{ZitiIdentityConfig, load_ziti_identity_from_env}
use ziti_k8s_agent.Config.Endpoints.{infer_mgmt_api_endpoints, store_endpoints, endpoints_of}
use ziti_k8s_agent.Config.Load.{
  Inputs, with_endpoints, load_config, then_check, wrap, parse_config, read_config,
}

or_default_ne : (v d : Text) → d ≢ [] → or_default v d ≢ []
or_default_ne [] d h = h
or_default_ne (c ∷ v) d h = ground arith

-- The names that the agent's containers and identities need are all there, there is at least one
-- endpoint of the management API, and an endpoint that was configured is the only one.
pub IsComplete : WebhookConfig → Type 0
IsComplete cfg =
    (cfg.controller.mgmt_api_endpoints ≢ [])
    × (cfg.sidecar.image ≢ [])
    × (cfg.sidecar.image_version ≢ [])
    × (cfg.sidecar.image_pull_policy ≢ [])
    × (cfg.sidecar.volume_mount_name ≢ [])
    × (cfg.sidecar.identity_dir ≢ [])
    × (cfg.sidecar.prefix ≢ [])
    × (cfg.sidecar.dns_unanswerable ≢ [])
    × (cfg.controller.role_key ≢ [])
    × (cfg.cluster_dns_zone ≢ [])
    × (is_zero cfg.server.port ≡ false)
    × (cfg.controller.mgmt_api ≢ []
        → cfg.controller.mgmt_api_endpoints ≡ cfg.controller.mgmt_api ∷ [])

-- A configuration with endpoints of its own.
abbrev endpoints_set : WebhookConfig → List Text → WebhookConfig
endpoints_set cfg endpoints = record cfg {
  controller = record cfg.controller { mgmt_api_endpoints = endpoints };
}

checks_passed :
    (endpoints : List Text) (image version : Text) (cfg out : WebhookConfig) (m₁ m₂ m₃ : Text)
    → (if has_no_endpoints endpoints
        then err m₁
        else if is_empty image
        then err m₂
        else if is_empty version
        then err m₃
        else ok cfg)
      ≡ ok out
    → (cfg ≡ out) × (endpoints ≢ []) × (image ≢ []) × (version ≢ [])
checks_passed [] image version cfg out m₁ m₂ m₃ h = absurd (ground arith)
checks_passed (_ ∷ _) [] version cfg out m₁ m₂ m₃ h = absurd (ground arith)
checks_passed (_ ∷ _) (_ ∷ _) [] cfg out m₁ m₂ m₃ h = absurd (ground arith)
checks_passed (_ ∷ _) (_ ∷ _) (_ ∷ _) cfg out m₁ m₂ m₃ h = (
  ap (λ r. elim r [ ok c ↦ c | err _ ↦ cfg | panic ↦ cfg ]) h,
  ground arith,
  ground arith,
  ground arith,
)

validated :
    (cfg out : WebhookConfig)
    → validate_config cfg ≡ ok out
    → (cfg ≡ out)
      × (cfg.controller.mgmt_api_endpoints ≢ [])
      × (cfg.sidecar.image ≢ [])
      × (cfg.sidecar.image_version ≢ [])
unfolding validate_config
validated cfg out h =
    checks_passed cfg.controller.mgmt_api_endpoints cfg.sidecar.image cfg.sidecar.image_version cfg
      out _ _ _ h

port_nonzero : (p : ℤ) → is_zero (if is_zero p then pos 9443 else p) ≡ false
port_nonzero p = elim (Bool-cases (is_zero p)) [ inl e ↦ rw e refl | inr e ↦ rw e e ]

IsComplete-of_parts :
    (cfg : WebhookConfig) (endpoints : List Text)
    → (cfg.controller.mgmt_api ≢ [] → endpoints ≡ cfg.controller.mgmt_api ∷ [])
    → endpoints ≢ []
    → cfg.sidecar.image ≢ []
    → cfg.sidecar.image_version ≢ []
    → IsComplete (endpoints_set (apply_config_defaults cfg) endpoints)
unfolding apply_config_defaults IsComplete
IsComplete-of_parts cfg endpoints only e i v = (
  e,
  i,
  v,
  or_default_ne cfg.sidecar.image_pull_policy _ (ground arith),
  or_default_ne cfg.sidecar.volume_mount_name _ (ground arith),
  or_default_ne cfg.sidecar.identity_dir _ (ground arith),
  or_default_ne cfg.sidecar.prefix _ (ground arith),
  or_default_ne cfg.sidecar.dns_unanswerable _ (ground arith),
  or_default_ne cfg.controller.role_key _ (ground arith),
  or_default_ne cfg.cluster_dns_zone _ (ground arith),
  port_nonzero cfg.server.port,
  only,
)

IsComplete-of_checks :
    (cfg : WebhookConfig) (endpoints : List Text) (out : WebhookConfig)
    → (cfg.controller.mgmt_api ≢ [] → endpoints ≡ cfg.controller.mgmt_api ∷ [])
    → validate_config (endpoints_set (apply_config_defaults cfg) endpoints) ≡ ok out
    → IsComplete out
unfolding apply_config_defaults
IsComplete-of_checks cfg endpoints out only h =
    let (same, e, i, v) = validated (endpoints_set (apply_config_defaults cfg) endpoints) out h in
    rw same at (IsComplete-of_parts cfg endpoints only e i v)

empty_is_nil : (s : Text) → is_empty s ≡ true → s ≡ []
empty_is_nil s h = ground arith

module _ (I : Inputs) where
  stored-IsComplete :
      (endpoints : List Text) (m : Text) (cfg out : WebhookConfig)
      → cfg.controller.mgmt_api ≡ []
      → then_check (wrap m (store_endpoints I.urls (apply_config_defaults cfg) endpoints)) ≡ ok out
      → IsComplete out
  stored-IsComplete [] m cfg out absent h = absurd (ground arith)
  stored-IsComplete (e ∷ es) m cfg out absent h =
      IsComplete-of_checks cfg (e ∷ es) out (λ present. absurd (present absent)) h

  inferred-IsComplete :
      (identity : Result ZitiIdentityConfig) (cfg out : WebhookConfig)
      → cfg.controller.mgmt_api ≡ []
      → then_check (
          wrap
            (codes "failed to infer management API endpoints: ")
            (infer_mgmt_api_endpoints I.urls identity (apply_config_defaults cfg)))
        ≡ ok out
      → IsComplete out
  unfolding infer_mgmt_api_endpoints
  inferred-IsComplete (ok identity) cfg out absent h =
      stored-IsComplete (endpoints_of I.urls identity)
        (codes "failed to infer management API endpoints: ") cfg out absent h
  inferred-IsComplete (err e) cfg out absent h = absurd (ground arith)
  inferred-IsComplete panic cfg out absent h = absurd (ground arith)

  chosen-IsComplete :
      (cfg out : WebhookConfig)
      → then_check (with_endpoints I (apply_config_defaults cfg)) ≡ ok out
      → IsComplete out
  unfolding with_endpoints apply_config_defaults
  chosen-IsComplete cfg out h = elim (Bool-cases (is_empty cfg.controller.mgmt_api)) [
    | inl e ↦
        inferred-IsComplete (load_ziti_identity_from_env I.lookup_env I.unmarshal_json) cfg out
          (empty_is_nil cfg.controller.mgmt_api e) (rw e at h)
    | inr e ↦ IsComplete-of_checks cfg (cfg.controller.mgmt_api ∷ []) out (λ _. refl) (rw e at h)
  ]

  parsed-IsComplete :
      (r : Result WebhookConfig) (out : WebhookConfig) → parse_config I r ≡ ok out → IsComplete out
  parsed-IsComplete (ok cfg) out h = chosen-IsComplete cfg out h
  parsed-IsComplete (err e) out h = absurd (ground arith)
  parsed-IsComplete panic out h = absurd (ground arith)

  read-IsComplete :
      (r : Result Text) (out : WebhookConfig) → read_config I r ≡ ok out → IsComplete out
  read-IsComplete (ok contents) out h = parsed-IsComplete (I.unmarshal_yaml contents) out h
  read-IsComplete (err e) out h = absurd (ground arith)
  read-IsComplete panic out h = absurd (ground arith)

  -- A configuration that `loadConfig` returns is complete, whatever the file, the environment and
  -- the decoders hold.
  pub load_config-IsComplete :
      (path : Text) (out : WebhookConfig) → load_config I path ≡ ok out → IsComplete out
  unfolding load_config
  load_config-IsComplete path out h = read-IsComplete (I.read_file path) out h
