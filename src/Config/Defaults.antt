-- ===== src/Config/Defaults.antt =====
-- What the defaults of the configuration guarantee.
use ziti_k8s_agent.Base.{
  ◌≡◌, refl, inl, inr, [], ◌∷◌, Text, codes, if◌then◌else◌, Bool-cases, ℤ, pos, is_zero,
}
use ziti_k8s_agent.Config.{
  WebhookConfig, apply_config_defaults, or_default, default_image_pull_policy,
  default_ziti_role_attributes_key,
}

or_default_twice : (v d : Text) → or_default (or_default v d) d ≡ or_default v d
or_default_twice [] [] = refl
or_default_twice [] (c ∷ d) = refl
or_default_twice (c ∷ v) d = refl

port_twice :
    (p : ℤ)
    → (if is_zero (if is_zero p then pos 9443 else p)
        then pos 9443
        else (if is_zero p then pos 9443 else p))
      ≡ (if is_zero p then pos 9443 else p)
port_twice p = elim (Bool-cases (is_zero p)) [ inl e ↦ rw e refl | inr e ↦ rw (e, e) refl ]

-- The defaults are filled in once: a second pass changes nothing.
pub apply_config_defaults_idempotent :
    (cfg : WebhookConfig)
    → apply_config_defaults (apply_config_defaults cfg) ≡ apply_config_defaults cfg
unfolding apply_config_defaults
apply_config_defaults_idempotent cfg =
    rw
      (
        port_twice cfg.server.port,
        or_default_twice cfg.controller.role_key default_ziti_role_attributes_key,
        or_default_twice cfg.sidecar.image_pull_policy default_image_pull_policy,
        or_default_twice cfg.sidecar.volume_mount_name (codes "ziti-identity"),
        or_default_twice cfg.sidecar.identity_dir (codes "/ziti-tunnel"),
        or_default_twice cfg.sidecar.prefix (codes "zt"),
        or_default_twice cfg.sidecar.dns_unanswerable (codes "refused"),
        or_default_twice cfg.cluster_dns_zone (codes "cluster.local"),
      )
      refl
