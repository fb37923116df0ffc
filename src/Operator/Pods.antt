-- ===== src/Operator/Pods.antt =====
-- Pods and their containers as the operator writes and compares them.
use ziti_k8s_agent.Base.{Bool, List, Option, Text, ℤ}
use ziti_k8s_agent.Kube.{PodDnsConfig}
use ziti_k8s_agent.Operator.Equal.{
  DeepEqual, GoMap, on_field, no_field, text_equal, bool_equal, int_equal, map_equal, pointer_equal,
  slice_equal,
}

-- `corev1.EnvVar`, with the secret and the key that its value may come from.
pub record EnvEntry : Type 0 where
  pub name : Text
  pub value : Text
  pub secret_name : Text
  pub secret_key : Text

instance abbrev pub env_equal : DeepEqual (EnvEntry)
env_equal =
    on_field (λ (x : EnvEntry). x.name)
      (on_field (λ (x : EnvEntry). x.value)
        (on_field (λ (x : EnvEntry). x.secret_name)
          (on_field (λ (x : EnvEntry). x.secret_key) (no_field))))

-- `corev1.ContainerPort`
pub record ContainerPort : Type 0 where
  pub name : Text
  pub container_port : ℤ
  pub protocol : Text

instance abbrev pub container_port_equal : DeepEqual (ContainerPort)
container_port_equal =
    on_field (λ (x : ContainerPort). x.name)
      (on_field (λ (x : ContainerPort). x.container_port)
        (on_field (λ (x : ContainerPort). x.protocol) (no_field)))

-- `corev1.VolumeMount`
pub record Mount : Type 0 where
  pub name : Text
  pub mount_path : Text
  pub sub_path : Text

instance abbrev pub mount_equal : DeepEqual (Mount)
mount_equal =
    on_field (λ (x : Mount). x.name)
      (on_field (λ (x : Mount). x.mount_path) (on_field (λ (x : Mount). x.sub_path) (no_field)))

-- `corev1.Probe` that runs a command.
pub record Probe : Type 0 where
  pub initial_delay_seconds : ℤ
  pub timeout_seconds : ℤ
  pub period_seconds : ℤ
  pub success_threshold : ℤ
  pub failure_threshold : ℤ
  pub command : List Text

instance abbrev pub probe_equal : DeepEqual (Probe)
probe_equal =
    on_field (λ (x : Probe). x.initial_delay_seconds)
      (on_field (λ (x : Probe). x.timeout_seconds)
        (on_field (λ (x : Probe). x.period_seconds)
          (on_field (λ (x : Probe). x.success_threshold)
            (on_field (λ (x : Probe). x.failure_threshold)
              (on_field (λ (x : Probe). x.command) (no_field))))))

-- `corev1.ResourceRequirements`, with quantities as they are written.
pub record Resources : Type 0 where
  pub requests : GoMap
  pub limits : GoMap

instance abbrev pub resources_equal : DeepEqual (Resources)
resources_equal =
    on_field (λ (x : Resources). x.requests) (on_field (λ (x : Resources). x.limits) (no_field))

-- `corev1.Container`
pub record PodContainer : Type 0 where
  pub name : Text
  pub image : Text
  pub image_pull_policy : Text
  pub command : List Text
  pub args : List Text
  pub ports : List ContainerPort
  pub env : List EnvEntry
  pub liveness_probe : Option Probe
  pub readiness_probe : Option Probe
  pub resources : Resources
  pub termination_message_path : Text
  pub termination_message_policy : Text
  pub volume_mounts : List Mount

instance abbrev pub container_equal : DeepEqual (PodContainer)
container_equal =
    on_field (λ (x : PodContainer). x.name)
      (on_field (λ (x : PodContainer). x.image)
        (on_field (λ (x : PodContainer). x.image_pull_policy)
          (on_field (λ (x : PodContainer). x.command)
            (on_field (λ (x : PodContainer). x.args)
              (on_field (λ (x : PodContainer). x.ports)
                (on_field (λ (x : PodContainer). x.env)
                  (on_field (λ (x : PodContainer). x.liveness_probe)
                    (on_field (λ (x : PodContainer). x.readiness_probe)
                      (on_field (λ (x : PodContainer). x.resources)
                        (on_field (λ (x : PodContainer). x.termination_message_path)
                          (on_field (λ (x : PodContainer). x.termination_message_policy)
                            (on_field (λ (x : PodContainer). x.volume_mounts) (no_field)))))))))))))

-- `corev1.ConfigMapVolumeSource`
pub record ConfigMapSource : Type 0 where
  pub name : Text
  pub default_mode : Option ℤ

instance abbrev pub config_source_equal : DeepEqual (ConfigMapSource)
config_source_equal =
    on_field (λ (x : ConfigMapSource). x.name)
      (on_field (λ (x : ConfigMapSource). x.default_mode) (no_field))

-- `corev1.Volume`, with the name of a claim or with a config map.
pub record PodVolume : Type 0 where
  pub name : Text
  pub claim : Option Text
  pub config_map : Option ConfigMapSource

instance abbrev pub volume_equal : DeepEqual (PodVolume)
volume_equal =
    on_field (λ (x : PodVolume). x.name)
      (on_field (λ (x : PodVolume). x.claim)
        (on_field (λ (x : PodVolume). x.config_map) (no_field)))

instance abbrev pub dns_option_equal : DeepEqual (Text × Text)
dns_option_equal =
    on_field (λ (x : Text × Text). x.0) (on_field (λ (x : Text × Text). x.1) (no_field))

instance abbrev pub dns_equal : DeepEqual (PodDnsConfig)
dns_equal =
    on_field (λ (x : PodDnsConfig). x.nameservers)
      (on_field (λ (x : PodDnsConfig). x.searches)
        (on_field (λ (x : PodDnsConfig). x.options) (no_field)))

-- `corev1.PodSecurityContext`
pub record PodSecurity : Type 0 where
  pub fs_group : Option ℤ

instance abbrev pub security_equal : DeepEqual (PodSecurity)
security_equal = on_field (λ (x : PodSecurity). x.fs_group) (no_field)

-- `corev1.PodSpec`
pub record PodSpec : Type 0 where
  pub containers : List PodContainer
  pub host_network : Bool
  pub dns_config : Option PodDnsConfig
  pub dns_policy : Text
  pub scheduler_name : Text
  pub restart_policy : Text
  pub security_context : Option PodSecurity
  pub termination_grace_period_seconds : Option ℤ
  pub volumes : List PodVolume
  pub service_account_name : Text
  pub deprecated_service_account : Text

instance abbrev pub pod_equal : DeepEqual (PodSpec)
pod_equal =
    on_field (λ (x : PodSpec). x.containers)
      (on_field (λ (x : PodSpec). x.host_network)
        (on_field (λ (x : PodSpec). x.dns_config)
          (on_field (λ (x : PodSpec). x.dns_policy)
            (on_field (λ (x : PodSpec). x.scheduler_name)
              (on_field (λ (x : PodSpec). x.restart_policy)
                (on_field (λ (x : PodSpec). x.security_context)
                  (on_field (λ (x : PodSpec). x.termination_grace_period_seconds)
                    (on_field (λ (x : PodSpec). x.volumes)
                      (on_field (λ (x : PodSpec). x.service_account_name)
                        (on_field (λ (x : PodSpec). x.deprecated_service_account)
                          (no_field)))))))))))

-- `corev1.PodTemplateSpec`
pub record PodTemplate : Type 0 where
  pub labels : GoMap
  pub annotations : GoMap
  pub pod : PodSpec

instance abbrev pub template_equal : DeepEqual (PodTemplate)
template_equal =
    on_field (λ (x : PodTemplate). x.labels)
      (on_field (λ (x : PodTemplate). x.annotations)
        (on_field (λ (x : PodTemplate). x.pod) (no_field)))
