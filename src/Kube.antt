-- ===== src/Kube.antt =====
-- The parts of the Kubernetes API objects that the agent reads or writes. Strings are bytes, maps
-- are association lists, and a pointer that may be nil is an option.
use ziti_k8s_agent.Base.{Bool, List, Option, Text, StringMap}

-- `metav1.ObjectMeta`
pub record ObjectMeta : Type 0 where
  pub name : Text
  pub namespace : Text
  pub labels : StringMap
  pub annotations : StringMap

-- `corev1.EnvVar`
pub record EnvVar : Type 0 where
  pub name : Text
  pub value : Text

-- `corev1.VolumeMount`
pub record VolumeMount : Type 0 where
  pub name : Text
  pub mount_path : Text
  pub read_only : Bool

-- `corev1.SecurityContext`; the user is root (0) wherever it is set here.
pub record SecurityContext : Type 0 where
  pub capabilities_add : List Text
  pub capabilities_drop : List Text
  pub run_as_root : Bool
  pub privileged : Option Bool
  pub run_as_non_root : Option Bool

-- `corev1.ResourceRequirements`, with quantities as they are written.
pub record ResourceRequirements : Type 0 where
  pub requests : StringMap
  pub limits : StringMap

-- `corev1.Container`
pub record Container : Type 0 where
  pub name : Text
  pub image : Text
  pub image_pull_policy : Text
  pub args : List Text
  pub env : List EnvVar
  pub volume_mounts : List VolumeMount
  pub security_context : Option SecurityContext
  pub resources : ResourceRequirements

-- `corev1.Pod`, as far as the webhook reads it.
pub record Pod : Type 0 where
  pub meta : ObjectMeta
  pub containers : List Container

-- `corev1.PodDNSConfig`
pub record PodDnsConfig : Type 0 where
  pub nameservers : List Text
  pub searches : List Text
  pub options : List (Text × Text)

-- `corev1.Service`, of which only the cluster IP is read.
pub record Service : Type 0 where
  pub cluster_ip : Text

-- `corev1.Volume` with an empty directory for its source.
pub record EmptyDirVolume : Type 0 where
  pub name : Text

-- `corev1.PersistentVolumeClaim`, of which only the name is read.
pub record PersistentVolumeClaim : Type 0 where
  pub name : Text
