-- ===== src/Handler/Shared.antt =====
-- The package variable `jsonPatch` of ziti-agent/cmd/webhook/pods.go, which concurrent calls of
-- `handleTunnelCreate` share. The steps of a call are its accesses of the variable: the assignment,
-- the appends, and the read when the patch is marshalled. A schedule says whose step is next.
use ziti_k8s_agent.Base.{ℕ, Bool, true, List, [], ◌∷◌, ◌++◌, Text, StringMap, if◌then◌else◌, ◌==◌}
use ziti_k8s_agent.Kube.{PodDnsConfig}
use ziti_k8s_agent.Handler.{JsonPatchEntry, ZitiConfig}
use ziti_k8s_agent.Handler.Tunnel.{base_entries, override_entries, annotation_entry}

-- What a call writes: the entries that it assigns, and the slices that it appends in turn.
pub record Job : Type 0 where
  pub base : List JsonPatchEntry
  pub appends : List (List JsonPatchEntry)

-- A call has not touched the variable yet, or it has these slices left to append, or it has read
-- the patch that it answers with.
pub data Phase : Type 0 where
  ready : Phase
  building : List (List JsonPatchEntry) → Phase
  answered : List JsonPatchEntry → Phase

pub record Agent : Type 0 where
  pub json_patch : List JsonPatchEntry
  pub phases : ℕ → Phase

abbrev pub set_phase : (ℕ → Phase) → ℕ → Phase → ℕ → Phase
set_phase phases i phase j = if j == i then phase else phases j

-- One access of the variable by the call `i`, in its phase.
abbrev pub access : Job → ℕ → Agent → Phase → Agent
access job i a ready = record {
  json_patch = job.base;
  phases = set_phase a.phases i (building job.appends);
}
access job i a (building []) = record a { phases = set_phase a.phases i (answered a.json_patch) }
access job i a (building (entries ∷ more)) = record {
  json_patch = a.json_patch ++ entries;
  phases = set_phase a.phases i (building more);
}
access job i a (answered patch) = a

unfoldable pub run : (ℕ → Job) → List ℕ → Agent → Agent
run jobs [] a = a
run jobs (i ∷ schedule) a = run jobs schedule (access (jobs i) i a (a.phases i))

abbrev pub concat : List (List JsonPatchEntry) → List JsonPatchEntry
concat [] = []
concat (entries ∷ more) = entries ++ concat more

-- The job of `handleTunnelCreate`.
unfoldable pub tunnel_job : ZitiConfig → Bool → PodDnsConfig → StringMap → Text → Text → Job
tunnel_job config verbose dns annotations name token = record {
  base = base_entries config verbose dns name token;
  appends =
      if config.pod_security_override
      then override_entries true ∷ (annotation_entry annotations name ∷ []) ∷ []
      else (annotation_entry annotations name ∷ []) ∷ [];
}
