-- ===== src/Handler/Interleaved.antt =====
-- Concurrent calls of `handleTunnelCreate` over the shared `jsonPatch`: one that is not interrupted,
-- and one that another call interrupts.
use ziti_k8s_agent.Base.{
  ℕ, Bool, false, List, [], ◌∷◌, ◌++◌, Text, StringMap, ◌≡◌, refl, sym, ap, ◌∙◌, arith, some, codes,
  get_elem?, drop, ◌==◌, ==_refl, append_assoc, append-nil, Bool-cases, inl, inr,
}
use ziti_k8s_agent.Kube.{Container, PodDnsConfig}
use ziti_k8s_agent.Handler.{JsonPatchEntry, PatchValue, ZitiConfig}
use ziti_k8s_agent.Handler.Tunnel.{base_entries, tunnel_patch, sidecar}
use ziti_k8s_agent.Handler.Shared.{
  Job, Phase, ready, building, answered, Agent, set_phase, access, run, concat, tunnel_job,
}

-- The steps that a call takes from the start, with these slices to append.
abbrev pub appending : ℕ → List (List JsonPatchEntry) → List ℕ
appending i [] = []
appending i (entries ∷ more) = i ∷ appending i more

set_phase_self : (phases : ℕ → Phase) (i : ℕ) (p : Phase) → set_phase phases i p i ≡ p
set_phase_self phases i p = rw (==_refl i)

set_phase_other :
    (phases : ℕ → Phase) (i j : ℕ) (p : Phase)
    → (j == i) ≡ false
    → set_phase phases i p j ≡ phases j
set_phase_other phases i j p h = rw h

==_swap : (i j : ℕ) → (i == j) ≡ false → (j == i) ≡ false
==_swap i j h = ground arith

access_phase :
    (job : Job) (i : ℕ) (a : Agent) (p : Phase)
    → a.phases i ≡ p
    → access job i a (a.phases i) ≡ access job i a p
access_phase job i a p e = ap (access job i a) e

-- The appends of a call that is alone.
run-appending :
    (jobs : ℕ → Job) (i : ℕ) (more : List (List JsonPatchEntry)) (rest : List ℕ) (a : Agent)
    → a.phases i ≡ building more
    → (b : Agent) × (run jobs (appending i more ++ rest) a ≡ run jobs rest b)
      × (b.json_patch ≡ a.json_patch ++ concat more)
      × (b.phases i ≡ building [])
      × ((j : ℕ) → (j == i) ≡ false → b.phases j ≡ a.phases j)
unfolding run
run-appending jobs i [] rest a e = (a, refl, sym (append-nil a.json_patch), e, λ j h. refl)
run-appending jobs i (entries ∷ more) rest a e =
    let a' : Agent = record {
      json_patch = a.json_patch ++ entries;
      phases = set_phase a.phases i (building more);
    } in
    let (b, same, patch, phase, others) =
      run-appending jobs i more rest a' (set_phase_self a.phases i (building more)) in
    (
      b,
      ap (run jobs (appending i more ++ rest))
            (access_phase (jobs i) i a (building (entries ∷ more)) e)
          ∙ same,
      patch ∙ append_assoc a.json_patch entries (concat more),
      phase,
      λ j h. others j h ∙ set_phase_other a.phases i j (building more) h,
    )

-- A call whose accesses no other call interrupts answers with its own patch, the assigned entries
-- and then the appended ones, whatever was in the variable before.
pub run_alone :
    (jobs : ℕ → Job) (i : ℕ) (a : Agent)
    → a.phases i ≡ ready
    → (run jobs (i ∷ (appending i (jobs i).appends ++ i ∷ [])) a).phases i
      ≡ answered ((jobs i).base ++ concat (jobs i).appends)
unfolding run
run_alone jobs i a e =
    let a' : Agent = record {
      json_patch = (jobs i).base;
      phases = set_phase a.phases i (building (jobs i).appends);
    } in
    let (b, same, patch, phase, _) =
      run-appending jobs i (jobs i).appends (i ∷ []) a'
        (set_phase_self a.phases i (building (jobs i).appends)) in
    ap (λ s. (run jobs (appending i (jobs i).appends ++ i ∷ []) s).phases i)
      (access_phase (jobs i) i a ready e)
    ∙ (ap (λ s. s.phases i) same
        ∙ (ap (λ s. s.phases i) (access_phase (jobs i) i b (building []) phase)
            ∙ (set_phase_self b.phases i (answered b.json_patch) ∙ ap answered patch)))

-- Two calls of which one assigns and appends, the other assigns, and the first then marshals: the
-- first answers with the entries that the other has assigned.
run_overlapping :
    (jobs : ℕ → Job) (i j : ℕ) (a : Agent)
    → (i == j) ≡ false
    → a.phases i ≡ ready
    → a.phases j ≡ ready
    → (run jobs (i ∷ (appending i (jobs i).appends ++ j ∷ i ∷ [])) a).phases i
      ≡ answered (jobs j).base
unfolding run
run_overlapping jobs i j a differ e e' =
    let a' : Agent = record {
      json_patch = (jobs i).base;
      phases = set_phase a.phases i (building (jobs i).appends);
    } in
    let (b, same, patch, phase, others) =
      run-appending jobs i (jobs i).appends (j ∷ i ∷ []) a'
        (set_phase_self a.phases i (building (jobs i).appends)) in
    let waiting : b.phases j ≡ ready =
      others j (==_swap i j differ)
      ∙ (set_phase_other a.phases i j (building (jobs i).appends) (==_swap i j differ) ∙ e') in
    let b' : Agent = record {
      json_patch = (jobs j).base;
      phases = set_phase b.phases j (building (jobs j).appends);
    } in
    let still : b'.phases i ≡ building [] =
      set_phase_other b.phases j i (building (jobs j).appends) differ ∙ phase in
    ap (λ s. (run jobs (appending i (jobs i).appends ++ j ∷ i ∷ []) s).phases i)
      (access_phase (jobs i) i a ready e)
    ∙ (ap (λ s. s.phases i) same
        ∙ (ap (λ s. (run jobs (i ∷ []) s).phases i) (access_phase (jobs j) j b ready waiting)
            ∙ (ap (λ s. s.phases i) (access_phase (jobs i) i b' (building []) still)
                ∙ set_phase_self b'.phases i (answered b'.json_patch))))

-- The patch of one request is what its job writes.
pub tunnel_job_patch :
    (config : ZitiConfig) (verbose : Bool) (dns : PodDnsConfig) (annotations : StringMap)
    (name token : Text)
    → let job = tunnel_job config verbose dns annotations name token in
      job.base ++ concat job.appends ≡ tunnel_patch config verbose dns annotations name token
unfolding tunnel_job tunnel_patch
tunnel_job_patch config verbose dns annotations name token =
    elim (Bool-cases config.pod_security_override) [ inl on ↦ rw on | inr off ↦ rw off ]

-- An answered patch adds first a container with this name and this enrollment token.
abbrev pub AddsSidecar : Phase → Text → Text → Type 0
AddsSidecar phase name token =
    (c : Container) × (rest : List JsonPatchEntry) × (phase
      ≡ answered (
          record {
            op = codes "add";
            path = codes "/spec/containers/-";
            value = PatchValue.container c;
          }
          ∷ rest))
    × (c.name ≡ name)
    × (get_elem? c.env 0 ≡ some (record { name = codes "ZITI_ENROLL_TOKEN"; value = token }))

-- Two calls of `handleTunnelCreate` for different pods, of which neither has begun. Where the first
-- one's accesses of the shared variable are not interrupted, it answers with the patch of its own
-- pod. Where the second one assigns between the last append of the first one and its marshalling,
-- the first one answers with a patch that adds a sidecar with the name and the enrollment token of
-- the second pod.
pub sidecar_of_other :
    (jobs : ℕ → Job) (i j : ℕ) (a : Agent) (config : ZitiConfig) (verbose : Bool)
    → (dns dns' : PodDnsConfig) (annotations annotations' : StringMap)
    → (name name' token token' : Text) → (i == j) ≡ false
    → a.phases i ≡ ready
    → a.phases j ≡ ready
    → jobs i ≡ tunnel_job config verbose dns annotations name token
    → jobs j ≡ tunnel_job config verbose dns' annotations' name' token'
    → ((run jobs (i ∷ (appending i (jobs i).appends ++ i ∷ [])) a).phases i
        ≡ answered (tunnel_patch config verbose dns annotations name token))
      × AddsSidecar
          ((run jobs (i ∷ (appending i (jobs i).appends ++ j ∷ i ∷ [])) a).phases i)
          name'
          token'
unfolding tunnel_job base_entries
sidecar_of_other jobs i j a config verbose dns dns' annotations annotations' name name' token token'
      differ e e' job job' =
    (
      run_alone jobs i a e
          ∙ (ap (λ (k : Job). answered (k.base ++ concat k.appends)) job
              ∙ ap answered (tunnel_job_patch config verbose dns annotations name token)),
      (
        sidecar config verbose name' token',
        drop 1 (base_entries config verbose dns' name' token'),
        run_overlapping jobs i j a differ e e' ∙ ap (λ (k : Job). answered k.base) job',
        refl,
        refl,
      ),
    )
