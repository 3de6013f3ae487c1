-- ===== src/Policy/Resolution/Enforcement.antt =====
-- policy/engine.ts with security/path-policy.ts and worker/command-runner.ts: what a task's policy keeps its
-- worker from.
use agent_harness_os.Base.{
  ℕ, String, ◌≡◌, refl, sym, ◌∙◌, ◌↔◌, ◌⊎◌, inl, inr, true, not, false≢true, Option, some, List,
  map, Bool-cases, not-eq-false, codes, In, In-map, ok, throw_if-eq-ok, throw_if_inv,
}
use agent_harness_os.Paths.{PathPolicy, new_path_policy, FileSystem, assert_safe_changed_path}
use agent_harness_os.Paths.Safe.{Fits, changed_path_is_safe}
use agent_harness_os.Policy.Documents.{Json}
use agent_harness_os.Policy.Resolution.{
  LoadedPolicy, PolicyConfig, WorkerTask, ResolvedPolicy, PolicyBoundTask, not_denied,
  load_policies, resolve_task_policy,
}
use agent_harness_os.Policy.Resolution.Strictness.{
  resolve_task_policy-prohibited_paths, resolve_task_policy-network,
}
use agent_harness_os.Runner.{ExecutionConfig, assert_local_execution, container_network}

module _ (parse_json : String → Option Json) (sha256 : String → String)
    (stringify : ResolvedPolicy → String) (config : PolicyConfig)
    (organization_contents repository_contents : Option String) (task : WorkerTask)
    (policies : List LoadedPolicy) (b : PolicyBoundTask)
    (loaded : load_policies parse_json sha256 organization_contents repository_contents
      ≡ ok policies)
    (resolved : resolve_task_policy parse_json sha256 stringify config organization_contents
        repository_contents task
      ≡ ok b) where
  -- A changed path that passes the path policy of the bound task fits no pattern that the task or a loaded
  -- document prohibits.
  pub changed_path_keeps_policy :
      (posix_normalize : List ℕ → List ℕ) (fs : FileSystem) (allowed : List (List ℕ))
      (paths : PathPolicy) (value path : List ℕ) (pattern : String)
      → new_path_policy allowed (map codes b.bound_task.prohibited_paths) ≡ ok paths
      → assert_safe_changed_path posix_normalize fs paths value ≡ some (ok path)
      → In pattern task.prohibited_paths
        ⊎ ((p : LoadedPolicy) × In p policies × In pattern p.document.prohibited_paths)
      → ¬ Fits (codes pattern) path
  changed_path_keeps_policy posix_normalize fs allowed paths value path pattern made passes listed =
      let (_, _, _, clean, _, _, _, _) =
        changed_path_is_safe posix_normalize fs allowed (map codes b.bound_task.prohibited_paths)
          paths value path made passes in
      clean (codes pattern) (
        In-map codes pattern b.bound_task.prohibited_paths (
          (resolve_task_policy-prohibited_paths parse_json sha256 stringify config
              organization_contents repository_contents task policies b loaded resolved pattern).1
            listed))

  -- The task allows the network and no loaded document denies it.
  abbrev pub NetworkPermitted : Type 0
  NetworkPermitted =
      (task.allow_network ≡ true)
      × ((p : LoadedPolicy) → In p policies → not_denied p.document.allow_network ≡ true)

  -- A command of the bound task may run outside a container exactly if the configuration allows that, the task
  -- allows the network and no loaded document denies it; and a container gets the configured network where the
  -- task allows the network and no loaded document denies it, and the network `none` otherwise.
  pub commands_keep_policy :
      (execution : ExecutionConfig)
      → ((assert_local_execution execution b.bound_task ≡ ok tt)
          ↔ ((execution.allow_unsandboxed_local ≡ true) × NetworkPermitted))
        × ((NetworkPermitted
              × (container_network execution b.bound_task ≡ execution.docker_network))
            ⊎ ((¬ NetworkPermitted) × (container_network execution b.bound_task ≡ "none")))
  unfolding assert_local_execution container_network
  commands_keep_policy execution =
      let (to, from) =
        resolve_task_policy-network parse_json sha256 stringify config organization_contents
          repository_contents task policies b loaded resolved in
      (
        (
          λ h.
              let (sandbox, rest) = throw_if_inv (not execution.allow_unsandboxed_local) _ _ h in
              (not-eq-false sandbox, to (not-eq-false (throw_if-eq-ok _ _ rest))),
          λ (h, k). rw (h, from k) refl,
        ),
        elim (Bool-cases b.bound_task.allow_network) [
          | inl on ↦ inl (to on, rw on refl)
          | inr off ↦ inr (λ k. false≢true (sym off ∙ from k), rw off refl)
        ],
      )
