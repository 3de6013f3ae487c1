-- ===== src/Runner.antt =====
-- worker/command-runner.ts: where a validation command may run, and which network it gets. Starting the process or
-- the container is not modelled.
use agent_harness_os.Base.{String, Bool, not, if◌then◌else◌, harness_error, Result, ◌>>◌, throw_if}
use agent_harness_os.Policy.Resolution.{WorkerTask}

-- The fields of `config.execution` that decide.
pub record ExecutionConfig : Type 0 where
  pub allow_unsandboxed_local : Bool
  pub docker_network : String

-- The guards of `LocalCommandRunner.run`.
unfoldable pub assert_local_execution : ExecutionConfig → WorkerTask → Result (Unit {0})
assert_local_execution execution task = do
  throw_if (not execution.allow_unsandboxed_local) (harness_error "LOCAL_EXECUTION_DISABLED")
  throw_if (not task.allow_network) (harness_error "LOCAL_NETWORK_ISOLATION_UNAVAILABLE")

-- The network that `DockerCommandRunner.run` gives a container.
unfoldable pub container_network : ExecutionConfig → WorkerTask → String
container_network execution task = if task.allow_network then execution.docker_network else "none"
