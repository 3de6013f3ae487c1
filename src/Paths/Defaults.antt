-- ===== src/Paths/Defaults.antt =====
-- security/path-policy.ts: the paths that no policy allows, and those that none lets a worker write.
use agent_harness_os.Base.{String, List, [], ◌∷◌}

abbrev pub default_prohibited_paths : List String
default_prohibited_paths =
    ".git" ∷ ".git/**" ∷ "**/.git" ∷ "**/.git/**" ∷ ".env" ∷ ".env.*" ∷ "**/.env" ∷ "**/.env.*"
    ∷ "**/*.pem" ∷ "**/*.key" ∷ "**/id_rsa*" ∷ "**/.ssh" ∷ "**/.ssh/**" ∷ "**/.aws" ∷ "**/.aws/**"
    ∷ "**/.kube" ∷ "**/.kube/**" ∷ "**/*.p12" ∷ "**/*.pfx" ∷ "**/*.jks" ∷ "**/*.keystore"
    ∷ "**/.npmrc" ∷ "**/.pypirc" ∷ "**/.netrc" ∷ "**/credentials*" ∷ "**/.envrc" ∷ "**/.direnv"
    ∷ "**/.direnv/**" ∷ "**/.git-credentials" ∷ "**/.docker/config.json" ∷ "**/.terraform"
    ∷ "**/.terraform/**" ∷ "**/*.tfstate" ∷ "**/*.tfstate.*" ∷ "AGENTS.md" ∷ "**/AGENTS.md"
    ∷ "CLAUDE.md" ∷ "**/CLAUDE.md" ∷ ".codex" ∷ ".codex/**" ∷ "**/.codex" ∷ "**/.codex/**"
    ∷ ".claude" ∷ ".claude/**" ∷ "**/.claude" ∷ "**/.claude/**" ∷ ".agent-harness"
    ∷ ".agent-harness/**" ∷ "**/.agent-harness" ∷ "**/.agent-harness/**" ∷ ".agent-os"
    ∷ ".agent-os/**" ∷ "**/.agent-os" ∷ "**/.agent-os/**" ∷ []

abbrev pub default_write_prohibited_paths : List String
default_write_prohibited_paths =
    ".gitattributes" ∷ "**/.gitattributes" ∷ ".gitmodules" ∷ "**/.gitmodules" ∷ ".github"
    ∷ ".github/**" ∷ "**/.github" ∷ "**/.github/**" ∷ ".gitlab" ∷ ".gitlab/**" ∷ "**/.gitlab"
    ∷ "**/.gitlab/**" ∷ ".gitlab-ci.yml" ∷ "**/.gitlab-ci.yml" ∷ ".circleci" ∷ ".circleci/**"
    ∷ "**/.circleci" ∷ "**/.circleci/**" ∷ ".buildkite" ∷ ".buildkite/**" ∷ "**/.buildkite"
    ∷ "**/.buildkite/**" ∷ ".travis.yml" ∷ "**/.travis.yml" ∷ "azure-pipelines.yml"
    ∷ "**/azure-pipelines.yml" ∷ "bitbucket-pipelines.yml" ∷ "**/bitbucket-pipelines.yml"
    ∷ "Jenkinsfile" ∷ "Jenkinsfile.*" ∷ "**/Jenkinsfile" ∷ "**/Jenkinsfile.*" ∷ ".devcontainer"
    ∷ ".devcontainer/**" ∷ "**/.devcontainer" ∷ "**/.devcontainer/**" ∷ ".vscode" ∷ ".vscode/**"
    ∷ "**/.vscode" ∷ "**/.vscode/**" ∷ ".idea" ∷ ".idea/**" ∷ "**/.idea" ∷ "**/.idea/**"
    ∷ ".mcp.json" ∷ "**/.mcp.json" ∷ "mcp.json" ∷ "**/mcp.json" ∷ "Dockerfile" ∷ "Dockerfile.*"
    ∷ "**/Dockerfile" ∷ "**/Dockerfile.*" ∷ "docker-compose.yml" ∷ "docker-compose.yaml"
    ∷ "docker-compose.*.yml" ∷ "docker-compose.*.yaml" ∷ "**/docker-compose.yml"
    ∷ "**/docker-compose.yaml" ∷ "**/docker-compose.*.yml" ∷ "**/docker-compose.*.yaml"
    ∷ "compose.yml" ∷ "compose.yaml" ∷ "compose.*.yml" ∷ "compose.*.yaml" ∷ "**/compose.yml"
    ∷ "**/compose.yaml" ∷ "**/compose.*.yml" ∷ "**/compose.*.yaml" ∷ "package.json"
    ∷ "**/package.json" ∷ "package-lock.json" ∷ "**/package-lock.json" ∷ "pnpm-lock.yaml"
    ∷ "**/pnpm-lock.yaml" ∷ "pnpm-workspace.yaml" ∷ "yarn.lock" ∷ "**/yarn.lock" ∷ "bun.lock"
    ∷ "bun.lockb" ∷ "**/bun.lock" ∷ "**/bun.lockb" ∷ "pyproject.toml" ∷ "**/pyproject.toml"
    ∷ "requirements.txt" ∷ "requirements-*.txt" ∷ "**/requirements.txt" ∷ "**/requirements-*.txt"
    ∷ "Pipfile" ∷ "**/Pipfile" ∷ "Pipfile.lock" ∷ "**/Pipfile.lock" ∷ "poetry.lock"
    ∷ "**/poetry.lock" ∷ "uv.lock" ∷ "**/uv.lock" ∷ "Gemfile" ∷ "**/Gemfile" ∷ "Gemfile.lock"
    ∷ "**/Gemfile.lock" ∷ "go.mod" ∷ "**/go.mod" ∷ "go.sum" ∷ "**/go.sum" ∷ "Cargo.toml"
    ∷ "**/Cargo.toml" ∷ "Cargo.lock" ∷ "**/Cargo.lock" ∷ "composer.json" ∷ "**/composer.json"
    ∷ "composer.lock" ∷ "**/composer.lock" ∷ []
