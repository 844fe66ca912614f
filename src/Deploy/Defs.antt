-- ===== src/Deploy/Defs.antt =====
-- `verify_deployment`, as calls of AWS and Docker.
use text.Mathlib.Text.{starts_with}
use inventory_cloud_service.Base.{
  ℕ, String, ◌<>◌, Bool, false, not, ◌&&◌, ◌||◌, Option, none, some, List, [], ◌∷◌, ◌++◌, ◌==◌,
  nat_eq, string_eq, if◌then◌else◌, ltb, all,
}
use inventory_cloud_service.Base.Text.{strip, is_empty, occurs_in}
use inventory_cloud_service.Json.{contract, key_error, Result, ok, err}
use inventory_cloud_service.Exec.{
  Exec, pure, lift, ◌>>=◌, ◌>>◌, require, rethrow, Env, Command, History, Host,
}
use inventory_cloud_service.Image.{
  Report, is_image_id, is_registry_image, run_checked, loads, is_shape_error, with_directory,
  inspect_registry_contract,
}
use inventory_cloud_service.Deploy.Service.{Snapshot, read_service, baseline_image}

abbrev pub env_get : String → Env → Option String
env_get k [] = none
env_get k ((j, v) ∷ env) = if k == j then some v else env_get k env

-- `environment[k]`
abbrev pub env_item : String → Env → Result String
env_item k env = elim (env_get k env) [ none ↦ err key_error | some v ↦ ok v ]

-- `{**environment, k: v}`
abbrev pub env_set : String → String → Env → Env
env_set k v [] = (k, v) ∷ []
env_set k v ((j, w) ∷ env) = if k == j then (k, v) ∷ env else (j, w) ∷ env_set k v env

-- `environment.pop(k, None)`
abbrev pub env_pop : String → Env → Env
env_pop k [] = []
env_pop k ((j, w) ∷ env) = if k == j then env else (j, w) ∷ env_pop k env

-- `bool(environment.get(k))`
abbrev pub is_set : Env → String → Bool
is_set env k = elim (env_get k env) [ none ↦ false | some v ↦ not (is_empty v) ]

abbrev pub required_settings : List String
required_settings =
    "AWS_REGION" ∷ "ECS_CLUSTER" ∷ "ECS_SERVICE" ∷ "ECR_REPOSITORY" ∷ "IMAGE_DIGEST" ∷ []

abbrev pub aws_command : String → List String → Command
aws_command region arguments = record {
  args = "aws" ∷ (arguments ++ "--region" ∷ region ∷ "--no-cli-pager" ∷ []);
  environment = none;
  input = none;
  timeout = 60;
}

-- What stands before the first slash of the repository.
abbrev registry_of : String → String
registry_of String.[] = String.[]
registry_of (String.◌∷◌ c s) =
    let rest = registry_of s in
    if String.◌∷◌ c String.[] == "/" then String.[] else String.◌∷◌ c rest

-- What is known of the running service once it is found settled.
pub record Baseline : Type 0 where
  pub repository : String
  pub candidate : String
  pub service : Snapshot
  pub image : Option String

pub record Verified : Type 0 where
  pub candidate : Report
  pub previous_task : String
  pub previous_count : ℕ
  pub previous_running_count : ℕ
  pub previous_pending_count : ℕ
  pub previous_deployment_id : String
  pub rollback_baseline : Option Report
  pub bootstrap_without_running_baseline : Bool

-- `any(value > 0 for value in (previous_count, running_count, pending_count))`
abbrev pub is_live : Snapshot → Bool
is_live s = ltb 0 s.desired || ltb 0 s.running || ltb 0 s.pending

module _ (host : Host) where
  unfoldable pub aws : String → List String → Exec History String
  aws region arguments = run_checked host (aws_command region arguments)

  -- The image that the live task runs.
  unfoldable pub task_image : String → String → String → Exec History String
  task_image region repository task = do
    out ← aws region (
        "ecs" ∷ "describe-task-definition" ∷ "--task-definition" ∷ task ∷ "--query"
        ∷ "taskDefinition" ∷ "--output" ∷ "json" ∷ [])
    definition ← loads host out
    image ← lift (baseline_image definition)
    require (is_registry_image image && starts_with image (repository <> "@"))
        (contract "The live rollback baseline must use a digest from this application repository.")
    pure image

  unfoldable pub live_image : String → String → Snapshot → Exec History (Option String)
  live_image region repository s =
      if is_live s
      then (task_image region repository s.task >>= λ image. pure (some image))
      else pure none

  -- The `try` statement: the service and its rollback baseline.
  unfoldable pub service_and_image : Env → String → String → Exec History (Snapshot × Option String)
  service_and_image env region repository =
      rethrow is_shape_error "The current service and rollback baseline could not be determined."
        (do
          cluster ← lift (env_item "ECS_CLUSTER" env)
          name ← lift (env_item "ECS_SERVICE" env)
          out ← aws region (
              "ecs" ∷ "describe-services" ∷ "--cluster" ∷ cluster ∷ "--services" ∷ name ∷ "--output"
              ∷ "json" ∷ [])
          response ← loads host out
          service ← lift (read_service response)
          image ← live_image region repository service
          pure (service, image))

  -- All that `verify_deployment` does before it touches Docker.
  unfoldable pub find_baseline : Env → Exec History Baseline
  find_baseline env = do
    require (all (is_set env) required_settings)
        (contract "Deployment image verification requires the documented AWS/ECS/ECR settings.")
    region ← lift (env_item "AWS_REGION" env)
    digest ← lift (env_item "IMAGE_DIGEST" env)
    require (is_image_id digest) (contract "The requested image digest is invalid.")
    name ← lift (env_item "ECR_REPOSITORY" env)
    out ← aws region (
        "ecr" ∷ "describe-repositories" ∷ "--repository-names" ∷ name ∷ "--query"
        ∷ "repositories[0].repositoryUri" ∷ "--output" ∷ "text" ∷ [])
    let repository = strip out
    let candidate = repository <> "@" <> digest
    require
        (is_registry_image candidate
          && occurs_in (".ecr." <> region <> ".amazonaws.com/") candidate)
        (contract "ECR returned an unexpected repository or region.")
    found ← service_and_image env region repository
    pure (record {
      repository = repository;
      candidate = candidate;
      service = found.0;
      image = found.1;
    })

  -- The Docker host that the operator's context names, unless the environment does.
  unfoldable pub docker_host : Env → Env → Exec History Env
  docker_host environment env = if is_set env "DOCKER_HOST" then pure env else (do
    out ← run_checked host (record {
      args = "docker" ∷ "context" ∷ "inspect" ∷ "--format" ∷ "{{.Endpoints.docker.Host}}" ∷ [];
      environment = some environment;
      input = none;
      timeout = 120;
    })
    pure (env_set "DOCKER_HOST" (strip out) env))

  unfoldable pub inspect_baseline : Option String → Env → Exec History (Option Report)
  inspect_baseline none env = pure none
  inspect_baseline (some image) env = do
    report ← inspect_registry_contract host image env
    pure (some report)

  -- The body of the `with` statement.
  unfoldable pub inspect_images :
      Env → String → Baseline → String → Exec History (Report × Option Report)
  inspect_images environment region b temporary = do
    with_host ← docker_host environment (env_set "DOCKER_CONFIG" temporary environment)
    let docker_env = env_pop "DOCKER_CONTEXT" with_host
    password ← aws region ("ecr" ∷ "get-login-password" ∷ [])
    run_checked host (record {
      args =
          "docker"
          ∷ "login"
          ∷ "--username"
          ∷ "AWS"
          ∷ "--password-stdin"
          ∷ registry_of b.repository
          ∷ [];
      environment = some docker_env;
      input = some password;
      timeout = 120;
    })
    selected ← inspect_registry_contract host b.candidate docker_env
    baseline ← inspect_baseline b.image docker_env
    pure (selected, baseline)

  unfoldable pub verify_deployment : Env → Exec History Verified
  verify_deployment environment = do
    b ← find_baseline environment
    region ← lift (env_item "AWS_REGION" environment)
    reports ← with_directory host "inventory-registry-auth-" (inspect_images environment region b)
    pure (record {
      candidate = reports.0;
      previous_task = b.service.task;
      previous_count = b.service.desired;
      previous_running_count = b.service.running;
      previous_pending_count = b.service.pending;
      previous_deployment_id = b.service.deployment_id;
      rollback_baseline = reports.1;
      bootstrap_without_running_baseline = not (is_live b.service);
    })
