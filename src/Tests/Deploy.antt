-- ===== src/Tests/Deploy.antt =====
-- A deployment of a service that is settled, with AWS and Docker answering as they should.
use inventory_cloud_service.Base.{
  ◌≡◌, refl, ◌⊎◌, ℕ, String, false, Option, some, List, [], ◌∷◌, ◌==◌, string_eq, if◌then◌else◌,
}
use inventory_cloud_service.Base.Int.{pos}
use inventory_cloud_service.Base.Text.{strip}
use inventory_cloud_service.Json.{
  Value, int, str, list, dict, nil, cons, end, field, Fields, Exc, Result, ok, err,
}
use inventory_cloud_service.Exec.{completed, History, Host, Env}
use inventory_cloud_service.Deploy.{
  Snapshot, Baseline, Verified, check_deployment, only_deployment, settled, active_service,
  read_active, read_service, baseline_image, is_task_definition, is_word, aws, task_image,
  live_image, service_and_image, find_baseline, docker_host, inspect_baseline, inspect_images,
  verify_deployment,
}
use inventory_cloud_service.Deploy.Settled.{IsSettled, read_service-IsSettled}
use inventory_cloud_service.Deploy.Found.{IsFound}
use inventory_cloud_service.Deploy.Gate.{Precedes, IsApproved, verify_deployment-IsApproved}
use inventory_cloud_service.Deploy.Looks.{IsLookup, verify_deployment-looks_first}
use inventory_cloud_service.Image.Commands.{Extends}
use inventory_cloud_service.Tests.Image.{
  digest, reference, docker, report, docker_answer, read_json, registry_trial,
}

abbrev task : String
task = "arn:aws:ecs:eu-west-1:123456789012:task-definition/inventory:7"

abbrev count : String → ℕ → Fields → Fields
count k n fs = field k (int (pos n)) fs

abbrev one_deployment : Value
one_deployment = dict (
    field "id" (str "ecs-svc/1") (
      field "status" (str "PRIMARY") (
        field "taskDefinition" (str task) (
          field "rolloutState" (str "COMPLETED")
            (count "desiredCount" 2 (count "runningCount" 2 (count "pendingCount" 0 end)))))))

abbrev services_json : Value
services_json = dict (
    field "failures" (list nil) (
      field "services"
        (list (
          cons
            (dict (
              field "status" (str "ACTIVE") (
                field "taskDefinition" (str task) (
                  field "deployments" (list (cons one_deployment nil)) (
                    count "desiredCount" 2
                      (count "runningCount" 2 (count "pendingCount" 0 end)))))))
            nil))
        end))

abbrev definition_json : Value
definition_json = dict (
    field "containerDefinitions"
      (list (cons (dict (field "name" (str "inventory") (field "image" (str reference) end))) nil))
      end)

abbrev cloud_answer : List String → String
cloud_answer (program ∷ service ∷ verb ∷ rest) =
    if program == "docker"
    then docker_answer (program ∷ service ∷ verb ∷ rest)
    else if verb == "describe-repositories"
    then "123456789012.dkr.ecr.eu-west-1.amazonaws.com/inventory\n"
    else verb
cloud_answer _ = ""

abbrev read_cloud : String → Option Value
read_cloud s =
    if s == "describe-services"
    then some services_json
    else if s == "describe-task-definition"
    then some definition_json
    else read_json s

abbrev cloud : Host
cloud = record {
  complete = λ h c. completed (pos 0) (cloud_answer c.args);
  fresh_hex = docker.fresh_hex;
  directory = docker.directory;
  file = docker.file;
  environ = [];
  loads = read_cloud;
  loads_pairs = docker.loads_pairs;
  display = docker.display;
  sha256 = docker.sha256;
}

abbrev settings : Env
settings =
    ("AWS_REGION", "eu-west-1")
    ∷ ("ECS_CLUSTER", "shop")
    ∷ ("ECS_SERVICE", "inventory")
    ∷ ("ECR_REPOSITORY", "inventory")
    ∷ ("IMAGE_DIGEST", digest)
    ∷ ("DOCKER_CONTEXT", "desktop")
    ∷ []

abbrev snapshot : Snapshot
snapshot = record {
  desired = 2;
  running = 2;
  pending = 0;
  task = task;
  deployment_id = "ecs-svc/1";
}

abbrev verified : Verified
verified = record {
  candidate = report (some reference);
  previous_task = task;
  previous_count = 2;
  previous_running_count = 2;
  previous_pending_count = 0;
  previous_deployment_id = "ecs-svc/1";
  rollback_baseline = some (report (some reference));
  bootstrap_without_running_baseline = false;
}

service_trial : Result Snapshot
unfolding read_service active_service read_active settled only_deployment check_deployment
    is_task_definition is_word
service_trial = read_service services_json

gate_trial : Result Verified × History
unfolding verify_deployment find_baseline service_and_image live_image task_image aws inspect_images
    docker_host inspect_baseline baseline_image strip registry_trial service_trial
gate_trial = verify_deployment cloud settings []

gate_run : gate_trial.0 ≡ ok verified
unfolding gate_trial
gate_run = refl

read_service-IsSettled_example : IsSettled services_json snapshot
unfolding service_trial
read_service-IsSettled_example = read_service-IsSettled services_json snapshot refl

verify_deployment-IsApproved_example :
    IsApproved cloud [] (verify_deployment cloud settings []).1 settings verified
unfolding gate_trial
verify_deployment-IsApproved_example =
    verify_deployment-IsApproved cloud settings [] {v = verified}
      {u = (verify_deployment cloud settings []).1} refl

verify_deployment-looks_first_example :
    (u : History) × Extends IsLookup [] u
    × (((x : Exc) × (verify_deployment cloud settings [] ≡ (err x, u)))
        ⊎ ((b : Baseline) × (find_baseline cloud settings [] ≡ (ok b, u))
            × IsFound cloud [] settings b
            × Precedes u (verify_deployment cloud settings []).1))
verify_deployment-looks_first_example = verify_deployment-looks_first cloud settings []
