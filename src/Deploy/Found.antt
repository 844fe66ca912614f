-- ===== src/Deploy/Found.antt =====
-- What `find_baseline` has established when it returns, and by which answers of AWS.
use mathlib.Core.Path.{subst}
use text.Mathlib.Text.{starts_with}
use inventory_cloud_service.Base.{
  ◌≡◌, refl, sym, String, ◌<>◌, Bool, true, false, ◌&&◌, Option, none, some, [], ◌∷◌, all, both,
  if◌then◌else◌,
}
use inventory_cloud_service.Base.Int.{pos}
use inventory_cloud_service.Base.Text.{strip, occurs_in}
use inventory_cloud_service.Json.{Value, ok}
use inventory_cloud_service.Exec.{pure, ◌>>=◌, Env, Command, completed, ran, History, Host}
use inventory_cloud_service.Exec.Steps.{bind-eq-ok, lift-eq-ok, require-bind-eq-ok, rethrow-eq-ok}
use inventory_cloud_service.Image.{is_image_id, is_registry_image}
use inventory_cloud_service.Image.Runs.{returned, run-bind-eq-ok, loads-bind-eq-ok}
use inventory_cloud_service.Deploy.Service.{Snapshot, read_service, baseline_image}
use inventory_cloud_service.Deploy.Settled.{IsSettled, read_service-IsSettled}
use inventory_cloud_service.Deploy.Defs.{
  Baseline, required_settings, is_set, env_item, is_live, aws, aws_command, task_image, live_image,
  service_and_image, find_baseline,
}

abbrev pub repository_command : String → String → Command
repository_command region name = aws_command region (
    "ecr" ∷ "describe-repositories" ∷ "--repository-names" ∷ name ∷ "--query"
    ∷ "repositories[0].repositoryUri" ∷ "--output" ∷ "text" ∷ [])

abbrev pub services_command : String → String → String → Command
services_command region cluster name = aws_command region (
    "ecs" ∷ "describe-services" ∷ "--cluster" ∷ cluster ∷ "--services" ∷ name ∷ "--output" ∷ "json"
    ∷ [])

abbrev pub task_command : String → String → Command
task_command region task = aws_command region (
    "ecs" ∷ "describe-task-definition" ∷ "--task-definition" ∷ task ∷ "--query" ∷ "taskDefinition"
    ∷ "--output" ∷ "json" ∷ [])

module _ (host : Host) where
  -- AWS has answered the command at this point with a text that decodes to the value.
  pub record Told (point : History) (c : Command) (v : Value) : Type 0 where
    pub out : String
    pub answered : host.complete point c ≡ completed (pos 0) out
    pub decoded : host.loads out ≡ some v

  -- The image to roll back to: there is one exactly if the service has tasks; it is the image of the
  -- application container of the live task definition, and pinned by a digest in the repository.
  pub data RollsBack (point : History) (region repository task : String)
      : Bool → Option String → Type 0 where
    nothing_live : RollsBack point region repository task false none
    pinned :
        {image : String}
        → (definition : Value) → Told point (task_command region task) definition
        → baseline_image definition ≡ ok image
        → is_registry_image image ≡ true
        → starts_with image (repository <> "@") ≡ true
        → RollsBack point region repository task true (some image)

  -- What AWS and the settings have said of the baseline, from the point `h` on.
  pub record IsFound (h : History) (env : Env) (b : Baseline) : Type 0 where
    pub region : String
    pub digest : String
    pub name : String
    pub cluster : String
    pub service_name : String
    pub in_region : env_item "AWS_REGION" env ≡ ok region
    pub requested : env_item "IMAGE_DIGEST" env ≡ ok digest
    pub configured : env_item "ECR_REPOSITORY" env ≡ ok name
    pub in_cluster : env_item "ECS_CLUSTER" env ≡ ok cluster
    pub of_service : env_item "ECS_SERVICE" env ≡ ok service_name
    pub uri : String
    pub resolved : host.complete h (repository_command region name) ≡ completed (pos 0) uri
    pub repository : b.repository ≡ strip uri
    pub named : b.candidate ≡ b.repository <> "@" <> digest
    pub response : Value
    pub described :
        Told
          (ran (repository_command region name) ∷ h)
          (services_command region cluster service_name)
          response
    pub settled : IsSettled response b.service
    pub rolls_back :
        RollsBack
          (ran (services_command region cluster service_name)
            ∷ ran (repository_command region name)
            ∷ h)
          region
          b.repository
          b.service.task
          (is_live b.service)
          b.image

  some_image :
      (region repository task : String) (live : Bool) (h : History) {image : Option String}
      {u : History}
      → (if live
            then (task_image host region repository task >>= λ i. pure (some i))
            else pure none)
          h
        ≡ (ok image, u)
      → RollsBack h region repository task live image
  unfolding task_image aws
  some_image region repository task true h e =
      let (i, h₁, found, r) = bind-eq-ok (task_image host region repository task) _ h e in
      let (out, answered, r₁) = run-bind-eq-ok host (task_command region task) _ h found in
      let (definition, decoded, r₂) = loads-bind-eq-ok host out _ _ r₁ in
      let (image, read, r₃) = lift-eq-ok (baseline_image definition) _ _ r₂ in
      let (allowed, r₄) =
        require-bind-eq-ok (is_registry_image image && starts_with image (repository <> "@")) _ _ _
          r₃ in
      let (valid, own) =
        both (is_registry_image image) (starts_with image (repository <> "@")) allowed in
      let told : Told h (task_command region task) definition = record {
        out = out;
        answered = answered;
        decoded = decoded;
      } in
      subst (RollsBack h region repository task true) (sym (returned (some i) h₁ r)) (
        subst (λ j. RollsBack h region repository task true (some j)) (sym (returned image _ r₄))
          (pinned definition told read valid own))
  some_image region repository task false h e =
      subst (RollsBack h region repository task false) (sym (returned none h e)) nothing_live

  live_image-eq-ok :
      (region repository : String) (s : Snapshot) (h : History) {image : Option String}
      {u : History}
      → live_image host region repository s h ≡ (ok image, u)
      → RollsBack h region repository s.task (is_live s) image
  unfolding live_image
  live_image-eq-ok region repository s h e = some_image region repository s.task (is_live s) h e

  pub record IsServed (h : History) (env : Env) (region repository : String)
      (found : Snapshot × Option String) : Type 0 where
    pub cluster : String
    pub name : String
    pub in_cluster : env_item "ECS_CLUSTER" env ≡ ok cluster
    pub of_service : env_item "ECS_SERVICE" env ≡ ok name
    pub response : Value
    pub described : Told h (services_command region cluster name) response
    pub settled : IsSettled response found.0
    pub rolls_back :
        RollsBack
          (ran (services_command region cluster name) ∷ h)
          region
          repository
          found.0.task
          (is_live found.0)
          found.1

  service_and_image-eq-ok :
      (env : Env) (region repository : String) (h : History) {found : Snapshot × Option String}
      {u : History}
      → service_and_image host env region repository h ≡ (ok found, u)
      → IsServed h env region repository found
  unfolding service_and_image aws
  service_and_image-eq-ok env region repository h e =
      let tried = rethrow-eq-ok _ _ _ h e in
      let (cluster, cluster_e, r₁) = lift-eq-ok (env_item "ECS_CLUSTER" env) _ h tried in
      let (name, name_e, r₂) = lift-eq-ok (env_item "ECS_SERVICE" env) _ h r₁ in
      let (out, answered, r₃) = run-bind-eq-ok host (services_command region cluster name) _ h r₂ in
      let h₁ : History = ran (services_command region cluster name) ∷ h in
      let (response, decoded, r₄) = loads-bind-eq-ok host out _ h₁ r₃ in
      let (service, read, r₅) = lift-eq-ok (read_service response) _ h₁ r₄ in
      let (image, h₃, live, r₆) = bind-eq-ok (live_image host region repository service) _ h₁ r₅ in
      subst (IsServed h env region repository) (sym (returned (service, image) h₃ r₆)) (record {
        cluster = cluster;
        name = name;
        in_cluster = cluster_e;
        of_service = name_e;
        response = response;
        described = record { out = out; answered = answered; decoded = decoded };
        settled = read_service-IsSettled response service read;
        rolls_back = live_image-eq-ok region repository service h₁ live;
      })

  pub find_baseline-IsFound :
      (env : Env) (h : History) {b : Baseline} {u : History}
      → find_baseline host env h ≡ (ok b, u)
      → IsFound h env b
  unfolding find_baseline aws
  find_baseline-IsFound env h e =
      let (_, r₁) = require-bind-eq-ok (all (is_set env) required_settings) _ _ h e in
      let (region, region_e, r₂) = lift-eq-ok (env_item "AWS_REGION" env) _ h r₁ in
      let (digest, requested, r₃) = lift-eq-ok (env_item "IMAGE_DIGEST" env) _ h r₂ in
      let (_, r₄) = require-bind-eq-ok (is_image_id digest) _ _ h r₃ in
      let (name, name_e, r₅) = lift-eq-ok (env_item "ECR_REPOSITORY" env) _ h r₄ in
      let (out, answered, r₆) = run-bind-eq-ok host (repository_command region name) _ h r₅ in
      let h₁ : History = ran (repository_command region name) ∷ h in
      let repository = strip out in
      let (_, r₇) =
        require-bind-eq-ok
          (is_registry_image (repository <> "@" <> digest)
            && occurs_in (".ecr." <> region <> ".amazonaws.com/") (repository <> "@" <> digest))
          _ _ h₁ r₆ in
      let (found, h₂, found_e, r₈) =
        bind-eq-ok (service_and_image host env region repository) _ h₁ r₇ in
      let served = service_and_image-eq-ok env region repository h₁ found_e in
      subst (IsFound h env) (sym (returned _ h₂ r₈)) (record {
        region = region;
        digest = digest;
        name = name;
        cluster = served.cluster;
        service_name = served.name;
        in_region = region_e;
        requested = requested;
        configured = name_e;
        in_cluster = served.in_cluster;
        of_service = served.of_service;
        uri = out;
        resolved = answered;
        repository = refl;
        named = refl;
        response = served.response;
        described = served.described;
        settled = served.settled;
        rolls_back = served.rolls_back;
      })
