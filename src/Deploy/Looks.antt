-- ===== src/Deploy/Looks.antt =====
-- What `verify_deployment` does before it knows the service to be settled.
use inventory_cloud_service.Base.{
  ◌≡◌, refl, String, Bool, true, false, ◌||◌, ◌&&◌, List, ◌∷◌, ◌⊎◌, inl, inr, ◌==◌, string_eq,
  Option, none, some,
}
use inventory_cloud_service.Json.{Exc, Result, ok, err}
use inventory_cloud_service.Exec.{Exec, Env, Event, ran, History, Host}
use inventory_cloud_service.Exec.Steps.{
  Steps, Steps-pure, Steps-raise, Steps-lift, Steps-require, Steps-if, Steps-bind, Steps-rethrow,
  bind-follows, bind-eq-err,
}
use inventory_cloud_service.Image.{run_checked, loads, with_directory}
use inventory_cloud_service.Image.Commands.{
  Extends, same, more, Extends-trans, Extends-preorder, inspect_registry-Passive,
}
use inventory_cloud_service.Deploy.Service.{Snapshot}
use inventory_cloud_service.Deploy.Found.{IsFound, find_baseline-IsFound}
use inventory_cloud_service.Deploy.Gate.{
  Precedes, Passive-any, Goes, run_checked-Goes, docker_host-Goes,
}
use inventory_cloud_service.Deploy.Defs.{
  Baseline, aws_command, aws, task_image, live_image, service_and_image, find_baseline,
  inspect_baseline, inspect_images, verify_deployment,
}

-- An AWS command that only describes.
abbrev pub describes : List String → Bool
describes (program ∷ service ∷ verb ∷ args) =
    program == "aws"
    && (verb == "describe-repositories"
        || verb == "describe-services"
        || verb == "describe-task-definition")
describes _ = false

abbrev pub IsLookup : Event → Type 0
IsLookup (ran c) = describes c.args ≡ true
IsLookup _ = ⊥

ruleset quiet_rules = (
  Steps-pure, Steps-raise, Steps-lift, Steps-require, Steps-if, Steps-bind, Steps-rethrow,
  Extends-preorder,
)

module _ (host : Host) where
  abbrev IsQuiet : {A : Type 0} → Exec History A → Type 0
  IsQuiet = Steps (Extends IsLookup)

  aws-IsQuiet :
      (region : String) (arguments : List String)
      → describes (aws_command region arguments).args ≡ true
      → IsQuiet (aws host region arguments)
  unfolding aws run_checked
  aws-IsQuiet region arguments p = record { at = λ h. more same p }

  loads-IsQuiet : (s : String) → IsQuiet (loads host s)
  unfolding loads
  loads-IsQuiet s = record { at = λ h. same }

  task_image-IsQuiet :
      (region repository task : String) → IsQuiet (task_image host region repository task)
  unfolding task_image
  task_image-IsQuiet region repository task =
      search (quiet_rules, aws-IsQuiet, loads-IsQuiet) depth 40

  live_image-IsQuiet :
      (region repository : String) (s : Snapshot) → IsQuiet (live_image host region repository s)
  unfolding live_image
  live_image-IsQuiet region repository s = search (quiet_rules, task_image-IsQuiet) depth 40

  service_and_image-IsQuiet :
      (env : Env) (region repository : String)
      → IsQuiet (service_and_image host env region repository)
  unfolding service_and_image
  service_and_image-IsQuiet env region repository =
      search (quiet_rules, aws-IsQuiet, loads-IsQuiet, live_image-IsQuiet) depth 40

  find_baseline-IsQuiet : (env : Env) → IsQuiet (find_baseline host env)
  unfolding find_baseline
  find_baseline-IsQuiet env = search (quiet_rules, aws-IsQuiet, service_and_image-IsQuiet) depth 40

  inspect_baseline-Goes :
      (image : Option String) (env : Env) → Goes (inspect_baseline host image env)
  unfolding inspect_baseline
  inspect_baseline-Goes none env = Steps-pure Extends-preorder none
  inspect_baseline-Goes (some image) env =
      Steps-bind Extends-preorder _ _
        (record { at = λ h. Passive-any ((inspect_registry-Passive host image env).at h) })
        λ report. Steps-pure Extends-preorder (some report)

  inspect_images-Goes :
      (environment : Env) (region : String) (b : Baseline) (temporary : String)
      → Goes (inspect_images host environment region b temporary)
  unfolding inspect_images aws
  inspect_images-Goes environment region b temporary =
      Steps-bind Extends-preorder _ _ (docker_host-Goes host environment _) λ env.
        Steps-bind Extends-preorder _ _ (run_checked-Goes host _) λ password.
          Steps-bind Extends-preorder _ _ (run_checked-Goes host _) λ _.
            Steps-bind Extends-preorder _ _
              (record {
                at = λ h. Passive-any ((inspect_registry-Passive host b.candidate _).at h);
              })
              λ selected.
                Steps-bind Extends-preorder _ _ (inspect_baseline-Goes b.image _)
                  λ baseline. Steps-pure Extends-preorder (selected, baseline)

  with_directory-Goes :
      {A : Type 0} (prefix : String) (body : String → Exec History A)
      → ((path : String) → Goes (body path))
      → Goes (with_directory host prefix body)
  unfolding with_directory
  with_directory-Goes prefix body p = record {
    at = λ h. more (Extends-trans (more same tt) ((p (host.directory h prefix)).at _)) tt;
  }

  verify_from :
      (env : Env) (h : History) (r : Result Baseline) (u : History)
      → find_baseline host env h ≡ (r, u)
      → ((x : Exc) × (verify_deployment host env h ≡ (err x, u)))
        ⊎ ((b : Baseline) × (find_baseline host env h ≡ (ok b, u))
            × IsFound host h env b
            × Precedes u (verify_deployment host env h).1)
  unfolding verify_deployment
  verify_from env h (ok b) u e = inr (
    b,
    e,
    find_baseline-IsFound host env h e,
    bind-follows (find_baseline host env) _ h e (
        Steps-bind Extends-preorder _ _ (Steps-lift Extends-preorder _) λ region.
          Steps-bind Extends-preorder _ _
            (with_directory-Goes _ _ (inspect_images-Goes env region b))
            λ reports. Steps-pure Extends-preorder _),
  )
  verify_from env h (err x) u e = inl (x, bind-eq-err (find_baseline host env) _ h e)

  -- Up to a point of its run the gate only asks AWS to describe the repository, the service and its
  -- task definition. Either it raises there, having done nothing else, or its run goes on from there,
  -- and by then AWS has answered that the service is settled, and with the image to roll back to.
  pub verify_deployment-looks_first :
      (env : Env) (h : History)
      → (u : History) × Extends IsLookup h u
        × (((x : Exc) × (verify_deployment host env h ≡ (err x, u)))
            ⊎ ((b : Baseline) × (find_baseline host env h ≡ (ok b, u))
                × IsFound host h env b
                × Precedes u (verify_deployment host env h).1))
  verify_deployment-looks_first env h =
      let (r, u) = find_baseline host env h in
      (u, (find_baseline-IsQuiet env).at h, verify_from env h r u refl)
