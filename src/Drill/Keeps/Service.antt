-- ===== src/Drill/Keeps/Service.antt =====
-- Starting, asking and stopping the service keeps a fixture sound.
use inventory_cloud_service.Base.{
  ◌≡◌, ℕ, zero, suc, String, Bool, true, Option, List, [], ◌∷◌, string_eq, arith,
}
use inventory_cloud_service.Base.Int.{ℤ}
use inventory_cloud_service.Json.{Value, Result, ok, err}
use inventory_cloud_service.Exec.Steps.{
  Steps-pure, Steps-raise, Steps-if, Steps-bind, Steps-attempt,
}
use inventory_cloud_service.Drill.World.{Host, Identity}
use inventory_cloud_service.Drill.Defs.{
  Message, request, expect, judge_health, poll_health, wait_health,
}
use inventory_cloud_service.Drill.Fixture.{is_own_name}
use inventory_cloud_service.Drill.Runtime.{
  login_command, stop_container, check_runtime_login, loopback_port, start_app,
}
use inventory_cloud_service.Drill.Sound.{is_proper}
use inventory_cloud_service.Drill.Keeps.Calls.{
  action_rules, Keeps, keeping, spawn-Keeps, sleep-Keeps, send-Keeps, monotonic-Keeps,
  docker_with-Keeps, owned-Keeps, owned_bind-Keeps, run_container-Keeps,
}

module _ (host : Host) (fixture : Identity) where
  pub stop-proper :
      (name : String)
      → is_own_name fixture name ≡ true
      → (tracked : List String)
      → is_proper fixture tracked ("docker" ∷ "container" ∷ "stop" ∷ "--time" ∷ "35" ∷ name ∷ [])
        ≡ true
  stop-proper name own tracked = rw own (ground arith)

  pub force-proper :
      (name : String)
      → is_own_name fixture name ≡ true
      → (tracked : List String)
      → is_proper fixture tracked ("docker" ∷ "container" ∷ "rm" ∷ "--force" ∷ name ∷ []) ≡ true
  force-proper name own tracked = rw own (ground arith)

  pub login-proper :
      (name : String)
      → is_own_name fixture name ≡ true
      → (tracked : List String) → is_proper fixture tracked (login_command host fixture name) ≡ true
  login-proper name own tracked = rw own (ground arith)

  pub stop_container-Keeps : (name : String) → Keeps host fixture (stop_container host fixture name)
  unfolding stop_container
  stop_container-Keeps name = owned_bind-Keeps host fixture "container" name _ λ _ own.
      search (action_rules, keeping, docker_with-Keeps, stop-proper name own, owned-Keeps) depth 40

  pub check_runtime_login-Keeps :
      (database password : String) (accepted : Bool)
      → Keeps host fixture (check_runtime_login host fixture database password accepted)
  unfolding check_runtime_login
  check_runtime_login-Keeps database password accepted =
      owned_bind-Keeps host fixture "container" database _
        λ _ own. search (action_rules, keeping, spawn-Keeps, login-proper database own) depth 40

  pub send_request-Keeps :
      (port : ℤ) (m : Message) (account : Option String) (timeout : ℕ)
      → Keeps host fixture (request host fixture port m account timeout)
  unfolding request
  send_request-Keeps port m account timeout = search (action_rules, keeping, send-Keeps) depth 40

  pub expect-Keeps :
      (port : ℤ) (m : Message) (account : String) (status : ℕ)
      → Keeps host fixture (expect host fixture port m account status)
  unfolding expect
  expect-Keeps port m account status = search (action_rules, keeping, send_request-Keeps) depth 40

  pub judge_health-Keeps :
      (port : ℤ) (expected : ℕ) (r : Result (ℕ × Value))
      → Keeps host fixture (judge_health host fixture port expected r)
  unfolding judge_health
  judge_health-Keeps port expected (ok (status, payload)) = search (action_rules, keeping) depth 40
  judge_health-Keeps port expected (err e) = search (action_rules, keeping) depth 40

  pub poll_health-Keeps :
      (port : ℤ) (fuel expected deadline : ℕ) (last : Option ℕ)
      → Keeps host fixture (poll_health host fixture port fuel expected deadline last)
  unfolding poll_health
  poll_health-Keeps port zero expected deadline last = Steps-raise (keeping host fixture) _
  poll_health-Keeps port (suc fuel) expected deadline last =
      Steps-bind (keeping host fixture) _ _ (monotonic-Keeps host fixture) λ now.
        Steps-if (keeping host fixture) _ _ _
          (Steps-bind (keeping host fixture) _ _
            (Steps-attempt (keeping host fixture) _ (send_request-Keeps port _ _ _))
            λ response.
              Steps-bind (keeping host fixture) _ _ (judge_health-Keeps port expected response)
                λ done.
                  Steps-if (keeping host fixture) _ _ _ (Steps-pure (keeping host fixture) tt) (
                    Steps-bind (keeping host fixture) _ _ (sleep-Keeps host fixture 250)
                      λ _. poll_health-Keeps port fuel expected deadline _))
          (Steps-raise (keeping host fixture) _)

  pub wait_health-Keeps :
      (port : ℤ) (expected seconds : ℕ)
      → Keeps host fixture (wait_health host fixture port expected seconds)
  unfolding wait_health
  wait_health-Keeps port expected seconds =
      search (action_rules, keeping, monotonic-Keeps, poll_health-Keeps) depth 40

  pub loopback_port-Keeps : (item : Value) → Keeps host fixture (loopback_port host fixture item)
  unfolding loopback_port
  loopback_port-Keeps item = search (action_rules, keeping) depth 60

  pub start_app-Keeps :
      (role database : String) → Keeps host fixture (start_app host fixture role database)
  unfolding start_app
  start_app-Keeps role database =
      search
        (
          action_rules, keeping, owned-Keeps, run_container-Keeps, loopback_port-Keeps,
          wait_health-Keeps,
        )
        depth 60
