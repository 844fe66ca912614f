-- ===== src/Drill/Keeps/Databases.antt =====
-- Starting and migrating a database keeps a fixture sound.
use inventory_cloud_service.Base.{
  ◌≡◌, refl, ℕ, zero, suc, String, true, false, Option, List, [], ◌∷◌, ◌||◌, ◌==◌, string_eq, arith,
}
use inventory_cloud_service.Base.Int.{ℤ}
use inventory_cloud_service.Json.{Value}
use inventory_cloud_service.Exec.{modify}
use inventory_cloud_service.Exec.Steps.{Steps-pure, Steps-raise, Steps-lift, Steps-if, Steps-bind}
use inventory_cloud_service.Drill.World.{MigrationRun, Host, Drill, Identity}
use inventory_cloud_service.Drill.Fixture.{
  is_own_name, poll_database, wait_database, start_database, judge_migration, migrate_database,
}
use inventory_cloud_service.Drill.Sound.{is_proper, IsSound, prepare-IsSound, discard-IsSound}
use inventory_cloud_service.Drill.Keeps.Calls.{
  action_rules, pg_isready, Keeps, keeping, spawn-Keeps, sleep-Keeps, monotonic-Keeps,
  docker_text-Keeps, owned-Keeps, owned_bind-Keeps, run_container-Keeps, exec-proper,
}

module _ (host : Host) (fixture : Identity) where
  pub poll_database-Keeps :
      (fuel : ℕ) (name : String) (deadline : ℕ)
      → is_own_name fixture name ≡ true
      → Keeps host fixture (poll_database host fixture fuel name deadline)
  unfolding poll_database
  poll_database-Keeps zero name deadline own = search (action_rules, keeping)
  poll_database-Keeps (suc fuel) name deadline own =
      Steps-bind (keeping host fixture) _ _ (monotonic-Keeps host fixture) λ now.
        Steps-if (keeping host fixture) _ _ _
          (Steps-bind (keeping host fixture) _ _
            (spawn-Keeps host fixture _ (exec-proper host fixture name pg_isready own))
            λ ending.
              Steps-bind (keeping host fixture) _ _ (Steps-lift (keeping host fixture) _) λ code.
                Steps-if (keeping host fixture) _ _ _ (Steps-pure (keeping host fixture) tt) (
                  Steps-bind (keeping host fixture) _ _ (sleep-Keeps host fixture 300)
                    λ _. poll_database-Keeps fuel name deadline own))
          (Steps-raise (keeping host fixture) _)

  pub wait_database-Keeps : (name : String) → Keeps host fixture (wait_database host fixture name)
  unfolding wait_database
  wait_database-Keeps name =
      owned_bind-Keeps host fixture "container" name _
        λ _ own. search (action_rules, keeping, monotonic-Keeps, poll_database-Keeps) depth 60

  pub start_database-Keeps : (role : String) → Keeps host fixture (start_database host fixture role)
  unfolding start_database
  start_database-Keeps role =
      search (action_rules, keeping, run_container-Keeps, wait_database-Keeps) depth 60

  pub judge_migration-Keeps :
      (code : ℤ) (state : Value) → Keeps host fixture (judge_migration host fixture code state)
  unfolding judge_migration
  judge_migration-Keeps code state = search (action_rules, keeping) depth 60

  pub modify-Keeps :
      (f : Drill → Drill)
      → ((s : Drill) → IsSound fixture s → IsSound fixture (f s))
      → Keeps host fixture (modify f)
  unfolding modify
  modify-Keeps f p = record { at = p }

  pub act-proper :
      (verb action name : String)
      → is_own_name fixture name ≡ true
      → (verb == "run" || verb == "image") ≡ false
      → (tracked : List String)
      → is_proper fixture tracked ("docker" ∷ verb ∷ action ∷ name ∷ []) ≡ true
  act-proper verb action name own act tracked = rw own (ground arith)

  pub log-IsSound :
      (runs : Drill → List MigrationRun) (s : Drill)
      → IsSound fixture s
      → IsSound fixture (record s { migration_runs = runs s })
  log-IsSound runs s h = record {
    named = h.named;
    unique = h.unique;
    passwords = h.passwords;
    proper = h.proper;
  }

  pub migrate_database-Keeps :
      (role database : String) (password : Option String)
      → Keeps host fixture (migrate_database host fixture role database password)
  unfolding migrate_database
  migrate_database-Keeps role database password =
      owned_bind-Keeps host fixture "container" database _ λ _ own.
        Steps-bind (keeping host fixture) _ _
          (modify-Keeps _ (λ s h. discard-IsSound fixture h database))
          λ _. Steps-bind (keeping host fixture) _ _ (monotonic-Keeps host fixture) λ started.
            Steps-bind (keeping host fixture) _ _
              (run_container-Keeps host fixture role fixture.image _ _)
              λ name. (owned_bind-Keeps host fixture) "container" name _ λ _ named.
                search
                  (
                    action_rules,
                    keeping,
                    owned-Keeps,
                    monotonic-Keeps,
                    docker_text-Keeps,
                    act-proper "container" "wait" name named refl,
                    judge_migration-Keeps,
                    modify-Keeps,
                    log-IsSound,
                    prepare-IsSound,
                  )
                  depth 60
