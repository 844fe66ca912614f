-- ===== src/Drill/Fixture/Databases.antt =====
-- The methods of Fixture for the databases: starting one, waiting for it, and migrating it.
use inventory_cloud_service.Base.{
  ℕ, zero, suc, ◌+◌, String, ◌<>◌, Option, none, some, List, [], ◌∷◌, ◌++◌, ◌==◌, nat_eq, string_eq,
  if◌then◌else◌, ltb,
}
use inventory_cloud_service.Base.Int.{ℤ, pos, int_eq}
use inventory_cloud_service.Base.Text.{strip}
use inventory_cloud_service.Json.{
  Value, null, dict, end, str, runtime, os_error, timeout_expired, out_of_fuel, Result, ok, err,
  present, get, is_text, is_number,
}
use inventory_cloud_service.Exec.{Exec, pure, raise, lift, ◌>>=◌, ◌>>◌, modify}
use inventory_cloud_service.Drill.World.{
  Ending, unavailable, timed_out, exited, Host, Drill, Identity,
}
use inventory_cloud_service.Drill.Defs.{demand, spawn, docker_text, sleep, monotonic}
use inventory_cloud_service.Drill.Fixture.Make.{insert, discard, env_flags}
use inventory_cloud_service.Drill.Fixture.Containers.{owned, run_container}

module _ (host : Host) (fixture : Identity) where
  abbrev pub exit_code_of : Ending → Result ℤ
  exit_code_of unavailable = err os_error
  exit_code_of timed_out = err timeout_expired
  exit_code_of (exited code out errors) = ok code

  -- The loop of `wait_database`; times in milliseconds.
  unfoldable pub poll_database : ℕ → String → ℕ → Exec Drill (Unit {0})
  poll_database zero name deadline = raise out_of_fuel
  poll_database (suc fuel) name deadline = do
    now ← monotonic host
    if ltb now deadline
        then (do
          ending ← spawn host (record {
            args =
                "docker" ∷ "exec" ∷ name ∷ "pg_isready" ∷ "-h" ∷ "127.0.0.1" ∷ "-U" ∷ "inventory"
                ∷ "-d" ∷ "inventory" ∷ [];
            extra_env = [];
            input = none;
            timeout = 10;
          })
          code ← lift (exit_code_of ending)
          if code == pos 0
              then pure tt
              else (sleep host 300 >>= λ _. poll_database fuel name deadline))
        else raise (runtime "Disposable PostgreSQL did not become ready")

  -- 45 seconds hold 150 rounds, each with a pause of 300 milliseconds, and the last look at the clock.
  unfoldable pub wait_database : String → Exec Drill (Unit {0})
  wait_database name = do
    owned host fixture "container" name
    now ← monotonic host
    poll_database 151 name (now + 45000)

  abbrev pub database_environment : List (String × String)
  database_environment =
      ("POSTGRES_DB", "inventory")
      ∷ ("POSTGRES_USER", "inventory")
      ∷ ("POSTGRES_PASSWORD", fixture.db_password)
      ∷ ("POSTGRES_INITDB_ARGS", "--auth-host=scram-sha-256 --auth-local=trust")
      ∷ []

  unfoldable pub start_database : String → Exec Drill String
  start_database role = do
    name ←
        run_container host fixture role fixture.database_image
          ("--tmpfs"
            ∷ "/var/lib/postgresql/data:rw,size=256m,mode=0700"
            ∷ "--memory"
            ∷ "384m"
            ∷ "--cpus"
            ∷ "1"
            ∷ env_flags database_environment)
          database_environment
    wait_database name
    pure name

  abbrev pub hardening : String → List String
  hardening memory =
      "--read-only" ∷ "--tmpfs" ∷ "/tmp:rw,size=128m,mode=1777" ∷ "--cap-drop" ∷ "ALL"
      ∷ "--security-opt" ∷ "no-new-privileges:true" ∷ "--memory" ∷ memory ∷ "--cpus" ∷ "1" ∷ []

  abbrev pub database_url : String → String
  database_url database =
      "jdbc:postgresql://" <> database <> ":5432/inventory?socketTimeout=5&connectTimeout=3"

  abbrev pub migration_environment : String → String → List (String × String)
  migration_environment database password =
      ("SPRING_PROFILES_ACTIVE", "migrate")
      ∷ ("DB_URL", database_url database)
      ∷ ("DB_USERNAME", "inventory")
      ∷ ("DB_PASSWORD", fixture.db_password)
      ∷ ("DB_APP_PASSWORD", password)
      ∷ []

  abbrev or_initial : Option String → String
  or_initial none = fixture.initial_runtime_password
  or_initial (some password) = password

  abbrev migration_failed : ℤ → String
  migration_failed code =
      "Disposable migration task failed (exit code "
      <> host.display code
      <> "); runtime startup blocked"

  -- What has to hold of a migration that is over; the container is not looked at after a failure.
  unfoldable pub judge_migration : ℤ → Value → Exec Drill (Unit {0})
  judge_migration code state =
      if code == pos 0
      then (do
        status ← lift (get state "Status" null)
        demand (is_text status "exited") (migration_failed code)
        exit_code ← lift (get state "ExitCode" null)
        demand (is_number exit_code (pos 0)) (migration_failed code))
      else raise (runtime (migration_failed code))

  unfoldable pub migrate_database : String → String → Option String → Exec Drill String
  migrate_database role database runtime_password = do
    owned host fixture "container" database
    modify (λ s. record s { prepared_databases = discard database s.prepared_databases })
    let password = or_initial runtime_password
    let environment = migration_environment database password
    started ← monotonic host
    name ←
        run_container host fixture role fixture.image
          ("--no-healthcheck" ∷ (hardening "512m" ++ env_flags environment)) environment
    owned host fixture "container" name
    out ← docker_text host ("container" ∷ "wait" ∷ name ∷ []) 90
    let code_text = strip out
    demand (host.is_digits code_text) "Migration job did not return a numeric exit status"
    code ← lift (present (host.to_int (str code_text)))
    item ← owned host fixture "container" name
    state ← lift (get item "State" (dict end))
    now ← monotonic host
    modify (λ s. record s {
      migration_runs =
          s.migration_runs
          ++ record { role = role; exit_code = code; duration_seconds = host.seconds started now }
            ∷ [];
    })
    judge_migration code state
    modify (λ s. record s {
      runtime_passwords = insert database password s.runtime_passwords;
      prepared_databases = database ∷ s.prepared_databases;
    })
    pure name
