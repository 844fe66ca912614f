-- ===== src/Drill/Runtime.antt =====
-- The methods of Fixture for the service itself, and `cleanup`.
use inventory_cloud_service.Base.{
  String, ◌<>◌, Bool, true, false, not, ◌&&◌, ◌||◌, none, some, List, [], ◌∷◌, ◌++◌, ◌==◌, nat_eq,
  string_eq, if◌then◌else◌, contains,
}
use mathlib.Core.List.{reverse}
use inventory_cloud_service.Base.Int.{ℤ, pos, int_eq}
use inventory_cloud_service.Base.Text.{codes, strip, splitlines}
use inventory_cloud_service.Json.{
  Value, null, bool, dict, end, field, Exc, runtime, value_error, os_error, timeout_expired, Result,
  ok, err, subscript, get, first, is_text,
}
use inventory_cloud_service.Exec.{Exec, pure, lift, ◌>>=◌, ◌>>◌, gets, attempt}
use inventory_cloud_service.Drill.World.{
  Bytes, Ending, unavailable, timed_out, exited, Host, Drill, Identity,
}
use inventory_cloud_service.Drill.Defs.{
  demand, to_integer, spawn, docker_with, docker, docker_text, wait_health,
}
use inventory_cloud_service.Drill.Fixture.{
  lookup, env_flags, hardening, database_url, run_container, owned,
}

abbrev starts : Bytes → Bytes → Bool
starts [] b = true
starts (p ∷ ps) [] = false
starts (p ∷ ps) (c ∷ b) = p == c && starts ps b

-- `part in whole` on bytes
abbrev pub within_bytes : Bytes → Bytes → Bool
within_bytes part [] = starts part []
within_bytes part (c ∷ b) = starts part (c ∷ b) || within_bytes part b

abbrev pub login_query : String
login_query =
    "SELECT current_user, NOT (rolsuper OR rolcreaterole OR rolcreatedb OR rolreplication OR rolbypassrls), NOT has_schema_privilege('public', 'CREATE'), NOT has_table_privilege('public.flyway_schema_history', 'SELECT'), NOT has_table_privilege('public.products', 'DELETE') FROM pg_roles WHERE rolname = current_user"

abbrev pub login_accepted : String
login_accepted = "inventory_app|t|t|t|t"

-- ASCII, so its characters are its bytes.
abbrev pub login_rejected : Bytes
login_rejected = codes "password authentication failed for user \"inventory_app\""

module _ (host : Host) (fixture : Identity) where
  unfoldable pub stop_container : String → Exec Drill (Unit {0})
  stop_container name = do
    owned host fixture "container" name
    docker_with host ("container" ∷ "stop" ∷ "--time" ∷ "35" ∷ name ∷ []) none [] 45
    item ← owned host fixture "container" name
    state ← lift (get item "State" (dict end))
    status ← lift (get state "Status" null)
    demand (is_text status "exited") "Disposable runtime did not stop"

  abbrev not_rejected : Exc
  not_rejected =
      runtime "Old runtime password was not specifically rejected by PostgreSQL authentication"

  abbrev not_restricted : Exc
  not_restricted = runtime "Fresh runtime login or restricted privilege checks failed"

  -- Whether the probe ended as it should; only a successful one has its output decoded.
  abbrev pub judge_login : Bool → Ending → Result (Unit {0})
  judge_login accepted unavailable = err os_error
  judge_login accepted timed_out = err timeout_expired
  judge_login true (exited code out errors) =
      if code == pos 0
      then elim (host.decode out) [
        | none ↦ err value_error
        | some text ↦ if strip text == login_accepted then ok tt else err not_restricted
      ]
      else err not_restricted
  judge_login false (exited code out errors) =
      if code == pos 2 && within_bytes login_rejected errors then ok tt else err not_rejected

  abbrev login_report : Bool → Value
  login_report accepted = dict (
      field "fresh_tcp_connection" (bool true) (
        field "accepted" (bool accepted) (
          field "runtime_permissions_checked" (bool accepted)
            (field "expected_authentication_rejection" (bool (not accepted)) end))))

  abbrev pub login_command : String → List String
  login_command database =
      "docker" ∷ "exec" ∷ "--env" ∷ "PGPASSWORD" ∷ "--env" ∷ "PGCONNECT_TIMEOUT=3" ∷ database
      ∷ "psql" ∷ "--host" ∷ database ∷ "--username" ∷ "inventory_app" ∷ "--dbname" ∷ "inventory"
      ∷ "--no-password" ∷ "--no-psqlrc" ∷ "--tuples-only" ∷ "--no-align" ∷ "--command" ∷ login_query
      ∷ []

  unfoldable pub check_runtime_login : String → String → Bool → Exec Drill Value
  check_runtime_login database password accepted = do
    owned host fixture "container" database
    ending ← spawn host (record {
      args = login_command database;
      extra_env = ("PGPASSWORD", password) ∷ [];
      input = none;
      timeout = 15;
    })
    lift (judge_login accepted ending)
    pure (login_report accepted)

  abbrev pub runtime_environment : String → String → List (String × String)
  runtime_environment database password =
      ("SPRING_PROFILES_ACTIVE", "local")
      ∷ ("DB_URL", database_url host fixture database)
      ∷ ("DB_USERNAME", "inventory_app")
      ∷ ("DB_PASSWORD", password)
      ∷ ("APP_AUTH_ADMIN_PASSWORD", fixture.admin_password)
      ∷ ("APP_AUTH_CUSTOMER_PASSWORD", fixture.customer_password)
      ∷ ("SPRING_FLYWAY_ENABLED", "false")
      ∷ []

  -- The port that `item["NetworkSettings"]["Ports"]["8080/tcp"][0]` binds.
  unfoldable pub loopback_port : Value → Exec Drill ℤ
  loopback_port item = do
    settings ← lift (subscript item "NetworkSettings")
    ports ← lift (subscript settings "Ports")
    bindings ← lift (subscript ports "8080/tcp")
    binding ← lift (first bindings)
    ip ← lift (subscript binding "HostIp")
    demand (is_text ip "127.0.0.1") "Disposable API must bind only to loopback"
    port ← lift (subscript binding "HostPort")
    lift (to_integer host.to_int port)

  unfoldable pub start_app : String → String → Exec Drill (String × ℤ)
  start_app role database = do
    owned host fixture "container" database
    prepared ← gets (λ s. contains database s.prepared_databases)
    demand prepared "Runtime startup requires a confirmed successful one-shot migration"
    passwords ← gets (λ s. s.runtime_passwords)
    password ← lift (lookup database passwords)
    let environment = runtime_environment database password
    name ←
        run_container host fixture role fixture.image
          ("--publish"
            ∷ "127.0.0.1::8080"
            ∷ (hardening host fixture "768m" ++ env_flags environment))
          environment
    item ← owned host fixture "container" name
    port ← loopback_port item
    wait_health host fixture port 200 90
    pure (name, port)

  -- The body of the `try` statement for one container.
  unfoldable pub remove_container : String → Exec Drill (Unit {0})
  remove_container name = do
    listing ←
        docker_text host
          ("container"
            ∷ "ls"
            ∷ "--all"
            ∷ "--filter"
            ∷ ("name=^/" <> name <> "$")
            ∷ "--format"
            ∷ "{{.Names}}"
            ∷ [])
          90
    if contains name (splitlines listing)
        then (do
          owned host fixture "container" name
          docker host ("container" ∷ "rm" ∷ "--force" ∷ name ∷ [])
          pure tt)
        else pure tt

  unfoldable pub remove_network : Exec Drill (Unit {0})
  remove_network = do
    listing ←
        docker_text host
          ("network"
            ∷ "ls"
            ∷ "--filter"
            ∷ ("name=^" <> fixture.network <> "$")
            ∷ "--format"
            ∷ "{{.Name}}"
            ∷ [])
          90
    if contains fixture.network (splitlines listing)
        then (do
          owned host fixture "network" fixture.network
          docker host ("network" ∷ "rm" ∷ fixture.network ∷ [])
          pure tt)
        else pure tt

  -- `except Exception as exc: errors.append(...)`
  abbrev pub errors_of : String → Result (Unit {0}) → List String
  errors_of name (ok _) = []
  errors_of name (err e) = (name <> ": " <> host.describe e) ∷ []

  unfoldable pub remove_containers : List String → Exec Drill (List String)
  remove_containers [] = pure []
  remove_containers (name ∷ names) = do
    removed ← attempt (remove_container name)
    rest ← remove_containers names
    pure (errors_of name removed ++ rest)

  unfoldable pub cleanup : Exec Drill (List String)
  cleanup = do
    containers ← gets (λ s. s.containers)
    errors ← remove_containers (reverse containers)
    created ← gets (λ s. s.network_created)
    if created
        then (do
          removed ← attempt remove_network
          pure (errors ++ errors_of fixture.network removed))
        else pure errors
