-- ===== src/Drill/Metadata.antt =====
-- `Fixture.metadata`, what a report says of its environment.
use inventory_cloud_service.Base.{ℕ, ◌*◌, false, List, [], ◌∷◌}
use inventory_cloud_service.Base.Int.{pos}
use inventory_cloud_service.Json.{
  Value, null, bool, int, str, list, dict, Items, nil, cons, end, field, Result, ok, ◌>>=◌, get,
}
use inventory_cloud_service.Drill.World.{MigrationRun, Identity}

abbrev run_value : MigrationRun → Value
run_value r = dict (
    field "role" (str r.role)
      (field "exit_code" (int r.exit_code) (field "duration_seconds" r.duration_seconds end)))

abbrev run_values : List MigrationRun → Items
run_values [] = nil
run_values (r ∷ rs) = cons (run_value r) (run_values rs)

abbrev mebibytes : ℕ → Value
mebibytes n = int (pos (n * 1024 * 1024))

-- The dict shares the list `migration_runs` with the fixture.
unfoldable pub metadata : Identity → List MigrationRun → Result Value
metadata fixture runs = do
  server ← get fixture.environment "ServerVersion" null
  system ← get fixture.environment "OperatingSystem" null
  architecture ← get fixture.environment "Architecture" null
  cpus ← get fixture.environment "NCPU" null
  memory ← get fixture.environment "MemTotal" null
  ok (
      dict (
        field "run_id" (str fixture.run_id) (
          field "application_image_id" (str fixture.image) (
            field "postgres_image_id" (str fixture.database_image) (
              field "docker_server_version" server (
                field "docker_os" system (
                  field "docker_architecture" architecture (
                    field "docker_cpus" cpus (
                      field "docker_memory_bytes" memory (
                        field "application_limits"
                          (dict
                            (field "cpus" (int (pos 1)) (field "memory_bytes" (mebibytes 768) end)))
                          (field "database_limits"
                            (dict (
                              field "cpus" (int (pos 1)) (
                                field "memory_bytes" (mebibytes 384)
                                  (field "storage" (str "disposable tmpfs") end))))
                            (field "authentication"
                              (str "local HTTP Basic with generated per-run credentials")
                              (field "database_runtime_user" (str "inventory_app") (
                                field "schema_preparation"
                                  (str
                                    "real one-shot migrate profile using separate owner credentials")
                                  (field "runtime_flyway_enabled" (bool false) (
                                    field "database_host_authentication" (str "scram-sha-256") (
                                      field "migration_runs" (list (run_values runs)) (
                                        field "jdbc_timeout_override_seconds"
                                          (dict (
                                            field "socketTimeout" (int (pos 5))
                                              (field "connectTimeout" (int (pos 3)) end)))
                                          (field "scope"
                                            (str
                                              "disposable local Docker containers; existing Compose application untouched")
                                            end)))))))))))))))))))
