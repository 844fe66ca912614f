-- ===== src/Drill/Recovery.antt =====
-- `run_drill` and `main` of scripts/recovery-drill.py.
use inventory_cloud_service.Base.{
  ℕ, String, ◌<>◌, true, none, some, [], ◌∷◌, ◌==◌, nat_eq, string_eq, if◌then◌else◌, length,
}
use inventory_cloud_service.Base.Int.{ℤ, pos, int_eq}
use inventory_cloud_service.Base.Text.{first_characters}
use inventory_cloud_service.Json.{
  Value, str, list, dict, end, field, runtime, subscript, is_text, is_number, equals,
}
use inventory_cloud_service.Exec.{Exec, pure, raise, lift, ◌>>=◌, ◌>>◌, gets, finally}
use inventory_cloud_service.Drill.World.{Bytes, Host, Drill, Identity}
use inventory_cloud_service.Drill.Defs.{
  demand, docker_with, docker, monotonic, get_path, post, request, expect, wait_health,
}
use inventory_cloud_service.Drill.Fixture.{
  lookup, owned, create_network, start_database, migrate_database,
}
use inventory_cloud_service.Drill.Runtime.{check_runtime_login, start_app}
use inventory_cloud_service.Drill.Session.{
  note, note_in, count, concat, reservations_path, texts, Outcome, attempt_run, main_with,
}

-- What the drill has learned of the source before the backup.
pub record Seeded : Type 0 where
  pub product_path : String
  pub reservation_path : String
  pub product : Value
  pub reservation : Value
  pub body : Value
  pub key : String

module _ (host : Host) (fixture : Identity) where
  -- The purchase on the source: lines 302 to 316.
  unfoldable pub seed : ℤ → Exec Drill Seeded
  seed source = do
    product ←
        expect host fixture source
          (post "/api/v1/products"
            (dict (
              field "sku" (str ("RESTORE-" <> host.upper (first_characters 12 fixture.run_id))) (
                field "name" (str "Disposable restore drill")
                  (field "initialQuantity" (count 37) end))))
            none)
          "admin" 201
    product_id ← lift (subscript product "id")
    let body = dict (field "productId" product_id (field "quantity" (count 7) end))
    let key = "restore-" <> fixture.run_id
    reservation ← expect host fixture source (post reservations_path body (some key)) "customer" 201
    product_path ← lift (concat "/api/v1/products/" product_id)
    reservation_id ← lift (subscript reservation "id")
    reservation_path ← lift (concat "/api/v1/reservations/" reservation_id)
    expected_product ← expect host fixture source (get_path product_path) "customer" 200
    available ← lift (subscript expected_product "availableQuantity")
    demand (is_number available (pos 30)) "Source stock after reservation must be 30"
    expected_reservation ← expect host fixture source (get_path reservation_path) "customer" 200
    status ← lift (subscript expected_reservation "status")
    demand (is_text status "ACTIVE") "Seeded reservation must be active"
    pure (record {
      product_path = product_path;
      reservation_path = reservation_path;
      product = expected_product;
      reservation = expected_reservation;
      body = body;
      key = key;
    })

  -- The checks on the restored service: lines 337 to 354.
  unfoldable pub check_restored : ℤ → ℤ → Seeded → Exec Drill (Unit {0})
  check_restored source restored seeded = do
    product ← expect host fixture restored (get_path seeded.product_path) "customer" 200
    demand (equals product seeded.product) "Restored product does not match source fields"
    reservation ← expect host fixture restored (get_path seeded.reservation_path) "customer" 200
    demand (equals reservation seeded.reservation)
        "Restored reservation does not match source fields"
    replayed ←
        expect host fixture restored (post reservations_path seeded.body (some seeded.key))
          "customer" 200
    demand (equals replayed seeded.reservation)
        "Restored idempotency key did not replay the existing reservation"
    cancelled ←
        expect host fixture restored (post (seeded.reservation_path <> "/cancel") (dict end) none)
          "customer" 200
    status ← lift (subscript cancelled "status")
    demand (is_text status "CANCELLED") "Restored reservation cancellation failed"
    again ←
        expect host fixture restored (post (seeded.reservation_path <> "/cancel") (dict end) none)
          "customer" 200
    demand (equals again cancelled) "Repeated cancellation changed restored reservation"
    late ←
        expect host fixture restored (post reservations_path seeded.body (some seeded.key))
          "customer" 200
    demand (equals late cancelled) "Replaying the restored cancelled reservation created new work"
    final ← expect host fixture restored (get_path seeded.product_path) "customer" 200
    available ← lift (subscript final "availableQuantity")
    demand (is_number available (pos 37)) "Restored stock was not replenished exactly once"
    untouched ← expect host fixture source (get_path seeded.product_path) "customer" 200
    demand (equals untouched seeded.product) "Restored application changed the source database"

  unfoldable pub judge_liveness : ℕ × Value → Exec Drill (Unit {0})
  judge_liveness (status, payload) =
      if status == 200
      then (do
        word ← lift (subscript payload "status")
        demand (is_text word "UP") "Database outage must not fail liveness")
      else raise (runtime "Database outage must not fail liveness")

  -- The body of the `try` statement during the outage.
  unfoldable pub watch_outage : ℤ → ℕ → Exec Drill (Value × Value)
  watch_outage restored started = do
    wait_health host fixture restored 503 30
    now ← monotonic host
    liveness ← request host fixture restored (get_path "/actuator/health/liveness") none 10
    judge_liveness liveness
    pure (host.seconds started now, count liveness.0)

  -- Its `finally` part.
  unfoldable pub unpause : String → Exec Drill (Unit {0})
  unpause database = do
    owned host fixture "container" database
    docker host ("container" ∷ "unpause" ∷ database ∷ [])
    pure tt

  -- The outage of the restored database: lines 361 to 379.
  unfoldable pub outage : String → ℤ → Seeded → Exec Drill (Unit {0})
  outage database restored seeded = do
    owned host fixture "container" database
    started ← monotonic host
    docker host ("container" ∷ "pause" ∷ database ∷ [])
    seen ← finally (watch_outage restored started) (unpause database)
    resumed ← monotonic host
    wait_health host fixture restored 200 60
    now ← monotonic host
    note "database_outage" (
        dict (
          field "simulation" (str "pause/unpause only the restored disposable PostgreSQL container")
            (field "readiness_status_during_outage" (count 503) (
              field "liveness_status_during_outage" seen.1 (
                field "unavailable_detection_seconds" seen.0
                  (field "readiness_recovery_seconds" (host.seconds resumed now) end))))))
    final ← expect host fixture restored (get_path seeded.product_path) "customer" 200
    available ← lift (subscript final "availableQuantity")
    demand (is_number available (pos 37))
        "Business data inaccessible after database outage recovery"
    note_in "database_outage" "business_read_after_recovery" (str "passed")

  -- A database with the schema of the release and a service on it.
  unfoldable pub serve : String → String → String → String → Exec Drill ℤ
  serve database migrate_role login_key app_role = do
    migrate_database host fixture migrate_role database none
    passwords ← gets (λ s. s.runtime_passwords)
    password ← lift (lookup database passwords)
    login ← check_runtime_login host fixture database password true
    note login_key login
    app ← start_app host fixture app_role database
    pure app.1

  unfoldable pub take_backup : String → Exec Drill Bytes
  take_backup database = do
    started ← monotonic host
    owned host fixture "container" database
    backup ← docker host (
        "exec" ∷ database ∷ "pg_dump" ∷ "--username" ∷ "inventory" ∷ "--dbname" ∷ "inventory"
        ∷ "--format" ∷ "custom" ∷ "--no-owner" ∷ "--no-privileges" ∷ [])
    now ← monotonic host
    note "backup" (
        dict (
          field "format" (str "PostgreSQL custom") (
            field "bytes" (count (length backup)) (
              field "sha256" (str (host.sha256 backup)) (
                field "duration_seconds" (host.seconds started now)
                  (field "storage" (str "process memory; never saved or uploaded") end))))))
    pure backup

  unfoldable pub restore : String → Bytes → Exec Drill (Unit {0})
  restore database backup = do
    started ← monotonic host
    owned host fixture "container" database
    docker_with host
        ("exec" ∷ "--interactive" ∷ database ∷ "pg_restore" ∷ "--username" ∷ "inventory"
          ∷ "--dbname" ∷ "inventory" ∷ "--exit-on-error" ∷ "--no-owner" ∷ "--no-privileges" ∷ [])
        (some backup) [] 90
    now ← monotonic host
    note "restore" (
        dict (
          field "database_restore_seconds" (host.seconds started now)
            (field "destination" (str "separate fresh disposable database") end)))

  abbrev restore_checks : Value
  restore_checks = list (
      texts (
        "all product fields match" ∷ "all active reservation fields match"
        ∷ "idempotency key survives restore and cancellation" ∷ "cancellation succeeds"
        ∷ "repeat cancellation is idempotent" ∷ "stock restored exactly once"
        ∷ "source remains unchanged" ∷ []))

  unfoldable pub run_drill : Exec Drill (Unit {0})
  run_drill = do
    create_network host fixture
    database ← start_database host fixture "source-db"
    source ← serve database "source-migrate" "source_runtime_login" "source-app"
    seeded ← seed source
    backup ← take_backup database
    restored_database ← start_database host fixture "restored-db"
    restore restored_database backup
    migrate_database host fixture "restored-migrate" restored_database none
    passwords ← gets (λ s. s.runtime_passwords)
    password ← lift (lookup restored_database passwords)
    login ← check_runtime_login host fixture restored_database password true
    note "restored_runtime_login" login
    started ← monotonic host
    app ← start_app host fixture "restored-app" restored_database
    now ← monotonic host
    note_in "restore" "application_ready_seconds" (host.seconds started now)
    check_restored source app.1 seeded
    note_in "restore" "checks" restore_checks
    outage restored_database app.1 seeded

module _ (host : Host) where
  -- The body of the `try` statement, once there is a fixture.
  unfoldable pub attempt_drill : Identity → Exec Drill (Unit {0})
  attempt_drill fixture = attempt_run host (run_drill host) fixture

  unfoldable pub main : String → String → Exec Drill Outcome
  main image database_image = main_with host (run_drill host) image database_image
