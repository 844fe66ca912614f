-- ===== src/Rotation/Defs.antt =====
-- `run_rotation` and `main` of scripts/credential-rotation-drill.py.
use inventory_cloud_service.Base.{
  String, ◌<>◌, true, false, not, none, some, List, [], ◌∷◌, ◌==◌, string_eq,
}
use inventory_cloud_service.Base.Int.{ℤ, pos}
use inventory_cloud_service.Base.Text.{first_characters}
use inventory_cloud_service.Json.{
  bool, str, list, dict, end, field, subscript, is_text, is_number, equals,
}
use inventory_cloud_service.Exec.{Exec, pure, lift, ◌>>=◌, ◌>>◌, gets}
use inventory_cloud_service.Drill.{
  Host, Drill, Identity, demand, monotonic, get_path, post, expect, lookup, new_token,
  create_network, start_database, migrate_database, stop_container, check_runtime_login, start_app,
  note, note_in, count, concat, reservations_path, texts, Outcome, main_with, Seeded,
}

-- The database and its first password, the old runtime and what was bought through it.
pub record Before : Type 0 where
  pub database : String
  pub old_password : String
  pub old_container : String
  pub seeded : Seeded

module _ (host : Host) (fixture : Identity) where
  -- The purchase through the original service: lines 21 to 35.
  unfoldable pub seed_rotation : ℤ → Exec Drill Seeded
  seed_rotation original = do
    product ←
        expect host fixture original
          (post "/api/v1/products"
            (dict (
              field "sku" (str ("ROTATE-" <> host.upper (first_characters 12 fixture.run_id))) (
                field "name" (str "Disposable credential rotation")
                  (field "initialQuantity" (count 23) end))))
            none)
          "admin" 201
    product_id ← lift (subscript product "id")
    let body = dict (field "productId" product_id (field "quantity" (count 6) end))
    let key = "rotate-" <> fixture.run_id
    reservation ←
        expect host fixture original (post reservations_path body (some key)) "customer" 201
    product_path ← lift (concat "/api/v1/products/" product_id)
    reservation_id ← lift (subscript reservation "id")
    reservation_path ← lift (concat "/api/v1/reservations/" reservation_id)
    expected_product ← expect host fixture original (get_path product_path) "customer" 200
    expected_reservation ← expect host fixture original (get_path reservation_path) "customer" 200
    available ← lift (subscript expected_product "availableQuantity")
    demand (is_number available (pos 17)) "Rotation seed data is incorrect"
    status ← lift (subscript expected_reservation "status")
    demand (is_text status "ACTIVE") "Rotation seed data is incorrect"
    pure (record {
      product_path = product_path;
      reservation_path = reservation_path;
      product = expected_product;
      reservation = expected_reservation;
      body = body;
      key = key;
    })

  -- The password of the runtime user is replaced: lines 43 to 47.
  unfoldable pub rotate : String → String → Exec Drill (Unit {0})
  rotate database old_password = do
    new_password ← new_token host
    demand (not (new_password == old_password))
        "New runtime credential must differ from old credential"
    migrate_database host fixture "rotation-migrate" database (some new_password)
    old_probe ← check_runtime_login host fixture database old_password false
    note "old_password_probe" old_probe
    new_probe ← check_runtime_login host fixture database new_password true
    note "new_password_probe" new_probe

  -- The checks on the replacement: lines 50 to 65.
  unfoldable pub check_replacement : ℤ → Seeded → Exec Drill (Unit {0})
  check_replacement replacement seeded = do
    product ← expect host fixture replacement (get_path seeded.product_path) "customer" 200
    demand (equals product seeded.product) "Product changed during password rotation"
    reservation ← expect host fixture replacement (get_path seeded.reservation_path) "customer" 200
    demand (equals reservation seeded.reservation) "Reservation changed during password rotation"
    replayed ←
        expect host fixture replacement (post reservations_path seeded.body (some seeded.key))
          "customer" 200
    demand (equals replayed seeded.reservation)
        "Idempotency key did not survive runtime replacement"
    cancelled ←
        expect host fixture replacement
          (post (seeded.reservation_path <> "/cancel") (dict end) none) "customer" 200
    status ← lift (subscript cancelled "status")
    demand (is_text status "CANCELLED") "Cancellation failed after password rotation"
    again ←
        expect host fixture replacement
          (post (seeded.reservation_path <> "/cancel") (dict end) none) "customer" 200
    demand (equals again cancelled) "Repeated cancellation changed the reservation after rotation"
    late ←
        expect host fixture replacement (post reservations_path seeded.body (some seeded.key))
          "customer" 200
    demand (equals late cancelled)
        "Replaying the cancelled reservation created new work after rotation"
    final ← expect host fixture replacement (get_path seeded.product_path) "customer" 200
    available ← lift (subscript final "availableQuantity")
    demand (is_number available (pos 23))
        "Cancellation did not restore stock exactly once after rotation"

  abbrev business_checks : List String
  business_checks =
      "product fields preserved" ∷ "active reservation fields preserved"
      ∷ "idempotency key survives runtime replacement and cancellation"
      ∷ "replacement runtime accepts authenticated requests" ∷ "cancellation succeeds"
      ∷ "repeat cancellation is idempotent" ∷ "stock restored exactly once" ∷ []

  abbrev limits : List String
  limits =
      "local Docker and generated per-run environment credentials"
      ∷ "maintenance interval required; not zero downtime"
      ∷ "no AWS Secrets Manager or RDS rotation demonstrated"
      ∷ "old existing database sessions are not used to test password invalidation" ∷ []

  unfoldable pub prepare_rotation : Exec Drill Before
  prepare_rotation = do
    create_network host fixture
    database ← start_database host fixture "rotation-db"
    migrate_database host fixture "initial-migrate" database none
    passwords ← gets (λ s. s.runtime_passwords)
    old_password ← lift (lookup database passwords)
    login ← check_runtime_login host fixture database old_password true
    note "initial_runtime_login" login
    old ← start_app host fixture "old-runtime" database
    seeded ← seed_rotation old.1
    pure (record {
      database = database;
      old_password = old_password;
      old_container = old.0;
      seeded = seeded;
    })

  unfoldable pub run_rotation : Exec Drill (Unit {0})
  run_rotation = do
    before ← prepare_rotation
    started ← monotonic host
    stop_container host fixture before.old_container
    note "maintenance" (
        dict (
          field "old_runtime_stopped" (bool true) (
            field "strategy" (str "stop old runtime, rotate with migration task, replace runtime")
              end)))
    rotate before.database before.old_password
    replacement ← start_app host fixture "replacement-runtime" before.database
    now ← monotonic host
    note_in "maintenance" "stop_through_replacement_ready_seconds" (host.seconds started now)
    check_replacement replacement.1 before.seeded
    note "business_checks" (list (texts business_checks))
    note "limits" (list (texts limits))

module _ (host : Host) where
  unfoldable pub main : String → String → Exec Drill Outcome
  main image database_image = main_with host (run_rotation host) image database_image
