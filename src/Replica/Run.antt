-- ===== src/Replica/Run.antt =====
-- The parts of `run_drill` of scripts/replica-drill.py up to the stop of a replica.
use inventory_cloud_service.Base.{
  ℕ, String, ◌<>◌, true, false, not, none, some, List, [], ◌∷◌, ◌==◌, nat_eq,
}
use inventory_cloud_service.Base.Int.{ℤ, pos, int_eq}
use inventory_cloud_service.Json.{
  Value, bool, int, str, list, dict, nil, cons, end, field, subscript, is_text, is_number, equals,
}
use inventory_cloud_service.Exec.{Exec, pure, lift, ◌>>=◌, ◌>>◌, gets}
use inventory_cloud_service.Drill.{
  Host, Drill, Identity, demand, Message, post, request, lookup, create_network, start_database,
  migrate_database, check_runtime_login, note, note_in, count, concat, reservations_path,
}
use inventory_cloud_service.Replica.Batch.{Threads, concurrent_batch}
use inventory_cloud_service.Replica.Samples.{require_same_reservation, require_stock_conflicts}
use inventory_cloud_service.Replica.Summary.{summarize_batch}
use inventory_cloud_service.Replica.Fixture.{Replicas, start_replica, inspect_replica}
use inventory_cloud_service.Replica.Defs.{verify_stock, create_product, purchase}

-- The two replicas of a run, by name and by port.
pub record Launched : Type 0 where
  pub replicas : Replicas
  pub first_name : String
  pub first : ℤ
  pub second : ℤ

abbrev pub apis_of : Launched → List ℤ
apis_of launched = launched.first ∷ launched.second ∷ []

-- The product, the purchase that eight requests made with one key, and its reservation.
pub record Bought : Type 0 where
  pub product : Value
  pub order : Message
  pub reservation : Value

module _ (host : Host) (threads : Threads) (fixture : Identity) where
  unfoldable pub launch : Exec Drill Launched
  launch = do
    create_network host fixture
    database ← start_database host fixture "replica-db"
    migrate_database host fixture "replica-migrate" database none
    passwords ← gets (λ s. s.runtime_passwords)
    password ← lift (lookup database passwords)
    login ← check_runtime_login host fixture database password true
    note "runtime_login" login
    a ← start_replica host fixture "replica-a" database []
    b ← start_replica host fixture "replica-b" database a.1.1
    let replicas = b.1.1
    first ← inspect_replica host fixture replicas a.0 true
    second ← inspect_replica host fixture replicas b.0 true
    first_id ← lift (subscript first "Id")
    second_id ← lift (subscript second "Id")
    demand (not (equals first_id second_id))
        "Verification requires two separate application containers and API addresses"
    demand (not (a.1.0 == b.1.0))
        "Verification requires two separate application containers and API addresses"
    note "topology" (
        dict (
          field "replicas" (count 2) (
            field "distinct_container_ids" (list (cons first_id (cons second_id nil))) (
              field "shared_database" (bool true) (
                field "direct_loopback_api_ports" (list (cons (int a.1.0) (cons (int b.1.0) nil))) (
                  field "routing"
                    (str "client alternates requests directly between containers; no load balancer")
                    end))))))
    pure (record { replicas = replicas; first_name = a.0; first = a.1.0; second = b.1.0 })

  -- The same request of the customer to either replica.
  abbrev pub same_request : Message → ℤ → ℕ → Exec Drill (ℕ × Value)
  same_request m api index = request host fixture api m (some "customer") 12

  unfoldable pub create_with_one_key : Launched → Exec Drill Bought
  create_with_one_key launched = do
    product ←
        create_product host fixture launched.first "REPLICAS-" "Disposable shared retry test" 20
    id ← lift (subscript product "id")
    let order =
        post reservations_path (purchase id 5) (some ("replica-same-key-" <> fixture.run_id))
    samples ← concurrent_batch host threads (apis_of launched) (same_request order) 8
    summary ← lift (summarize_batch host samples)
    note "same_key_creation" summary
    reservation ← lift (require_same_reservation samples ((201, 1) ∷ (200, 7) ∷ []) none)
    quantity ← lift (subscript reservation "quantity")
    demand (is_number quantity (pos 5)) "Created reservation fields are wrong"
    status ← lift (subscript reservation "status")
    demand (is_text status "ACTIVE") "Created reservation fields are wrong"
    verify_stock host fixture (apis_of launched) product 15
    note_in "same_key_creation" "distinct_reservations" (count 1)
    note_in "same_key_creation" "available_stock" (count 15)
    pure (record { product = product; order = order; reservation = reservation })

  -- Each request buys two units under a key of its own.
  unfoldable pub contend_request : Value → ℤ → ℕ → Exec Drill (ℕ × Value)
  contend_request contended api index = do
    id ← lift (subscript contended "id")
    request host fixture api
        (post reservations_path (purchase id 2)
          (some ("replica-stock-" <> fixture.run_id <> "-" <> host.display (pos index))))
        (some "customer") 12

  -- The product contended for, and the reservations made of it.
  unfoldable pub contend : Launched → Exec Drill (Value × List Value)
  contend launched = do
    contended ←
        create_product host fixture launched.second "CONTEND-" "Disposable cross-replica stock test"
          7
    samples ← concurrent_batch host threads (apis_of launched) (contend_request contended) 8
    summary ← lift (summarize_batch host samples)
    note "stock_contention" summary
    created ← lift (require_stock_conflicts samples 3)
    verify_stock host fixture (apis_of launched) contended 1
    note_in "stock_contention" "initial_stock" (count 7)
    note_in "stock_contention" "units_per_attempt" (count 2)
    note_in "stock_contention" "reserved_units" (count 6)
    note_in "stock_contention" "available_stock" (count 1)
    note_in "stock_contention" "overselling" (bool false)
    pure (contended, created)

  -- Eight cancellations of one reservation at once; the entry of the report, and the message.
  unfoldable pub cancel_at_once :
      List ℤ → (ℤ → ℕ → Exec Drill (ℕ × Value)) → Value → String → String → Exec Drill Value
  cancel_at_once apis operation reservation section message = do
    samples ← concurrent_batch host threads apis operation 8
    summary ← lift (summarize_batch host samples)
    note section summary
    cancelled ← lift (require_same_reservation samples ((200, 8) ∷ []) none)
    status ← lift (subscript cancelled "status")
    demand (is_text status "CANCELLED") message
    cancelled_id ← lift (subscript cancelled "id")
    id ← lift (subscript reservation "id")
    demand (equals cancelled_id id) message
    pure cancelled

  unfoldable pub cancel_path : Value → Exec Drill String
  cancel_path reservation = do
    id ← lift (subscript reservation "id")
    path ← lift (concat "/api/v1/reservations/" id)
    pure (path <> "/cancel")

  unfoldable pub cancel_first : Launched → Bought → Exec Drill Value
  cancel_first launched bought = do
    path ← cancel_path bought.reservation
    cancelled ←
        cancel_at_once (apis_of launched) (same_request (post path (dict end) none))
          bought.reservation "concurrent_cancellation"
          "Concurrent cancellation changed the reservation identity or did not cancel it"
    verify_stock host fixture (apis_of launched) bought.product 20
    note_in "concurrent_cancellation" "restored_units" (count 5)
    note_in "concurrent_cancellation" "available_stock" (count 20)
    pure cancelled
