-- ===== src/Replica/Restart.antt =====
-- The restart of a replica in `run_drill` of scripts/replica-drill.py, what follows it, and `main`.
use inventory_cloud_service.Base.{
  ℕ, String, ◌<>◌, true, false, not, none, some, List, [], ◌∷◌, ◌==◌, nat_eq, length,
}
use inventory_cloud_service.Base.Int.{ℤ, pos, int_eq}
use inventory_cloud_service.Json.{
  Value, bool, list, dict, nil, cons, end, field, iterate, subscript, is_text, is_number, equals,
}
use inventory_cloud_service.Exec.{Exec, pure, lift, ◌>>=◌, ◌>>◌}
use inventory_cloud_service.Drill.{
  Host, Drill, Identity, demand, monotonic, Message, get_path, post, expect, wait_health, note,
  count, concat, reservations_path, texts, Outcome, main_with,
}
use inventory_cloud_service.Replica.Batch.{Threads, concurrent_batch}
use inventory_cloud_service.Replica.Samples.{require_same_reservation}
use inventory_cloud_service.Replica.Summary.{summarize_batch}
use inventory_cloud_service.Replica.Fixture.{stop_replica, inspect_replica, restart_replica}
use inventory_cloud_service.Replica.Defs.{verify_stock, purchase, keyed, same_records}
use inventory_cloud_service.Replica.Run.{
  Launched, apis_of, Bought, launch, same_request, create_with_one_key, contend, cancel_at_once,
  cancel_path, cancel_first,
}

-- The purchases around the stop, and the replicas after it.
pub record Restarted : Type 0 where
  pub active_order : Message
  pub active : Value
  pub survivor_order : Message
  pub survivor : Value
  pub first : ℤ
  pub second : ℤ

abbrev pub apis_after : Restarted → List ℤ
apis_after r = r.first ∷ r.second ∷ []

module _ (host : Host) (fixture : Identity) where
  -- A purchase that both the product's id and the key name.
  unfoldable pub order_of : Value → ℕ → String → Exec Drill Message
  order_of product quantity key = do
    id ← lift (subscript product "id")
    pure (post reservations_path (purchase id quantity) (some (key <> fixture.run_id)))

  unfoldable pub replays : ℤ → Message → Value → String → Exec Drill (Unit {0})
  replays api order expected message = do
    v ← expect host fixture api order "customer" 200
    demand (equals v expected) message

  -- What the other replica does while the first is stopped: the new purchase, and its answer.
  unfoldable pub survive : ℤ → Bought → Value → Message → Value → Exec Drill (Message × Value)
  survive second bought cancelled active_order active = do
    wait_health host fixture second 200 10
    replays second bought.order cancelled
        "Surviving replica forgot the cancelled reservation's retry key"
    replays second active_order active "Surviving replica forgot the active reservation's retry key"
    survivor_order ← order_of bought.product 1 "replica-survivor-"
    survivor ← expect host fixture second survivor_order "customer" 201
    id ← lift (subscript bought.product "id")
    path ← lift (concat "/api/v1/products/" id)
    product ← expect host fixture second (get_path path) "customer" 200
    stock ← lift (subscript product "availableQuantity")
    demand (is_number stock (pos 15))
        "Surviving replica did not accept and retain a new reservation"
    pure (survivor_order, survivor)

  unfoldable pub restart : Launched → Bought → Value → Exec Drill Restarted
  restart launched bought cancelled = do
    active_order ← order_of bought.product 4 "replica-active-"
    active ← expect host fixture launched.first active_order "customer" 201
    verify_stock host fixture (apis_of launched) bought.product 16
    started ← monotonic host
    stop_replica host fixture launched.replicas launched.first_name
    stopped ← monotonic host
    survivor ← survive launched.second bought cancelled active_order active
    item ← inspect_replica host fixture launched.replicas launched.first_name false
    state ← lift (subscript item "State")
    status ← lift (subscript state "Status")
    demand (is_text status "exited")
        "Other replica was not stopped during the surviving-replica checks"
    restarted_at ← monotonic host
    first ← restart_replica host fixture launched.replicas launched.first_name
    now ← monotonic host
    note "restart" (
        dict (
          field "stopped_replica" (count 0) (
            field "stop_seconds" (host.seconds started stopped) (
              field "restart_to_ready_seconds" (host.seconds restarted_at now) (
                field "other_replica_ready_while_stopped" (bool true) (
                  field "write_while_other_replica_stopped" (bool true) (
                    field "original_image_and_container_preserved" (bool true) (
                      field "loopback_port_changed" (bool (not (first == launched.first)))
                        end))))))))
    pure (record {
      active_order = active_order;
      active = active;
      survivor_order = survivor.0;
      survivor = survivor.1;
      first = first;
      second = launched.second;
    })

  unfoldable pub replay_kept : List ℤ → Bought → Value → Restarted → Exec Drill (Unit {0})
  replay_kept [] bought cancelled r = pure tt
  replay_kept (api ∷ apis) bought cancelled r = do
    replays api bought.order cancelled "Cancelled retry key changed after restart"
    replays api r.survivor_order r.survivor "Write made during restart did not replay consistently"
    replay_kept apis bought cancelled r

  -- The body of the last loop.
  unfoldable pub check_page : ℤ → Message → Value → List (Value × Value) → Exec Drill (Unit {0})
  check_page api order cancelled expected = do
    replays api order cancelled "Replayed key did not preserve cancellation after restart"
    page ← expect host fixture api (get_path "/api/v1/reservations?size=100") "customer" 200
    total ← lift (subscript page "totalElements")
    demand (is_number total (pos 6))
        "Final API reservation records do not match the exact expected committed records"
    listed ← lift (subscript page "items")
    items ← lift (iterate listed)
    records ← lift (keyed items)
    demand (same_records records expected)
        "Final API reservation records do not match the exact expected committed records"

  unfoldable pub check_records :
      List ℤ → Message → Value → List (Value × Value) → Exec Drill (Unit {0})
  check_records [] order cancelled expected = pure tt
  check_records (api ∷ apis) order cancelled expected = do
    check_page api order cancelled expected
    check_records apis order cancelled expected

abbrev final_invariants : Value
final_invariants = dict (
    field "reservation_records" (count 6) (
      field "active_reservations" (count 4) (
        field "cancelled_reservations" (count 2) (
          field "product_stock" (list (cons (count 19) (cons (count 1) nil))) (
            field "all_record_fields_match_on_both_replicas" (bool true) (
              field "no_extra_reservations_from_retries" (bool true)
                (field "cancellations_restore_stock_once" (bool true) end)))))))

abbrev replica_checks : List String
replica_checks =
    "same-key creation across replicas creates exactly one record"
    ∷ "competing replicas cannot oversell shared stock"
    ∷ "concurrent cancellation restores stock once"
    ∷ "surviving replica replays keys and accepts writes while peer is stopped"
    ∷ "restarted replica retains active and cancelled retry behavior"
    ∷ "both replicas return exact final records and stock" ∷ []

module _ (host : Host) (threads : Threads) (fixture : Identity) where
  -- Here each worker makes the path itself.
  unfoldable pub cancel_request : Value → ℤ → ℕ → Exec Drill (ℕ × Value)
  cancel_request reservation api index = do
    path ← cancel_path host threads fixture reservation
    same_request host threads fixture (post path (dict end) none) api index

  -- From the restart to the cancellation of the active reservation.
  unfoldable pub retry : Bought → Value → Value → Restarted → Exec Drill Value
  retry bought contended cancelled r = do
    verify_stock host fixture (apis_after r) bought.product 15
    replay_kept host fixture (apis_after r) bought cancelled r
    samples ←
        concurrent_batch host threads (apis_after r)
          (same_request host threads fixture r.active_order) 8
    summary ← lift (summarize_batch host samples)
    note "retries_after_restart" summary
    lift (require_same_reservation samples ((200, 8) ∷ []) (some r.active))
    verify_stock host fixture (apis_after r) bought.product 15
    cancelled_active ←
        cancel_at_once host threads fixture (apis_after r) (cancel_request r.active) r.active
          "cancellation_after_restart" "Cancellation after restart returned the wrong reservation"
    verify_stock host fixture (apis_after r) bought.product 19
    verify_stock host fixture (apis_after r) contended 1
    pure cancelled_active

  unfoldable pub check_final : Restarted → Value → Value → List Value → Exec Drill (Unit {0})
  check_final r cancelled cancelled_active created = do
    expected ← lift (keyed (cancelled ∷ cancelled_active ∷ r.survivor ∷ created))
    demand (length expected == 6) "Fixture should retain exactly six distinct reservations"
    check_records host fixture (apis_after r) r.active_order cancelled_active expected
    note "final_invariants" final_invariants
    note "checks" (list (texts replica_checks))

  unfoldable pub run_drill : Exec Drill (Unit {0})
  run_drill = do
    launched ← launch host threads fixture
    bought ← create_with_one_key host threads fixture launched
    contended ← contend host threads fixture launched
    cancelled ← cancel_first host threads fixture launched bought
    restarted ← restart host fixture launched bought cancelled
    cancelled_active ← retry bought contended.0 cancelled restarted
    check_final restarted cancelled cancelled_active contended.1

module _ (host : Host) (threads : Threads) where
  unfoldable pub main : String → String → Exec Drill Outcome
  main image database_image = main_with host (run_drill host threads) image database_image
