-- ===== src/Replica/Sound.antt =====
-- A whole run of `main` of scripts/replica-drill.py keeps its fixture sound, whatever turns its threads
-- take.
use inventory_cloud_service.Base.{◌≡◌, ℕ, String, true, List, [], ◌∷◌, ◌⊎◌}
use inventory_cloud_service.Base.Int.{ℤ}
use inventory_cloud_service.Json.{Value, Exc, ok, err}
use inventory_cloud_service.Exec.{Exec}
use inventory_cloud_service.Exec.Steps.{Steps-bind, Steps-pure}
use inventory_cloud_service.Drill.{
  Host, Drill, Identity, Message, is_own_name, new_fixture, started_drill,
}
use inventory_cloud_service.Drill.Made.{HasOnlyLooked}
use inventory_cloud_service.Drill.Sound.{IsSound}
use inventory_cloud_service.Drill.Keeps.{keeping, Keeps, create_network-Keeps, send_request-Keeps}
use inventory_cloud_service.Drill.Complete.{drill_rules}
use inventory_cloud_service.Drill.Whole.{main_with-IsSound}
use inventory_cloud_service.Replica.Batch.{Threads}
use inventory_cloud_service.Replica.Run.{
  Launched, Bought, launch, same_request, create_with_one_key, contend_request, contend,
  cancel_at_once, cancel_path, cancel_first,
}
use inventory_cloud_service.Replica.Restart.{
  Restarted, order_of, replays, survive, restart, replay_kept, check_page, check_records,
  cancel_request, retry, check_final, run_drill, main,
}
use inventory_cloud_service.Replica.Keeps.{
  concurrent_batch-Keeps, inspect_replica-Keeps, start_replica-Keeps, stop_replica-Keeps,
  restart_replica-Keeps, verify_stock-Keeps, create_product-Keeps,
}

module _ (host : Host) (threads : Threads) (fixture : Identity) where
  same_request-Keeps :
      (m : Message) (api : ℤ) (index : ℕ)
      → Keeps host fixture (same_request host threads fixture m api index)
  same_request-Keeps m api index = send_request-Keeps host fixture api m _ 12

  contend_request-Keeps :
      (contended : Value) (api : ℤ) (index : ℕ)
      → Keeps host fixture (contend_request host threads fixture contended api index)
  unfolding contend_request
  contend_request-Keeps contended api index = search drill_rules depth 40

  cancel_path-Keeps :
      (reservation : Value) → Keeps host fixture (cancel_path host threads fixture reservation)
  unfolding cancel_path
  cancel_path-Keeps reservation = search drill_rules depth 40

  cancel_request-Keeps :
      (reservation : Value) (api : ℤ) (index : ℕ)
      → Keeps host fixture (cancel_request host threads fixture reservation api index)
  unfolding cancel_request
  cancel_request-Keeps reservation api index = search (drill_rules, cancel_path-Keeps) depth 40

  launch-Keeps :
      is_own_name fixture fixture.network ≡ true → Keeps host fixture (launch host threads fixture)
  unfolding launch
  launch-Keeps own =
      Steps-bind (keeping host fixture) _ _ (create_network-Keeps host fixture own)
        λ _. search (drill_rules, start_replica-Keeps, inspect_replica-Keeps) depth 80

  create_with_one_key-Keeps :
      (launched : Launched) → Keeps host fixture (create_with_one_key host threads fixture launched)
  unfolding create_with_one_key
  create_with_one_key-Keeps launched =
      search (drill_rules, create_product-Keeps, concurrent_batch-Keeps, verify_stock-Keeps) depth
        80

  contend-Keeps : (launched : Launched) → Keeps host fixture (contend host threads fixture launched)
  unfolding contend
  contend-Keeps launched =
      search
        (
          drill_rules, create_product-Keeps, concurrent_batch-Keeps, contend_request-Keeps,
          verify_stock-Keeps,
        )
        depth 80

  cancel_at_once-Keeps :
      (apis : List ℤ) (operation : ℤ → ℕ → Exec Drill (ℕ × Value)) (reservation : Value)
      (section message : String)
      → ((api : ℤ) (index : ℕ) → Keeps host fixture (operation api index))
      → Keeps host fixture
          (cancel_at_once host threads fixture apis operation reservation section message)
  unfolding cancel_at_once
  cancel_at_once-Keeps apis operation reservation section message p =
      search (drill_rules, concurrent_batch-Keeps, p) depth 80

  cancel_first-Keeps :
      (launched : Launched) (bought : Bought)
      → Keeps host fixture (cancel_first host threads fixture launched bought)
  unfolding cancel_first
  cancel_first-Keeps launched bought =
      search (drill_rules, cancel_path-Keeps, cancel_at_once-Keeps, verify_stock-Keeps) depth 80

  order_of-Keeps :
      (product : Value) (quantity : ℕ) (key : String)
      → Keeps host fixture (order_of host fixture product quantity key)
  unfolding order_of
  order_of-Keeps product quantity key = search drill_rules depth 40

  replays-Keeps :
      (api : ℤ) (order : Message) (expected : Value) (message : String)
      → Keeps host fixture (replays host fixture api order expected message)
  unfolding replays
  replays-Keeps api order expected message = search drill_rules depth 40

  survive-Keeps :
      (second : ℤ) (bought : Bought) (cancelled : Value) (order : Message) (active : Value)
      → Keeps host fixture (survive host fixture second bought cancelled order active)
  unfolding survive
  survive-Keeps second bought cancelled order active =
      search (drill_rules, replays-Keeps, order_of-Keeps) depth 80

  restart-Keeps :
      (launched : Launched) (bought : Bought) (cancelled : Value)
      → Keeps host fixture (restart host fixture launched bought cancelled)
  unfolding restart
  restart-Keeps launched bought cancelled =
      search
        (
          drill_rules, order_of-Keeps, verify_stock-Keeps, stop_replica-Keeps, survive-Keeps,
          inspect_replica-Keeps, restart_replica-Keeps,
        )
        depth 80

  replay_kept-Keeps :
      (apis : List ℤ) (bought : Bought) (cancelled : Value) (r : Restarted)
      → Keeps host fixture (replay_kept host fixture apis bought cancelled r)
  unfolding replay_kept
  replay_kept-Keeps [] bought cancelled r = Steps-pure (keeping host fixture) tt
  replay_kept-Keeps (api ∷ apis) bought cancelled r =
      Steps-bind (keeping host fixture) _ _ (replays-Keeps api _ _ _) λ _.
        Steps-bind (keeping host fixture) _ _ (replays-Keeps api _ _ _)
          λ _. replay_kept-Keeps apis bought cancelled r

  check_page-Keeps :
      (api : ℤ) (order : Message) (cancelled : Value) (expected : List (Value × Value))
      → Keeps host fixture (check_page host fixture api order cancelled expected)
  unfolding check_page
  check_page-Keeps api order cancelled expected = search (drill_rules, replays-Keeps) depth 80

  check_records-Keeps :
      (apis : List ℤ) (order : Message) (cancelled : Value) (expected : List (Value × Value))
      → Keeps host fixture (check_records host fixture apis order cancelled expected)
  unfolding check_records
  check_records-Keeps [] order cancelled expected = Steps-pure (keeping host fixture) tt
  check_records-Keeps (api ∷ apis) order cancelled expected =
      Steps-bind (keeping host fixture) _ _ (check_page-Keeps api order cancelled expected)
        λ _. check_records-Keeps apis order cancelled expected

  retry-Keeps :
      (bought : Bought) (contended cancelled : Value) (r : Restarted)
      → Keeps host fixture (retry host threads fixture bought contended cancelled r)
  unfolding retry
  retry-Keeps bought contended cancelled r =
      search
        (
          drill_rules, verify_stock-Keeps, replay_kept-Keeps, concurrent_batch-Keeps,
          cancel_at_once-Keeps, cancel_request-Keeps,
        )
        depth 80

  check_final-Keeps :
      (r : Restarted) (cancelled cancelled_active : Value) (created : List Value)
      → Keeps host fixture (check_final host threads fixture r cancelled cancelled_active created)
  unfolding check_final
  check_final-Keeps r cancelled cancelled_active created =
      search (drill_rules, check_records-Keeps) depth 80

  run_drill-Keeps :
      is_own_name fixture fixture.network ≡ true
      → Keeps host fixture (run_drill host threads fixture)
  unfolding run_drill
  run_drill-Keeps own = Steps-bind (keeping host fixture) _ _ (launch-Keeps own) λ launched.
      search
        (
          drill_rules, create_with_one_key-Keeps, contend-Keeps, cancel_first-Keeps, restart-Keeps,
          retry-Keeps, check_final-Keeps,
        )
        depth 80

module _ (host : Host) (threads : Threads) where
  -- A run of the replica drill, whatever Docker and the service answer, in whatever order its
  -- threads take their turns, and wherever it raises, ends in a state that is sound for the fixture:
  -- the names of all containers are distinct and of this run, each database said to be migrated has
  -- a runtime password, and each Docker command given starts a container that the cleanup knows,
  -- only looks (at Docker itself, an image, or a listing), or, not being a command on images, names
  -- something of this run. Where the fixture cannot be made, each Docker command given only looks,
  -- and no container is tracked and no network is noted as created.
  pub replicas-IsSound :
      (image database_image : String)
      → let made = new_fixture host image database_image started_drill in
        ((x : Exc) × (made.0 ≡ err x)
          × HasOnlyLooked (main host threads image database_image started_drill).1)
        ⊎ ((fixture : Identity) × (made.0 ≡ ok fixture)
            × IsSound fixture (main host threads image database_image started_drill).1)
  unfolding main
  replicas-IsSound image database_image =
      main_with-IsSound host (run_drill host threads) (run_drill-Keeps host threads) image
        database_image
