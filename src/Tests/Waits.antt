-- ===== src/Tests/Waits.antt =====
-- A wait on a host whose clock counts the pauses.
use inventory_cloud_service.Base.{arith, ◌≢◌, ℕ, ◌+◌, ◌≤◌, [], ◌∷◌}
use inventory_cloud_service.Json.{dict, end, out_of_fuel, err}
use inventory_cloud_service.Drill.{
  Event, called, requested, slept, generated, History, Host, Identity, started_drill, wait_database,
}
use inventory_cloud_service.Drill.Waits.{IsMonotonic, wait_database-ends}
use inventory_cloud_service.Tests.Drill.{sandbox}

abbrev elapsed : History → ℕ
elapsed [] = 0
elapsed (slept ms ∷ h) = elapsed h + ms
elapsed (_ ∷ h) = elapsed h

abbrev ticking : Host
ticking = record sandbox { clock = elapsed }

ticking-IsMonotonic : IsMonotonic ticking
ticking-IsMonotonic = record { forward = onward; sleeps = λ ms h. omega arith }
  where
    onward : (e : Event) (h : History) → elapsed h ≤ elapsed (e ∷ h)
    onward (called c) h = omega arith
    onward (requested r) h = omega arith
    onward (slept ms) h = omega arith
    onward (generated s) h = omega arith

abbrev fixture : Identity
fixture = record {
  run_id = "0123456789abcdef0123456789abcdef";
  prefix = "inventory-drill-0123456789ab";
  network = "inventory-drill-0123456789ab-net";
  admin_password = "a";
  customer_password = "c";
  db_password = "d";
  initial_runtime_password = "r";
  image = "app";
  database_image = "postgres";
  environment = dict end;
}

wait_database-ends_example :
    (wait_database ticking fixture "inventory-drill-0123456789ab-db" started_drill).0
    ≢ err out_of_fuel
wait_database-ends_example =
    wait_database-ends ticking fixture ticking-IsMonotonic "inventory-drill-0123456789ab-db"
      started_drill
