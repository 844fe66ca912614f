-- ===== src/Tests/Replica.antt =====
-- A replica drill in which the two replicas share one store as they should, and single batches.
use inventory_cloud_service.Base.{
  ◌≡◌, refl, ◌⊎◌, ◌↔◌, ℕ, ◌<◌, ◌≤◌, String, some, List, [], ◌∷◌, length, arith,
}
use inventory_cloud_service.Base.Int.{ℤ, pos}
use inventory_cloud_service.Base.Text.{strip, splitlines, first_characters}
use inventory_cloud_service.Json.{
  Value, int, str, dict, end, field, Exc, runtime, Result, ok, err, equals,
}
use inventory_cloud_service.Exec.{Exec, pure, raise, lift, ◌>>=◌, require, gets, modify, attempt}
use inventory_cloud_service.Drill.{
  Drill, Identity, slept, spawn, docker_with, docker_text, sleep, monotonic, send, request, expect,
  judge_health, poll_health, wait_health, new_hex, new_token, image_id, assemble, new_fixture,
  create_network, check_labels, owned, run_container, poll_database, wait_database, start_database,
  judge_migration, migrate_database, started_drill, check_runtime_login, loopback_port, start_app,
  remove_container, remove_network, remove_containers, cleanup, metadata, note, note_in,
  attempt_run, conclude, main_with, Outcome, stop_container,
}
use inventory_cloud_service.Drill.Made.{HasOnlyLooked}
use inventory_cloud_service.Drill.Sound.{IsSound}
use inventory_cloud_service.Replica.{
  Threads, Sample, occurrences, call_replica, turn, move, play, concurrent_batch,
  require_same_reservation, require_stock_conflicts, inspect_replica, start_replica,
  api_for_replica, stop_replica, restart_replica, summarize_batch, read_all, verify_stock,
  create_product, launch, create_with_one_key, contend_request, contend, cancel_at_once,
  cancel_path, cancel_first, order_of, replays, survive, restart, replay_kept, check_page,
  check_records, cancel_request, retry, check_final, run_drill, main,
}
use inventory_cloud_service.Replica.Turns.{AreSamples, concurrent_batch-AreSamples}
use inventory_cloud_service.Replica.Ends.{concurrent_batch-ends}
use inventory_cloud_service.Replica.Judged.{
  IsSame, IsContended, require_same_reservation-eq-ok_iff, require_stock_conflicts-IsContended,
}
use inventory_cloud_service.Replica.Sound.{replicas-IsSound}
use inventory_cloud_service.Tests.Cluster.{cluster, eight_threads}
use inventory_cloud_service.Tests.Drill.{ended}

replica_trial : Result Outcome × Drill
unfolding main main_with conclude attempt_run run_drill check_final retry cancel_request
    check_records check_page replay_kept restart survive replays order_of cancel_first cancel_path
    cancel_at_once contend contend_request create_with_one_key launch create_product verify_stock
    read_all summarize_batch restart_replica stop_replica api_for_replica start_replica
    inspect_replica require_stock_conflicts require_same_reservation concurrent_batch play move turn
    call_replica note note_in metadata cleanup remove_containers stop_container remove_network
    remove_container start_app loopback_port check_runtime_login migrate_database judge_migration
    start_database wait_database poll_database run_container owned check_labels create_network
    new_fixture assemble image_id new_token new_hex wait_health poll_health judge_health expect
    request send monotonic sleep docker_text docker_with spawn attempt modify gets require ◌>>=◌
    lift raise pure strip splitlines first_characters equals
replica_trial = main cluster eight_threads "app" "postgres" started_drill

replica_run : replica_trial.0 ≡ ok ended
unfolding replica_trial
replica_run = refl

replicas-IsSound_example :
    let made = new_fixture cluster "app" "postgres" started_drill in
    ((x : Exc) × (made.0 ≡ err x)
      × HasOnlyLooked (main cluster eight_threads "app" "postgres" started_drill).1)
    ⊎ ((fixture : Identity) × (made.0 ≡ ok fixture)
        × IsSound fixture (main cluster eight_threads "app" "postgres" started_drill).1)
replicas-IsSound_example = replicas-IsSound cluster eight_threads "app" "postgres"

abbrev replica_ports : List ℤ
replica_ports = pos 8081 ∷ pos 8082 ∷ []

abbrev two_threads : Threads
two_threads = record { schedule = λ h. some (1 ∷ 0 ∷ 0 ∷ 1 ∷ 1 ∷ 0 ∷ []); type_name = λ e. "" }

-- Each request is answered with the number of events before it.
abbrev numbered : ℤ → ℕ → Exec Drill (ℕ × Value)
numbered api index s = (ok (length s.history, int api), record s { history = slept 0 ∷ s.history })

abbrev sample : ℕ → ℕ → ℕ → ℕ → Sample
sample index port status quantity = record {
  index = index;
  replica = index;
  status = status;
  payload = int (pos port);
  started = quantity;
  ended = quantity;
}

batch_trial : Result (List Sample) × Drill
unfolding concurrent_batch play move turn call_replica monotonic attempt gets require ◌>>=◌ lift
    pure
batch_trial = concurrent_batch cluster two_threads replica_ports numbered 2 started_drill

batch_run : batch_trial.0 ≡ ok (sample 0 8081 0 0 ∷ sample 1 8082 1 0 ∷ [])
unfolding batch_trial
batch_run = refl

concurrent_batch-AreSamples_example :
    (length (sample 0 8081 0 0 ∷ sample 1 8082 1 0 ∷ []) ≡ 2)
    × AreSamples cluster two_threads replica_ports numbered 0
        (sample 0 8081 0 0 ∷ sample 1 8082 1 0 ∷ [])
unfolding batch_trial
concurrent_batch-AreSamples_example =
    concurrent_batch-AreSamples cluster two_threads replica_ports numbered 2 started_drill
      {samples = sample 0 8081 0 0 ∷ sample 1 8082 1 0 ∷ []} {t = batch_trial.1} refl

fair_turns : (j : ℕ) → j < 2 → 3 ≤ occurrences j (1 ∷ 0 ∷ 0 ∷ 1 ∷ 1 ∷ 0 ∷ [])
fair_turns j less = ground arith

concurrent_batch-ends_example :
    ((samples : List Sample) × (length samples ≡ 2)
      × ((concurrent_batch cluster two_threads replica_ports numbered 2 started_drill).0
          ≡ ok samples))
    ⊎ ((message : String) × ((concurrent_batch cluster two_threads replica_ports numbered 2
            started_drill).0
          ≡ err (runtime message)))
concurrent_batch-ends_example =
    concurrent_batch-ends cluster two_threads replica_ports numbered 2 started_drill refl refl refl
      fair_turns

abbrev reserved : String → Value
reserved id = dict (field "id" (str id) end)

abbrev with_payload : ℕ → Value → Sample
with_payload status payload = record {
  index = 0;
  replica = 0;
  status = status;
  payload = payload;
  started = 0;
  ended = 1;
}

abbrev retried_samples : List Sample
retried_samples =
    with_payload 200 (reserved "r")
    ∷ with_payload 201 (reserved "r")
    ∷ with_payload 200 (reserved "r")
    ∷ []

require_same_reservation-eq-ok_iff_example :
    (require_same_reservation retried_samples ((201, 1) ∷ (200, 2) ∷ []) (some (reserved "r"))
      ≡ ok (reserved "r"))
    ↔ IsSame retried_samples ((201, 1) ∷ (200, 2) ∷ []) (reserved "r")
require_same_reservation-eq-ok_iff_example =
    require_same_reservation-eq-ok_iff retried_samples ((201, 1) ∷ (200, 2) ∷ []) (reserved "r")

same_run :
    require_same_reservation retried_samples ((201, 1) ∷ (200, 2) ∷ []) (some (reserved "r"))
    ≡ ok (reserved "r")
unfolding require_same_reservation equals
same_run = refl

abbrev contending_samples : List Sample
contending_samples =
    with_payload 201 (reserved "a")
    ∷ with_payload 409 (dict (field "detail" (str "Insufficient available stock") end))
    ∷ with_payload 201 (reserved "b")
    ∷ []

require_stock_conflicts-IsContended_example :
    IsContended contending_samples 2 (reserved "a" ∷ reserved "b" ∷ [])
unfolding require_stock_conflicts equals
require_stock_conflicts-IsContended_example =
    require_stock_conflicts-IsContended contending_samples 2
      {created = reserved "a" ∷ reserved "b" ∷ []} refl
