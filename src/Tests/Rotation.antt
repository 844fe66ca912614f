-- ===== src/Tests/Rotation.antt =====
-- A rotation drill in which Docker, PostgreSQL and the service behave as they should.
use inventory_cloud_service.Base.{
  ◌≡◌, refl, String, Bool, false, ◌&&◌, ◌||◌, Option, none, some, List, [], ◌∷◌, ◌==◌, nat_eq,
  string_eq, if◌then◌else◌, contains,
}
use inventory_cloud_service.Base.Int.{pos}
use inventory_cloud_service.Base.Text.{strip, splitlines, first_characters}
use inventory_cloud_service.Json.{Value, Result, ok, equals}
use inventory_cloud_service.Exec.{pure, raise, lift, ◌>>=◌, require, gets, modify, attempt}
use inventory_cloud_service.Drill.{
  Bytes, exited, Call, Request, Reply, replied, called, requested, Ending, History, Host, Drill,
  Identity, spawn, docker_with, docker_text, sleep, monotonic, send, request, expect, judge_health,
  poll_health, wait_health, new_hex, new_token, image_id, assemble, new_fixture, create_network,
  check_labels, owned, run_container, poll_database, wait_database, start_database, judge_migration,
  migrate_database, started_drill, check_runtime_login, loopback_port, start_app, remove_container,
  remove_network, remove_containers, cleanup, metadata, note, note_in, attempt_run, conclude,
  main_with, Outcome, stop_container, login_rejected,
}
use inventory_cloud_service.Drill.Removed.{HasRun}
use inventory_cloud_service.Rotation.{
  seed_rotation, rotate, check_replacement, prepare_rotation, run_rotation, main,
}
use inventory_cloud_service.Rotation.Rotated.{IsRotated, main-IsRotated}
use inventory_cloud_service.Tests.Drill.{sandbox, output, product, read_output, is_cancelled, ended}

abbrev is_stopped : History → Bool
is_stopped [] = false
is_stopped (called c ∷ h) = contains "stop" c.args || is_stopped h
is_stopped (e ∷ h) = is_stopped h

abbrev is_bought : History → Bool
is_bought [] = false
is_bought (requested r ∷ h) = r.path == "/api/v1/reservations" || is_bought h
is_bought (e ∷ h) = is_bought h

abbrev has_password : String → List (String × String) → Bool
has_password p [] = false
has_password p ((k, v) ∷ m) = (k == "PGPASSWORD" && v == p) || has_password p m

-- After the stop the old password is no longer accepted.
abbrev docker_answer : History → Call → Ending
docker_answer h c =
    if is_stopped h && has_password "token" c.extra_env
    then exited (pos 2) [] login_rejected
    else exited (pos 0) (output c.args) []

abbrev replacement_answer : History → Request → Reply
replacement_answer h r =
    if r.path == "/actuator/health/readiness"
    then replied 200 (14 ∷ [])
    else if r.path == "/api/v1/products"
    then replied 201 (20 ∷ [])
    else if r.path == "/api/v1/products/p"
    then (if is_cancelled h then replied 200 (20 ∷ []) else replied 200 (21 ∷ []))
    else if is_cancelled h || r.path == "/api/v1/reservations/r/cancel"
    then replied 200 (13 ∷ [])
    else if r.verb == "POST"
    then (if is_bought h then replied 200 (12 ∷ []) else replied 201 (12 ∷ []))
    else replied 200 (12 ∷ [])

abbrev read_json : Bytes → Option Value
read_json [] = none
read_json (n ∷ rest) =
    if n == 20
    then some (product 23)
    else if n == 21
    then some (product 17)
    else read_output (n ∷ rest)

abbrev rotating : Host
rotating = record sandbox {
  complete = docker_answer;
  http = replacement_answer;
  loads = read_json;
  fresh_token = λ h. if is_stopped h then "rotated" else "token";
}

rotation_trial : Result Outcome × Drill
unfolding main main_with conclude attempt_run run_rotation prepare_rotation seed_rotation rotate
    check_replacement note note_in metadata cleanup remove_containers stop_container remove_network
    remove_container start_app loopback_port check_runtime_login migrate_database judge_migration
    start_database wait_database poll_database run_container owned check_labels create_network
    new_fixture assemble image_id new_token new_hex wait_health poll_health judge_health expect
    request send monotonic sleep docker_text docker_with spawn attempt modify gets require ◌>>=◌
    lift raise pure strip splitlines first_characters equals
rotation_trial = main rotating "app" "postgres" started_drill

rotation_run : rotation_trial.0 ≡ ok ended
unfolding rotation_trial
rotation_run = refl

main-IsRotated_example :
    (fixture : Identity) × (start after : Drill) × HasRun rotating
      (run_rotation rotating)
      "app"
      "postgres"
      started_drill
      fixture
      start
      after
    × IsRotated rotating fixture start after
unfolding rotation_trial
main-IsRotated_example =
    main-IsRotated rotating "app" "postgres" started_drill {o = ended}
      {t = (main rotating "app" "postgres" started_drill).1} refl refl
