-- ===== src/Tests/Drill.antt =====
-- A recovery drill in which Docker and the service behave as they should.
use inventory_cloud_service.Base.{
  ◌≡◌, refl, ◌⊎◌, ℕ, String, Bool, true, false, ◌&&◌, ◌||◌, Option, none, some, List, [], ◌∷◌, ◌==◌,
  nat_eq, string_eq, if◌then◌else◌, contains,
}
use inventory_cloud_service.Base.Int.{pos, int_eq}
use inventory_cloud_service.Base.Text.{strip, splitlines, first_characters}
use inventory_cloud_service.Json.{
  Value, int, str, list, dict, nil, cons, end, field, Exc, Result, ok, err, equals,
}
use inventory_cloud_service.Exec.{pure, raise, lift, ◌>>=◌, require, finally, gets, modify, attempt}
use inventory_cloud_service.Drill.{
  Bytes, exited, Request, Reply, replied, called, requested, History, Host, Drill, Identity,
  owner_label, purpose_label, purpose, spawn, docker_with, docker_text, sleep, monotonic, send,
  request, expect, judge_health, poll_health, wait_health, new_hex, new_token, image_id, assemble,
  new_fixture, create_network, check_labels, owned, run_container, poll_database, wait_database,
  start_database, judge_migration, migrate_database, started_drill, check_runtime_login,
  loopback_port, start_app, remove_container, remove_network, remove_containers, cleanup, metadata,
  note, note_in, seed, check_restored, judge_liveness, watch_outage, unpause, outage, serve,
  take_backup, restore, run_drill, attempt_drill, attempt_run, conclude, main_with, main, Outcome,
}
use inventory_cloud_service.Drill.Made.{HasOnlyLooked}
use inventory_cloud_service.Drill.Sound.{IsSound}
use inventory_cloud_service.Drill.Whole.{main-IsSound}
use inventory_cloud_service.Drill.Removed.{AllGone, main-eq_zero}

abbrev pub run_id : String
run_id = "0123456789abcdef0123456789abcdef"

abbrev pub item : String → Value
item port = dict (
    field "Config"
      (dict (
        field "Labels"
          (dict (field owner_label (str run_id) (field purpose_label (str purpose) end))) end))
      (field "State" (dict (field "Status" (str "exited") (field "ExitCode" (int (pos 0)) end))) (
        field "NetworkSettings"
          (dict (
            field "Ports"
              (dict (
                field "8080/tcp"
                  (list (
                    cons (dict (field "HostIp" (str "127.0.0.1") (field "HostPort" (str port) end)))
                      nil))
                  end))
              end))
          end)))

-- An output stands for the text or the JSON that `decode` and `loads` make of it.
abbrev pub output : List String → Bytes
output (docker ∷ verb ∷ action ∷ rest) =
    if verb == "info"
    then 1 ∷ []
    else if action == "inspect" && verb == "container"
    then (if contains "inventory-drill-0123456789ab-restored-app" rest then 3 ∷ [] else 2 ∷ [])
    else if verb == "exec" && action == "--env"
    then 5 ∷ []
    else if action == "wait"
    then 6 ∷ []
    else []
output _ = []

abbrev pub product : ℕ → Value
product n = dict (field "id" (str "p") (field "availableQuantity" (int (pos n)) end))

abbrev pub reservation : String → Value
reservation status = dict (field "id" (str "r") (field "status" (str status) end))

abbrev pub health : String → Value
health word = dict (field "status" (str word) end)

abbrev pub read_output : Bytes → Option Value
read_output [] = none
read_output (n ∷ rest) =
    if n == 1
    then some (dict end)
    else if n == 2
    then some (list (cons (item "8081") nil))
    else if n == 3
    then some (list (cons (item "8082") nil))
    else if n == 10
    then some (product 37)
    else if n == 11
    then some (product 30)
    else if n == 12
    then some (reservation "ACTIVE")
    else if n == 13
    then some (reservation "CANCELLED")
    else if n == 14
    then some (health "UP")
    else if n == 15
    then some (health "DOWN")
    else none

abbrev pub text_of : Bytes → Option String
text_of [] = some ""
text_of (n ∷ rest) =
    if n == 5 then some "inventory_app|t|t|t|t\n" else if n == 6 then some "0\n" else none

abbrev pub is_cancelled : History → Bool
is_cancelled [] = false
is_cancelled (requested r ∷ h) = r.path == "/api/v1/reservations/r/cancel" || is_cancelled h
is_cancelled (e ∷ h) = is_cancelled h

abbrev pub is_paused : History → Bool
is_paused [] = false
is_paused (called c ∷ h) =
    if contains "pause" c.args
    then true
    else if contains "unpause" c.args
    then false
    else is_paused h
is_paused (e ∷ h) = is_paused h

abbrev pub is_restored : Request → Bool
is_restored r = r.port == pos 8082

abbrev pub answer : History → Request → Reply
answer h r =
    if r.path == "/actuator/health/readiness"
    then (if is_paused h then replied 503 (15 ∷ []) else replied 200 (14 ∷ []))
    else if r.path == "/actuator/health/liveness"
    then replied 200 (14 ∷ [])
    else if r.path == "/api/v1/products"
    then replied 201 (10 ∷ [])
    else if r.path == "/api/v1/products/p"
    then (if is_restored r && is_cancelled h then replied 200 (10 ∷ []) else replied 200 (11 ∷ []))
    else if r.path == "/api/v1/reservations/r/cancel"
    then replied 200 (13 ∷ [])
    else if is_restored r
    then (if is_cancelled h then replied 200 (13 ∷ []) else replied 200 (12 ∷ []))
    else if r.verb == "POST"
    then replied 201 (12 ∷ [])
    else replied 200 (12 ∷ [])

abbrev pub sandbox : Host
sandbox = record {
  complete = λ h c. exited (pos 0) (output c.args) [];
  http = answer;
  clock = λ h. 0;
  seconds = λ a b. int (pos 0);
  fresh_hex = λ h. run_id;
  fresh_token = λ h. "token";
  decode = text_of;
  decode_replacing = λ b. "";
  loads = read_output;
  is_digits = λ s. true;
  to_int = λ v. elim v [
    | str s ↦ some (if s == "0" then pos 0 else if s == "8082" then pos 8082 else pos 8081)
    | _ ↦ none
  ];
  display = λ z. "";
  upper = λ s. s;
  describe = λ e. "";
  sha256 = λ b. "";
}

drill_trial : Result Outcome × Drill
unfolding main main_with conclude attempt_drill attempt_run run_drill restore take_backup serve
    outage unpause watch_outage judge_liveness check_restored seed note note_in metadata cleanup
    remove_containers remove_network remove_container start_app loopback_port check_runtime_login
    migrate_database judge_migration start_database wait_database poll_database run_container owned
    check_labels create_network new_fixture assemble image_id new_token new_hex wait_health
    poll_health judge_health expect request send monotonic sleep docker_text docker_with spawn
    attempt modify gets finally require ◌>>=◌ lift raise pure strip splitlines first_characters
    equals
drill_trial = main sandbox "app" "postgres" started_drill

drill_run :
    drill_trial.0
    ≡ ok (record { passed = true; error = none; cleanup_errors = []; exit_status = 0 })
unfolding drill_trial
drill_run = refl

abbrev pub ended : Outcome
ended = record { passed = true; error = none; cleanup_errors = []; exit_status = 0 }

main-IsSound_example :
    let made = new_fixture sandbox "app" "postgres" started_drill in
    ((x : Exc) × (made.0 ≡ err x) × HasOnlyLooked (main sandbox "app" "postgres" started_drill).1)
    ⊎ ((fixture : Identity) × (made.0 ≡ ok fixture)
        × IsSound fixture (main sandbox "app" "postgres" started_drill).1)
main-IsSound_example = main-IsSound sandbox "app" "postgres"

main-eq_zero_example :
    (fixture : Identity) × (before after : Drill) × (new_fixture sandbox "app" "postgres"
        started_drill
      ≡ (ok fixture, before))
    × (attempt_drill sandbox fixture before ≡ (ok tt, after))
    × AllGone sandbox fixture after
unfolding drill_trial
main-eq_zero_example =
    main-eq_zero sandbox "app" "postgres" started_drill {o = ended}
      {t = (main sandbox "app" "postgres" started_drill).1} refl refl
