-- ===== src/Tests/Cluster.antt =====
-- Two replicas of a service over one store, as Docker and HTTP show them, for runs of the replica drill.
use inventory_cloud_service.Base.{
  ℕ, suc, ◌+◌, ◌-◌, String, ◌<>◌, Bool, true, false, not, ◌&&◌, Option, none, some, List, [], ◌∷◌,
  ◌==◌, nat_eq, string_eq, if◌then◌else◌, contains, ltb,
}
use inventory_cloud_service.Base.Int.{pos}
use inventory_cloud_service.Json.{Value, bool, int, str, list, dict, nil, cons, end, field}
use inventory_cloud_service.Drill.{
  Bytes, exited, Request, Reply, replied, called, requested, History, Host, owner_label,
  purpose_label, purpose, texts,
}
use inventory_cloud_service.Replica.{Threads}
use inventory_cloud_service.Tests.Drill.{run_id, sandbox, output, read_output}

abbrev named : String → String
named role = "inventory-drill-0123456789ab-" <> role

abbrev environment_entries : List String
environment_entries =
    "PATH"
    ∷ "SPRING_PROFILES_ACTIVE=local"
    ∷ "DB_USERNAME=inventory_app"
    ∷ "SPRING_FLYWAY_ENABLED=false"
    ∷ ("DB_URL=jdbc:postgresql://"
        <> named "replica-db"
        <> ":5432/inventory?socketTimeout=5&connectTimeout=3")
    ∷ []

abbrev replica_item : String → String → Bool → Value
replica_item id port running = dict (
    field "Id" (str id) (
      field "Image" (str "") (
        field "Config"
          (dict (
            field "Env" (list (texts environment_entries)) (
              field "Labels"
                (dict (field owner_label (str run_id) (field purpose_label (str purpose) end)))
                end)))
          (field "State"
            (dict (
              field "Running" (bool running)
                (field "Status" (str "exited") (field "ExitCode" (int (pos 0)) end))))
            (field "NetworkSettings"
              (dict (
                field "Networks" (dict (field (named "network") (dict end) end)) (
                  field "Ports"
                    (dict (
                      field "8080/tcp"
                        (list (
                          cons
                            (dict
                              (field "HostIp" (str "127.0.0.1") (field "HostPort" (str port) end)))
                            nil))
                        end))
                    end)))
              end)))))

abbrev stock_value : ℕ → Value
stock_value n = dict (field "id" (str "p") (field "availableQuantity" (int (pos n)) end))

abbrev booked : String → ℕ → String → Value
booked id quantity status =
    dict (
      field "id" (str id) (field "quantity" (int (pos quantity)) (field "status" (str status) end)))

abbrev page : Value
page = dict (
    field "totalElements" (int (pos 6)) (
      field "items"
        (list (
          cons (booked "c2" 2 "ACTIVE") (
            cons (booked "ra" 4 "CANCELLED") (
              cons (booked "rs" 1 "ACTIVE") (
                cons (booked "c0" 2 "ACTIVE")
                  (cons (booked "r1" 5 "CANCELLED") (cons (booked "c1" 2 "ACTIVE") nil)))))))
        end))

-- 40 and more is a stock of the product, 30 and more the rest.
abbrev read_cluster : Bytes → Option Value
read_cluster [] = none
read_cluster (n ∷ rest) =
    if ltb n 30
    then read_output (n ∷ rest)
    else if n == 30
    then some (list (cons (replica_item "a" "8081" true) nil))
    else if n == 31
    then some (list (cons (replica_item "a" "8081" false) nil))
    else if n == 32
    then some (list (cons (replica_item "b" "8082" true) nil))
    else if ltb n 70
    then some (stock_value (n - 40))
    else if n == 70
    then some (dict (field "id" (str "c") (field "availableQuantity" (int (pos 1)) end)))
    else if n == 71
    then some (booked "r1" 5 "ACTIVE")
    else if n == 72
    then some (booked "r1" 5 "CANCELLED")
    else if n == 73
    then some (dict (field "detail" (str "Insufficient available stock") end))
    else if n == 74
    then some (booked "ra" 4 "ACTIVE")
    else if n == 75
    then some (booked "ra" 4 "CANCELLED")
    else if n == 76
    then some (booked "rs" 1 "ACTIVE")
    else if n == 77
    then some page
    else if n == 80
    then some (booked "c0" 2 "ACTIVE")
    else if n == 81
    then some (booked "c1" 2 "ACTIVE")
    else some (booked "c2" 2 "ACTIVE")

abbrev is_down : History → Bool
is_down [] = false
is_down (called c ∷ h) =
    if contains "start" c.args then false else if contains "stop" c.args then true else is_down h
is_down (e ∷ h) = is_down h

abbrev cluster_output : History → List String → Bytes
cluster_output h (docker ∷ verb ∷ action ∷ rest) =
    if verb == "container" && action == "inspect" && contains (named "replica-a") rest
    then (if is_down h then 31 ∷ [] else 30 ∷ [])
    else if verb == "container" && action == "inspect" && contains (named "replica-b") rest
    then 32 ∷ []
    else output (docker ∷ verb ∷ action ∷ rest)
cluster_output h args = []

abbrev has_key : String → Option String → Bool
has_key k none = false
has_key k (some j) = k == j

-- How many requests so far pass a test.
abbrev asked : (Request → Bool) → History → ℕ
asked p [] = 0
asked p (requested r ∷ h) = let rest = asked p h in if p r then suc rest else rest
asked p (e ∷ h) = asked p h

abbrev to_path : String → Request → Bool
to_path path r = r.path == path

abbrev with_key : String → Request → Bool
with_key k r = has_key (k <> run_id) r.idempotency_key

abbrev some_asked : (Request → Bool) → History → Bool
some_asked p h = not (asked p h == 0)

abbrev is_contending : Request → Bool
is_contending r =
    not (with_key "replica-same-key-" r)
    && not (with_key "replica-active-" r)
    && not (with_key "replica-survivor-" r)
    && to_path "/api/v1/reservations" r

abbrev units : ℕ → Bool → Bool → ℕ
units n bought cancelled = if bought then (if cancelled then 0 else n) else 0

abbrev stock_now : History → ℕ
stock_now h =
    20
    - units 5 (some_asked (with_key "replica-same-key-") h)
        (some_asked (to_path "/api/v1/reservations/r1/cancel") h)
    - units 4 (some_asked (with_key "replica-active-") h)
        (some_asked (to_path "/api/v1/reservations/ra/cancel") h)
    - units 1 (some_asked (with_key "replica-survivor-") h) false

-- The answer to a purchase: made now, made before, or cancelled since.
abbrev purchase_reply : ℕ → ℕ → Bool → Bool → Reply
purchase_reply active cancelled is_made is_cancelled =
    if is_cancelled
    then replied 200 (cancelled ∷ [])
    else if is_made
    then replied 200 (active ∷ [])
    else replied 201 (active ∷ [])

abbrev reservation_reply : History → Request → Reply
reservation_reply h r =
    if with_key "replica-same-key-" r
    then purchase_reply 71 72 (some_asked (with_key "replica-same-key-") h)
        (some_asked (to_path "/api/v1/reservations/r1/cancel") h)
    else if with_key "replica-active-" r
    then purchase_reply 74 75 (some_asked (with_key "replica-active-") h)
        (some_asked (to_path "/api/v1/reservations/ra/cancel") h)
    else if with_key "replica-survivor-" r
    then purchase_reply 76 76 (some_asked (with_key "replica-survivor-") h) false
    else if ltb (asked is_contending h) 3
    then replied 201 ((80 + asked is_contending h) ∷ [])
    else replied 409 (73 ∷ [])

abbrev cluster_reply : History → Request → Reply
cluster_reply h r =
    if r.path == "/actuator/health/readiness"
    then replied 200 (14 ∷ [])
    else if r.path == "/api/v1/products"
    then (if some_asked (to_path "/api/v1/products") h
        then replied 201 (70 ∷ [])
        else replied 201 (60 ∷ []))
    else if r.path == "/api/v1/products/p"
    then replied 200 ((40 + stock_now h) ∷ [])
    else if r.path == "/api/v1/products/c"
    then replied 200 (70 ∷ [])
    else if r.path == "/api/v1/reservations/r1/cancel"
    then replied 200 (72 ∷ [])
    else if r.path == "/api/v1/reservations/ra/cancel"
    then replied 200 (75 ∷ [])
    else if r.path == "/api/v1/reservations?size=100"
    then replied 200 (77 ∷ [])
    else reservation_reply h r

abbrev pub cluster : Host
cluster = record sandbox {
  complete = λ h c. exited (pos 0) (cluster_output h c.args) [];
  http = cluster_reply;
  loads = read_cluster;
}

-- Each of eight threads has three turns, the second ones from the last thread to the first.
abbrev pub eight_threads : Threads
eight_threads = record {
  schedule = λ h. some (
      0 ∷ 1 ∷ 2 ∷ 3 ∷ 4 ∷ 5 ∷ 6 ∷ 7 ∷ 7 ∷ 6 ∷ 5 ∷ 4 ∷ 3 ∷ 2 ∷ 1 ∷ 0 ∷ 0 ∷ 1 ∷ 2 ∷ 3 ∷ 4 ∷ 5 ∷ 6 ∷ 7
      ∷ []);
  type_name = λ e. "";
}
