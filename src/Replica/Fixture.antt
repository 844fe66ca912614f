-- ===== src/Replica/Fixture.antt =====
-- The class ReplicaFixture of scripts/replica-drill.py.
use Prim.Native.Char.{code}
use inventory_cloud_service.Base.{
  String, Bool, true, false, not, ◌&&◌, ◌||◌, Option, none, some, List, [], ◌∷◌, ◌==◌, nat_eq,
  string_eq, if◌then◌else◌, leb, all,
}
use inventory_cloud_service.Base.Int.{ℤ, pos, negsuc}
use inventory_cloud_service.Json.{
  Value, null, bool, str, list, dict, nil, end, type_error, attribute_error, Result, ok, err,
  ◌>>=◌ as ◌then◌, subscript, get, first, size, iterate, member, is_text, equals,
}
use inventory_cloud_service.Exec.{Exec, pure, lift, ◌>>=◌, ◌>>◌}
use inventory_cloud_service.Drill.{
  Host, Drill, Identity, demand, to_integer, docker, lookup, insert, owned, start_app,
  stop_container, wait_health, database_url,
}

-- The runtimes that were started, with their databases.
abbrev pub Replicas : Type 0
Replicas = List (String × String)

abbrev pub is_replica : String → Replicas → Bool
is_replica name [] = false
is_replica name ((n, d) ∷ rest) = name == n || is_replica name rest

-- `s.split("=", 1)`, if there is a "=" in the text.
abbrev pub split_equals : String → Option (String × String)
split_equals String.[] = none
split_equals (String.◌∷◌ c s) =
    let rest = split_equals s in
    if code c == 61
    then some (String.[], s)
    else elim rest [ none ↦ none | some (k, v) ↦ some (String.◌∷◌ c k, v) ]

-- An entry of `Env` in the dict of those with a "="; what is no text cannot be split.
abbrev add_entry : Value → Replicas → Result Replicas
add_entry (str s) environment = elim (split_equals s) [
  | none ↦ ok environment
  | some (k, v) ↦ ok (insert k v environment)
]
add_entry v environment = elim (member "=" v) [
  | err e ↦ err e
  | ok found ↦ if found then err attribute_error else ok environment
]

abbrev pub environment_of : List Value → Replicas → Result Replicas
environment_of [] environment = ok environment
environment_of (v ∷ vs) environment = elim (add_entry v environment) [
  | err e ↦ err e
  | ok more ↦ environment_of vs more
]

-- `environment.get(k) == v`
abbrev pub is_set : String → String → Replicas → Bool
is_set k v environment = elim (lookup k environment) [ ok w ↦ w == v | err e ↦ false ]

abbrev unhashable : Value → Bool
unhashable (list vs) = true
unhashable (dict fs) = true
unhashable _ = false

-- `set(v) == {name}`
abbrev pub is_only : String → Value → Result Bool
is_only name v = elim (iterate v) [
  | err e ↦ err e
  | ok vs ↦ elim (all (λ w. not (unhashable w)) vs) [
    | false ↦ err type_error
    | true ↦ ok (not (elim vs [ [] ↦ true | w ∷ ws ↦ false ]) && all (λ w. is_text w name) vs)
  ]
]

-- `v is b`
abbrev pub is_bool : Value → Bool → Bool
is_bool (bool true) b = b
is_bool (bool false) b = not b
is_bool _ b = false

-- `1 <= port <= 65535`
abbrev pub is_port : ℤ → Bool
is_port (pos n) = leb 1 n && leb n 65535
is_port (negsuc n) = false

module _ (host : Host) (fixture : Identity) where
  -- The environment of the restricted local runtime on a database.
  abbrev pub is_restricted : String → Replicas → Bool
  is_restricted database environment =
      is_set "SPRING_PROFILES_ACTIVE" "local" environment
      && is_set "DB_USERNAME" "inventory_app" environment
      && is_set "SPRING_FLYWAY_ENABLED" "false" environment
      && is_set "DB_URL" (database_url host fixture database) environment

  unfoldable pub inspect_replica : Replicas → String → Bool → Exec Drill Value
  inspect_replica replicas name running = do
    demand (is_replica name replicas) "Refusing operation on an untracked runtime replica"
    item ← owned host fixture "container" name
    config ← lift (subscript item "Config")
    env ← lift (get config "Env" (list nil))
    entries ← lift (iterate env)
    environment ← lift (environment_of entries [])
    image ← lift (get item "Image" null)
    demand (is_text image fixture.image) "Replica image identity changed"
    database ← lift (lookup name replicas)
    demand (is_restricted database environment)
        "Replica is not the expected restricted local runtime"
    settings ← lift (subscript item "NetworkSettings")
    networks ← lift (get settings "Networks" (dict end))
    own_network ← lift (is_only fixture.network networks)
    demand own_network "Replica is attached to an unexpected network"
    state ← lift (subscript item "State")
    is_running ← lift (get state "Running" null)
    demand (is_bool is_running running)
        "Replica running state differs from the expected lifecycle state"
    pure item

  -- The name and the port of the replica, and the replicas with it.
  unfoldable pub start_replica : String → String → Replicas → Exec Drill (String × (ℤ × Replicas))
  start_replica role database replicas = do
    demand (role == "replica-a" || role == "replica-b")
        "Only the two fixed replica roles are allowed"
    app ← start_app host fixture role database
    let more = insert app.0 database replicas
    inspect_replica more app.0 true
    pure (app.0, (app.1, more))

  -- `len(bindings) == 1 and bindings[0].get("HostIp") == "127.0.0.1"`
  abbrev pub only_loopback : Value → Result Bool
  only_loopback bindings = elim (size bindings) [
    | err e ↦ err e
    | ok n ↦
        if n == 1
        then elim (first bindings) [
          | err e ↦ err e
          | ok binding ↦ elim (get binding "HostIp" null) [
            | err e ↦ err e
            | ok ip ↦ ok (is_text ip "127.0.0.1")
          ]
        ]
        else ok false
  ]

  unfoldable pub api_for_replica : Replicas → String → Exec Drill ℤ
  api_for_replica replicas name = do
    item ← inspect_replica replicas name true
    settings ← lift (subscript item "NetworkSettings")
    ports ← lift (subscript settings "Ports")
    bindings ← lift (get ports "8080/tcp" (list nil))
    loopback ← lift (only_loopback bindings)
    demand loopback "Replica API must have exactly one loopback-only binding"
    binding ← lift (first bindings)
    value ← lift (subscript binding "HostPort")
    port ← lift (to_integer host.to_int value)
    demand (is_port port) "Replica API port is outside the valid range"
    pure port

  unfoldable pub stop_replica : Replicas → String → Exec Drill (Unit {0})
  stop_replica replicas name = do
    inspect_replica replicas name true
    stop_container host fixture name
    inspect_replica replicas name false
    pure tt

  unfoldable pub restart_replica : Replicas → String → Exec Drill ℤ
  restart_replica replicas name = do
    before ← inspect_replica replicas name false
    docker host ("container" ∷ "start" ∷ name ∷ [])
    after ← inspect_replica replicas name true
    new_id ← lift (subscript after "Id")
    old_id ← lift (subscript before "Id")
    demand (equals new_id old_id) "Restart replaced the tracked container"
    port ← api_for_replica replicas name
    wait_health host fixture port 200 90
    pure port
