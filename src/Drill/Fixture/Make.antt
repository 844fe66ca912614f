-- ===== src/Drill/Fixture/Make.antt =====
-- What a fixture is made of: `Fixture.__init__`, and the dicts and sets of its methods.
use inventory_cloud_service.Base.{
  String, ◌<>◌, false, List, [], ◌∷◌, ◌==◌, nat_eq, string_eq, if◌then◌else◌,
}
use inventory_cloud_service.Base.Int.{int_eq}
use inventory_cloud_service.Base.Text.{strip, first_characters}
use inventory_cloud_service.Json.{Value, end, key_error, Result, ok, err, present}
use inventory_cloud_service.Exec.{Exec, pure, lift, ◌>>=◌}
use inventory_cloud_service.Drill.World.{generated, Host, Drill, Identity}
use inventory_cloud_service.Drill.Defs.{docker, docker_text}

abbrev pub started_drill : Drill
started_drill = record {
  containers = [];
  network_created = false;
  runtime_passwords = [];
  prepared_databases = [];
  migration_runs = [];
  report = end;
  history = [];
}

abbrev pub lookup : String → List (String × String) → Result String
lookup k [] = err key_error
lookup k ((j, v) ∷ m) = if k == j then ok v else lookup k m

-- `d[k] = v`
abbrev pub insert : String → String → List (String × String) → List (String × String)
insert k v [] = (k, v) ∷ []
insert k v ((j, w) ∷ m) = if k == j then (k, v) ∷ m else (j, w) ∷ insert k v m

-- `set.discard`, on the list of a set's members.
abbrev pub discard : String → List String → List String
discard k [] = []
discard k (j ∷ s) = if k == j then discard k s else j ∷ discard k s

abbrev with_flag : String → List String → List String
with_flag flag [] = []
with_flag flag (a ∷ rest) = flag ∷ a ∷ with_flag flag rest

abbrev keys_of : List (String × String) → List String
keys_of [] = []
keys_of ((k, v) ∷ m) = k ∷ keys_of m

-- `[part for key in environment for part in ("--env", key)]`
abbrev pub env_flags : List (String × String) → List String
env_flags environment = with_flag "--env" (keys_of environment)

module _ (host : Host) where
  unfoldable pub new_hex : Exec Drill String
  new_hex s =
      let t = host.fresh_hex s.history in (ok t, record s { history = generated t ∷ s.history })

  unfoldable pub new_token : Exec Drill String
  new_token s =
      let t = host.fresh_token s.history in (ok t, record s { history = generated t ∷ s.history })

  unfoldable pub image_id : String → Exec Drill String
  image_id image = do
    id ← docker_text host ("image" ∷ "inspect" ∷ image ∷ "--format" ∷ "{{.Id}}" ∷ []) 90
    pure (strip id)

  -- The fields of a new fixture, from what is generated and resolved for it.
  unfoldable pub assemble :
      String → String → String → String → String → String → String → Value → Identity
  assemble run_id admin customer db_password runtime_password app database environment =
      let prefix = "inventory-drill-" <> first_characters 12 run_id in
      record {
        run_id = run_id;
        prefix = prefix;
        network = prefix <> "-network";
        admin_password = admin;
        customer_password = customer;
        db_password = db_password;
        initial_runtime_password = runtime_password;
        image = app;
        database_image = database;
        environment = environment;
      }

  -- `Fixture(image, database_image)`
  unfoldable pub new_fixture : String → String → Exec Drill Identity
  new_fixture image database_image = do
    run_id ← new_hex
    admin ← new_token
    customer ← new_token
    db_password ← new_token
    runtime_password ← new_token
    app ← image_id image
    database ← image_id database_image
    out ← docker host ("info" ∷ "--format" ∷ "{{json .}}" ∷ [])
    environment ← lift (present (host.loads out))
    pure (assemble run_id admin customer db_password runtime_password app database environment)
