-- ===== src/Rollback/Removal.antt =====
-- `schema_history`, `check_added_column`, `remove_candidate` and `remove_base_tag`
-- of scripts/rollback-drill.py.
use inventory_cloud_service.Base.{String, ◌<>◌, not, List, [], ◌∷◌, ◌==◌, nat_eq, string_eq}
use inventory_cloud_service.Base.Text.{strip}
use inventory_cloud_service.Json.{Value, present, subscript, first, is_text}
use inventory_cloud_service.Exec.{Exec, pure, lift, ◌>>=◌, ◌>>◌}
use inventory_cloud_service.Drill.{Host, Drill, Identity, demand, docker, docker_text, owned}
use inventory_cloud_service.Rollback.Checks.{is_own_candidate, has_other_tag}

module _ (host : Host) (fixture : Identity) where
  abbrev history_query : String
  history_query =
      "SELECT coalesce(json_agg(row_to_json(m) ORDER BY installed_rank), '[]'::json)\nFROM (SELECT installed_rank, version, description, checksum, success\n      FROM flyway_schema_history ORDER BY installed_rank) m;"

  abbrev column_query : String
  column_query =
      "SELECT count(*) FROM information_schema.columns WHERE table_schema='public'\nAND table_name='reservations' AND column_name='rollback_drill_note'\nAND is_nullable='YES' AND data_type='character varying';"

  abbrev query_command : String → String → List String
  query_command database query =
      "exec" ∷ database ∷ "psql" ∷ "--username" ∷ "inventory" ∷ "--dbname" ∷ "inventory"
      ∷ "--no-psqlrc" ∷ "--tuples-only" ∷ "--no-align" ∷ "--command" ∷ query ∷ []

  unfoldable pub schema_history : String → Exec Drill Value
  schema_history database = do
    owned host fixture "container" database
    out ← docker host (query_command database history_query)
    lift (present (host.loads out))

  unfoldable pub check_added_column : String → Exec Drill (Unit {0})
  check_added_column database = do
    owned host fixture "container" database
    text ← docker_text host (query_command database column_query) 90
    demand (strip text == "1") "The candidate's additive nullable column was not preserved"

  -- `json.loads(docker("image", "inspect", image))[0]`
  unfoldable pub inspect_image : String → Exec Drill Value
  inspect_image image = do
    out ← docker host ("image" ∷ "inspect" ∷ image ∷ [])
    items ← lift (present (host.loads out))
    lift (first items)

  unfoldable pub remove_candidate : String → Exec Drill (Unit {0})
  remove_candidate candidate = do
    demand (not (candidate == fixture.image)) "Refusing to remove the verified application image"
    details ← inspect_image candidate
    own ← lift (is_own_candidate fixture candidate details)
    demand own "Refusing to remove an image without this drill's exact ownership labels"
    docker host ("image" ∷ "rm" ∷ candidate ∷ [])
    pure tt

  abbrev pub base_tag : String
  base_tag = fixture.prefix <> "-rollback-source:fixture"

  unfoldable pub remove_base_tag : String → Exec Drill (Unit {0})
  remove_base_tag tag = do
    demand (tag == base_tag) "Refusing to remove an untracked source-image tag"
    details ← inspect_image tag
    id ← lift (subscript details "Id")
    demand (is_text id fixture.image) "Temporary source tag changed image identity"
    other ← lift (has_other_tag tag details)
    demand other "Refusing to remove the last tag of the verified source image"
    docker host ("image" ∷ "rm" ∷ tag ∷ [])
    after ← inspect_image fixture.image
    after_id ← lift (subscript after "Id")
    demand (is_text after_id fixture.image) "Verified source image was not preserved"
