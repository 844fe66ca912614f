-- ===== src/Tests/Rollback.antt =====
-- A candidate archive, a migration history, and removals that are allowed.
use inventory_cloud_service.Base.{
  ◌≡◌, refl, ◌↔◌, ◌⊎◌, ℕ, ◌<◌, String, true, List, [], ◌∷◌, ◌==◌, nat_eq, if◌then◌else◌, some, All,
  contains, string_eq,
}
use inventory_cloud_service.Base.Int.{pos}
use inventory_cloud_service.Base.Pattern.{is_digit}
use inventory_cloud_service.Json.{
  Value, null, bool, str, list, dict, nil, cons, end, field, ok, equals,
}
use inventory_cloud_service.Exec.{pure, lift, ◌>>=◌, require}
use inventory_cloud_service.Drill.{
  exited, Host, Identity, owner_label, purpose_label, purpose, started_drill, spawn, docker_with,
}
use inventory_cloud_service.Rollback.{
  Archive, names, read_entry, versions_of, migration, make_candidate_jar, validate_history,
  candidate_label, is_own_candidate, has_other_tag, inspect_image, remove_candidate,
  remove_base_tag,
}
use inventory_cloud_service.Rollback.Candidate.{
  IsCandidate, make_candidate_jar-eq-ok_iff, make_candidate_jar-reads,
}
use inventory_cloud_service.Rollback.Safe.{IsExtended, validate_history-eq-ok_iff}
use inventory_cloud_service.Rollback.Owned.{
  after, IsOwnCandidate, remove_candidate-proven, IsSpareTag, remove_base_tag-proven,
}
use inventory_cloud_service.Tests.Drill.{sandbox, run_id}

abbrev application : Archive
application =
    ("BOOT-INF/classes/db/migration/V2__create.sql", 1 ∷ [])
    ∷ ("BOOT-INF/classes/App.class", 2 ∷ [])
    ∷ ("BOOT-INF/classes/db/migration/V12__index.sql", 3 ∷ [])
    ∷ []

abbrev new_migration : String
new_migration = "BOOT-INF/classes/db/migration/V13__rollback_drill_add_optional_note.sql"

abbrev digits_of : ℕ → String
digits_of n = if n == 13 then "13" else "?"

abbrev candidate_jar : Archive
candidate_jar =
    ("BOOT-INF/classes/db/migration/V2__create.sql", 1 ∷ [])
    ∷ ("BOOT-INF/classes/App.class", 2 ∷ [])
    ∷ ("BOOT-INF/classes/db/migration/V12__index.sql", 3 ∷ [])
    ∷ (new_migration, migration)
    ∷ []

jar_run : make_candidate_jar digits_of application ≡ ok (13, (new_migration, candidate_jar))
unfolding make_candidate_jar is_digit
jar_run = refl

make_candidate_jar-eq-ok_iff_example :
    (make_candidate_jar digits_of application ≡ ok (13, (new_migration, candidate_jar)))
    ↔ IsCandidate digits_of application 13 new_migration candidate_jar
make_candidate_jar-eq-ok_iff_example =
    make_candidate_jar-eq-ok_iff digits_of application 13 new_migration candidate_jar

make_candidate_jar-reads_example :
    ((name : String)
      → contains name (names application) ≡ true
      → read_entry name candidate_jar ≡ read_entry name application)
    × (read_entry new_migration candidate_jar ≡ ok migration)
    × ((versions : List ℕ) × (versions_of (names application) ≡ ok versions)
        × All (λ v. v < 13) versions)
make_candidate_jar-reads_example =
    make_candidate_jar-reads digits_of application {version = 13} {resource = new_migration}
      {candidate = candidate_jar} jar_run

abbrev row : String → Value
row version = dict (field "version" (str version) (field "success" (bool true) end))

history_run : validate_history (row "12" ∷ []) (row "12" ∷ row "13" ∷ []) "13" ≡ ok tt
unfolding validate_history equals
history_run = refl

validate_history-eq-ok_iff_example :
    (validate_history (row "12" ∷ []) (row "12" ∷ row "13" ∷ []) "13" ≡ ok tt)
    ↔ IsExtended (row "12" ∷ []) (row "12" ∷ row "13" ∷ []) "13"
validate_history-eq-ok_iff_example =
    validate_history-eq-ok_iff (row "12" ∷ []) (row "12" ∷ row "13" ∷ []) "13"

abbrev rolling : Identity
rolling = record {
  run_id = run_id;
  prefix = "inventory-drill-0123456789ab";
  network = "inventory-drill-0123456789ab-network";
  admin_password = "a";
  customer_password = "c";
  db_password = "d";
  initial_runtime_password = "r";
  image = "sha256:base";
  database_image = "sha256:db";
  environment = null;
}

abbrev spare_tag : String
spare_tag = "inventory-drill-0123456789ab-rollback-source:fixture"

abbrev candidate_details : Value
candidate_details = dict (
    field "Id" (str "sha256:candidate") (
      field "Config"
        (dict (
          field "Labels"
            (dict (
              field owner_label (str run_id)
                (field purpose_label (str purpose) (field candidate_label (str "true") end))))
            end))
        end))

abbrev base_details : Value
base_details = dict (
    field "Id" (str "sha256:base")
      (field "RepoTags" (list (cons (str spare_tag) (cons (str "app:latest") nil))) end))

-- Docker knows one image.
abbrev showing : Value → Host
showing details = record sandbox {
  complete = λ h c. exited (pos 0) (1 ∷ []) [];
  loads = λ b. some (list (cons details nil));
}

candidate_gone :
    (remove_candidate (showing candidate_details) rolling "sha256:candidate" started_drill).0
    ≡ ok tt
unfolding remove_candidate inspect_image is_own_candidate docker_with spawn require ◌>>=◌ lift pure
candidate_gone = refl

tag_gone : (remove_base_tag (showing base_details) rolling spare_tag started_drill).0 ≡ ok tt
unfolding remove_base_tag inspect_image has_other_tag docker_with spawn require ◌>>=◌ lift pure
tag_gone = refl

remove_candidate-proven_example :
    let u =
      (remove_candidate (showing candidate_details) rolling "sha256:candidate" started_drill).1 in
    let looked_at = after "inspect" "sha256:candidate" started_drill in
    (u ≡ started_drill)
    ⊎ (u ≡ looked_at)
    ⊎ ((u ≡ after "rm" "sha256:candidate" looked_at)
        × IsOwnCandidate (showing candidate_details) rolling "sha256:candidate" started_drill)
remove_candidate-proven_example =
    remove_candidate-proven (showing candidate_details) rolling "sha256:candidate" started_drill

remove_base_tag-proven_example :
    let u = (remove_base_tag (showing base_details) rolling spare_tag started_drill).1 in
    let gone = after "rm" spare_tag (after "inspect" spare_tag started_drill) in
    (u ≡ started_drill)
    ⊎ (u ≡ after "inspect" spare_tag started_drill)
    ⊎ (((u ≡ gone) ⊎ (u ≡ after "inspect" "sha256:base" gone))
        × IsSpareTag (showing base_details) rolling spare_tag started_drill)
remove_base_tag-proven_example =
    remove_base_tag-proven (showing base_details) rolling spare_tag started_drill
