-- ===== src/Drill/Fixture/Containers.antt =====
-- The methods of Fixture that own resources: labels, `owned`, `run_container`, `create_network`.
use text.Mathlib.Text.{starts_with}
use inventory_cloud_service.Base.{
  String, ◌<>◌, Bool, true, not, ◌&&◌, ◌||◌, none, List, [], ◌∷◌, ◌++◌, ◌==◌, nat_eq, string_eq,
  if◌then◌else◌, contains,
}
use inventory_cloud_service.Base.Int.{int_eq}
use inventory_cloud_service.Json.{
  Value, null, dict, end, Result, ok, err, present, get, first, is_text,
}
use inventory_cloud_service.Exec.{Exec, pure, lift, ◌>>=◌, ◌>>◌, gets, modify}
use inventory_cloud_service.Drill.World.{Host, Drill, Identity}
use inventory_cloud_service.Drill.Defs.{
  owner_label, purpose_label, purpose, demand, docker_with, docker,
}

-- Whether a name is one that a fixture gives: `name.startswith(self.prefix + "-")`.
abbrev pub is_own_name : Identity → String → Bool
is_own_name fixture name = starts_with name (fixture.prefix <> "-")

-- What the fixture has made itself, as far as it knows.
abbrev pub is_tracked : Identity → Drill → String → String → Bool
is_tracked fixture s kind name =
    (kind == "container" && contains name s.containers)
    || (kind == "network" && name == fixture.network && s.network_created)

abbrev pub labels_of : String → Value → Result Value
labels_of kind item =
    if kind == "network"
    then get item "Labels" (dict end)
    else elim (get item "Config" (dict end)) [
      | ok config ↦ get config "Labels" (dict end)
      | err e ↦ err e
    ]

module _ (host : Host) (fixture : Identity) where
  abbrev pub labels : List String
  labels =
      "--label"
      ∷ (owner_label <> "=" <> fixture.run_id)
      ∷ "--label"
      ∷ (purpose_label <> "=" <> purpose)
      ∷ []

  unfoldable pub create_network : Exec Drill (Unit {0})
  create_network = do
    modify (λ s. record s { network_created = true })
    docker host ("network" ∷ "create" ∷ (labels ++ fixture.network ∷ []))
    pure tt

  unfoldable pub check_labels : String → String → Value → Exec Drill (Unit {0})
  check_labels kind name item = do
    found ← lift (labels_of kind item)
    owner ← lift (get found owner_label null)
    found_purpose ← lift (get found purpose_label null)
    demand (is_text owner fixture.run_id && is_text found_purpose purpose)
        ("Refusing operation: ownership labels do not match for " <> name)

  unfoldable pub owned : String → String → Exec Drill Value
  owned kind name = do
    demand (is_own_name fixture name) "Refusing operation on a name outside this drill"
    tracked ← gets (λ s. is_tracked fixture s kind name)
    demand tracked "Refusing operation on a resource not created by this fixture"
    out ← docker host (kind ∷ "inspect" ∷ name ∷ [])
    items ← lift (present (host.loads out))
    item ← lift (first items)
    check_labels kind name item
    pure item

  abbrev pub run_arguments : String → String → List String → List String
  run_arguments name image arguments =
      "run"
      ∷ "--detach"
      ∷ "--name"
      ∷ name
      ∷ (labels ++ "--network" ∷ fixture.network ∷ (arguments ++ image ∷ []))

  -- The name of the container that `run_container` makes for a role.
  abbrev pub container_name : String → String
  container_name role = fixture.prefix <> "-" <> role

  unfoldable pub run_container :
      String → String → List String → List (String × String) → Exec Drill String
  run_container role image arguments environment = do
    let name = container_name role
    known ← gets (λ s. contains name s.containers)
    demand (not known) "Duplicate disposable container name"
    modify (λ s. record s { containers = s.containers ++ name ∷ [] })
    docker_with host (run_arguments name image arguments) none environment 90
    owned "container" name
    pure name
