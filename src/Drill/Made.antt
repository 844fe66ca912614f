-- ===== src/Drill/Made.antt =====
-- What the making of a fixture in scripts/recovery-drill.py leaves behind when it raises.
use inventory_cloud_service.Base.{
  ◌≡◌, String, Bool, true, false, ◌&&◌, List, [], ◌∷◌, ◌==◌, string_eq, All, none,
}
use inventory_cloud_service.Exec.{Exec}
use inventory_cloud_service.Exec.Steps.{IsPreorder, Steps}
use inventory_cloud_service.Drill.World.{Call, Event, called, Host, Drill}
use inventory_cloud_service.Drill.Defs.{spawn, docker_with, docker_text}
use inventory_cloud_service.Drill.Fixture.{image_id, new_hex, new_token, new_fixture}
use inventory_cloud_service.Drill.Keeps.{action_rules}
use inventory_cloud_service.Drill.Sound.{looks}

abbrev only_looks : List String → Bool
only_looks (program ∷ verb ∷ args) = program == "docker" && looks verb args
only_looks _ = false

abbrev IsLook : Event → Type 0
IsLook (called c) = only_looks c.args ≡ true
IsLook _ = Unit

-- Each Docker command so far only looks, and there is nothing to clean up.
pub record HasOnlyLooked (s : Drill) : Type 0 where
  pub commands : All IsLook s.history
  pub no_container : s.containers ≡ []
  pub no_network : s.network_created ≡ false

abbrev Looking : Drill → Drill → Type 0
Looking s t = HasOnlyLooked s → HasOnlyLooked t

abbrev Looks : {A : Type 0} → Exec Drill A → Type 0
Looks = Steps Looking

looking : IsPreorder Looking
looking = record { refl_at = λ s h. h; trans = λ p q h. q (p h) }

event-HasOnlyLooked :
    (e : Event) {s : Drill}
    → IsLook e
    → HasOnlyLooked s
    → HasOnlyLooked (record s { history = e ∷ s.history })
event-HasOnlyLooked e p h = record {
  commands = (p, h.commands);
  no_container = h.no_container;
  no_network = h.no_network;
}

module _ (host : Host) where
  spawn-Looks : (c : Call) → only_looks c.args ≡ true → Looks (spawn host c)
  unfolding spawn
  spawn-Looks c p = record { at = λ s h. event-HasOnlyLooked (called c) p h }

  new_hex-Looks : Looks (new_hex host)
  unfolding new_hex
  new_hex-Looks = record { at = λ s h. event-HasOnlyLooked _ tt h }

  new_token-Looks : Looks (new_token host)
  unfolding new_token
  new_token-Looks = record { at = λ s h. event-HasOnlyLooked _ tt h }

  docker-Looks :
      (args : List String)
      → only_looks ("docker" ∷ args) ≡ true
      → Looks (docker_with host args none [] 90)
  unfolding docker_with
  docker-Looks args p = search (action_rules, looking, spawn-Looks, p) depth 40

  image_id-Looks : (image : String) → Looks (image_id host image)
  unfolding image_id docker_text
  image_id-Looks image = search (action_rules, looking, docker-Looks) depth 40

  pub new_fixture-Looks :
      (image database_image : String) → Looks (new_fixture host image database_image)
  unfolding new_fixture
  new_fixture-Looks image database_image =
      search (action_rules, looking, new_hex-Looks, new_token-Looks, image_id-Looks, docker-Looks)
        depth 60
