-- ===== src/Rotation/Sound.antt =====
-- A whole run of `main` of scripts/credential-rotation-drill.py keeps its fixture sound.
use inventory_cloud_service.Base.{◌≡◌, String, true, ◌⊎◌}
use inventory_cloud_service.Base.Int.{ℤ}
use inventory_cloud_service.Json.{Exc, err, ok}
use inventory_cloud_service.Exec.Steps.{Steps-bind}
use inventory_cloud_service.Drill.{Host, Identity, Seeded, is_own_name, new_fixture, started_drill}
use inventory_cloud_service.Drill.Made.{HasOnlyLooked}
use inventory_cloud_service.Drill.Sound.{IsSound}
use inventory_cloud_service.Drill.Keeps.{keeping, Keeps, create_network-Keeps}
use inventory_cloud_service.Drill.Complete.{drill_rules}
use inventory_cloud_service.Drill.Whole.{new_token-Keeps, main_with-IsSound}
use inventory_cloud_service.Rotation.Defs.{
  seed_rotation, rotate, check_replacement, prepare_rotation, run_rotation, main,
}

module _ (host : Host) (fixture : Identity) where
  seed_rotation-Keeps : (port : ℤ) → Keeps host fixture (seed_rotation host fixture port)
  unfolding seed_rotation
  seed_rotation-Keeps port = search drill_rules depth 60

  rotate-Keeps :
      (database old_password : String)
      → Keeps host fixture (rotate host fixture database old_password)
  unfolding rotate
  rotate-Keeps database old_password = search (drill_rules, new_token-Keeps) depth 60

  check_replacement-Keeps :
      (port : ℤ) (seeded : Seeded) → Keeps host fixture (check_replacement host fixture port seeded)
  unfolding check_replacement
  check_replacement-Keeps port seeded = search drill_rules depth 60

  prepare_rotation-Keeps :
      is_own_name fixture fixture.network ≡ true
      → Keeps host fixture (prepare_rotation host fixture)
  unfolding prepare_rotation
  prepare_rotation-Keeps own =
      Steps-bind (keeping host fixture) _ _ (create_network-Keeps host fixture own)
        λ _. search (drill_rules, seed_rotation-Keeps) depth 60

  run_rotation-Keeps :
      is_own_name fixture fixture.network ≡ true → Keeps host fixture (run_rotation host fixture)
  unfolding run_rotation
  run_rotation-Keeps own =
      Steps-bind (keeping host fixture) _ _ (prepare_rotation-Keeps own)
        λ before. search (drill_rules, rotate-Keeps, check_replacement-Keeps) depth 60

module _ (host : Host) where
  -- A run of the rotation drill, whatever Docker and the service answer and wherever it raises, ends
  -- in a state that is sound for the fixture: the names of all containers are distinct and of this
  -- run, each database said to be migrated has a runtime password, and each Docker command given
  -- starts a container that the cleanup knows, only looks (at Docker itself, an image, or a
  -- listing), or, not being a command on images, names something of this run. Where the fixture
  -- cannot be made, each Docker command given only looks, and no container is tracked and no network
  -- is noted as created.
  pub rotation-IsSound :
      (image database_image : String)
      → let made = new_fixture host image database_image started_drill in
        ((x : Exc) × (made.0 ≡ err x)
          × HasOnlyLooked (main host image database_image started_drill).1)
        ⊎ ((fixture : Identity) × (made.0 ≡ ok fixture)
            × IsSound fixture (main host image database_image started_drill).1)
  unfolding main
  rotation-IsSound image database_image =
      main_with-IsSound host (run_rotation host) (run_rotation-Keeps host) image database_image
