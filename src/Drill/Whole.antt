-- ===== src/Drill/Whole.antt =====
-- A whole run of `main` of scripts/recovery-drill.py.
use inventory_cloud_service.Base.{
  ◌≡◌, refl, sym, String, true, none, List, [], ◌∷◌, arith, ◌⊎◌, inl, inr,
}
use mathlib.Core.Path.{subst}
use inventory_cloud_service.Json.{Value, Exc, Result, ok, err, present}
use inventory_cloud_service.Exec.{Exec, pure, ◌>>=◌, attempt}
use inventory_cloud_service.Exec.Steps.{bind-eq-ok, lift-eq-ok, pure-eq-ok}
use inventory_cloud_service.Drill.World.{generated, Host, Drill, Identity}
use inventory_cloud_service.Drill.Defs.{docker_with}
use inventory_cloud_service.Drill.Fixture.{
  is_own_name, image_id, assemble, new_hex, new_token, new_fixture, started_drill,
}
use inventory_cloud_service.Drill.Session.{attempt_run, conclude, main_with, share_runs, set_item}
use inventory_cloud_service.Drill.Recovery.{run_drill, main}
use inventory_cloud_service.Drill.Metadata.{metadata}
use inventory_cloud_service.Drill.Made.{HasOnlyLooked, new_fixture-Looks}
use inventory_cloud_service.Drill.Sound.{IsSound, is_proper, event-IsSound}
use inventory_cloud_service.Drill.Keeps.{
  action_rules, keeping, Keeps, own_name-append, cleanup-Keeps, docker_with-Keeps,
  docker_text-Keeps, modify-Keeps,
}
use inventory_cloud_service.Drill.Complete.{note-Keeps, report-IsSound, run_drill-Keeps}

module _ (host : Host) where
  module _ (fixture : Identity) where
    new_hex-Keeps : Keeps host fixture (new_hex host)
    unfolding new_hex
    new_hex-Keeps = record { at = λ s h. event-IsSound fixture h (generated _) tt }

    pub new_token-Keeps : Keeps host fixture (new_token host)
    unfolding new_token
    new_token-Keeps = record { at = λ s h. event-IsSound fixture h (generated _) tt }

    look-proper :
        (args tracked : List String)
        → is_proper fixture tracked ("docker" ∷ "image" ∷ "inspect" ∷ args) ≡ true
    look-proper args tracked = ground arith

    info-proper :
        (args tracked : List String) → is_proper fixture tracked ("docker" ∷ "info" ∷ args) ≡ true
    info-proper args tracked = ground arith

    image_id-Keeps : (image : String) → Keeps host fixture (image_id host image)
    unfolding image_id
    image_id-Keeps image =
        search
          (
            action_rules,
            keeping,
            docker_text-Keeps,
            look-proper (image ∷ "--format" ∷ "{{.Id}}" ∷ []),
          )
          depth 40

    new_fixture-Keeps :
        (image database_image : String) → Keeps host fixture (new_fixture host image database_image)
    unfolding new_fixture
    new_fixture-Keeps image database_image =
        search
          (
            action_rules,
            keeping,
            new_hex-Keeps,
            new_token-Keeps,
            image_id-Keeps,
            docker_with-Keeps,
            info-proper ("--format" ∷ "{{json .}}" ∷ []),
          )
          depth 60

  assemble-own :
      (run_id admin customer db_password runtime_password app database : String)
      (environment : Value)
      → let f =
          assemble host run_id admin customer db_password runtime_password app database
            environment in
        is_own_name f f.network ≡ true
  unfolding assemble
  assemble-own run_id admin customer db_password runtime_password app database environment =
      own_name-append
        (assemble host run_id admin customer db_password runtime_password app database environment)
        "network"

  new_fixture-own :
      (image database_image : String) (s : Drill) {fixture : Identity} {t : Drill}
      → new_fixture host image database_image s ≡ (ok fixture, t)
      → is_own_name fixture fixture.network ≡ true
  unfolding new_fixture
  new_fixture-own image database_image s e =
      let (run_id, s₁, _, r₁) = bind-eq-ok (new_hex host) _ s e in
      let (admin, s₂, _, r₂) = bind-eq-ok (new_token host) _ s₁ r₁ in
      let (customer, s₃, _, r₃) = bind-eq-ok (new_token host) _ s₂ r₂ in
      let (db_password, s₄, _, r₄) = bind-eq-ok (new_token host) _ s₃ r₃ in
      let (runtime_password, s₅, _, r₅) = bind-eq-ok (new_token host) _ s₄ r₄ in
      let (app, s₆, _, r₆) = bind-eq-ok (image_id host image) _ s₅ r₅ in
      let (database, s₇, _, r₇) = bind-eq-ok (image_id host database_image) _ s₆ r₆ in
      let (out, s₈, _, r₈) =
        bind-eq-ok (docker_with host ("info" ∷ "--format" ∷ "{{json .}}" ∷ []) none [] 90) _ s₇
          r₇ in
      let (environment, _, r₉) = lift-eq-ok (present (host.loads out)) _ s₈ r₈ in
      let made =
        pure-eq-ok
          (assemble host run_id admin customer db_password runtime_password app database
            environment)
          s₈ r₉ in
      subst (λ f. is_own_name f f.network ≡ true) (sym made)
        (assemble-own run_id admin customer db_password runtime_password app database environment)

module _ (host : Host) (run : Identity → Exec Drill (Unit {0}))
    (run-Keeps : (fixture : Identity)
      → is_own_name fixture fixture.network ≡ true
      → Keeps host fixture (run fixture)) where
  module _ (fixture : Identity) where
    attempt_run-Keeps :
        is_own_name fixture fixture.network ≡ true
        → Keeps host fixture (attempt_run host run fixture)
    unfolding attempt_run
    attempt_run-Keeps own = search (action_rules, keeping, note-Keeps, run-Keeps) depth 40

    share_runs-IsSound :
        (s : Drill) → IsSound fixture s → IsSound fixture (share_runs host run fixture s)
    share_runs-IsSound s h = shared (metadata fixture s.migration_runs)
      where
        shared :
            (r : Result Value)
            → IsSound fixture (elim r [
              | ok environment ↦ record s { report = set_item "environment" environment s.report }
              | err e ↦ s
            ])
        shared (ok environment) =
            report-IsSound host fixture (λ t. set_item "environment" environment t.report) s h
        shared (err e) = h

    started-IsSound : IsSound fixture started_drill
    started-IsSound = record { named = tt; unique = refl; passwords = tt; proper = tt }

    conclude-Keeps :
        is_own_name fixture fixture.network ≡ true
        → Keeps host fixture (conclude host run (ok fixture))
    unfolding conclude
    conclude-Keeps own =
        search
          (
            action_rules, keeping, attempt_run-Keeps, cleanup-Keeps, modify-Keeps,
            share_runs-IsSound,
          )
          depth 40

  pub main_with-IsSound :
      (image database_image : String)
      → let made = new_fixture host image database_image started_drill in
        ((x : Exc) × (made.0 ≡ err x)
          × HasOnlyLooked (main_with host run image database_image started_drill).1)
        ⊎ ((fixture : Identity) × (made.0 ≡ ok fixture)
            × IsSound fixture (main_with host run image database_image started_drill).1)
  unfolding main_with conclude pure ◌>>=◌ attempt
  main_with-IsSound image database_image =
      split_made (new_fixture host image database_image started_drill).0 refl
    where
      split_made :
          (r : Result Identity)
          → (new_fixture host image database_image started_drill).0 ≡ r
          → ((x : Exc) × (r ≡ err x)
              × HasOnlyLooked
                  (conclude host run r (new_fixture host image database_image started_drill).1).1)
            ⊎ ((fixture : Identity) × (r ≡ ok fixture)
                × IsSound fixture
                    (conclude host run r (new_fixture host image database_image started_drill).1).1)
      split_made (err x) e = inl (
        x,
        refl,
        (new_fixture-Looks host image database_image).at started_drill
            (record { commands = tt; no_container = refl; no_network = refl }),
      )
      split_made (ok fixture) e =
          let t = (new_fixture host image database_image started_drill).1 in
          let own =
            new_fixture-own host image database_image started_drill {fixture = fixture} {t = t}
              (λ i. (e i, t)) in
          inr (
            fixture,
            refl,
            (conclude-Keeps fixture own).at t (
                (new_fixture-Keeps host fixture image database_image).at started_drill
                  (started-IsSound fixture)),
          )

module _ (host : Host) where
  -- A run of the drill, whatever Docker and the service answer and wherever it raises, ends in a
  -- state that is sound for the fixture: the names of all containers are distinct and of this run,
  -- each database said to be migrated has a runtime password, and each Docker command given starts a
  -- container that the cleanup knows, only looks (at Docker itself, an image, or a listing), or, not
  -- being a command on images, names something of this run. Where the fixture cannot be made, each
  -- Docker command given only looks, and no container is tracked and no network is noted as created.
  pub main-IsSound :
      (image database_image : String)
      → let made = new_fixture host image database_image started_drill in
        ((x : Exc) × (made.0 ≡ err x)
          × HasOnlyLooked (main host image database_image started_drill).1)
        ⊎ ((fixture : Identity) × (made.0 ≡ ok fixture)
            × IsSound fixture (main host image database_image started_drill).1)
  unfolding main
  main-IsSound image database_image =
      main_with-IsSound host (run_drill host) (run_drill-Keeps host) image database_image
