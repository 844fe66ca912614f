-- ===== src/Drill/Complete.antt =====
-- The recovery drill as a whole keeps its fixture sound.
use inventory_cloud_service.Base.{◌≡◌, refl, ℕ, String, true, List, [], ◌∷◌, arith}
use inventory_cloud_service.Base.Int.{ℤ}
use inventory_cloud_service.Json.{Value, Fields}
use inventory_cloud_service.Exec.Steps.{Steps-bind}
use inventory_cloud_service.Drill.World.{Bytes, Host, Drill, Identity}
use inventory_cloud_service.Drill.Fixture.{is_own_name}
use inventory_cloud_service.Drill.Session.{note, note_in}
use inventory_cloud_service.Drill.Recovery.{
  Seeded, seed, check_restored, judge_liveness, watch_outage, unpause, outage, serve, take_backup,
  restore, run_drill,
}
use inventory_cloud_service.Drill.Sound.{IsSound, is_proper}
use inventory_cloud_service.Drill.Keeps.{
  action_rules, fixture_rules, keeping, Keeps, start_database-Keeps, migrate_database-Keeps,
  check_runtime_login-Keeps, expect-Keeps, wait_health-Keeps, send_request-Keeps, start_app-Keeps,
  create_network-Keeps, owned_bind-Keeps, docker_with-Keeps, act-proper, monotonic-Keeps,
  modify-Keeps, exec-proper,
}

module _ (host : Host) (fixture : Identity) where
  pub report-IsSound :
      (f : Drill → Fields) (s : Drill)
      → IsSound fixture s
      → IsSound fixture (record s { report = f s })
  report-IsSound f s h = record {
    named = h.named;
    unique = h.unique;
    passwords = h.passwords;
    proper = h.proper;
  }

  pub note-Keeps : (k : String) (v : Value) → Keeps host fixture (note k v)
  unfolding note
  note-Keeps k v = search (modify-Keeps, report-IsSound)

  pub note_in-Keeps : (section k : String) (v : Value) → Keeps host fixture (note_in section k v)
  unfolding note_in
  note_in-Keeps section k v = search (action_rules, keeping, note-Keeps) depth 40

-- What a drill does with its fixture and its report.
pub ruleset drill_rules = (fixture_rules, note-Keeps, note_in-Keeps)

module _ (host : Host) (fixture : Identity) where
  seed-Keeps : (source : ℤ) → Keeps host fixture (seed host fixture source)
  unfolding seed
  seed-Keeps source = search drill_rules depth 60

  check_restored-Keeps :
      (source restored : ℤ) (seeded : Seeded)
      → Keeps host fixture (check_restored host fixture source restored seeded)
  unfolding check_restored
  check_restored-Keeps source restored seeded = search drill_rules depth 60

  judge_liveness-Keeps : (r : ℕ × Value) → Keeps host fixture (judge_liveness host fixture r)
  unfolding judge_liveness
  judge_liveness-Keeps (status, payload) = search drill_rules depth 60

  watch_outage-Keeps :
      (restored : ℤ) (started : ℕ) → Keeps host fixture (watch_outage host fixture restored started)
  unfolding watch_outage
  watch_outage-Keeps restored started = search (drill_rules, judge_liveness-Keeps) depth 60

  unpause-Keeps : (database : String) → Keeps host fixture (unpause host fixture database)
  unfolding unpause
  unpause-Keeps database = owned_bind-Keeps host fixture "container" database _ λ _ own.
      search
        (
          drill_rules,
          docker_with-Keeps,
          act-proper host fixture "container" "unpause" database own refl,
        )
        depth 40

  outage-Keeps :
      (database : String) (restored : ℤ) (seeded : Seeded)
      → Keeps host fixture (outage host fixture database restored seeded)
  unfolding outage
  outage-Keeps database restored seeded =
      owned_bind-Keeps host fixture "container" database _ λ _ own.
        search
          (
            drill_rules,
            docker_with-Keeps,
            act-proper host fixture "container" "pause" database own refl,
            watch_outage-Keeps,
            unpause-Keeps,
          )
          depth 60

  serve-Keeps :
      (database role key app : String)
      → Keeps host fixture (serve host fixture database role key app)
  unfolding serve
  serve-Keeps database role key app = search drill_rules depth 60

  take_backup-Keeps : (database : String) → Keeps host fixture (take_backup host fixture database)
  unfolding take_backup
  take_backup-Keeps database =
      Steps-bind (keeping host fixture) _ _ (monotonic-Keeps host fixture) λ started.
        owned_bind-Keeps host fixture "container" database _ λ _ own.
          search
            (
              drill_rules,
              docker_with-Keeps,
              exec-proper host fixture database
                  ("pg_dump" ∷ "--username" ∷ "inventory" ∷ "--dbname" ∷ "inventory" ∷ "--format"
                    ∷ "custom" ∷ "--no-owner" ∷ "--no-privileges" ∷ [])
                  own,
            )
            depth 60

  interactive-proper :
      (name : String) (args : List String)
      → is_own_name fixture name ≡ true
      → (tracked : List String)
      → is_proper fixture tracked ("docker" ∷ "exec" ∷ "--interactive" ∷ name ∷ args) ≡ true
  interactive-proper name args own tracked = rw own (ground arith)

  restore-Keeps :
      (database : String) (backup : Bytes)
      → Keeps host fixture (restore host fixture database backup)
  unfolding restore
  restore-Keeps database backup =
      Steps-bind (keeping host fixture) _ _ (monotonic-Keeps host fixture) λ started.
        owned_bind-Keeps host fixture "container" database _ λ _ own.
          search
            (
              drill_rules,
              docker_with-Keeps,
              interactive-proper database
                  ("pg_restore" ∷ "--username" ∷ "inventory" ∷ "--dbname" ∷ "inventory"
                    ∷ "--exit-on-error" ∷ "--no-owner" ∷ "--no-privileges" ∷ [])
                  own,
            )
            depth 60

  pub run_drill-Keeps :
      is_own_name fixture fixture.network ≡ true → Keeps host fixture (run_drill host fixture)
  unfolding run_drill
  run_drill-Keeps own =
      Steps-bind (keeping host fixture) _ _ (create_network-Keeps host fixture own) λ _.
        Steps-bind (keeping host fixture) _ _ (start_database-Keeps host fixture "source-db")
          λ database. Steps-bind (keeping host fixture) _ _ (serve-Keeps database _ _ _) λ source.
            Steps-bind (keeping host fixture) _ _ (seed-Keeps source) λ seeded.
              search
                (drill_rules, take_backup-Keeps, restore-Keeps, check_restored-Keeps, outage-Keeps)
                depth 80
