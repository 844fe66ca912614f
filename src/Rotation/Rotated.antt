-- ===== src/Rotation/Rotated.antt =====
-- What a rotation drill that ends with exit status 0 has shown.
use inventory_cloud_service.Base.{◌≡◌, ℕ, String, string_eq}
use inventory_cloud_service.Base.Int.{ℤ}
use inventory_cloud_service.Json.{Value, ok}
use inventory_cloud_service.Exec.Steps.{bind-eq-ok}
use inventory_cloud_service.Drill.{
  note, note_in, Host, Drill, Identity, Outcome, start_app, monotonic, stop_container,
}
use inventory_cloud_service.Drill.Removed.{HasRun, main_with-HasRun}
use inventory_cloud_service.Rotation.Defs.{
  rotate, check_replacement, prepare_rotation, run_rotation, main, Before,
}
use inventory_cloud_service.Rotation.Preserved.{IsPreserved, check_replacement-Finds}
use inventory_cloud_service.Rotation.Replaced.{
  IsPrepared, prepare_rotation-IsPrepared, IsReplaced, rotate-IsReplaced,
}

module _ (host : Host) (fixture : Identity) where
  -- The run from `s` to `t` was a rotation, step by step: prepared, the first runtime stopped, the
  -- password replaced, a second runtime started on the database, and that one asked for what was
  -- bought before.
  pub record IsRotated (s t : Drill) : Type 0 where
    pub before : Before
    pub ready : Drill
    pub prepared : prepare_rotation host fixture s ≡ (ok before, ready)
    pub is_prepared : IsPrepared host fixture s before ready
    pub clock : ℕ
    pub timed : Drill
    pub started : monotonic host ready ≡ (ok clock, timed)
    pub stopped : Drill
    pub stop : stop_container host fixture before.old_container timed ≡ (ok tt, stopped)
    pub told : Drill
    pub maintenance : (entry : Value) × (note "maintenance" entry stopped ≡ (ok tt, told))
    pub rotated : Drill
    pub rotation : rotate host fixture before.database before.old_password told ≡ (ok tt, rotated)
    pub replaced : IsReplaced host fixture told before.database before.old_password rotated
    pub replacement : String × ℤ
    pub running : Drill
    pub restarted :
        start_app host fixture "replacement-runtime" before.database rotated
        ≡ (ok replacement, running)
    pub asked : Drill
    pub later : Drill
    pub now : ℕ
    pub read_clock : monotonic host running ≡ (ok now, later)
    pub duration :
        (entry : Value) × (note_in "maintenance" "stop_through_replacement_ready_seconds" entry
            later
          ≡ (ok tt, asked))
    pub checked : Drill
    pub check : check_replacement host fixture replacement.1 before.seeded asked ≡ (ok tt, checked)
    pub preserved : IsPreserved host fixture replacement.1 before.seeded
    pub notes :
        (checks limits : Value) × (between : Drill) × (note "business_checks" checks checked
          ≡ (ok tt, between))
        × (note "limits" limits between ≡ (ok tt, t))

  run_rotation-IsRotated :
      (s : Drill) {t : Drill} → run_rotation host fixture s ≡ (ok tt, t) → IsRotated s t
  unfolding run_rotation
  run_rotation-IsRotated s e =
      let (before, s₁, prepared, r₁) = bind-eq-ok (prepare_rotation host fixture) _ s e in
      let (clock, s₂, started, r₂) = bind-eq-ok (monotonic host) _ s₁ r₁ in
      let (_, s₃, stop, r₃) =
        bind-eq-ok (stop_container host fixture before.old_container) _ s₂ r₂ in
      let (_, s₄, noted, r₄) = bind-eq-ok (note "maintenance" _) _ s₃ r₃ in
      let (_, s₅, rotation, r₅) =
        bind-eq-ok (rotate host fixture before.database before.old_password) _ s₄ r₄ in
      let (replacement, s₆, restarted, r₆) =
        bind-eq-ok (start_app host fixture "replacement-runtime" before.database) _ s₅ r₅ in
      let (now, s₇, read_clock, r₇) = bind-eq-ok (monotonic host) _ s₆ r₆ in
      let (_, s₈, duration, r₈) =
        bind-eq-ok (note_in "maintenance" "stop_through_replacement_ready_seconds" _) _ s₇ r₇ in
      let (_, s₉, check, r₉) =
        bind-eq-ok (check_replacement host fixture replacement.1 before.seeded) _ s₈ r₈ in
      let (_, s₁₀, checks, r₁₀) = bind-eq-ok (note "business_checks" _) _ s₉ r₉ in
      record {
        before = before;
        ready = s₁;
        prepared = prepared;
        is_prepared = prepare_rotation-IsPrepared host fixture s prepared;
        clock = clock;
        timed = s₂;
        started = started;
        stopped = s₃;
        stop = stop;
        told = s₄;
        maintenance = (_, noted);
        rotated = s₅;
        rotation = rotation;
        replaced = rotate-IsReplaced host fixture before.database before.old_password s₄ rotation;
        replacement = replacement;
        running = s₆;
        restarted = restarted;
        asked = s₈;
        later = s₇;
        now = now;
        read_clock = read_clock;
        duration = (_, duration);
        checked = s₉;
        check = check;
        preserved =
            (check_replacement-Finds host fixture replacement.1 before.seeded).at s₈ tt s₉ check;
        notes = (_, _, s₁₀, checks, r₁₀);
      }

module _ (host : Host) where
  -- The exit status of the rotation drill is 0 only if its run, on the fixture made for it, was the
  -- following. The initial migration set a password, with which PostgreSQL then accepted a login, and a
  -- purchase was made. Then a migration with a new password, which differs, returned; in the state
  -- that it left PostgreSQL rejected the old password with its own message, and after that it accepted
  -- the new one. A runtime started after that has answered with the product and the reservation of
  -- that purchase, has replayed it for its key, has cancelled the reservation once, and has the stock
  -- of 23 again. The containers that the fixture tracked at the end of that run, and its network if it
  -- was created, are gone.
  pub main-IsRotated :
      (image database_image : String) (s : Drill) {o : Outcome} {t : Drill}
      → main host image database_image s ≡ (ok o, t)
      → o.exit_status ≡ 0
      → (fixture : Identity) × (start after : Drill) × HasRun host
          (run_rotation host)
          image
          database_image
          s
          fixture
          start
          after
        × IsRotated host fixture start after
  unfolding main
  main-IsRotated image database_image s e z =
      let (fixture, start, after, has_run) =
        main_with-HasRun host (run_rotation host) image database_image s e z in
      (fixture, start, after, has_run, run_rotation-IsRotated host fixture start has_run.ran)
