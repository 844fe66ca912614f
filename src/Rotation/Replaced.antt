-- ===== src/Rotation/Replaced.antt =====
-- What the steps of the rotation do before a new service is started.
use mathlib.Core.Path.{subst}
use inventory_cloud_service.Base.{
  ◌≡◌, refl, sym, ap, ◌∙◌, String, Bool, true, false, not, none, some, ◌==◌, string_eq,
}
use inventory_cloud_service.Base.Int.{ℤ}
use inventory_cloud_service.Json.{Value, ok}
use inventory_cloud_service.Json.Ensures.{ok-injective}
use inventory_cloud_service.Exec.{pure, gets}
use inventory_cloud_service.Exec.Steps.{bind-eq-ok, lift-eq-ok, require-bind-eq-ok}
use inventory_cloud_service.Drill.{
  new_token, migrate_database, check_runtime_login, note, Host, Drill, Identity, create_network,
  start_database, start_app, lookup,
}
use inventory_cloud_service.Drill.Gone.{got}
use inventory_cloud_service.Drill.Served.{
  LoggedIn, Rejected, check_runtime_login-LoggedIn, check_runtime_login-Rejected,
}
use inventory_cloud_service.Rotation.Defs.{seed_rotation, rotate, prepare_rotation, Before}

-- What holds of a value and a state holds of those that `pure` gives.
pure-moved :
    {S A : Type 0} (P : A → S → Type 0) {a b : A} {s t : S} → pure a s ≡ (ok b, t) → P a s → P b t
unfolding pure
pure-moved P {a} {b} {s} {t} e p =
    subst (P b) (ap (λ x. x.1) e) (subst (λ c. P c s) (ok-injective (ap (λ x. x.0) e)) p)

module _ (host : Host) (fixture : Identity) where
  -- The run from `s` to `t` has prepared the rotation: the initial migration set a password, with which
  -- PostgreSQL then accepted a login, and the purchase was made through the first runtime.
  pub record IsPrepared (s : Drill) (before : Before) (t : Drill) : Type 0 where
    pub connected : Drill
    pub created : create_network host fixture s ≡ (ok tt, connected)
    pub served : Drill
    pub database :
        start_database host fixture "rotation-db" connected ≡ (ok before.database, served)
    pub migrated : Drill
    pub job : String
    pub migration :
        migrate_database host fixture "initial-migrate" before.database none served
        ≡ (ok job, migrated)
    pub known : lookup before.database migrated.runtime_passwords ≡ ok before.old_password
    pub probe : Value
    pub probed : Drill
    pub login :
        check_runtime_login host fixture before.database before.old_password true migrated
        ≡ (ok probe, probed)
    pub accepted : LoggedIn host fixture probed before.database before.old_password
    pub noted : Drill
    pub note_login : note "initial_runtime_login" probe probed ≡ (ok tt, noted)
    pub old : String × ℤ
    pub named : before.old_container ≡ old.0
    pub running : Drill
    pub started : start_app host fixture "old-runtime" before.database noted ≡ (ok old, running)
    pub bought : seed_rotation host fixture old.1 running ≡ (ok before.seeded, t)

  pub prepare_rotation-IsPrepared :
      (s : Drill) {before : Before} {t : Drill}
      → prepare_rotation host fixture s ≡ (ok before, t)
      → IsPrepared s before t
  unfolding prepare_rotation
  prepare_rotation-IsPrepared s {before} {t} e =
      let (_, s₁, created, r₁) = bind-eq-ok (create_network host fixture) _ s e in
      let (database, s₂, database_e, r₂) =
        bind-eq-ok (start_database host fixture "rotation-db") _ s₁ r₁ in
      let (job, s₃, migration, r₃) =
        bind-eq-ok (migrate_database host fixture "initial-migrate" database none) _ s₂ r₂ in
      let (passwords, s₄, got_e, r₄) = bind-eq-ok (gets (λ d. d.runtime_passwords)) _ s₃ r₃ in
      let (are, unchanged) = got (λ (d : Drill). d.runtime_passwords) s₃ got_e in
      let (password, known, r₅) = lift-eq-ok (lookup database passwords) _ s₄ r₄ in
      let (probe, s₆, login, r₆) =
        bind-eq-ok (check_runtime_login host fixture database password true) _ s₄ r₅ in
      let (_, s₇, note_login, r₇) = bind-eq-ok (note "initial_runtime_login" probe) _ s₆ r₆ in
      let (old, s₈, started, r₈) =
        bind-eq-ok (start_app host fixture "old-runtime" database) _ s₇ r₇ in
      let (seeded, s₉, bought, r₉) = bind-eq-ok (seed_rotation host fixture old.1) _ s₈ r₈ in
      let login_there =
        subst (λ d. check_runtime_login host fixture database password true d ≡ (ok probe, s₆))
          unchanged login in
      let made : IsPrepared s
          (record {
            database = database;
            old_password = password;
            old_container = old.0;
            seeded = seeded;
          })
          s₉ =
        record {
          connected = s₁;
          created = created;
          served = s₂;
          database = database_e;
          migrated = s₃;
          job = job;
          migration = migration;
          known = ap (lookup database) (sym are) ∙ known;
          probe = probe;
          probed = s₆;
          login = login_there;
          accepted = check_runtime_login-LoggedIn host fixture database password s₃ login_there;
          noted = s₇;
          note_login = note_login;
          old = old;
          named = refl;
          running = s₈;
          started = started;
          bought = bought;
        } in
      pure-moved (IsPrepared s) r₉ made

  -- The run from `s` to `t` has replaced the password: a migration set the new one, and the old one
  -- was probed in the state that it left, the new one after that.
  pub record IsReplaced (s : Drill) (database old_password : String) (t : Drill) : Type 0 where
    pub new_password : String
    pub chosen : Drill
    pub fresh : new_token host s ≡ (ok new_password, chosen)
    pub different : (new_password == old_password) ≡ false
    pub job : String
    pub migrated : Drill
    pub migration :
        migrate_database host fixture "rotation-migrate" database (some new_password) chosen
        ≡ (ok job, migrated)
    pub probe : Value
    pub probed : Drill
    pub probed_old :
        check_runtime_login host fixture database old_password false migrated ≡ (ok probe, probed)
    pub rejected : Rejected host fixture probed database old_password
    pub noted : Drill
    pub note_old : note "old_password_probe" probe probed ≡ (ok tt, noted)
    pub new_probe : Value
    pub confirmed : Drill
    pub probed_new :
        check_runtime_login host fixture database new_password true noted
        ≡ (ok new_probe, confirmed)
    pub accepted : LoggedIn host fixture confirmed database new_password
    pub note_new : note "new_password_probe" new_probe confirmed ≡ (ok tt, t)

  is_false : (c : Bool) → not c ≡ true → c ≡ false
  is_false true e = cc
  is_false false e = refl

  pub rotate-IsReplaced :
      (database old_password : String) (s : Drill) {t : Drill}
      → rotate host fixture database old_password s ≡ (ok tt, t)
      → IsReplaced s database old_password t
  unfolding rotate
  rotate-IsReplaced database old_password s e =
      let (new_password, s₁, fresh, r₁) = bind-eq-ok (new_token host) _ s e in
      let (different, r₂) = require-bind-eq-ok (not (new_password == old_password)) _ _ s₁ r₁ in
      let (job, s₂, migration, r₃) =
        bind-eq-ok (migrate_database host fixture "rotation-migrate" database (some new_password)) _
          s₁ r₂ in
      let (probe, s₃, probed, r₄) =
        bind-eq-ok (check_runtime_login host fixture database old_password false) _ s₂ r₃ in
      let (_, s₄, note_old, r₅) = bind-eq-ok (note "old_password_probe" probe) _ s₃ r₄ in
      let (new_probe, s₅, probed_new, r₆) =
        bind-eq-ok (check_runtime_login host fixture database new_password true) _ s₄ r₅ in
      record {
        new_password = new_password;
        chosen = s₁;
        fresh = fresh;
        different = is_false _ different;
        job = job;
        migrated = s₂;
        migration = migration;
        probe = probe;
        probed = s₃;
        probed_old = probed;
        rejected = check_runtime_login-Rejected host fixture database old_password s₂ probed;
        noted = s₄;
        note_old = note_old;
        new_probe = new_probe;
        confirmed = s₅;
        probed_new = probed_new;
        accepted = check_runtime_login-LoggedIn host fixture database new_password s₄ probed_new;
        note_new = r₆;
      }
