-- ===== src/Drill/Session.antt =====
-- What the drills on a fixture share: the report, and the `main` around the drill itself.
use inventory_cloud_service.Base.{
  ℕ, String, ◌<>◌, Bool, true, false, Option, none, some, List, [], ◌∷◌, ◌==◌, string_eq,
  if◌then◌else◌,
}
use inventory_cloud_service.Base.Int.{pos}
use inventory_cloud_service.Json.{
  Value, int, str, dict, nil, cons, end, field, Items, Fields, Exc, type_error, Result, ok, err,
  subscript,
}
use inventory_cloud_service.Exec.{Exec, pure, lift, ◌>>=◌, ◌>>◌, gets, modify, attempt}
use inventory_cloud_service.Drill.World.{Host, Drill, Identity}
use inventory_cloud_service.Drill.Fixture.{new_fixture}
use inventory_cloud_service.Drill.Runtime.{cleanup}
use inventory_cloud_service.Drill.Metadata.{metadata}

-- `fields[k] = v`
abbrev pub set_item : String → Value → Fields → Fields
set_item k v end = field k v end
set_item k v (field j w fs) = if k == j then field k v fs else field j w (set_item k v fs)

abbrev set_inside : String → Value → Value → Result Value
set_inside k v (dict fs) = ok (dict (set_item k v fs))
set_inside k v _ = err type_error

-- `report[k] = v`
unfoldable pub note : String → Value → Exec Drill (Unit {0})
note k v = modify (λ s. record s { report = set_item k v s.report })

-- `report[section][k] = v`
unfoldable pub note_in : String → String → Value → Exec Drill (Unit {0})
note_in section k v = do
  report ← gets (λ s. dict s.report)
  old ← lift (subscript report section)
  new ← lift (set_inside k v old)
  note section new

abbrev pub count : ℕ → Value
count n = int (pos n)

-- `"..." + value` wants a text.
abbrev pub concat : String → Value → Result String
concat s (str t) = ok (s <> t)
concat s _ = err type_error

abbrev pub reservations_path : String
reservations_path = "/api/v1/reservations"

-- A list of texts.
abbrev pub texts : List String → Items
texts [] = nil
texts (t ∷ ts) = cons (str t) (texts ts)

-- How `main` ends, in the fields that decide it; 0 is the exit status of a drill that passed.
pub record Outcome : Type 0 where
  pub passed : Bool
  pub error : Option Exc
  pub cleanup_errors : List String
  pub exit_status : ℕ

abbrev pub outcome : Result (Unit {0}) → List String → Outcome
outcome (ok _) [] = record { passed = true; error = none; cleanup_errors = []; exit_status = 0 }
outcome (ok _) (e ∷ es) = record {
  passed = false;
  error = none;
  cleanup_errors = e ∷ es;
  exit_status = 1;
}
outcome (err x) es = record { passed = false; error = some x; cleanup_errors = es; exit_status = 1 }

-- `main` around what a drill does with its fixture.
module _ (host : Host) (run : Identity → Exec Drill (Unit {0})) where
  -- The body of the `try` statement, once there is a fixture.
  unfoldable pub attempt_run : Identity → Exec Drill (Unit {0})
  attempt_run fixture = do
    environment ← lift (metadata fixture [])
    note "environment" environment
    run fixture

  -- The report's list `migration_runs` is the fixture's, so what is written has all its entries.
  abbrev pub share_runs : Identity → Drill → Drill
  share_runs fixture s = elim (metadata fixture s.migration_runs) [
    | ok environment ↦ record s { report = set_item "environment" environment s.report }
    | err e ↦ s
  ]

  -- The drill with what `finally` does after it.
  unfoldable pub conclude : Result Identity → Exec Drill Outcome
  conclude (err x) = pure (outcome (err x) [])
  conclude (ok fixture) = do
    result ← attempt (attempt_run fixture)
    errors ← cleanup host fixture
    modify (share_runs fixture)
    pure (outcome result errors)

  unfoldable pub main_with : String → String → Exec Drill Outcome
  main_with image database_image = do
    fixture ← attempt (new_fixture host image database_image)
    conclude fixture
