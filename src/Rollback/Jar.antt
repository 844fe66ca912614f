-- ===== src/Rollback/Jar.antt =====
-- `make_candidate_jar` of scripts/rollback-drill.py. A zip archive is the list of its entries.
use inventory_cloud_service.Base.{
  ℕ, ◌+◌, ◌-◌, ◌*◌, String, ◌<>◌, Bool, true, false, not, ◌&&◌, ◌||◌, Option, none, some, List, [],
  ◌∷◌, ◌++◌, ◌==◌, nat_eq, string_eq, if◌then◌else◌, ltb, leb, length, all, any, contains, max, map,
}
use inventory_cloud_service.Base.Text.{codes, occurs_in}
use inventory_cloud_service.Base.Pattern.{digit_zeros, is_digit, after_literal}
use inventory_cloud_service.Base.Sets.{distinct}
use inventory_cloud_service.Json.{
  runtime, key_error, value_error, Result, ok, err, ◌>>=◌, ◌>>◌, guard, all_hold,
}
use inventory_cloud_service.Drill.{Bytes}

abbrev pub Archive : Type 0
Archive = List (String × Bytes)

-- `archive.namelist()`
abbrev pub names : Archive → List String
names archive = map (λ e. e.0) archive

-- `archive.read(name)`: the last entry of the name.
abbrev pub read_entry : String → Archive → Result Bytes
read_entry name [] = err key_error
read_entry name ((n, content) ∷ archive) = elim (read_entry name archive) [
  | ok found ↦ ok found
  | err e ↦ if name == n then ok content else err e
]

abbrev pub same_bytes : Bytes → Bytes → Bool
same_bytes [] [] = true
same_bytes (a ∷ xs) (b ∷ ys) = a == b && same_bytes xs ys
same_bytes _ _ = false

-- The digits at the start of a text, and what follows them.
abbrev leading_digits : List ℕ → List ℕ × List ℕ
leading_digits [] = ([], [])
leading_digits (c ∷ s) =
    let (digits, rest) = leading_digits s in if is_digit c then (c ∷ digits, rest) else ([], c ∷ s)

abbrev digit_from : List ℕ → ℕ → ℕ
digit_from [] c = 0
digit_from (z ∷ zs) c = if leb z c && ltb c (z + 10) then c - z else digit_from zs c

-- `int(digits)`, with the digits read so far.
abbrev number_from : ℕ → List ℕ → ℕ
number_from n [] = n
number_from n (c ∷ digits) = number_from (10 * n + digit_from digit_zeros c) digits

-- Python converts no text of more than 4300 digits.
abbrev to_number : List ℕ → Result ℕ
to_number digits = if leb (length digits) 4300 then ok (number_from 0 digits) else err value_error

-- `.+\.sql`
abbrev ends_in_sql : List ℕ → Bool
ends_in_sql [] = false
ends_in_sql (c ∷ s) = same_bytes s (codes ".sql") || ends_in_sql s

-- `[^/]+\.sql`
abbrev is_sql_name : List ℕ → Bool
is_sql_name s = all (λ c. not (c == b'/')) s && ends_in_sql s

abbrev migration_path : String
migration_path = "BOOT-INF/classes/db/migration/V"

abbrev version_digits : Option (List ℕ) → Option (List ℕ)
version_digits none = none
version_digits (some s) =
    let (digits, rest) = leading_digits s in
    elim (after_literal (codes "__") rest) [
      | none ↦ none
      | some name ↦ if not (length digits == 0) && is_sql_name name then some digits else none
    ]

-- The group of the pattern in the name, if it matches.
abbrev pub matched_version : String → Option (List ℕ)
matched_version name = version_digits (after_literal (codes migration_path) (codes name))

abbrev pub versions_of : List String → Result (List ℕ)
versions_of [] = ok []
versions_of (name ∷ rest) =
    let others = versions_of rest in
    elim (matched_version name) [
      | none ↦ others
      | some digits ↦ to_number digits >>= λ v. others >>= λ vs. ok (v ∷ vs)
    ]

abbrev pub largest : List ℕ → ℕ
largest [] = 0
largest (v ∷ vs) = max v (largest vs)

abbrev pub migration : Bytes
migration = codes "ALTER TABLE reservations ADD COLUMN rollback_drill_note VARCHAR(128);\n"

-- `set(after) - set(before) == {resource}`
abbrev pub adds_only : String → List String → List String → Bool
adds_only resource before after =
    any (λ n. not (contains n before)) after && all (λ n. contains n before || n == resource) after

abbrev pub keeps_entry : Archive → Archive → String → Result Bool
keeps_entry before after name =
    read_entry name before >>= λ old. read_entry name after >>= λ new. ok (same_bytes old new)

abbrev pub resource_of : String → String
resource_of version = migration_path <> version <> "__rollback_drill_add_optional_note.sql"

-- The version as a number, the new entry's name, and the candidate; `display` is `str` of a number.
unfoldable pub make_candidate_jar : (ℕ → String) → Archive → Result (ℕ × (String × Archive))
make_candidate_jar display source = do
  versions ← versions_of (names source)
  guard (not (length versions == 0))
      (runtime "The source image does not contain the expected versioned database migrations")
  guard (distinct (names source)) (runtime "The source application archive has duplicate entries")
  guard (not (any (occurs_in "rollback_drill") (names source)))
      (runtime "Do not use a prior drill candidate as the verified base")
  let version = largest versions + 1
  let resource = resource_of (display version)
  let candidate = source ++ (resource, migration) ∷ []
  guard (adds_only resource (names source) (names candidate))
      (runtime "Candidate changed more than the fixture migration")
  kept ← all_hold (keeps_entry source candidate) (names source)
  guard kept (runtime "Candidate changed existing application code or migration resources")
  ok (version, (resource, candidate))
