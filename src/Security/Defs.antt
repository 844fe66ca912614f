-- ===== src/Security/Defs.antt =====
-- The script as a function of what it reads.
use inventory_cloud_service.Base.{
  ℕ, ◌+◌, String, Bool, true, false, not, ◌||◌, ◌&&◌, Option, none, some, List, [], ◌∷◌, ◌++◌, ◌==◌,
  nat_eq, string_eq, if◌then◌else◌, any,
}
use inventory_cloud_service.Json.{
  ◌>>◌, Value, str, list, dict, nil, end, Exc, value_error, os_error, type_error, Result, ok, err,
  ◌>>=◌, get, size, iterate, has_text,
}

abbrev pub blocking_severities : List String
blocking_severities = "HIGH" ∷ "CRITICAL" ∷ []

-- The packages of a report, and the severities that its Counter counts.
pub record Counts : Type 0 where
  pub packages : ℕ
  pub severities : List Value

-- An entry of `summary["reports"]`: without counts it holds an error.
pub record Summary : Type 0 where
  pub scan_errors : Bool
  pub reports : List (String × Option Counts)

-- The sum over the results of the number of packages.
unfoldable pub count_packages : List Value → Result ℕ
count_packages [] = ok 0
count_packages (r ∷ rs) = do
  packages ← get r "Packages" (list nil)
  n ← size packages
  rest ← count_packages rs
  ok (n + rest)

-- The vulnerabilities of all results.
unfoldable pub all_findings : List Value → Result (List Value)
all_findings [] = ok []
all_findings (r ∷ rs) = do
  found ← get r "Vulnerabilities" (list nil)
  vs ← iterate found
  rest ← all_findings rs
  ok (vs ++ rest)

-- A key of the Counter has to be hashable.
abbrev hashable : Value → Result Value
hashable (list vs) = err type_error
hashable (dict fs) = err type_error
hashable v = ok v

unfoldable pub count_severities : List Value → Result (List Value)
count_severities [] = ok []
count_severities (v ∷ vs) = do
  severity ← get v "Severity" (str "UNKNOWN")
  key ← hashable severity
  rest ← count_severities vs
  ok (key ∷ rest)

-- The platform that the report of the image names.
abbrev pub check_platform : String → Value → Result (Unit {0})
check_platform name report =
    if name == "image"
    then (do
      metadata ← get report "Metadata" (dict end)
      config ← get metadata "ImageConfig" (dict end)
      os ← get config "os" (str "unknown")
      architecture ← get config "architecture" (str "unknown")
      ok tt)
    else ok tt

-- The body of the `try` statement, after the report is decoded.
unfoldable pub count_report : String → Value → Result Counts
count_report name report = do
  found ← get report "Results" (list nil)
  results ← iterate found
  packages ← count_packages results
  findings ← all_findings results
  check_platform name report
  severities ← count_severities findings
  ok (record { packages = packages; severities = severities })

-- `except (OSError, ValueError)`
abbrev pub is_unreadable : Exc → Bool
is_unreadable os_error = true
is_unreadable value_error = true
is_unreadable _ = false

abbrev pub add_report : String → Summary → Result Counts → Result Summary
add_report name s (ok c) = ok (record {
  scan_errors = s.scan_errors || c.packages == 0;
  reports = s.reports ++ (name, some c) ∷ [];
})
add_report name s (err e) =
    if is_unreadable e
    then ok (record { scan_errors = true; reports = s.reports ++ (name, none) ∷ [] })
    else err e

-- `read name` is `json.loads((out / f"{name}.json").read_text())`.
module _ (read : String → Result Value) where
  unfoldable pub summarize : String → Summary → Result Summary
  summarize name s = add_report name s (read name >>= count_report name)

  unfoldable pub summary_of : String → Result Summary
  summary_of scan_failed = do
    s ← summarize "dependencies" (record { scan_errors = not (scan_failed == "0"); reports = [] })
    summarize "image" s

abbrev pub is_blocking : Option Counts → Bool
is_blocking none = false
is_blocking (some c) = any (λ severity. has_text severity c.severities) blocking_severities

-- `summary["passed"]`
unfoldable pub passed : Summary → Bool
passed s = not s.scan_errors && not (any (λ entry. is_blocking entry.1) s.reports)
