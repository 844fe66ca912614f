-- ===== src/Tests/Security.antt =====
-- Two reports without findings, and one with a finding that blocks.
use inventory_cloud_service.Base.{
  ◌≡◌, refl, String, Bool, false, some, none, [], ◌∷◌, ◌==◌, string_eq, if◌then◌else◌, Option,
}
use inventory_cloud_service.Json.{Value, str, list, dict, nil, cons, end, field, Result, ok}
use inventory_cloud_service.Security.{
  Counts, Summary, count_packages, all_findings, count_severities, count_report, summarize,
  summary_of, passed,
}
use inventory_cloud_service.Security.Policy.{IsClean, summary_of-passed}

abbrev one_package : Value → Value
one_package findings = dict (
    field "Results"
      (list (
        cons
          (dict
            (field "Packages" (list (cons (str "p") nil)) (field "Vulnerabilities" findings end)))
          nil))
      end)

abbrev low : Value
low = list (cons (dict (field "Severity" (str "LOW") end)) nil)

abbrev critical : Value
critical = list (cons (dict (field "Severity" (str "CRITICAL") end)) nil)

abbrev clean_reports : String → Result Value
clean_reports name = ok (one_package low)

abbrev critical_reports : String → Result Value
critical_reports name = ok (one_package (if name == "image" then critical else low))

abbrev counted : Counts
counted = record { packages = 1; severities = str "LOW" ∷ [] }

abbrev clean_summary : Summary
clean_summary = record {
  scan_errors = false;
  reports = ("dependencies", some counted) ∷ ("image", some counted) ∷ [];
}

abbrev passes : Result Summary → Option Bool
passes (ok s) = some (passed s)
passes _ = none

clean_trial : Result Summary
unfolding summary_of summarize count_report count_packages all_findings count_severities
clean_trial = summary_of clean_reports "0"

critical_run : passes (summary_of critical_reports "0") ≡ some false
unfolding clean_trial passed
critical_run = refl

summary_of-passed_example :
    (◌≡◌ {A = String} "0" "0")
    × IsClean clean_reports "dependencies"
    × IsClean clean_reports "image"
unfolding clean_trial passed
summary_of-passed_example = summary_of-passed clean_reports "0" clean_summary refl refl
