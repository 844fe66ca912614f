-- ===== src/Security/Policy.antt =====
-- The policy: what the scanner has reported of a release that passes.
use inventory_cloud_service.Base.{
  ◌≡◌, refl, ap, ◌∙◌, ◌<◌, String, Bool, true, false, not, ◌||◌, some, [], ◌∷◌, ◌++◌, ◌==◌, nat_eq,
  string_eq, arith,
}
use inventory_cloud_service.Json.{Value, Result, ok, err, ◌>>=◌, >>=-eq-ok, has_text}
use inventory_cloud_service.Json.Ensures.{ok-injective}
use inventory_cloud_service.Security.Defs.{
  Counts, Summary, add_report, count_report, summarize, summary_of, passed,
}

-- A report with packages and with no vulnerability that blocks a release.
pub record IsAcceptable (c : Counts) : Type 0 where
  pub inventoried : 0 < c.packages
  pub no_high : has_text "HIGH" c.severities ≡ false
  pub no_critical : has_text "CRITICAL" c.severities ≡ false

not-false : (b : Bool) → not b ≡ false → b ≡ true
not-false b e = ground arith

both-IsAcceptable :
    (c d : Counts) (failed : Bool)
    → passed (record {
      scan_errors = (failed || c.packages == 0) || d.packages == 0;
      reports = ("dependencies", some c) ∷ ("image", some d) ∷ [];
    })
      ≡ true
    → (failed ≡ false) × IsAcceptable c × IsAcceptable d
unfolding passed
both-IsAcceptable c d failed p = (
  ground arith,
  record { inventoried = ground arith; no_high = ground arith; no_critical = ground arith },
  record { inventoried = ground arith; no_high = ground arith; no_critical = ground arith },
)

module _ (read : String → Result Value) where
  -- The report was read, decoded and counted.
  abbrev pub IsClean : String → Type 0
  IsClean name = (c : Counts) × ((read name >>= count_report name) ≡ ok c) × IsAcceptable c

  two_reports :
      (r₁ r₂ : Result Counts) (failed : Bool) (s t : Summary)
      → add_report "dependencies" (record { scan_errors = failed; reports = [] }) r₁ ≡ ok s
      → add_report "image" s r₂ ≡ ok t
      → passed t ≡ true
      → (failed ≡ false)
        × ((c : Counts) × (r₁ ≡ ok c) × IsAcceptable c)
        × ((c : Counts) × (r₂ ≡ ok c) × IsAcceptable c)
  unfolding passed
  two_reports (ok c) (ok d) failed s t e f p =
      let added : Summary → Summary = λ z. record {
        scan_errors = z.scan_errors || d.packages == 0;
        reports = z.reports ++ ("image", some d) ∷ [];
      } in
      let (clean, first, second) =
        both-IsAcceptable c d failed (ap passed (ap added (ok-injective e) ∙ ok-injective f) ∙ p) in
      (clean, (c, refl, first), (d, refl, second))
  two_reports (ok c) (err x) failed s t e f p = absurd (ground arith)
  two_reports (err x) (ok d) failed s t e f p = absurd (ground arith)
  two_reports (err x) (err y) failed s t e f p = absurd (ground arith)

  -- A release passes only if the scanner did not fail and both reports, of the dependencies and of the
  -- image, were read and counted, list packages, and have no vulnerability of the severity HIGH or CRITICAL.
  pub summary_of-passed :
      (scan_failed : String) (s : Summary)
      → summary_of read scan_failed ≡ ok s
      → passed s ≡ true
      → (scan_failed ≡ "0") × IsClean "dependencies" × IsClean "image"
  unfolding summary_of summarize
  summary_of-passed scan_failed s e p =
      let (first, first_e, second_e) =
        >>=-eq-ok
          (summarize read "dependencies"
            (record { scan_errors = not (scan_failed == "0"); reports = [] }))
          _ e in
      let (clean, dependencies, image) =
        two_reports (read "dependencies" >>= count_report "dependencies")
          (read "image" >>= count_report "image") (not (scan_failed == "0")) first s first_e
          second_e p in
      ((string_eq.equal_iff scan_failed "0").0 (not-false _ clean), dependencies, image)
