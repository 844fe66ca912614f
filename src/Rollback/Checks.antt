-- ===== src/Rollback/Checks.antt =====
-- `validate_history` of scripts/rollback-drill.py, and what its removals test of an image's details.
use inventory_cloud_service.Base.{
  ◌+◌, String, Bool, true, false, not, ◌&&◌, List, [], ◌∷◌, ◌++◌, ◌==◌, nat_eq, string_eq,
  if◌then◌else◌, length, any,
}
use inventory_cloud_service.Json.{
  Value, null, list, dict, nil, end, runtime, index_error, Result, ok, err, ◌>>=◌, ◌>>◌, guard,
  subscript, get, iterate, is_true, is_text, equals, all_hold,
}
use inventory_cloud_service.Drill.{Identity, owner_label, purpose_label, purpose}

-- `row.get("success") is True`
abbrev pub has_succeeded : Value → Result Bool
has_succeeded row = do success ← get row "success" null; ok (is_true success)

-- `vs == ws`, `vs[:-1]` and `vs[-1]` on lists of rows.
abbrev pub same_rows : List Value → List Value → Bool
same_rows [] [] = true
same_rows (v ∷ vs) (w ∷ ws) = equals v w && same_rows vs ws
same_rows _ _ = false

abbrev pub without_last : List Value → List Value
without_last [] = []
without_last (v ∷ []) = []
without_last (v ∷ w ∷ vs) = v ∷ without_last (w ∷ vs)

abbrev pub last_row : List Value → Result Value
last_row [] = err index_error
last_row (v ∷ []) = ok v
last_row (v ∷ w ∷ vs) = last_row (w ∷ vs)

unfoldable pub validate_history : List Value → List Value → String → Result (Unit {0})
validate_history before after version = do
  succeeded ← all_hold has_succeeded (before ++ after)
  guard succeeded (runtime "Migration history contains an unsuccessful entry")
  guard (length after == length before + 1)
      (runtime "The candidate must apply exactly one additive fixture migration")
  guard (same_rows (without_last after) before)
      (runtime "The candidate modified pre-existing migration history")
  row ← last_row after
  found ← subscript row "version"
  guard (is_text found version) (runtime "The expected additive fixture migration was not applied")

abbrev pub candidate_label : String
candidate_label = "inventory.drill.rollback-candidate"

-- `labels.get(name) == value`, and the next test if it holds.
abbrev pub label_then : Value → String → String → Result Bool → Result Bool
label_then labels name value next = elim (get labels name null) [
  | err e ↦ err e
  | ok v ↦ if is_text v value then next else ok false
]

abbrev pub id_then : String → Value → Result Bool → Result Bool
id_then candidate id next = if is_text id candidate then next else ok false

-- The details are of the candidate, and have this drill's labels.
unfoldable pub is_own_candidate : Identity → String → Value → Result Bool
is_own_candidate fixture candidate details = do
  config ← get details "Config" (dict end)
  labels ← get config "Labels" (dict end)
  id ← subscript details "Id"
  id_then candidate id (
      label_then labels owner_label fixture.run_id (
        label_then labels purpose_label purpose
          (label_then labels candidate_label "true" (ok true))))

-- `any(existing != tag for existing in details.get("RepoTags", []))`
unfoldable pub has_other_tag : String → Value → Result Bool
has_other_tag tag details = do
  tags ← get details "RepoTags" (list nil)
  existing ← iterate tags
  ok (any (λ v. not (is_text v tag)) existing)
