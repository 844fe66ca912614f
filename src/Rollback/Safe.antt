-- ===== src/Rollback/Safe.antt =====
-- What has to be known before an image or a tag is removed, and what a valid history is.
use inventory_cloud_service.Base.{
  ◌≡◌, refl, ap, ◌∙◌, ◌↔◌, suc, ◌+◌, String, Bool, true, List, [], ◌∷◌, ◌++◌, ◌==◌, nat_eq,
  string_eq, length, All, arith, both,
}
use inventory_cloud_service.Json.{
  Value, Result, ok, >>=-eq-ok, guard-bind-eq-ok, subscript, is_text, equals, all_hold,
}
use inventory_cloud_service.Json.Ensures.{ok-injective, guard-eq-ok, all_hold-All}
use inventory_cloud_service.Rollback.Checks.{
  has_succeeded, same_rows, without_last, last_row, validate_history,
}

-- One row more, of the new version, behind rows equal to those before.
pub record IsExtended (before after : List Value) (version : String) : Type 0 where
  pub succeeded : All (λ row. has_succeeded row ≡ ok true) (before ++ after)
  pub kept : List Value
  pub row : Value
  pub after_is : after ≡ kept ++ row ∷ []
  pub same : same_rows kept before ≡ true
  pub found : Value
  pub found_at : subscript row "version" ≡ ok found
  pub is_version : is_text found version ≡ true

-- A list that has a last row is what stands before it, with it.
last_row-snoc :
    (vs : List Value) {row : Value} → last_row vs ≡ ok row → vs ≡ without_last vs ++ row ∷ []
last_row-snoc [] e = cc
last_row-snoc (v ∷ []) e = ap (λ w. w ∷ []) (ok-injective e)
last_row-snoc (v ∷ w ∷ vs) e = ap (λ l. v ∷ l) (last_row-snoc (w ∷ vs) e)

last_row-last : (kept : List Value) (row : Value) → last_row (kept ++ row ∷ []) ≡ ok row
last_row-last [] row = refl
last_row-last (v ∷ []) row = refl
last_row-last (v ∷ w ∷ kept) row = last_row-last (w ∷ kept) row

without_last-snoc : (kept : List Value) (row : Value) → without_last (kept ++ row ∷ []) ≡ kept
without_last-snoc [] row = refl
without_last-snoc (v ∷ []) row = refl
without_last-snoc (v ∷ w ∷ kept) row = ap (λ l. v ∷ l) (without_last-snoc (w ∷ kept) row)

same_rows-length : (vs ws : List Value) → same_rows vs ws ≡ true → length vs ≡ length ws
same_rows-length [] [] e = refl
same_rows-length [] (w ∷ ws) e = cc
same_rows-length (v ∷ vs) [] e = cc
same_rows-length (v ∷ vs) (w ∷ ws) e =
    ap suc (same_rows-length vs ws (both (equals v w) (same_rows vs ws) e).1)

length-snoc : (kept : List Value) (row : Value) → length (kept ++ row ∷ []) ≡ length kept + 1
length-snoc [] row = omega arith
length-snoc (v ∷ kept) row = omega (arith, length-snoc kept row)

All-all_hold :
    {A : Type 0} (test : A → Result Bool) (xs : List A)
    → All (λ x. test x ≡ ok true) xs
    → all_hold test xs ≡ ok true
All-all_hold test [] h = refl
All-all_hold test (x ∷ xs) h = rw (h.0, All-all_hold test xs h.1)

-- A history is valid after the candidate's migration exactly if all rows before and after succeeded,
-- and the rows after are rows equal to those before, with one more whose version is the new one.
pub validate_history-eq-ok_iff :
    (before after : List Value) (version : String)
    → (validate_history before after version ≡ ok tt) ↔ IsExtended before after version
unfolding validate_history
validate_history-eq-ok_iff before after version = (extended, valid)
  where
    extended : validate_history before after version ≡ ok tt → IsExtended before after version
    extended e =
        let (succeeded, held, e1) = >>=-eq-ok (all_hold has_succeeded (before ++ after)) _ e in
        let (is_so, e2) = guard-bind-eq-ok succeeded _ _ e1 in
        let (_, e3) = guard-bind-eq-ok (length after == length before + 1) _ _ e2 in
        let (same, e4) = guard-bind-eq-ok (same_rows (without_last after) before) _ _ e3 in
        let (row, last, e5) = >>=-eq-ok (last_row after) _ e4 in
        let (found, found_at, e6) = >>=-eq-ok (subscript row "version") _ e5 in
        record {
          succeeded = all_hold-All has_succeeded (before ++ after) (held ∙ ap ok is_so);
          kept = without_last after;
          row = row;
          after_is = last_row-snoc after last;
          same = same;
          found = found;
          found_at = found_at;
          is_version = guard-eq-ok (is_text found version) _ e6;
        }

    valid : IsExtended before after version → validate_history before after version ≡ ok tt
    valid h =
        let longer : ((length after == length before + 1) ≡ true) = (nat_eq.equal_iff _ _).1 (
          ap length h.after_is
          ∙ length-snoc h.kept h.row
          ∙ ap (λ n. n + 1) (same_rows-length h.kept before h.same)) in
        let same : (same_rows (without_last after) before ≡ true) =
          ap (λ l. same_rows (without_last l) before) h.after_is
          ∙ ap (λ l. same_rows l before) (without_last-snoc h.kept h.row)
          ∙ h.same in
        let last : (last_row after ≡ ok h.row) =
          ap last_row h.after_is ∙ last_row-last h.kept h.row in
        rw (
          All-all_hold has_succeeded (before ++ after) h.succeeded,
          longer,
          same,
          last,
          h.found_at,
          h.is_version,
        )
