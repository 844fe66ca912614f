-- ===== src/Replica/Judged.antt =====
-- What the samples of a batch are when the checks of scripts/replica-drill.py on them have passed.
use mathlib.Core.Path.{subst}
use inventory_cloud_service.Base.{
  ◌≡◌, refl, ap, sym, ◌∙◌, ◌↔◌, ℕ, suc, ◌-◌, ◌≤◌, Bool, true, false, ◌&&◌, Option, some, List, [],
  ◌∷◌, ◌==◌, nat_eq, leb, length, all, All, all_iff, arith, both, Bool-cases, inl, inr, leb→le,
}
use inventory_cloud_service.Json.{
  all_hold, Value, ok, guard-bind-eq-ok, subscript, equals, >>=-eq-ok,
}
use inventory_cloud_service.Json.Ensures.{ok-injective, all_hold-All}
use inventory_cloud_service.Replica.Batch.{Sample}
use inventory_cloud_service.Replica.Samples.{
  occurrences, expected_of, counts_match, statuses, payloads, first_payload, has_identity,
  require_same_reservation, with_status, is_stock_conflict, identities, has_equal, distinct_values,
  hashable, require_stock_conflicts,
}

not_counted :
    (n : ℕ) (P : ℕ → Bool) (xs : List ℕ) → all P xs ≡ true → P n ≡ false → occurrences n xs ≡ 0
not_counted n P [] h absent = refl
not_counted n P (x ∷ xs) h absent =
    let (here, rest) = both (P x) (all P xs) h in
    elim (Bool-cases (n == x)) [
      | inl same ↦ cc (here, absent, ap P ((nat_eq.equal_iff n x).0 same))
      | inr other ↦ rw other (not_counted n P xs rest absent)
    ]

not_expected :
    (n : ℕ) (P : ℕ → Bool) (expected : List (ℕ × ℕ))
    → all (λ p. P p.0) expected ≡ true
    → P n ≡ false
    → expected_of n expected ≡ 0
not_expected n P [] h absent = refl
not_expected n P ((m, c) ∷ rest) h absent =
    let (here, others) = both (P m) (all (λ p. P p.0) rest) h in
    elim (Bool-cases (n == m)) [
      | inl same ↦ cc (here, absent, ap P ((nat_eq.equal_iff n m).0 same))
      | inr other ↦ rw other (not_expected n P rest others absent)
    ]

all-true : {A : Type 0} (P : A → Bool) (xs : List A) → ((a : A) → P a ≡ true) → all P xs ≡ true
all-true P [] h = refl
all-true P (x ∷ xs) h = rw (h x) (all-true P xs h)

-- The Boolean test on both lists of keys says that the counts agree at every number.
counts_match_iff :
    (xs : List ℕ) (expected : List (ℕ × ℕ))
    → (counts_match xs expected ≡ true) ↔ ((n : ℕ) → occurrences n xs ≡ expected_of n expected)
counts_match_iff xs expected = (
  everywhere,
  λ h.
      rw (all-true agrees xs (λ n. agreed h n))
        (all-true (λ p. agrees p.0) expected (λ p. agreed h p.0)),
)
  where
    agrees : ℕ → Bool
    agrees n = occurrences n xs == expected_of n expected

    agreed : ((n : ℕ) → occurrences n xs ≡ expected_of n expected) → (n : ℕ) → agrees n ≡ true
    agreed h n = (nat_eq.equal_iff _ _).1 (h n)

    everywhere :
        counts_match xs expected ≡ true → (n : ℕ) → occurrences n xs ≡ expected_of n expected
    everywhere h n =
        let (found, wanted) = both (all agrees xs) (all (λ p. agrees p.0) expected) h in
        elim (Bool-cases (agrees n)) [
          | inl same ↦ (nat_eq.equal_iff _ _).0 same
          | inr other ↦
              not_counted n agrees xs found other
              ∙ sym (not_expected n agrees expected wanted other)
        ]

-- All samples of a batch are of one reservation.
pub record IsSame (samples : List Sample) (expected : List (ℕ × ℕ)) (reservation : Value)
    : Type 0 where
  pub counts : (n : ℕ) → occurrences n (statuses samples) ≡ expected_of n expected
  pub identified : has_identity reservation ≡ ok true
  pub equal : All (λ v. equals v reservation ≡ true) (payloads samples)

-- Where the test returns a reservation, given or not, the samples are of it.
pub require_same_reservation-IsSame :
    (samples : List Sample) (expected : List (ℕ × ℕ)) (given : Option Value) {reservation : Value}
    → require_same_reservation samples expected given ≡ ok reservation
    → IsSame samples expected reservation
unfolding require_same_reservation
require_same_reservation-IsSame samples expected given {reservation} e =
    let (counts, e1) = guard-bind-eq-ok (counts_match (statuses samples) expected) _ _ e in
    let (reference, _, e2) = >>=-eq-ok (first_payload samples given) _ e1 in
    let (identified, is_identified, e3) = >>=-eq-ok (has_identity reference) _ e2 in
    let (is_yes, e4) = guard-bind-eq-ok identified _ _ e3 in
    let (equal, e5) = guard-bind-eq-ok (all (λ v. equals v reference) (payloads samples)) _ _ e4 in
    subst (IsSame samples expected) (ok-injective e5) (record {
      counts = (counts_match_iff (statuses samples) expected).0 counts;
      identified = is_identified ∙ ap ok is_yes;
      equal = (all_iff (λ v. equals v reference) (payloads samples)).0 equal;
    })

-- A batch passes the test for one reservation, given as the one to expect, exactly if for every HTTP
-- status the number of its responses is the expected one, the reservation is a dict with an id, and
-- the payload of each response is equal to it.
pub require_same_reservation-eq-ok_iff :
    (samples : List Sample) (expected : List (ℕ × ℕ)) (reservation : Value)
    → (require_same_reservation samples expected (some reservation) ≡ ok reservation)
      ↔ IsSame samples expected reservation
unfolding require_same_reservation
require_same_reservation-eq-ok_iff samples expected reservation =
    (require_same_reservation-IsSame samples expected (some reservation), passes)
  where
    passes :
        IsSame samples expected reservation
        → require_same_reservation samples expected (some reservation) ≡ ok reservation
    passes h = rw (
      (counts_match_iff (statuses samples) expected).1 h.counts,
      h.identified,
      (all_iff (λ v. equals v reservation) (payloads samples)).1 h.equal,
    )

length-with_status :
    (status : ℕ) (samples : List Sample)
    → length (with_status status samples) ≡ occurrences status (statuses samples)
length-with_status status [] = refl
length-with_status status (s ∷ samples) = ground (
  arith,
  length-with_status status samples,
  nat_eq.equal_iff s.status status,
  nat_eq.equal_iff status s.status,
)

-- No two of the values are equal.
abbrev pub Different : List Value → Type 0
Different [] = Unit
Different (v ∷ vs) = (has_equal v vs ≡ false) × Different vs

distinct_values-le : (vs : List Value) → distinct_values vs ≤ length vs
distinct_values-le [] = omega arith
distinct_values-le (v ∷ vs) = elim (Bool-cases (has_equal v vs)) [
  | inl same ↦ rw same (omega (arith, distinct_values-le vs))
  | inr other ↦ rw other (omega (arith, distinct_values-le vs))
]

distinct_values-Different : (vs : List Value) → distinct_values vs ≡ length vs → Different vs
distinct_values-Different [] e = tt
distinct_values-Different (v ∷ vs) e = elim (Bool-cases (has_equal v vs)) [
  | inl same ↦ absurd (ground (arith, distinct_values-le vs, same, e))
  | inr other ↦ (other, distinct_values-Different vs (ground (arith, other, e)))
]

length-identities : (vs ids : List Value) → identities vs ≡ ok ids → length ids ≡ length vs
length-identities [] ids e = ap length (sym (ok-injective e))
length-identities (v ∷ vs) ids e =
    let (id, _, e1) = >>=-eq-ok (subscript v "id") _ e in
    let (key, _, e2) = >>=-eq-ok (hashable id) _ e1 in
    let (rest, found, e3) = >>=-eq-ok (identities vs) _ e2 in
    ap length (sym (ok-injective e3)) ∙ ap suc (length-identities vs rest found)

-- What the samples of contending requests have shown.
pub record IsContended (samples : List Sample) (successes : ℕ) (created : List Value) : Type 0 where
  pub enough : successes ≤ length samples
  pub counts :
      (n : ℕ)
      → occurrences n (statuses samples)
        ≡ expected_of n ((201, successes) ∷ (409, length samples - successes) ∷ [])
  pub conflicts : All (λ v. is_stock_conflict v ≡ ok true) (with_status 409 samples)
  pub created_are : created ≡ with_status 201 samples
  pub created_count : length created ≡ successes
  pub ids : List Value
  pub ids_are : identities created ≡ ok ids
  pub different : Different ids

-- If the test for stock conflicts returns, exactly `successes` requests were answered with 201 and all
-- others with 409, each conflict says that the stock was insufficient, and what it returns are the
-- reservations of the successes, as many as they are, no two of which have equal ids.
pub require_stock_conflicts-IsContended :
    (samples : List Sample) (successes : ℕ) {created : List Value}
    → require_stock_conflicts samples successes ≡ ok created
    → IsContended samples successes created
unfolding require_stock_conflicts
require_stock_conflicts-IsContended samples successes {created} e =
    let (counted, e1) =
      guard-bind-eq-ok
        (leb successes (length samples)
          && counts_match (statuses samples)
              ((201, successes) ∷ (409, length samples - successes) ∷ []))
        _ _ e in
    let (enough, counts) = both (leb successes (length samples)) _ counted in
    let (only_stock, conflicts, e2) =
      >>=-eq-ok (all_hold is_stock_conflict (with_status 409 samples)) _ e1 in
    let (holds, e3) = guard-bind-eq-ok only_stock _ _ e2 in
    let (ids, identified, e4) = >>=-eq-ok (identities (with_status 201 samples)) _ e3 in
    let (distinct, e5) = guard-bind-eq-ok (distinct_values ids == successes) _ _ e4 in
    let every =
      (counts_match_iff (statuses samples)
          ((201, successes) ∷ (409, length samples - successes) ∷ [])).0
        counts in
    let many : (length (with_status 201 samples) ≡ successes) =
      length-with_status 201 samples ∙ every 201 in
    let returned = ok-injective e5 in
    record {
      enough = leb→le _ _ enough;
      counts = every;
      conflicts = all_hold-All is_stock_conflict _ (conflicts ∙ ap ok holds);
      created_are = sym returned;
      created_count = ap length (sym returned) ∙ many;
      ids = ids;
      ids_are = ap identities (sym returned) ∙ identified;
      different = distinct_values-Different ids (
          (nat_eq.equal_iff _ _).0 distinct
          ∙ sym many
          ∙ sym (length-identities (with_status 201 samples) ids identified));
    }
