-- ===== src/Replica/Samples.antt =====
-- The functions of scripts/replica-drill.py that judge the samples of a batch.
use inventory_cloud_service.Base.{
  ℕ, suc, ◌-◌, Bool, false, ◌&&◌, ◌||◌, Option, none, some, List, [], ◌∷◌, ◌==◌, nat_eq,
  if◌then◌else◌, leb, length, all, map,
}
use inventory_cloud_service.Json.{
  Value, null, list, dict, runtime, type_error, index_error, Result, ok, err, ◌>>=◌, ◌>>◌, guard,
  subscript, get, is_dict, is_text, truthy, equals, all_hold,
}
use inventory_cloud_service.Replica.Batch.{Sample}

-- `Counter(xs)[n]`
abbrev pub occurrences : ℕ → List ℕ → ℕ
occurrences n [] = 0
occurrences n (m ∷ ms) = let rest = occurrences n ms in if n == m then suc rest else rest

abbrev pub expected_of : ℕ → List (ℕ × ℕ) → ℕ
expected_of n [] = 0
expected_of n ((m, c) ∷ rest) = if n == m then c else expected_of n rest

-- `Counter(xs) == Counter(expected)`, for distinct keys: a missing key counts 0.
abbrev pub counts_match : List ℕ → List (ℕ × ℕ) → Bool
counts_match xs expected =
    all (λ n. occurrences n xs == expected_of n expected) xs
    && all (λ p. occurrences p.0 xs == expected_of p.0 expected) expected

abbrev pub statuses : List Sample → List ℕ
statuses samples = map (λ s. s.status) samples

abbrev pub payloads : List Sample → List Value
payloads samples = map (λ s. s.payload) samples

abbrev pub first_payload : List Sample → Option Value → Result Value
first_payload samples (some expected) = ok expected
first_payload [] none = err index_error
first_payload (s ∷ samples) none = ok s.payload

-- `isinstance(v, dict) and bool(v.get("id"))`
abbrev pub has_identity : Value → Result Bool
has_identity v = if is_dict v then (get v "id" null >>= λ id. ok (truthy id)) else ok false

unfoldable pub require_same_reservation : List Sample → List (ℕ × ℕ) → Option Value → Result Value
require_same_reservation samples expected_counts expected = do
  guard (counts_match (statuses samples) expected_counts)
      (runtime "Concurrent requests returned unexpected HTTP status counts")
  reference ← first_payload samples expected
  identified ← has_identity reference
  guard identified (runtime "Reservation response has no identity")
  guard (all (λ v. equals v reference) (payloads samples))
      (runtime "Concurrent requests did not return identical reservation fields")
  ok reference

abbrev pub with_status : ℕ → List Sample → List Value
with_status status [] = []
with_status status (s ∷ samples) =
    let rest = with_status status samples in if s.status == status then s.payload ∷ rest else rest

-- `isinstance(v, dict) and v.get("detail") == ...`
abbrev pub is_stock_conflict : Value → Result Bool
is_stock_conflict v =
    if is_dict v
    then (get v "detail" null >>= λ detail. ok (is_text detail "Insufficient available stock"))
    else ok false

-- A list or a dict cannot be an element of a set.
abbrev pub hashable : Value → Result Value
hashable (list vs) = err type_error
hashable (dict fs) = err type_error
hashable v = ok v

abbrev pub identities : List Value → Result (List Value)
identities [] = ok []
identities (v ∷ vs) = do
  id ← subscript v "id"
  key ← hashable id
  rest ← identities vs
  ok (key ∷ rest)

-- `v in vs`
abbrev pub has_equal : Value → List Value → Bool
has_equal v [] = false
has_equal v (w ∷ ws) = equals v w || has_equal v ws

-- `len(set(vs))`
abbrev pub distinct_values : List Value → ℕ
distinct_values [] = 0
distinct_values (v ∷ vs) =
    let rest = distinct_values vs in if has_equal v vs then rest else suc rest

unfoldable pub require_stock_conflicts : List Sample → ℕ → Result (List Value)
require_stock_conflicts samples successes = do
  guard
      (leb successes (length samples)
        && counts_match (statuses samples)
            ((201, successes) ∷ (409, length samples - successes) ∷ []))
      (runtime "Contending replicas returned unexpected success/conflict counts")
  only_stock ← all_hold is_stock_conflict (with_status 409 samples)
  guard only_stock (runtime "A non-stock conflict cannot establish that overselling was prevented")
  let created = with_status 201 samples
  ids ← identities created
  guard (distinct_values ids == successes)
      (runtime "Distinct successful reservation requests did not produce distinct records")
  ok created
