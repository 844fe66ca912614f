-- ===== src/Replica/Summary.antt =====
-- `summarize_batch` of scripts/replica-drill.py.
use inventory_cloud_service.Base.{
  ℕ, suc, ◌-◌, String, Bool, true, false, List, [], ◌∷◌, ◌==◌, nat_eq, string_eq, if◌then◌else◌,
  ltb, length,
}
use inventory_cloud_service.Base.Int.{pos}
use inventory_cloud_service.Base.Text.{codes}
use inventory_cloud_service.Json.{
  Value, dict, Fields, end, field, value_error, Result, ok, err, ◌>>=◌,
}
use inventory_cloud_service.Drill.{Host, count}
use inventory_cloud_service.Replica.Batch.{Sample}

-- `s < t` on texts, by their code points.
abbrev codes_before : List ℕ → List ℕ → Bool
codes_before s [] = false
codes_before [] (d ∷ t) = true
codes_before (c ∷ s) (d ∷ t) = if ltb c d then true else if c == d then codes_before s t else false

-- `Counter`, kept sorted by its keys.
abbrev pub count_key : String → List (String × ℕ) → List (String × ℕ)
count_key k [] = (k, 1) ∷ []
count_key k ((j, n) ∷ counts) =
    let rest = count_key k counts in
    if k == j
    then (j, suc n) ∷ counts
    else if codes_before (codes k) (codes j)
    then (k, 1) ∷ (j, n) ∷ counts
    else (j, n) ∷ rest

abbrev pub sorted_counts : List String → List (String × ℕ)
sorted_counts [] = []
sorted_counts (k ∷ ks) = count_key k (sorted_counts ks)

abbrev fields_of : List (String × ℕ) → Fields
fields_of [] = end
fields_of ((k, n) ∷ counts) = field k (count n) (fields_of counts)

abbrev duration : Sample → ℕ
duration s = s.ended - s.started

-- The sample that took longest; the clock does not go back.
abbrev pub longest : List Sample → Result Sample
longest [] = err value_error
longest (s ∷ []) = ok s
longest (s ∷ t ∷ samples) = elim (longest (t ∷ samples)) [
  | err e ↦ err e
  | ok other ↦ ok (if ltb (duration s) (duration other) then other else s)
]

module _ (host : Host) where
  abbrev status_texts : List Sample → List String
  status_texts [] = []
  status_texts (s ∷ samples) = host.display (pos s.status) ∷ status_texts samples

  abbrev replica_texts : List Sample → List String
  replica_texts [] = []
  replica_texts (s ∷ samples) = host.display (pos s.replica) ∷ replica_texts samples

  unfoldable pub summarize_batch : List Sample → Result Value
  summarize_batch samples = do
    slowest ← longest samples
    ok (
        dict (
          field "requests" (count (length samples)) (
            field "status_counts" (dict (fields_of (sorted_counts (status_texts samples)))) (
              field "requests_by_replica" (dict (fields_of (sorted_counts (replica_texts samples))))
                (field "max_request_seconds" (host.seconds slowest.started slowest.ended) end)))))
