-- ===== src/Tests/Load.antt =====
-- A worker that does its one job.
use mathlib.Core.List.{Perm}
use inventory_cloud_service.Base.{
  not, ℕ, ◌≡◌, refl, true, false, ◌≤◌, ◌<◌, leb, ltb, arith, ◌+◌, ◌*◌, some, none, List, [], ◌∷◌,
  map, All, length,
}
use inventory_cloud_service.Json.{
  Value, dict, int, end, field, Result, ok, null, subscript, is_number,
}
use inventory_cloud_service.Base.Int.{pos}
use inventory_cloud_service.Load.Verdict.{
  Invariants, invariants_of, is_sale, judge_run, judge_run-eq-ok,
}
use inventory_cloud_service.Load.{
  Operation, repeat, count, reserve, Sample, ended, take_job, sample_of, Pool, start, collect,
  percentile, sorted,
}
use inventory_cloud_service.Load.Moves.{takes, records, step, Run, here, more, below, IsSampleOf}
use inventory_cloud_service.Load.Shared.{IsShared, Run-IsShared, collect-IsComplete}
use inventory_cloud_service.Load.Rank.{tally, percentile-rank}
use inventory_cloud_service.Load.Ends.{Run-bounded}

abbrev jobs : List Operation
jobs = reserve ∷ []

abbrev done_sample : Sample
done_sample = record {
  index = 0;
  operation = reserve;
  status = some 201;
  expected = true;
  expected_stock_conflict = false;
  duration_ms = 7;
  error = none;
}

abbrev final : Pool
final = record { cursor = 1; workers = ended (done_sample ∷ []) ∷ [] }

run : Run jobs 1000 (start 1) 3 final
unfolding start take_job sample_of
run =
    more
      (more (more here (step [] [] (takes 5 5 [])))
        (step [] [] (records 0 reserve 5 7 [] (ok (201, null)))))
      (step [] [] (takes 12 12 (done_sample ∷ [])))

Run-IsShared_example : IsShared jobs 1000 final
Run-IsShared_example = Run-IsShared jobs 1000 1 3 final run

Run-bounded_example : 3 ≤ 1 + 2 * length jobs
Run-bounded_example = Run-bounded jobs 1000 1 3 final run

collect-IsComplete_example :
    Perm (map (λ s. s.index) (collect final.workers)) (below 1)
    × All (IsSampleOf jobs) (collect final.workers)
unfolding collect
collect-IsComplete_example = collect-IsComplete jobs 1000 1 3 final run (tt, tt) refl

percentile_run : percentile (5 ∷ 1 ∷ 4 ∷ 2 ∷ 3 ∷ []) 50 ≡ some 3
unfolding percentile sorted
percentile_run = refl

abbrev durations : List ℕ
durations = 5 ∷ 1 ∷ 4 ∷ 2 ∷ 3 ∷ []

percentile-rank_example :
    (v : ℕ) × (percentile durations 95 ≡ some v)
    × (length durations * 95 ≤ 100 * tally (λ x. leb x v) durations)
    × (100 * tally (λ x. ltb x v) durations < length durations * 95)
percentile-rank_example = percentile-rank durations 95 (omega arith) (omega arith) (omega arith)

abbrev sold : List Sample
sold = repeat 64 done_sample

abbrev product : Value
product = dict (field "availableQuantity" (int (pos 0)) end)

abbrev reservations : Value
reservations = dict (field "totalElements" (int (pos 64)) end)

verdict_trial : Result Invariants
unfolding judge_run invariants_of
verdict_trial = judge_run 64 5000 sold product reservations

abbrev invariants : Invariants
invariants = record {
  successful_reservations = 64;
  database_reservations = int (pos 64);
  remaining_stock = int (pos 0);
  no_overselling = true;
  stock_accounting_matches = true;
  reservation_count_matches = true;
}

judge_run-eq-ok_example :
    (length sold ≡ 64)
    × (count (λ s. not s.expected) sold ≡ 0)
    × (5000 ≤ 60000)
    × (count is_sale sold ≡ 64)
    × ((remaining : Value) × (subscript product "availableQuantity" ≡ ok remaining)
        × (is_number remaining (pos 0) ≡ true))
    × ((total : Value) × (subscript reservations "totalElements" ≡ ok total)
        × (is_number total (pos 64) ≡ true))
unfolding verdict_trial
judge_run-eq-ok_example = judge_run-eq-ok 64 5000 sold product reservations invariants refl
