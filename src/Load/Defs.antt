-- ===== src/Load/Defs.antt =====
-- `percentile`, `summarize` and the workers of `run_load` of scripts/load-test.py, which share the
-- cursor into the list of jobs. Times are in milliseconds of the monotonic clock.
use inventory_cloud_service.Base.{
  ℕ, zero, suc, ◌+◌, ◌-◌, ◌*◌, ◌/◌, max, Bool, true, false, not, ◌&&◌, ◌||◌, Option, none, some,
  List, [], ◌∷◌, ◌++◌, ◌==◌, nat_eq, leb, length, get_elem?, map, if◌then◌else◌,
}
use inventory_cloud_service.Json.{Value, null, Exc, Result, ok, err, get, is_text}

-- `sorted` of numbers
abbrev pub insert_number : ℕ → List ℕ → List ℕ
insert_number a [] = a ∷ []
insert_number a (b ∷ bs) = let rest = insert_number a bs in if leb a b then a ∷ b ∷ bs else b ∷ rest

unfoldable pub sorted : List ℕ → List ℕ
sorted [] = []
sorted (a ∷ rest) = insert_number a (sorted rest)

-- `math.ceil(n * percent / 100)`
abbrev pub rank : ℕ → ℕ → ℕ
rank n percent = (n * percent + 99) / 100

-- The subtraction stops at 0, which is the `max` with 0 of the source.
unfoldable pub percentile : List ℕ → ℕ → Option ℕ
percentile values percent = get_elem? (sorted values) (rank (length values) percent - 1)

pub data Operation : Type 0 where
  reserve read : Operation

abbrev pub is_reserve : Operation → Bool
is_reserve reserve = true
is_reserve read = false

-- The status is missing where the source has "transport_error".
pub record Sample : Type 0 where
  pub index : ℕ
  pub operation : Operation
  pub status : Option ℕ
  pub expected : Bool
  pub expected_stock_conflict : Bool
  pub duration_ms : ℕ
  pub error : Option Exc

-- `sorted` of a `Counter` by the text of the status: the statuses of HTTP have three digits, and
-- "transport_error" comes behind them.
abbrev same_status : Option ℕ → Option ℕ → Bool
same_status none none = true
same_status (some m) (some n) = m == n
same_status _ _ = false

abbrev comes_before : Option ℕ → Option ℕ → Bool
comes_before (some m) (some n) = leb m n
comes_before (some m) none = true
comes_before none n = false

abbrev pub count_in : Option ℕ → List (Option ℕ × ℕ) → List (Option ℕ × ℕ)
count_in s [] = (s, 1) ∷ []
count_in s (c ∷ cs) =
    let rest = count_in s cs in
    if same_status s c.0
    then (c.0, suc c.1) ∷ cs
    else if comes_before s c.0
    then (s, 1) ∷ c ∷ cs
    else c ∷ rest

unfoldable pub status_counts : List Sample → List (Option ℕ × ℕ)
status_counts [] = []
status_counts (s ∷ ss) = count_in s.status (status_counts ss)

pub record Summary : Type 0 where
  pub requests : ℕ
  pub counts : List (Option ℕ × ℕ)
  pub p50 : Option ℕ
  pub p95 : Option ℕ
  pub p99 : Option ℕ
  pub largest : Option ℕ

abbrev largest_of : List ℕ → Option ℕ
largest_of [] = none
largest_of (a ∷ rest) = elim (largest_of rest) [ none ↦ some a | some b ↦ some (max a b) ]

unfoldable pub summarize : List Sample → Summary
summarize samples =
    let latencies = map (λ s. s.duration_ms) samples in
    record {
      requests = length samples;
      counts = status_counts samples;
      p50 = percentile latencies 50;
      p95 = percentile latencies 95;
      p99 = percentile latencies 99;
      largest = largest_of latencies;
    }

abbrev pub repeat : {A : Type 0} → ℕ → A → List A
repeat zero a = []
repeat (suc n) a = a ∷ repeat n a

abbrev pub stock : ℕ
stock = 64

abbrev pub reservations_target : ℕ → ℕ
reservations_target requests = max (stock + 1) (requests * 5 / 9)

-- The list of jobs; a negative number of reads is none.
unfoldable pub jobs_for : ℕ → List Operation
jobs_for requests =
    repeat (reservations_target requests) reserve
    ++ repeat (requests - reservations_target requests) read

-- A worker between two jobs, in a request that it has started, or at its end, with its samples.
pub data Worker : Type 0 where
  idle : List Sample → Worker
  busy : ℕ → Operation → ℕ → List Sample → Worker
  ended : List Sample → Worker

-- The body of the lock, and the look at the clock before the request; the worker ends where the
-- cursor has passed the jobs.
unfoldable pub take_job : List Operation → ℕ → ℕ → ℕ → ℕ → List Sample → Worker × ℕ
take_job jobs deadline cursor now started local = elim (get_elem? jobs cursor) [
  | none ↦ (ended local, cursor)
  | some operation ↦
      if leb deadline now
      then (ended local, cursor)
      else (busy cursor operation started local, suc cursor)
]

abbrev pub is_expected : Operation → ℕ → Bool → Bool
is_expected reserve status conflict = status == 201 || conflict
is_expected read status conflict = status == 200

abbrev pub conflict_of : Operation → ℕ → Value → Result Bool
conflict_of operation status payload =
    if is_reserve operation && status == 409
    then elim (get payload "detail" null) [
      | ok detail ↦ ok (is_text detail "Insufficient available stock")
      | err e ↦ err e
    ]
    else ok false

abbrev pub failed_sample : ℕ → Operation → ℕ → Exc → Sample
failed_sample index operation duration e = record {
  index = index;
  operation = operation;
  status = none;
  expected = false;
  expected_stock_conflict = false;
  duration_ms = duration;
  error = some e;
}

abbrev pub judged_sample : ℕ → Operation → ℕ → ℕ → Bool → Sample
judged_sample index operation duration status conflict = record {
  index = index;
  operation = operation;
  status = some status;
  expected = is_expected operation status conflict;
  expected_stock_conflict = conflict;
  duration_ms = duration;
  error = none;
}

-- The sample of a request that took so long: `response` is what `api.request` returned or raised.
unfoldable pub sample_of : ℕ → Operation → ℕ → Result (ℕ × Value) → Sample
sample_of index operation duration (err e) = failed_sample index operation duration e
sample_of index operation duration (ok (status, payload)) =
    elim (conflict_of operation status payload) [
      | err e ↦ failed_sample index operation duration e
      | ok conflict ↦ judged_sample index operation duration status conflict
    ]

-- The workers and the cursor that they share.
pub record Pool : Type 0 where
  pub cursor : ℕ
  pub workers : List Worker

unfoldable pub start : ℕ → Pool
start concurrency = record { cursor = 0; workers = repeat concurrency (idle []) }

abbrev pub samples_of : Worker → List Sample
samples_of (idle local) = local
samples_of (busy index operation started local) = local
samples_of (ended local) = local

-- `future.result()` of each worker in turn.
unfoldable pub collect : List Worker → List Sample
collect [] = []
collect (w ∷ ws) = samples_of w ++ collect ws

-- `samples.sort(key=lambda sample: sample["index"])`
abbrev pub insert_sample : Sample → List Sample → List Sample
insert_sample a [] = a ∷ []
insert_sample a (b ∷ bs) =
    let rest = insert_sample a bs in if leb a.index b.index then a ∷ b ∷ bs else b ∷ rest

unfoldable pub sort_samples : List Sample → List Sample
sort_samples [] = []
sort_samples (a ∷ rest) = insert_sample a (sort_samples rest)

abbrev pub count : (Sample → Bool) → List Sample → ℕ
count p [] = 0
count p (s ∷ ss) = let rest = count p ss in if p s then suc rest else rest

abbrev is_success : Option ℕ → Bool
is_success none = false
is_success (some n) = leb 200 n && leb n 299

abbrev same_operation : Operation → Operation → Bool
same_operation reserve reserve = true
same_operation read read = true
same_operation _ _ = false

abbrev pub of_operation : Operation → List Sample → List Sample
of_operation o [] = []
of_operation o (s ∷ ss) =
    let rest = of_operation o ss in if same_operation s.operation o then s ∷ rest else rest

-- The summary of a run, without the rates that are quotients of floats.
pub record Results : Type 0 where
  pub overall : Summary
  pub successful : ℕ
  pub expected_conflicts : ℕ
  pub unexpected_errors : ℕ
  pub reserves : Summary
  pub reads : Summary

unfoldable pub results_of : List Sample → Results
results_of samples = record {
  overall = summarize samples;
  successful = count (λ s. is_success s.status) samples;
  expected_conflicts = count (λ s. s.expected_stock_conflict) samples;
  unexpected_errors = count (λ s. not s.expected) samples;
  reserves = summarize (of_operation reserve samples);
  reads = summarize (of_operation read samples);
}
