-- ===== src/Load/Moves.antt =====
-- The steps of the workers, and what one step changes.
use mathlib.Core.List.{Perm, perm_append_singleton, map-append}
use mathlib.Core.List.Perm
use mathlib.Core.Path.{subst}
use inventory_cloud_service.Base.{
  arith, ◌≡◌, refl, sym, ap, ℕ, zero, suc, ◌+◌, ◌≤◌, ◌<◌, Option, some, none, List, [], ◌∷◌, ◌++◌,
  map, All, All-append, length, get_elem?, leb, Bool-cases, inl, inr, ◌⊎◌,
}
use inventory_cloud_service.Json.{Value, Result, ok, err}
use inventory_cloud_service.Load.Defs.{
  conflict_of, failed_sample, judged_sample, Operation, Sample, Worker, idle, busy, ended, take_job,
  sample_of, Pool,
}

-- What one worker does: it takes a job or ends, or its request comes back.
pub data Goes (jobs : List Operation) (deadline cursor : ℕ) : Worker → Worker → ℕ → Type 0 where
  takes :
      (now started : ℕ) (local : List Sample)
      → Goes jobs deadline cursor
          (idle local)
          (take_job jobs deadline cursor now started local).0
          (take_job jobs deadline cursor now started local).1
  records :
      (index : ℕ) (operation : Operation) (started duration : ℕ) (local : List Sample)
      (response : Result (ℕ × Value))
      → Goes jobs deadline cursor
          (busy index operation started local)
          (idle (local ++ sample_of index operation duration response ∷ []))
          cursor

-- One of the workers goes on.
pub data Step (jobs : List Operation) (deadline : ℕ) : Pool → Pool → Type 0 where
  step :
      {cursor next : ℕ} {w v : Worker} (before behind : List Worker)
      → Goes jobs deadline cursor w v next
      → Step jobs deadline
          (record { cursor = cursor; workers = before ++ w ∷ behind })
          (record { cursor = next; workers = before ++ v ∷ behind })

-- So many steps from one pool to another.
pub data Run (jobs : List Operation) (deadline : ℕ) (p : Pool) : ℕ → Pool → Type 0 where
  here : Run jobs deadline p 0 p
  more :
      {n : ℕ} {q r : Pool}
      → Run jobs deadline p n q
      → Step jobs deadline q r
      → Run jobs deadline p (suc n) r

-- A job that a worker has taken is one of the list, and so is each of its samples.
abbrev pub IsJob : List Operation → ℕ → Operation → Type 0
IsJob jobs index operation = get_elem? jobs index ≡ some operation

abbrev pub IsSampleOf : List Operation → Sample → Type 0
IsSampleOf jobs s = IsJob jobs s.index s.operation

abbrev pub indices : Worker → List ℕ
indices (idle local) = map (λ s. s.index) local
indices (busy index operation started local) = index ∷ map (λ s. s.index) local
indices (ended local) = map (λ s. s.index) local

abbrev pub all_indices : List Worker → List ℕ
all_indices [] = []
all_indices (w ∷ ws) = indices w ++ all_indices ws

-- n - 1, ..., 0
abbrev pub below : ℕ → List ℕ
below zero = []
below (suc n) = n ∷ below n

abbrev IsOf : ℕ → Operation → Sample → Type 0
IsOf index operation s = (s.index ≡ index) × (s.operation ≡ operation)

sample_of-IsOf :
    (index : ℕ) (operation : Operation) (duration : ℕ) (response : Result (ℕ × Value))
    → IsOf index operation (sample_of index operation duration response)
unfolding sample_of
sample_of-IsOf index operation duration (err e) = (refl, refl)
sample_of-IsOf index operation duration (ok (status, payload)) =
    elim (conflict_of operation status payload)
      as (λ c. IsOf index operation (elim c [
        | err e ↦ failed_sample index operation duration e
        | ok conflict ↦ judged_sample index operation duration status conflict
      ])) [ err e ↦ (refl, refl) | ok conflict ↦ (refl, refl) ]

get_elem-bound :
    {A : Type 0} (xs : List A) (i : ℕ) {a : A} → get_elem? xs i ≡ some a → i < length xs
get_elem-bound [] i e = cc
get_elem-bound (x ∷ xs) zero e = omega arith
get_elem-bound (x ∷ xs) (suc i) e = omega (arith, get_elem-bound xs i e)

recorded-job :
    (jobs : List Operation) (index : ℕ) (operation : Operation) (s : Sample)
    → IsOf index operation s
    → IsJob jobs index operation
    → IsSampleOf jobs s
recorded-job jobs index operation s (i, o) job = rw (i, o) job

recorded_indices :
    (local : List Sample) (s : Sample)
    → Perm (map (λ t. t.index) (local ++ s ∷ [])) (s.index ∷ map (λ t. t.index) local)
recorded_indices local s =
    rw (map-append (λ t. t.index) local (s ∷ []))
      (perm_append_singleton s.index (map (λ t. t.index) local))

recorded_size :
    (local : List Sample) (s : Sample)
    → length (map (λ t. t.index) (local ++ s ∷ [])) ≡ suc (length (map (λ t. t.index) local))
recorded_size [] s = refl
recorded_size (t ∷ local) s = ap suc (recorded_size local s)

abbrev pub HasEnded : Worker → Type 0
HasEnded (ended local) = Unit
HasEnded _ = ⊥

abbrev pub AreJobs : List Operation → Worker → Type 0
AreJobs jobs (idle local) = All (IsSampleOf jobs) local
AreJobs jobs (busy index operation started local) =
    IsJob jobs index operation × All (IsSampleOf jobs) local
AreJobs jobs (ended local) = All (IsSampleOf jobs) local

abbrev pub weight : Worker → ℕ
weight (idle local) = 1
weight (busy index operation started local) = 2
weight (ended local) = 0

module _ (jobs : List Operation) (deadline : ℕ) where
  take_job-cases :
      (cursor now started : ℕ) (local : List Sample)
      → (take_job jobs deadline cursor now started local ≡ (ended local, cursor))
        ⊎ ((operation : Operation) × (take_job jobs deadline cursor now started local
              ≡ (busy cursor operation started local, suc cursor))
            × IsJob jobs cursor operation)
  unfolding take_job
  take_job-cases cursor now started local = split_found (get_elem? jobs cursor) refl
    where
      split_found :
          (found : Option Operation)
          → get_elem? jobs cursor ≡ found
          → (take_job jobs deadline cursor now started local ≡ (ended local, cursor))
            ⊎ ((operation : Operation) × (take_job jobs deadline cursor now started local
                  ≡ (busy cursor operation started local, suc cursor))
                × IsJob jobs cursor operation)
      split_found none e = inl (rw (take_job, e) refl)
      split_found (some operation) e = elim (Bool-cases (leb deadline now)) [
        | inl late ↦ inl (rw (take_job, e, late) refl)
        | inr early ↦ inr (operation, rw (take_job, e, early) refl, e)
      ]

  -- What a move of one worker changes.
  pub record IsMove (cursor : ℕ) (w v : Worker) (next : ℕ) : Type 0 where
    pub keeps_jobs : AreJobs jobs w → AreJobs jobs v
    pub moved :
        ((next ≡ cursor) × Perm (indices v) (indices w) × (weight v + 1 ≤ weight w))
        ⊎ ((next ≡ suc cursor)
            × Perm (indices v) (cursor ∷ indices w)
            × (cursor < length jobs)
            × (weight v ≤ weight w + 1))
    pub sizes : length (indices v) + cursor ≡ length (indices w) + next

  pub Goes-IsMove :
      {cursor next : ℕ} {w v : Worker} → Goes jobs deadline cursor w v next → IsMove cursor w v next
  Goes-IsMove {cursor} (takes now started local) = elim (take_job-cases cursor now started local) [
    | inl e ↦
        subst (λ r. IsMove cursor (idle local) r.0 r.1) (sym e)
          (record {
            keeps_jobs = λ j. j;
            moved = inl (refl, Perm.refl _, omega arith);
            sizes = refl;
          })
    | inr (operation, e, job) ↦
        subst (λ r. IsMove cursor (idle local) r.0 r.1) (sym e)
          (record {
            keeps_jobs = λ j. (job, j);
            moved = inr (refl, Perm.refl _, get_elem-bound jobs cursor job, omega arith);
            sizes = omega arith;
          })
  ]
  Goes-IsMove (records index operation started duration local response) = record {
    keeps_jobs = λ j. All-append (IsSampleOf jobs) local _ j.1 (
      recorded-job jobs index operation (sample_of index operation duration response) job j.0,
      tt,
    );
    moved = inl (
      refl,
      subst
          (λ i.
            Perm (map (λ s. s.index) (local ++ sample_of index operation duration response ∷ []))
              (i ∷ map (λ s. s.index) local))
          job.0 (recorded_indices local (sample_of index operation duration response)),
      omega arith,
    );
    sizes = omega (arith, recorded_size local (sample_of index operation duration response));
  }
    where
      job : IsOf index operation (sample_of index operation duration response)
      job = sample_of-IsOf index operation duration response
