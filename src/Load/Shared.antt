-- ===== src/Load/Shared.antt =====
-- What the workers have shared out among them, in whatever order they go on.
use mathlib.Core.List.{Perm, perm_middle, map-append, append_assoc}
use mathlib.Core.List.Perm
use mathlib.Core.Path.{subst}
use inventory_cloud_service.Base.{
  arith, ◌≡◌, refl, sym, ap, ◌∙◌, ℕ, zero, suc, ◌+◌, ◌≤◌, List, [], ◌∷◌, ◌++◌, map, All, All-append,
  length, length-append, inl, inr,
}
use inventory_cloud_service.Load.Defs.{
  Operation, Sample, Worker, idle, busy, ended, Pool, start, collect,
}
use inventory_cloud_service.Load.Moves.{
  Step, step, Run, here, more, IsSampleOf, indices, all_indices, below, HasEnded, AreJobs, IsMove,
  Goes-IsMove,
}

All-split :
    (P : Worker → Type 0) (b : List Worker) (w : Worker) (a : List Worker)
    → All P (b ++ w ∷ a)
    → All P b × P w × All P a
All-split P [] w a p = (tt, p.0, p.1)
All-split P (v ∷ b) w a p = let (x, y, z) = All-split P b w a p.1 in ((p.0, x), y, z)

module _ (jobs : List Operation) (deadline : ℕ) where
  -- Every job before the cursor, and no other, is with one worker, once; the workers hold jobs of
  -- the list.
  pub record IsShared (p : Pool) : Type 0 where
    pub once : Perm (all_indices p.workers) (below p.cursor)
    pub bound : p.cursor ≤ length jobs
    pub size : length (all_indices p.workers) ≡ p.cursor
    pub genuine : All (AreJobs jobs) p.workers

  all_indices-append : (b a : List Worker) → all_indices (b ++ a) ≡ all_indices b ++ all_indices a
  all_indices-append [] a = refl
  all_indices-append (w ∷ b) a =
      ap (λ xs. indices w ++ xs) (all_indices-append b a)
      ∙ sym (append_assoc (indices w) (all_indices b) (all_indices a))

  indices_size :
      (b : List Worker) (w : Worker) (a : List Worker)
      → length (all_indices (b ++ w ∷ a))
        ≡ length (all_indices b) + (length (indices w) + length (all_indices a))
  indices_size b w a =
      ap length (all_indices-append b (w ∷ a))
      ∙ length-append (all_indices b) (indices w ++ all_indices a)
      ∙ ap (λ n. length (all_indices b) + n) (length-append (indices w) (all_indices a))

  same_place :
      (b : List Worker) (w v : Worker) (a : List Worker)
      → Perm (indices v) (indices w)
      → Perm (all_indices (b ++ v ∷ a)) (all_indices (b ++ w ∷ a))
  same_place b w v a m =
      rw (all_indices-append b (v ∷ a), all_indices-append b (w ∷ a))
        (Perm.append (Perm.refl (all_indices b)) (Perm.append m (Perm.refl (all_indices a))))

  new_place :
      (b : List Worker) (w v : Worker) (a : List Worker) (c : ℕ)
      → Perm (indices v) (c ∷ indices w)
      → Perm (all_indices (b ++ v ∷ a)) (c ∷ all_indices (b ++ w ∷ a))
  new_place b w v a c m =
      rw (all_indices-append b (v ∷ a), all_indices-append b (w ∷ a))
        (Perm.trans
          (Perm.append (Perm.refl (all_indices b)) (Perm.append m (Perm.refl (all_indices a))))
          (perm_middle (all_indices b) (indices w ++ all_indices a)))

  pub Step-IsShared : {p q : Pool} → Step jobs deadline p q → IsShared p → IsShared q
  Step-IsShared (step {cursor} {next} {w} {v} b a g) i = record {
    once = elim m.moved [
      | inl (same, perm, _) ↦
          subst (λ n. Perm (all_indices (b ++ v ∷ a)) (below n)) (sym same)
            (Perm.trans (same_place b w v a perm) i.once)
      | inr (same, perm, _, _) ↦
          subst (λ n. Perm (all_indices (b ++ v ∷ a)) (below n)) (sym same)
            (Perm.trans (new_place b w v a cursor perm) (Perm.cons cursor i.once))
    ];
    bound = elim m.moved [
      | inl (same, _, _) ↦ omega (arith, same, i.bound)
      | inr (same, _, room, _) ↦ omega (arith, same, room)
    ];
    size = omega (arith, indices_size b w a, indices_size b v a, m.sizes, i.size);
    genuine = All-append (AreJobs jobs) b _ places.0 (m.keeps_jobs places.1, places.2);
  }
    where
      m : IsMove jobs deadline cursor w v next
      m = Goes-IsMove jobs deadline g

      places : All (AreJobs jobs) b × AreJobs jobs w × All (AreJobs jobs) a
      places = All-split (AreJobs jobs) b w a i.genuine

  start-IsShared : (concurrency : ℕ) → IsShared (start concurrency)
  unfolding start
  start-IsShared zero = record {
    once = Perm.refl [];
    bound = omega arith;
    size = refl;
    genuine = tt;
  }
  start-IsShared (suc n) =
      let i = start-IsShared n in
      record { once = i.once; bound = i.bound; size = i.size; genuine = (tt, i.genuine) }

  -- However the workers take turns, whatever the clock shows and whatever the service answers, at
  -- each moment the jobs before the cursor, and no others, have each been taken once, by one
  -- worker; the cursor stays within the list, and each sample is of its job's operation.
  pub Run-IsShared :
      (concurrency n : ℕ) (p : Pool) → Run jobs deadline (start concurrency) n p → IsShared p
  Run-IsShared concurrency n p here = start-IsShared concurrency
  Run-IsShared concurrency n p (more {q = q} r s) = Step-IsShared s (Run-IsShared concurrency _ q r)

  ended_indices :
      (ws : List Worker) → All HasEnded ws → map (λ s. s.index) (collect ws) ≡ all_indices ws
  unfolding collect
  ended_indices [] e = refl
  ended_indices (ended local ∷ ws) (_, e) =
      map-append (λ s. s.index) local (collect ws)
      ∙ ap (λ xs. map (λ s. s.index) local ++ xs) (ended_indices ws e)
  ended_indices (idle local ∷ ws) (e, _) = absurd e
  ended_indices (busy index operation started local ∷ ws) (e, _) = absurd e

  ended_jobs :
      (ws : List Worker)
      → All HasEnded ws
      → All (AreJobs jobs) ws
      → All (IsSampleOf jobs) (collect ws)
  unfolding collect
  ended_jobs [] e j = tt
  ended_jobs (ended local ∷ ws) (_, e) j =
      All-append (IsSampleOf jobs) local (collect ws) j.0 (ended_jobs ws e j.1)
  ended_jobs (idle local ∷ ws) (e, _) j = absurd e
  ended_jobs (busy index operation started local ∷ ws) (e, _) j = absurd e

  length-map : (f : Sample → ℕ) (ss : List Sample) → length (map f ss) ≡ length ss
  length-map f [] = refl
  length-map f (s ∷ ss) = ap suc (length-map f ss)

  -- Once all workers have ended with as many samples as there are jobs, each job was done once: the
  -- indices of the samples are those of the jobs in some order, and each sample is of the operation
  -- of its job.
  pub collect-IsComplete :
      (concurrency n : ℕ) (p : Pool)
      → Run jobs deadline (start concurrency) n p
      → All HasEnded p.workers
      → length (collect p.workers) ≡ length jobs
      → Perm (map (λ s. s.index) (collect p.workers)) (below (length jobs))
        × All (IsSampleOf jobs) (collect p.workers)
  collect-IsComplete concurrency n p r e full = (
    subst (λ c. Perm (map (λ s. s.index) (collect p.workers)) (below c)) whole
        (subst (λ xs. Perm xs (below p.cursor)) (sym (ended_indices p.workers e)) shared.once),
    ended_jobs p.workers e shared.genuine,
  )
    where
      shared : IsShared p
      shared = Run-IsShared concurrency n p r

      whole : p.cursor ≡ length jobs
      whole =
          sym shared.size
          ∙ ap length (sym (ended_indices p.workers e))
          ∙ length-map (λ s. s.index) (collect p.workers)
          ∙ full
