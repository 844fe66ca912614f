-- ===== src/Load/Ends.antt =====
-- That the workers come to an end, and that none of them waits for another.
use inventory_cloud_service.Base.{
  arith, ◌≡◌, refl, ℕ, zero, suc, ◌+◌, ◌-◌, ◌*◌, ◌≤◌, List, [], ◌∷◌, ◌++◌, length, inl, inr,
}
use inventory_cloud_service.Load.Defs.{Operation, Worker, Pool, start}
use inventory_cloud_service.Load.Moves.{Step, step, Run, here, more, weight, IsMove, Goes-IsMove}
use inventory_cloud_service.Load.Shared.{IsShared, Step-IsShared, Run-IsShared}

module _ (jobs : List Operation) (deadline : ℕ) where
  abbrev weights : List Worker → ℕ
  weights [] = 0
  weights (w ∷ ws) = weight w + weights ws

  weights-append : (b a : List Worker) → weights (b ++ a) ≡ weights b + weights a
  weights-append [] a = omega arith
  weights-append (w ∷ b) a = omega (arith, weights-append b a)

  Step-lighter :
      {p q : Pool}
      → Step jobs deadline p q
      → IsShared jobs deadline q
      → suc (weights q.workers + 2 * (length jobs - q.cursor))
        ≤ weights p.workers + 2 * (length jobs - p.cursor)
  Step-lighter (step {cursor} {next} {w} {v} b a g) i = elim m.moved [
    | inl (same, _, lighter) ↦
        omega (arith, same, weights-append b (v ∷ a), weights-append b (w ∷ a), lighter)
    | inr (same, _, room, heavier) ↦
        omega (arith, same, weights-append b (v ∷ a), weights-append b (w ∷ a), room, heavier)
  ]
    where
      m : IsMove jobs deadline cursor w v next
      m = Goes-IsMove jobs deadline g

  start_weight : (concurrency : ℕ) → weights (start concurrency).workers ≡ concurrency
  unfolding start
  start_weight zero = refl
  start_weight (suc n) = omega (arith, start_weight n)

  Run-weight :
      (concurrency n : ℕ) (p : Pool)
      → Run jobs deadline (start concurrency) n p
      → n + (weights p.workers + 2 * (length jobs - p.cursor)) ≤ concurrency + 2 * length jobs
  Run-weight concurrency n p here = omega (arith, start_weight concurrency)
  Run-weight concurrency n p (more {q = q} r s) = omega (
    arith,
    Run-weight concurrency _ q r,
    Step-lighter s (Step-IsShared jobs deadline s (Run-IsShared jobs deadline concurrency _ q r)),
  )

  -- A run of the workers ends: with k workers it has at most 2 steps for each job and k more.
  pub Run-bounded :
      (concurrency n : ℕ) (p : Pool)
      → Run jobs deadline (start concurrency) n p
      → n ≤ concurrency + 2 * length jobs
  Run-bounded concurrency n p r = omega (arith, Run-weight concurrency n p r)
