-- ===== src/Replica/Batch.antt =====
-- `concurrent_batch` of scripts/replica-drill.py, its threads taking turns.
use inventory_cloud_service.Base.{
  ℕ, zero, suc, ◌%◌, String, ◌<>◌, ◌&&◌, Option, none, some, List, [], ◌∷◌, ◌==◌, nat_eq, leb,
  length,
}
use inventory_cloud_service.Base.Int.{ℤ, pos}
use inventory_cloud_service.Json.{Value, Exc, runtime, index_error, out_of_fuel, Result, ok, err}
use inventory_cloud_service.Exec.{Exec, pure, lift, ◌>>=◌, ◌>>◌, gets, attempt}
use inventory_cloud_service.Drill.{Host, Drill, History, demand, monotonic}

-- What the threads leave to the system: the order in which they take their turns, each named by its
-- index, unless the barrier broke; and the name of an exception's type.
pub record Threads : Type 0 where
  pub schedule : History → Option (List ℕ)
  pub type_name : Exc → String

-- What a worker returns; the two readings of the clock are those of `duration_seconds`.
pub record Sample : Type 0 where
  pub index : ℕ
  pub replica : ℕ
  pub status : ℕ
  pub payload : Value
  pub started : ℕ
  pub ended : ℕ

-- A worker at the barrier, before its request, after it, and at its end.
pub data Worker : Type 0 where
  waiting : Worker
  sending : ℕ → Worker
  answered : ℕ → Result (ℕ × Value) → Worker
  finished : Result Sample → Worker

-- `xs[i]`
abbrev pub item_at : {A : Type 0} → List A → ℕ → Result A
item_at [] i = err index_error
item_at (x ∷ xs) zero = ok x
item_at (x ∷ xs) (suc i) = item_at xs i

-- `list(executor.map(...))`: in the order of the indices, with the exception of the first that failed.
abbrev pub gather : List Worker → Result (List Sample)
gather [] = ok []
gather (finished (ok s) ∷ ws) = elim (gather ws) [ ok ss ↦ ok (s ∷ ss) | err e ↦ err e ]
gather (finished (err e) ∷ ws) = err e
gather (_ ∷ ws) = err out_of_fuel

abbrev pub at_barrier : ℕ → List Worker
at_barrier zero = []
at_barrier (suc n) = waiting ∷ at_barrier n

abbrev pub turns_or_broken : Option (List ℕ) → Result (List ℕ)
turns_or_broken none = err (runtime "")
turns_or_broken (some turns) = ok turns

module _ (host : Host) (threads : Threads) (apis : List ℤ)
    (operation : ℤ → ℕ → Exec Drill (ℕ × Value)) where
  abbrev failed : ℕ → Exc → Exc
  failed index e =
      runtime ("Replica request " <> host.display (pos index) <> " failed: " <> threads.type_name e)

  unfoldable pub call_replica : ℕ → Exec Drill (ℕ × Value)
  call_replica index = do api ← lift (item_at apis (index % 2)); operation api index

  unfoldable pub turn : ℕ → Worker → Exec Drill Worker
  turn index waiting = do now ← monotonic host; pure (sending now)
  turn index (sending started) = do
    response ← attempt (call_replica index)
    pure (answered started response)
  turn index (answered started (ok (status, payload))) = do
    now ← monotonic host
    pure (
        finished (
          ok (record {
            index = index;
            replica = index % 2;
            status = status;
            payload = payload;
            started = started;
            ended = now;
          })))
  turn index (answered started (err e)) = pure (finished (err (failed index e)))
  turn index (finished r) = pure (finished r)

  -- A turn of the worker at a place of the list, which starts with the worker `first`.
  unfoldable pub move : ℕ → ℕ → List Worker → Exec Drill (List Worker)
  move first i [] = pure []
  move first zero (w ∷ ws) = do moved ← turn first w; pure (moved ∷ ws)
  move first (suc i) (w ∷ ws) = do rest ← move (suc first) i ws; pure (w ∷ rest)

  unfoldable pub play : List ℕ → List Worker → Exec Drill (List Worker)
  play [] ws = pure ws
  play (i ∷ turns) ws = do moved ← move 0 i ws; play turns moved

  unfoldable pub concurrent_batch : ℕ → Exec Drill (List Sample)
  concurrent_batch count = do
    demand (length apis == 2) "Concurrency verification requires exactly two replicas"
    demand (leb 2 count && leb count 16 && count % 2 == 0)
        "Request batch must be an even integer from 2 to 16"
    schedule ← gets (λ s. threads.schedule s.history)
    turns ← lift (turns_or_broken schedule)
    workers ← play turns (at_barrier count)
    lift (gather workers)
