-- ===== src/Replica/Ends.antt =====
-- A batch ends once each of its workers has had three turns.
use inventory_cloud_service.Base.{
  ◌≡◌, refl, ap, ◌∙◌, ℕ, zero, suc, ◌-◌, ◌%◌, ◌<◌, ◌≤◌, String, true, ◌&&◌, some, List, [], ◌∷◌,
  ◌==◌, nat_eq, ◌⊎◌, inl, inr, length, leb, arith, if◌then◌else◌,
}
use inventory_cloud_service.Base.Int.{ℤ}
use inventory_cloud_service.Json.{Value, runtime, ok, err}
use inventory_cloud_service.Exec.{Exec, lift}
use inventory_cloud_service.Exec.Finds.{Finds, Finds-skip, Finds-pure, Finds-bind, Finds-weaken}
use inventory_cloud_service.Exec.Total.{
  IsTotal, IsTotal-bind, IsTotal-pure, IsTotal-attempt, require-then, gets-then, lift-then, bind-ok,
}
use inventory_cloud_service.Drill.{Host, Drill, monotonic}
use inventory_cloud_service.Replica.Batch.{
  Threads, Sample, Worker, waiting, sending, answered, finished, gather, at_barrier,
  turns_or_broken, turn, move, play, concurrent_batch,
}
use inventory_cloud_service.Replica.Samples.{occurrences}
use inventory_cloud_service.Replica.Turns.{AllFit, gather-AreSamples, at_barrier-AllFit, play-Finds}

-- The turns that a worker still needs.
abbrev rank : Worker → ℕ
rank waiting = 3
rank (sending started) = 2
rank (answered started r) = 1
rank (finished r) = 0

abbrev rank_at : ℕ → List Worker → ℕ
rank_at i [] = 0
rank_at zero (w ∷ ws) = rank w
rank_at (suc i) (w ∷ ws) = rank_at i ws

abbrev after_turn : ℕ → ℕ → ℕ → ℕ
after_turn i j n = if j == i then n - 1 else n

-- Worker j needs three turns at the start, and has had enough when it has had as many.
enough_turns : (j n m : ℕ) → (j < n → 3 ≤ m) → rank_at j (at_barrier n) - m ≡ 0
enough_turns j zero m h = omega arith
enough_turns zero (suc n) m h = omega (arith, h (omega arith))
enough_turns (suc j) (suc n) m h = enough_turns j n m λ less. h (omega arith)

moved_first :
    (moved w : Worker) (ws : List Worker)
    → rank moved ≡ rank w - 1
    → (j : ℕ) → rank_at j (moved ∷ ws) ≡ after_turn 0 j (rank_at j (w ∷ ws))
moved_first moved w ws e zero = e
moved_first moved w ws e (suc j) = ground arith

moved_later :
    (w : Worker) (rest ws : List Worker) (i : ℕ)
    → ((j : ℕ) → rank_at j rest ≡ after_turn i j (rank_at j ws))
    → (j : ℕ) → rank_at j (w ∷ rest) ≡ after_turn (suc i) j (rank_at j (w ∷ ws))
moved_later w rest ws i e zero = ground arith
moved_later w rest ws i e (suc j) = ground (arith, e j)

-- A worker with no turns left has a sample or the exception of its request.
gather-ends :
    (host : Host) (threads : Threads) (apis : List ℤ) (operation : ℤ → ℕ → Exec Drill (ℕ × Value))
    (first : ℕ) (ws : List Worker)
    → AllFit host threads apis operation first ws
    → ((j : ℕ) → rank_at j ws ≡ 0)
    → ((samples : List Sample) × (gather ws ≡ ok samples))
      ⊎ ((message : String) × (gather ws ≡ err (runtime message)))
gather-ends host threads apis operation first [] h z = inl ([], refl)
gather-ends host threads apis operation first (waiting ∷ ws) h z = absurd (ground (arith, z 0))
gather-ends host threads apis operation first (sending started ∷ ws) h z =
    absurd (ground (arith, z 0))
gather-ends host threads apis operation first (answered started r ∷ ws) h z =
    absurd (ground (arith, z 0))
gather-ends host threads apis operation first (finished (err e) ∷ ws) h z =
    inr (h.0.0, ap err h.0.1)
gather-ends host threads apis operation first (finished (ok s) ∷ ws) h z =
    elim (gather-ends host threads apis operation (suc first) ws h.1 (λ j. z (suc j))) [
      | inl (samples, e) ↦ inl (s ∷ samples, rw e refl)
      | inr (message, e) ↦ inr (message, rw e refl)
    ]

module _ (host : Host) (threads : Threads) (apis : List ℤ)
    (operation : ℤ → ℕ → Exec Drill (ℕ × Value)) where
  monotonic-IsTotal : IsTotal (monotonic host)
  unfolding monotonic
  monotonic-IsTotal = record { at = λ s. (host.clock s.history, s, refl) }

  turn-IsTotal : (index : ℕ) (w : Worker) → IsTotal (turn host threads apis operation index w)
  unfolding turn
  turn-IsTotal index waiting = IsTotal-bind _ _ monotonic-IsTotal λ now. IsTotal-pure _
  turn-IsTotal index (sending started) =
      IsTotal-bind _ _ (IsTotal-attempt _) λ response. IsTotal-pure _
  turn-IsTotal index (answered started (ok (status, payload))) =
      IsTotal-bind _ _ monotonic-IsTotal λ now. IsTotal-pure _
  turn-IsTotal index (answered started (err e)) = IsTotal-pure _
  turn-IsTotal index (finished r) = IsTotal-pure _

  move-IsTotal :
      (first i : ℕ) (ws : List Worker) → IsTotal (move host threads apis operation first i ws)
  unfolding move
  move-IsTotal first i [] = IsTotal-pure _
  move-IsTotal first zero (w ∷ ws) = IsTotal-bind _ _ (turn-IsTotal first w) λ moved. IsTotal-pure _
  move-IsTotal first (suc i) (w ∷ ws) =
      IsTotal-bind _ _ (move-IsTotal (suc first) i ws) λ rest. IsTotal-pure _

  play-IsTotal :
      (turns : List ℕ) (ws : List Worker) → IsTotal (play host threads apis operation turns ws)
  unfolding play
  play-IsTotal [] ws = IsTotal-pure _
  play-IsTotal (i ∷ turns) ws =
      IsTotal-bind _ _ (move-IsTotal 0 i ws) λ moved. play-IsTotal turns moved

  turn-rank :
      (index : ℕ) (w : Worker)
      → Finds (λ moved. rank moved ≡ rank w - 1) (turn host threads apis operation index w)
  unfolding turn
  turn-rank index waiting = Finds-skip _ _ λ now. Finds-pure _ refl
  turn-rank index (sending started) = Finds-skip _ _ λ response. Finds-pure _ refl
  turn-rank index (answered started (ok (status, payload))) =
      Finds-skip _ _ λ now. Finds-pure _ refl
  turn-rank index (answered started (err e)) = Finds-pure _ refl
  turn-rank index (finished r) = Finds-pure _ refl

  move-rank :
      (first i : ℕ) (ws : List Worker)
      → Finds
          (λ moved. (j : ℕ) → rank_at j moved ≡ after_turn i j (rank_at j ws))
          (move host threads apis operation first i ws)
  unfolding move
  move-rank first i [] = Finds-pure _ λ j. ground arith
  move-rank first zero (w ∷ ws) =
      Finds-bind _ _ (turn-rank first w) λ moved e. Finds-pure _ (moved_first moved w ws e)
  move-rank first (suc i) (w ∷ ws) =
      Finds-bind _ _ (move-rank (suc first) i ws) λ rest e. Finds-pure _ (moved_later w rest ws i e)

  play-rank :
      (turns : List ℕ) (ws : List Worker)
      → Finds
          (λ moved. (j : ℕ) → rank_at j moved ≡ rank_at j ws - occurrences j turns)
          (play host threads apis operation turns ws)
  unfolding play
  play-rank [] ws = Finds-pure _ λ j. omega arith
  play-rank (i ∷ turns) ws =
      Finds-bind _ _ (move-rank 0 i ws)
        λ moved e. Finds-weaken _ (play-rank turns moved) λ last p j. ground (arith, e j, p j)

  -- With two replicas and an even number of requests from 2 to 16, once the barrier has let the threads
  -- pass and each of them has had three turns, in whatever order, a batch ends: it returns as many
  -- samples as requests, or raises the RuntimeError of a request that failed.
  pub concurrent_batch-ends :
      (count : ℕ) (s : Drill) {turns : List ℕ}
      → (length apis == 2) ≡ true
      → leb 2 count && leb count 16 && count % 2 == 0 ≡ true
      → threads.schedule s.history ≡ some turns
      → ((j : ℕ) → j < count → 3 ≤ occurrences j turns)
      → ((samples : List Sample) × (length samples ≡ count)
          × ((concurrent_batch host threads apis operation count s).0 ≡ ok samples))
        ⊎ ((message : String) × ((concurrent_batch host threads apis operation count s).0
              ≡ err (runtime message)))
  unfolding concurrent_batch lift
  concurrent_batch-ends count s {turns} two even scheduled fair =
      let (fit, long) = at_barrier-AllFit host threads apis operation 0 count in
      let (workers, t, played) = (play-IsTotal turns (at_barrier count)).at s in
      let (fits, same) =
        (play-Finds host threads apis operation turns (at_barrier count) fit).at s workers t
          played in
      let ranks = (play-rank turns (at_barrier count)).at s workers t played in
      let run : (concurrent_batch host threads apis operation count s ≡ lift (gather workers) t) =
        require-then _ _ _ s two
        ∙ require-then _ _ _ s even
        ∙ gets-then _ _ s
        ∙ lift-then _ _ s (ap turns_or_broken scheduled)
        ∙ bind-ok _ _ s played refl in
      elim (gather-ends host threads apis operation 0 workers fits
        λ j. ranks j ∙ enough_turns j count (occurrences j turns) (fair j)) [
          | inl (samples, e) ↦ inl (
            samples,
            (gather-AreSamples host threads apis operation 0 workers fits e).1 ∙ same ∙ long,
            ap (λ r. r.0) run ∙ e,
          )
          | inr (message, e) ↦ inr (message, ap (λ r. r.0) run ∙ e)
        ]
