-- ===== src/Replica/Turns.antt =====
-- What `concurrent_batch` returns, whatever turns its threads take, and that it ends.
use mathlib.Core.Path.{subst}
use inventory_cloud_service.Base.{
  ◌≡◌, refl, ap, sym, ◌∙◌, ℕ, zero, suc, ◌%◌, String, List, [], ◌∷◌, length,
}
use inventory_cloud_service.Base.Int.{ℤ}
use inventory_cloud_service.Json.{Value, runtime, Result, ok, err}
use inventory_cloud_service.Json.Ensures.{ok-injective}
use inventory_cloud_service.Exec.{Exec}
use inventory_cloud_service.Exec.Finds.{
  Finds, Finds-skip, Finds-run, Finds-lift, Finds-pure, Finds-bind, Finds-weaken, Finds-require,
  Finds-attempt,
}
use inventory_cloud_service.Drill.{Host, Drill}
use inventory_cloud_service.Replica.Batch.{
  Threads, Sample, Worker, waiting, sending, answered, finished, item_at, gather, at_barrier,
  call_replica, turn, move, play, concurrent_batch,
}

gather_step :
    (s : Sample) (r : Result (List Sample)) {samples : List Sample}
    → elim r [ ok rest ↦ ok (s ∷ rest) | err e ↦ err e ] ≡ ok samples
    → (rest : List Sample) × (r ≡ ok rest) × (samples ≡ s ∷ rest)
gather_step s (ok rest) e = (rest, refl, sym (ok-injective e))
gather_step s (err x) e = cc

module _ (host : Host) (threads : Threads) (apis : List ℤ)
    (operation : ℤ → ℕ → Exec Drill (ℕ × Value)) where
  -- The operation has returned this to the worker, on the replica that its index chooses.
  pub record IsAnswer (index status : ℕ) (payload : Value) : Type 0 where
    pub port : ℤ
    pub at : item_at apis (index % 2) ≡ ok port
    pub before : Drill
    pub after : Drill
    pub ran : operation port index before ≡ (ok (status, payload), after)

  pub record IsSampleOf (index : ℕ) (s : Sample) : Type 0 where
    pub own_index : s.index ≡ index
    pub own_replica : s.replica ≡ index % 2
    pub answer : IsAnswer index s.status s.payload

  abbrev pub Fits : ℕ → Worker → Type 0
  Fits index waiting = Unit
  Fits index (sending started) = Unit
  Fits index (answered started (ok (status, payload))) = IsAnswer index status payload
  Fits index (answered started (err e)) = Unit
  Fits index (finished (ok s)) = IsSampleOf index s
  Fits index (finished (err e)) = (message : String) × (e ≡ runtime message)

  abbrev pub AllFit : ℕ → List Worker → Type 0
  AllFit first [] = Unit
  AllFit first (w ∷ ws) = Fits first w × AllFit (suc first) ws

  -- The samples of the workers from `first` on, one each, in the order of their indices.
  abbrev pub AreSamples : ℕ → List Sample → Type 0
  AreSamples first [] = Unit
  AreSamples first (s ∷ samples) = IsSampleOf first s × AreSamples (suc first) samples

  answer-Finds :
      (index : ℕ)
      → Finds (λ r. IsAnswer index r.0 r.1) (call_replica host threads apis operation index)
  unfolding call_replica
  answer-Finds index = Finds-bind _ _ (Finds-lift _) λ port at.
      Finds-weaken _ (Finds-run _) λ r (before, after, ran). record {
        port = port;
        at = at;
        before = before;
        after = after;
        ran = ran;
      }

  turn-Finds :
      (index : ℕ) (w : Worker)
      → Fits index w
      → Finds (Fits index) (turn host threads apis operation index w)
  unfolding turn
  turn-Finds index waiting h = Finds-skip _ _ λ now. Finds-pure _ tt
  turn-Finds index (sending started) h =
      Finds-bind _ _ (Finds-attempt _)
        λ response (s, t, ran). Finds-pure _ (answer_fits response s t ran)
    where
      answer_fits :
          (r : Result (ℕ × Value)) (s t : Drill)
          → call_replica host threads apis operation index s ≡ (r, t)
          → Fits index (answered started r)
      answer_fits (ok r) s t ran = (answer-Finds index).at s r t ran
      answer_fits (err e) s t ran = tt
  turn-Finds index (answered started (ok (status, payload))) h =
      Finds-skip _ _
        λ now. Finds-pure _ (record { own_index = refl; own_replica = refl; answer = h })
  turn-Finds index (answered started (err e)) h = Finds-pure _ (_, refl)
  turn-Finds index (finished r) h = Finds-pure _ h

  move-Finds :
      (first i : ℕ) (ws : List Worker)
      → AllFit first ws
      → Finds
          (λ moved. AllFit first moved × (length moved ≡ length ws))
          (move host threads apis operation first i ws)
  unfolding move
  move-Finds first i [] h = Finds-pure _ (tt, refl)
  move-Finds first zero (w ∷ ws) h =
      Finds-bind _ _ (turn-Finds first w h.0) λ moved fits. Finds-pure _ ((fits, h.1), refl)
  move-Finds first (suc i) (w ∷ ws) h =
      Finds-bind _ _ (move-Finds (suc first) i ws h.1)
        λ rest (fit, same). Finds-pure _ ((h.0, fit), ap suc same)

  pub play-Finds :
      (turns : List ℕ) (ws : List Worker)
      → AllFit 0 ws
      → Finds
          (λ moved. AllFit 0 moved × (length moved ≡ length ws))
          (play host threads apis operation turns ws)
  unfolding play
  play-Finds [] ws h = Finds-pure _ (h, refl)
  play-Finds (i ∷ turns) ws h = Finds-bind _ _ (move-Finds 0 i ws h) λ moved (fit, same).
      Finds-weaken _ (play-Finds turns moved fit) λ last (fits, still). (fits, still ∙ same)

  pub at_barrier-AllFit : (first n : ℕ) → AllFit first (at_barrier n) × (length (at_barrier n) ≡ n)
  at_barrier-AllFit first zero = (tt, refl)
  at_barrier-AllFit first (suc n) =
      let (fit, long) = at_barrier-AllFit (suc first) n in ((tt, fit), ap suc long)

  pub gather-AreSamples :
      (first : ℕ) (ws : List Worker) {samples : List Sample}
      → AllFit first ws
      → gather ws ≡ ok samples
      → AreSamples first samples × (length samples ≡ length ws)
  gather-AreSamples first [] h e =
      subst (λ l. AreSamples first l × (length l ≡ 0)) (ok-injective e) (tt, refl)
  gather-AreSamples first (finished (ok s) ∷ ws) h e =
      let (rest, gathered, is_cons) = gather_step s (gather ws) e in
      let (are, long) = gather-AreSamples (suc first) ws h.1 gathered in
      subst (λ l. AreSamples first l × (length l ≡ suc (length ws))) (sym is_cons)
        ((h.0, are), ap suc long)
  gather-AreSamples first (finished (err x) ∷ ws) h e = cc
  gather-AreSamples first (waiting ∷ ws) h e = cc
  gather-AreSamples first (sending started ∷ ws) h e = cc
  gather-AreSamples first (answered started r ∷ ws) h e = cc

  -- Whatever the order in which the threads run, a batch that returns has exactly one sample for each
  -- index, in the order of the indices, and the sample of an index has the status and the payload that
  -- the operation returned for that index on the replica of the index modulo 2.
  pub concurrent_batch-AreSamples :
      (count : ℕ) (s : Drill) {samples : List Sample} {t : Drill}
      → concurrent_batch host threads apis operation count s ≡ (ok samples, t)
      → (length samples ≡ count) × AreSamples 0 samples
  unfolding concurrent_batch
  concurrent_batch-AreSamples count s {samples} {t} e = found.at s samples t e
    where
      found :
          Finds
            (λ samples. (length samples ≡ count) × AreSamples 0 samples)
            (concurrent_batch host threads apis operation count)
      found = Finds-bind _ _ (Finds-require _ _) λ _ _. Finds-bind _ _ (Finds-require _ _) λ _ _.
          Finds-skip _ _ λ schedule. Finds-bind _ _ (Finds-lift _) λ turns _.
            let (fit, long) = at_barrier-AllFit 0 count in
            Finds-bind _ _ (play-Finds turns (at_barrier count) fit) λ workers (fits, same).
              Finds-weaken _ (Finds-lift _) λ gathered e.
                let (are, as_long) = gather-AreSamples 0 workers fits e in
                (as_long ∙ same ∙ long, are)
