-- ===== src/Replica/Keeps.antt =====
-- A batch, and what ReplicaFixture does, keep the fixture sound.
use inventory_cloud_service.Base.{◌≡◌, refl, ℕ, zero, suc, String, Bool, true, false, List, [], ◌∷◌}
use inventory_cloud_service.Base.Int.{ℤ}
use inventory_cloud_service.Json.{Value, ok, err}
use inventory_cloud_service.Exec.{Exec}
use inventory_cloud_service.Exec.Steps.{
  Steps-bind, Steps-pure, Steps-bind_known, bind-eq-ok, require-bind-eq-ok,
}
use inventory_cloud_service.Drill.{Host, Drill, Identity, is_own_name, owned}
use inventory_cloud_service.Drill.Keeps.{
  keeping, Keeps, expect-Keeps, owned-own, docker_with-Keeps, act-proper,
}
use inventory_cloud_service.Drill.Complete.{drill_rules}
use inventory_cloud_service.Replica.Batch.{
  Threads, Worker, waiting, sending, answered, finished, call_replica, turn, move, play,
  concurrent_batch,
}
use inventory_cloud_service.Replica.Fixture.{
  Replicas, is_replica, inspect_replica, start_replica, api_for_replica, stop_replica,
  restart_replica,
}
use inventory_cloud_service.Replica.Defs.{read_all, verify_stock, create_product}

module _ (host : Host) (threads : Threads) (fixture : Identity) (apis : List ℤ)
    (operation : ℤ → ℕ → Exec Drill (ℕ × Value))
    (operation-Keeps : (api : ℤ) (index : ℕ) → Keeps host fixture (operation api index)) where
  pub call_replica-Keeps :
      (index : ℕ) → Keeps host fixture (call_replica host threads apis operation index)
  unfolding call_replica
  call_replica-Keeps index = search (drill_rules, operation-Keeps) depth 40

  pub turn-Keeps :
      (index : ℕ) (w : Worker) → Keeps host fixture (turn host threads apis operation index w)
  unfolding turn
  turn-Keeps index waiting = search drill_rules depth 40
  turn-Keeps index (sending started) = search (drill_rules, call_replica-Keeps) depth 40
  turn-Keeps index (answered started (ok (status, payload))) = search drill_rules depth 40
  turn-Keeps index (answered started (err e)) = search drill_rules depth 40
  turn-Keeps index (finished r) = search drill_rules depth 40

  pub move-Keeps :
      (first i : ℕ) (ws : List Worker)
      → Keeps host fixture (move host threads apis operation first i ws)
  unfolding move
  move-Keeps first i [] = Steps-pure (keeping host fixture) []
  move-Keeps first zero (w ∷ ws) = search (drill_rules, turn-Keeps) depth 40
  move-Keeps first (suc i) (w ∷ ws) =
      Steps-bind (keeping host fixture) _ _ (move-Keeps (suc first) i ws)
        λ rest. Steps-pure (keeping host fixture) _

  pub play-Keeps :
      (turns : List ℕ) (ws : List Worker)
      → Keeps host fixture (play host threads apis operation turns ws)
  unfolding play
  play-Keeps [] ws = Steps-pure (keeping host fixture) ws
  play-Keeps (i ∷ turns) ws =
      Steps-bind (keeping host fixture) _ _ (move-Keeps 0 i ws) λ moved. play-Keeps turns moved

  pub concurrent_batch-Keeps :
      (count : ℕ) → Keeps host fixture (concurrent_batch host threads apis operation count)
  unfolding concurrent_batch
  concurrent_batch-Keeps count = search (drill_rules, play-Keeps) depth 60

module _ (host : Host) (fixture : Identity) where
  pub inspect_replica-Keeps :
      (replicas : Replicas) (name : String) (running : Bool)
      → Keeps host fixture (inspect_replica host fixture replicas name running)
  unfolding inspect_replica
  inspect_replica-Keeps replicas name running = search drill_rules depth 60

  pub inspect_replica-own :
      (replicas : Replicas) (name : String) (running : Bool) (s t : Drill) (item : Value)
      → inspect_replica host fixture replicas name running s ≡ (ok item, t)
      → is_own_name fixture name ≡ true
  unfolding inspect_replica
  inspect_replica-own replicas name running s t item e =
      let (_, r) = require-bind-eq-ok (is_replica name replicas) _ _ s e in
      let (_, _, found, _) = bind-eq-ok (owned host fixture "container" name) _ s r in
      owned-own host fixture "container" name s found

  pub start_replica-Keeps :
      (role database : String) (replicas : Replicas)
      → Keeps host fixture (start_replica host fixture role database replicas)
  unfolding start_replica
  start_replica-Keeps role database replicas = search (drill_rules, inspect_replica-Keeps) depth 60

  pub api_for_replica-Keeps :
      (replicas : Replicas) (name : String)
      → Keeps host fixture (api_for_replica host fixture replicas name)
  unfolding api_for_replica
  api_for_replica-Keeps replicas name = search (drill_rules, inspect_replica-Keeps) depth 60

  pub stop_replica-Keeps :
      (replicas : Replicas) (name : String)
      → Keeps host fixture (stop_replica host fixture replicas name)
  unfolding stop_replica
  stop_replica-Keeps replicas name = search (drill_rules, inspect_replica-Keeps) depth 60

  pub restart_replica-Keeps :
      (replicas : Replicas) (name : String)
      → Keeps host fixture (restart_replica host fixture replicas name)
  unfolding restart_replica
  restart_replica-Keeps replicas name =
      Steps-bind_known (keeping host fixture) (inspect_replica host fixture replicas name false) _
        (inspect_replica-Keeps replicas name false) (inspect_replica-own replicas name false)
        λ before own.
          search
            (
              drill_rules,
              docker_with-Keeps,
              act-proper host fixture "container" "start" name own refl,
              inspect_replica-Keeps,
              api_for_replica-Keeps,
            )
            depth 60

  pub read_all-Keeps :
      (apis : List ℤ) (path : String) → Keeps host fixture (read_all host fixture apis path)
  unfolding read_all
  read_all-Keeps [] path = Steps-pure (keeping host fixture) []
  read_all-Keeps (api ∷ apis) path =
      Steps-bind (keeping host fixture) _ _ (expect-Keeps host fixture api _ _ _) λ v.
        Steps-bind (keeping host fixture) _ _ (read_all-Keeps apis path)
          λ vs. Steps-pure (keeping host fixture) _

  pub verify_stock-Keeps :
      (apis : List ℤ) (product : Value) (quantity : ℕ)
      → Keeps host fixture (verify_stock host fixture apis product quantity)
  unfolding verify_stock
  verify_stock-Keeps apis product quantity = search (drill_rules, read_all-Keeps) depth 60

  pub create_product-Keeps :
      (api : ℤ) (prefix name : String) (quantity : ℕ)
      → Keeps host fixture (create_product host fixture api prefix name quantity)
  unfolding create_product
  create_product-Keeps api prefix name quantity = search (expect-Keeps)
