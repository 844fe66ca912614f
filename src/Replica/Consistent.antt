-- ===== src/Replica/Consistent.antt =====
-- What a replica drill that ends with exit status 0 has shown.
use inventory_cloud_service.Base.{◌≡◌, String, none, List, [], ◌∷◌, nat_eq}
use inventory_cloud_service.Json.{Value, dict, end, ok}
use inventory_cloud_service.Drill.{Host, Drill, Identity, post}
use inventory_cloud_service.Replica.Batch.{Threads}
use inventory_cloud_service.Replica.Judged.{IsSame, IsContended}
use inventory_cloud_service.Replica.Run.{
  Launched, launch, apis_of, Bought, same_request, create_with_one_key, contend_request, contend,
  cancel_first,
}
use inventory_cloud_service.Replica.Restart.{
  Restarted, restart, apis_after, cancel_request, retry, check_final,
}
use inventory_cloud_service.Replica.Shared.{SharedStock}
use inventory_cloud_service.Replica.Batches.{Batch, IsKeyed, CancelsAt, AreFinal}

module _ (host : Host) (threads : Threads) (fixture : Identity) where
  -- The run from `s` to `t` was the drill, step by step; what its batches have shown, with the stock
  -- after them, and what both services list at the end.
  pub record IsConsistent (s t : Drill) : Type 0 where
    pub launched : Launched
    pub ready : Drill
    pub launching : launch host threads fixture s ≡ (ok launched, ready)
    pub bought : Bought
    pub purchased : Drill
    pub purchase_run :
        create_with_one_key host threads fixture launched ready ≡ (ok bought, purchased)
    pub one_key : IsKeyed host threads fixture bought
    pub purchases :
        Batch host threads fixture
          (apis_of launched)
          (same_request host threads fixture bought.order)
          (λ samples. IsSame samples ((201, 1) ∷ (200, 7) ∷ []) bought.reservation)
    pub stock_after_purchase :
        SharedStock host fixture launched.first launched.second bought.product 15
    pub contended : Value
    pub created : List Value
    pub competed : Drill
    pub contention_run :
        contend host threads fixture launched purchased ≡ (ok (contended, created), competed)
    pub contention :
        Batch host threads fixture
          (apis_of launched)
          (contend_request host threads fixture contended)
          (λ samples. IsContended samples 3 created)
    pub stock_after_contention : SharedStock host fixture launched.first launched.second contended 1
    pub cancelled : Value
    pub released : Drill
    pub cancellation_run :
        cancel_first host threads fixture launched bought competed ≡ (ok cancelled, released)
    pub path : String
    pub cancels : CancelsAt host threads fixture bought.reservation path
    pub cancellation :
        Batch host threads fixture
          (apis_of launched)
          (same_request host threads fixture (post path (dict end) none))
          (λ samples. IsSame samples ((200, 8) ∷ []) cancelled)
    pub stock_after_cancellation :
        SharedStock host fixture launched.first launched.second bought.product 20
    pub restarted : Restarted
    pub resumed : Drill
    pub restart_run :
        restart host fixture launched bought cancelled released ≡ (ok restarted, resumed)
    pub cancelled_active : Value
    pub retried : Drill
    pub retry_run :
        retry host threads fixture bought contended cancelled restarted resumed
        ≡ (ok cancelled_active, retried)
    pub second_cancellation :
        Batch host threads fixture
          (apis_after restarted)
          (cancel_request host threads fixture restarted.active)
          (λ samples. IsSame samples ((200, 8) ∷ []) cancelled_active)
    pub last_stock : SharedStock host fixture restarted.first restarted.second bought.product 19
    pub last_contended_stock : SharedStock host fixture restarted.first restarted.second contended 1
    pub final_run :
        check_final host threads fixture restarted cancelled cancelled_active created retried
        ≡ (ok tt, t)
    pub final :
        AreFinal host threads fixture restarted
          (cancelled ∷ cancelled_active ∷ restarted.survivor ∷ created)
