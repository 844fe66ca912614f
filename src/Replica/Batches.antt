-- ===== src/Replica/Batches.antt =====
-- What the batches of the replica drill show, and what both services list at the end.
use inventory_cloud_service.Base.{
  ◌≡◌, refl, ℕ, String, ◌<>◌, true, All, none, some, List, [], ◌∷◌, ◌==◌, nat_eq, length,
}
use inventory_cloud_service.Base.Int.{ℤ}
use inventory_cloud_service.Json.{Value, dict, end, ok, subscript}
use inventory_cloud_service.Exec.{Exec}
use inventory_cloud_service.Exec.Finds.{
  Finds, Finds-skip, Finds-run, Finds-lift, Finds-pure, Finds-bind, Finds-weaken, Finds-require,
}
use inventory_cloud_service.Drill.{Host, Drill, Identity, post, concat, reservations_path}
use inventory_cloud_service.Replica.Batch.{Threads, Sample, concurrent_batch}
use inventory_cloud_service.Replica.Turns.{AreSamples, concurrent_batch-AreSamples}
use inventory_cloud_service.Replica.Judged.{
  IsSame, IsContended, require_same_reservation-IsSame, require_stock_conflicts-IsContended,
}
use inventory_cloud_service.Replica.Defs.{keyed, purchase}
use inventory_cloud_service.Replica.Run.{
  Launched, cancel_path, apis_of, Bought, same_request, create_with_one_key, contend_request,
  contend, cancel_at_once, cancel_first,
}
use inventory_cloud_service.Replica.Restart.{
  Restarted, apis_after, cancel_request, retry, check_final,
}
use inventory_cloud_service.Replica.Shared.{
  SharedStock, PageShows, verify_stock-Finds, check_records-Finds,
}

module _ (host : Host) (threads : Threads) (fixture : Identity) where
  -- A batch of eight: one sample for each request, and what the test of it has shown.
  pub record Batch (apis : List ℤ) (operation : ℤ → ℕ → Exec Drill (ℕ × Value))
      (Shown : List Sample → Type 0) : Type 0 where
    pub samples : List Sample
    pub eight : length samples ≡ 8
    pub are : AreSamples host threads apis operation 0 samples
    pub shown : Shown samples

  batch-Finds :
      (apis : List ℤ) (operation : ℤ → ℕ → Exec Drill (ℕ × Value))
      → Finds
          (λ samples. (length samples ≡ 8) × AreSamples host threads apis operation 0 samples)
          (concurrent_batch host threads apis operation 8)
  batch-Finds apis operation =
      Finds-weaken _ (Finds-run _)
        λ samples (s, t, ran). concurrent_batch-AreSamples host threads apis operation 8 s ran

  -- The purchase of five units of the product, under the one key of this run.
  abbrev pub IsKeyed : Bought → Type 0
  IsKeyed bought =
      (id : Value) × (subscript bought.product "id" ≡ ok id)
      × (bought.order
          ≡ post reservations_path (purchase id 5) (some ("replica-same-key-" <> fixture.run_id)))

  pub create_with_one_key-Finds :
      (launched : Launched)
      → Finds
          (λ bought.
            IsKeyed bought
            × Batch
                (apis_of launched)
                (same_request host threads fixture bought.order)
                (λ samples. IsSame samples ((201, 1) ∷ (200, 7) ∷ []) bought.reservation)
            × SharedStock host fixture launched.first launched.second bought.product 15)
          (create_with_one_key host threads fixture launched)
  unfolding create_with_one_key
  create_with_one_key-Finds launched = Finds-skip _ _ λ product.
      Finds-bind _ _ (Finds-lift _) λ id id_at.
        Finds-bind _ _ (batch-Finds _ _) λ samples (eight, are). Finds-skip _ _ λ _.
          Finds-skip _ _ λ _. Finds-bind _ _ (Finds-lift _) λ reservation passed.
            Finds-skip _ _ λ _. Finds-skip _ _ λ _. Finds-skip _ _ λ _. Finds-skip _ _ λ _.
              Finds-bind _ _ (verify_stock-Finds host fixture _ _ _ _) λ _ stock.
                Finds-skip _ _ λ _. Finds-skip _ _ λ _. Finds-pure _ (
                  (id, id_at, refl),
                  record {
                    samples = samples;
                    eight = eight;
                    are = are;
                    shown = require_same_reservation-IsSame samples _ none passed;
                  },
                  stock,
                )

  pub contend-Finds :
      (launched : Launched)
      → Finds
          (λ p.
            Batch
              (apis_of launched)
              (contend_request host threads fixture p.0)
              (λ samples. IsContended samples 3 p.1)
            × SharedStock host fixture launched.first launched.second p.0 1)
          (contend host threads fixture launched)
  unfolding contend
  contend-Finds launched = Finds-skip _ _ λ contended.
      Finds-bind _ _ (batch-Finds _ _) λ samples (eight, are). Finds-skip _ _ λ _.
        Finds-skip _ _ λ _. Finds-bind _ _ (Finds-lift _) λ created passed.
          Finds-bind _ _ (verify_stock-Finds host fixture _ _ _ _) λ _ stock. Finds-skip _ _ λ _.
            Finds-skip _ _ λ _. Finds-skip _ _ λ _. Finds-skip _ _ λ _. Finds-skip _ _ λ _.
              Finds-pure _ (
                record {
                  samples = samples;
                  eight = eight;
                  are = are;
                  shown = require_stock_conflicts-IsContended samples 3 passed;
                },
                stock,
              )

  abbrev Cancels : List ℤ → (ℤ → ℕ → Exec Drill (ℕ × Value)) → Value → Type 0
  Cancels apis operation cancelled =
      Batch apis operation (λ samples. IsSame samples ((200, 8) ∷ []) cancelled)

  cancel_at_once-Finds :
      (apis : List ℤ) (operation : ℤ → ℕ → Exec Drill (ℕ × Value)) (reservation : Value)
      (section message : String)
      → Finds
          (Cancels apis operation)
          (cancel_at_once host threads fixture apis operation reservation section message)
  unfolding cancel_at_once
  cancel_at_once-Finds apis operation reservation section message =
      Finds-bind _ _ (batch-Finds _ _) λ samples (eight, are). Finds-skip _ _ λ _.
        Finds-skip _ _ λ _. Finds-bind _ _ (Finds-lift _) λ cancelled passed. Finds-skip _ _ λ _.
          Finds-skip _ _ λ _. Finds-skip _ _ λ _. Finds-skip _ _ λ _. Finds-skip _ _ λ _.
            Finds-pure _ (record {
              samples = samples;
              eight = eight;
              are = are;
              shown = require_same_reservation-IsSame samples _ none passed;
            })

  -- The path that cancels the reservation.
  abbrev pub CancelsAt : Value → String → Type 0
  CancelsAt reservation path =
      (id : Value) × (p : String) × (subscript reservation "id" ≡ ok id)
      × (concat "/api/v1/reservations/" id ≡ ok p)
      × (path ≡ p <> "/cancel")

  cancel_path-Finds :
      (reservation : Value)
      → Finds (CancelsAt reservation) (cancel_path host threads fixture reservation)
  unfolding cancel_path
  cancel_path-Finds reservation =
      Finds-bind _ _ (Finds-lift _)
        λ id id_at. Finds-bind _ _ (Finds-lift _) λ p p_at. Finds-pure _ (id, p, id_at, p_at, refl)

  pub cancel_first-Finds :
      (launched : Launched) (bought : Bought)
      → Finds
          (λ cancelled.
            ((path : String) × CancelsAt bought.reservation path
              × Cancels
                  (apis_of launched)
                  (same_request host threads fixture (post path (dict end) none))
                  cancelled)
            × SharedStock host fixture launched.first launched.second bought.product 20)
          (cancel_first host threads fixture launched bought)
  unfolding cancel_first
  cancel_first-Finds launched bought = Finds-bind _ _ (cancel_path-Finds _) λ path path_at.
      Finds-bind _ _ (cancel_at_once-Finds _ _ _ _ _) λ cancelled batch.
        Finds-bind _ _ (verify_stock-Finds host fixture _ _ _ _) λ _ stock.
          Finds-skip _ _ λ _. Finds-skip _ _ λ _. Finds-pure _ ((path, path_at, batch), stock)

  pub retry-Finds :
      (bought : Bought) (contended cancelled : Value) (r : Restarted)
      → Finds
          (λ cancelled_active.
            Cancels (apis_after r) (cancel_request host threads fixture r.active) cancelled_active
            × SharedStock host fixture r.first r.second bought.product 19
            × SharedStock host fixture r.first r.second contended 1)
          (retry host threads fixture bought contended cancelled r)
  unfolding retry
  retry-Finds bought contended cancelled r = Finds-skip _ _ λ _. Finds-skip _ _ λ _.
      Finds-skip _ _ λ _. Finds-skip _ _ λ _. Finds-skip _ _ λ _. Finds-skip _ _ λ _.
        Finds-skip _ _ λ _.
          Finds-bind _ _ (cancel_at_once-Finds _ _ _ _ _) λ cancelled_active batch.
            Finds-bind _ _ (verify_stock-Finds host fixture _ _ _ _) λ _ stock.
              Finds-bind _ _ (verify_stock-Finds host fixture _ _ _ _)
                λ _ other_stock. Finds-pure _ (batch, stock, other_stock)

  -- The records that both services have to list at the end.
  pub record AreFinal (r : Restarted) (items : List Value) : Type 0 where
    pub expected : List (Value × Value)
    pub keyed_items : keyed items ≡ ok expected
    pub six : (length expected == 6) ≡ true
    pub pages : All (λ api. (PageShows host fixture) api expected) (apis_after r)

  pub check_final-Finds :
      (r : Restarted) (cancelled cancelled_active : Value) (created : List Value)
      → Finds
          (λ _. AreFinal r (cancelled ∷ cancelled_active ∷ r.survivor ∷ created))
          (check_final host threads fixture r cancelled cancelled_active created)
  unfolding check_final
  check_final-Finds r cancelled cancelled_active created =
      Finds-bind _ _ (Finds-lift _) λ expected keyed_items.
        Finds-bind _ _ (Finds-require _ _) λ _ six.
          Finds-bind _ _ (check_records-Finds host fixture _ _ _ _) λ _ pages. Finds-skip _ _ λ _.
            Finds-weaken _ (Finds-run _) λ _ _. record {
              expected = expected;
              keyed_items = keyed_items;
              six = six;
              pages = pages;
            }
