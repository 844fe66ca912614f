-- ===== src/Rotation/Preserved.antt =====
-- What the service that replaced the first one has kept.
use inventory_cloud_service.Base.{some, string_eq}
use inventory_cloud_service.Base.Int.{ℤ}
use inventory_cloud_service.Json.{Value}
use inventory_cloud_service.Exec.Finds.{Finds, Finds-lift, Finds-bind, Finds-weaken, Finds-require}
use inventory_cloud_service.Drill.{Host, Identity, Seeded, get_path, post, reservations_path}
use inventory_cloud_service.Drill.Served.{ServedEqual, ServedStock, ServedCancelled, expect-Finds}
use inventory_cloud_service.Rotation.Defs.{check_replacement}

module _ (host : Host) (fixture : Identity) where
  -- What the service that replaced the first one has answered.
  pub record IsPreserved (port : ℤ) (seeded : Seeded) : Type 0 where
    pub product : ServedEqual host fixture port (get_path seeded.product_path) seeded.product
    pub reservation :
        ServedEqual host fixture port (get_path seeded.reservation_path) seeded.reservation
    pub replayed :
        ServedEqual host fixture port
          (post reservations_path seeded.body (some seeded.key))
          seeded.reservation
    pub cancelled : Value
    pub cancellation : ServedCancelled host fixture port seeded.reservation_path cancelled
    pub late :
        ServedEqual host fixture port
          (post reservations_path seeded.body (some seeded.key))
          cancelled
    pub stock : ServedStock host fixture port seeded.product_path 23

  pub check_replacement-Finds :
      (port : ℤ) (seeded : Seeded)
      → Finds (λ _. IsPreserved port seeded) (check_replacement host fixture port seeded)
  unfolding check_replacement
  check_replacement-Finds port seeded =
      Finds-bind _ _ (expect-Finds _ _ _ _ _ _) λ product served_product.
        Finds-bind _ _ (Finds-require _ _) λ _ same_product.
          Finds-bind _ _ (expect-Finds _ _ _ _ _ _) λ reservation served_reservation.
            Finds-bind _ _ (Finds-require _ _) λ _ same_reservation.
              Finds-bind _ _ (expect-Finds _ _ _ _ _ _) λ replayed served_replay.
                Finds-bind _ _ (Finds-require _ _) λ _ same_replay.
                  Finds-bind _ _ (expect-Finds _ _ _ _ _ _) λ cancelled served_cancelled.
                    Finds-bind _ _ (Finds-lift _) λ status status_at.
                      Finds-bind _ _ (Finds-require _ _) λ _ is_cancelled.
                        Finds-bind _ _ (expect-Finds _ _ _ _ _ _) λ again served_again.
                          Finds-bind _ _ (Finds-require _ _) λ _ same_again.
                            Finds-bind _ _ (expect-Finds _ _ _ _ _ _) λ late served_late.
                              Finds-bind _ _ (Finds-require _ _) λ _ same_late.
                                Finds-bind _ _ (expect-Finds _ _ _ _ _ _) λ final served_final.
                                  Finds-bind _ _ (Finds-lift _) λ available available_at.
                                    Finds-weaken _ (Finds-require _ _) λ _ is_available. record {
                                      product = record {
                                        payload = product;
                                        served = served_product;
                                        equal = same_product;
                                      };
                                      reservation = record {
                                        payload = reservation;
                                        served = served_reservation;
                                        equal = same_reservation;
                                      };
                                      replayed = record {
                                        payload = replayed;
                                        served = served_replay;
                                        equal = same_replay;
                                      };
                                      cancelled = cancelled;
                                      cancellation = record {
                                        status = status;
                                        served = served_cancelled;
                                        said = status_at;
                                        is_cancelled = is_cancelled;
                                      };
                                      late = record {
                                        payload = late;
                                        served = served_late;
                                        equal = same_late;
                                      };
                                      stock = record {
                                        payload = final;
                                        available = available;
                                        served = served_final;
                                        said = available_at;
                                        is_quantity = is_available;
                                      };
                                    }
