-- ===== src/Replica/Shared.antt =====
-- The stock and the records that both replicas show.
use mathlib.Core.Path.{subst}
use inventory_cloud_service.Base.{
  ◌≡◌, refl, ℕ, zero, suc, String, true, false, All, some, List, [], ◌∷◌, nat_eq,
}
use inventory_cloud_service.Base.Int.{ℤ, pos}
use inventory_cloud_service.Json.{Value, ok, subscript, is_number, iterate, equals}
use inventory_cloud_service.Json.Ensures.{ok-injective}
use inventory_cloud_service.Exec.Finds.{
  Finds, Finds-skip, Finds-lift, Finds-pure, Finds-bind, Finds-weaken, Finds-require,
}
use inventory_cloud_service.Drill.{Host, Identity, Message, get_path, concat}
use inventory_cloud_service.Drill.Served.{Served, ServedStock, expect-Finds}
use inventory_cloud_service.Replica.Batch.{item_at}
use inventory_cloud_service.Replica.Defs.{keyed, same_records, read_all, verify_stock}
use inventory_cloud_service.Replica.Restart.{check_page, check_records}

module _ (host : Host) (fixture : Identity) where
  -- Both services say that so much of the product is available, in equal answers.
  pub record SharedStock (first second : ℤ) (product : Value) (quantity : ℕ) : Type 0 where
    pub id : Value
    pub id_at : subscript product "id" ≡ ok id
    pub path : String
    pub is_path : concat "/api/v1/products/" id ≡ ok path
    pub stock : ServedStock host fixture first path quantity
    pub other : Value
    pub served : Served host fixture second (get_path path) (some "customer") 200 other
    pub equal : equals stock.payload other ≡ true

  abbrev pub AllServed : String → List ℤ → List Value → Type 0
  AllServed path [] vs = Unit
  AllServed path (api ∷ apis) [] = false ≡ true
  AllServed path (api ∷ apis) (v ∷ vs) =
      Served host fixture api (get_path path) (some "customer") 200 v × AllServed path apis vs

  pub Served-at :
      (path : String) (apis : List ℤ) (vs : List Value) (i : ℕ) {api : ℤ} {v : Value}
      → AllServed path apis vs
      → item_at apis i ≡ ok api
      → item_at vs i ≡ ok v
      → Served host fixture api (get_path path) (some "customer") 200 v
  Served-at path [] vs i h at there = cc
  Served-at path (api ∷ apis) [] i h at there = cc
  Served-at path (api ∷ apis) (v ∷ vs) zero {v = w} h at there =
      subst (λ z. Served host fixture z (get_path path) (some "customer") 200 w) (ok-injective at)
        (subst (Served host fixture api (get_path path) (some "customer") 200) (ok-injective there)
          h.0)
  Served-at path (api ∷ apis) (v ∷ vs) (suc i) h at there = Served-at path apis vs i h.1 at there

  pub read_all-Finds :
      (apis : List ℤ) (path : String)
      → Finds (AllServed path apis) (read_all host fixture apis path)
  unfolding read_all
  read_all-Finds [] path = Finds-pure _ tt
  read_all-Finds (api ∷ apis) path = Finds-bind _ _ (expect-Finds _ _ _ _ _ _) λ v served.
      Finds-bind _ _ (read_all-Finds apis path) λ vs others. Finds-pure _ (served, others)

  pub verify_stock-Finds :
      (first second : ℤ) (product : Value) (quantity : ℕ)
      → Finds
          (λ _. SharedStock first second product quantity)
          (verify_stock host fixture (first ∷ second ∷ []) product quantity)
  unfolding verify_stock
  verify_stock-Finds first second product quantity = Finds-bind _ _ (Finds-lift _) λ id id_at.
      Finds-bind _ _ (Finds-lift _) λ path is_path.
        Finds-bind _ _ (read_all-Finds _ path) λ snapshots all_served.
          Finds-bind _ _ (Finds-lift _) λ one one_at. Finds-bind _ _ (Finds-lift _) λ two two_at.
            Finds-bind _ _ (Finds-require _ _) λ _ equal.
              Finds-bind _ _ (Finds-lift _) λ available said.
                Finds-weaken _ (Finds-require _ _) λ _ is_quantity. record {
                  id = id;
                  id_at = id_at;
                  path = path;
                  is_path = is_path;
                  stock = record {
                    payload = one;
                    available = available;
                    served =
                        Served-at path (first ∷ second ∷ []) snapshots 0 all_served refl one_at;
                    said = said;
                    is_quantity = is_quantity;
                  };
                  other = two;
                  served = Served-at path (first ∷ second ∷ []) snapshots 1 all_served refl two_at;
                  equal = equal;
                }

  -- The service lists exactly the expected records, and counts six of them.
  pub record PageShows (api : ℤ) (expected : List (Value × Value)) : Type 0 where
    pub page : Value
    pub served :
        Served host fixture api
          (get_path "/api/v1/reservations?size=100")
          (some "customer")
          200
          page
    pub total : Value
    pub total_at : subscript page "totalElements" ≡ ok total
    pub six : is_number total (pos 6) ≡ true
    pub listed : Value
    pub listed_at : subscript page "items" ≡ ok listed
    pub items : List Value
    pub items_are : iterate listed ≡ ok items
    pub records : List (Value × Value)
    pub keyed_items : keyed items ≡ ok records
    pub same : same_records records expected ≡ true

  pub check_page-Finds :
      (api : ℤ) (order : Message) (cancelled : Value) (expected : List (Value × Value))
      → Finds (λ _. PageShows api expected) (check_page host fixture api order cancelled expected)
  unfolding check_page
  check_page-Finds api order cancelled expected = Finds-skip _ _ λ _.
      Finds-bind _ _ (expect-Finds _ _ _ _ _ _) λ page served.
        Finds-bind _ _ (Finds-lift _) λ total total_at. Finds-bind _ _ (Finds-require _ _) λ _ six.
          Finds-bind _ _ (Finds-lift _) λ listed listed_at.
            Finds-bind _ _ (Finds-lift _) λ items items_are.
              Finds-bind _ _ (Finds-lift _) λ records keyed_items.
                Finds-weaken _ (Finds-require _ _) λ _ same. record {
                  page = page;
                  served = served;
                  total = total;
                  total_at = total_at;
                  six = six;
                  listed = listed;
                  listed_at = listed_at;
                  items = items;
                  items_are = items_are;
                  records = records;
                  keyed_items = keyed_items;
                  same = same;
                }

  pub check_records-Finds :
      (apis : List ℤ) (order : Message) (cancelled : Value) (expected : List (Value × Value))
      → Finds
          (λ _. All (λ api. PageShows api expected) apis)
          (check_records host fixture apis order cancelled expected)
  unfolding check_records
  check_records-Finds [] order cancelled expected = Finds-pure _ tt
  check_records-Finds (api ∷ apis) order cancelled expected =
      Finds-bind _ _ (check_page-Finds api order cancelled expected) λ _ shown.
        Finds-weaken _ (check_records-Finds apis order cancelled expected)
          λ _ others. (shown, others)
