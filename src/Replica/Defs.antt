-- ===== src/Replica/Defs.antt =====
-- `verify_stock`, `run_drill` and `main` of scripts/replica-drill.py.
use inventory_cloud_service.Base.{
  ℕ, String, ◌<>◌, Bool, false, ◌&&◌, none, List, [], ◌∷◌, ◌==◌, nat_eq, string_eq, if◌then◌else◌,
  length, all,
}
use inventory_cloud_service.Base.Int.{ℤ, pos, int_eq}
use inventory_cloud_service.Base.Text.{first_characters}
use inventory_cloud_service.Json.{
  Value, str, dict, end, field, Result, ok, err, ◌>>=◌ as ◌then◌, subscript, is_number, equals,
}
use inventory_cloud_service.Exec.{Exec, pure, lift, ◌>>=◌, ◌>>◌}
use inventory_cloud_service.Drill.{
  Host, Drill, Identity, demand, get_path, post, expect, count, concat,
}
use inventory_cloud_service.Replica.Batch.{item_at}
use inventory_cloud_service.Replica.Samples.{hashable}

-- `d[k] = v` on a dict whose keys are values.
abbrev pub set_key : Value → Value → List (Value × Value) → List (Value × Value)
set_key k v [] = (k, v) ∷ []
set_key k v ((j, w) ∷ d) =
    let rest = set_key k v d in if equals k j then (j, v) ∷ d else (j, w) ∷ rest

abbrev keyed_onto : List (Value × Value) → List Value → Result (List (Value × Value))
keyed_onto d [] = ok d
keyed_onto d (item ∷ items) = elim (subscript item "id") [
  | err e ↦ err e
  | ok id ↦ elim (hashable id) [ err e ↦ err e | ok k ↦ keyed_onto (set_key k item d) items ]
]

-- `{item["id"]: item for item in items}`
abbrev pub keyed : List Value → Result (List (Value × Value))
keyed items = keyed_onto [] items

abbrev has_entry : Value → Value → List (Value × Value) → Bool
has_entry k v [] = false
has_entry k v ((j, w) ∷ d) = if equals k j then equals v w else has_entry k v d

-- `c == d`
abbrev pub same_records : List (Value × Value) → List (Value × Value) → Bool
same_records c d = length c == length d && all (λ p. has_entry p.0 p.1 d) c

module _ (host : Host) (fixture : Identity) where
  -- `[api.expect("GET", path, "customer") for api in apis]`
  unfoldable pub read_all : List ℤ → String → Exec Drill (List Value)
  read_all [] path = pure []
  read_all (api ∷ apis) path = do
    v ← expect host fixture api (get_path path) "customer" 200
    vs ← read_all apis path
    pure (v ∷ vs)

  unfoldable pub verify_stock : List ℤ → Value → ℕ → Exec Drill (Unit {0})
  verify_stock apis product quantity = do
    id ← lift (subscript product "id")
    path ← lift (concat "/api/v1/products/" id)
    snapshots ← read_all apis path
    first ← lift (item_at snapshots 0)
    second ← lift (item_at snapshots 1)
    demand (equals first second) "Replicas disagree with expected shared stock"
    available ← lift (subscript first "availableQuantity")
    demand (is_number available (pos quantity)) "Replicas disagree with expected shared stock"

  unfoldable pub create_product : ℤ → String → String → ℕ → Exec Drill Value
  create_product api prefix name quantity =
      expect host fixture api
        (post "/api/v1/products"
          (dict (
            field "sku" (str (prefix <> host.upper (first_characters 12 fixture.run_id)))
              (field "name" (str name) (field "initialQuantity" (count quantity) end))))
          none)
        "admin" 201

abbrev pub purchase : Value → ℕ → Value
purchase product_id quantity =
    dict (field "productId" product_id (field "quantity" (count quantity) end))
