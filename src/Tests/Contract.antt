-- ===== src/Tests/Contract.antt =====
-- A release contract with its capabilities in another order than the required one.
use inventory_cloud_service.Base.{◌≡◌, refl, ◌↔◌, String, List, [], ◌∷◌, true, string_eq}
use inventory_cloud_service.Base.Int.{pos}
use inventory_cloud_service.Base.Sets.{same_set→mem_iff, same_set→Perm, distinct→Nodup}
use inventory_cloud_service.Json.{
  contract, null, bool, int, str, list, dict, nil, cons, Fields, end, field, ok, err, keys,
}
use inventory_cloud_service.Json.Unique.{UniqueKeys}
use inventory_cloud_service.Contract.{
  canonical, contract_keys, required_capabilities, service_error, duplicate_error,
  validate_contract, strict,
}
use inventory_cloud_service.Contract.Validate.{
  text_items, Declares, validate_contract-eq-ok, validate_contract-only_contract,
}
use inventory_cloud_service.Contract.Strict.{strict-eq-ok_iff}

abbrev pub capabilities : List String
capabilities =
    "restricted-runtime/v1" ∷ "separate-migrations/v1" ∷ "reservation-idempotency/v1" ∷ []

abbrev pub fields_for : String → Fields
fields_for service = field "service" (str service) (
    field "schemaVersion" (int (pos 1)) (field "capabilities" (list (text_items capabilities)) end))

abbrev pub release : Fields
release = fields_for "inventory-cloud-service"

accepts : validate_contract (dict release) ≡ ok canonical
unfolding validate_contract
accepts = refl

refuses_bool :
    validate_contract (
      dict
        (field "schemaVersion" (bool true) (field "service" null (field "capabilities" null end))))
    ≡ err (contract "The embedded release contract schema is unsupported.")
unfolding validate_contract
refuses_bool = refl

refuses_repeated_key :
    strict (list (cons (dict (field "a" null (field "a" null end))) nil)) ≡ err duplicate_error
unfolding strict
refuses_repeated_key = refl

pub release-Declares : Declares release capabilities
release-Declares = record {
  exact_keys = same_set→mem_iff (keys release) contract_keys refl;
  schema = refl;
  service = refl;
  declared = refl;
  complete =
      same_set→Perm capabilities required_capabilities refl
        (distinct→Nodup required_capabilities refl) refl;
}

validate_contract-eq-ok_example : (validate_contract (dict release) ≡ ok canonical) ↔ (
    (canonical ≡ canonical)
    × ((fs : Fields) × (caps : List String) × (dict release ≡ dict fs) × Declares fs caps))
validate_contract-eq-ok_example = validate_contract-eq-ok (dict release) canonical

validate_contract-only_contract_example : (message : String) × (service_error ≡ contract message)
unfolding validate_contract
validate_contract-only_contract_example =
    validate_contract-only_contract (dict (fields_for "other-service")) service_error refl

strict-eq-ok_iff_example :
    (strict (dict release) ≡ ok (dict release))
    ↔ ((dict release ≡ dict release) × UniqueKeys (dict release))
strict-eq-ok_iff_example = strict-eq-ok_iff (dict release) (dict release)
