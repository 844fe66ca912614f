-- ===== src/Contract/Defs.antt =====
-- `REQUIRED_CAPABILITIES`, `validate_contract`, and `strict_object` as the decoder applies it to each
-- object, the innermost first.
use inventory_cloud_service.Base.{
  ℕ, String, Bool, false, Option, none, some, List, [], ◌∷◌, ◌==◌, string_eq, if◌then◌else◌,
  contains,
}
use inventory_cloud_service.Base.Int.{ℤ, pos, int_eq}
use inventory_cloud_service.Base.Sets.{same_set, distinct}
use inventory_cloud_service.Json.{
  Value, null, bool, int, float, str, list, dict, Items, nil, cons, Fields, end, field, Exc,
  contract, Result, ok, err, ◌>>=◌, ◌>>◌, guard, keys, snoc, subscript, is_text,
}

abbrev pub required_capabilities : List String
required_capabilities =
    "separate-migrations/v1" ∷ "restricted-runtime/v1" ∷ "reservation-idempotency/v1" ∷ []

abbrev pub contract_keys : List String
contract_keys = "schemaVersion" ∷ "service" ∷ "capabilities" ∷ []

-- The dict that `validate_contract` returns.
pub record Contract : Type 0 where
  pub schema_version : ℕ
  pub service : String
  pub capabilities : List String

-- `sorted(REQUIRED_CAPABILITIES)` is the required texts in this order.
abbrev pub canonical : Contract
canonical = record {
  schema_version = 1;
  service = "inventory-cloud-service";
  capabilities =
      "reservation-idempotency/v1" ∷ "restricted-runtime/v1" ∷ "separate-migrations/v1" ∷ [];
}

-- `type(v) is int and v == z`
abbrev pub is_exact_int : Value → ℤ → Bool
is_exact_int (int a) z = a == z
is_exact_int _ z = false

-- The texts of a list that holds nothing else.
abbrev pub as_texts : Items → Option (List String)
as_texts nil = some []
as_texts (cons (str s) vs) = elim (as_texts vs) [ none ↦ none | some ss ↦ some (s ∷ ss) ]
as_texts (cons _ vs) = none

abbrev pub exact_capabilities : Option (List String) → Bool
exact_capabilities none = false
exact_capabilities (some ss) = if distinct ss then same_set ss required_capabilities else false

abbrev pub declares_capabilities : Value → Bool
declares_capabilities (list vs) = exact_capabilities (as_texts vs)
declares_capabilities _ = false

abbrev pub structure_error : Exc
structure_error = contract "The embedded release contract has an unsupported structure."

abbrev pub schema_error : Exc
schema_error = contract "The embedded release contract schema is unsupported."

abbrev pub service_error : Exc
service_error = contract "The embedded contract identifies a different service."

abbrev pub capabilities_error : Exc
capabilities_error =
    contract
      "The image does not declare the exact required migration, runtime, and idempotency capabilities."

abbrev pub duplicate_error : Exc
duplicate_error = contract "The embedded contract contains duplicate JSON object keys."

-- The checks on a dict, after its test for the exact set of keys.
unfoldable pub validate_fields : Value → Result Contract
validate_fields v = do
  guard (is_exact_int (← subscript v "schemaVersion") (pos 1)) schema_error
  guard (is_text (← subscript v "service") "inventory-cloud-service") service_error
  guard (declares_capabilities (← subscript v "capabilities")) capabilities_error
  ok canonical

unfoldable pub validate_contract : Value → Result Contract
unfolding validate_fields
validate_contract (dict fs) =
    guard (same_set (keys fs) contract_keys) structure_error >> validate_fields (dict fs)
validate_contract _ = err structure_error

-- The loop of `strict_object` over the pairs of one object, with the dict made so far.
unfoldable pub strict_object_from : Fields → Fields → Result Value
strict_object_from end made = ok (dict made)
strict_object_from (field k v rest) made =
    if contains k (keys made) then err duplicate_error else strict_object_from rest (snoc made k v)

unfoldable pub strict_object : Fields → Result Value
unfolding strict_object_from
strict_object pairs = strict_object_from pairs end

-- `json.loads(raw, object_pairs_hook=strict_object)`, after the decoding of the pairs.
unfoldable mutual
  unfolding strict_object

  pub strict : Value → Result Value
  strict (list vs) = strict_items vs >>= λ ws. ok (list ws)
  strict (dict fs) = strict_fields fs >>= strict_object
  strict null = ok null
  strict (bool b) = ok (bool b)
  strict (int z) = ok (int z)
  strict (float f) = ok (float f)
  strict (str s) = ok (str s)

  pub strict_items : Items → Result Items
  strict_items nil = ok nil
  strict_items (cons v vs) = strict v >>= λ w. strict_items vs >>= λ ws. ok (cons w ws)

  pub strict_fields : Fields → Result Fields
  strict_fields end = ok end
  strict_fields (field k v fs) = strict v >>= λ w. strict_fields fs >>= λ gs. ok (field k w gs)
