-- ===== src/Json/Unique.antt =====
-- Dicts that no key repeats in, at any depth.
use inventory_cloud_service.Base.{◌≡◌, false, contains, string_eq}
use inventory_cloud_service.Json.Data.{
  Value, null, bool, int, float, str, list, dict, Items, nil, cons, Fields, end, field, keys,
}

abbrev mutual
  pub UniqueKeys : Value → Type 0
  UniqueKeys (list vs) = UniqueItems vs
  UniqueKeys (dict fs) = UniqueFields fs
  UniqueKeys null = Unit
  UniqueKeys (bool b) = Unit
  UniqueKeys (int z) = Unit
  UniqueKeys (float f) = Unit
  UniqueKeys (str s) = Unit

  pub UniqueItems : Items → Type 0
  UniqueItems nil = Unit
  UniqueItems (cons v vs) = UniqueKeys v × UniqueItems vs

  pub UniqueFields : Fields → Type 0
  UniqueFields end = Unit
  UniqueFields (field k v fs) = (contains k (keys fs) ≡ false) × UniqueKeys v × UniqueFields fs
