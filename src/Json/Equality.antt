-- ===== src/Json/Equality.antt =====
-- Python's `==` on decoded values: a number is compared by its value, a list in order, a dict by its keys.
use inventory_cloud_service.Base.{
  ℕ, ◌+◌, ◌^◌, Bool, true, false, ◌&&◌, Option, none, some, ◌==◌, nat_eq, string_eq, length,
}
use inventory_cloud_service.Base.Int.{ℤ, pos, negsuc, int_eq, scale, Float, finite, infinite}
use inventory_cloud_service.Json.Data.{
  Value, null, bool, int, float, str, list, dict, Items, nil, cons, Fields, end, field, keys,
}
use inventory_cloud_service.Json.Access.{find_key}

-- The powers of two that a product with 2 ^ e multiplies, and divides, by.
abbrev up : ℤ → ℕ
up (pos e) = e
up (negsuc e) = 0

abbrev down : ℤ → ℕ
down (pos e) = 0
down (negsuc e) = e + 1

abbrev equal_bools : Bool → Bool → Bool
equal_bools true b = b
equal_bools false true = false
equal_bools false false = true

unfoldable pub equal_floats : Float → Float → Bool
equal_floats (finite m e) (finite n f) =
    scale m (2 ^ (up e + down f)) == scale n (2 ^ (up f + down e))
equal_floats (infinite a) (infinite b) = equal_bools a b
equal_floats _ _ = false

abbrev number_of : Value → Option Float
number_of (int z) = some (finite z (pos 0))
number_of (bool true) = some (finite (pos 1) (pos 0))
number_of (bool false) = some (finite (pos 0) (pos 0))
number_of (float f) = some f
number_of _ = none

abbrev equals_number : Float → Value → Bool
equals_number f v = elim (number_of v) [ none ↦ false | some g ↦ equal_floats f g ]

unfoldable mutual
  unfolding equal_floats

  pub equals : Value → Value → Bool
  equals null null = true
  equals null _ = false
  equals (bool true) w = equals_number (finite (pos 1) (pos 0)) w
  equals (bool false) w = equals_number (finite (pos 0) (pos 0)) w
  equals (int z) w = equals_number (finite z (pos 0)) w
  equals (float f) w = equals_number f w
  equals (str s) (str t) = s == t
  equals (str s) _ = false
  equals (list vs) (list ws) = equal_items vs ws
  equals (list vs) _ = false
  equals (dict fs) (dict gs) = length (keys fs) == length (keys gs) && within fs gs
  equals (dict fs) _ = false

  pub equal_items : Items → Items → Bool
  equal_items nil nil = true
  equal_items nil (cons w ws) = false
  equal_items (cons v vs) nil = false
  equal_items (cons v vs) (cons w ws) = equals v w && equal_items vs ws

  -- Each key of the first dict has an equal value in the second.
  pub within : Fields → Fields → Bool
  within end gs = true
  within (field k v fs) gs = elim (find_key k gs) [
    | none ↦ false
    | some w ↦ equals v w && within fs gs
  ]
