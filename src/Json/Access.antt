-- ===== src/Json/Access.antt =====
-- Python's operations on a value of unknown shape.
use inventory_cloud_service.Base.{
  ℕ, String, Bool, true, false, not, ◌||◌, Option, none, some, List, [], ◌∷◌, ◌==◌, string_eq,
  if◌then◌else◌, length, contains,
}
use inventory_cloud_service.Base.Text.{occurs_in, is_empty, codes}
use inventory_cloud_service.Base.Int.{ℤ, pos, int_eq, float_equals}
use inventory_cloud_service.Json.Data.{
  Value, null, bool, int, float, str, list, dict, nil, cons, Fields, end, field, Result, ok, err,
  key_error, type_error, value_error, index_error, attribute_error, elements, keys,
}

abbrev pub find_key : String → Fields → Option Value
find_key k end = none
find_key k (field j v fs) = if k == j then some v else find_key k fs

abbrev pub or_raise_key : Option Value → Result Value
or_raise_key none = err key_error
or_raise_key (some v) = ok v

abbrev pub or_default : Option Value → Value → Value
or_default none d = d
or_default (some v) d = v

abbrev pub as_str : Value → Option String
as_str (str s) = some s
as_str _ = none

-- A value that the code has or else raises `ValueError`.
abbrev pub present : {A : Type 0} → Option A → Result A
present none = err value_error
present (some a) = ok a

-- `v[k]` for a text `k`
abbrev pub subscript : Value → String → Result Value
subscript (dict fs) k = or_raise_key (find_key k fs)
subscript _ k = err type_error

-- `v.get(k, d)`
abbrev pub get : Value → String → Value → Result Value
get (dict fs) k d = ok (or_default (find_key k fs) d)
get _ k d = err attribute_error

abbrev first_char : String → Result Value
first_char String.[] = err index_error
first_char (String.◌∷◌ c s) = ok (str (String.◌∷◌ c String.[]))

-- `v[0]`
abbrev pub first : Value → Result Value
first (list nil) = err index_error
first (list (cons v vs)) = ok v
first (str s) = first_char s
first (dict fs) = err key_error
first _ = err type_error

-- `len(v)`
abbrev pub size : Value → Result ℕ
size (list vs) = ok (length (elements vs))
size (dict fs) = ok (length (keys fs))
size (str s) = ok (length (codes s))
size _ = err type_error

-- `for x in v`; a dict gives its keys and a text its characters.
abbrev texts : List String → List Value
texts [] = []
texts (s ∷ ss) = str s ∷ texts ss

abbrev characters : String → List Value
characters String.[] = []
characters (String.◌∷◌ c s) = str (String.◌∷◌ c String.[]) ∷ characters s

abbrev pub iterate : Value → Result (List Value)
iterate (list vs) = ok (elements vs)
iterate (dict fs) = ok (texts (keys fs))
iterate (str s) = ok (characters s)
iterate _ = err type_error

-- `v == t` for a text `t`
abbrev pub is_text : Value → String → Bool
is_text (str s) t = s == t
is_text _ t = false

-- `v == z` for an integer `z`; a bool is the integer 0 or 1, and a float is compared exactly.
abbrev pub is_number : Value → ℤ → Bool
is_number (int a) z = a == z
is_number (bool true) z = pos 1 == z
is_number (bool false) z = pos 0 == z
is_number (float f) z = float_equals f z
is_number _ z = false

-- `v is True`
abbrev pub is_true : Value → Bool
is_true (bool b) = b
is_true _ = false

-- `v == []`
abbrev pub is_empty_list : Value → Bool
is_empty_list (list nil) = true
is_empty_list _ = false

abbrev pub is_str : Value → Bool
is_str (str s) = true
is_str _ = false

abbrev pub is_list : Value → Bool
is_list (list vs) = true
is_list _ = false

abbrev pub is_dict : Value → Bool
is_dict (dict fs) = true
is_dict _ = false

-- `bool(v)`
abbrev pub truthy : Value → Bool
truthy null = false
truthy (bool b) = b
truthy (int z) = not (z == pos 0)
truthy (float f) = not (float_equals f (pos 0))
truthy (str s) = not (is_empty s)
truthy (list nil) = false
truthy (list (cons v vs)) = true
truthy (dict end) = false
truthy (dict (field k v fs)) = true

abbrev pub has_text : String → List Value → Bool
has_text s [] = false
has_text s (v ∷ vs) = is_text v s || has_text s vs

-- `s in v` for a text `s`
abbrev pub member : String → Value → Result Bool
member s (list vs) = ok (has_text s (elements vs))
member s (dict fs) = ok (contains s (keys fs))
member s (str t) = ok (occurs_in s t)
member s _ = err type_error

-- `v.startswith(prefix)` and the like want a text; anything else lacks the method.
abbrev pub expect_str : Value → Result String
expect_str (str s) = ok s
expect_str _ = err attribute_error

-- `re.fullmatch(pattern, v)` wants a text, and raises `TypeError` at any other value.
abbrev pub matchable : Value → Result String
matchable (str s) = ok s
matchable _ = err type_error
